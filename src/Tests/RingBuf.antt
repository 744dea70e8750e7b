-- ===== src/Tests/RingBuf.antt =====
-- A buffer of three slots.
use wraft.Base.{
  zero, suc, suc, get_elem?, ℕ, ◌+◌, ◌<◌, ◌^◌, ◌≡◌, ◌⊎◌, refl, Option, none, some, [], ◌∷◌, arith,
  ok, if◌then◌else◌, ◌==◌,
}
use wraft.RingBuf.{RingBuf, with_capacity, remove}
use wraft.RingBuf.Window.{SlotFits, IsValid, SlotFits, find, with_capacity-IsValid}
use wraft.RingBuf.Laws.{written}
use wraft.RingBuf.Remove.{Skipped, remove_lem}

abbrev empty : RingBuf ℕ
empty = with_capacity 3

empty-IsValid : IsValid empty
empty-IsValid = (with_capacity-IsValid ℕ 3 (omega arith) (omega arith)).0

empty_next : empty.next_idx + 1 < 2 ^ 32
unfolding with_capacity
empty_next = omega arith

-- The buffer after one value.
abbrev one : RingBuf ℕ
one = record { slots = some (0, 7) ∷ none ∷ none ∷ []; capacity = 3; min_idx = 0; next_idx = 1 }

one_fits : (i : ℕ) (slot : Option (ℕ × ℕ)) → get_elem? one.slots i ≡ some slot → SlotFits one i slot
one_fits i none here = tt
one_fits zero (some (j, v)) here = ground arith
one_fits (suc zero) (some (j, v)) here = cc
one_fits (suc (suc zero)) (some (j, v)) here = cc
one_fits (suc (suc (suc i))) (some (j, v)) here = cc

one-IsValid : IsValid one
one-IsValid = record {
  room = omega arith;
  small = omega arith;
  size = refl;
  ordered = omega arith;
  narrow = omega arith;
  word = omega arith;
  fits = one_fits;
}

remove_lem_example :
    ((find one 0 ≡ none) × (remove one 0 ≡ ok (one, none)))
    ⊎ ((value : ℕ) × (r' : RingBuf ℕ) × (find one 0 ≡ some value)
        × (remove one 0 ≡ ok (r', some value))
        × IsValid r'
        × ((j : ℕ) → find r' j ≡ (if 0 == j then none else find one j))
        × Skipped (written one 0 none) r')
remove_lem_example = remove_lem one 0 one-IsValid
