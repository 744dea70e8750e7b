-- ===== src/RingBuf/Remove.antt =====
-- `remove` on a valid buffer, as an operation on the finite map of its contents.
use wraft.Base.{
  ℕ, zero, suc, ◌+◌, ◌-◌, ◌%◌, ◌<◌, ◌≤◌, ◌≡◌, ◌≢◌, refl, ◌∙◌, ◌⊎◌, inl, inr, true, Option, none,
  some, arith, ok, Bool-cases, if◌then◌else◌, ltb, ◌==◌, length, get_elem?, set, length-set,
  add_usize,
}
use wraft.RingBuf.{data_idx, RingBuf, skip, remove, remove_at}
use wraft.RingBuf.Window.{IsValid, SlotFits, find}
use wraft.RingBuf.Laws.{slot_of, written, find-written, set_fits}
use native.Mathlib.Nat.{mod-lt}

module _ {T : Type 0} where
  SlotFits-skip :
      (r : RingBuf T) (k : ℕ) (slot : Option (ℕ × T))
      → get_elem? r.slots (r.min_idx % r.capacity) ≡ some none
      → get_elem? r.slots k ≡ some slot
      → SlotFits r k slot
      → SlotFits (record r { min_idx = r.min_idx + 1 }) k slot
  SlotFits-skip r k none free here f = tt
  SlotFits-skip r k (some (j, x)) free here f = ground arith

  -- A free slot at the low end of the window can be given up.
  IsValid-skip :
      (r : RingBuf T)
      → IsValid r
      → r.min_idx < r.next_idx
      → get_elem? r.slots (r.min_idx % r.capacity) ≡ some none
      → IsValid (record r { min_idx = r.min_idx + 1 })
  IsValid-skip r v lt free = record {
    room = v.room;
    small = v.small;
    size = v.size;
    ordered = omega (arith, lt);
    narrow = omega (arith, v.narrow);
    word = v.word;
    fits = λ k slot here. SlotFits-skip r k slot free here (v.fits k slot here);
  }

  -- The loop ends by its test on this much fuel, at the first number of the window that is in use.
  abbrev pub Skipped : RingBuf T → RingBuf T → Type 0
  Skipped r r' =
      (r'.slots ≡ r.slots)
      × (r'.capacity ≡ r.capacity)
      × (r'.next_idx ≡ r.next_idx)
      × (r.min_idx ≤ r'.min_idx)
      × ((r'.min_idx ≡ r'.next_idx) ⊎ (get_elem? r'.slots (r'.min_idx % r'.capacity) ≢ some none))

  skip_lem :
      (fuel : ℕ) (r : RingBuf T)
      → IsValid r
      → r.next_idx - r.min_idx ≤ fuel
      → (r' : RingBuf T) × (skip fuel r ≡ ok r') × IsValid r' × Skipped r r'
  unfolding skip
  skip_lem zero r v enough =
      (r, refl, v, (refl, refl, refl, omega arith, inl (omega (arith, v.ordered))))
  skip_lem (suc fuel) r v enough = elim (Bool-cases (ltb r.min_idx r.next_idx)) [
    | inr done ↦
        (r, ground arith, v, (refl, refl, refl, omega arith, inl (ground (arith, v.ordered))))
    | inl more ↦ elim (slot_of r r.min_idx v) [
      | inr (j, x, here, same, above, below) ↦
          (r, ground (arith, v.room), v, (refl, refl, refl, omega arith, inr (λ e. ground arith)))
      | inl free ↦
          let one : add_usize r.min_idx 1 ≡ r.min_idx + 1 = ground (arith, v.word) in
          let (r', ran, valid, (a, b, c, d, e)) =
            skip_lem fuel (record r { min_idx = r.min_idx + 1 })
              (IsValid-skip r v (ground arith) free) (omega arith) in
          (r', ground (arith, v.room, ran), valid, (a, b, c, omega arith, e))
    ]
  ]

  SlotFits-low :
      (r : RingBuf T) (k : ℕ) (slot : Option (ℕ × T))
      → SlotFits r k slot
      → SlotFits (written r 0 none) k slot
  SlotFits-low r k none f = tt
  SlotFits-low r k (some (j, x)) f = f

  IsValid-written :
      (r : RingBuf T) (i : ℕ) → IsValid r → i < r.capacity → IsValid (written r i none)
  IsValid-written r i v inside = record {
    room = v.room;
    small = v.small;
    size = length-set r.slots i none ∙ v.size;
    ordered = v.ordered;
    narrow = v.narrow;
    word = v.word;
    fits =
        set_fits (SlotFits (written r i none)) r.slots i none (omega (arith, v.size)) tt
          (λ k s here. SlotFits-low r k s (v.fits k s here));
  }

  -- The contents after a slot in use is emptied.
  kept :
      (r r' : RingBuf T) (idx j : ℕ) (x : T) (k : ℕ)
      → r'.slots ≡ set r.slots (idx % r.capacity) none
      → r'.capacity ≡ r.capacity
      → get_elem? r.slots (idx % r.capacity) ≡ some (some (j, x))
      → (j == idx) ≡ true
      → idx % r.capacity < length r.slots
      → find r' k ≡ (if idx == k then none else find r k)
  kept r r' idx j x k a b here hit inside = elim (Bool-cases (idx == k)) [
    | inl same ↦
        let e : k ≡ idx = ground arith in
        ground (arith, a, b, e, find-written r (idx % r.capacity) k none inside)
    | inr other ↦ elim (Bool-cases (idx % r.capacity == k % r.capacity)) [
      | inl shared ↦ ground (arith, a, b, find-written r (idx % r.capacity) k none inside, here)
      | inr apart ↦ ground (arith, a, b, find-written r (idx % r.capacity) k none inside)
    ]
  ]

  -- `remove` on a valid buffer does not panic. It returns what the buffer has under the number.
  -- If that is nothing the buffer does not change. Otherwise the new buffer is valid, has nothing
  -- under that number and the same under every other one, gives the same number to the next value,
  -- and its window starts at a number in use or is empty.
  pub remove_lem :
      (r : RingBuf T) (idx : ℕ)
      → IsValid r
      → ((find r idx ≡ none) × (remove r idx ≡ ok (r, none)))
        ⊎ ((value : T) × (r' : RingBuf T) × (find r idx ≡ some value)
            × (remove r idx ≡ ok (r', some value))
            × IsValid r'
            × ((j : ℕ) → find r' j ≡ (if idx == j then none else find r j))
            × Skipped (written r (idx % r.capacity) none) r')
  unfolding remove remove_at data_idx
  remove_lem r idx v = elim (slot_of r idx v) [
    | inl free ↦ inl (ground (arith, free), ground (arith, free, v.room))
    | inr (j, x, here, same, above, below) ↦ elim (Bool-cases (j == idx)) [
      | inr other ↦ inl (ground (arith, here), ground (arith, here, v.room))
      | inl hit ↦
          let i = idx % r.capacity in
          let inside : i < r.capacity = mod-lt idx v.room in
          let (r', ran, valid, skipped) =
            skip_lem (r.next_idx - r.min_idx) (written r i none) (IsValid-written r i v inside)
              (omega arith) in
          let (a, b, c, d, e) = skipped in
          inr (
            x,
            r',
            ground (arith, here),
            ground (arith, here, v.room, v.size, ran),
            valid,
            (λ k. kept r r' idx j x k a b here hit (omega (arith, inside, v.size))),
            skipped,
          )
    ]
  ]
