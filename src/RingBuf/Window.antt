-- ===== src/RingBuf/Window.antt =====
-- The window of a ring buffer: which numbers its slots can hold.
use wraft.Base.{
  sym, ap, ◌∙◌, replicate, Option-cases, ℕ, ◌+◌, ◌-◌, ◌%◌, ◌<◌, ◌≤◌, ◌^◌, ◌≡◌, ◌≢◌, refl, inl, inr,
  Option, none, some, List, arith, if◌then◌else◌, ◌==◌, length, get_elem?, length-replicate,
  get_elem?-replicate,
}
use wraft.RingBuf.{RingBuf, with_capacity}
use native.Mathlib.Nat.{mod-lt, mod-add-mod, mod-eq_of_lt, mod-eq-sub-mod}
use native.Mathlib.Decide.{dec_lt}

-- Going on from a place by fewer steps than there are places leads to another place.
add-mod-ne : {n a k : ℕ} → 0 < k → k < n → a < n → (a + k) % n ≢ a
add-mod-ne {n} {a} {k} moves few inside = elim (dec_lt (a + k) n) [
  | no wraps ↦
      let rest : (a + k - n) % n ≡ a + k - n = mod-eq_of_lt {n = a + k - n} {m = n} (omega arith) in
      omega (arith, rest, mod-eq-sub-mod {n = a + k} {m = n} (omega arith))
  | yes stays ↦ omega (arith, mod-eq_of_lt stays)
]

pub place_distinct : (cap j k : ℕ) → 0 < cap → j < k → k < j + cap → j % cap ≢ k % cap
place_distinct cap j k pos lt within e =
    add-mod-ne {n = cap} {a = j % cap} {k = k - j} (omega arith) (omega arith) (mod-lt j pos)
      (mod-add-mod j cap (k - j) ∙ ap (λ n. n % cap) (omega arith) ∙ sym e)

-- What the slot at place `i` may hold.
abbrev pub SlotFits : {T : Type 0} → RingBuf T → ℕ → Option (ℕ × T) → Type 0
SlotFits r i none = Unit {0}
SlotFits r i (some (j, v)) = (j % r.capacity ≡ i) × (r.min_idx ≤ j) × (j < r.next_idx)

pub record IsValid {T : Type 0} (r : RingBuf T) : Type 0 where
  pub room : 0 < r.capacity
  pub small : r.capacity < 2 ^ 32
  pub size : length r.slots ≡ r.capacity
  pub ordered : r.min_idx ≤ r.next_idx
  pub narrow : r.next_idx ≤ r.min_idx + r.capacity
  pub word : r.next_idx < 2 ^ 32
  pub fits : (i : ℕ) (slot : Option (ℕ × T)) → get_elem? r.slots i ≡ some slot → SlotFits r i slot

module _ {T : Type 0} where
  abbrev pub held : Option (Option (ℕ × T)) → ℕ → Option T
  held none idx = none
  held (some none) idx = none
  held (some (some (j, v))) idx = if j == idx then some v else none

  -- The value that the buffer has under a number: its contents as a finite map.
  abbrev pub find : RingBuf T → ℕ → Option T
  find r idx = held (get_elem? r.slots (idx % r.capacity)) idx

empty_held :
    {T : Type 0} (xs : List (Option (ℕ × T))) (i idx : ℕ)
    → ((b : Option (ℕ × T)) → get_elem? xs i ≡ some b → b ≡ none)
    → held (get_elem? xs i) idx ≡ none
empty_held xs i idx h = elim (Option-cases (get_elem? xs i)) [
  | inl gone ↦ rw gone refl
  | inr (b, here) ↦ ground (arith, h b here)
]

-- A new buffer with room for at least one value is valid, and has nothing under any number.
pub with_capacity-IsValid :
    (T : Type 0) (cap : ℕ)
    → 0 < cap
    → cap < 2 ^ 32
    → IsValid (with_capacity {T = T} cap)
      × ((idx : ℕ) → find (with_capacity {T = T} cap) idx ≡ none)
unfolding with_capacity
with_capacity-IsValid T cap pos small = (
  record {
    room = pos;
    small = small;
    size = length-replicate cap none;
    ordered = omega arith;
    narrow = omega arith;
    word = omega arith;
    fits = λ i slot here. rw (get_elem?-replicate cap i none slot here) tt;
  },
  λ idx. empty_held (replicate cap none) (idx % cap) idx (get_elem?-replicate cap (idx % cap) none),
)
