-- ===== src/RingBuf/Laws.antt =====
-- `add` on a valid buffer, as an operation on the finite map of its contents.
use wraft.Base.{
  subst, ℕ, ◌+◌, ◌%◌, ◌<◌, ◌≤◌, ◌^◌, ◌≡◌, refl, ◌∙◌, ◌⊎◌, inl, inr, Option, none, some, List, arith,
  ok, Bool-cases, if◌then◌else◌, ltb, ◌==◌, length, get_elem?, set, length-set, get_elem?-set,
  get_elem?-some,
}
use wraft.RingBuf.{RingBuf, added, overflow, add}
use wraft.RingBuf.Window.{IsValid, SlotFits, place_distinct, held, find}
use native.Mathlib.Nat.{mod-lt}

-- What holds of a list's members and of a new one holds after it is written.
pub set_fits :
    {A : Type 0} (P : ℕ → A → Type 0) (xs : List A) (i : ℕ) (x : A)
    → i < length xs
    → P i x
    → ((k : ℕ) (s : A) → get_elem? xs k ≡ some s → P k s)
    → (k : ℕ) (s : A) → get_elem? (set xs i x) k ≡ some s
    → P k s
set_fits P xs i x inside new old k s here = elim (Bool-cases (i == k)) [
  | inl hit ↦
      subst (λ n. P n s) (ground arith)
        (subst (P i) (ground (arith, get_elem?-set xs i k x inside)) new)
  | inr miss ↦ old k s (ground (arith, get_elem?-set xs i k x inside))
]

module _ {T : Type 0} where
  -- The slot of a number in the window holds that number or nothing, and a number outside the
  -- window is in no slot.
  pub slot_of :
      (r : RingBuf T) (idx : ℕ)
      → IsValid r
      → (get_elem? r.slots (idx % r.capacity) ≡ some none)
        ⊎ ((j : ℕ) × (v : T) × (get_elem? r.slots (idx % r.capacity) ≡ some (some (j, v)))
            × (j % r.capacity ≡ idx % r.capacity)
            × (r.min_idx ≤ j)
            × (j < r.next_idx))
  slot_of r idx v =
      let (slot, here) =
        get_elem?-some r.slots (idx % r.capacity) (omega (arith, v.size, mod-lt idx v.room)) in
      split slot here (v.fits (idx % r.capacity) slot here)
    where
      split :
          (slot : Option (ℕ × T))
          → get_elem? r.slots (idx % r.capacity) ≡ some slot
          → SlotFits r (idx % r.capacity) slot
          → (get_elem? r.slots (idx % r.capacity) ≡ some none)
            ⊎ ((j : ℕ) × (v : T) × (get_elem? r.slots (idx % r.capacity) ≡ some (some (j, v)))
                × (j % r.capacity ≡ idx % r.capacity)
                × (r.min_idx ≤ j)
                × (j < r.next_idx))
      split none here f = inl here
      split (some (j, v)) here f = inr (j, v, here, f.0, f.1, f.2)

  -- The slot for the next number is free while the window is narrower than the buffer.
  pub next_free :
      (r : RingBuf T)
      → IsValid r
      → r.next_idx < r.min_idx + r.capacity
      → get_elem? r.slots (r.next_idx % r.capacity) ≡ some none
  next_free r v narrow = elim (slot_of r r.next_idx v) [
    | inl free ↦ free
    | inr (j, x, here, same, above, below) ↦
        absurd (place_distinct r.capacity j r.next_idx v.room below (omega arith) same)
  ]

  -- Writing a slot of the buffer.
  abbrev pub written : RingBuf T → ℕ → Option (ℕ × T) → RingBuf T
  written r i slot = record r { slots = set r.slots i slot }

  pub find-written :
      (r : RingBuf T) (i j : ℕ) (slot : Option (ℕ × T))
      → i < length r.slots
      → find (written r i slot) j ≡ (if i == j % r.capacity then held (some slot) j else find r j)
  find-written r i j slot h = ground (arith, get_elem?-set r.slots i (j % r.capacity) slot h)

  SlotFits-grow :
      (r : RingBuf T) (k : ℕ) (slot : Option (ℕ × T))
      → SlotFits r k slot
      → SlotFits (record r { next_idx = r.next_idx + 1 }) k slot
  SlotFits-grow r k none f = tt
  SlotFits-grow r k (some (j, x)) f = omega arith

  -- `add` on a valid buffer fails exactly when the window is as wide as the buffer, with the value
  -- given back and nothing changed. Otherwise it gives the value the next number, under which the
  -- buffer had nothing, and counts on; the buffer stays valid, and its contents differ from before
  -- at that number alone.
  pub add_lem :
      (r : RingBuf T) (value : T)
      → IsValid r
      → r.next_idx + 1 < 2 ^ 32
      → ((r.next_idx ≡ r.min_idx + r.capacity) × (add r value ≡ ok (r, overflow value)))
        ⊎ ((r.next_idx < r.min_idx + r.capacity)
            × ((r' : RingBuf T) × (add r value ≡ ok (r', added r.next_idx))
                × IsValid r'
                × (r'.next_idx ≡ r.next_idx + 1)
                × (find r r.next_idx ≡ none)
                × ((j : ℕ) → find r' j ≡ (if r.next_idx == j then some value else find r j))))
  unfolding add
  add_lem r value v room = elim (Bool-cases (ltb r.next_idx (r.min_idx + r.capacity))) [
    | inr full ↦ inl (ground arith, ground arith)
    | inl narrow ↦
        let i = r.next_idx % r.capacity in
        let inside : i < length r.slots = omega (arith, v.size, mod-lt r.next_idx v.room) in
        let free = next_free r v (ground arith) in
        let slot : Option (ℕ × T) = some (r.next_idx, value) in
        inr (
          ground arith,
          (
            record r { slots = set r.slots i slot; next_idx = r.next_idx + 1 },
            ground arith,
            record {
              room = v.room;
              small = v.small;
              size = length-set r.slots i slot ∙ v.size;
              ordered = omega (arith, v.ordered);
              narrow = ground arith;
              word = room;
              fits =
                  set_fits (SlotFits (record r { next_idx = r.next_idx + 1 })) r.slots i slot inside
                    (refl, v.ordered, omega arith)
                    (λ k s here. SlotFits-grow r k s (v.fits k s here));
            },
            refl,
            ground arith,
            (λ j. ground (arith, find-written r i j slot inside, free)),
          ),
        )
  ]
