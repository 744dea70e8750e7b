-- ===== src/RingBuf/Contents.antt =====
-- The values of a valid ring buffer, each as often as it stands in it.
use wraft.Base.{
  zero, suc, replicate, ℕ, ◌+◌, ◌%◌, ◌<◌, ◌^◌, ◌≡◌, refl, inl, inr, Bool, false, Option, none, some,
  [], ◌∷◌, arith, ok, count, count-set, set,
}
use wraft.RingBuf.{with_capacity, RingBuf, added, add, remove}
use wraft.RingBuf.Window.{IsValid, find}
use wraft.RingBuf.Laws.{slot_of, next_free, add_lem}
use wraft.RingBuf.Remove.{remove_lem}

module _ {T : Type 0} (p : T → Bool) where
  abbrev pub slot_counts : Option (ℕ × T) → Bool
  slot_counts none = false
  slot_counts (some (j, v)) = p v

  abbrev pub contents : RingBuf T → ℕ
  contents r = count slot_counts r.slots

  abbrev pub found_count : Option T → ℕ
  found_count none = 0
  found_count (some v) = count p (v ∷ [])

  count-replicate : (n : ℕ) → count slot_counts (replicate n none) ≡ 0
  count-replicate zero = refl
  count-replicate (suc n) = count-replicate n

  pub contents-with_capacity : (cap : ℕ) → contents (with_capacity cap) ≡ 0
  unfolding with_capacity
  contents-with_capacity cap = count-replicate cap

  pub contents-add :
      (r r' : RingBuf T) (value : T) (idx : ℕ)
      → IsValid r
      → r.next_idx + 1 < 2 ^ 32
      → add r value ≡ ok (r', added idx)
      → contents r' ≡ contents r + count p (value ∷ [])
  unfolding add
  contents-add r r' value idx v room h = elim (add_lem r value v room) [
    | inl (wide, ran) ↦ absurd (ground (arith, ran, h))
    | inr (narrow, rest) ↦
        let slot : Option (ℕ × T) = some (r.next_idx, value) in
        let stored : r'.slots ≡ set r.slots (r.next_idx % r.capacity) slot = ground (arith, h) in
        rw stored (
          ground (
            arith,
            count-set slot_counts r.slots (r.next_idx % r.capacity) none slot
                (next_free r v narrow),
          ))
  ]

  contents-removed :
      (r u : RingBuf T) (idx : ℕ) (value : T)
      → IsValid r
      → find r idx ≡ some value
      → u.slots ≡ set r.slots (idx % r.capacity) none
      → contents u + count p (value ∷ []) ≡ contents r
  contents-removed r u idx value v waits cleared = elim (slot_of r idx v) [
    | inl free ↦ absurd (ground (arith, free, waits))
    | inr (j, x, here, same, above, below) ↦
        let own : x ≡ value = ground (arith, here, waits) in
        rw cleared (
          ground
            (arith, own, count-set slot_counts r.slots (idx % r.capacity) (some (j, x)) none here))
  ]

  pub contents-remove :
      (r r' : RingBuf T) (idx : ℕ) (found : Option T)
      → IsValid r
      → remove r idx ≡ ok (r', found)
      → (contents r' + found_count found ≡ contents r) × IsValid r'
  contents-remove r r' idx found v h = elim (remove_lem r idx v) [
    | inl (nothing, ran) ↦
        let to : r' ≡ r = ground (arith, ran, h) in
        let no_value : found ≡ none = ground (arith, ran, h) in rw (to, no_value) (ground arith, v)
    | inr (value, u, waits, ran, valid, others, skipped) ↦
        let to : r' ≡ u = ground (arith, ran, h) in
        let the_value : found ≡ some value = ground (arith, ran, h) in
        rw (to, the_value) (contents-removed r u idx value v waits skipped.0, valid)
  ]
