-- ===== src/RingBuf.antt =====
-- wraft/src/ringbuf/mod.rs: a buffer of numbered values, a window over the numbers.
pub mod Window
pub mod Laws
pub mod Remove
pub mod Contents
use wraft.Base.{
  ℕ, zero, suc, ◌+◌, ◌-◌, ◌%◌, Bool, true, false, not, ◌&&◌, Option, none, some, List, Outcome, ok,
  panic, ◌>>=◌, unwrap, if◌then◌else◌, ltb, leb, ◌==◌, length, get_elem?, set, replicate, add_usize,
  sub_usize,
}

pub record RingBuf (T : Type 0) : Type 0 where
  pub slots : List (Option (ℕ × T))
  pub capacity : ℕ
  pub min_idx : ℕ
  pub next_idx : ℕ

-- `Result<usize, Error<T>>`
pub data Added (T : Type 0) : Type 0 where
  added : ℕ → Added T
  overflow : T → Added T

abbrev pub is_none : {A : Type 0} → Option A → Bool
is_none none = true
is_none (some a) = false

-- `v[i] = x`, which panics out of bounds
abbrev pub write : {A : Type 0} → List A → ℕ → A → Outcome (List A)
write xs i x = if ltb i (length xs) then ok (set xs i x) else panic

module _ {T : Type 0} where
  unfoldable pub with_capacity : ℕ → RingBuf T
  with_capacity capacity = record {
    slots = replicate capacity none;
    capacity = capacity;
    min_idx = 0;
    next_idx = 0;
  }

  -- `%` panics at 0.
  unfoldable pub data_idx : RingBuf T → ℕ → Outcome ℕ
  data_idx r idx = if r.capacity == 0 then panic else ok (idx % r.capacity)

  unfoldable pub add : RingBuf T → T → Outcome (RingBuf T × Added T)
  unfolding data_idx
  add r value =
      let idx = r.next_idx in
      if leb r.capacity (sub_usize idx r.min_idx) then ok (r, overflow value) else do
        i ← data_idx r idx
        slots ← write r.slots i (some (idx, value))
        ok (record r { slots = slots; next_idx = add_usize r.next_idx 1 }, added idx)

  -- The loop of `remove`, on fuel.
  unfoldable pub skip : ℕ → RingBuf T → Outcome (RingBuf T)
  unfolding data_idx
  skip zero r = ok r
  skip (suc fuel) r =
      let rest = skip fuel (record r { min_idx = add_usize r.min_idx 1 }) in
      if ltb r.min_idx r.next_idx
      then (do
        i ← data_idx r r.min_idx
        slot ← unwrap (get_elem? r.slots i)
        if is_none slot then rest else ok r)
      else ok r

  -- The rest of `remove`, once the slot `i` of the index is read.
  unfoldable pub remove_at : Option (ℕ × T) → RingBuf T → ℕ → ℕ → Outcome (RingBuf T × Option T)
  unfolding skip
  remove_at none r idx i = ok (r, none)
  remove_at (some (j, value)) r idx i = if not (j == idx) then ok (r, none) else do
    slots ← write r.slots i none
    r' ← skip (r.next_idx - r.min_idx) (record r { slots = slots })
    ok (r', some value)

  unfoldable pub remove : RingBuf T → ℕ → Outcome (RingBuf T × Option T)
  unfolding remove_at data_idx
  remove r idx = do i ← data_idx r idx; slot ← unwrap (get_elem? r.slots i); remove_at slot r idx i
