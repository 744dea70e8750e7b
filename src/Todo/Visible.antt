-- ===== src/Todo/Visible.antt =====
-- Indices in messages: `Toggle` and `Remove`, among the entries that fit the filter.
use wraft.Base.{
  ℕ, zero, suc, ◌+◌, ◌≤◌, ◌≡◌, refl, ap, ◌⊎◌, inl, inr, Bool, true, not, none, some, List, [], ◌∷◌,
  ◌++◌, arith, ok, panic, Bool-cases, length, get_elem?,
}
use wraft.Todo.{
  Entry, State, toggle, remove, fits, keep, change_nth, places, remove_at, with_entries,
  toggle_entry, remove_entry, apply,
}

-- `e` is the `n`th entry of the list that fits, behind `xs` and before `ys`.
abbrev pub NthFits : (Entry → Bool) → ℕ → List Entry → List Entry → Entry → List Entry → Type 0
NthFits p n es xs e ys = (es ≡ xs ++ e ∷ ys) × (p e ≡ true) × (length (keep p xs) ≡ n)

pub nth_fits :
    (p : Entry → Bool) (n : ℕ) (es : List Entry)
    → ((xs : List Entry) × (e : Entry) × (ys : List Entry) × NthFits p n es xs e ys)
      ⊎ (length (keep p es) ≤ n)
nth_fits p n [] = inr (omega arith)
nth_fits p zero (e ∷ es) = elim (Bool-cases (p e)) [
  | inl fit ↦ inl ([], e, es, (refl, fit, refl))
  | inr hidden ↦ elim (nth_fits p zero es) [
    | inl (xs, d, ys, (same, fit, before)) ↦
        inl (e ∷ xs, d, ys, (ap (λ zs. e ∷ zs) same, fit, ground arith))
    | inr few ↦ inr (ground arith)
  ]
]
nth_fits p (suc n) (e ∷ es) = elim (Bool-cases (p e)) [
  | inl fit ↦ elim (nth_fits p n es) [
    | inl (xs, d, ys, (same, fits, before)) ↦
        inl (e ∷ xs, d, ys, (ap (λ zs. e ∷ zs) same, fits, ground arith))
    | inr few ↦ inr (ground arith)
  ]
  | inr hidden ↦ elim (nth_fits p (suc n) es) [
    | inl (xs, d, ys, (same, fit, before)) ↦
        inl (e ∷ xs, d, ys, (ap (λ zs. e ∷ zs) same, fit, ground arith))
    | inr few ↦ inr (ground arith)
  ]
]

pub change_nth-fits :
    (p : Entry → Bool) (f : Entry → Entry) (n : ℕ) (xs ys : List Entry) (e : Entry)
    → p e ≡ true
    → length (keep p xs) ≡ n
    → change_nth p f n (xs ++ e ∷ ys) ≡ ok (xs ++ f e ∷ ys)
unfolding change_nth
change_nth-fits p f zero [] ys e fit before = ground arith
change_nth-fits p f (suc n) [] ys e fit before = absurd (omega arith)
change_nth-fits p f zero (x ∷ xs) ys e fit before = elim (Bool-cases (p x)) [
  | inl shown ↦ absurd (ground arith)
  | inr hidden ↦ ground (arith, change_nth-fits p f zero xs ys e fit (ground arith))
]
change_nth-fits p f (suc n) (x ∷ xs) ys e fit before = elim (Bool-cases (p x)) [
  | inl shown ↦ ground (arith, change_nth-fits p f n xs ys e fit (ground arith))
  | inr hidden ↦ ground (arith, change_nth-fits p f (suc n) xs ys e fit (ground arith))
]

pub change_nth-few :
    (p : Entry → Bool) (f : Entry → Entry) (n : ℕ) (es : List Entry)
    → length (keep p es) ≤ n
    → change_nth p f n es ≡ panic
unfolding change_nth
change_nth-few p f n [] few = refl
change_nth-few p f zero (e ∷ es) few = elim (Bool-cases (p e)) [
  | inl shown ↦ absurd (ground arith)
  | inr hidden ↦ ground (arith, change_nth-few p f zero es (ground arith))
]
change_nth-few p f (suc n) (e ∷ es) few = elim (Bool-cases (p e)) [
  | inl shown ↦ ground (arith, change_nth-few p f n es (ground arith))
  | inr hidden ↦ ground (arith, change_nth-few p f (suc n) es (ground arith))
]

places-fits :
    (p : Entry → Bool) (i n : ℕ) (xs ys : List Entry) (e : Entry)
    → p e ≡ true
    → length (keep p xs) ≡ n
    → get_elem? (places p i (xs ++ e ∷ ys)) n ≡ some (i + length xs)
unfolding places
places-fits p i n [] ys e fit before = ground arith
places-fits p i zero (x ∷ xs) ys e fit before =
    ground (arith, places-fits p (i + 1) zero xs ys e fit)
places-fits p i (suc n) (x ∷ xs) ys e fit before = elim (Bool-cases (p x)) [
  | inl shown ↦ ground (arith, places-fits p (i + 1) n xs ys e fit (ground arith))
  | inr hidden ↦ ground (arith, places-fits p (i + 1) (suc n) xs ys e fit (ground arith))
]

places-few :
    (p : Entry → Bool) (i n : ℕ) (es : List Entry)
    → length (keep p es) ≤ n
    → get_elem? (places p i es) n ≡ none
unfolding places
places-few p i n [] few = refl
places-few p i zero (e ∷ es) few = ground (arith, places-few p (i + 1) zero es)
places-few p i (suc n) (e ∷ es) few =
    ground (arith, places-few p (i + 1) n es, places-few p (i + 1) (suc n) es)

remove_at-length :
    (xs ys : List Entry) (e : Entry) → remove_at (length xs) (xs ++ e ∷ ys) ≡ ok (xs ++ ys)
unfolding remove_at
remove_at-length [] ys e = refl
remove_at-length (x ∷ xs) ys e = rw (remove_at-length xs ys e)

pub remove_entry-fits :
    (s : State) (idx : ℕ) (xs ys : List Entry) (e : Entry)
    → NthFits (fits s.filter) idx s.entries xs e ys
    → remove_entry s idx ≡ ok (record s { entries = xs ++ ys })
unfolding remove_entry with_entries
remove_entry-fits s idx xs ys e (same, fit, before) =
    let place : 0 + length xs ≡ length xs = omega arith in
    rw (same, places-fits (fits s.filter) 0 idx xs ys e fit before, place, remove_at-length xs ys e)
      refl

pub toggle_entry-fits :
    (s : State) (idx : ℕ) (xs ys : List Entry) (e : Entry)
    → NthFits (fits s.filter) idx s.entries xs e ys
    → toggle_entry s idx
      ≡ ok (record s { entries = xs ++ record e { completed = not e.completed } ∷ ys })
unfolding toggle_entry with_entries
toggle_entry-fits s idx xs ys e (same, fit, before) =
    let f : Entry → Entry = λ e. record e { completed = not e.completed } in
    rw (same, change_nth-fits (fits s.filter) f idx xs ys e fit before) refl

-- `Toggle` with the index of a visible entry changes whether that entry is completed and nothing
-- else; with any other index it panics.
pub toggle_lem :
    (s : State) (idx : ℕ)
    → ((xs : List Entry) × (e : Entry) × (ys : List Entry) × NthFits
          (fits s.filter)
          idx
          s.entries
          xs
          e
          ys
        × (apply s (toggle idx)
            ≡ ok (record s { entries = xs ++ record e { completed = not e.completed } ∷ ys })))
      ⊎ ((length (keep (fits s.filter) s.entries) ≤ idx) × (apply s (toggle idx) ≡ panic))
unfolding apply toggle_entry with_entries
toggle_lem s idx =
    let f : Entry → Entry = λ e. record e { completed = not e.completed } in
    elim (nth_fits (fits s.filter) idx s.entries) [
      | inl (xs, e, ys, nth) ↦ inl (xs, e, ys, nth, toggle_entry-fits s idx xs ys e nth)
      | inr few ↦ inr (few, rw (change_nth-few (fits s.filter) f idx s.entries few) refl)
    ]

-- `Remove` with the index of a visible entry takes that entry out of the list and changes nothing
-- else; with any other index it panics.
pub remove_entry_lem :
    (s : State) (idx : ℕ)
    → ((xs : List Entry) × (e : Entry) × (ys : List Entry) × NthFits
          (fits s.filter)
          idx
          s.entries
          xs
          e
          ys
        × (apply s (remove idx) ≡ ok (record s { entries = xs ++ ys })))
      ⊎ ((length (keep (fits s.filter) s.entries) ≤ idx) × (apply s (remove idx) ≡ panic))
unfolding apply remove_entry with_entries
remove_entry_lem s idx = elim (nth_fits (fits s.filter) idx s.entries) [
  | inl (xs, e, ys, nth) ↦ inl (xs, e, ys, nth, remove_entry-fits s idx xs ys e nth)
  | inr few ↦ inr (few, rw (places-few (fits s.filter) 0 idx s.entries few) refl)
]
