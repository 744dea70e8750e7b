-- ===== src/Todo/Marks.antt =====
-- Which entries are completed, and which are being edited.
use wraft.Base.{
  ◌+◌, ◌≡◌, ◌≢◌, refl, ap, inl, inr, Bool, true, false, not, ◌&&◌, List, [], ◌∷◌, map, arith, ok,
  Bool-cases, if◌then◌else◌, length,
}
use wraft.Todo.{
  Entry, Filter, State, clear_completed, toggle_all, fits, keep, every, is_empty, total,
  total_completed, is_all_completed, toggle_all_entries, apply,
}

keep-active :
    (es : List Entry)
    → (keep (fits Filter.completed) (keep (fits Filter.active) es) ≡ [])
      × (length (keep (fits Filter.active) es) + length (keep (fits Filter.completed) es)
          ≡ length es)
keep-active [] = (refl, omega arith)
keep-active (e ∷ es) = elim (Bool-cases e.completed) [
  | inl done ↦ ground (arith, keep-active es)
  | inr open_still ↦ ground (arith, keep-active es)
]

-- `ClearCompleted` takes as many entries out of the list as were completed, leaves none that is,
-- and leaves the entries that were not in their order.
pub clear_completed_lem :
    (s : State)
    → (s' : State) × (apply s clear_completed ≡ ok s')
      × (total_completed s' ≡ 0)
      × (total s' + total_completed s ≡ total s)
      × (keep (fits Filter.active) s.entries ≡ s'.entries)
unfolding apply total total_completed
clear_completed_lem s = (
  record s { entries = keep (fits Filter.active) s.entries },
  refl,
  ap length (keep-active s.entries).0,
  (keep-active s.entries).1,
  refl,
)

length-map : {A B : Type 0} (f : A → B) (xs : List A) → length (map f xs) ≡ length xs
length-map f [] = refl
length-map f (x ∷ xs) = rw (length-map f xs)

keep-all : (es : List Entry) → keep (fits Filter.all) es ≡ es
keep-all [] = refl
keep-all (e ∷ es) = rw (keep-all es)

every-marked :
    (value : Bool) (e : Entry) (es : List Entry)
    → every
        (λ d. d.completed)
        (map (λ d. if fits Filter.all d then record d { completed = value } else d) (e ∷ es))
      ≡ value
every-marked true e [] = refl
every-marked false e es = refl
every-marked true e (d ∷ es) = every-marked true d es

abbrev mark : Bool → Entry → Entry
mark value d = if fits Filter.all d then record d { completed = value } else d

all_marked :
    (value : Bool) (es : List Entry)
    → es ≢ []
    → (not (is_empty (map (mark value) es)) && every (λ d. d.completed) (map (mark value) es)
        ≡ value)
      × (length (map (mark value) es) ≡ length es)
all_marked value [] more = absurd (more refl)
all_marked value (e ∷ es) more = (every-marked value e es, length-map (mark value) (e ∷ es))

-- `ToggleAll` on a list that is not empty, under the filter that shows all, turns a list with every
-- entry completed into one that is not so, and any other list into one with every entry completed;
-- it keeps the number of entries.
pub toggle_all_flips :
    (s : State)
    → s.filter ≡ Filter.all
    → s.entries ≢ []
    → (s' : State) × (apply s toggle_all ≡ ok s')
      × (is_all_completed s' ≡ not (is_all_completed s))
      × (total s' ≡ total s)
unfolding apply toggle_all_entries is_all_completed total
toggle_all_flips s shows more =
    let shown = keep (fits Filter.all) s.entries in
    let value = not (not (is_empty shown) && every (λ d. d.completed) shown) in
    let marked = all_marked value s.entries more in
    (
      toggle_all_entries s (not (is_all_completed s)),
      refl,
      rw (shows, keep-all (map (mark value) s.entries)) marked.0,
      rw shows marked.1,
    )
