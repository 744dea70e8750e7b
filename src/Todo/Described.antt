-- ===== src/Todo/Described.antt =====
-- The descriptions of the entries, through every message of wraft/src/todo_state.rs.
use wraft.Base.{
  ℕ, zero, suc, ◌≡◌, ◌≢◌, inl, inr, Bool, false, not, List, [], ◌∷◌, ◌++◌, map, arith, ok, >>=-ok,
  Bool-cases, if◌then◌else◌, get_elem?, unwrap, All,
}
use wraft.Todo.{
  Str, is_all_completed, Entry, Filter, State, Msg, add, clear_completed, toggle_all, edit,
  toggle_edit, toggle, remove, update, update_edit, set_filter, fits, keep, is_empty, trim,
  change_nth, with_entries, places, remove_at, toggle_entry, remove_entry, complete_edit, pushed,
  toggle_all_entries, toggle_edit_entry, clear_all_edit, apply,
}

abbrev HasText : Entry → Type 0
HasText e = e.description ≢ []

-- Every entry has a description.
abbrev pub Described : State → Type 0
Described s = All HasText s.entries

change_nth-All :
    (p : Entry → Bool) (f : Entry → Entry) (n : ℕ) (es : List Entry) (es' : List Entry)
    → ((e : Entry) → HasText e → HasText (f e))
    → All HasText es
    → change_nth p f n es ≡ ok es'
    → All HasText es'
unfolding change_nth
change_nth-All p f n [] es' keeps all h = cc
change_nth-All p f zero (e ∷ es) es' keeps (here, all) h = elim (Bool-cases (p e)) [
  | inl shown ↦ ground (arith, keeps e here)
  | inr hidden ↦
      let (rest, ran, done) =
        >>=-ok (change_nth p f zero es) (λ r. ok (e ∷ r)) {y = es'} (ground arith) in
      ground (arith, change_nth-All p f zero es rest keeps all ran)
]
change_nth-All p f (suc n) (e ∷ es) es' keeps (here, all) h = elim (Bool-cases (p e)) [
  | inl shown ↦
      let (rest, ran, done) =
        >>=-ok (change_nth p f n es) (λ r. ok (e ∷ r)) {y = es'} (ground arith) in
      ground (arith, change_nth-All p f n es rest keeps all ran)
  | inr hidden ↦
      let (rest, ran, done) =
        >>=-ok (change_nth p f (suc n) es) (λ r. ok (e ∷ r)) {y = es'} (ground arith) in
      ground (arith, change_nth-All p f (suc n) es rest keeps all ran)
]

remove_at-All :
    (n : ℕ) (es es' : List Entry) → All HasText es → remove_at n es ≡ ok es' → All HasText es'
unfolding remove_at
remove_at-All n [] es' all h = cc
remove_at-All zero (e ∷ es) es' all h = ground arith
remove_at-All (suc n) (e ∷ es) es' all h =
    let (rest, ran, done) = >>=-ok (remove_at n es) (λ es'. ok (e ∷ es')) h in
    ground (arith, remove_at-All n es rest all.1 ran)

map-All :
    (f : Entry → Entry) (es : List Entry)
    → ((e : Entry) → HasText e → HasText (f e))
    → All HasText es
    → All HasText (map f es)
map-All f [] keeps all = tt
map-All f (e ∷ es) keeps (here, all) = (keeps e here, map-All f es keeps all)

keep-All : (p : Entry → Bool) (es : List Entry) → All HasText es → All HasText (keep p es)
keep-All p [] all = tt
keep-All p (e ∷ es) all = ground (arith, keep-All p es all.1)

append-All : (es : List Entry) (e : Entry) → All HasText es → HasText e → All HasText (es ++ e ∷ [])
append-All [] e all here = (here, tt)
append-All (d ∷ es) e all here = (all.0, append-All es e all.1 here)

remove_entry-Described :
    (s t : State) (idx : ℕ) → Described s → remove_entry s idx ≡ ok t → Described t
unfolding remove_entry with_entries
remove_entry-Described s t idx all h =
    let (place, there, h') =
      >>=-ok (unwrap (get_elem? (places (fits s.filter) 0 s.entries) idx)) _ h in
    let (es, ran, done) = >>=-ok (remove_at place s.entries) _ h' in
    ground (arith, remove_at-All place s.entries es all ran)

changed-Described :
    (s t : State) (f : Entry → Entry) (idx : ℕ)
    → ((e : Entry) → HasText e → HasText (f e))
    → Described s
    → with_entries s (change_nth (fits s.filter) f idx s.entries) ≡ ok t
    → Described t
unfolding with_entries
changed-Described s t f idx keeps all h =
    let (es, ran, done) = >>=-ok (change_nth (fits s.filter) f idx s.entries) _ h in
    ground (arith, change_nth-All (fits s.filter) f idx s.entries es keeps all ran)

complete_edit-Described :
    (s t : State) (idx : ℕ) (val : Str) → Described s → complete_edit s idx val ≡ ok t → Described t
unfolding complete_edit
complete_edit-Described s t idx [] all h = remove_entry-Described s t idx all h
complete_edit-Described s t idx (c ∷ cs) all h =
    changed-Described s t (λ e. record e { description = c ∷ cs; editing = not e.editing }) idx
      (λ e here blank. cc) all h

pushed-Described : (s : State) → Described s → All HasText (pushed s)
unfolding pushed
pushed-Described s all = elim (Bool-cases (is_empty (trim s.value))) [
  | inl blank ↦ rw blank all
  | inr text ↦ rw text (
      append-All s.entries
        (record { description = trim s.value; completed = false; editing = false }) all
        (λ e. ground arith))
]

set_keeps :
    (filter : Filter) (value : Bool) (e : Entry)
    → HasText e
    → HasText (if fits filter e then record e { completed = value } else e)
set_keeps filter value e here = ground arith

-- A message that is applied to a list in which every entry has a description leaves it so.
pub apply-Described : (s t : State) (m : Msg) → Described s → apply s m ≡ ok t → Described t
unfolding apply toggle_entry toggle_edit_entry toggle_all_entries clear_all_edit
apply-Described s t add all h = ground (arith, pushed-Described s all)
apply-Described s t (edit idx) all h =
    let (r, ran, done) = >>=-ok (complete_edit s idx (trim s.edit_value)) _ h in
    ground (arith, complete_edit-Described s r idx (trim s.edit_value) all ran)
apply-Described s t (update val) all h = ground arith
apply-Described s t (update_edit val) all h = ground arith
apply-Described s t (remove idx) all h = remove_entry-Described s t idx all h
apply-Described s t (set_filter filter) all h = ground arith
apply-Described s t (toggle_edit idx) all h =
    let (entry, there, h') = >>=-ok (unwrap (get_elem? s.entries idx)) _ h in
    changed-Described (clear_all_edit (record s { edit_value = entry.description })) t
      (λ e. record e { editing = not e.editing }) idx (λ e here. here)
      (map-All (λ e. record e { editing = false }) s.entries (λ e here. here) all) h'
apply-Described s t toggle_all all h =
    let value = not (is_all_completed s) in
    let f : Entry → Entry = λ e. if fits s.filter e then record e { completed = value } else e in
    ground (arith, map-All f s.entries (λ e here. set_keeps s.filter value e here) all)
apply-Described s t (toggle idx) all h =
    changed-Described s t (λ e. record e { completed = not e.completed }) idx (λ e here. here) all h
apply-Described s t clear_completed all h =
    ground (arith, keep-All (fits Filter.active) s.entries all)
