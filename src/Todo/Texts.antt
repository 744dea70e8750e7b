-- ===== src/Todo/Texts.antt =====
-- Editing a description: `ToggleEdit` and `Edit`.
use wraft.Base.{
  ℕ, ◌<◌, ◌≤◌, ◌≡◌, ◌≢◌, refl, ap, ◌∙◌, ◌⊎◌, inl, inr, Bool, true, false, not, some, List, [], ◌∷◌,
  ◌++◌, map, arith, ok, panic, ◌>>=◌, Option-cases, length, get_elem?, get_elem?-some,
  length-append,
}
use wraft.Todo.{
  is_empty, Entry, Filter, State, edit, toggle_edit, fits, keep, trim, change_nth, with_entries,
  complete_edit, toggle_edit_entry, clear_all_edit, apply,
}
use wraft.Todo.Visible.{remove_entry-fits, NthFits, nth_fits, change_nth-fits, change_nth-few}

-- An entry that is not being edited.
abbrev pub closed : Entry → Entry
closed e = record e { editing = false }

fits-closed : (f : Filter) (e : Entry) → fits f (closed e) ≡ fits f e
fits-closed Filter.all e = refl
fits-closed Filter.active e = refl
fits-closed Filter.completed e = refl

keep-closed :
    (f : Filter) (es : List Entry)
    → length (keep (fits f) (map closed es)) ≡ length (keep (fits f) es)
keep-closed f [] = refl
keep-closed f (e ∷ es) = ground (arith, fits-closed f e, keep-closed f es)

map-append : (xs ys : List Entry) → map closed (xs ++ ys) ≡ map closed xs ++ map closed ys
map-append [] ys = refl
map-append (x ∷ xs) ys = rw (map-append xs ys)

length-keep : (p : Entry → Bool) (es : List Entry) → length (keep p es) ≤ length es
length-keep p [] = omega arith
length-keep p (e ∷ es) = ground (arith, length-keep p es)

pub edit-filled :
    (s : State) (idx : ℕ) (xs ys : List Entry) (e : Entry)
    → NthFits (fits s.filter) idx s.entries xs e ys
    → is_empty (trim s.edit_value) ≡ false
    → apply s (edit idx)
      ≡ ok (record s {
        entries = xs ++ record e { description = trim s.edit_value; editing = not e.editing } ∷ ys;
        edit_value = [];
      })
unfolding apply complete_edit with_entries
edit-filled s idx xs ys e (same, fit, before) filled =
    let f : Entry → Entry =
      λ d. record d { description = trim s.edit_value; editing = not d.editing } in
    rw (filled, same, change_nth-fits (fits s.filter) f idx xs ys e fit before) refl

pub edit-empty :
    (s : State) (idx : ℕ) (xs ys : List Entry) (e : Entry)
    → NthFits (fits s.filter) idx s.entries xs e ys
    → is_empty (trim s.edit_value) ≡ true
    → apply s (edit idx) ≡ ok (record s { entries = xs ++ ys; edit_value = [] })
unfolding apply complete_edit
edit-empty s idx xs ys e nth blank = rw (blank, remove_entry-fits s idx xs ys e nth) refl

-- `ToggleEdit` with the index of a visible entry makes that entry the only one that is being
-- edited. The text that it puts into the editor is the description of the entry that has the index
-- in the whole list. With any other index it panics.
pub toggle_edit_lem :
    (s : State) (idx : ℕ)
    → ((xs : List Entry) × (e : Entry) × (ys : List Entry) × (named : Entry) × NthFits
          (fits s.filter)
          idx
          s.entries
          xs
          e
          ys
        × (get_elem? s.entries idx ≡ some named)
        × (apply s (toggle_edit idx)
            ≡ ok (record s {
              entries = map closed xs ++ record e { editing = true } ∷ map closed ys;
              edit_value = named.description;
            })))
      ⊎ ((length (keep (fits s.filter) s.entries) ≤ idx) × (apply s (toggle_edit idx) ≡ panic))
unfolding apply toggle_edit_entry clear_all_edit with_entries
toggle_edit_lem s idx =
    let f : Entry → Entry = λ e. record e { editing = not e.editing } in
    elim (nth_fits (fits s.filter) idx s.entries) [
      | inl (xs, e, ys, (same, fit, before)) ↦
          let inside : idx < length s.entries =
            omega
              (arith, ap length same, length-append xs (e ∷ ys), length-keep (fits s.filter) xs) in
          let (named, here) = get_elem?-some s.entries idx inside in
          inl (
            xs,
            e,
            ys,
            named,
            (same, fit, before),
            here,
            rw
                (
                  here,
                  same,
                  map-append xs (e ∷ ys),
                  change_nth-fits (fits s.filter) f idx (map closed xs) (map closed ys) (closed e)
                      (fits-closed s.filter e ∙ fit) (keep-closed s.filter xs ∙ before),
                )
                refl,
          )
      | inr few ↦ inr (
        few,
        elim (Option-cases (get_elem? s.entries idx)) [
          | inl gone ↦ rw gone refl
          | inr (named, here) ↦
              rw
                (
                  here,
                  change_nth-few (fits s.filter) f idx (map closed s.entries)
                      (omega (arith, keep-closed s.filter s.entries)),
                )
                refl
        ],
      )
    ]

-- With the first entry hidden by the filter and not blank, and the second one visible, a user who
-- opens the first visible entry and saves it unchanged overwrites its description with the hidden
-- entry's, trimmed.
pub edit_overwrites :
    (s : State) (hidden e : Entry) (es : List Entry)
    → s.entries ≡ hidden ∷ e ∷ es
    → fits s.filter hidden ≡ false
    → fits s.filter e ≡ true
    → trim hidden.description ≢ []
    → (apply s (toggle_edit 0) >>= λ t. apply t (edit 0))
      ≡ ok (record s {
        entries =
            closed hidden
            ∷ record e { description = trim hidden.description; editing = false }
            ∷ map closed es;
        edit_value = [];
      })
unfolding apply toggle_edit_entry clear_all_edit with_entries complete_edit change_nth
edit_overwrites s hidden e es listed hides shows text =
    ground (arith, listed, fits-closed s.filter hidden, fits-closed s.filter e, text)
