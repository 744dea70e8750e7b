-- ===== src/App/Page/Clicks.antt =====
-- The elements of the page of todo.rs, and the entries that they are drawn for.
use wraft.Base.{
  sym, subst, ◌↔◌, ℕ, zero, suc, ◌+◌, ◌≡◌, refl, Bool, true, not, some, none, List, [], ◌∷◌, ◌++◌,
  arith, ok, length, get_elem?, get_elem?-lt, inl, inr, Bool-cases, ap, ◌∙◌,
}
use wraft.Todo.{trim, Entry, State, fits, keep, apply, Filter}
use wraft.Todo.Visible.{NthFits, remove_entry-fits, toggle_entry-fits}
use wraft.Todo.Texts.{closed, edit-filled, edit-empty, toggle_edit_lem}
use wraft.App.Page.{
  on_enter, edit, focus, update_edit, view_entry_edit_input, is_empty, map, false, EditInput, Row,
  view, view_entry, rows_from, as_href,
}
use wraft.App.Startup.{get_session_key, from_str_radix, from_digits, to_digit}

get_elem?-rows :
    (s : State) (i n : ℕ) (es : List Entry) (row : Row)
    → get_elem? (rows_from s i es) n ≡ some row
    → (e : Entry) × (get_elem? es n ≡ some e) × (row ≡ view_entry s (i + n) e)
unfolding rows_from view_entry
get_elem?-rows s i n [] row h = cc
get_elem?-rows s i zero (x ∷ es) row h = (x, refl, ground arith)
get_elem?-rows s i (suc n) (x ∷ es) row h =
    let (e, there, drawn) = get_elem?-rows s (suc i) n es row h in
    let place : suc i + n ≡ i + suc n = omega arith in
    (e, there, drawn ∙ ap (λ k. view_entry s k e) place)

keep-nth :
    (p : Entry → Bool) (n : ℕ) (xs ys : List Entry) (e : Entry)
    → p e ≡ true
    → length (keep p xs) ≡ n
    → get_elem? (keep p (xs ++ e ∷ ys)) n ≡ some e
keep-nth p n [] ys e fit before = ground arith
keep-nth p zero (x ∷ xs) ys e fit before = ground (arith, keep-nth p zero xs ys e fit)
keep-nth p (suc n) (x ∷ xs) ys e fit before = elim (Bool-cases (p x)) [
  | inl shown ↦ ground (arith, keep-nth p n xs ys e fit (ground arith))
  | inr hidden ↦ ground (arith, keep-nth p (suc n) xs ys e fit (ground arith))
]

-- The input is drawn for a description that is edited, with the text of the editor. It stands for
-- the entry: leaving it, or Enter, saves the text without the spaces around it, or takes the entry
-- out if no text is left. Another key does nothing.
pub record Edits (s : State) (input : EditInput) (xs : List Entry) (e : Entry) (ys : List Entry)
    : Type 0 where
  pub shows : input.value ≡ s.edit_value
  pub enter : input.onkeypress true ≡ some input.onblur
  pub other_key : input.onkeypress false ≡ none
  pub saves :
      is_empty (trim s.edit_value) ≡ false
      → apply s input.onblur
        ≡ ok (record s {
          entries =
              xs ++ record e { description = trim s.edit_value; editing = not e.editing } ∷ ys;
          edit_value = [];
        })
  pub clears :
      is_empty (trim s.edit_value) ≡ true
      → apply s input.onblur ≡ ok (record s { entries = xs ++ ys; edit_value = [] })

-- The row is drawn for the entry, and its elements act on that entry and no other, but that the
-- text for the editor is that of the entry with the row's number in the whole list.
pub record Draws (s : State) (n : ℕ) (row : Row) (xs : List Entry) (e : Entry) (ys : List Entry)
    : Type 0 where
  pub nth : NthFits (fits s.filter) n s.entries xs e ys
  pub description : row.description ≡ e.description
  pub completed : row.completed ≡ e.completed
  pub editing : row.editing ≡ e.editing
  pub toggles :
      apply s row.onclick_toggle
      ≡ ok (record s { entries = xs ++ record e { completed = not e.completed } ∷ ys })
  pub removes : apply s row.onclick_destroy ≡ ok (record s { entries = xs ++ ys })
  pub opens :
      (named : Entry) × (get_elem? s.entries n ≡ some named)
      × (apply s row.ondblclick
          ≡ ok (record s {
            entries = map closed xs ++ record e { editing = true } ∷ map closed ys;
            edit_value = named.description;
          }))
  pub has_input : (e.editing ≡ false) ↔ (row.edit_input ≡ none)
  pub edits : (input : EditInput) → row.edit_input ≡ some input → Edits s input xs e ys

input-Edits :
    (s : State) (n : ℕ) (xs : List Entry) (e : Entry) (ys : List Entry)
    → NthFits (fits s.filter) n s.entries xs e ys
    → (input : EditInput) → view_entry_edit_input s n e ≡ some input
    → Edits s input xs e ys
input-Edits s n xs e ys nth input drawn = elim (Bool-cases e.editing) [
  | inr shut ↦ ground (arith, shut, drawn)
  | inl open_now ↦
      let made : EditInput = record {
        value = s.edit_value;
        oninput = update_edit;
        onmouseover = focus;
        onblur = edit n;
        onkeypress = λ enter. on_enter enter (edit n);
      } in
      let same : made ≡ input = ground (arith, open_now, drawn) in
      subst (λ i. Edits s i xs e ys) same
        (record {
          shows = refl;
          enter = refl;
          other_key = refl;
          saves = edit-filled s n xs ys e nth;
          clears = edit-empty s n xs ys e nth;
        })
]

shown_input :
    (s : State) (n : ℕ) (e : Entry) → (e.editing ≡ false) ↔ (view_entry_edit_input s n e ≡ none)
shown_input s n e = ground arith

-- Each row of the page, under any filter, shows an entry of the list, and its elements act on that
-- entry while the list is the one that is drawn, without a panic. A click on the checkbox changes the
-- mark of the entry, the button takes it out, a double click on the label makes it the only entry
-- that is edited, with the text of the entry that has the row's number in the whole list, and the
-- input, which is there just when the entry is edited, saves its text in the entry or takes it out.
pub row-Draws :
    (s : State) (n : ℕ) (row : Row)
    → get_elem? (view s).rows n ≡ some row
    → (xs : List Entry) × (e : Entry) × (ys : List Entry) × Draws s n row xs e ys
unfolding view view_entry apply wraft.Todo.toggle_entry
row-Draws s n row there =
    let p = fits s.filter in
    let (d, kept, drawn) = get_elem?-rows s 0 n (keep p s.entries) row there in
    elim (toggle_edit_lem s n) [
      | inr (few, fails) ↦ absurd (omega (arith, few, get_elem?-lt (keep p s.entries) n kept))
      | inl (xs, e, ys, named, (same, fit, before), here, opened) ↦
          let found : get_elem? (keep p s.entries) n ≡ some e =
            rw same (keep-nth p n xs ys e fit before) in
          let own : d ≡ e = ground (arith, found, kept) in
          let zero_more : 0 + n ≡ n = omega arith in
          let is_drawn : view_entry s n e ≡ row =
            sym (drawn ∙ ap (λ k. view_entry s k d) zero_more ∙ ap (λ k. view_entry s n k) own) in
          (
            xs,
            e,
            ys,
            subst (λ r. Draws s n r xs e ys) is_drawn
                (record {
                  nth = (same, fit, before);
                  description = refl;
                  completed = refl;
                  editing = refl;
                  toggles = toggle_entry-fits s n xs ys e (same, fit, before);
                  removes = remove_entry-fits s n xs ys e (same, fit, before);
                  opens = (named, here, opened);
                  has_input = shown_input s n e;
                  edits = input-Edits s n xs e ys (same, fit, before);
                }),
          )
    ]

-- The address that a filter's link leaves in the window has no session key: a window that is
-- loaded again after a click on a filter does not find its session.
pub filter_forgets_key : (filter : Filter) → get_session_key (some (as_href filter)) ≡ none
unfolding from_str_radix from_digits to_digit
filter_forgets_key Filter.all = refl
filter_forgets_key Filter.active = refl
filter_forgets_key Filter.completed = refl
