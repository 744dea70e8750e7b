-- ===== src/Tests/Todo.antt =====
-- A list with a completed entry and an active one.
use wraft.Base.{◌≡◌, ◌≢◌, refl, true, false, [], ◌∷◌, map, ok, ◌>>=◌}
use wraft.Todo.{
  Entry, Filter, State, Msg, add, clear_completed, toggle_all, edit, toggle_edit, toggle, remove,
  fits, keep, trim, trim_start, trim_end, is_whitespace, total, total_completed, is_all_completed,
  apply,
}
use wraft.Todo.Texts.{closed, edit_overwrites}
use wraft.Todo.Described.{Described, apply-Described}

abbrev milk : Entry
milk = record { description = 109 ∷ []; completed = true; editing = false }

abbrev bread : Entry
bread = record { description = 98 ∷ []; completed = false; editing = false }

abbrev list : Filter → State
list f = record {
  entries = milk ∷ bread ∷ [];
  filter = f;
  value = 32 ∷ 116 ∷ 32 ∷ [];
  edit_value = [];
}

abbrev shown : State
shown = list Filter.active

abbrev unfiltered : State
unfiltered = list Filter.all

has_text : trim milk.description ≢ []
unfolding trim trim_start trim_end is_whitespace
has_text h = cc

edit_overwrites_example :
    (apply shown (toggle_edit 0) >>= λ t. apply t (edit 0))
    ≡ ok (record shown {
      entries =
          closed milk
          ∷ record bread { description = trim milk.description; editing = false }
          ∷ map closed [];
      edit_value = [];
    })
edit_overwrites_example = edit_overwrites shown milk bread [] refl refl refl has_text

list_texts : Described shown
list_texts = ((λ h. cc), ((λ h. cc), tt))

abbrev grown : State
grown = record shown {
  entries =
      milk ∷ bread ∷ record { description = 116 ∷ []; completed = false; editing = false } ∷ [];
  value = [];
}

grows : apply shown add ≡ ok grown
unfolding apply trim wraft.Todo.trim_end wraft.Todo.trim_start wraft.Todo.is_whitespace
grows = refl

apply-Described_example : Described grown
apply-Described_example = apply-Described shown grown add list_texts grows
