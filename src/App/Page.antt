-- ===== src/App/Page.antt =====
-- wraft/src/todo.rs: the page of the todo list. Of what it draws, the parts that show the list's
-- state and the messages that its elements send to the cluster.
pub mod Clicks
pub mod Retries
use wraft.Base.{
  ℕ, suc, ◌+◌, Bool, true, false, Option, none, some, List, [], ◌∷◌, map, Outcome, ok, ◌>>=◌,
  if◌then◌else◌,
}
use wraft.Raft.Types.{ClientResult}
use wraft.Raft.Client.{Answer, Result}
use wraft.Raft.Client as Client
use wraft.Todo.{
  Str, is_empty, Entry, Filter, State, fits, keep, total, total_completed, is_all_completed, add,
  toggle_all, clear_completed, toggle, toggle_edit, remove, edit, update_edit, set_filter,
}
use wraft.Todo as Todo

pub data Msg : Type 0 where
  state_update focus : Msg
  got_state : State → Msg

-- The call of the page's tasks to the state machine, and the input that gets the focus.
pub data Effect : Type 0 where
  ask_state focus_input : Effect

-- `update` of a page that shows a state; the focus goes to the edit's input if there is one.
unfoldable pub update : State → Bool → Msg → State × Bool × List Effect
update s there focus = if there then (s, true, focus_input ∷ []) else (s, false, [])
update s there state_update = (s, false, ask_state ∷ [])
update s there (got_state s') = (s', true, [])

-- The task of `StateUpdate`, from what `get` gives.
unfoldable pub answered : Result (Option State) → List Msg
answered (Result.ok (some s)) = got_state s ∷ []
answered (Result.ok none) = []
answered (Result.err e) = []

-- `run_raft`, for the updates that come.
unfoldable pub run_raft : List (Unit {0}) → List Msg
run_raft updates = map (λ u. state_update) updates

-- `e.key() == "Enter"`
abbrev pub on_enter : Bool → Todo.Msg → Option Todo.Msg
on_enter true msg = some msg
on_enter false msg = none

-- The input of `view_entry_edit_input`, when the entry is edited: its value, and what it sends on
-- input, when it loses the focus, and on a key, which is Enter or another; and what the mouse over
-- it tells the page.
pub record EditInput : Type 0 where
  pub value : Str
  pub oninput : Str → Todo.Msg
  pub onmouseover : Msg
  pub onblur : Todo.Msg
  pub onkeypress : Bool → Option Todo.Msg

-- What `view_entry` draws.
pub record Row : Type 0 where
  pub editing : Bool
  pub completed : Bool
  pub description : Str
  pub onclick_toggle : Todo.Msg
  pub ondblclick : Todo.Msg
  pub onclick_destroy : Todo.Msg
  pub edit_input : Option EditInput

abbrev pub view_entry_edit_input : State → ℕ → Entry → Option EditInput
view_entry_edit_input s idx entry =
    if entry.editing
    then some (record {
      value = s.edit_value;
      oninput = update_edit;
      onmouseover = focus;
      onblur = edit idx;
      onkeypress = λ enter. on_enter enter (edit idx);
    })
    else none

unfoldable pub view_entry : State → ℕ → Entry → Row
view_entry s idx entry = record {
  editing = entry.editing;
  completed = entry.completed;
  description = entry.description;
  onclick_toggle = toggle idx;
  ondblclick = toggle_edit idx;
  onclick_destroy = remove idx;
  edit_input = view_entry_edit_input s idx entry;
}

-- `enumerate().map(..)`, counted from `i`
unfoldable pub rows_from : State → ℕ → List Entry → List Row
unfolding view_entry
rows_from s i [] = []
rows_from s i (e ∷ es) = view_entry s i e ∷ rows_from s (suc i) es

abbrev pub same_filter : Filter → Filter → Bool
same_filter Filter.all Filter.all = true
same_filter Filter.active Filter.active = true
same_filter Filter.completed Filter.completed = true
same_filter _ _ = false

-- `Filter::as_href`: "#/", "#/active" and "#/completed"
abbrev pub as_href : Filter → Str
as_href Filter.all = 35 ∷ 47 ∷ []
as_href Filter.active = 35 ∷ 47 ∷ 97 ∷ 99 ∷ 116 ∷ 105 ∷ 118 ∷ 101 ∷ []
as_href Filter.completed = 35 ∷ 47 ∷ 99 ∷ 111 ∷ 109 ∷ 112 ∷ 108 ∷ 101 ∷ 116 ∷ 101 ∷ 100 ∷ []

-- What `view_filter` draws.
pub record FilterLink : Type 0 where
  pub selected : Bool
  pub href : Str
  pub onclick : Todo.Msg

unfoldable pub view_filter : State → Filter → FilterLink
view_filter s filter = record {
  selected = same_filter s.filter filter;
  href = as_href filter;
  onclick = set_filter filter;
}

-- What `view` and `view_input` draw.
pub record View : Type 0 where
  pub hidden : Bool
  pub value : Str
  pub oninput : Str → Todo.Msg
  pub onkeypress : Bool → Option Todo.Msg
  pub all_checked : Bool
  pub onclick_all : Todo.Msg
  pub rows : List Row
  pub items : ℕ
  pub filters : List FilterLink
  pub onclick_clear : Todo.Msg
  pub items_completed : ℕ

unfoldable pub view : State → View
unfolding rows_from view_filter
view s = record {
  hidden = is_empty s.entries;
  value = s.value;
  oninput = Todo.update;
  onkeypress = λ enter. on_enter enter add;
  all_checked = is_all_completed s;
  onclick_all = toggle_all;
  rows = rows_from s 0 (keep (fits s.filter) s.entries);
  items = total s;
  filters = map (view_filter s) (Filter.all ∷ Filter.active ∷ Filter.completed ∷ []);
  onclick_clear = clear_completed;
  items_completed = total_completed s;
}

-- One round of the loop of `raft_callback`: whether the channel takes the request, and what is
-- answered in time.
pub record Attempt : Type 0 where
  pub taken : Bool
  pub answer : Answer ClientResult

abbrev pub is_ok : {A : Type 0} → Result A → Bool
is_ok (Result.ok a) = true
is_ok (Result.err e) = false

-- The loop: what it sends, which is the command in each round; it returns on the first success.
unfoldable pub raft_callback : Todo.Msg → List Attempt → List Todo.Msg
raft_callback msg [] = []
raft_callback msg (a ∷ more) =
    let rest = raft_callback msg more in
    if is_ok (Client.send a.taken a.answer) then msg ∷ [] else msg ∷ rest

-- The calls that a message makes, if there is one.
unfoldable pub raft_batch_callback : Option Todo.Msg → List Attempt → List Todo.Msg
unfolding raft_callback
raft_batch_callback none attempts = []
raft_batch_callback (some msg) attempts = raft_callback msg attempts
