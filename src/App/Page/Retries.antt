-- ===== src/App/Page/Retries.antt =====
-- The loop of todo.rs that sends a command until it is acknowledged.
use wraft.Base.{
  ◌>>=◌, ◌∙◌, ◌∙◌, ℕ, ◌≡◌, refl, Bool, true, false, not, List, [], ◌∷◌, ◌++◌, Outcome, ok,
}
use wraft.Raft.Types.{ClientResult, ClientResponse}
use wraft.Raft.Client.{Answer, received, canceled, timed_out}
use wraft.Raft.Client as Client
use wraft.Todo.{
  Str, is_empty, trim, Entry, State, Filter, fits, keep, apply, complete_edit, remove_entry,
  with_entries, Msg, edit,
}
use wraft.Todo.Visible.{NthFits}
use wraft.Todo.Texts.{edit-filled, edit-empty}
use wraft.App.Page.{Attempt, raft_callback}

-- A request that the cluster takes, and whose answer does not come in time.
abbrev pub late : Attempt
late = record { taken = true; answer = timed_out }

abbrev pub in_time : Attempt
in_time = record { taken = true; answer = received (ClientResult.ok ClientResponse.ack) }

-- The cluster applies the commands that it has, in order.
unfoldable pub apply_all : State → List Msg → Outcome State
apply_all s [] = ok s
apply_all s (msg ∷ msgs) = apply s msg >>= λ s'. apply_all s' msgs

fits-edited :
    (filter : Filter) (e : Entry) (text : Str) (editing : Bool)
    → fits filter (record e { description = text; editing = editing }) ≡ fits filter e
fits-edited Filter.all e text editing = refl
fits-edited Filter.active e text editing = refl
fits-edited Filter.completed e text editing = refl

trim-blank : is_empty (trim []) ≡ true
unfolding trim wraft.Todo.trim_start wraft.Todo.trim_end
trim-blank = refl

-- When the answer to an edit of a visible entry comes too late, the page sends the edit again, and no
-- further after the answer in time. A cluster that applies both takes the entry out of the list: the
-- text of the edit is empty the second time.
pub late_edit_removes :
    (s : State) (idx : ℕ) (xs ys : List Entry) (e : Entry) (rest : List Attempt)
    → NthFits (fits s.filter) idx s.entries xs e ys
    → is_empty (trim s.edit_value) ≡ false
    → (raft_callback (edit idx) (late ∷ in_time ∷ rest) ≡ edit idx ∷ edit idx ∷ [])
      × (apply_all s (raft_callback (edit idx) (late ∷ in_time ∷ rest))
          ≡ ok (record s { entries = xs ++ ys; edit_value = [] }))
unfolding raft_callback apply_all Client.send Client.do_client_request
late_edit_removes s idx xs ys e rest (same, fit, before) filled =
    let d : Entry = record e { description = trim s.edit_value; editing = not e.editing } in
    let s' : State = record s { entries = xs ++ d ∷ ys; edit_value = [] } in
    let still : fits s.filter d ≡ true =
      fits-edited s.filter e (trim s.edit_value) (not e.editing) ∙ fit in
    (
      refl,
      rw
          (
            edit-filled s idx xs ys e (same, fit, before) filled,
            edit-empty s' idx xs ys d (refl, still, before) trim-blank,
          )
          refl,
    )
