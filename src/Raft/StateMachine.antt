-- ===== src/Raft/StateMachine.antt =====
-- wraft/src/raft/mod.rs: the trait `State`, the task `handle_state_machine`, and the state that is a
-- HashMap.
pub mod Gets
use wraft.Base.{
  ℕ, ◌≡◌, Option, none, some, List, [], ◌∷◌, ◌++◌, Outcome, ok, panic, ◌>>=◌, get, insert, remove,
}

-- The trait `State`
pub record Replicated (St Cmd Key Item Note : Type 0) : Type 0 where
  pub default : St
  pub apply : St → Cmd → St × Note
  pub get : St → Key → Option Item

-- What `try_send` on the updates gives: Ok, or an error of a full or of a closed channel, or another.
pub data Sending : Type 0 where
  sent full disconnected other_error : Sending

-- What the task takes from its two channels; a closed one gives no value. A request to get has the sender of
-- its response.
pub data Event (Cmd Key : Type 0) : Type 0 where
  command : Cmd → Sending → Event Cmd Key
  state_get : Key → ℕ → Event Cmd Key
  commands_closed gets_closed : Event Cmd Key

pub data Sent (Item Note : Type 0) : Type 0 where
  update : Note → Sent Item Note
  value : ℕ → Option Item → Sent Item Note

pub data Task (St : Type 0) : Type 0 where
  running : St → Task St
  exited : Task St

abbrev pub after_sending :
    {St Item Note : Type 0} → St → Note → Sending → Outcome (Task St × List (Sent Item Note))
after_sending st note sent = ok (running st, update note ∷ [])
after_sending st note full = ok (running st, [])
after_sending st note disconnected = ok (exited, [])
after_sending st note other_error = panic

module _ {St Cmd Key Item Note : Type 0} (replicated : Replicated St Cmd Key Item Note) where
  unfoldable pub handle_event : St → Event Cmd Key → Outcome (Task St × List (Sent Item Note))
  handle_event st (command cmd sending) =
      let (st', note) = replicated.apply st cmd in after_sending st' note sending
  handle_event st (state_get k tx) = ok (running st, value tx (replicated.get st k) ∷ [])
  handle_event st commands_closed = ok (exited, [])
  handle_event st gets_closed = ok (exited, [])

  abbrev pub step : Task St → Event Cmd Key → Outcome (Task St × List (Sent Item Note))
  step (running st) ev = handle_event st ev
  step exited ev = ok (exited, [])

  -- `handle_state_machine` from a state, over what it takes.
  unfoldable pub run : Task St → List (Event Cmd Key) → Outcome (Task St × List (Sent Item Note))
  run task [] = ok (task, [])
  run task (ev ∷ evs) = do
    (task', out) ← step task ev
    (last, more) ← run task' evs
    ok (last, out ++ more)

  abbrev pub handle_state_machine : List (Event Cmd Key) → Outcome (Task St × List (Sent Item Note))
  handle_state_machine evs = run (running replicated.default) evs

-- `HashMapCommand<K, V>`, with numbers as keys
pub data HashMapCommand (V : Type 0) : Type 0 where
  set : ℕ → V → HashMapCommand V
  delete : ℕ → HashMapCommand V

unfoldable pub apply : {V : Type 0} → List (ℕ × V) → HashMapCommand V → List (ℕ × V)
apply m (set k v) = insert k v m
apply m (delete k) = remove k m

abbrev pub hash_map : (V : Type 0) → Replicated (List (ℕ × V)) (HashMapCommand V) ℕ V (Unit {0})
hash_map V = record { default = []; apply = λ m cmd. (apply m cmd, tt); get = λ m k. get k m }
