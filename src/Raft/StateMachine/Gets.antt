-- ===== src/Raft/StateMachine/Gets.antt =====
-- wraft/src/raft/mod.rs: what a client gets from the state machine's task.
use wraft.Base.{
  ℕ, ◌≡◌, refl, Option, none, some, List, [], ◌∷◌, ok, arith, ◌==◌, if◌then◌else◌, get, insert,
  remove, get-insert, get-remove,
}
use wraft.Raft.StateMachine.{
  update, step, handle_state_machine, Sending, Event, command, state_get, commands_closed,
  gets_closed, Sent, value, Task, running, handle_event, run, HashMapCommand, set, delete, apply,
  hash_map,
}

-- The commands that the task takes.
abbrev pub commands : {Cmd Key : Type 0} → List (Event Cmd Key) → List Cmd
commands [] = []
commands (command cmd sending ∷ evs) = cmd ∷ commands evs
commands (_ ∷ evs) = commands evs

-- No channel is closed, and the updates are taken or left.
abbrev pub AreOpen : {Cmd Key : Type 0} → List (Event Cmd Key) → Type 0
AreOpen [] = Unit {0}
AreOpen (command cmd Sending.sent ∷ evs) = AreOpen evs
AreOpen (command cmd Sending.full ∷ evs) = AreOpen evs
AreOpen (state_get k tx ∷ evs) = AreOpen evs
AreOpen (_ ∷ evs) = ⊥

-- What the commands do to one key, the last one first: a value, or none for a deletion.
abbrev pub last_change : {V : Type 0} → ℕ → List (HashMapCommand V) → Option (Option V)
last_change k [] = none
last_change k (set j v ∷ cmds) = elim (last_change k cmds) [
  | none ↦ if j == k then some (some v) else none
  | some change ↦ some change
]
last_change k (delete j ∷ cmds) = elim (last_change k cmds) [
  | none ↦ if j == k then some none else none
  | some change ↦ some change
]

abbrev pub changed_to : {V : Type 0} → Option V → Option (Option V) → Option V
changed_to old none = old
changed_to old (some new) = new

abbrev pub applied : {V : Type 0} → List (ℕ × V) → List (HashMapCommand V) → List (ℕ × V)
applied m [] = m
applied m (cmd ∷ cmds) = applied (apply m cmd) cmds

module _ {V : Type 0} where
  get-applied :
      (k : ℕ) (m : List (ℕ × V)) (cmds : List (HashMapCommand V))
      → get k (applied m cmds) ≡ changed_to (get k m) (last_change k cmds)
  unfolding apply
  get-applied k m [] = refl
  get-applied k m (set j v ∷ cmds) =
      ground (arith, get-applied k (insert j v m) cmds, get-insert j k v m)
  get-applied k m (delete j ∷ cmds) =
      ground (arith, get-applied k (remove j m) cmds, get-remove j k m)

  runs :
      (m : List (ℕ × V)) (evs : List (Event (HashMapCommand V) ℕ))
      → AreOpen evs
      → (out : List (Sent V (Unit {0}))) × (run (hash_map V) (running m) evs
          ≡ ok (running (applied m (commands evs)), out))
  unfolding run handle_event
  runs m [] still = ([], refl)
  runs m (command cmd Sending.sent ∷ evs) still =
      let (out, ran) = runs (apply m cmd) evs still in (update tt ∷ out, rw ran refl)
  runs m (command cmd Sending.full ∷ evs) still =
      let (out, ran) = runs (apply m cmd) evs still in (out, rw ran refl)
  runs m (command cmd Sending.disconnected ∷ evs) still = absurd still
  runs m (command cmd Sending.other_error ∷ evs) still = absurd still
  runs m (state_get k tx ∷ evs) still =
      let (out, ran) = runs m evs still in (value tx (get k m) ∷ out, rw ran refl)
  runs m (commands_closed ∷ evs) still = absurd still
  runs m (gets_closed ∷ evs) still = absurd still

  -- After any commands and requests, as long as no channel closes and `try_send` gives Ok or an error of a
  -- full channel, the task of a HashMap with numbers as keys still runs, and answers a request to get with
  -- the value that the last command about that key has set, or with none if that command deleted the key or
  -- there was no such command.
  pub gets_last :
      (evs : List (Event (HashMapCommand V) ℕ)) (k tx : ℕ)
      → AreOpen evs
      → (task : Task (List (ℕ × V))) × (out : List (Sent V (Unit {0}))) × (handle_state_machine
            (hash_map V)
            evs
          ≡ ok (task, out))
        × (step (hash_map V) task (state_get k tx)
            ≡ ok (task, value tx (changed_to none (last_change k (commands evs))) ∷ []))
  unfolding handle_event get
  gets_last evs k tx still =
      let (out, ran) = runs [] evs still in
      (running (applied [] (commands evs)), out, ran, rw (get-applied k [] (commands evs)) refl)
