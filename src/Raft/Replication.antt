-- ===== src/Raft/Replication.antt =====
-- The follower's side of log replication in worker.rs, at the level of lists: what a request's
-- entries do to a log, with `none` for the panic of an assertion.
pub mod Falls
pub mod Refine
pub mod Agreement
pub mod Reply
pub mod Success
pub mod Matching
pub mod Applied
use wraft.Base.{
  ℕ, ◌+◌, ◌-◌, ◌<◌, ◌≡◌, Bool, true, false, Option, none, some, List, [], ◌∷◌, ◌++◌, Outcome, ok,
  panic, if◌then◌else◌, ◌==◌, length, take,
}
use wraft.Raft.Types.{LogEntry}
use wraft.Raft.Storage.Log.{entry_at}

module _ {Cmd : Type 0} where
  -- An entry that the log lacks must be the next one; an entry whose term differs replaces the last.
  unfoldable pub merge_entry : List (LogEntry Cmd) → LogEntry Cmd → Option (List (LogEntry Cmd))
  merge_entry log e = elim (entry_at log e.idx) [
    | none ↦ if e.idx == length log + 1 then some (log ++ e ∷ []) else none
    | some old ↦
        if old.term == e.term
        then some log
        else if e.idx == length log
        then some (take (e.idx - 1) log ++ e ∷ [])
        else none
  ]

  unfoldable pub merge : List (LogEntry Cmd) → List (LogEntry Cmd) → Option (List (LogEntry Cmd))
  merge log [] = some log
  merge log (e ∷ es) = elim (merge_entry log e) [ none ↦ none | some log' ↦ merge log' es ]
