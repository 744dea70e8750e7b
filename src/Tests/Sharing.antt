-- ===== src/Tests/Sharing.antt =====
-- A leader with two entries and a follower that takes the second.
use wraft.Base.{ℕ, zero, suc, refl, inr, none, false, List, [], ◌∷◌, arith}
use wraft.Raft.Types.{LogEntry, AppendEntriesRequest, AppendEntriesResponse}
use wraft.Raft.Storage.Log.{Holds}
use wraft.Raft.Worker.{Inner, handle_append_entries}
use wraft.Raft.Replication.Matching.{Matching, SameUpTo}
use wraft.Raft.Leading.Sharing.{log-Matching}
use wraft.Tests.Data.{Text, text_codec, storage_of, storage_of-Holds, log_entry, node, result_or}

abbrev pub first : LogEntry ℕ
first = log_entry 10 1 1

abbrev pub second : LogEntry ℕ
second = log_entry 20 2 2

abbrev pub leader_log : List (LogEntry ℕ)
leader_log = first ∷ second ∷ []

abbrev pub leading : Inner Text ℕ
leading = node (storage_of leader_log 2 none) 1 1

abbrev pub following : Inner Text ℕ
following = node (storage_of (first ∷ []) 2 none) 0 0

pub following-Holds : Holds following.storage (first ∷ [])
following-Holds = storage_of-Holds (first ∷ []) 2 none (refl, tt) (omega arith)

pub leading-Holds : Holds leading.storage leader_log
leading-Holds = storage_of-Holds leader_log 2 none (refl, (refl, tt)) (omega arith)

pub logs-Matching : Matching (first ∷ []) leader_log
logs-Matching zero x y at_f at_l same j le = cc
logs-Matching (suc zero) x y at_f at_l same zero le = refl
logs-Matching (suc zero) x y at_f at_l same (suc zero) le = refl
logs-Matching (suc zero) x y at_f at_l same (suc (suc j)) le = absurd (omega arith)
logs-Matching (suc (suc i)) x y at_f at_l same j le = cc

abbrev pub request : AppendEntriesRequest ℕ
request = record {
  term = 2;
  leader_id = 1;
  prev_log_index = 1;
  prev_log_term = 1;
  entries = second ∷ [];
  leader_commit = 1;
}

abbrev pub after : Inner Text ℕ × AppendEntriesResponse
after =
    result_or (following, record { term = 0; success = false })
      (handle_append_entries following request)

log-Matching_example :
    (f' : List (LogEntry ℕ)) × Holds after.0.storage f'
    × Matching f' leader_log
    × SameUpTo 2 f' leader_log
unfolding handle_append_entries wraft.Raft.Storage.get_log wraft.Raft.Storage.read_item
    wraft.Raft.Worker.accept_entries wraft.Raft.Worker.store_entries wraft.Raft.Worker.store_entry
    wraft.Raft.Storage.append_log wraft.Raft.Storage.increment_last_log_index
log-Matching_example =
    log-Matching following after.0 leading request after.1 (first ∷ []) leader_log 2 following-Holds
      leading-Holds (refl, refl, refl, refl, inr (first, refl, refl), refl, (refl, tt))
      logs-Matching ((omega arith, omega arith), tt) (omega arith) refl refl
