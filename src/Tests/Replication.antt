-- ===== src/Tests/Replication.antt =====
-- A follower that is sent entries, one that refuses them, and one that panics; a node that applies
-- what is committed.
use wraft.Base.{
  ℕ, ◌-◌, ◌<◌, ◌≤◌, ◌≡◌, inl, inr, refl, true, false, none, List, [], ◌∷◌, arith, ok, panic, take,
  drop, All,
}
use wraft.Raft.Types.{LogEntry, FitsU64, AppendEntriesRequest, AppendEntriesResponse}
use wraft.Raft.Storage.{Storage}
use wraft.Raft.Storage.Log.{entry_at, Holds, Keeps}
use wraft.Raft.Worker.{
  Inner, idx_or, store_entries, handle_append_entries, follow_commit, apply_log,
}
use wraft.Raft.Replication.{merge}
use wraft.Raft.Replication.Refine.{Refines, store_entries_lem}
use wraft.Raft.Replication.Agreement.{Agrees, Compatible}
use wraft.Raft.Replication.Reply.{Matches, append_accepted, append_conflict_panics}
use wraft.Raft.Replication.Success.{append_success}
use wraft.Raft.Replication.Applied.{commands, apply_log_lem}
use wraft.Raft.Replication.Falls.{commit_falls}
use wraft.Tests.Data.{Text, text_codec, storage_of, storage_of-Holds, log_entry, node, result_or}

-- Two entries of term 1.
abbrev log : List (LogEntry ℕ)
log = log_entry 10 1 1 ∷ log_entry 20 1 2 ∷ []

abbrev s : Storage Text ℕ
s = storage_of log 2 none

log-Holds : Holds s log
log-Holds = storage_of-Holds log 2 none (refl, (refl, tt)) (omega arith)

-- The last entry again with another term, and a third one.
abbrev es : List (LogEntry ℕ)
es = log_entry 21 2 2 ∷ log_entry 30 2 3 ∷ []

es_fit : All FitsU64 es
es_fit = ((omega arith, omega arith), ((omega arith, omega arith), tt))

store_entries_lem_example : Refines s (store_entries s es) (merge log es)
store_entries_lem_example = store_entries_lem s log es log-Holds es_fit (omega arith)

abbrev follower_node : Inner Text ℕ
follower_node = node s 1 0

abbrev request : ℕ → ℕ → List (LogEntry ℕ) → ℕ → AppendEntriesRequest ℕ
request prev prev_term entries commit = record {
  term = 2;
  leader_id = 2;
  prev_log_index = prev;
  prev_log_term = prev_term;
  entries = entries;
  leader_commit = commit;
}

-- An entry before the request's that the log lacks.
ahead_no_match : ¬ Matches log (request 3 1 [] 0)
ahead_no_match (inl h) = omega (arith, h)
ahead_no_match (inr (x, here, same)) = cc

abbrev req : AppendEntriesRequest ℕ
req = request 1 1 es 1

matches : Matches log req
matches = inr (log_entry 10 1 1, refl, refl)

compatible : All (Compatible log) es
compatible = ((λ old here. inr refl), ((λ old here. cc), tt))

append_accepted_example :
    (w' : Inner Text ℕ) × (log' : List (LogEntry ℕ)) × (handle_append_entries follower_node req
      ≡ ok (w', record { term = 2; success = true }))
    × Holds w'.storage log'
    × All (Agrees log') es
    × ((i : ℕ) → i ≤ 1 → entry_at log' i ≡ entry_at log i)
    × Keeps s w'.storage
append_accepted_example =
    append_accepted follower_node req log log-Holds (omega arith) matches (refl, (refl, tt))
      compatible es_fit (omega arith)

-- The first entry of the log again with another term, while the log goes on behind it.
abbrev conflict : List (LogEntry ℕ)
conflict = log_entry 11 2 1 ∷ []

append_conflict_panics_example :
    handle_append_entries follower_node (request 0 0 conflict 0) ≡ panic
append_conflict_panics_example =
    append_conflict_panics follower_node (request 0 0 conflict 0) log [] (log_entry 11 2 1)
      (log_entry 10 1 1) log-Holds (omega arith) (inl refl) refl ((omega arith, omega arith), tt)
      (omega arith) refl (omega arith) (omega arith)

abbrev after : Inner Text ℕ × AppendEntriesResponse
after =
    result_or (follower_node, record { term = 0; success = false })
      (handle_append_entries follower_node req)

handled : handle_append_entries follower_node req ≡ ok (after.0, after.1)
unfolding handle_append_entries wraft.Raft.Storage.get_log wraft.Raft.Storage.read_item
    wraft.Raft.Worker.accept_entries store_entries wraft.Raft.Worker.store_entry
    wraft.Raft.Storage.overwrite_log wraft.Raft.Storage.append_log
    wraft.Raft.Storage.increment_last_log_index wraft.Raft.Storage.set_last_log_index
handled = refl

success : after.1.success ≡ true
unfolding handle_append_entries wraft.Raft.Storage.get_log wraft.Raft.Storage.read_item
    wraft.Raft.Worker.accept_entries store_entries wraft.Raft.Worker.store_entry
    wraft.Raft.Storage.overwrite_log wraft.Raft.Storage.append_log
    wraft.Raft.Storage.increment_last_log_index wraft.Raft.Storage.set_last_log_index
success = refl

append_success_example :
    (2 ≤ 2)
    × Matches log req
    × ((log' : List (LogEntry ℕ)) × Holds after.0.storage log'
        × All (Agrees log') es
        × ((i : ℕ) → i ≤ 1 → entry_at log' i ≡ entry_at log i))
append_success_example =
    append_success follower_node after.0 req after.1 log log-Holds (refl, (refl, tt)) es_fit
      (omega arith) handled success

abbrev behind : Inner Text ℕ
behind = node s 2 1

apply_log_lem_example :
    apply_log behind ≡ ok (record behind { last_applied = 2 }, commands (take (2 - 1) (drop 1 log)))
apply_log_lem_example = apply_log_lem behind log log-Holds (omega arith) (omega arith) (omega arith)

-- A commit index of 2, a leader's of 3, and a request whose last entry has index 1.
abbrev old_request : AppendEntriesRequest ℕ
old_request = request 0 0 (log_entry 10 1 1 ∷ []) 3

known : Compatible log (log_entry 10 1 1)
known old here = inl (ground (arith, here))

commit_falls_example :
    (w' : Inner Text ℕ) × (handle_append_entries behind old_request
      ≡ ok (w', record { term = 2; success = true }))
    × (w'.commit_index ≡ 1)
    × (w'.commit_index < 2)
commit_falls_example =
    commit_falls behind old_request log [] (log_entry 10 1 1) log-Holds (omega arith) (inl refl)
      refl (refl, tt) (known, tt) ((omega arith, omega arith), tt) (omega arith) (omega arith)
      (omega arith)
