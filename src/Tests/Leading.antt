-- ===== src/Tests/Leading.antt =====
-- A leader of two peers that commits, sends, and learns from responses; and one that panics.
use wraft.Base.{
  ℕ, ◌≡◌, refl, true, false, none, List, [], ◌∷◌, arith, ok, panic, length, get, insert_set,
}
use wraft.Raft.Types.{LogEntry, AppendEntriesRequest, AppendEntriesResponse, RpcResponse, RpcResult}
use wraft.Raft.Storage.Log.{Holds}
use wraft.Raft.Worker.{Inner, Client, Effect, call_append}
use wraft.Raft.Worker.Leader.{Leader, advance_commit_index, send_entries}
use wraft.Raft.Worker.Leader.Handlers.{handle_append_entries_response}
use wraft.Raft.Leading.Commit.{Commits, advance_commit_index_lem}
use wraft.Raft.Leading.Progress.{Asks, send_entries_lem}
use wraft.Raft.Leading.Crash.{lone_entry_crash}
use wraft.Tests.Data.{Text, text_codec, storage_of, storage_of-Holds, log_entry, node, leading}

abbrev log : List (LogEntry ℕ)
log = log_entry 10 1 1 ∷ log_entry 20 2 2 ∷ []

abbrev w : Inner Text ℕ
w = node (storage_of log 2 none) 1 1

log-Holds : Holds w.storage log
log-Holds = storage_of-Holds log 2 none (refl, (refl, tt)) (omega arith)

abbrev l : Leader
l = leading 2 2

advance_commit_index_lem_example :
    (c : ℕ) × (l' : Leader) × (out : List (Effect ℕ)) × (advance_commit_index w l
      ≡ ok (record w { commit_index = c }, l', out))
    × Commits w l log (length log) c
    × (l'.next_indices ≡ l.next_indices)
    × (l'.match_indices ≡ l.match_indices)
    × (l'.in_flight_peers ≡ l.in_flight_peers)
advance_commit_index_lem_example =
    advance_commit_index_lem w l log log-Holds (omega arith) (omega arith)

send_entries_lem_example :
    (req : AppendEntriesRequest ℕ) × (first : ℕ) × (last : ℕ) × (send_entries w l 2
      ≡ ok (
        record l { in_flight_peers = insert_set 2 l.in_flight_peers },
        call_append 2 first last req ∷ [],
      ))
    × Asks w log 2 req
unfolding get
send_entries_lem_example =
    send_entries_lem w l log 2 2 log-Holds refl (omega arith) (omega arith) (omega arith)

abbrev response : ℕ → AppendEntriesResponse
response t = record { term = t; success = true }

abbrev refusal : AppendEntriesResponse
refusal = record { term = 2; success = false }

abbrev client : Client
client = record { node_id = 2; connected = true }

abbrev lone : Inner Text ℕ
lone = node (storage_of (log_entry 10 1 1 ∷ []) 2 none) 0 0

lone-Holds : Holds lone.storage (log_entry 10 1 1 ∷ [])
lone-Holds = storage_of-Holds (log_entry 10 1 1 ∷ []) 2 none (refl, tt) (omega arith)

abbrev busy : Leader
busy = record l { in_flight_peers = insert_set 2 l.in_flight_peers }

lone_entry_crash_example :
    ((req : AppendEntriesRequest ℕ) × (send_entries lone l 2
        ≡ ok (busy, call_append 2 1 1 req ∷ []))
      × (req.entries ≡ [])
      × (req.prev_log_index ≡ 1))
    × (handle_append_entries_response lone busy 2 1 1
          (RpcResult.ok (RpcResponse.append_entries refusal))
        ≡ panic)
unfolding get
lone_entry_crash_example =
    lone_entry_crash lone l (log_entry 10 1 1) 2 client refusal lone-Holds refl refl refl refl refl
