-- ===== src/Tests/Exchange.antt =====
-- A leader that sends its second entry to a peer, and takes its reply.
use wraft.Base.{
  ℕ, ◌+◌, ◌≤◌, ◌≡◌, refl, false, some, List, [], ◌∷◌, arith, ok, get, contains, insert_set,
}
use wraft.Raft.Types.{LogEntry, RpcResponse, RpcResult}
use wraft.Raft.Storage.Log.{Holds}
use wraft.Raft.Worker.{call_append, continue}
use wraft.Raft.Worker.Leader.{Leader, send_entries}
use wraft.Raft.Worker.Leader.Handlers.{handle_append_entries_response}
use wraft.Raft.Replication.Matching.{Matching, SameUpTo}
use wraft.Raft.Leading.Exchange.{match_index_holds}
use wraft.Tests.Data as Data
use wraft.Tests.Data.{text_codec}
use wraft.Tests.Sharing.{
  first, leader_log, leading, leading-Holds, following, following-Holds, logs-Matching, request,
  after,
}

abbrev l : Leader
l = Data.leading 2 0

abbrev busy : Leader
busy = record l { in_flight_peers = insert_set 2 l.in_flight_peers }

match_index_holds_example :
    (f' : List (LogEntry ℕ)) × (l2 : Leader) × (m' : ℕ) × (handle_append_entries_response leading
        busy 2 2 2
        (RpcResult.ok (RpcResponse.append_entries after.1))
      ≡ ok (continue, leading, l2, []))
    × Holds after.0.storage f'
    × (get 2 l2.match_indices ≡ some m')
    × SameUpTo m' f' leader_log
    × (0 ≤ m')
    × (get 2 l2.next_indices ≡ some (m' + 1))
    × (contains 2 l2.in_flight_peers ≡ false)
    × Matching f' leader_log
unfolding get send_entries wraft.Raft.Worker.Leader.term_before wraft.Raft.Storage.get_log
    wraft.Raft.Storage.read_item wraft.Raft.Storage.sublog wraft.Raft.Worker.handle_append_entries
    wraft.Raft.Worker.accept_entries wraft.Raft.Worker.store_entries wraft.Raft.Worker.store_entry
    wraft.Raft.Storage.append_log wraft.Raft.Storage.increment_last_log_index
match_index_holds_example =
    match_index_holds leading following after.0 l busy leader_log (first ∷ []) 2 2 0 2 2 request
      after.1 leading-Holds following-Holds logs-Matching
      ((omega arith, omega arith), ((omega arith, omega arith), tt)) refl refl (omega arith)
      (omega arith) (omega arith) (omega arith) refl refl refl refl
