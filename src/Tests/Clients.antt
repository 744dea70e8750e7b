-- ===== src/Tests/Clients.antt =====
-- A leader with a waiting client, which commits the client's entry and gets a further request.
use wraft.Base.{All, none, ℕ, ◌+◌, ◌≡◌, refl, List, [], ◌∷◌, ◌++◌, arith}
use wraft.Raft.Types.{LogEntry, ClientRequest}
use wraft.Raft.Storage.Log.{Holds}
use wraft.Raft.Worker.{Inner, local, Effect}
use wraft.Raft.Worker.Machine.{Event, State, leader, inner, step}
use wraft.Raft.Clients.{settled, waiting, AreKeyed}
use wraft.Raft.Clients.Rounds.{begun, further, arrivals, requests_kept}
use wraft.Raft.Clients.Replies.{acks}
use wraft.Raft.Clients.Committed.{AckedBy, acked_committed}
use wraft.Raft.Worker.Leader.{Leader}
use wraft.Raft.Leading.Reign.{Reign, leader_appends_only}
use wraft.Tests.Data.{
  Text, text_codec, storage_of, storage_of-Holds, log_entry, node, leading, result_or,
}

abbrev log : List (LogEntry ℕ)
log = log_entry 10 1 1 ∷ log_entry 20 2 2 ∷ []

abbrev w : Inner Text ℕ
w = node (storage_of log 2 none) 1 1

log-Holds : Holds w.storage log
log-Holds = storage_of-Holds log 2 none (refl, (refl, tt)) (omega arith)

-- A client waits for the second entry, which node 2 holds.
abbrev busy : State Text ℕ
busy = leader w (record (leading 3 2) { in_flight_client_requests = (2, local 5) ∷ [] })

abbrev after : State Text ℕ → Event ℕ → State Text ℕ × List (Effect ℕ)
after st ev = result_or (st, []) (step st ev)

abbrev request : Event ℕ
request = Event.client (ClientRequest.apply 30) (local 6)

abbrev once : State Text ℕ × List (Effect ℕ)
once = after busy request

abbrev twice : State Text ℕ × List (Effect ℕ)
twice = after once.0 Event.timeout

busy-acks : acks once.1 ≡ local 5 ∷ []
unfolding step wraft.Raft.Worker.Leader.advance_commit_index wraft.Raft.Worker.Leader.commit_range
    wraft.Raft.Worker.Leader.ack_range wraft.Raft.Worker.Leader.agree wraft.Raft.Worker.quorum
    wraft.Raft.Storage.get_log wraft.Raft.Storage.read_item wraft.Raft.Worker.apply_log
    wraft.Raft.Storage.sublog wraft.Raft.Worker.Machine.leader_branch
    wraft.Raft.Worker.Leader.Handlers.handle_client_request
    wraft.Raft.Worker.Leader.Handlers.handle_log_update wraft.Raft.Storage.append_log
    wraft.Raft.Storage.increment_last_log_index wraft.Raft.Storage.set_last_log_index
    wraft.Raft.Storage.set_item wraft.Raft.Storage.key_eq wraft.Raft.Worker.apply_entries
    wraft.Raft.Worker.Leader.append_all wraft.Raft.Worker.Leader.append_entries
    wraft.Raft.Worker.Leader.append_entries_by wraft.Raft.Worker.Leader.send_entries
    wraft.Raft.Worker.Leader.term_before wraft.Raft.Worker.Leader.heartbeat wraft.Base.contains
    wraft.Base.get wraft.Base.insert wraft.Base.insert_set wraft.Base.remove
busy-acks = refl

acked_committed_example : AckedBy busy log (acks once.1)
unfolding step wraft.Raft.Worker.Leader.advance_commit_index wraft.Raft.Worker.Leader.commit_range
    wraft.Raft.Worker.Leader.ack_range wraft.Raft.Worker.Leader.agree wraft.Raft.Worker.quorum
    wraft.Raft.Storage.get_log wraft.Raft.Storage.read_item wraft.Raft.Worker.apply_log
    wraft.Raft.Storage.sublog wraft.Raft.Worker.Machine.leader_branch
    wraft.Raft.Worker.Leader.Handlers.handle_client_request
    wraft.Raft.Worker.Leader.Handlers.handle_log_update wraft.Raft.Storage.append_log
    wraft.Raft.Storage.increment_last_log_index wraft.Raft.Storage.set_last_log_index
    wraft.Raft.Storage.set_item wraft.Raft.Storage.key_eq wraft.Raft.Worker.apply_entries
    wraft.Raft.Worker.Leader.append_all wraft.Raft.Worker.Leader.append_entries
    wraft.Raft.Worker.Leader.append_entries_by wraft.Raft.Worker.Leader.send_entries
    wraft.Raft.Worker.Leader.term_before wraft.Raft.Worker.Leader.heartbeat wraft.Base.contains
    wraft.Base.get wraft.Base.insert wraft.Base.insert_set wraft.Base.remove
acked_committed_example =
    acked_committed busy once.0 request log once.1 log-Holds (omega arith) (omega arith) refl

requests_kept_example :
    (waiting (local 6) twice.0 + settled (local 6) (([] ++ once.1) ++ twice.1)
      ≡ waiting (local 6) busy + arrivals (local 6) (([] ++ request ∷ []) ++ Event.timeout ∷ []))
    × AreKeyed twice.0
unfolding step wraft.Raft.Worker.Leader.advance_commit_index wraft.Raft.Worker.Leader.commit_range
    wraft.Raft.Worker.Leader.ack_range wraft.Raft.Worker.Leader.agree wraft.Raft.Worker.quorum
    wraft.Raft.Storage.get_log wraft.Raft.Storage.read_item wraft.Raft.Worker.apply_log
    wraft.Raft.Storage.sublog wraft.Raft.Worker.Machine.leader_branch
    wraft.Raft.Worker.Leader.Handlers.handle_client_request
    wraft.Raft.Worker.Leader.Handlers.handle_log_update wraft.Raft.Storage.append_log
    wraft.Raft.Storage.increment_last_log_index wraft.Raft.Storage.set_last_log_index
    wraft.Raft.Storage.set_item wraft.Raft.Storage.key_eq wraft.Raft.Worker.apply_entries
    wraft.Raft.Worker.Leader.append_all wraft.Raft.Worker.Leader.append_entries
    wraft.Raft.Worker.Leader.append_entries_by wraft.Raft.Worker.Leader.send_entries
    wraft.Raft.Worker.Leader.term_before wraft.Raft.Worker.Leader.heartbeat wraft.Base.contains
    wraft.Base.get wraft.Base.insert wraft.Base.insert_set wraft.Base.remove
requests_kept_example =
    requests_kept (local 6) busy (refl, omega arith, tt)
      (further (further begun (omega arith) request once.0 once.1 refl) (omega arith) Event.timeout
        twice.0 twice.1 refl)

-- The leader's part of a leader, and of any other nothing.
abbrev leader_of : State Text ℕ → Leader
leader_of (leader u k) = k
leader_of _ = leading 1 0

leader_appends_only_example :
    (new : List (LogEntry ℕ)) × Holds (inner twice.0).storage (log ++ new)
    × ((inner twice.0).storage.current_term ≡ 2)
    × All (λ e. e.term ≡ 2) new
unfolding step wraft.Raft.Worker.Leader.advance_commit_index wraft.Raft.Worker.Leader.commit_range
    wraft.Raft.Worker.Leader.ack_range wraft.Raft.Worker.Leader.agree wraft.Raft.Worker.quorum
    wraft.Raft.Storage.get_log wraft.Raft.Storage.read_item wraft.Raft.Worker.apply_log
    wraft.Raft.Storage.sublog wraft.Raft.Worker.Machine.leader_branch
    wraft.Raft.Worker.Leader.Handlers.handle_client_request
    wraft.Raft.Worker.Leader.Handlers.handle_log_update wraft.Raft.Storage.append_log
    wraft.Raft.Storage.increment_last_log_index wraft.Raft.Storage.set_last_log_index
    wraft.Raft.Storage.set_item wraft.Raft.Storage.key_eq wraft.Raft.Worker.apply_entries
    wraft.Raft.Worker.Leader.append_all wraft.Raft.Worker.Leader.append_entries
    wraft.Raft.Worker.Leader.append_entries_by wraft.Raft.Worker.Leader.send_entries
    wraft.Raft.Worker.Leader.term_before wraft.Raft.Worker.Leader.heartbeat wraft.Base.contains
    wraft.Base.get wraft.Base.insert wraft.Base.insert_set wraft.Base.remove
leader_appends_only_example = leader_appends_only w (leader_of busy) log log-Holds (omega arith) (
    Reign.further
      (Reign.further Reign.begun (omega arith) request (inner once.0) (leader_of once.0) once.1
        refl)
      (omega arith) Event.timeout (inner twice.0) (leader_of twice.0) twice.1 refl)
