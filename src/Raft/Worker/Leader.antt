-- ===== src/Raft/Worker/Leader.antt =====
-- wraft/src/raft/worker.rs: the handlers of a leader.
pub mod Handlers
use wraft.Base.{
  ℕ, ◌+◌, ◌-◌, Bool, true, false, not, ◌&&◌, ◌||◌, Option, none, some, List, [], ◌∷◌, ◌++◌, map,
  Outcome, ok, panic, ◌>>=◌, unwrap, if◌then◌else◌, ltb, leb, ◌==◌, max, min, add64, sub64, count,
  range, range_inclusive, head?, last?, get, insert, remove, contains, insert_set, remove_set,
}
use wraft.Raft.Types.{
  LogEntry, AppendEntriesRequest, AppendEntriesResponse, RequestVoteRequest, RequestVoteResponse,
  ClientRequest, ClientResponse, ClientResult, RpcRequest, RpcResponse, RpcResult, StateName,
}
use wraft.Raft.Storage.{Codec, Storage, get_log, append_log, sublog, update_term}
use wraft.Raft.Worker.{
  Inner, Client, ClientSender, forwarded, Effect, reply, answer, drop_sender, call_append,
  reset_timer, StateChange, continue, become_follower, handle_request_vote, handle_append_entries,
  handle_debug, quorum, idx_or,
}

-- `Leader`, without its channel ends.
pub record Leader : Type 0 where
  pub next_indices : List (ℕ × ℕ)
  pub match_indices : List (ℕ × ℕ)
  pub in_flight_client_requests : List (ℕ × ClientSender)
  pub in_flight_peers : List ℕ

-- The follower count behind index `n`, as the leader knows it.
unfoldable pub agree : Leader → ℕ → ℕ
agree l n = count (λ e. leb n e.1) l.match_indices

-- The second loop of `advance_commit_index`.
unfoldable pub ack_range : {Cmd : Type 0} → Leader → List ℕ → Leader × List (Effect Cmd)
ack_range l [] = (l, [])
ack_range l (i ∷ is) = elim (get i l.in_flight_client_requests) [
  | none ↦ ack_range l is
  | some tx ↦
      let (l', out) =
        ack_range (record l { in_flight_client_requests = remove i l.in_flight_client_requests })
          is in
      (l', answer tx (ClientResult.ok ClientResponse.ack) ∷ out)
]

-- The senders that go with a leader's state when it steps down.
unfoldable pub drop_senders : {Cmd : Type 0} → List (ℕ × ClientSender) → List (Effect Cmd)
drop_senders [] = []
drop_senders ((i, tx) ∷ m) = drop_sender tx ∷ drop_senders m

abbrev pub state_name : Leader → StateName
state_name l = StateName.leader l.next_indices l.match_indices l.in_flight_peers

module _ {Text Cmd : Type 0} where
  -- `From<RaftWorker<Candidate>> for RaftWorker<Leader>`
  unfoldable pub from_candidate : Inner Text Cmd → Inner Text Cmd × Leader
  from_candidate w = (
    record w { leader_id = some w.node_id },
    record {
      next_indices = map (λ p. (p, add64 w.storage.last_log_index 1)) w.peers;
      match_indices = map (λ p. (p, 0)) w.peers;
      in_flight_client_requests = [];
      in_flight_peers = [];
    },
  )

abbrev pub max_batch_size : ℕ
max_batch_size = 100

module _ {Text Cmd : Type 0} ⦃codec : Codec Text Cmd⦄ where
  -- The first loop of `advance_commit_index`.
  unfoldable pub commit_range : Inner Text Cmd → Leader → List ℕ → Outcome (Inner Text Cmd)
  commit_range w l [] = ok w
  commit_range w l (n ∷ ns) =
      let rest = commit_range (record w { commit_index = n }) l ns in
      if ltb (agree l n) (quorum w - 1) then ok w else do
        found ← get_log w.storage n
        entry ← unwrap found
        if not (entry.term == w.storage.current_term) then ok w else rest

  unfoldable pub advance_commit_index :
      Inner Text Cmd → Leader → Outcome (Inner Text Cmd × Leader × List (Effect Cmd))
  advance_commit_index w l = do
    let next = add64 w.commit_index 1
    w' ← commit_range w l (range_inclusive next w.storage.last_log_index)
    let (l', out) = ack_range l (range_inclusive next w'.commit_index)
    ok (w', l', out)

  -- `prev_log_term`
  unfoldable pub term_before : Inner Text Cmd → ℕ → Outcome ℕ
  term_before w prev =
      if ltb 0 prev
      then (get_log w.storage prev >>= λ found. unwrap found >>= λ entry. ok entry.term)
      else ok 0

  -- `append_entries`, from the point where the peer is connected and has no call in flight.
  unfoldable pub send_entries : Inner Text Cmd → Leader → ℕ → Outcome (Leader × List (Effect Cmd))
  send_entries w l peer = do
    next ← unwrap (get peer l.next_indices)
    let prev = sub64 next 1
    prev_term ← term_before w prev
    entries ← sublog w.storage (range next (add64 next max_batch_size))
    let last_entry = idx_or (last? entries) w.storage.last_log_index
    let first_entry = idx_or (head? entries) last_entry
    let req : AppendEntriesRequest Cmd = record {
      term = w.storage.current_term;
      leader_id = w.node_id;
      prev_log_index = prev;
      prev_log_term = prev_term;
      entries = entries;
      leader_commit = w.commit_index;
    }
    ok (
      record l { in_flight_peers = insert_set peer l.in_flight_peers },
      call_append peer first_entry last_entry req ∷ [],
    )

  unfoldable pub append_entries_by :
      Option Client → Inner Text Cmd → Leader → ℕ → Outcome (Leader × List (Effect Cmd))
  append_entries_by none w l peer = ok (l, [])
  append_entries_by (some client) w l peer =
      if not client.connected || contains peer l.in_flight_peers
      then ok (l, [])
      else send_entries w l peer

  unfoldable pub append_entries : Inner Text Cmd → Leader → ℕ → Outcome (Leader × List (Effect Cmd))
  unfolding append_entries_by
  append_entries w l peer = append_entries_by (get peer w.peer_clients) w l peer

  -- `for peer in peers`
  unfoldable pub append_all :
      Inner Text Cmd → Leader → List ℕ → Outcome (Leader × List (Effect Cmd))
  append_all w l [] = ok (l, [])
  append_all w l (peer ∷ peers) = do
    (l', out) ← append_entries w l peer
    (l'', more) ← append_all w l' peers
    ok (l'', out ++ more)

  -- The heartbeat's branch of `next`.
  unfoldable pub heartbeat : Inner Text Cmd → Leader → Outcome (Leader × List (Effect Cmd))
  heartbeat w l = do (l', out) ← append_all w l w.peers; ok (l', out ++ reset_timer ∷ [])
