-- ===== src/Raft/Worker.antt =====
-- wraft/src/raft/worker.rs: the state that the roles share, and the handlers of every role.
-- A handler returns the new state and, in order, what it sends: a task that it spawns, a reply on a
-- channel, a command for the state machine. The environment's side of these is an `Event`.
pub mod Follower
pub mod Candidate
pub mod Leader
pub mod Machine
use wraft.Base.{
  ℕ, ◌+◌, ◌/◌, Bool, true, false, not, ◌&&◌, ◌||◌, Option, none, some, List, [], ◌∷◌, Outcome, ok,
  ◌>>=◌, if◌then◌else◌, ltb, leb, ◌==◌, min, add64, range_inclusive, insert, last?,
}
use wraft.Raft.Types.{
  ClientResponse, LogEntry, AppendEntriesRequest, AppendEntriesResponse, RequestVoteRequest,
  RequestVoteResponse, ClientRequest, ClientResult, RpcResponse, RaftStateDump, StateName,
}
use wraft.Raft.Storage.{Codec, Storage, get_log, append_log, overwrite_log, sublog, set_voted_for}

-- `transport::Client`: whom it reaches, and its `connected` flag.
pub record Client : Type 0 where
  pub node_id : ℕ
  pub connected : Bool

-- `connected` of a peer's client, as `Client::call` leaves it when its channel does not take the call.
unfoldable pub disconnect_client : ℕ → List (ℕ × Client) → List (ℕ × Client)
disconnect_client peer [] = []
disconnect_client peer ((j, c) ∷ m) =
    let rest = disconnect_client peer m in
    if j == peer then (j, record c { connected = false }) ∷ rest else (j, c) ∷ rest

-- `RaftWorkerInner`; its channels are the events of `Machine`.
pub record Inner (Text Cmd : Type 0) : Type 0 where
  pub leader_id : Option ℕ
  pub node_id : ℕ
  pub session_key : ℕ
  pub cluster_size : ℕ
  pub peers : List ℕ
  pub peer_clients : List (ℕ × Client)
  pub commit_index : ℕ
  pub last_applied : ℕ
  pub storage : Storage Text Cmd

-- The sending end of a client's oneshot channel: of this node, or of a request that another node
-- forwarded, whose answer goes out as the reply to that RPC.
pub data ClientSender : Type 0 where
  local forwarded : ℕ → ClientSender

pub data Effect (Cmd : Type 0) : Type 0 where
  -- `resp_tx.send(Ok(resp))`
  reply : ℕ → RpcResponse → Effect Cmd
  -- `resp_tx.send(result)` to a client
  answer : ClientSender → ClientResult → Effect Cmd
  -- a client's sender that is dropped unused
  drop_sender : ClientSender → Effect Cmd
  -- `state_machine_tx.unbounded_send(cmd)`
  send_command : Cmd → Effect Cmd
  -- the task that calls a peer for its vote
  call_vote : ℕ → RequestVoteRequest → Effect Cmd
  -- the task that calls a peer to append, with the first and the last index for the response
  call_append : ℕ → ℕ → ℕ → AppendEntriesRequest Cmd → Effect Cmd
  -- the task that forwards a client's request to the leader
  call_forward : ℕ → ClientRequest Cmd → ClientSender → Effect Cmd
  -- the task that serves a new peer's requests
  serve : ℕ → Effect Cmd
  -- a new election timeout, or a new heartbeat timeout
  reset_timer : Effect Cmd

pub data StateChange : Type 0 where
  continue become_follower : StateChange

-- `voted_for.is_none() || *voted_for == candidate`
abbrev pub may_vote : Option ℕ → ℕ → Bool
may_vote none candidate = true
may_vote (some v) candidate = v == candidate

-- `entry.is_none() || entry.unwrap().term != term`
abbrev pub mismatches : {Cmd : Type 0} → Option (LogEntry Cmd) → ℕ → Bool
mismatches none term = true
mismatches (some e) term = not (e.term == term)

-- `req.entries.last().map_or(req.leader_commit, |e| e.idx)`
abbrev pub idx_or : {Cmd : Type 0} → Option (LogEntry Cmd) → ℕ → ℕ
idx_or none d = d
idx_or (some e) d = e.idx

-- The keys of the clients that are connected.
abbrev pub online : List (ℕ × Client) → List ℕ
online [] = []
online ((k, c) ∷ m) = if c.connected then k ∷ online m else online m

module _ {Text Cmd : Type 0} where
  unfoldable pub quorum : Inner Text Cmd → ℕ
  quorum w = w.cluster_size / 2 + 1

  unfoldable pub follow_commit : Inner Text Cmd → AppendEntriesRequest Cmd → Inner Text Cmd
  follow_commit w req =
      if ltb w.commit_index req.leader_commit
      then record w {
        commit_index = min req.leader_commit (idx_or (last? req.entries) req.leader_commit);
      }
      else w

  unfoldable pub apply_entries :
      Inner Text Cmd → List (LogEntry Cmd) → Inner Text Cmd × List (Effect Cmd)
  apply_entries w [] = (w, [])
  apply_entries w (e ∷ es) =
      let (w', out) = apply_entries (record w { last_applied = e.idx }) es in
      (w', send_command e.cmd ∷ out)

  unfoldable pub handle_new_peer : Inner Text Cmd → ℕ → Inner Text Cmd × List (Effect Cmd)
  handle_new_peer w peer = (
    record w {
      peer_clients = insert peer (record { node_id = peer; connected = true }) w.peer_clients;
    },
    serve peer ∷ [],
  )

  -- A failed `Client::call` of a task: the flag is the same for all clones of the client.
  unfoldable pub set_disconnected : Inner Text Cmd → ℕ → Inner Text Cmd
  set_disconnected w peer = record w { peer_clients = disconnect_client peer w.peer_clients }

  -- `RaftStateDump::from`
  unfoldable pub dump : StateName → Inner Text Cmd → RaftStateDump
  dump name w = record {
    state = name;
    leader_id = w.leader_id;
    node_id = w.node_id;
    session_key = w.session_key;
    cluster_size = w.cluster_size;
    peers = w.peers;
    online_peers = online w.peer_clients;
    voted_for = w.storage.voted_for;
    current_term = w.storage.current_term;
    last_log_index = w.storage.last_log_index;
    commit_index = w.commit_index;
    last_applied = w.last_applied;
  }

  unfoldable pub handle_debug : StateName → Inner Text Cmd → ClientSender → List (Effect Cmd)
  handle_debug name w tx = answer tx (ClientResult.ok (ClientResponse.debug (dump name w))) ∷ []

module _ {Text Cmd : Type 0} ⦃codec : Codec Text Cmd⦄ where
  unfoldable pub handle_request_vote :
      Inner Text Cmd → RequestVoteRequest → Inner Text Cmd × RequestVoteResponse
  handle_request_vote w req =
      if leb w.storage.current_term req.term
        && may_vote w.storage.voted_for req.candidate
        && leb w.commit_index req.last_log_index
      then (
        record w { storage = set_voted_for w.storage (some req.candidate) },
        record { term = req.last_log_term; vote_granted = true },
      )
      else (w, record { term = 0; vote_granted = false })

  -- One round of the loop over a request's entries.
  unfoldable pub store_entry : Storage Text Cmd → LogEntry Cmd → Outcome (Storage Text Cmd)
  store_entry s e = do
    found ← get_log s e.idx
    elim found [
      | none ↦ append_log s e
      | some existing ↦ if existing.term == e.term then ok s else overwrite_log s e
    ]

  unfoldable pub store_entries : Storage Text Cmd → List (LogEntry Cmd) → Outcome (Storage Text Cmd)
  store_entries s [] = ok s
  store_entries s (e ∷ es) = store_entry s e >>= λ t. store_entries t es

  -- The rest of `handle_append_entries`, when the previous entry matches.
  unfoldable pub accept_entries :
      Inner Text Cmd → AppendEntriesRequest Cmd → Outcome (Inner Text Cmd × AppendEntriesResponse)
  accept_entries w req = do
    s ← store_entries w.storage req.entries
    ok (
      follow_commit (record w { storage = s }) req,
      record { term = w.storage.current_term; success = true },
    )

  unfoldable pub handle_append_entries :
      Inner Text Cmd → AppendEntriesRequest Cmd → Outcome (Inner Text Cmd × AppendEntriesResponse)
  handle_append_entries w req =
      if ltb req.term w.storage.current_term
      then ok (w, record { term = w.storage.current_term; success = false })
      else do
        entry ← get_log w.storage req.prev_log_index
        if not (req.prev_log_index == 0) && mismatches entry req.prev_log_term
            then ok (w, record { term = w.storage.current_term; success = false })
            else accept_entries w req

  unfoldable pub apply_log : Inner Text Cmd → Outcome (Inner Text Cmd × List (Effect Cmd))
  apply_log w = do
    entries ← sublog w.storage (range_inclusive (add64 w.last_applied 1) w.commit_index)
    ok (apply_entries w entries)
