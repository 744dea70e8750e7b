-- ===== src/Raft/Worker/Candidate.antt =====
-- wraft/src/raft/worker.rs: an election from the candidate's side.
use wraft.Base.{panic, ℕ, Bool, false, none, some, List, [], ◌∷◌, Outcome, ok, ◌>>=◌, if◌then◌else◌}
use wraft.Raft.Types.{
  RpcResult, ClientRequest, RequestVoteRequest, RpcRequest, RpcResponse, StateName,
}
use wraft.Raft.Storage.{Codec, update_term, increment_term, set_voted_for, last_log_term}
use wraft.Raft.Worker.{
  Inner, ClientSender, Effect, reply, call_vote, StateChange, continue, become_follower,
  handle_request_vote, handle_append_entries, handle_debug, online,
}
use wraft.Raft.Worker.Follower.{refuse, refuse_forwarded}

-- The task of a call for a vote: whether it tells the candidate of a vote.
unfoldable pub vote_task : RpcResult → Outcome Bool
vote_task (RpcResult.ok (RpcResponse.request_vote resp)) = ok resp.vote_granted
vote_task (RpcResult.err error) = ok false
vote_task (RpcResult.ok _) = panic

module _ {Text Cmd : Type 0} where
  -- `From<RaftWorker<Follower>> for RaftWorker<Candidate>`
  unfoldable pub from_follower : Inner Text Cmd → Inner Text Cmd
  from_follower w = record w { leader_id = none }

  unfoldable pub handle_client :
      Inner Text Cmd → ClientRequest Cmd → ClientSender → List (Effect Cmd)
  handle_client w ClientRequest.debug tx = handle_debug StateName.candidate w tx
  handle_client w (ClientRequest.apply cmd) tx = refuse tx

module _ {Text Cmd : Type 0} ⦃codec : Codec Text Cmd⦄ where
  unfoldable pub vote_for_self : Inner Text Cmd → Inner Text Cmd
  vote_for_self w = record w { storage = set_voted_for w.storage (some w.node_id) }

  -- The loop of `request_votes` over the connected peers: one call to each.
  unfoldable pub request_votes_of : Inner Text Cmd → List ℕ → Outcome (List (Effect Cmd))
  request_votes_of w [] = ok []
  request_votes_of w (peer ∷ peers) = do
    last_term ← last_log_term w.storage
    rest ← request_votes_of w peers
    let req : RequestVoteRequest = record {
      term = w.storage.current_term;
      candidate = w.node_id;
      last_log_index = w.storage.last_log_index;
      last_log_term = last_term;
    }
    ok (call_vote peer req ∷ rest)

  unfoldable pub request_votes : Inner Text Cmd → Outcome (List (Effect Cmd))
  unfolding request_votes_of
  request_votes w = request_votes_of w (online w.peer_clients)

  -- What `next` does before its loop: a new term, the own vote, and the calls for votes.
  unfoldable pub start : Inner Text Cmd → Outcome (Inner Text Cmd × List (Effect Cmd))
  unfolding vote_for_self
  start w = do
    let w' = vote_for_self (record w { storage = increment_term w.storage })
    calls ← request_votes w'
    ok (w', calls)

  unfoldable pub handle_rpc :
      Inner Text Cmd
      → RpcRequest Cmd
      → ℕ
      → Outcome (StateChange × Inner Text Cmd × List (Effect Cmd))
  handle_rpc w (RpcRequest.request_vote req) tx =
      let (s, new_term) = update_term w.storage req.term in
      let (w', resp) = handle_request_vote (record w { storage = s }) req in
      ok (
        if new_term then become_follower else continue,
        w',
        reply tx (RpcResponse.request_vote resp) ∷ [],
      )
  handle_rpc w (RpcRequest.append_entries req) tx = do
    let w' = record w { storage = (update_term w.storage req.term).0 }
    (w'', resp) ← handle_append_entries w' req
    ok (become_follower, w'', reply tx (RpcResponse.append_entries resp) ∷ [])
  handle_rpc w (RpcRequest.forward_client_request req) tx = ok (continue, w, refuse_forwarded tx)
