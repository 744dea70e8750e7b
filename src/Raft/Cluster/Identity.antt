-- ===== src/Raft/Cluster/Identity.antt =====
-- Who a node is: no handler of worker.rs changes its id, the size of its cluster or, but for a new
-- peer, its clients.
use wraft.Base.{ℕ, ◌≡◌, refl, ◌∙◌, List, [], ◌∷◌, arith, ok, >>=-ok, remove_set}
use wraft.Raft.Types.{
  LogEntry, AppendEntriesRequest, AppendEntriesResponse, RequestVoteRequest, RpcRequest,
  RpcResponse, RpcResult, ClientRequest,
}
use wraft.Raft.Storage.{Codec, update_term, append_log, sublog}
use wraft.Raft.Worker.{
  Inner, ClientSender, Effect, StateChange, handle_request_vote, accept_entries,
  handle_append_entries, store_entries, follow_commit, apply_log, apply_entries,
}
use wraft.Raft.Worker.Follower
use wraft.Raft.Worker.Candidate
use wraft.Raft.Worker.Leader
use wraft.Raft.Worker.Leader.{Leader}
use wraft.Raft.Worker.Leader.Handlers
use wraft.Raft.Votes.Steps.{record_progress-inner}

abbrev pub SameNode : {Text Cmd : Type 0} → Inner Text Cmd → Inner Text Cmd → Type 0
SameNode w w' =
    (w'.node_id ≡ w.node_id)
    × (w'.cluster_size ≡ w.cluster_size)
    × (w'.peer_clients ≡ w.peer_clients)

module _ {Text Cmd : Type 0} where
  pub SameNode-trans : (u v w : Inner Text Cmd) → SameNode u v → SameNode v w → SameNode u w
  SameNode-trans u v w (a, b, c) (d, e, f) = (d ∙ a, e ∙ b, f ∙ c)

  follow_commit-SameNode :
      (w : Inner Text Cmd) (req : AppendEntriesRequest Cmd) → SameNode w (follow_commit w req)
  unfolding follow_commit
  follow_commit-SameNode w req = ground arith

  apply_entries-SameNode :
      (w : Inner Text Cmd) (es : List (LogEntry Cmd)) → SameNode w (apply_entries w es).0
  unfolding apply_entries
  apply_entries-SameNode w [] = (refl, refl, refl)
  apply_entries-SameNode w (e ∷ es) = apply_entries-SameNode (record w { last_applied = e.idx }) es

module _ {Text Cmd : Type 0} ⦃codec : Codec Text Cmd⦄ where
  handle_request_vote-SameNode :
      (w : Inner Text Cmd) (req : RequestVoteRequest) → SameNode w (handle_request_vote w req).0
  unfolding handle_request_vote
  handle_request_vote-SameNode w req = ground arith

  accept_entries-SameNode :
      (w w' : Inner Text Cmd) (req : AppendEntriesRequest Cmd) (resp : AppendEntriesResponse)
      → accept_entries w req ≡ ok (w', resp)
      → SameNode w w'
  unfolding accept_entries
  accept_entries-SameNode w w' req resp h =
      let (s, stored, rest) = >>=-ok (store_entries w.storage req.entries) _ h in
      ground (arith, follow_commit-SameNode (record w { storage = s }) req)

  handle_append_entries-SameNode :
      (w w' : Inner Text Cmd) (req : AppendEntriesRequest Cmd) (resp : AppendEntriesResponse)
      → handle_append_entries w req ≡ ok (w', resp)
      → SameNode w w'
  unfolding handle_append_entries
  handle_append_entries-SameNode w w' req resp h =
      ground (arith, accept_entries-SameNode w w' req resp)

  pub apply_log-SameNode :
      (w w' : Inner Text Cmd) (out : List (Effect Cmd)) → apply_log w ≡ ok (w', out) → SameNode w w'
  unfolding apply_log
  apply_log-SameNode w w' out h =
      let (es, read, rest) = >>=-ok (sublog w.storage _) _ h in
      ground (arith, apply_entries-SameNode w es)

  pub follower-rpc-SameNode :
      (w w' : Inner Text Cmd) (out : List (Effect Cmd)) (req : RpcRequest Cmd) (tx : ℕ)
      → Follower.handle_rpc w req tx ≡ ok (w', out)
      → SameNode w w'
  unfolding Follower.handle_rpc
  follower-rpc-SameNode w w' out (RpcRequest.append_entries req) tx h =
      let (r, handled, rest) = >>=-ok (handle_append_entries _ req) _ h in
      ground (arith, handle_append_entries-SameNode _ r.0 req r.1 handled)
  follower-rpc-SameNode w w' out (RpcRequest.request_vote req) tx h = ground (
    arith,
    handle_request_vote-SameNode (record w { storage = (update_term w.storage req.term).0 }) req,
  )
  follower-rpc-SameNode w w' out (RpcRequest.forward_client_request req) tx h = ground arith

  pub candidate-rpc-SameNode :
      (w w' : Inner Text Cmd) (change : StateChange) (out : List (Effect Cmd))
      (req : RpcRequest Cmd) (tx : ℕ)
      → Candidate.handle_rpc w req tx ≡ ok (change, w', out)
      → SameNode w w'
  unfolding Candidate.handle_rpc
  candidate-rpc-SameNode w w' change out (RpcRequest.append_entries req) tx h =
      let (r, handled, rest) = >>=-ok (handle_append_entries _ req) _ h in
      ground (arith, handle_append_entries-SameNode _ r.0 req r.1 handled)
  candidate-rpc-SameNode w w' change out (RpcRequest.request_vote req) tx h = ground (
    arith,
    handle_request_vote-SameNode (record w { storage = (update_term w.storage req.term).0 }) req,
  )
  candidate-rpc-SameNode w w' change out (RpcRequest.forward_client_request req) tx h = ground arith

  pub client_request-SameNode :
      (w w' : Inner Text Cmd) (l l' : Leader) (out : List (Effect Cmd)) (req : ClientRequest Cmd)
      (tx : ClientSender)
      → Handlers.handle_client_request w l req tx ≡ ok (w', l', out)
      → SameNode w w'
  unfolding Handlers.handle_client_request Handlers.handle_log_update
  client_request-SameNode w w' l l' out (ClientRequest.apply cmd) tx h =
      let (r, updated, rest) = >>=-ok (Handlers.handle_log_update w l cmd tx) _ h in
      let (s, appended, sent) = >>=-ok (append_log w.storage _) _ updated in
      let (q, all, done) = >>=-ok (Leader.append_all _ _ w.peers) _ sent in ground arith
  client_request-SameNode w w' l l' out ClientRequest.debug tx h = ground arith

  obey-SameNode :
      (w w' : Inner Text Cmd) (l l' : Leader) (change : StateChange) (out : List (Effect Cmd))
      (req : AppendEntriesRequest Cmd) (tx : ℕ)
      → Handlers.obey w l req tx ≡ ok (change, w', l', out)
      → SameNode w w'
  unfolding Handlers.obey
  obey-SameNode w w' l l' change out req tx h =
      let (r, handled, rest) = >>=-ok (handle_append_entries w req) _ h in
      ground (arith, handle_append_entries-SameNode w r.0 req r.1 handled)

  pub leader-rpc-SameNode :
      (w w' : Inner Text Cmd) (l l' : Leader) (change : StateChange) (out : List (Effect Cmd))
      (req : RpcRequest Cmd) (tx : ℕ)
      → Handlers.handle_rpc w l req tx ≡ ok (change, w', l', out)
      → SameNode w w'
  unfolding Handlers.handle_rpc
  leader-rpc-SameNode w w' l l' change out (RpcRequest.append_entries req) tx h = ground (
    arith,
    obey-SameNode (record w { storage = (update_term w.storage req.term).0 }) w' l l' change out req
        tx,
  )
  leader-rpc-SameNode w w' l l' change out (RpcRequest.request_vote req) tx h = ground (
    arith,
    handle_request_vote-SameNode (record w { storage = (update_term w.storage req.term).0 }) req,
  )
  leader-rpc-SameNode w w' l l' change out (RpcRequest.forward_client_request req) tx h =
      let (r, handled, rest) = >>=-ok (Handlers.handle_client_request w l req _) _ h in
      ground (arith, client_request-SameNode w r.0 l r.1 r.2 req _ handled)

  pub response-SameNode :
      (w w' : Inner Text Cmd) (l l' : Leader) (peer first last : ℕ) (res : RpcResult)
      (change : StateChange) (out : List (Effect Cmd))
      → Handlers.handle_append_entries_response w l peer first last res ≡ ok (change, w', l', out)
      → SameNode w w'
  unfolding Handlers.handle_append_entries_response Handlers.handle_result
  response-SameNode w w' l l' peer first last (RpcResult.ok (RpcResponse.append_entries resp))
        change out h =
      ground (
        arith,
        record_progress-inner resp.success
            (record w { storage = (update_term w.storage resp.term).0 }) w'
            (record l { in_flight_peers = remove_set peer l.in_flight_peers }) l' peer first last
            change out,
      )
  response-SameNode w w' l l' peer first last (RpcResult.ok (RpcResponse.request_vote resp)) change
        out h =
      ground arith
  response-SameNode w w' l l' peer first last
        (RpcResult.ok (RpcResponse.forward_client_request resp)) change out h =
      ground arith
  response-SameNode w w' l l' peer first last (RpcResult.err e) change out h = ground arith

  commit_range-SameNode :
      (w w' : Inner Text Cmd) (l : Leader) (ns : List ℕ)
      → Leader.commit_range w l ns ≡ ok w'
      → SameNode w w'
  unfolding Leader.commit_range
  commit_range-SameNode w w' l [] h = ground arith
  commit_range-SameNode w w' l (n ∷ ns) h =
      ground (arith, commit_range-SameNode (record w { commit_index = n }) w' l ns)

  pub advance_commit_index-SameNode :
      (w w' : Inner Text Cmd) (l l' : Leader) (out : List (Effect Cmd))
      → Leader.advance_commit_index w l ≡ ok (w', l', out)
      → SameNode w w'
  unfolding Leader.advance_commit_index
  advance_commit_index-SameNode w w' l l' out h =
      let (r, ranged, rest) = >>=-ok (Leader.commit_range w l _) _ h in
      ground (arith, commit_range-SameNode w r l _ ranged)
