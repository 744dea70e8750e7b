-- ===== src/Raft/Cluster/Quiet.antt =====
-- The handlers of worker.rs that call no vote, and that leave the term of who stays in office.
use wraft.Base.{
  unwrap, ℕ, ◌≡◌, ◌⊎◌, Bool, true, false, List, [], ◌∷◌, arith, ok, >>=-ok, get, remove_set,
}
use wraft.Raft.Types.{RpcRequest, RpcResult, RpcResponse, ClientRequest, AppendEntriesRequest}
use wraft.Raft.Storage.{Codec, update_term, append_log}
use wraft.Raft.Worker.{
  Inner, ClientSender, Effect, reset_timer, StateChange, become_follower, handle_append_entries,
  handle_debug,
}
use wraft.Raft.Worker.Follower
use wraft.Raft.Worker.Candidate
use wraft.Raft.Worker.Leader
use wraft.Raft.Worker.Leader.{Leader}
use wraft.Raft.Worker.Leader.Handlers
use wraft.Raft.Votes.{update_term_lem}
use wraft.Raft.Votes.Handlers.{handle_request_vote_lem}
use wraft.Raft.Votes.Steps.{record_progress-inner, client_request-vote}
use wraft.Raft.Cluster.{ballots}
use wraft.Raft.Cluster.Calls.{ballots-append, append_entries-ballots, append_all-ballots}

module _ {Text Cmd : Type 0} where
  pub follower-client-ballots :
      (w : Inner Text Cmd) (req : ClientRequest Cmd) (tx : ClientSender)
      → ballots (Follower.handle_client w req tx) ≡ []
  unfolding Follower.handle_client handle_debug Follower.forward_client_request Follower.forward_by
      Follower.forward_to
  follower-client-ballots w req tx = ground arith

  pub candidate-client-ballots :
      (w : Inner Text Cmd) (req : ClientRequest Cmd) (tx : ClientSender)
      → ballots (Candidate.handle_client w req tx) ≡ []
  unfolding Candidate.handle_client handle_debug
  candidate-client-ballots w req tx = ground arith

module _ {Text Cmd : Type 0} ⦃codec : Codec Text Cmd⦄ where
  pub follower-rpc-ballots :
      (w w' : Inner Text Cmd) (out : List (Effect Cmd)) (req : RpcRequest Cmd) (tx : ℕ)
      → Follower.handle_rpc w req tx ≡ ok (w', out)
      → ballots out ≡ []
  unfolding Follower.handle_rpc
  follower-rpc-ballots w w' out (RpcRequest.append_entries req) tx h =
      let (r, handled, rest) = >>=-ok (handle_append_entries _ req) _ h in ground arith
  follower-rpc-ballots w w' out _ tx h = ground arith

  pub candidate-rpc-quiet :
      (w w' : Inner Text Cmd) (change : StateChange) (out : List (Effect Cmd))
      (req : RpcRequest Cmd) (tx : ℕ)
      → Candidate.handle_rpc w req tx ≡ ok (change, w', out)
      → (ballots out ≡ [])
        × ((change ≡ become_follower) ⊎ (w'.storage.current_term ≡ w.storage.current_term))
  unfolding Candidate.handle_rpc
  candidate-rpc-quiet w w' change out (RpcRequest.append_entries req) tx h =
      let (r, handled, rest) = >>=-ok (handle_append_entries _ req) _ h in ground arith
  candidate-rpc-quiet w w' change out (RpcRequest.request_vote req) tx h = ground (
    arith,
    handle_request_vote_lem (record w { storage = (update_term w.storage req.term).0 }) req,
    update_term_lem w.storage req.term,
  )
  candidate-rpc-quiet w w' change out (RpcRequest.forward_client_request req) tx h = ground arith

  pub client_request-ballots :
      (w w' : Inner Text Cmd) (l l' : Leader) (out : List (Effect Cmd)) (req : ClientRequest Cmd)
      (tx : ClientSender)
      → Handlers.handle_client_request w l req tx ≡ ok (w', l', out)
      → ballots out ≡ []
  unfolding Handlers.handle_client_request Handlers.handle_log_update handle_debug
  client_request-ballots w w' l l' out (ClientRequest.apply cmd) tx h =
      let (r, updated, rest) = >>=-ok (Handlers.handle_log_update w l cmd tx) _ h in
      let (s, appended, sent) = >>=-ok (append_log w.storage _) _ updated in
      let (q, all, done) = >>=-ok (Leader.append_all _ _ w.peers) _ sent in
      ground
        (arith, append_all-ballots _ _ q.0 w.peers q.1 all, ballots-append q.1 (reset_timer ∷ []))
  client_request-ballots w w' l l' out ClientRequest.debug tx h = ground arith

  pub heartbeat-ballots :
      (w : Inner Text Cmd) (l l' : Leader) (out : List (Effect Cmd))
      → Leader.heartbeat w l ≡ ok (l', out)
      → ballots out ≡ []
  unfolding Leader.heartbeat
  heartbeat-ballots w l l' out h =
      let (r, sent, rest) = >>=-ok (Leader.append_all w l w.peers) _ h in
      ground
        (arith, append_all-ballots w l r.0 w.peers r.1 sent, ballots-append r.1 (reset_timer ∷ []))

  obey-quiet :
      (w w' : Inner Text Cmd) (l l' : Leader) (change : StateChange) (out : List (Effect Cmd))
      (req : AppendEntriesRequest Cmd) (tx : ℕ)
      → Handlers.obey w l req tx ≡ ok (change, w', l', out)
      → (ballots out ≡ []) × (change ≡ become_follower)
  unfolding Handlers.obey
  obey-quiet w w' l l' change out req tx h =
      let (r, handled, rest) = >>=-ok (handle_append_entries w req) _ h in ground arith

  pub leader-rpc-quiet :
      (w w' : Inner Text Cmd) (l l' : Leader) (change : StateChange) (out : List (Effect Cmd))
      (req : RpcRequest Cmd) (tx : ℕ)
      → Handlers.handle_rpc w l req tx ≡ ok (change, w', l', out)
      → (ballots out ≡ [])
        × ((change ≡ become_follower) ⊎ (w'.storage.current_term ≡ w.storage.current_term))
  unfolding Handlers.handle_rpc
  leader-rpc-quiet w w' l l' change out (RpcRequest.append_entries req) tx h = ground (
    arith,
    obey-quiet (record w { storage = (update_term w.storage req.term).0 }) w' l l' change out req
        tx,
    update_term_lem w.storage req.term,
  )
  leader-rpc-quiet w w' l l' change out (RpcRequest.request_vote req) tx h =
      ground (arith, update_term_lem w.storage req.term)
  leader-rpc-quiet w w' l l' change out (RpcRequest.forward_client_request req) tx h =
      let (r, handled, rest) = >>=-ok (Handlers.handle_client_request w l req _) _ h in
      ground (
        arith,
        client_request-ballots w r.0 l r.1 r.2 req _ handled,
        client_request-vote w r.0 l r.1 r.2 req _ handled,
      )

  record_progress-ballots :
      (good : Bool) (w w' : Inner Text Cmd) (l l' : Leader) (peer first last : ℕ)
      (change : StateChange) (out : List (Effect Cmd))
      → Handlers.record_progress good w l peer first last ≡ ok (change, w', l', out)
      → ballots out ≡ []
  unfolding Handlers.record_progress
  record_progress-ballots true w w' l l' peer first last change out h = ground arith
  record_progress-ballots false w w' l l' peer first last change out h =
      let (next, known, more) = >>=-ok (unwrap (get peer l.next_indices)) _ h in
      let (r, sent, rest) = >>=-ok (Leader.append_entries w _ peer) _ more in
      ground (arith, append_entries-ballots w _ r.0 peer r.1 sent)

  pub response-quiet :
      (w w' : Inner Text Cmd) (l l' : Leader) (peer first last : ℕ) (res : RpcResult)
      (change : StateChange) (out : List (Effect Cmd))
      → Handlers.handle_append_entries_response w l peer first last res ≡ ok (change, w', l', out)
      → (ballots out ≡ [])
        × ((change ≡ become_follower) ⊎ (w'.storage.current_term ≡ w.storage.current_term))
  unfolding Handlers.handle_append_entries_response Handlers.handle_result
  response-quiet w w' l l' peer first last (RpcResult.ok (RpcResponse.append_entries resp)) change
        out h =
      let u : Inner Text Cmd = record w { storage = (update_term w.storage resp.term).0 } in
      let free : Leader = record l { in_flight_peers = remove_set peer l.in_flight_peers } in
      ground (
        arith,
        record_progress-inner resp.success u w' free l' peer first last change out,
        record_progress-ballots resp.success u w' free l' peer first last change out,
        update_term_lem w.storage resp.term,
      )
  response-quiet w w' l l' peer first last (RpcResult.ok (RpcResponse.request_vote resp)) change out
        h =
      ground arith
  response-quiet w w' l l' peer first last (RpcResult.ok (RpcResponse.forward_client_request resp))
        change out h =
      ground arith
  response-quiet w w' l l' peer first last (RpcResult.err e) change out h = ground arith
