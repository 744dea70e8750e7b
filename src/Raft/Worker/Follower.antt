-- ===== src/Raft/Worker/Follower.antt =====
-- wraft/src/raft/worker.rs: the handlers of a follower.
use wraft.Base.{panic, ℕ, Option, none, some, List, [], ◌∷◌, Outcome, ok, ◌>>=◌, get}
use wraft.Raft.Types.{
  RpcResult, ClientRequest, ClientResult, ClientError, RpcRequest, RpcResponse, StateName,
}
use wraft.Raft.Storage.{Codec, update_term}
use wraft.Raft.Worker.{
  Inner, Client, ClientSender, Effect, reply, answer, call_forward, reset_timer,
  handle_request_vote, handle_append_entries, handle_debug,
}

abbrev pub refuse : {Cmd : Type 0} → ClientSender → List (Effect Cmd)
refuse tx = answer tx (ClientResult.err ClientError.unavailable) ∷ []

-- The reply to a forwarded request by a node that is not the leader.
abbrev pub refuse_forwarded : {Cmd : Type 0} → ℕ → List (Effect Cmd)
refuse_forwarded tx =
    reply tx (RpcResponse.forward_client_request (ClientResult.err ClientError.unavailable)) ∷ []

-- The task that forwards a request: what it answers to the client.
unfoldable pub forward_task : RpcResult → Outcome ClientResult
forward_task (RpcResult.ok (RpcResponse.forward_client_request resp)) = ok resp
forward_task (RpcResult.err error) = ok (ClientResult.err ClientError.unavailable)
forward_task (RpcResult.ok _) = panic

-- The end of `forward_client_request`, with the client of the leader if there is one.
unfoldable pub forward_to :
    {Cmd : Type 0} → Option Client → ClientRequest Cmd → ClientSender → List (Effect Cmd)
forward_to none req tx = refuse tx
forward_to (some client) req tx = call_forward client.node_id req tx ∷ []

module _ {Text Cmd : Type 0} where
  -- By the known leader, if there is one.
  unfoldable pub forward_by :
      Option ℕ → Inner Text Cmd → ClientRequest Cmd → ClientSender → List (Effect Cmd)
  unfolding forward_to
  forward_by none w req tx = refuse tx
  forward_by (some leader) w req tx = forward_to (get leader w.peer_clients) req tx

  unfoldable pub forward_client_request :
      Inner Text Cmd → ClientRequest Cmd → ClientSender → List (Effect Cmd)
  unfolding forward_by
  forward_client_request w req tx = forward_by w.leader_id w req tx

  unfoldable pub handle_client :
      Inner Text Cmd → ClientRequest Cmd → ClientSender → List (Effect Cmd)
  unfolding forward_client_request
  handle_client w ClientRequest.debug tx = handle_debug StateName.follower w tx
  handle_client w (ClientRequest.apply cmd) tx =
      forward_client_request w (ClientRequest.apply cmd) tx

module _ {Text Cmd : Type 0} ⦃codec : Codec Text Cmd⦄ where
  unfoldable pub handle_rpc :
      Inner Text Cmd → RpcRequest Cmd → ℕ → Outcome (Inner Text Cmd × List (Effect Cmd))
  handle_rpc w (RpcRequest.request_vote req) tx =
      let w' = record w { storage = (update_term w.storage req.term).0 } in
      let (w'', resp) = handle_request_vote w' req in
      ok (w'', reply tx (RpcResponse.request_vote resp) ∷ [])
  handle_rpc w (RpcRequest.append_entries req) tx = do
    let w' = record w {
      storage = (update_term w.storage req.term).0;
      leader_id = some req.leader_id;
    }
    (w'', resp) ← handle_append_entries w' req
    ok (w'', reply tx (RpcResponse.append_entries resp) ∷ reset_timer ∷ [])
  handle_rpc w (RpcRequest.forward_client_request req) tx = ok (w, refuse_forwarded tx)
