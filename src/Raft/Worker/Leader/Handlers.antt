-- ===== src/Raft/Worker/Leader/Handlers.antt =====
-- wraft/src/raft/worker.rs: what a leader does with a response, a request and a client's command.
use wraft.Base.{
  ℕ, Bool, true, false, List, [], ◌∷◌, ◌++◌, Outcome, ok, panic, ◌>>=◌, unwrap, if◌then◌else◌, ltb,
  max, min, add64, sub64, get, insert, remove_set,
}
use wraft.Raft.Types.{
  LogEntry, AppendEntriesRequest, AppendEntriesResponse, RequestVoteResponse, ClientRequest,
  RpcRequest, RpcResponse, RpcResult,
}
use wraft.Raft.Storage.{Codec, append_log, update_term}
use wraft.Raft.Worker.{
  Inner, ClientSender, forwarded, Effect, reply, reset_timer, StateChange, continue,
  become_follower, handle_request_vote, handle_append_entries, handle_debug,
}
use wraft.Raft.Worker.Leader.{Leader, append_entries, append_all, state_name}

-- A handler's result: whether to step down, the new state, and what it sends.
abbrev pub Handled : Type 0 → Type 0 → Type 0
Handled Text Cmd = Outcome (StateChange × Inner Text Cmd × Leader × List (Effect Cmd))

module _ {Text Cmd : Type 0} ⦃codec : Codec Text Cmd⦄ where
  -- A response of the own term, for the indices `first..=last`.
  unfoldable pub record_progress : Bool → Inner Text Cmd → Leader → ℕ → ℕ → ℕ → Handled Text Cmd
  record_progress true w l peer first last = do
    next ← unwrap (get peer l.next_indices)
    m ← unwrap (get peer l.match_indices)
    let l' = record l {
      next_indices = insert peer (max next (add64 last 1)) l.next_indices;
      match_indices = insert peer (max m last) l.match_indices;
    }
    ok (continue, w, l', [])
  record_progress false w l peer first last = do
    next ← unwrap (get peer l.next_indices)
    let l' = record l { next_indices = insert peer (min next (sub64 first 1)) l.next_indices }
    (l'', out) ← append_entries w l' peer
    ok (continue, w, l'', out)

  unfoldable pub handle_result : RpcResult → Inner Text Cmd → Leader → ℕ → ℕ → ℕ → Handled Text Cmd
  handle_result (RpcResult.err error) w l peer first last = ok (continue, w, l, [])
  handle_result (RpcResult.ok (RpcResponse.append_entries resp)) w l peer first last =
      let (s, newer) = update_term w.storage resp.term in
      let w' = record w { storage = s } in
      if newer
      then ok (become_follower, w', l, [])
      else if ltb resp.term w'.storage.current_term
      then ok (continue, w', l, [])
      else record_progress resp.success w' l peer first last
  handle_result (RpcResult.ok _) w l peer first last = panic

  unfoldable pub handle_append_entries_response :
      Inner Text Cmd → Leader → ℕ → ℕ → ℕ → RpcResult → Handled Text Cmd
  unfolding handle_result
  handle_append_entries_response w l peer first last res =
      handle_result res w (record l { in_flight_peers = remove_set peer l.in_flight_peers }) peer
        first last

  unfoldable pub handle_log_update :
      Inner Text Cmd
      → Leader
      → Cmd
      → ClientSender
      → Outcome (Inner Text Cmd × Leader × List (Effect Cmd))
  handle_log_update w l cmd tx = do
    let idx = add64 w.storage.last_log_index 1
    let entry : LogEntry Cmd = record { cmd = cmd; term = w.storage.current_term; idx = idx }
    s ← append_log w.storage entry
    let w' = record w { storage = s }
    let l' = record l { in_flight_client_requests = insert idx tx l.in_flight_client_requests }
    (l'', out) ← append_all w' l' w.peers
    ok (w', l'', out)

  unfoldable pub handle_client_request :
      Inner Text Cmd
      → Leader
      → ClientRequest Cmd
      → ClientSender
      → Outcome (Inner Text Cmd × Leader × List (Effect Cmd))
  handle_client_request w l (ClientRequest.apply cmd) tx = do
    (w', l', out) ← handle_log_update w l cmd tx
    ok (w', l', out ++ reset_timer ∷ [])
  handle_client_request w l ClientRequest.debug tx = ok (w, l, handle_debug (state_name l) w tx)

  -- A leader's answer to a request to append from a newer term.
  unfoldable pub obey : Inner Text Cmd → Leader → AppendEntriesRequest Cmd → ℕ → Handled Text Cmd
  obey w l req tx = do
    (w', resp) ← handle_append_entries w req
    ok (become_follower, w', l, reply tx (RpcResponse.append_entries resp) ∷ [])

  unfoldable pub handle_rpc : Inner Text Cmd → Leader → RpcRequest Cmd → ℕ → Handled Text Cmd
  handle_rpc w l (RpcRequest.append_entries req) tx =
      let term = w.storage.current_term in
      let (s, newer) = update_term w.storage req.term in
      let w' = record w { storage = s } in
      let refused : AppendEntriesResponse = record { term = term; success = false } in
      if newer
      then obey w' l req tx
      else ok (continue, w', l, reply tx (RpcResponse.append_entries refused) ∷ [])
  handle_rpc w l (RpcRequest.request_vote req) tx =
      let term = w.storage.current_term in
      let (s, newer) = update_term w.storage req.term in
      let w' = record w { storage = s } in
      let (w'', resp) = handle_request_vote w' req in
      let refused : RequestVoteResponse = record { term = term; vote_granted = false } in
      if newer
      then ok (become_follower, w'', l, reply tx (RpcResponse.request_vote resp) ∷ [])
      else ok (continue, w', l, reply tx (RpcResponse.request_vote refused) ∷ [])
  handle_rpc w l (RpcRequest.forward_client_request req) tx = do
    (w', l', out) ← handle_client_request w l req (forwarded tx)
    ok (continue, w', l', out)
