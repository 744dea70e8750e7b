-- ===== src/Raft/Clients/Handlers.antt =====
-- What the handlers of worker.rs do with the senders of requests.
use wraft.Base.{
  sub64, min, insert, ℕ, ◌+◌, ◌<◌, ◌^◌, ◌≡◌, Bool, true, false, List, [], ◌∷◌, arith, ok, >>=-ok,
  unwrap, get, remove_set,
}
use wraft.Raft.Types.{LogEntry, ClientRequest, RpcRequest, RpcResult, RpcResponse}
use wraft.Raft.Storage.{
  Storage, Codec, append_log, update_term, increment_last_log_index, set_last_log_index,
}
use wraft.Raft.Worker.{
  Inner, ClientSender, forwarded, Effect, reset_timer, StateChange, continue, handle_append_entries,
  handle_debug,
}
use wraft.Raft.Worker.Follower
use wraft.Raft.Worker.Candidate
use wraft.Raft.Worker.Leader
use wraft.Raft.Worker.Leader.{Leader}
use wraft.Raft.Worker.Leader.Handlers
use wraft.Raft.Votes.{update_term_lem}
use wraft.Raft.Votes.Steps.{record_progress-inner}
use wraft.Raft.Clients.{settled, same_sender, waits_in, one_if, IsKeyed}
use wraft.Raft.Clients.Effects.{settled-append, settled-append_all, settled-append_entries}
use wraft.Raft.Clients.Acks.{IsKeyed-insert, waits_in-insert}

unmoved :
    (last last' : ℕ) (m m' : List (ℕ × ClientSender)) (change : StateChange)
    → IsKeyed last m
    → (change ≡ continue → (last' ≡ last) × (m' ≡ m))
    → change ≡ continue
    → IsKeyed last' m'
unmoved last last' m m' change keyed same on = let (ends, waits) = same on in rw (ends, waits) keyed

module _ {Text Cmd : Type 0} where
  pub settled-follower-client :
      (s : ClientSender) (w : Inner Text Cmd) (req : ClientRequest Cmd) (tx : ClientSender)
      → settled s (Follower.handle_client w req tx) ≡ one_if (same_sender s tx)
  unfolding Follower.handle_client Follower.forward_client_request Follower.forward_by
      Follower.forward_to handle_debug
  settled-follower-client s w req tx = ground arith

  pub settled-candidate-client :
      (s : ClientSender) (w : Inner Text Cmd) (req : ClientRequest Cmd) (tx : ClientSender)
      → settled s (Candidate.handle_client w req tx) ≡ one_if (same_sender s tx)
  unfolding Candidate.handle_client handle_debug
  settled-candidate-client s w req tx = ground arith

module _ {Text Cmd : Type 0} ⦃codec : Codec Text Cmd⦄ where
  pub settled-follower-rpc :
      (s : ClientSender) (w w' : Inner Text Cmd) (req : RpcRequest Cmd) (tx : ℕ)
      (out : List (Effect Cmd))
      → Follower.handle_rpc w req tx ≡ ok (w', out)
      → settled s out ≡ one_if (same_sender s (forwarded tx))
  unfolding Follower.handle_rpc
  settled-follower-rpc s w w' (RpcRequest.append_entries req) tx out h =
      let (r, handled, rest) = >>=-ok (handle_append_entries _ req) _ h in ground arith
  settled-follower-rpc s w w' _ tx out h = ground arith

  pub settled-candidate-rpc :
      (s : ClientSender) (w w' : Inner Text Cmd) (change : StateChange) (req : RpcRequest Cmd)
      (tx : ℕ) (out : List (Effect Cmd))
      → Candidate.handle_rpc w req tx ≡ ok (change, w', out)
      → settled s out ≡ one_if (same_sender s (forwarded tx))
  unfolding Candidate.handle_rpc
  settled-candidate-rpc s w w' change (RpcRequest.append_entries req) tx out h =
      let (r, handled, rest) = >>=-ok (handle_append_entries _ req) _ h in ground arith
  settled-candidate-rpc s w w' change _ tx out h = ground arith

  -- The senders of a leader through a handler that gets `came` of one.
  abbrev pub Kept :
      ClientSender
      → Inner Text Cmd
      → Leader
      → ℕ
      → Inner Text Cmd
      → Leader
      → List (Effect Cmd)
      → Type 0
  Kept s w l came w' l' out =
      IsKeyed w'.storage.last_log_index l'.in_flight_client_requests
      × (waits_in s l'.in_flight_client_requests + settled s out
          ≡ waits_in s l.in_flight_client_requests + came)

  append_log-last :
      (s t : Storage Text Cmd) (e : LogEntry Cmd)
      → s.last_log_index + 1 < 2 ^ 64
      → append_log s e ≡ ok t
      → t.last_log_index ≡ s.last_log_index + 1
  unfolding append_log increment_last_log_index set_last_log_index
  append_log-last s t e fits h = ground arith

  pub client_request-Kept :
      (s : ClientSender) (w w' : Inner Text Cmd) (l l' : Leader) (out : List (Effect Cmd))
      (req : ClientRequest Cmd) (tx : ClientSender)
      → w.storage.last_log_index + 1 < 2 ^ 64
      → IsKeyed w.storage.last_log_index l.in_flight_client_requests
      → Handlers.handle_client_request w l req tx ≡ ok (w', l', out)
      → Kept s w l (one_if (same_sender s tx)) w' l' out
  unfolding Handlers.handle_client_request Handlers.handle_log_update handle_debug
  client_request-Kept s w w' l l' out (ClientRequest.apply cmd) tx fits keyed h =
      let (r, updated, rest) = >>=-ok (Handlers.handle_log_update w l cmd tx) _ h in
      let (t, appended, sent) = >>=-ok (append_log w.storage _) _ updated in
      let last = w.storage.last_log_index in
      let (q, all, done) = >>=-ok (Leader.append_all (record w { storage = t }) _ w.peers) _ sent in
      let (none_settled, same) =
        settled-append_all s (record w { storage = t }) _ q.0 w.peers q.1 all in
      let longer = append_log-last w.storage t _ fits appended in
      let keyed' =
        IsKeyed-insert last (last + 1) tx l.in_flight_client_requests (omega arith) keyed in
      let more =
        waits_in-insert s last (last + 1) tx l.in_flight_client_requests (omega arith) keyed in
      let end : w'.storage.last_log_index ≡ last + 1 = ground (arith, longer) in
      let waits : l'.in_flight_client_requests ≡ insert (last + 1) tx l.in_flight_client_requests =
        ground (arith, same) in
      let none_out : settled s out ≡ 0 =
        ground (arith, none_settled, settled-append s q.1 (reset_timer ∷ [])) in
      (rw (end, waits) keyed', rw (waits, none_out) (omega (arith, more)))
  client_request-Kept s w w' l l' out ClientRequest.debug tx fits keyed h = ground (arith, keyed)

  -- A handler's result that also says whether the leader steps down.
  abbrev pub Changed :
      ClientSender
      → Inner Text Cmd
      → Leader
      → ℕ
      → StateChange
      → Inner Text Cmd
      → Leader
      → List (Effect Cmd)
      → Type 0
  Changed s w l came change w' l' out =
      (waits_in s l'.in_flight_client_requests + settled s out
        ≡ waits_in s l.in_flight_client_requests + came)
      × (change ≡ continue → IsKeyed w'.storage.last_log_index l'.in_flight_client_requests)

  pub leader-rpc-Changed :
      (s : ClientSender) (w w' : Inner Text Cmd) (l l' : Leader) (change : StateChange)
      (req : RpcRequest Cmd) (tx : ℕ) (out : List (Effect Cmd))
      → w.storage.last_log_index + 1 < 2 ^ 64
      → IsKeyed w.storage.last_log_index l.in_flight_client_requests
      → Handlers.handle_rpc w l req tx ≡ ok (change, w', l', out)
      → Changed s w l (one_if (same_sender s (forwarded tx))) change w' l' out
  unfolding Handlers.handle_rpc Handlers.obey
  leader-rpc-Changed s w w' l l' change (RpcRequest.append_entries req) tx out fits keyed h = (
    ground (arith, update_term_lem w.storage req.term),
    unmoved w.storage.last_log_index w'.storage.last_log_index l.in_flight_client_requests
        l'.in_flight_client_requests change keyed
        (λ on. ground (arith, update_term_lem w.storage req.term)),
  )
  leader-rpc-Changed s w w' l l' change (RpcRequest.request_vote req) tx out fits keyed h = (
    ground (arith, update_term_lem w.storage req.term),
    unmoved w.storage.last_log_index w'.storage.last_log_index l.in_flight_client_requests
        l'.in_flight_client_requests change keyed
        (λ on. ground (arith, update_term_lem w.storage req.term)),
  )
  leader-rpc-Changed s w w' l l' change (RpcRequest.forward_client_request req) tx out fits keyed
        h =
      let (r, handled, rest) = >>=-ok (Handlers.handle_client_request w l req (forwarded tx)) _ h in
      let (keyed', even) =
        client_request-Kept s w r.0 l r.1 r.2 req (forwarded tx) fits keyed handled in
      let to : w' ≡ r.0 = ground arith in
      let lead : l' ≡ r.1 = ground arith in (ground (arith, even), λ on. rw (to, lead) keyed')

  record_progress-Changed :
      (s : ClientSender) (good : Bool) (w w' : Inner Text Cmd) (l l' : Leader) (peer first last : ℕ)
      (change : StateChange) (out : List (Effect Cmd))
      → Handlers.record_progress good w l peer first last ≡ ok (change, w', l', out)
      → (settled s out ≡ 0) × (l'.in_flight_client_requests ≡ l.in_flight_client_requests)
  unfolding Handlers.record_progress
  record_progress-Changed s true w w' l l' peer first last change out h = ground arith
  record_progress-Changed s false w w' l l' peer first last change out h =
      let (next, known, more) = >>=-ok (unwrap (get peer l.next_indices)) _ h in
      let l1 : Leader = record l {
        next_indices = insert peer (min next (sub64 first 1)) l.next_indices;
      } in
      let (r, sent, rest) = >>=-ok (Leader.append_entries w l1 peer) _ more in
      ground (arith, settled-append_entries s w l1 r.0 peer r.1 sent)

  pub response-Changed :
      (s : ClientSender) (w w' : Inner Text Cmd) (l l' : Leader) (peer first last : ℕ)
      (res : RpcResult) (change : StateChange) (out : List (Effect Cmd))
      → IsKeyed w.storage.last_log_index l.in_flight_client_requests
      → Handlers.handle_append_entries_response w l peer first last res ≡ ok (change, w', l', out)
      → Changed s w l 0 change w' l' out
  unfolding Handlers.handle_append_entries_response Handlers.handle_result
  response-Changed s w w' l l' peer first last (RpcResult.ok (RpcResponse.append_entries resp))
        change out keyed h =
      let u : Inner Text Cmd = record w { storage = (update_term w.storage resp.term).0 } in
      let free : Leader = record l { in_flight_peers = remove_set peer l.in_flight_peers } in
      let quiet = record_progress-Changed s resp.success u w' free l' peer first last change out in
      let same = record_progress-inner resp.success u w' free l' peer first last change out in
      (
        ground (arith, update_term_lem w.storage resp.term, quiet),
        unmoved w.storage.last_log_index w'.storage.last_log_index l.in_flight_client_requests
            l'.in_flight_client_requests change keyed
            (λ on. ground (arith, update_term_lem w.storage resp.term, quiet, same)),
      )
  response-Changed s w w' l l' peer first last (RpcResult.ok (RpcResponse.request_vote resp)) change
        out keyed h =
      ground arith
  response-Changed s w w' l l' peer first last
        (RpcResult.ok (RpcResponse.forward_client_request resp)) change out keyed h =
      ground arith
  response-Changed s w w' l l' peer first last (RpcResult.err e) change out keyed h = (
    ground (arith, h),
    unmoved w.storage.last_log_index w'.storage.last_log_index l.in_flight_client_requests
        l'.in_flight_client_requests change keyed (λ on. ground (arith, h)),
  )
