-- ===== src/Raft/Clients/Replies.antt =====
-- What a node of worker.rs sends that acknowledges no request.
use wraft.Base.{
  append-nil, unwrap, remove_set, ℕ, ◌≡◌, refl, Bool, true, false, List, [], ◌∷◌, ◌++◌, arith, ok,
  >>=-ok, get,
}
use wraft.Raft.Types.{
  LogEntry, ClientRequest, ClientResult, ClientResponse, RpcRequest, RpcResult, RpcResponse,
}
use wraft.Raft.Storage.{Codec, sublog, last_log_term, increment_term, append_log, update_term}
use wraft.Raft.Worker.{
  Inner, ClientSender, Effect, answer, reply, drop_sender, send_command, call_vote, call_append,
  call_forward, serve, reset_timer, StateChange, apply_log, apply_entries, online, handle_debug,
  handle_append_entries,
}
use wraft.Raft.Worker.Follower
use wraft.Raft.Worker.Candidate
use wraft.Raft.Worker.Leader
use wraft.Raft.Worker.Leader.{Leader}
use wraft.Raft.Worker.Leader.Handlers
use wraft.Raft.Worker.Machine.{State, start_election}

-- The senders that are acknowledged.
abbrev pub acks : {Cmd : Type 0} → List (Effect Cmd) → List ClientSender
acks [] = []
acks (answer tx (ClientResult.ok ClientResponse.ack) ∷ out) = tx ∷ acks out
acks (_ ∷ out) = acks out

pub acks-append : {Cmd : Type 0} (xs ys : List (Effect Cmd)) → acks (xs ++ ys) ≡ acks xs ++ acks ys
acks-append [] ys = refl
acks-append (answer tx (ClientResult.ok ClientResponse.ack) ∷ xs) ys =
    ground (arith, acks-append xs ys)
acks-append (answer tx (ClientResult.ok (ClientResponse.debug d)) ∷ xs) ys = acks-append xs ys
acks-append (answer tx (ClientResult.err e) ∷ xs) ys = acks-append xs ys
acks-append (reply tx resp ∷ xs) ys = acks-append xs ys
acks-append (drop_sender tx ∷ xs) ys = acks-append xs ys
acks-append (send_command cmd ∷ xs) ys = acks-append xs ys
acks-append (call_vote p req ∷ xs) ys = acks-append xs ys
acks-append (call_append p i j req ∷ xs) ys = acks-append xs ys
acks-append (call_forward p req tx ∷ xs) ys = acks-append xs ys
acks-append (serve p ∷ xs) ys = acks-append xs ys
acks-append (reset_timer ∷ xs) ys = acks-append xs ys

pub acks-silent :
    {Cmd : Type 0} (xs ys : List (Effect Cmd)) → acks ys ≡ [] → acks (xs ++ ys) ≡ acks xs
acks-silent xs ys silent = ground (arith, acks-append xs ys, silent, append-nil (acks xs))

module _ {Text Cmd : Type 0} where
  acks-apply_entries :
      (w : Inner Text Cmd) (es : List (LogEntry Cmd)) → acks (apply_entries w es).1 ≡ []
  unfolding apply_entries
  acks-apply_entries w [] = refl
  acks-apply_entries w (e ∷ es) = acks-apply_entries (record w { last_applied = e.idx }) es

  pub acks-follower-client :
      (w : Inner Text Cmd) (req : ClientRequest Cmd) (tx : ClientSender)
      → acks (Follower.handle_client w req tx) ≡ []
  unfolding Follower.handle_client Follower.forward_client_request Follower.forward_by
      Follower.forward_to handle_debug
  acks-follower-client w req tx = ground arith

  pub acks-candidate-client :
      (w : Inner Text Cmd) (req : ClientRequest Cmd) (tx : ClientSender)
      → acks (Candidate.handle_client w req tx) ≡ []
  unfolding Candidate.handle_client handle_debug
  acks-candidate-client w req tx = ground arith

pub acks-drop_senders :
    (Cmd : Type 0) (m : List (ℕ × ClientSender)) → acks (Leader.drop_senders {Cmd = Cmd} m) ≡ []
unfolding Leader.drop_senders
acks-drop_senders Cmd [] = refl
acks-drop_senders Cmd (e ∷ m) = acks-drop_senders Cmd m

module _ {Text Cmd : Type 0} ⦃codec : Codec Text Cmd⦄ where
  pub acks-apply_log :
      (w w' : Inner Text Cmd) (out : List (Effect Cmd)) → apply_log w ≡ ok (w', out) → acks out ≡ []
  unfolding apply_log
  acks-apply_log w w' out h =
      let (es, read, rest) = >>=-ok (sublog w.storage _) _ h in
      ground (arith, acks-apply_entries w es)

  acks-request_votes_of :
      (w : Inner Text Cmd) (peers : List ℕ) (out : List (Effect Cmd))
      → Candidate.request_votes_of w peers ≡ ok out
      → acks out ≡ []
  unfolding Candidate.request_votes_of
  acks-request_votes_of w [] out h = ground arith
  acks-request_votes_of w (p ∷ ps) out h =
      let (last, read, more) = >>=-ok (last_log_term w.storage) _ h in
      let (rest, others, done) = >>=-ok (Candidate.request_votes_of w ps) _ more in
      ground (arith, acks-request_votes_of w ps rest others)

  pub acks-start_election :
      (w : Inner Text Cmd) (st : State Text Cmd) (out : List (Effect Cmd))
      → start_election w ≡ ok (st, out)
      → acks out ≡ []
  unfolding start_election Candidate.start Candidate.request_votes
  acks-start_election w st out h =
      let (r, began, rest) = >>=-ok (Candidate.start w) _ h in
      let u : Inner Text Cmd =
        Candidate.vote_for_self (record w { storage = increment_term w.storage }) in
      let (calls, asked, last) = >>=-ok (Candidate.request_votes u) _ began in
      ground (
        arith,
        acks-request_votes_of u (online u.peer_clients) calls asked,
        acks-append r.1 (reset_timer ∷ []),
      )

  acks-append_entries :
      (w : Inner Text Cmd) (l l' : Leader) (peer : ℕ) (out : List (Effect Cmd))
      → Leader.append_entries w l peer ≡ ok (l', out)
      → acks out ≡ []
  unfolding Leader.append_entries Leader.append_entries_by Leader.send_entries
  acks-append_entries w l l' peer out h = ground arith

  acks-append_all :
      (w : Inner Text Cmd) (l l' : Leader) (peers : List ℕ) (out : List (Effect Cmd))
      → Leader.append_all w l peers ≡ ok (l', out)
      → acks out ≡ []
  unfolding Leader.append_all
  acks-append_all w l l' [] out h = ground arith
  acks-append_all w l l' (p ∷ ps) out h =
      let (r, first, more) = >>=-ok (Leader.append_entries w l p) _ h in
      let (q, others, rest) = >>=-ok (Leader.append_all w r.0 ps) _ more in
      ground (
        arith,
        acks-append_entries w l r.0 p r.1 first,
        acks-append_all w r.0 q.0 ps q.1 others,
        acks-append r.1 q.1,
      )

  pub acks-follower-rpc :
      (w w' : Inner Text Cmd) (req : RpcRequest Cmd) (tx : ℕ) (out : List (Effect Cmd))
      → Follower.handle_rpc w req tx ≡ ok (w', out)
      → acks out ≡ []
  unfolding Follower.handle_rpc
  acks-follower-rpc w w' (RpcRequest.append_entries req) tx out h =
      let (r, handled, rest) = >>=-ok (handle_append_entries _ req) _ h in ground arith
  acks-follower-rpc w w' _ tx out h = ground arith

  pub acks-candidate-rpc :
      (w w' : Inner Text Cmd) (change : StateChange) (req : RpcRequest Cmd) (tx : ℕ)
      (out : List (Effect Cmd))
      → Candidate.handle_rpc w req tx ≡ ok (change, w', out)
      → acks out ≡ []
  unfolding Candidate.handle_rpc
  acks-candidate-rpc w w' change (RpcRequest.append_entries req) tx out h =
      let (r, handled, rest) = >>=-ok (handle_append_entries _ req) _ h in ground arith
  acks-candidate-rpc w w' change _ tx out h = ground arith

  pub acks-client_request :
      (w w' : Inner Text Cmd) (l l' : Leader) (out : List (Effect Cmd)) (req : ClientRequest Cmd)
      (tx : ClientSender)
      → Handlers.handle_client_request w l req tx ≡ ok (w', l', out)
      → acks out ≡ []
  unfolding Handlers.handle_client_request Handlers.handle_log_update handle_debug
  acks-client_request w w' l l' out (ClientRequest.apply cmd) tx h =
      let (r, updated, rest) = >>=-ok (Handlers.handle_log_update w l cmd tx) _ h in
      let (t, appended, sent) = >>=-ok (append_log w.storage _) _ updated in
      let (q, all, done) = >>=-ok (Leader.append_all _ _ w.peers) _ sent in
      ground (arith, acks-append_all _ _ q.0 w.peers q.1 all, acks-append q.1 (reset_timer ∷ []))
  acks-client_request w w' l l' out ClientRequest.debug tx h = ground arith

  pub acks-heartbeat :
      (w : Inner Text Cmd) (l l' : Leader) (out : List (Effect Cmd))
      → Leader.heartbeat w l ≡ ok (l', out)
      → acks out ≡ []
  unfolding Leader.heartbeat
  acks-heartbeat w l l' out h =
      let (r, sent, rest) = >>=-ok (Leader.append_all w l w.peers) _ h in
      ground (arith, acks-append_all w l r.0 w.peers r.1 sent, acks-append r.1 (reset_timer ∷ []))

  pub acks-leader-rpc :
      (w w' : Inner Text Cmd) (l l' : Leader) (change : StateChange) (req : RpcRequest Cmd) (tx : ℕ)
      (out : List (Effect Cmd))
      → Handlers.handle_rpc w l req tx ≡ ok (change, w', l', out)
      → acks out ≡ []
  unfolding Handlers.handle_rpc Handlers.obey
  acks-leader-rpc w w' l l' change (RpcRequest.forward_client_request req) tx out h =
      let (r, handled, rest) = >>=-ok (Handlers.handle_client_request w l req _) _ h in
      ground (arith, acks-client_request w r.0 l r.1 r.2 req _ handled)
  acks-leader-rpc w w' l l' change _ tx out h = ground arith

  acks-record_progress :
      (good : Bool) (w w' : Inner Text Cmd) (l l' : Leader) (peer first last : ℕ)
      (change : StateChange) (out : List (Effect Cmd))
      → Handlers.record_progress good w l peer first last ≡ ok (change, w', l', out)
      → acks out ≡ []
  unfolding Handlers.record_progress
  acks-record_progress true w w' l l' peer first last change out h = ground arith
  acks-record_progress false w w' l l' peer first last change out h =
      let (next, known, more) = >>=-ok (unwrap (get peer l.next_indices)) _ h in
      let (r, sent, rest) = >>=-ok (Leader.append_entries w _ peer) _ more in
      ground (arith, acks-append_entries w _ r.0 peer r.1 sent)

  pub acks-response :
      (w w' : Inner Text Cmd) (l l' : Leader) (peer first last : ℕ) (res : RpcResult)
      (change : StateChange) (out : List (Effect Cmd))
      → Handlers.handle_append_entries_response w l peer first last res ≡ ok (change, w', l', out)
      → acks out ≡ []
  unfolding Handlers.handle_append_entries_response Handlers.handle_result
  acks-response w w' l l' peer first last (RpcResult.ok (RpcResponse.append_entries resp)) change
        out h =
      let u : Inner Text Cmd = record w { storage = (update_term w.storage resp.term).0 } in
      let free : Leader = record l { in_flight_peers = remove_set peer l.in_flight_peers } in
      ground (arith, acks-record_progress resp.success u w' free l' peer first last change out)
  acks-response w w' l l' peer first last _ change out h = ground arith
