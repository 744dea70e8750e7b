-- ===== src/Raft/Votes/Steps.antt =====
-- The rounds of each role that handle an RPC or a response, seen at the term and the vote.
use wraft.Base.{remove_set, ℕ, ◌+◌, ◌≤◌, ◌≡◌, Bool, true, false, List, arith, ok, >>=-ok}
use wraft.Raft.Types.{AppendEntriesRequest, RpcRequest, RpcResponse, RpcResult, ClientRequest}
use wraft.Raft.Storage.{Codec, Storage, update_term, append_log}
use wraft.Raft.Worker.{Inner, ClientSender, Effect, StateChange, continue, handle_append_entries}
use wraft.Raft.Worker.Follower
use wraft.Raft.Worker.Candidate
use wraft.Raft.Worker.Leader
use wraft.Raft.Worker.Leader.{Leader}
use wraft.Raft.Worker.Leader.Handlers
use wraft.Raft.Worker.Machine.{Event}
use wraft.Raft.Votes.{VoteKept, update_term_lem, append_log-vote}
use wraft.Raft.Votes.Handlers.{handle_request_vote_lem, handle_append_entries-vote}

-- The term of a message; what carries none counts as 0.
abbrev pub request_term : {Cmd : Type 0} → RpcRequest Cmd → ℕ
request_term (RpcRequest.append_entries req) = req.term
request_term (RpcRequest.request_vote req) = req.term
request_term (RpcRequest.forward_client_request req) = 0

abbrev pub result_term : RpcResult → ℕ
result_term (RpcResult.ok (RpcResponse.append_entries resp)) = resp.term
result_term (RpcResult.ok _) = 0
result_term (RpcResult.err _) = 0

abbrev pub event_term : {Cmd : Type 0} → Event Cmd → ℕ
event_term (Event.rpc req tx) = request_term req
event_term (Event.append_response peer first last res) = result_term res
event_term _ = 0

-- The vote is kept, and the term grows by one at most beyond every term seen.
abbrev pub Follows : {Text Cmd : Type 0} → ℕ → Storage Text Cmd → Storage Text Cmd → Type 0
Follows b s t = VoteKept s t × (t.current_term ≤ b + 1)

module _ {Text Cmd : Type 0} ⦃codec : Codec Text Cmd⦄ where
  pub follower-rpc-Follows :
      (b : ℕ) (w w' : Inner Text Cmd) (out : List (Effect Cmd)) (req : RpcRequest Cmd) (tx : ℕ)
      → w.storage.current_term ≤ b
      → request_term req ≤ b
      → Follower.handle_rpc w req tx ≡ ok (w', out)
      → Follows b w.storage w'.storage
  unfolding Follower.handle_rpc
  follower-rpc-Follows b w w' out (RpcRequest.append_entries req) tx hb ht h =
      let (r, handled, rest) = >>=-ok (handle_append_entries _ req) _ h in
      ground (
        arith,
        handle_append_entries-vote _ r.0 req r.1 handled,
        update_term_lem w.storage req.term,
      )
  follower-rpc-Follows b w w' out (RpcRequest.request_vote req) tx hb ht h = ground (
    arith,
    handle_request_vote_lem (record w { storage = (update_term w.storage req.term).0 }) req,
    update_term_lem w.storage req.term,
  )
  follower-rpc-Follows b w w' out (RpcRequest.forward_client_request req) tx hb ht h = ground arith

  pub candidate-rpc-Follows :
      (b : ℕ) (w w' : Inner Text Cmd) (change : StateChange) (out : List (Effect Cmd))
      (req : RpcRequest Cmd) (tx : ℕ)
      → w.storage.current_term ≤ b
      → request_term req ≤ b
      → Candidate.handle_rpc w req tx ≡ ok (change, w', out)
      → Follows b w.storage w'.storage
  unfolding Candidate.handle_rpc
  candidate-rpc-Follows b w w' change out (RpcRequest.append_entries req) tx hb ht h =
      let (r, handled, rest) = >>=-ok (handle_append_entries _ req) _ h in
      ground (
        arith,
        handle_append_entries-vote _ r.0 req r.1 handled,
        update_term_lem w.storage req.term,
      )
  candidate-rpc-Follows b w w' change out (RpcRequest.request_vote req) tx hb ht h = ground (
    arith,
    handle_request_vote_lem (record w { storage = (update_term w.storage req.term).0 }) req,
    update_term_lem w.storage req.term,
  )
  candidate-rpc-Follows b w w' change out (RpcRequest.forward_client_request req) tx hb ht h =
      ground arith

  pub client_request-vote :
      (w w' : Inner Text Cmd) (l l' : Leader) (out : List (Effect Cmd)) (req : ClientRequest Cmd)
      (tx : ClientSender)
      → Handlers.handle_client_request w l req tx ≡ ok (w', l', out)
      → (w'.storage.current_term ≡ w.storage.current_term)
        × (w'.storage.voted_for ≡ w.storage.voted_for)
  unfolding Handlers.handle_client_request Handlers.handle_log_update
  client_request-vote w w' l l' out (ClientRequest.apply cmd) tx h =
      let (r, updated, rest) = >>=-ok (Handlers.handle_log_update w l cmd tx) _ h in
      let (s, appended, sent) = >>=-ok (append_log w.storage _) _ updated in
      let (q, all, done) = >>=-ok (Leader.append_all _ _ w.peers) _ sent in
      ground (arith, append_log-vote w.storage s _ appended)
  client_request-vote w w' l l' out ClientRequest.debug tx h = ground arith

  obey-vote :
      (w w' : Inner Text Cmd) (l l' : Leader) (change : StateChange) (out : List (Effect Cmd))
      (req : AppendEntriesRequest Cmd) (tx : ℕ)
      → Handlers.obey w l req tx ≡ ok (change, w', l', out)
      → (w'.storage.current_term ≡ w.storage.current_term)
        × (w'.storage.voted_for ≡ w.storage.voted_for)
  unfolding Handlers.obey
  obey-vote w w' l l' change out req tx h =
      let (r, handled, rest) = >>=-ok (handle_append_entries w req) _ h in
      ground (arith, handle_append_entries-vote w r.0 req r.1 handled)

  pub leader-rpc-Follows :
      (b : ℕ) (w w' : Inner Text Cmd) (l l' : Leader) (change : StateChange)
      (out : List (Effect Cmd)) (req : RpcRequest Cmd) (tx : ℕ)
      → w.storage.current_term ≤ b
      → request_term req ≤ b
      → Handlers.handle_rpc w l req tx ≡ ok (change, w', l', out)
      → Follows b w.storage w'.storage
  unfolding Handlers.handle_rpc
  leader-rpc-Follows b w w' l l' change out (RpcRequest.append_entries req) tx hb ht h = ground (
    arith,
    obey-vote (record w { storage = (update_term w.storage req.term).0 }) w' l l' change out req tx,
    update_term_lem w.storage req.term,
  )
  leader-rpc-Follows b w w' l l' change out (RpcRequest.request_vote req) tx hb ht h = ground (
    arith,
    handle_request_vote_lem (record w { storage = (update_term w.storage req.term).0 }) req,
    update_term_lem w.storage req.term,
  )
  leader-rpc-Follows b w w' l l' change out (RpcRequest.forward_client_request req) tx hb ht h =
      let (r, handled, rest) = >>=-ok (Handlers.handle_client_request w l req _) _ h in
      ground (arith, client_request-vote w r.0 l r.1 r.2 req _ handled)

  pub record_progress-inner :
      (good : Bool) (w w' : Inner Text Cmd) (l l' : Leader) (peer first last : ℕ)
      (change : StateChange) (out : List (Effect Cmd))
      → Handlers.record_progress good w l peer first last ≡ ok (change, w', l', out)
      → (w' ≡ w) × (change ≡ continue)
  unfolding Handlers.record_progress
  record_progress-inner true w w' l l' peer first last change out h = ground arith
  record_progress-inner false w w' l l' peer first last change out h = ground arith

  pub response-Follows :
      (b : ℕ) (w w' : Inner Text Cmd) (l l' : Leader) (peer first last : ℕ) (res : RpcResult)
      (change : StateChange) (out : List (Effect Cmd))
      → w.storage.current_term ≤ b
      → result_term res ≤ b
      → Handlers.handle_append_entries_response w l peer first last res ≡ ok (change, w', l', out)
      → Follows b w.storage w'.storage
  unfolding Handlers.handle_append_entries_response
  response-Follows b w w' l l' peer first last (RpcResult.ok (RpcResponse.append_entries resp))
        change out hb ht h =
      ground (
        arith,
        record_progress-inner resp.success
            (record w { storage = (update_term w.storage resp.term).0 }) w'
            (record l { in_flight_peers = remove_set peer l.in_flight_peers }) l' peer first last
            change out,
        update_term_lem w.storage resp.term,
      )
  response-Follows b w w' l l' peer first last (RpcResult.ok (RpcResponse.request_vote resp)) change
        out hb ht h =
      ground arith
  response-Follows b w w' l l' peer first last
        (RpcResult.ok (RpcResponse.forward_client_request resp)) change out hb ht h =
      ground arith
  response-Follows b w w' l l' peer first last (RpcResult.err e) change out hb ht h = ground arith
