-- ===== src/Raft/Votes/Grants.antt =====
-- The votes that a node grants to candidates.
use wraft.Base.{
  add64, remove, range_inclusive, ℕ, ◌+◌, ◌<◌, ◌≤◌, ◌^◌, ◌≡◌, refl, Bool, true, false, ◌||◌, some,
  List, [], ◌∷◌, ◌++◌, arith, ok, >>=-ok, length, All,
}
use wraft.Raft.Types.{RequestVoteRequest, RpcRequest, RpcResponse, LogEntry}
use wraft.Raft.Storage.{sublog, Codec, Storage, update_term}
use wraft.Raft.Worker.{ClientSender, Inner, Effect, reply, reset_timer, apply_log, apply_entries}
use wraft.Raft.Worker.Follower
use wraft.Raft.Worker.Candidate
use wraft.Raft.Worker.Leader
use wraft.Raft.Worker.Leader.{Leader}
use wraft.Raft.Worker.Leader.Handlers
use wraft.Raft.Worker.Machine.{
  Event, State, inner, follower, candidate, leader, follower_branch, candidate_after,
  candidate_branch, leader_after, leader_branch, step, run,
}
use wraft.Raft.Votes.{VoteKept, VoteKept-trans, update_term_lem}
use wraft.Raft.Votes.Handlers.{handle_request_vote_lem}
use wraft.Raft.Votes.Steps.{event_term}
use wraft.Raft.Votes.Runs.{run-within, step-Follows}

abbrev is_grant : RpcResponse → Bool
is_grant (RpcResponse.request_vote resp) = resp.vote_granted
is_grant _ = false

-- Whether a vote is granted among what a node sends.
abbrev pub granted : {Cmd : Type 0} → List (Effect Cmd) → Bool
granted [] = false
granted (reply tx resp ∷ out) = is_grant resp || granted out
granted (_ ∷ out) = granted out

granted-append :
    {Cmd : Type 0} (xs ys : List (Effect Cmd)) → granted (xs ++ ys) ≡ (granted xs || granted ys)
granted-append [] ys = refl
granted-append (reply tx resp ∷ xs) ys = ground (arith, granted-append xs ys)
granted-append (_ ∷ xs) ys = granted-append xs ys

module _ {Text Cmd : Type 0} where
  apply_entries-granted :
      (w : Inner Text Cmd) (es : List (LogEntry Cmd)) → granted (apply_entries w es).1 ≡ false
  unfolding apply_entries
  apply_entries-granted w [] = refl
  apply_entries-granted w (e ∷ es) = apply_entries-granted (record w { last_applied = e.idx }) es

  same_vote :
      (s t : Storage Text Cmd) (c d : ℕ)
      → VoteKept s t
      → s.current_term ≡ t.current_term
      → s.voted_for ≡ some c
      → t.voted_for ≡ some d
      → c ≡ d
  same_vote s t c d kept terms hs ht = ground arith

module _ (Cmd : Type 0) where
  ack_range-granted :
      (l : Leader) (ns : List ℕ) → granted (Leader.ack_range {Cmd = Cmd} l ns).1 ≡ false
  unfolding Leader.ack_range
  ack_range-granted l [] = refl
  ack_range-granted l (n ∷ ns) =
      let rest = record l { in_flight_client_requests = remove n l.in_flight_client_requests } in
      ground (arith, ack_range-granted l ns, ack_range-granted rest ns)

  drop_senders-granted :
      (m : List (ℕ × ClientSender)) → granted (Leader.drop_senders {Cmd = Cmd} m) ≡ false
  unfolding Leader.drop_senders
  drop_senders-granted [] = refl
  drop_senders-granted (x ∷ m) = drop_senders-granted m

module _ {Text Cmd : Type 0} ⦃codec : Codec Text Cmd⦄ where
  apply_log-granted :
      (w w' : Inner Text Cmd) (out : List (Effect Cmd))
      → apply_log w ≡ ok (w', out)
      → granted out ≡ false
  unfolding apply_log
  apply_log-granted w w' out h =
      let (es, read, rest) = >>=-ok (sublog w.storage _) _ h in
      ground (arith, apply_entries-granted w es)

  advance-granted :
      (w w' : Inner Text Cmd) (l l' : Leader) (out : List (Effect Cmd))
      → Leader.advance_commit_index w l ≡ ok (w', l', out)
      → granted out ≡ false
  unfolding Leader.advance_commit_index
  advance-granted w w' l l' out h =
      let (r, ranged, rest) = >>=-ok (Leader.commit_range w l _) _ h in
      ground
        (arith, ack_range-granted Cmd l (range_inclusive (add64 w.commit_index 1) r.commit_index))

  -- What a granted vote says of the node that grants it.
  abbrev Recorded : Storage Text Cmd → RequestVoteRequest → Type 0
  Recorded s req = (s.voted_for ≡ some req.candidate) × (s.current_term ≡ req.term)

  follower-grant :
      (w : Inner Text Cmd) (req : RequestVoteRequest) (tx : ℕ) (st : State Text Cmd)
      (out : List (Effect Cmd))
      → follower_branch w (Event.rpc (RpcRequest.request_vote req) tx) ≡ ok (st, out)
      → granted out ≡ true
      → Recorded (inner st).storage req
  unfolding follower_branch Follower.handle_rpc
  follower-grant w req tx st out h g = ground (
    arith,
    handle_request_vote_lem (record w { storage = (update_term w.storage req.term).0 }) req,
    update_term_lem w.storage req.term,
  )

  candidate-grant :
      (w : Inner Text Cmd) (votes : ℕ) (req : RequestVoteRequest) (tx : ℕ) (st : State Text Cmd)
      (out : List (Effect Cmd))
      → candidate_branch w votes (Event.rpc (RpcRequest.request_vote req) tx) ≡ ok (st, out)
      → granted out ≡ true
      → Recorded (inner st).storage req
  unfolding candidate_branch Candidate.handle_rpc candidate_after
  candidate-grant w votes req tx st out h g = ground (
    arith,
    handle_request_vote_lem (record w { storage = (update_term w.storage req.term).0 }) req,
    update_term_lem w.storage req.term,
  )

  leader-grant :
      (w : Inner Text Cmd) (l : Leader) (req : RequestVoteRequest) (tx : ℕ) (st : State Text Cmd)
      (out : List (Effect Cmd))
      → leader_branch w l (Event.rpc (RpcRequest.request_vote req) tx) ≡ ok (st, out)
      → granted out ≡ true
      → Recorded (inner st).storage req
  unfolding leader_branch Handlers.handle_rpc leader_after
  leader-grant w l req tx st out h g = ground (
    arith,
    handle_request_vote_lem (record w { storage = (update_term w.storage req.term).0 }) req,
    update_term_lem w.storage req.term,
    drop_senders-granted Cmd l.in_flight_client_requests,
    granted-append (Leader.drop_senders {Cmd = Cmd} l.in_flight_client_requests) (reset_timer ∷ []),
  )

  -- A node that grants its vote in a round ends the round in the request's term, with the
  -- request's candidate as its vote.
  pub step-granted :
      (st st' : State Text Cmd) (req : RequestVoteRequest) (tx : ℕ) (out : List (Effect Cmd))
      → step st (Event.rpc (RpcRequest.request_vote req) tx) ≡ ok (st', out)
      → granted out ≡ true
      → ((inner st').storage.voted_for ≡ some req.candidate)
        × ((inner st').storage.current_term ≡ req.term)
  unfolding step
  step-granted (follower w) st' req tx out h g =
      let (r, applied, more) = >>=-ok (apply_log w) _ h in
      let (q, branch, rest) = >>=-ok (follower_branch r.0 _) _ more in
      ground (
        arith,
        apply_log-granted w r.0 r.1 applied,
        granted-append r.1 q.1,
        follower-grant r.0 req tx q.0 q.1 branch,
      )
  step-granted (candidate w votes) st' req tx out h g =
      let (r, applied, more) = >>=-ok (apply_log w) _ h in
      let (q, branch, rest) = >>=-ok (candidate_branch r.0 votes _) _ more in
      ground (
        arith,
        apply_log-granted w r.0 r.1 applied,
        granted-append r.1 q.1,
        candidate-grant r.0 votes req tx q.0 q.1 branch,
      )
  step-granted (leader w l) st' req tx out h g =
      let (p, advanced, most) = >>=-ok (Leader.advance_commit_index w l) _ h in
      let (r, applied, more) = >>=-ok (apply_log p.0) _ most in
      let (q, branch, rest) = >>=-ok (leader_branch r.0 p.1 _) _ more in
      ground (
        arith,
        advance-granted w p.0 l p.1 p.2 advanced,
        apply_log-granted p.0 r.0 r.1 applied,
        granted-append (p.2 ++ r.1) q.1,
        granted-append p.2 r.1,
        leader-grant r.0 p.1 req tx q.0 q.1 branch,
      )

  -- Two votes that a node grants in one term, with any rounds between them, go to one candidate,
  -- as long as no term reaches the end of its machine word.
  pub grants_agree :
      (b : ℕ) (st st1 st2 st3 : State Text Cmd) (req1 req2 : RequestVoteRequest) (tx1 tx2 : ℕ)
      (out1 out2 : List (Effect Cmd)) (evs : List (Event Cmd))
      → b + length evs + 1 < 2 ^ 64
      → req1.term ≤ b
      → req2.term ≡ req1.term
      → All (λ ev. event_term ev ≤ b) evs
      → step st (Event.rpc (RpcRequest.request_vote req1) tx1) ≡ ok (st1, out1)
      → granted out1 ≡ true
      → run st1 evs ≡ ok st2
      → step st2 (Event.rpc (RpcRequest.request_vote req2) tx2) ≡ ok (st3, out2)
      → granted out2 ≡ true
      → req1.candidate ≡ req2.candidate
  grants_agree b st st1 st2 st3 req1 req2 tx1 tx2 out1 out2 evs fits hb same ht h1 g1 ran h2 g2 =
      let one = step-granted st st1 req1 tx1 out1 h1 g1 in
      let two = step-granted st2 st3 req2 tx2 out2 h2 g2 in
      let kept = run-within b b evs st1 st2 (omega arith) (omega arith) (omega arith) ht ran in
      let last =
        step-Follows (b + length evs) st2 st3 _ out2 (omega arith) kept.1 (omega arith) h2 in
      same_vote (inner st1).storage (inner st3).storage req1.candidate req2.candidate
        (VoteKept-trans (inner st1).storage (inner st2).storage (inner st3).storage kept.0 last.0)
        (omega arith) one.0 two.0
