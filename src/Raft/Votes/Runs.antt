-- ===== src/Raft/Votes/Runs.antt =====
-- The vote across the rounds of a node's loop, and across whole runs.
use wraft.Base.{
  ℕ, ◌+◌, ◌<◌, ◌≤◌, ◌^◌, ◌≡◌, subst, ◌∙◌, List, [], ◌∷◌, arith, ok, >>=-ok, length, All,
}
use wraft.Raft.Storage.{Codec}
use wraft.Raft.Worker.{Inner, Effect, apply_log, handle_new_peer, set_disconnected}
use wraft.Raft.Worker.Follower
use wraft.Raft.Worker.Candidate
use wraft.Raft.Worker.Leader
use wraft.Raft.Worker.Leader.{Leader}
use wraft.Raft.Worker.Leader.Handlers
use wraft.Raft.Worker.Machine.{
  Event, State, inner, follower, candidate, leader, start_election, follower_branch,
  candidate_after, candidate_branch, leader_after, leader_branch, step, run,
}
use wraft.Raft.Votes.{VoteKept, VoteKept-refl, VoteKept-trans}
use wraft.Raft.Votes.Handlers.{apply_log-storage, start_lem}
use wraft.Raft.Votes.Steps.{
  event_term, Follows, follower-rpc-Follows, candidate-rpc-Follows, leader-rpc-Follows,
  response-Follows, client_request-vote,
}

module _ {Text Cmd : Type 0} ⦃codec : Codec Text Cmd⦄ where
  start_election-Follows :
      (b : ℕ) (w : Inner Text Cmd) (st : State Text Cmd) (out : List (Effect Cmd))
      → b + 1 < 2 ^ 64
      → w.storage.current_term ≤ b
      → start_election w ≡ ok (st, out)
      → Follows b w.storage (inner st).storage
  unfolding start_election
  start_election-Follows b w st out fits hb h =
      let (r, began, rest) = >>=-ok (Candidate.start w) _ h in
      ground (arith, start_lem w r.0 r.1 (omega arith) began)

  follower_branch-Follows :
      (b : ℕ) (w : Inner Text Cmd) (ev : Event Cmd) (st : State Text Cmd) (out : List (Effect Cmd))
      → b + 1 < 2 ^ 64
      → w.storage.current_term ≤ b
      → event_term ev ≤ b
      → follower_branch w ev ≡ ok (st, out)
      → Follows b w.storage (inner st).storage
  unfolding follower_branch handle_new_peer set_disconnected Candidate.from_follower
  follower_branch-Follows b w (Event.rpc req tx) st out fits hb ht h =
      let (r, handled, rest) = >>=-ok (Follower.handle_rpc w req tx) _ h in
      ground (arith, follower-rpc-Follows b w r.0 r.1 req tx hb ht handled)
  follower_branch-Follows b w Event.timeout st out fits hb ht h =
      ground (arith, start_election-Follows b (Candidate.from_follower w) st out fits)
  follower_branch-Follows b w _ st out fits hb ht h = ground arith

  candidate_branch-Follows :
      (b : ℕ) (w : Inner Text Cmd) (votes : ℕ) (ev : Event Cmd) (st : State Text Cmd)
      (out : List (Effect Cmd))
      → b + 1 < 2 ^ 64
      → w.storage.current_term ≤ b
      → event_term ev ≤ b
      → candidate_branch w votes ev ≡ ok (st, out)
      → Follows b w.storage (inner st).storage
  unfolding candidate_branch candidate_after handle_new_peer set_disconnected Leader.from_candidate
  candidate_branch-Follows b w votes (Event.rpc req tx) st out fits hb ht h =
      let (r, handled, rest) = >>=-ok (Candidate.handle_rpc w req tx) _ h in
      ground (arith, candidate-rpc-Follows b w r.1 r.0 r.2 req tx hb ht handled)
  candidate_branch-Follows b w votes Event.timeout st out fits hb ht h =
      start_election-Follows b w st out fits hb h
  candidate_branch-Follows b w votes _ st out fits hb ht h = ground arith

  leader_branch-Follows :
      (b : ℕ) (w : Inner Text Cmd) (l : Leader) (ev : Event Cmd) (st : State Text Cmd)
      (out : List (Effect Cmd))
      → b + 1 < 2 ^ 64
      → w.storage.current_term ≤ b
      → event_term ev ≤ b
      → leader_branch w l ev ≡ ok (st, out)
      → Follows b w.storage (inner st).storage
  unfolding leader_branch leader_after handle_new_peer set_disconnected
  leader_branch-Follows b w l (Event.rpc req tx) st out fits hb ht h =
      let (r, handled, rest) = >>=-ok (Handlers.handle_rpc w l req tx) _ h in
      ground (arith, leader-rpc-Follows b w r.1 l r.2 r.0 r.3 req tx hb ht handled)
  leader_branch-Follows b w l (Event.client req tx) st out fits hb ht h =
      let (r, handled, rest) = >>=-ok (Handlers.handle_client_request w l req tx) _ h in
      ground (arith, client_request-vote w r.0 l r.1 r.2 req tx handled)
  leader_branch-Follows b w l Event.timeout st out fits hb ht h =
      let (r, sent, rest) = >>=-ok (Leader.heartbeat w l) _ h in ground arith
  leader_branch-Follows b w l (Event.append_response peer first last res) st out fits hb ht h =
      let (r, handled, rest) =
        >>=-ok (Handlers.handle_append_entries_response w l peer first last res) _ h in
      ground (arith, response-Follows b w r.1 l r.2 peer first last res r.0 r.3 hb ht handled)
  leader_branch-Follows b w l _ st out fits hb ht h = ground arith

  commit_range-storage :
      (w w' : Inner Text Cmd) (l : Leader) (ns : List ℕ)
      → Leader.commit_range w l ns ≡ ok w'
      → w'.storage ≡ w.storage
  unfolding Leader.commit_range
  commit_range-storage w w' l [] h = ground arith
  commit_range-storage w w' l (n ∷ ns) h =
      ground (arith, commit_range-storage (record w { commit_index = n }) w' l ns)

  pub advance_commit_index-storage :
      (w w' : Inner Text Cmd) (l l' : Leader) (out : List (Effect Cmd))
      → Leader.advance_commit_index w l ≡ ok (w', l', out)
      → w'.storage ≡ w.storage
  unfolding Leader.advance_commit_index
  advance_commit_index-storage w w' l l' out h =
      let (r, ranged, rest) = >>=-ok (Leader.commit_range w l _) _ h in
      ground (arith, commit_range-storage w r l _ ranged)

  -- One round of a node's loop.
  pub step-Follows :
      (b : ℕ) (st st' : State Text Cmd) (ev : Event Cmd) (out : List (Effect Cmd))
      → b + 1 < 2 ^ 64
      → (inner st).storage.current_term ≤ b
      → event_term ev ≤ b
      → step st ev ≡ ok (st', out)
      → Follows b (inner st).storage (inner st').storage
  unfolding step
  step-Follows b (follower w) st' ev out fits hb ht h =
      let (r, applied, more) = >>=-ok (apply_log w) _ h in
      let (q, branch, rest) = >>=-ok (follower_branch r.0 ev) _ more in
      let same = apply_log-storage w r.0 r.1 applied in
      ground (arith, same, follower_branch-Follows b r.0 ev q.0 q.1 fits (rw same hb) ht branch)
  step-Follows b (candidate w votes) st' ev out fits hb ht h =
      let (r, applied, more) = >>=-ok (apply_log w) _ h in
      let (q, branch, rest) = >>=-ok (candidate_branch r.0 votes ev) _ more in
      let same = apply_log-storage w r.0 r.1 applied in
      ground
        (arith, same, candidate_branch-Follows b r.0 votes ev q.0 q.1 fits (rw same hb) ht branch)
  step-Follows b (leader w l) st' ev out fits hb ht h =
      let (p, advanced, most) = >>=-ok (Leader.advance_commit_index w l) _ h in
      let (r, applied, more) = >>=-ok (apply_log p.0) _ most in
      let (q, branch, rest) = >>=-ok (leader_branch r.0 p.1 ev) _ more in
      let same : r.0.storage ≡ w.storage =
        apply_log-storage p.0 r.0 r.1 applied
        ∙ advance_commit_index-storage w p.0 l p.1 p.2 advanced in
      ground (arith, same, leader_branch-Follows b r.0 p.1 ev q.0 q.1 fits (rw same hb) ht branch)

  pub run-within :
      (c b : ℕ) (evs : List (Event Cmd)) (st st' : State Text Cmd)
      → c ≤ b
      → b + length evs < 2 ^ 64
      → (inner st).storage.current_term ≤ b
      → All (λ ev. event_term ev ≤ c) evs
      → run st evs ≡ ok st'
      → VoteKept (inner st).storage (inner st').storage
        × ((inner st').storage.current_term ≤ b + length evs)
  unfolding run
  run-within c b [] st st' hc fits hb ht h =
      subst
        (λ t.
          VoteKept (inner st).storage (inner t).storage × ((inner t).storage.current_term ≤ b + 0))
        {x = st} {y = st'} (ground arith) (VoteKept-refl (inner st).storage, omega arith)
  run-within c b (ev ∷ evs) st st' hc fits hb ht h =
      let (r, stepped, rest) = >>=-ok (step st ev) _ h in
      let first = step-Follows b st r.0 ev r.1 (omega arith) hb (omega arith) stepped in
      let more = run-within c (b + 1) evs r.0 st' (omega arith) (omega arith) first.1 ht.1 rest in
      (
        VoteKept-trans (inner st).storage (inner r.0).storage (inner st').storage first.0 more.0,
        omega (arith, more.1),
      )

  -- Whatever a node receives and in whatever order, as long as no term reaches the end of its
  -- machine word, its term does not fall, and within a term its vote, once given, stays.
  pub run-VoteKept :
      (b : ℕ) (evs : List (Event Cmd)) (st st' : State Text Cmd)
      → b + length evs < 2 ^ 64
      → (inner st).storage.current_term ≤ b
      → All (λ ev. event_term ev ≤ b) evs
      → run st evs ≡ ok st'
      → VoteKept (inner st).storage (inner st').storage
  run-VoteKept b evs st st' fits hb ht h = (run-within b b evs st st' (omega arith) fits hb ht h).0
