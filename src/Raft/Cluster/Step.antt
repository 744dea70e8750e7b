-- ===== src/Raft/Cluster/Step.antt =====
-- A whole round of `step` of worker.rs: `advance_commit_index` and `apply_log`, then the branch.
use wraft.Base.{
  ℕ, ◌+◌, ◌≤◌, ◌<◌, ◌^◌, ◌≡◌, ◌∙◌, ◌⊎◌, inl, inr, List, [], ◌++◌, arith, ok, >>=-ok, All, leb,
  Bool-cases,
}
use wraft.Raft.Storage.{Codec}
use wraft.Raft.Worker.{Inner, Effect, apply_log, online, quorum}
use wraft.Raft.Worker.Leader
use wraft.Raft.Worker.Leader.{Leader}
use wraft.Raft.Worker.Machine.{
  Event, State, inner, follower, candidate, leader, follower_branch, candidate_branch,
  leader_branch, step,
}
use wraft.Raft.Votes.Handlers.{apply_log-storage}
use wraft.Raft.Votes.Runs.{advance_commit_index-storage}
use wraft.Raft.Cluster.{ballots}
use wraft.Raft.Cluster.Identity.{
  SameNode, SameNode-trans, apply_log-SameNode, advance_commit_index-SameNode,
}
use wraft.Raft.Cluster.Calls.{ballots-append, apply_log-ballots, advance-ballots}
use wraft.Raft.Cluster.Rounds.{NodeAfter, Stays, Begins}
use wraft.Raft.Cluster.Roles.{Round, IsNoVote, follower-Round, candidate-Round, leader-Round}

module _ {Text Cmd : Type 0} where
  -- The same round, seen from the node before `apply_log`, with what that sent.
  from_before :
      (Q : ℕ → Type 0) (u w : Inner Text Cmd) (ev : Event Cmd) (st' : State Text Cmd)
      (out all_out : List (Effect Cmd)) (S T : Type 0)
      → SameNode u w
      → w.storage ≡ u.storage
      → ballots all_out ≡ ballots out
      → (T → S)
      → NodeAfter w ev (inner st')
      → ((ballots out ≡ []) × T) ⊎ Begins Q w st' out
      → NodeAfter u ev (inner st') × (((ballots all_out ≡ []) × S) ⊎ Begins Q u st' all_out)
  from_before Q u w ev st' out all_out S T (i, c, p) stored sent f after (inl (quiet, t)) =
      (rw (← i, ← c, ← p) after, inl (sent ∙ quiet, f t))
  from_before Q u w ev st' out all_out S T (i, c, p) stored sent f after (inr begins) =
      (rw (← i, ← c, ← p) after, inr (rw (sent, ← i, ← p, ← stored) begins))

  follower-Stays :
      (u w : Inner Text Cmd) (st : State Text Cmd) → Stays (follower w) st → Stays (follower u) st
  follower-Stays u w (follower w') h = tt
  follower-Stays u w (candidate w' v) h = absurd h
  follower-Stays u w (leader w' l) h = absurd h

  candidate-Stays :
      (u w : Inner Text Cmd) (v : ℕ) (st : State Text Cmd)
      → w.storage ≡ u.storage
      → Stays (candidate w v) st
      → Stays (candidate u v) st
  candidate-Stays u w v (follower w') stored h = tt
  candidate-Stays u w v (candidate w' v') stored h = rw (← stored) h
  candidate-Stays u w v (leader w' l) stored h = absurd h

  leader-Stays :
      (u w : Inner Text Cmd) (k l : Leader) (st : State Text Cmd)
      → w.storage ≡ u.storage
      → Stays (leader w l) st
      → Stays (leader u k) st
  leader-Stays u w k l (follower w') stored h = tt
  leader-Stays u w k l (candidate w' v) stored h = absurd h
  leader-Stays u w k l (leader w' l') stored h = rw (← stored) h

module _ {Text Cmd : Type 0} ⦃codec : Codec Text Cmd⦄ where
  -- A round of a node in which no vote is counted.
  pub step-Round :
      (Q : ℕ → Type 0) (st st' : State Text Cmd) (ev : Event Cmd) (out : List (Effect Cmd))
      → (inner st).storage.current_term + 1 < 2 ^ 64
      → All Q (online (inner st).peer_clients)
      → IsNoVote ev
      → step st ev ≡ ok (st', out)
      → Round Q st ev st' out
  unfolding step
  step-Round Q (follower w) st' ev out fits all uncounted h =
      let (r, applied, more) = >>=-ok (apply_log w) _ h in
      let (q, branch, rest) = >>=-ok (follower_branch r.0 ev) _ more in
      let same = apply_log-SameNode w r.0 r.1 applied in
      let stored = apply_log-storage w r.0 r.1 applied in
      let done : st' ≡ q.0 = ground arith in
      let sent : ballots out ≡ ballots q.1 =
        ground (arith, ballots-append r.1 q.1, apply_log-ballots w r.0 r.1 applied) in
      let (after, what) =
        follower-Round Q r.0 ev q.0 q.1 (rw stored fits) (rw (same.2) all) branch in
      rw done (
        from_before Q w r.0 ev q.0 q.1 out (Stays (follower w) q.0) (Stays (follower r.0) q.0) same
          stored sent (follower-Stays w r.0 q.0) after what)
  step-Round Q (candidate w votes) st' ev out fits all uncounted h =
      let (r, applied, more) = >>=-ok (apply_log w) _ h in
      let (q, branch, rest) = >>=-ok (candidate_branch r.0 votes ev) _ more in
      let same = apply_log-SameNode w r.0 r.1 applied in
      let stored = apply_log-storage w r.0 r.1 applied in
      let done : st' ≡ q.0 = ground arith in
      let sent : ballots out ≡ ballots q.1 =
        ground (arith, ballots-append r.1 q.1, apply_log-ballots w r.0 r.1 applied) in
      let (after, what) =
        candidate-Round Q r.0 votes ev q.0 q.1 (rw stored fits) (rw (same.2) all) uncounted
          branch in
      rw done (
        from_before Q w r.0 ev q.0 q.1 out (Stays (candidate w votes) q.0)
          (Stays (candidate r.0 votes) q.0) same stored sent
          (candidate-Stays w r.0 votes q.0 stored) after what)
  step-Round Q (leader w l) st' ev out fits all uncounted h =
      let (p, advanced, most) = >>=-ok (Leader.advance_commit_index w l) _ h in
      let (r, applied, more) = >>=-ok (apply_log p.0) _ most in
      let (q, branch, rest) = >>=-ok (leader_branch r.0 p.1 ev) _ more in
      let same =
        SameNode-trans w p.0 r.0 (advance_commit_index-SameNode w p.0 l p.1 p.2 advanced)
          (apply_log-SameNode p.0 r.0 r.1 applied) in
      let stored : r.0.storage ≡ w.storage =
        apply_log-storage p.0 r.0 r.1 applied
        ∙ advance_commit_index-storage w p.0 l p.1 p.2 advanced in
      let done : st' ≡ q.0 = ground arith in
      let sent : ballots out ≡ ballots q.1 = ground (
        arith,
        ballots-append (p.2 ++ r.1) q.1,
        ballots-append p.2 r.1,
        apply_log-ballots p.0 r.0 r.1 applied,
        advance-ballots w p.0 l p.1 p.2 advanced,
      ) in
      let (after, what) = leader-Round Q r.0 p.1 ev q.0 q.1 uncounted branch in
      rw done (
        from_before Q w r.0 ev q.0 q.1 out (Stays (leader w l) q.0) (Stays (leader r.0 p.1) q.0)
          same stored sent (leader-Stays w r.0 l p.1 q.0 stored) after what)

  -- The round of a candidate that counts a vote: it goes on with one more, or is the leader.
  pub step-counts :
      (w : Inner Text Cmd) (votes : ℕ) (st' : State Text Cmd) (out : List (Effect Cmd))
      → step (candidate w votes) Event.vote ≡ ok (st', out)
      → SameNode w (inner st')
        × (ballots out ≡ [])
        × ((inner st').storage ≡ w.storage)
        × (((w' : Inner Text Cmd) × (st' ≡ candidate w' (votes + 1)))
            ⊎ ((quorum w ≤ votes + 1)
                × ((w' : Inner Text Cmd) × (l : Leader) × (st' ≡ leader w' l))))
  unfolding step candidate_branch Leader.from_candidate quorum
  step-counts w votes st' out h =
      let (r, applied, more) = >>=-ok (apply_log w) _ h in
      let (q, branch, rest) = >>=-ok (candidate_branch r.0 votes Event.vote) _ more in
      let same = apply_log-SameNode w r.0 r.1 applied in
      let stored = apply_log-storage w r.0 r.1 applied in
      let calls = apply_log-ballots w r.0 r.1 applied in
      elim (Bool-cases (leb (quorum r.0) (votes + 1))) [
        | inl won ↦
            let (u, l) = Leader.from_candidate r.0 in
            let done : st' ≡ leader u l = ground arith in
            (
              rw done same,
              ground (arith, ballots-append r.1 q.1, calls),
              rw done stored,
              inr (ground (arith, same), (u, l, done)),
            )
        | inr few ↦
            let done : st' ≡ candidate r.0 (votes + 1) = ground arith in
            (
              rw done same,
              ground (arith, ballots-append r.1 q.1, calls),
              rw done stored,
              inl (r.0, done),
            )
      ]
