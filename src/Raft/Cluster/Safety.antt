-- ===== src/Raft/Cluster/Safety.antt =====
-- The invariant of a cluster when a candidate counts a vote.
use wraft.Base.{
  ℕ, ◌+◌, ◌≤◌, ◌≡◌, ◌∙◌, ◌⊎◌, inl, inr, true, false, ◌||◌, some, List, ◌∷◌, ◌++◌, arith, subst,
  ◌==◌, Bool-cases, count, count_more, count_le, All, All_implies, contains, ok,
}
use wraft.Raft.Storage.{Codec}
use wraft.Raft.Worker.{Inner, Effect, quorum}
use wraft.Raft.Worker.Leader.{Leader}
use wraft.Raft.Worker.Machine.{Event, State, inner, candidate, leader, step}
use wraft.Raft.Votes.{VoteKept, VoteKept-refl}
use wraft.Raft.Votes.Grants.{granted}
use wraft.Raft.Leading.Election.{is_for}
use wraft.Raft.Cluster.{Ballot, Cluster, ballots, put}
use wraft.Raft.Cluster.Calls.{is_ballot}
use wraft.Raft.Cluster.Step.{step-counts}
use wraft.Raft.Cluster.Invariant.{
  Cast, Own, Office, Counted, cast_after, cast_after-keeps, votes_for,
}
use wraft.Raft.Cluster.Ballots.{count-middle, All-middle}
use wraft.Raft.Cluster.Update.{Filed-keeps, updated}

module _ {Text Cmd : Type 0} where
  -- The office of a candidate that has counted one more vote.
  elected :
      (members : List ℕ) (cast cast' : Cast) (pending pending' : List Ballot) (n : ℕ) (v : Ballot)
      (w : Inner Text Cmd) (votes : ℕ) (st : State Text Cmd)
      → contains v.voter members ≡ true
      → cast v.voter v.req.term ≡ some n
      → w.storage.current_term ≡ v.req.term
      → (inner st).storage ≡ w.storage
      → (inner st).cluster_size ≡ w.cluster_size
      → (count (is_ballot v.voter n v.req.term) pending ≡ 1)
        × (count (is_ballot v.voter n v.req.term) pending' ≡ 0)
      → ((x t who : ℕ) → cast x t ≡ some who → cast' x t ≡ some who)
      → ((x t : ℕ) → count (is_ballot x n t) pending' ≤ count (is_ballot x n t) pending)
      → Office members cast pending n (candidate w votes)
      → ((w' : Inner Text Cmd) × (st ≡ candidate w' (votes + 1)))
        ⊎ ((quorum w ≤ votes + 1) × ((w' : Inner Text Cmd) × (l : Leader) × (st ≡ leader w' l)))
      → Office members cast' pending' n st
  unfolding quorum
  elected members cast cast' pending pending' n v w votes st member voted when stored size
        (listed, gone) keeps fewer (counted, enough, sound) role =
      let t = v.req.term in
      let new : counted v.voter ≡ false = elim (Bool-cases (counted v.voter)) [
        | inl twice ↦
            let none_left : count (is_ballot v.voter n t) pending ≡ 0 =
              rw (← when) (sound v.voter twice).1 in
            absurd (omega (arith, listed, none_left))
        | inr once ↦ once
      ] in
      let more = count_more counted v.voter members member new in
      let sound' : (x : ℕ)
          → (x == v.voter || counted x) ≡ true
          → (cast' x t ≡ some n) × (count (is_ballot x n t) pending' ≡ 0) =
        λ x h. elim (Bool-cases (x == v.voter)) [
          | inl hit ↦ let e : x ≡ v.voter = ground arith in rw e (keeps v.voter t n voted, gone)
          | inr miss ↦
              let old : (cast x t ≡ some n) × (count (is_ballot x n t) pending ≡ 0) =
                rw (← when) (sound x (ground arith)) in
              (keeps x t n old.0, omega (arith, fewer x t, old.1))
        ] in
      elim role [
        | inl (w', is_st) ↦
            let term : w'.storage.current_term ≡ t = ground arith in
            rw is_st (
              (λ x. x == v.voter || counted x),
              omega (arith, enough, more),
              λ x h. rw term (sound' x h),
            )
        | inr (reached, (w', l, is_st)) ↦
            let term : w'.storage.current_term ≡ t = ground arith in
            let same : w'.cluster_size ≡ w.cluster_size = ground arith in
            let all =
              count_le (λ x. x == v.voter || counted x) (λ x. is_for n (cast' x t)) members
                (λ x h. votes_for n (cast' x t) (sound' x h).0) in
            rw is_st (rw (term, same) (omega (arith, reached, enough, more, all)))
      ]

module _ {Text Cmd : Type 0} ⦃codec : Codec Text Cmd⦄ where
  -- A candidate counts a vote.
  pub counted_one :
      (members : List ℕ) (c : Cluster Text Cmd) (cast : Cast) (v : Ballot)
      (before after : List Ballot) (w : Inner Text Cmd) (votes : ℕ) (st : State Text Cmd)
      (out : List (Effect Cmd))
      → Counted members c cast
      → c.pending ≡ before ++ v ∷ after
      → v.granted ≡ true
      → c.node v.req.candidate ≡ candidate w votes
      → w.storage.current_term ≡ v.req.term
      → step (candidate w votes) Event.vote ≡ ok (st, out)
      → Counted members
          (record {
            node = put c.node v.req.candidate st;
            pending = ballots out ++ (before ++ after);
          })
          (cast_after cast v.req.candidate st)
  counted_one members c cast v before after w votes st out k listed granted who when ran =
      let n = v.req.candidate in
      let t = v.req.term in
      let (filed, others) = All-middle _ before after v (subst (All _) listed k.filed) in
      let member = filed.0 in
      let (same, none_called, stored, role) = step-counts w votes st out ran in
      let own = subst (Own members n) who (k.own n member) in
      let own' : Own members n st =
        (same.0 ∙ own.0, same.1 ∙ own.1, rw (same.2) (own.2), rw (same.2) (own.3)) in
      let kept : VoteKept (inner (c.node n)).storage (inner st).storage =
        rw (who, stored) (VoteKept-refl w.storage) in
      let fewer : (x m s : ℕ)
          → count (is_ballot x m s) (before ++ after) ≤ count (is_ballot x m s) c.pending =
        λ x m s. rw listed (omega (arith, count-middle (is_ballot x m s) before after v)) in
      rw none_called (
        updated members c cast n st (before ++ after) k member kept own'
          (All_implies _ _ (before ++ after) (Filed-keeps members c cast n st k member kept) others)
          (λ x m s. omega (arith, fewer x m s, k.once x m s)) (λ x m s miss. fewer x m s)
          (elected members cast (cast_after cast n st) c.pending (before ++ after) n v w votes st
            filed.1.0 (filed.3 granted) when stored same.1
            (ground (
              arith,
              listed,
              count-middle (is_ballot v.voter n t) before after v,
              k.once v.voter n t,
            ))
            (cast_after-keeps members c cast n st k member kept) (λ x s. fewer x n s)
            (subst (Office members cast c.pending n) who (k.office n member)) role))
