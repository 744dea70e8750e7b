-- ===== src/Raft/Cluster/Update.antt =====
-- One node comes to a new state: what has to hold of it, for the invariant of the whole cluster.
use wraft.Base.{
  ℕ, ◌≤◌, ◌<◌, ◌≡◌, ◌≢◌, refl, sym, true, none, List, arith, subst, count, All, contains,
}
use wraft.Raft.Worker.Machine.{State, inner}
use wraft.Raft.Votes.{VoteKept}
use wraft.Raft.Cluster.{Ballot, Cluster, put}
use wraft.Raft.Cluster.Calls.{is_ballot}
use wraft.Raft.Cluster.Invariant.{
  term_of, vote_of, Cast, Filed, Own, Office, Counted, cast_after, cast_after-keeps, VoteKept-le,
  by_node, Office-keeps,
}

module _ {Text Cmd : Type 0} where
  -- Ballots that were filed stay so.
  pub Filed-keeps :
      (members : List ℕ) (c : Cluster Text Cmd) (cast : Cast) (n : ℕ) (st : State Text Cmd)
      → Counted members c cast
      → contains n members ≡ true
      → VoteKept (inner (c.node n)).storage (inner st).storage
      → (b : Ballot) → Filed members cast (λ m. term_of (c.node m)) b
      → Filed members (cast_after cast n st) (λ m. term_of (put c.node n st m)) b
  Filed-keeps members c cast n st k member kept b (candidate_in, other, reached, voted) = (
    candidate_in,
    other,
    by_node (λ m s. m ≡ b.req.candidate → b.req.term ≤ term_of s) c.node n st
        (λ e. omega (
          arith,
          VoteKept-le (inner (c.node n)).storage (inner st).storage kept,
          subst (λ m. b.req.term ≤ term_of (c.node m)) (sym e) reached,
        ))
        (λ m miss e. subst (λ m. b.req.term ≤ term_of (c.node m)) (sym e) reached) b.req.candidate
        refl,
    λ g.
        cast_after-keeps members c cast n st k member kept b.voter b.req.term b.req.candidate
          (voted g),
  )

  -- The invariant after a node has come to a new state, with new ballots on their way.
  pub updated :
      (members : List ℕ) (c : Cluster Text Cmd) (cast : Cast) (n : ℕ) (st : State Text Cmd)
      (pending : List Ballot)
      → Counted members c cast
      → contains n members ≡ true
      → VoteKept (inner (c.node n)).storage (inner st).storage
      → Own members n st
      → All (Filed members (cast_after cast n st) (λ m. term_of (put c.node n st m))) pending
      → ((v m t : ℕ) → count (is_ballot v m t) pending ≤ 1)
      → ((v m t : ℕ) → m ≢ n → count (is_ballot v m t) pending ≤ count (is_ballot v m t) c.pending)
      → Office members (cast_after cast n st) pending n st
      → Counted members
          (record { node = put c.node n st; pending = pending })
          (cast_after cast n st)
  updated members c cast n st pending k member kept own filed once fewer office = record {
    now =
        by_node (λ m s. contains m members ≡ true → cast_after cast n st m (term_of s) ≡ vote_of s)
          c.node n st (λ h. ground arith) (λ m miss h. ground (arith, k.now m h));
    later = λ m t.
        by_node (λ m s. contains m members ≡ true → term_of s < t → cast_after cast n st m t ≡ none)
          c.node n st
          (λ h above. ground (
            arith,
            k.later n t member,
            VoteKept-le (inner (c.node n)).storage (inner st).storage kept,
          ))
          (λ m miss h above. ground (arith, k.later m t h above)) m;
    own =
        by_node (λ m s. contains m members ≡ true → Own members m s) c.node n st (λ h. own)
          (λ m miss h. k.own m h);
    filed = filed;
    once = once;
    office =
        by_node
          (λ m s. contains m members ≡ true → Office members (cast_after cast n st) pending m s)
          c.node n st (λ h. office)
          (λ m miss h.
            Office-keeps members cast (cast_after cast n st) c.pending pending m (c.node m)
              (cast_after-keeps members c cast n st k member kept) (λ v t. fewer v m t miss)
              (k.office m h));
  }
