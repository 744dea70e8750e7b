-- ===== src/Raft/Cluster/Election.antt =====
-- Elections along a course of moves, from a cluster of followers.
use wraft.Base.{
  ◌≤◌, count_le, ℕ, ◌+◌, ◌<◌, ◌^◌, ◌≡◌, sym, ◌∙◌, true, none, List, [], arith, subst, if◌then◌else◌,
  ◌==◌, length, contains,
}
use wraft.Raft.Storage.{Codec}
use wraft.Raft.Worker.{Inner, quorum}
use wraft.Raft.Worker.Leader.{Leader}
use wraft.Raft.Worker.Machine.{State, follower, candidate, leader}
use wraft.Raft.Leading.Election.{is_for, one_winner}
use wraft.Raft.Cluster.{Ballot, Cluster, Reach, here, next}
use wraft.Raft.Cluster.Invariant.{
  for_votes, votes_for, term_of, vote_of, Cast, Own, Office, Counted,
}
use wraft.Raft.Cluster.Moves.{Keeps, Within, Move-Counted}

module _ {Text Cmd : Type 0} where
  abbrev pub IsFollower : State Text Cmd → Type 0
  IsFollower (follower w) = Unit {0}
  IsFollower _ = ⊥

  -- Every node is a follower that knows who it is and how many nodes there are, its clients are
  -- other nodes, each once, and no call for a vote is on its way. Terms and votes are any.
  abbrev pub IsInitial : List ℕ → Cluster Text Cmd → Type 0
  IsInitial members c =
      (c.pending ≡ [])
      × ((n : ℕ) → contains n members ≡ true → IsFollower (c.node n) × Own members n (c.node n))

  -- The votes of the terms that the nodes begin in.
  initial_cast : Cluster Text Cmd → Cast
  initial_cast c v t = if t == term_of (c.node v) then vote_of (c.node v) else none

  follower-Office :
      (members : List ℕ) (cast : Cast) (pending : List Ballot) (n : ℕ) (st : State Text Cmd)
      → IsFollower st
      → Office members cast pending n st
  follower-Office members cast pending n (follower w) h = tt
  follower-Office members cast pending n (candidate w v) h = absurd h
  follower-Office members cast pending n (leader w l) h = absurd h

  initial-Counted :
      (members : List ℕ) (c : Cluster Text Cmd)
      → IsInitial members c
      → Counted members c (initial_cast c)
  unfolding initial_cast
  initial-Counted members c (nothing, first) = record {
    now = λ n h. ground arith;
    later = λ n t h above. ground arith;
    own = λ n h. (first n h).1;
    filed = rw nothing tt;
    once = λ v n t. rw nothing (ground arith);
    office = λ n h. follower-Office members (initial_cast c) c.pending n (c.node n) (first n h).0;
  }

module _ {Text Cmd : Type 0} ⦃codec : Codec Text Cmd⦄ where
  -- The invariant along a course. A move raises terms by one at most.
  Reach-Counted :
      (members : List ℕ) (e b : ℕ) (c : Cluster Text Cmd) (cast : Cast)
      → e ≤ b
      → {k : ℕ} {d : Cluster Text Cmd} → b + k < 2 ^ 64
      → Within members b c
      → Counted members c cast
      → Reach members e c k d
      → (cast' : Cast) × Counted members d cast' × Within members (b + k) d × Keeps cast cast'
  Reach-Counted members e b c cast small fits within counted here =
      (cast, counted, λ n h. omega (arith, within n h), λ v t who e. e)
  Reach-Counted members e b c cast small fits within counted (next course move) =
      let (cast', counted', within', kept) =
        Reach-Counted members e b c cast small (omega (arith, fits)) within counted course in
      let (last, after_it, low, keeps) =
        Move-Counted members e _ _ _ cast' (omega (arith, small)) (omega (arith, fits)) within'
          counted' move in
      (last, after_it, λ n h. omega (arith, low n h), λ v t who e. keeps v t who (kept v t who e))

  -- No two nodes ever lead in one term. At first every node is a follower that knows its id and how
  -- many nodes there are, its clients are other nodes of the cluster, each once, and no call for a
  -- vote is on its way; terms and votes are any. If after any number of moves (`Move`: a node takes
  -- any event, a voter answers, a candidate counts, a ballot gets lost) one node leads, and then or
  -- after any more moves a node leads in the same term, it is the same node. The first terms,
  -- and those of the messages that are no calls for votes, are `b` at most, `b` plus the number of moves is
  -- less than 2 ^ 64, peers that connect are other nodes of the cluster, and no node is started again
  -- in between.
  pub election_safety :
      (members : List ℕ) (b k j : ℕ) (c d e : Cluster Text Cmd)
      → IsInitial members c
      → Within members b c
      → b + k + j < 2 ^ 64
      → Reach members b c k d
      → Reach members b d j e
      → (n m : ℕ) (w u : Inner Text Cmd) (l l' : Leader) → contains n members ≡ true
      → contains m members ≡ true
      → d.node n ≡ leader w l
      → e.node m ≡ leader u l'
      → w.storage.current_term ≡ u.storage.current_term
      → n ≡ m
  unfolding quorum
  election_safety members b k j c d e first within fits course more n m w u l l' is_n is_m leads
        leads' same =
      let (cast, counted, low, kept) =
        Reach-Counted members b b c (initial_cast c) (omega arith) (omega (arith, fits)) within
          (initial-Counted members c first) course in
      let (cast', counted', low', keeps) =
        Reach-Counted members b (b + k) d cast (omega arith) fits low counted more in
      let t = w.storage.current_term in
      let won = subst (Office members cast d.pending n) leads (counted.office n is_n) in
      let won' = subst (Office members cast' e.pending m) leads' (counted'.office m is_m) in
      let size : length members ≡ w.cluster_size =
        sym (subst (Own members n) leads (counted.own n is_n)).1 in
      let size' : u.cluster_size ≡ w.cluster_size =
        (subst (Own members m) leads' (counted'.own m is_m)).1 ∙ size in
      let still =
        count_le (λ v. is_for n (cast v t)) (λ v. is_for n (cast' v t)) members
          (λ v h. votes_for n (cast' v t) (keeps v t n (for_votes n (cast v t) h))) in
      one_winner w members (λ v. cast' v t) n m size (omega (arith, won, still))
        (rw (same, ← size') won')
