-- ===== src/Raft/Cluster/Invariant.antt =====
-- What holds of a cluster between moves, with a record of the votes cast in every term.
use wraft.Base.{
  count_le, ℕ, ◌≤◌, ◌<◌, ◌≡◌, ◌≢◌, sym, inl, inr, Bool, true, ◌&&◌, Option, none, some, List, arith,
  subst, if◌then◌else◌, ◌==◌, Bool-cases, length, count, All, contains,
}
use wraft.Raft.Storage.{Storage}
use wraft.Raft.Worker.{quorum}
use wraft.Raft.Worker.Machine.{State, inner, follower, candidate, leader}
use wraft.Raft.Votes.{VoteKept}
use wraft.Raft.Leading.Election.{is_for}
use wraft.Raft.Cluster.{Ballot, Cluster, put}
use wraft.Raft.Cluster.Calls.{is_ballot}

abbrev pub term_of : {Text Cmd : Type 0} → State Text Cmd → ℕ
term_of st = (inner st).storage.current_term

abbrev pub vote_of : {Text Cmd : Type 0} → State Text Cmd → Option ℕ
vote_of st = (inner st).storage.voted_for

-- Whom a node has voted for in a term.
abbrev pub Cast : Type 0
Cast = ℕ → ℕ → Option ℕ

-- Another node of the cluster.
abbrev pub Other : List ℕ → ℕ → ℕ → Type 0
Other members n p = (contains p members ≡ true) × (p ≢ n)

-- A ballot is of a candidate that has come to its term, for another node; a granted one was cast.
abbrev pub Filed : List ℕ → Cast → (ℕ → ℕ) → Ballot → Type 0
Filed members cast terms b =
    (contains b.req.candidate members ≡ true)
    × Other members b.req.candidate b.voter
    × (b.req.term ≤ terms b.req.candidate)
    × ((b.granted ≡ true) → cast b.voter b.req.term ≡ some b.req.candidate)

-- A node is who it is, and its clients are other nodes, each once.
abbrev pub Own : {Text Cmd : Type 0} → List ℕ → ℕ → State Text Cmd → Type 0
Own members n st =
    ((inner st).node_id ≡ n)
    × ((inner st).cluster_size ≡ length members)
    × All (λ e. Other members n e.0) (inner st).peer_clients
    × ((v : ℕ) → count (λ e. e.0 == v) (inner st).peer_clients ≤ 1)

-- The votes that a candidate has counted were cast for it, by nodes whose ballots are no longer on
-- their way. A leader has the votes of a quorum.
abbrev pub Office : {Text Cmd : Type 0} → List ℕ → Cast → List Ballot → ℕ → State Text Cmd → Type 0
Office members cast pending n (follower w) = Unit {0}
Office members cast pending n (candidate w votes) =
    (counted : ℕ → Bool) × (votes ≤ count counted members)
    × ((v : ℕ)
        → counted v ≡ true
        → (cast v w.storage.current_term ≡ some n)
          × (count (is_ballot v n w.storage.current_term) pending ≡ 0))
Office members cast pending n (leader w l) =
    quorum w ≤ count (λ v. is_for n (cast v w.storage.current_term)) members

pub record Counted {Text Cmd : Type 0} (members : List ℕ) (c : Cluster Text Cmd) (cast : Cast)
    : Type 0 where
  pub now : (n : ℕ) → contains n members ≡ true → cast n (term_of (c.node n)) ≡ vote_of (c.node n)
  pub later : (n t : ℕ) → contains n members ≡ true → term_of (c.node n) < t → cast n t ≡ none
  pub own : (n : ℕ) → contains n members ≡ true → Own members n (c.node n)
  pub filed : All (Filed members cast (λ n. term_of (c.node n))) c.pending
  pub once : (v n t : ℕ) → count (is_ballot v n t) c.pending ≤ 1
  pub office : (n : ℕ) → contains n members ≡ true → Office members cast c.pending n (c.node n)

pub for_votes : (n : ℕ) (o : Option ℕ) → is_for n o ≡ true → o ≡ some n
for_votes n none h = cc
for_votes n (some v) h = ground arith

pub votes_for : (n : ℕ) (o : Option ℕ) → o ≡ some n → is_for n o ≡ true
votes_for n none h = cc
votes_for n (some v) h = ground arith

module _ {Text Cmd : Type 0} where
  -- The record when a node has come to a new state.
  abbrev pub cast_after : Cast → ℕ → State Text Cmd → Cast
  cast_after cast n st v t = if v == n && t == term_of st then vote_of st else cast v t

  pub VoteKept-le : (s t : Storage Text Cmd) → VoteKept s t → s.current_term ≤ t.current_term
  VoteKept-le s t (inl newer) = omega arith
  VoteKept-le s t (inr (same, vote)) = omega arith

  -- Votes that were cast stay in the record.
  pub cast_after-keeps :
      (members : List ℕ) (c : Cluster Text Cmd) (cast : Cast) (n : ℕ) (st : State Text Cmd)
      → Counted members c cast
      → contains n members ≡ true
      → VoteKept (inner (c.node n)).storage (inner st).storage
      → (v t who : ℕ) → cast v t ≡ some who
      → cast_after cast n st v t ≡ some who
  cast_after-keeps members c cast n st k member (inl newer) v t who h =
      ground (arith, k.later n (term_of st) member newer)
  cast_after-keeps members c cast n st k member (inr (same, inl free)) v t who h =
      ground (arith, k.now n member)
  cast_after-keeps members c cast n st k member (inr (same, inr kept)) v t who h =
      ground (arith, k.now n member)

  -- What holds of the changed node and of the others holds of all.
  pub by_node :
      (P : ℕ → State Text Cmd → Type 0) (f : ℕ → State Text Cmd) (n : ℕ) (st : State Text Cmd)
      → P n st
      → ((m : ℕ) → m ≢ n → P m (f m))
      → (m : ℕ) → P m (put f n st m)
  by_node P f n st new old m = elim (Bool-cases (m == n)) [
    | inl hit ↦
        let e : m ≡ n = ground arith in
        let same : put f n st m ≡ st = ground arith in subst (P m) (sym same) (rw e new)
    | inr miss ↦
        let same : put f n st m ≡ f m = ground arith in
        subst (P m) (sym same) (old m (ground arith))
  ]

  pub Office-keeps :
      (members : List ℕ) (cast cast' : Cast) (pending pending' : List Ballot) (n : ℕ)
      (st : State Text Cmd)
      → ((v t who : ℕ) → cast v t ≡ some who → cast' v t ≡ some who)
      → ((v t : ℕ) → count (is_ballot v n t) pending' ≤ count (is_ballot v n t) pending)
      → Office members cast pending n st
      → Office members cast' pending' n st
  Office-keeps members cast cast' pending pending' n (follower w) keeps fewer o = tt
  Office-keeps members cast cast' pending pending' n (candidate w votes) keeps fewer
        (counted, enough, sound) =
      (
        counted,
        enough,
        λ v h. (
          keeps v w.storage.current_term n (sound v h).0,
          omega (arith, fewer v w.storage.current_term, (sound v h).1),
        ),
      )
  Office-keeps members cast cast' pending pending' n (leader w l) keeps fewer o =
      let t = w.storage.current_term in
      let more =
        count_le (λ v. is_for n (cast v t)) (λ v. is_for n (cast' v t)) members
          (λ v h. votes_for n (cast' v t) (keeps v t n (for_votes n (cast v t) h))) in
      omega (arith, o, more)
