-- ===== src/Raft/Cluster/Moves.antt =====
-- The invariant of a cluster through every move.
use wraft.Base.{
  some, ℕ, ◌+◌, ◌≤◌, ◌<◌, ◌^◌, ◌≡◌, refl, true, false, List, ◌∷◌, ◌++◌, arith, subst, count, All,
  All_implies, contains, ok,
}
use wraft.Raft.Types.{RpcRequest}
use wraft.Raft.Storage.{Codec}
use wraft.Raft.Worker.{Effect}
use wraft.Raft.Worker.Machine.{Event, State, follower, candidate, leader, step}
use wraft.Raft.Votes.{VoteKept-refl}
use wraft.Raft.Votes.Steps.{event_term}
use wraft.Raft.Votes.Runs.{step-Follows}
use wraft.Raft.Votes.Grants.{granted, step-granted}
use wraft.Raft.Cluster.{
  Ballot, Cluster, ballots, answered, put, Allowed, RunsIn, Move, acts, answers, counts, loses,
}
use wraft.Raft.Cluster.Calls.{is_ballot}
use wraft.Raft.Cluster.Roles.{IsNoVote}
use wraft.Raft.Cluster.Step.{step-counts}
use wraft.Raft.Cluster.Invariant.{
  cast_after-keeps, term_of, Cast, Filed, Counted, cast_after, by_node, Office-keeps,
}
use wraft.Raft.Cluster.Update.{Filed-keeps}
use wraft.Raft.Cluster.Acts.{acted}
use wraft.Raft.Cluster.Ballots.{
  count-answered, count-put, All-put, answered-Filed, count-middle, All-middle,
}
use wraft.Raft.Cluster.Safety.{counted_one}

-- Every node's term is at most `b`.
abbrev pub Within : {Text Cmd : Type 0} → List ℕ → ℕ → Cluster Text Cmd → Type 0
Within members b c = (n : ℕ) → contains n members ≡ true → term_of (c.node n) ≤ b

-- Votes that were cast stay in the record.
abbrev pub Keeps : Cast → Cast → Type 0
Keeps cast cast' = (v t who : ℕ) → cast v t ≡ some who → cast' v t ≡ some who

pub Allowed-IsNoVote :
    {Cmd : Type 0} (members : List ℕ) (n : ℕ) (ev : Event Cmd) → Allowed members n ev → IsNoVote ev
Allowed-IsNoVote members n Event.vote h = h
Allowed-IsNoVote members n (Event.new_peer p) h = tt
Allowed-IsNoVote members n (Event.rpc req tx) h = tt
Allowed-IsNoVote members n (Event.client req tx) h = tt
Allowed-IsNoVote members n (Event.disconnected p) h = tt
Allowed-IsNoVote members n Event.timeout h = tt
Allowed-IsNoVote members n (Event.append_response p f l res) h = tt

module _ {Text Cmd : Type 0} where
  Within-put :
      (members : List ℕ) (b n : ℕ) (c : Cluster Text Cmd) (st : State Text Cmd)
      (pending : List Ballot)
      → Within members b c
      → term_of st ≤ b + 1
      → Within members (b + 1) (record { node = put c.node n st; pending = pending })
  Within-put members b n c st pending within low =
      by_node (λ m s. contains m members ≡ true → term_of s ≤ b + 1) c.node n st (λ h. low)
        (λ m miss h. omega (arith, within m h))

  -- A ballot gets lost.
  lost :
      (members : List ℕ) (c : Cluster Text Cmd) (cast : Cast) (before after : List Ballot)
      (v : Ballot)
      → Counted members c cast
      → c.pending ≡ before ++ v ∷ after
      → Counted members (record c { pending = before ++ after }) cast
  lost members c cast before after v k listed =
      let fewer : (x m s : ℕ)
          → count (is_ballot x m s) (before ++ after) ≤ count (is_ballot x m s) c.pending =
        λ x m s. rw listed (omega (arith, count-middle (is_ballot x m s) before after v)) in
      record {
        now = k.now;
        later = k.later;
        own = k.own;
        filed = (All-middle _ before after v (subst (All _) listed k.filed)).1;
        once = λ x m s. omega (arith, fewer x m s, k.once x m s);
        office = λ n h.
            Office-keeps members cast cast c.pending (before ++ after) n (c.node n) (λ x t who e. e)
              (λ x t. fewer x n t) (k.office n h);
      }

module _ {Text Cmd : Type 0} ⦃codec : Codec Text Cmd⦄ where
  -- A voter answers: a vote it gives is in the record.
  voted :
      (members : List ℕ) (c : Cluster Text Cmd) (cast : Cast) (b : ℕ) (before after : List Ballot)
      (v : Ballot) (tx : ℕ) (st : State Text Cmd) (out : List (Effect Cmd))
      → Counted members c cast
      → b + 1 < 2 ^ 64
      → Within members b c
      → c.pending ≡ before ++ v ∷ after
      → v.granted ≡ false
      → step (c.node v.voter) (Event.rpc (RpcRequest.request_vote v.req) tx) ≡ ok (st, out)
      → Counted members
          (record {
            node = put c.node v.voter st;
            pending = ballots out ++ (before ++ answered v (granted out) ++ after);
          })
          (cast_after cast v.voter st)
        × (term_of st ≤ b + 1)
        × Keeps cast (cast_after cast v.voter st)
  voted members c cast b before after v tx st out k fits within listed asked ran =
      let (filed, others) = All-middle _ before after v (subst (All _) listed k.filed) in
      let member = filed.1.0 in
      let low = within v.voter member in
      let reached : v.req.term ≤ b = omega (arith, filed.2, within v.req.candidate filed.0) in
      let (kept, bound) = step-Follows b (c.node v.voter) st _ out fits low reached ran in
      let still = Filed-keeps members c cast v.voter st k member kept in
      let terms : ℕ → ℕ = λ m. term_of (put c.node v.voter st m) in
      let now = cast_after cast v.voter st in
      let left = All_implies _ (Filed members now terms) (before ++ after) still others in
      let given = answered-Filed members now terms v (granted out) (still v filed) (λ g.
        let (vote, term) = step-granted (c.node v.voter) st v.req tx out ran g in
        ground (arith, vote, term)) in
      (
        acted members c cast b v.voter _ st out (before ++ answered v (granted out) ++ after) k
            member fits low reached tt tt ran
            (All-put _ before (answered v (granted out)) after left given)
            (λ x m t. rw listed (
              omega (
                arith,
                count-put (is_ballot x m t) before (answered v (granted out)) after,
                count-middle (is_ballot x m t) before after v,
                count-answered x m t v (granted out),
              ))),
        bound,
        cast_after-keeps members c cast v.voter st k member kept,
      )

  -- A candidate counts.
  counting :
      (members : List ℕ) (c : Cluster Text Cmd) (cast : Cast) (b : ℕ) (before after : List Ballot)
      (v : Ballot) (st at : State Text Cmd) (out : List (Effect Cmd))
      → Counted members c cast
      → Within members b c
      → c.pending ≡ before ++ v ∷ after
      → v.granted ≡ true
      → c.node v.req.candidate ≡ at
      → RunsIn v.req.term at
      → step at Event.vote ≡ ok (st, out)
      → Counted members
          (record {
            node = put c.node v.req.candidate st;
            pending = ballots out ++ (before ++ after);
          })
          (cast_after cast v.req.candidate st)
        × (term_of st ≤ b + 1)
        × Keeps cast (cast_after cast v.req.candidate st)
  counting members c cast b before after v st (candidate w votes) out k within listed was who runs
        ran =
      let (filed, others) = All-middle _ before after v (subst (All _) listed k.filed) in
      let (same, none_called, stored, role) = step-counts w votes st out ran in
      let low : w.storage.current_term ≤ b =
        subst (λ s. term_of s ≤ b) who (within v.req.candidate filed.0) in
      (
        counted_one members c cast v before after w votes st out k listed was who runs ran,
        ground (arith, stored, low),
        cast_after-keeps members c cast v.req.candidate st k filed.0
            (rw (who, stored) (VoteKept-refl w.storage)),
      )
  counting members c cast b before after v st (follower w) out k within listed was who runs ran =
      absurd runs
  counting members c cast b before after v st (leader w l) out k within listed was who runs ran =
      absurd runs

  pub Move-Counted :
      (members : List ℕ) (e b : ℕ) (c c' : Cluster Text Cmd) (cast : Cast)
      → e ≤ b
      → b + 1 < 2 ^ 64
      → Within members b c
      → Counted members c cast
      → Move members e c c'
      → (cast' : Cast) × Counted members c' cast' × Within members (b + 1) c' × Keeps cast cast'
  Move-Counted members e b c c' cast small fits within k (loses before after v listed is) = (
    cast,
    rw is (lost members c cast before after v k listed),
    rw is (λ n h. omega (arith, within n h)),
    λ v t who e. e,
  )
  Move-Counted members e b c c' cast small fits within k
        (counts before after v st out listed was runs ran is) =
      let n = v.req.candidate in
      let (after_it, low, keeps) =
        counting members c cast b before after v st (c.node n) out k within listed was refl runs
          ran in
      (
        cast_after cast n st,
        rw is after_it,
        rw is (Within-put members b n c st (ballots out ++ (before ++ after)) within low),
        keeps,
      )
  Move-Counted members e b c c' cast small fits within k
        (answers before after v tx st out listed asked ran is) =
      let (after_it, low, keeps) =
        voted members c cast b before after v tx st out k fits within listed asked ran in
      (
        cast_after cast v.voter st,
        rw is after_it,
        rw is (
            Within-put members b v.voter c st
              (ballots out ++ (before ++ answered v (granted out) ++ after)) within low),
        keeps,
      )
  Move-Counted members e b c c' cast small fits within k
        (acts n ev st out member low allowed ran is) =
      let below : event_term ev ≤ b = omega (arith, low, small) in
      let (kept, bound) = step-Follows b (c.node n) st ev out fits (within n member) below ran in
      (
        cast_after cast n st,
        rw is (
            acted members c cast b n ev st out c.pending k member fits (within n member) below
              (Allowed-IsNoVote members n ev allowed) allowed ran
              (All_implies _ _ c.pending (Filed-keeps members c cast n st k member kept) k.filed)
              (λ v m t. omega arith)),
        rw is (Within-put members b n c st (ballots out ++ c.pending) within bound),
        cast_after-keeps members c cast n st k member kept,
      )
