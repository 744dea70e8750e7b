-- ===== src/Raft/Cluster/Acts.antt =====
-- The invariant through a round in which no vote is counted.
use wraft.Base.{
  ℕ, ◌+◌, ◌≤◌, ◌<◌, ◌^◌, ◌≡◌, refl, sym, ◌∙◌, inl, inr, true, false, ◌&&◌, ◌||◌, List, ◌++◌, arith,
  subst, ◌==◌, Bool-cases, count, count-append, count_more, All, All_implies, All-append, contains,
  ok,
}
use wraft.Raft.Storage.{Codec}
use wraft.Raft.Worker.{Effect, quorum}
use wraft.Raft.Worker.Machine.{Event, State, inner, follower, candidate, leader, step}
use wraft.Raft.Votes.{VoteKept}
use wraft.Raft.Votes.Steps.{event_term}
use wraft.Raft.Votes.Runs.{step-Follows}
use wraft.Raft.Cluster.{Ballot, Cluster, ballots, put, Allowed}
use wraft.Raft.Cluster.Calls.{is_ballot, Calls}
use wraft.Raft.Cluster.Rounds.{NodeAfter, Stays, Begins}
use wraft.Raft.Cluster.Roles.{IsNoVote}
use wraft.Raft.Cluster.Step.{step-Round}
use wraft.Raft.Cluster.Invariant.{
  term_of, Cast, Other, Filed, Own, Office, Counted, cast_after, cast_after-keeps, Office-keeps,
}
use wraft.Raft.Cluster.Lists.{
  All-online, count-online, All-insert, count-insert, All-disconnect, count-disconnect, none_above,
  Calls-only, Calls-others,
}
use wraft.Raft.Cluster.Update.{updated}

module _ {Text Cmd : Type 0} where
  Own-after :
      (members : List ℕ) (n : ℕ) (st st' : State Text Cmd) (ev : Event Cmd)
      → Own members n st
      → Allowed members n ev
      → NodeAfter (inner st) ev (inner st')
      → Own members n st'
  Own-after members n st st' (Event.new_peer p) (id, size, others, single) allowed (i, s, c) = (
    i ∙ id,
    s ∙ size,
    rw c (All-insert (Other members n) p _ (inner st).peer_clients allowed others),
    λ v. rw c (count-insert v p _ (inner st).peer_clients (single v)).0,
  )
  Own-after members n st st' (Event.disconnected p) (id, size, others, single) allowed (i, s, c) = (
    i ∙ id,
    s ∙ size,
    rw c (All-disconnect (Other members n) p (inner st).peer_clients others),
    λ v. rw c (count-disconnect v p (inner st).peer_clients (single v)),
  )
  Own-after members n st st' (Event.rpc req tx) (id, size, others, single) allowed (i, s, c) =
      (i ∙ id, s ∙ size, rw c others, λ v. rw c (single v))
  Own-after members n st st' (Event.client req tx) (id, size, others, single) allowed (i, s, c) =
      (i ∙ id, s ∙ size, rw c others, λ v. rw c (single v))
  Own-after members n st st' Event.timeout (id, size, others, single) allowed (i, s, c) =
      (i ∙ id, s ∙ size, rw c others, λ v. rw c (single v))
  Own-after members n st st' Event.vote (id, size, others, single) allowed (i, s, c) =
      absurd allowed
  Own-after members n st st' (Event.append_response p f l res) (id, size, others, single) allowed
        (i, s, c) =
      (i ∙ id, s ∙ size, rw c others, λ v. rw c (single v))

  Office-Stays :
      (members : List ℕ) (cast : Cast) (pending : List Ballot) (n : ℕ) (st st' : State Text Cmd)
      → (inner st').cluster_size ≡ (inner st).cluster_size
      → Stays st st'
      → Office members cast pending n st
      → Office members cast pending n st'
  unfolding quorum
  Office-Stays members cast pending n st (follower w') size stays o = tt
  Office-Stays members cast pending n (follower w) (candidate w' v') size stays o = absurd stays
  Office-Stays members cast pending n (leader w l) (candidate w' v') size stays o = absurd stays
  Office-Stays members cast pending n (candidate w v) (candidate w' v') size (votes, term)
        (counted, enough, sound) =
      (counted, rw votes enough, λ u h. rw term (sound u h))
  Office-Stays members cast pending n (follower w) (leader w' l') size stays o = absurd stays
  Office-Stays members cast pending n (candidate w v) (leader w' l') size stays o = absurd stays
  Office-Stays members cast pending n (leader w l) (leader w' l') size term o = rw (size, term) o

module _ {Text Cmd : Type 0} where
  -- A new election: the first vote is the candidate's own, and its ballots are new.
  begun :
      (members : List ℕ) (c : Cluster Text Cmd) (cast : Cast) (n : ℕ) (st : State Text Cmd)
      (out : List (Effect Cmd)) (rest : List Ballot)
      → Counted members c cast
      → contains n members ≡ true
      → VoteKept (inner (c.node n)).storage (inner st).storage
      → Own members n st
      → Begins (Other members n) (inner (c.node n)) st out
      → All (Filed members (cast_after cast n st) (λ m. term_of (put c.node n st m))) rest
      → ((v m t : ℕ) → count (is_ballot v m t) rest ≤ count (is_ballot v m t) c.pending)
      → Counted members
          (record { node = put c.node n st; pending = ballots out ++ rest })
          (cast_after cast n st)
  begun members c cast n st out rest k member kept own' (w', is_st, term, vote, calls, few) filed
        fewer =
      let own = k.own n member in
      let t = term_of (c.node n) + 1 in
      let when : term_of st ≡ t = rw is_st term in
      let calls' : All (Calls (Other members n) n t) (ballots out) =
        subst (λ i. All (Calls (Other members n) i t) (ballots out)) own.0 calls in
      let fresh : (v m s : ℕ) → m ≡ n → s ≡ t → count (is_ballot v m s) rest ≡ 0 = λ v m s em es.
        omega (
          arith,
          fewer v m s,
          none_above members cast (λ m. term_of (c.node m)) c.pending v m s k.filed
              (rw (em, es) (omega arith)),
        ) in
      let split : (v m s : ℕ)
          → count (is_ballot v m s) (ballots out ++ rest)
            ≡ count (is_ballot v m s) (ballots out) + count (is_ballot v m s) rest =
        λ v m s. count-append (is_ballot v m s) (ballots out) rest in
      let single : (v m s : ℕ) → count (is_ballot v m s) (ballots out) ≤ 1 = λ v m s.
        omega (arith, few v m s, count-online v (inner (c.node n)).peer_clients, own.3 v) in
      updated members c cast n st (ballots out ++ rest) k member kept own'
        (All-append _ (ballots out) rest
          (All_implies (Calls (Other members n) n t) _ (ballots out)
            (λ b (granted, by, at, other). (
              rw by member,
              (other.0, λ e. other.1 (e ∙ by)),
              ground (arith, by, at, when),
              λ g. ground (arith, granted, g),
            ))
            calls')
          filed)
        (λ v m s. elim (Bool-cases (m == n && s == t)) [
          | inl new ↦
              omega (arith, split v m s, single v m s, fresh v m s (ground arith) (ground arith))
          | inr not_new ↦
              let none_called =
                Calls-only (Other members n) n t (ballots out) v m s calls' (ground arith) in
              omega (arith, split v m s, none_called, fewer v m s, k.once v m s)
        ])
        (λ v m s miss. omega (
          arith,
          split v m s,
          Calls-only (Other members n) n t (ballots out) v m s calls' (inl miss),
          fewer v m s,
        ))
        (subst (λ u. Office members (cast_after cast n u) (ballots out ++ rest) n u) (sym is_st)
          (
            (λ v. v == n || false),
            omega (arith, count_more (λ v. false) n members member refl),
            λ v hit.
                let same : v ≡ n = ground arith in
                (
                  ground (arith, same, vote, own.0),
                  ground (
                    arith,
                    same,
                    term,
                    split v n t,
                    Calls-others members n t (ballots out) t calls',
                    fresh v n t refl refl,
                  ),
                ),
          ))

module _ {Text Cmd : Type 0} ⦃codec : Codec Text Cmd⦄ where
  -- A node takes an event, and of the ballots on their way `rest` are left.
  pub acted :
      (members : List ℕ) (c : Cluster Text Cmd) (cast : Cast) (b n : ℕ) (ev : Event Cmd)
      (st : State Text Cmd) (out : List (Effect Cmd)) (rest : List Ballot)
      → Counted members c cast
      → contains n members ≡ true
      → b + 1 < 2 ^ 64
      → term_of (c.node n) ≤ b
      → event_term ev ≤ b
      → IsNoVote ev
      → Allowed members n ev
      → step (c.node n) ev ≡ ok (st, out)
      → All (Filed members (cast_after cast n st) (λ m. term_of (put c.node n st m))) rest
      → ((v m t : ℕ) → count (is_ballot v m t) rest ≤ count (is_ballot v m t) c.pending)
      → Counted members
          (record { node = put c.node n st; pending = ballots out ++ rest })
          (cast_after cast n st)
  acted members c cast b n ev st out rest k member fits below low uncounted allowed ran filed
        fewer =
      let own = k.own n member in
      let kept = (step-Follows b (c.node n) st ev out fits below low ran).0 in
      let (after, what) =
        step-Round (Other members n) (c.node n) st ev out (omega (arith, below, fits))
          (All-online (Other members n) (inner (c.node n)).peer_clients own.2) uncounted ran in
      let own' = Own-after members n (c.node n) st ev own allowed after in
      elim what [
        | inl (none_called, stays) ↦ rw none_called (
            updated members c cast n st rest k member kept own' filed
              (λ v m t. omega (arith, fewer v m t, k.once v m t)) (λ v m t miss. fewer v m t)
              (Office-Stays members (cast_after cast n st) rest n (c.node n) st after.1 stays (
                Office-keeps members cast (cast_after cast n st) c.pending rest n (c.node n)
                  (cast_after-keeps members c cast n st k member kept) (λ v t. fewer v n t)
                  (k.office n member))))
        | inr begins ↦ begun members c cast n st out rest k member kept own' begins filed fewer
      ]
