-- ===== src/Raft/Cluster/Rounds.antt =====
-- What a round of worker.rs does to a node's role: it keeps its office, loses it, or begins an
-- election.
use wraft.Base.{
  sym, subst, ℕ, ◌+◌, ◌≤◌, ◌<◌, ◌^◌, ◌≡◌, true, some, List, [], ◌∷◌, arith, ok, >>=-ok, count, ◌==◌,
  All, insert, append-nil,
}
use wraft.Raft.Storage.{Codec, increment_term}
use wraft.Raft.Worker.{disconnect_client, Inner, Client, Effect, reset_timer, online}
use wraft.Raft.Worker.Candidate
use wraft.Raft.Worker.Machine.{Event, State, inner, follower, candidate, leader, start_election}
use wraft.Raft.Votes.Handlers.{start_lem}
use wraft.Raft.Cluster.{ballots}
use wraft.Raft.Cluster.Identity.{SameNode}
use wraft.Raft.Cluster.Calls.{ballots-append, is_ballot, Calls, request_votes_of-ballots}

-- The clients after an event.
abbrev pub clients_after : {Cmd : Type 0} → Event Cmd → List (ℕ × Client) → List (ℕ × Client)
clients_after (Event.new_peer p) m = insert p (record { node_id = p; connected = true }) m
clients_after (Event.disconnected p) m = disconnect_client p m
clients_after _ m = m

abbrev pub NodeAfter : {Text Cmd : Type 0} → Inner Text Cmd → Event Cmd → Inner Text Cmd → Type 0
NodeAfter w ev w' =
    (w'.node_id ≡ w.node_id)
    × (w'.cluster_size ≡ w.cluster_size)
    × (w'.peer_clients ≡ clients_after ev w.peer_clients)

-- No new office: who is a candidate or a leader after the round was it before, in the same term
-- and with the same votes.
abbrev pub Stays : {Text Cmd : Type 0} → State Text Cmd → State Text Cmd → Type 0
Stays st (follower w') = Unit {0}
Stays (candidate w v) (candidate w' v') =
    (v' ≡ v) × (w'.storage.current_term ≡ w.storage.current_term)
Stays (leader w l) (leader w' l') = w'.storage.current_term ≡ w.storage.current_term
Stays st st' = ⊥

abbrev pub Quiet :
    {Text Cmd : Type 0} → State Text Cmd → State Text Cmd → List (Effect Cmd) → Type 0
Quiet st st' out = (ballots out ≡ []) × Stays st st'

-- A new election: the next term, the own vote, and a ballot for each peer that is asked.
abbrev pub Begins :
    {Text Cmd : Type 0}
    → (ℕ → Type 0)
    → Inner Text Cmd
    → State Text Cmd
    → List (Effect Cmd)
    → Type 0
Begins {Text = Text} {Cmd = Cmd} Q w st' out =
    (w' : Inner Text Cmd) × (st' ≡ candidate w' 1)
    × (w'.storage.current_term ≡ w.storage.current_term + 1)
    × (w'.storage.voted_for ≡ some w.node_id)
    × All (Calls Q w.node_id (w.storage.current_term + 1)) (ballots out)
    × ((v n t : ℕ)
        → count (is_ballot v n t) (ballots out) ≤ count (λ p. p == v) (online w.peer_clients))

module _ {Text Cmd : Type 0} ⦃codec : Codec Text Cmd⦄ where
  start-ballots :
      (Q : ℕ → Type 0) (w w' : Inner Text Cmd) (out : List (Effect Cmd))
      → All Q (online w.peer_clients)
      → Candidate.start w ≡ ok (w', out)
      → SameNode w w'
        × All (Calls Q w'.node_id w'.storage.current_term) (ballots out)
        × ((v n t : ℕ)
            → count (is_ballot v n t) (ballots out) ≤ count (λ p. p == v) (online w.peer_clients))
  unfolding Candidate.start Candidate.vote_for_self Candidate.request_votes
  start-ballots Q w w' out all h =
      let u : Inner Text Cmd =
        Candidate.vote_for_self (record w { storage = increment_term w.storage }) in
      let (calls, asked, rest) = >>=-ok (Candidate.request_votes u) _ h in
      let (named, few) = request_votes_of-ballots Q u (online w.peer_clients) calls all asked in
      (ground arith, ground (arith, named), λ v n t. ground (arith, few v n t))

  pub start_election-Begins :
      (Q : ℕ → Type 0) (w : Inner Text Cmd) (st : State Text Cmd) (out : List (Effect Cmd))
      → w.storage.current_term + 1 < 2 ^ 64
      → All Q (online w.peer_clients)
      → start_election w ≡ ok (st, out)
      → SameNode w (inner st) × Begins Q w st out
  unfolding start_election
  start_election-Begins Q w st out fits all h =
      let (r, began, rest) = >>=-ok (Candidate.start w) _ h in
      let (term, vote) = start_lem w r.0 r.1 fits began in
      let (same, named, few) = start-ballots Q w r.0 r.1 all began in
      let calls : ballots out ≡ ballots r.1 =
        ground (arith, ballots-append r.1 (reset_timer ∷ []), append-nil (ballots r.1)) in
      let done : st ≡ candidate r.0 1 = ground arith in
      (
        rw done same,
        (
          r.0,
          done,
          term,
          vote,
          subst (λ bs. All (Calls Q w.node_id (w.storage.current_term + 1)) bs) (sym calls)
              (rw (← same.0, ← term) named),
          λ v n t. rw calls (few v n t),
        ),
      )
