-- ===== src/Raft/Cluster/Roles.antt =====
-- A round of a node as a whole: `step` of worker.rs, seen at the role, the id and the ballots.
use wraft.Base.{
  none, ℕ, ◌+◌, ◌<◌, ◌^◌, ◌≡◌, refl, ◌⊎◌, inl, inr, List, [], ◌∷◌, ◌++◌, arith, ok, >>=-ok, All,
}
use wraft.Raft.Storage.{Codec}
use wraft.Raft.Worker.{
  Inner, Effect, reset_timer, StateChange, continue, become_follower, handle_new_peer,
  set_disconnected, online,
}
use wraft.Raft.Worker.Follower
use wraft.Raft.Worker.Candidate
use wraft.Raft.Worker.Leader
use wraft.Raft.Worker.Leader.{Leader}
use wraft.Raft.Worker.Leader.Handlers
use wraft.Raft.Worker.Machine.{
  Event, State, inner, follower, candidate, leader, follower_branch, candidate_after,
  candidate_branch, leader_after, leader_branch,
}
use wraft.Raft.Votes.Steps.{client_request-vote}
use wraft.Raft.Cluster.{ballots}
use wraft.Raft.Cluster.Identity.{
  follower-rpc-SameNode, candidate-rpc-SameNode, leader-rpc-SameNode, client_request-SameNode,
  response-SameNode,
}
use wraft.Raft.Cluster.Calls.{ballots-append, drop_senders-ballots}
use wraft.Raft.Cluster.Quiet.{
  follower-client-ballots, candidate-client-ballots, follower-rpc-ballots, candidate-rpc-quiet,
  leader-rpc-quiet, client_request-ballots, heartbeat-ballots, response-quiet,
}
use wraft.Raft.Cluster.Rounds.{NodeAfter, Stays, Quiet, Begins, start_election-Begins}

-- A round in which no vote is counted.
abbrev pub Round :
    {Text Cmd : Type 0}
    → (ℕ → Type 0)
    → State Text Cmd
    → Event Cmd
    → State Text Cmd
    → List (Effect Cmd)
    → Type 0
Round Q st ev st' out =
    NodeAfter (inner st) ev (inner st') × (Quiet st st' out ⊎ Begins Q (inner st) st' out)

abbrev pub IsNoVote : {Cmd : Type 0} → Event Cmd → Type 0
IsNoVote Event.vote = ⊥
IsNoVote _ = Unit {0}

module _ {Text Cmd : Type 0} where
  -- A round that calls no vote and gives no new office.
  quietly :
      (Q : ℕ → Type 0) (st : State Text Cmd) (ev : Event Cmd) (st' u : State Text Cmd)
      (out : List (Effect Cmd))
      → st' ≡ u
      → NodeAfter (inner st) ev (inner u)
      → ballots out ≡ []
      → Stays st u
      → Round Q st ev st' out
  quietly Q st ev st' u out same after none_called stays =
      (rw same after, inl (none_called, rw same stays))

module _ {Text Cmd : Type 0} ⦃codec : Codec Text Cmd⦄ where
  candidate_after-cases :
      (change : StateChange) (w : Inner Text Cmd) (votes : ℕ) (out : List (Effect Cmd))
      (st : State Text Cmd) (out' : List (Effect Cmd))
      → candidate_after change w votes out ≡ ok (st, out')
      → ballots out ≡ []
      → (ballots out' ≡ []) × ((st ≡ follower w) ⊎ ((change ≡ continue) × (st ≡ candidate w votes)))
  unfolding candidate_after
  candidate_after-cases become_follower w votes out st out' h quiet =
      ground (arith, ballots-append out (reset_timer ∷ []))
  candidate_after-cases continue w votes out st out' h quiet = ground arith

  leader_after-cases :
      (change : StateChange) (w : Inner Text Cmd) (l : Leader) (out : List (Effect Cmd))
      (st : State Text Cmd) (out' : List (Effect Cmd))
      → leader_after change w l out ≡ ok (st, out')
      → ballots out ≡ []
      → (ballots out' ≡ []) × ((st ≡ follower w) ⊎ ((change ≡ continue) × (st ≡ leader w l)))
  unfolding leader_after
  leader_after-cases become_follower w l out st out' h quiet =
      let dropped : List (Effect Cmd) = Leader.drop_senders l.in_flight_client_requests in
      ground (
        arith,
        ballots-append (out ++ dropped) (reset_timer ∷ []),
        ballots-append out dropped,
        drop_senders-ballots Cmd l.in_flight_client_requests,
      )
  leader_after-cases continue w l out st out' h quiet = ground arith

  pub follower-Round :
      (Q : ℕ → Type 0) (w : Inner Text Cmd) (ev : Event Cmd) (st : State Text Cmd)
      (out : List (Effect Cmd))
      → w.storage.current_term + 1 < 2 ^ 64
      → All Q (online w.peer_clients)
      → follower_branch w ev ≡ ok (st, out)
      → Round Q (follower w) ev st out
  unfolding follower_branch handle_new_peer set_disconnected Candidate.from_follower
  follower-Round Q w (Event.rpc req tx) st out fits all h =
      let (r, handled, rest) = >>=-ok (Follower.handle_rpc w req tx) _ h in
      quietly Q (follower w) (Event.rpc req tx) st (follower r.0) out (ground arith)
        (follower-rpc-SameNode w r.0 r.1 req tx handled)
        (ground (arith, follower-rpc-ballots w r.0 r.1 req tx handled)) tt
  follower-Round Q w (Event.client req tx) st out fits all h =
      quietly Q (follower w) (Event.client req tx) st (follower w) out (ground arith)
        (refl, refl, refl) (ground (arith, follower-client-ballots w req tx)) tt
  follower-Round Q w (Event.new_peer p) st out fits all h =
      quietly Q (follower w) (Event.new_peer p) st (follower (handle_new_peer w p).0) out
        (ground arith) (refl, refl, refl) (ground arith) tt
  follower-Round Q w (Event.disconnected p) st out fits all h =
      quietly Q (follower w) (Event.disconnected p) st (follower (set_disconnected w p)) out
        (ground arith) (refl, refl, refl) (ground arith) tt
  follower-Round Q w Event.timeout st out fits all h =
      let (same, begins) =
        start_election-Begins Q (record w { leader_id = none }) st out fits all h in
      (same, inr begins)
  follower-Round Q w Event.vote st out fits all h =
      quietly Q (follower w) Event.vote st (follower w) out (ground arith) (refl, refl, refl)
        (ground arith) tt
  follower-Round Q w (Event.append_response peer first last res) st out fits all h =
      quietly Q (follower w) (Event.append_response peer first last res) st (follower w) out
        (ground arith) (refl, refl, refl) (ground arith) tt

  pub candidate-Round :
      (Q : ℕ → Type 0) (w : Inner Text Cmd) (votes : ℕ) (ev : Event Cmd) (st : State Text Cmd)
      (out : List (Effect Cmd))
      → w.storage.current_term + 1 < 2 ^ 64
      → All Q (online w.peer_clients)
      → IsNoVote ev
      → candidate_branch w votes ev ≡ ok (st, out)
      → Round Q (candidate w votes) ev st out
  unfolding candidate_branch handle_new_peer set_disconnected
  candidate-Round Q w votes (Event.rpc req tx) st out fits all uncounted h =
      let (r, handled, rest) = >>=-ok (Candidate.handle_rpc w req tx) _ h in
      let (quiet, change) = candidate-rpc-quiet w r.1 r.0 r.2 req tx handled in
      let same = candidate-rpc-SameNode w r.1 r.0 r.2 req tx handled in
      let (sent, role) = candidate_after-cases r.0 r.1 votes r.2 st out rest quiet in
      elim role [
        | inl lost ↦
            quietly Q (candidate w votes) (Event.rpc req tx) st (follower r.1) out lost same sent tt
        | inr (goes_on, kept) ↦
            quietly Q (candidate w votes) (Event.rpc req tx) st (candidate r.1 votes) out kept same
              sent (refl, ground arith)
      ]
  candidate-Round Q w votes (Event.client req tx) st out fits all uncounted h =
      quietly Q (candidate w votes) (Event.client req tx) st (candidate w votes) out (ground arith)
        (refl, refl, refl) (ground (arith, candidate-client-ballots w req tx)) (refl, refl)
  candidate-Round Q w votes (Event.new_peer p) st out fits all uncounted h =
      quietly Q (candidate w votes) (Event.new_peer p) st (candidate (handle_new_peer w p).0 votes)
        out (ground arith) (refl, refl, refl) (ground arith) (refl, refl)
  candidate-Round Q w votes (Event.disconnected p) st out fits all uncounted h =
      quietly Q (candidate w votes) (Event.disconnected p) st
        (candidate (set_disconnected w p) votes) out (ground arith) (refl, refl, refl)
        (ground arith) (refl, refl)
  candidate-Round Q w votes Event.timeout st out fits all uncounted h =
      let (same, begins) = start_election-Begins Q w st out fits all h in (same, inr begins)
  candidate-Round Q w votes Event.vote st out fits all uncounted h = elim uncounted [ ]
  candidate-Round Q w votes (Event.append_response peer first last res) st out fits all uncounted
        h =
      quietly Q (candidate w votes) (Event.append_response peer first last res) st
        (candidate w votes) out (ground arith) (refl, refl, refl) (ground arith) (refl, refl)

  pub leader-Round :
      (Q : ℕ → Type 0) (w : Inner Text Cmd) (l : Leader) (ev : Event Cmd) (st : State Text Cmd)
      (out : List (Effect Cmd))
      → IsNoVote ev
      → leader_branch w l ev ≡ ok (st, out)
      → Round Q (leader w l) ev st out
  unfolding leader_branch handle_new_peer set_disconnected
  leader-Round Q w l (Event.rpc req tx) st out uncounted h =
      let (r, handled, rest) = >>=-ok (Handlers.handle_rpc w l req tx) _ h in
      let (quiet, change) = leader-rpc-quiet w r.1 l r.2 r.0 r.3 req tx handled in
      let same = leader-rpc-SameNode w r.1 l r.2 r.0 r.3 req tx handled in
      let (sent, role) = leader_after-cases r.0 r.1 r.2 r.3 st out rest quiet in
      elim role [
        | inl lost ↦
            quietly Q (leader w l) (Event.rpc req tx) st (follower r.1) out lost same sent tt
        | inr (goes_on, kept) ↦
            quietly Q (leader w l) (Event.rpc req tx) st (leader r.1 r.2) out kept same sent
              (ground arith)
      ]
  leader-Round Q w l (Event.client req tx) st out uncounted h =
      let (r, handled, rest) = >>=-ok (Handlers.handle_client_request w l req tx) _ h in
      quietly Q (leader w l) (Event.client req tx) st (leader r.0 r.1) out (ground arith)
        (client_request-SameNode w r.0 l r.1 r.2 req tx handled)
        (ground (arith, client_request-ballots w r.0 l r.1 r.2 req tx handled))
        (client_request-vote w r.0 l r.1 r.2 req tx handled).0
  leader-Round Q w l (Event.new_peer p) st out uncounted h =
      quietly Q (leader w l) (Event.new_peer p) st (leader (handle_new_peer w p).0 l) out
        (ground arith) (refl, refl, refl) (ground arith) refl
  leader-Round Q w l (Event.disconnected p) st out uncounted h =
      quietly Q (leader w l) (Event.disconnected p) st (leader (set_disconnected w p) l) out
        (ground arith) (refl, refl, refl) (ground arith) refl
  leader-Round Q w l Event.timeout st out uncounted h =
      let (r, sent, rest) = >>=-ok (Leader.heartbeat w l) _ h in
      quietly Q (leader w l) Event.timeout st (leader w r.0) out (ground arith) (refl, refl, refl)
        (ground (arith, heartbeat-ballots w l r.0 r.1 sent)) refl
  leader-Round Q w l Event.vote st out uncounted h = elim uncounted [ ]
  leader-Round Q w l (Event.append_response peer first last res) st out uncounted h =
      let (r, handled, rest) =
        >>=-ok (Handlers.handle_append_entries_response w l peer first last res) _ h in
      let ev = Event.append_response peer first last res in
      let (quiet, change) = response-quiet w r.1 l r.2 peer first last res r.0 r.3 handled in
      let same = response-SameNode w r.1 l r.2 peer first last res r.0 r.3 handled in
      let (sent, role) = leader_after-cases r.0 r.1 r.2 r.3 st out rest quiet in
      elim role [
        | inl lost ↦ quietly Q (leader w l) ev st (follower r.1) out lost same sent tt
        | inr (goes_on, kept) ↦
            quietly Q (leader w l) ev st (leader r.1 r.2) out kept same sent (ground arith)
      ]
