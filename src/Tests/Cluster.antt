-- ===== src/Tests/Cluster.antt =====
-- An election in a cluster of three nodes, of which node 1 knows node 2.
use wraft.Base.{
  sym, subst, ℕ, ◌≡◌, refl, true, false, none, List, [], ◌∷◌, ◌++◌, arith, if◌then◌else◌, ◌==◌,
  Bool-cases, contains, inl, inr, All,
}
use wraft.Raft.Types.{RpcRequest}
use wraft.Raft.Worker.{Inner, Effect, Client}
use wraft.Raft.Worker.Leader.{Leader}
use wraft.Raft.Worker.Machine.{Event, State, inner, follower, candidate, leader, step}
use wraft.Raft.Votes.Grants.{granted}
use wraft.Raft.Cluster.{
  Ballot, Cluster, ballots, answered, put, Reach, here, next, Move, acts, answers, counts,
}
use wraft.Raft.Cluster.Moves.{Within}
use wraft.Raft.Cluster.Invariant.{Other, Own}
use wraft.Raft.Cluster.Election.{IsInitial, election_safety}
use wraft.Tests.Data.{Text, text_codec, storage_of, node, leading, result_or}

abbrev members : List ℕ
members = 1 ∷ 2 ∷ 3 ∷ []

abbrev clients : ℕ → List (ℕ × Client)
clients n = if n == 1 then (2, record { node_id = 2; connected = true }) ∷ [] else []

abbrev member : ℕ → Inner Text ℕ
member n = record (node (storage_of [] 3 none) 0 0) { node_id = n; peer_clients = clients n }

abbrev resting : Cluster Text ℕ
resting = record { node = λ n. follower (member n); pending = [] }

abbrev after_step : Cluster Text ℕ → ℕ → Event ℕ → State Text ℕ × List (Effect ℕ)
after_step c n ev = result_or (c.node n, []) (step (c.node n) ev)

abbrev started : State Text ℕ × List (Effect ℕ)
started = after_step resting 1 Event.timeout

abbrev asking : Cluster Text ℕ
asking = record {
  node = put resting.node 1 started.0;
  pending = ballots started.1 ++ resting.pending;
}

abbrev ballot : Ballot
ballot = record {
  voter = 2;
  req = record { term = 4; candidate = 1; last_log_index = 0; last_log_term = 0 };
  granted = false;
}

abbrev vote_event : Event ℕ
vote_event = Event.rpc (RpcRequest.request_vote ballot.req) 9

abbrev asked : State Text ℕ × List (Effect ℕ)
asked = after_step asking 2 vote_event

abbrev replied : Cluster Text ℕ
replied = record {
  node = put asking.node 2 asked.0;
  pending = ballots asked.1 ++ ([] ++ answered ballot (granted asked.1) ++ []);
}

abbrev vote : Ballot
vote = record ballot { granted = true }

abbrev elected : State Text ℕ × List (Effect ℕ)
elected = after_step replied 1 Event.vote

abbrev decided : Cluster Text ℕ
decided = record { node = put replied.node 1 elected.0; pending = ballots elected.1 ++ ([] ++ []) }

resting-Own : (n : ℕ) → Own members n (follower (member n))
unfolding contains
resting-Own n = elim (Bool-cases (n == 1)) [
  | inl one ↦
      let is_one : n ≡ 1 = ground arith in
      let known : clients n ≡ (2, record { node_id = 2; connected = true }) ∷ [] = ground arith in
      (
        refl,
        refl,
        subst (All (λ e. Other members n e.0)) (sym known) ((refl, ground arith), tt),
        λ v. rw known (ground arith),
      )
  | inr other ↦
      let known : clients n ≡ [] = ground arith in
      (
        refl,
        refl,
        subst (All (λ e. Other members n e.0)) (sym known) tt,
        λ v. rw known (ground arith),
      )
]

resting-IsInitial : IsInitial members resting
resting-IsInitial = (refl, λ n h. (tt, resting-Own n))

resting-Within : Within members 3 resting
resting-Within = λ n h. omega arith

asks : Move members 3 resting asking
unfolding contains step wraft.Raft.Worker.apply_log wraft.Raft.Storage.sublog
    wraft.Raft.Worker.Machine.follower_branch wraft.Raft.Worker.Machine.start_election
    wraft.Raft.Worker.Candidate.start wraft.Raft.Worker.Candidate.request_votes
    wraft.Raft.Worker.Candidate.from_follower wraft.Raft.Worker.apply_entries
    wraft.Raft.Storage.last_log_term wraft.Raft.Storage.get_log wraft.Raft.Storage.set_voted_for
    wraft.Raft.Storage.increment_term wraft.Raft.Storage.set_current_term
asks = acts 1 Event.timeout started.0 started.1 refl (omega arith) tt refl refl

answering : Move members 3 asking replied
unfolding step wraft.Raft.Worker.apply_log wraft.Raft.Storage.sublog
    wraft.Raft.Worker.Machine.follower_branch wraft.Raft.Worker.Machine.start_election
    wraft.Raft.Worker.Candidate.start wraft.Raft.Worker.Candidate.request_votes
    wraft.Raft.Worker.Candidate.from_follower wraft.Raft.Worker.apply_entries
    wraft.Raft.Storage.last_log_term wraft.Raft.Storage.get_log wraft.Raft.Storage.set_voted_for
    wraft.Raft.Storage.increment_term wraft.Raft.Storage.set_current_term
    wraft.Raft.Worker.Follower.handle_rpc
answering = answers [] [] ballot 9 asked.0 asked.1 refl refl refl refl

counting : Move members 3 replied decided
unfolding step wraft.Raft.Storage.get_log wraft.Raft.Storage.increment_term
    wraft.Raft.Storage.last_log_term wraft.Raft.Storage.set_current_term
    wraft.Raft.Storage.set_voted_for wraft.Raft.Storage.sublog wraft.Raft.Storage.update_term
    wraft.Raft.Worker.Candidate.from_follower wraft.Raft.Worker.Candidate.request_votes
    wraft.Raft.Worker.Candidate.start wraft.Raft.Worker.Follower.handle_rpc
    wraft.Raft.Worker.Machine.candidate_branch wraft.Raft.Worker.Machine.follower_branch
    wraft.Raft.Worker.Machine.start_election wraft.Raft.Worker.apply_entries
    wraft.Raft.Worker.apply_log wraft.Raft.Worker.quorum wraft.Raft.Worker.handle_request_vote
counting = counts [] [] vote elected.0 elected.1 refl refl refl refl refl

course : Reach members 3 resting 3 decided
course = next (next (next here asks) answering) counting

abbrev leader_of : State Text ℕ → Leader
leader_of (leader w l) = l
leader_of _ = leading 0 0

abbrev winner : Leader
winner = leader_of (decided.node 1)

abbrev winner_id : ℕ
winner_id = 1

leads : decided.node 1 ≡ leader (inner (decided.node 1)) winner
unfolding step wraft.Raft.Worker.apply_log wraft.Raft.Storage.sublog
    wraft.Raft.Worker.Machine.follower_branch wraft.Raft.Worker.Machine.start_election
    wraft.Raft.Worker.Candidate.start wraft.Raft.Worker.Candidate.request_votes
    wraft.Raft.Worker.Candidate.from_follower wraft.Raft.Worker.apply_entries
    wraft.Raft.Storage.last_log_term wraft.Raft.Storage.get_log wraft.Raft.Storage.set_voted_for
    wraft.Raft.Storage.increment_term wraft.Raft.Storage.set_current_term
    wraft.Raft.Worker.Machine.candidate_branch wraft.Raft.Worker.quorum
leads = refl

election_safety_example : winner_id ≡ winner_id
unfolding contains
election_safety_example =
    election_safety members 3 3 0 resting decided decided resting-IsInitial resting-Within
      (omega arith) course here winner_id winner_id (inner (decided.node 1))
      (inner (decided.node 1)) winner winner refl refl leads leads refl
