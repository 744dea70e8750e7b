-- ===== src/Tests/Votes.antt =====
-- A node that votes, runs on, and votes again; a storage that is opened again; an election.
use wraft.Base.{ℕ, ◌≤◌, ◌≡◌, refl, Option, none, some, List, [], ◌∷◌, arith, ok, All}
use wraft.Raft.Types.{RequestVoteRequest, RpcRequest, ClientRequest}
use wraft.Raft.Storage.{Codec, Storage, new}
use wraft.Raft.Storage.Reload.{
  Op, updates_term, sets_vote, appends, overwrites, OpFits, run_ops, run_ops-reload,
}
use wraft.Raft.Worker.{Inner, Effect, local, quorum, reset_timer}
use wraft.Raft.Worker.Machine.{
  Event, State, inner, follower, candidate, leader, step, run, candidate_branch,
}
use wraft.Raft.Votes.{VoteKept}
use wraft.Raft.Votes.Runs.{run-VoteKept}
use wraft.Raft.Votes.Grants.{grants_agree}
use wraft.Tests.Data.{Text, text_codec, storage_of, log_entry, node, result_or}

abbrev ops : List (Op ℕ)
ops =
    appends (log_entry 5 1 1)
    ∷ updates_term 2
    ∷ sets_vote (some 3)
    ∷ overwrites (log_entry 6 2 1)
    ∷ []

abbrev opened : Storage Text ℕ
opened = storage_of [] 0 none

abbrev left : Storage Text ℕ
left = result_or opened (run_ops opened ops)

ops_fit : All OpFits ops
ops_fit =
    ((omega arith, omega arith), (omega arith, (omega arith, ((omega arith, omega arith), tt))))

opens : new opened.storage 7 ≡ ok opened
unfolding new
opens = refl

ops_run : run_ops opened ops ≡ ok left
unfolding run_ops wraft.Raft.Storage.Reload.run_op wraft.Raft.Storage.append_log
    wraft.Raft.Storage.increment_last_log_index wraft.Raft.Storage.overwrite_log
    wraft.Raft.Storage.set_voted_for wraft.Raft.Storage.update_term
    wraft.Raft.Storage.set_last_log_index wraft.Raft.Storage.set_current_term
ops_run = refl

run_ops-reload_example : new left.storage 7 ≡ ok left
run_ops-reload_example = run_ops-reload opened.storage 7 opened left ops ops_fit opens ops_run

abbrev second : ℕ
second = 2

abbrev asks : ℕ → RequestVoteRequest
asks c = record { term = 4; candidate = c; last_log_index = 0; last_log_term = 0 }

abbrev voter : State Text ℕ
voter = follower (node (storage_of [] 3 none) 0 0)

abbrev vote_event : ℕ → ℕ → Event ℕ
vote_event c tx = Event.rpc (RpcRequest.request_vote (asks c)) tx

abbrev asked : State Text ℕ → ℕ → ℕ → State Text ℕ × List (Effect ℕ)
asked st c tx = result_or (st, []) (step st (vote_event c tx))

abbrev voted : State Text ℕ
voted = (asked voter 2 9).0

abbrev between : List (Event ℕ)
between = vote_event 3 10 ∷ Event.client ClientRequest.debug (local 1) ∷ []

abbrev later : State Text ℕ
later = result_or voted (run voted between)

abbrev again : State Text ℕ
again = (asked later 2 11).0

first_vote : step voter (vote_event 2 9) ≡ ok (voted, (asked voter 2 9).1)
unfolding step wraft.Raft.Worker.apply_log wraft.Raft.Storage.sublog
    wraft.Raft.Worker.Machine.follower_branch wraft.Raft.Worker.Follower.handle_rpc
first_vote = refl

runs_on : run voted between ≡ ok later
unfolding run step wraft.Raft.Worker.apply_log wraft.Raft.Storage.sublog
    wraft.Raft.Worker.Machine.follower_branch wraft.Raft.Worker.Follower.handle_rpc
    wraft.Raft.Worker.handle_request_vote wraft.Raft.Storage.update_term
    wraft.Raft.Worker.apply_entries wraft.Raft.Storage.set_current_term
    wraft.Raft.Storage.set_voted_for
runs_on = refl

second_vote : step later (vote_event 2 11) ≡ ok (again, (asked later 2 11).1)
unfolding step run wraft.Raft.Worker.apply_log wraft.Raft.Storage.sublog
    wraft.Raft.Worker.Machine.follower_branch wraft.Raft.Worker.Follower.handle_rpc
    wraft.Raft.Worker.handle_request_vote wraft.Raft.Storage.update_term
    wraft.Raft.Worker.apply_entries wraft.Raft.Storage.set_current_term
    wraft.Raft.Storage.set_voted_for
second_vote = refl

voted_term : (inner voted).storage.current_term ≤ 4
unfolding step wraft.Raft.Worker.apply_log wraft.Raft.Storage.sublog
    wraft.Raft.Worker.Machine.follower_branch wraft.Raft.Worker.Follower.handle_rpc
    wraft.Raft.Worker.handle_request_vote wraft.Raft.Storage.update_term
    wraft.Raft.Worker.apply_entries wraft.Raft.Storage.set_current_term
    wraft.Raft.Storage.set_voted_for
voted_term = omega arith

run-VoteKept_example : VoteKept (inner voted).storage (inner later).storage
run-VoteKept_example =
    run-VoteKept 4 between voted later (omega arith) voted_term (omega arith, (omega arith, tt))
      runs_on

grants_agree_example : second ≡ second
unfolding step wraft.Raft.Worker.apply_log wraft.Raft.Storage.sublog
    wraft.Raft.Worker.Machine.follower_branch wraft.Raft.Worker.Follower.handle_rpc
    wraft.Raft.Worker.apply_entries wraft.Raft.Worker.handle_request_vote
    wraft.Raft.Storage.update_term wraft.Raft.Storage.set_current_term
    wraft.Raft.Storage.set_voted_for run
grants_agree_example =
    grants_agree 4 voter voted later again (asks 2) (asks 2) 9 11 (asked voter 2 9).1
      (asked later 2 11).1 between (omega arith) (omega arith) refl (omega arith, (omega arith, tt))
      first_vote refl runs_on second_vote refl

abbrev ballot : ℕ → Option ℕ
ballot n = some 2

abbrev runner : Inner Text ℕ
runner = node (storage_of [] 4 (some 1)) 0 0
