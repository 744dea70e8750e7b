-- ===== src/Raft/Worker/Machine.antt =====
-- wraft/src/raft/worker.rs: the three roles' event loops and the changes between roles.
-- A step is one round of the loop of `next`: what stands before `select!`, then the branch of one
-- event, then, on a change of role, what the new role's `next` does before its loop.
use wraft.Base.{ℕ, ◌+◌, none, List, [], ◌∷◌, ◌++◌, length, Outcome, ok, ◌>>=◌, if◌then◌else◌, leb}
use wraft.Raft.Types.{ClientRequest, RpcRequest, RpcResult}
use wraft.Raft.Storage.{Codec, LocalStorage, new}
use wraft.Raft.Worker.{
  Inner, Client, ClientSender, Effect, reset_timer, StateChange, continue, become_follower, quorum,
  apply_log, handle_new_peer, set_disconnected,
}
use wraft.Raft.Worker.Follower
use wraft.Raft.Worker.Candidate
use wraft.Raft.Worker.Leader
use wraft.Raft.Worker.Leader.{Leader}
use wraft.Raft.Worker.Leader.Handlers

-- What `select!` can wake on. A vote comes from the tasks of the running election. `disconnected`
-- is no such event: a task that calls the peer finds its channel closed; the round that goes with it
-- here is what the loop has done before it waits.
pub data Event (Cmd : Type 0) : Type 0 where
  rpc : RpcRequest Cmd → ℕ → Event Cmd
  client : ClientRequest Cmd → ClientSender → Event Cmd
  new_peer disconnected : ℕ → Event Cmd
  timeout : Event Cmd
  vote : Event Cmd
  append_response : ℕ → ℕ → ℕ → RpcResult → Event Cmd

-- `RaftWorkerState`; a candidate's loop counts its votes.
pub data State (Text Cmd : Type 0) : Type 0 where
  follower : Inner Text Cmd → State Text Cmd
  candidate : Inner Text Cmd → ℕ → State Text Cmd
  leader : Inner Text Cmd → Leader → State Text Cmd

abbrev pub inner : {Text Cmd : Type 0} → State Text Cmd → Inner Text Cmd
inner (follower w) = w
inner (candidate w votes) = w
inner (leader w l) = w

abbrev pub Stepped : Type 0 → Type 0 → Type 0
Stepped Text Cmd = Outcome (State Text Cmd × List (Effect Cmd))

module _ {Text Cmd : Type 0} ⦃codec : Codec Text Cmd⦄ where
  -- `WorkerBuilder::start`
  unfoldable pub start :
      LocalStorage Text → ℕ → ℕ → List ℕ → List (ℕ × Client) → Outcome (State Text Cmd)
  start ls node_id session_key peers clients = do
    storage ← new ls session_key
    ok (
        follower (record {
          leader_id = none;
          node_id = node_id;
          session_key = session_key;
          cluster_size = length peers + 1;
          peers = peers;
          peer_clients = clients;
          commit_index = 0;
          last_applied = 0;
          storage = storage;
        }))

  -- A candidate's `next` before its loop. The own vote is the first.
  unfoldable pub start_election : Inner Text Cmd → Stepped Text Cmd
  start_election w = do (w', out) ← Candidate.start w; ok (candidate w' 1, out ++ reset_timer ∷ [])

  -- A round of a follower, after `apply_log`. A follower has no votes and no responses.
  unfoldable pub follower_branch : Inner Text Cmd → Event Cmd → Stepped Text Cmd
  follower_branch w (rpc req tx) = do
    (w', out) ← Follower.handle_rpc w req tx
    ok (follower w', out)
  follower_branch w (client req tx) = ok (follower w, Follower.handle_client w req tx)
  follower_branch w (new_peer peer) =
      let (w', out) = handle_new_peer w peer in ok (follower w', out)
  follower_branch w (disconnected peer) = ok (follower (set_disconnected w peer), [])
  follower_branch w timeout = start_election (Candidate.from_follower w)
  follower_branch w vote = ok (follower w, [])
  follower_branch w (append_response peer first last res) = ok (follower w, [])

  -- A change to follower; its `next` begins with a new timeout.
  unfoldable pub candidate_after :
      StateChange → Inner Text Cmd → ℕ → List (Effect Cmd) → Stepped Text Cmd
  candidate_after become_follower w votes out = ok (follower w, out ++ reset_timer ∷ [])
  candidate_after continue w votes out = ok (candidate w votes, out)

  unfoldable pub candidate_branch : Inner Text Cmd → ℕ → Event Cmd → Stepped Text Cmd
  candidate_branch w votes (rpc req tx) = do
    (change, w', out) ← Candidate.handle_rpc w req tx
    candidate_after change w' votes out
  candidate_branch w votes (client req tx) =
      ok (candidate w votes, Candidate.handle_client w req tx)
  candidate_branch w votes (new_peer peer) =
      let (w', out) = handle_new_peer w peer in ok (candidate w' votes, out)
  candidate_branch w votes (disconnected peer) = ok (candidate (set_disconnected w peer) votes, [])
  candidate_branch w votes timeout = start_election w
  candidate_branch w votes vote =
      let (w', l) = Leader.from_candidate w in
      if leb (quorum w) (votes + 1)
      then ok (leader w' l, reset_timer ∷ [])
      else ok (candidate w (votes + 1), [])
  candidate_branch w votes (append_response peer first last res) = ok (candidate w votes, [])

  -- A leader that steps down drops its clients' senders.
  unfoldable pub leader_after :
      StateChange → Inner Text Cmd → Leader → List (Effect Cmd) → Stepped Text Cmd
  leader_after become_follower w l out =
      ok (follower w, out ++ Leader.drop_senders l.in_flight_client_requests ++ reset_timer ∷ [])
  leader_after continue w l out = ok (leader w l, out)

  unfoldable pub leader_branch : Inner Text Cmd → Leader → Event Cmd → Stepped Text Cmd
  leader_branch w l (rpc req tx) = do
    (change, w', l', out) ← Handlers.handle_rpc w l req tx
    leader_after change w' l' out
  leader_branch w l (client req tx) = do
    (w', l', out) ← Handlers.handle_client_request w l req tx
    ok (leader w' l', out)
  leader_branch w l (new_peer peer) =
      let (w', out) = handle_new_peer w peer in ok (leader w' l, out)
  leader_branch w l (disconnected peer) = ok (leader (set_disconnected w peer) l, [])
  leader_branch w l timeout = do (l', out) ← Leader.heartbeat w l; ok (leader w l', out)
  leader_branch w l vote = ok (leader w l, [])
  leader_branch w l (append_response peer first last res) = do
    (change, w', l', out) ← Handlers.handle_append_entries_response w l peer first last res
    leader_after change w' l' out

  unfoldable pub step : State Text Cmd → Event Cmd → Stepped Text Cmd
  step (follower w) ev = do
    (w', applied) ← apply_log w
    (st, out) ← follower_branch w' ev
    ok (st, applied ++ out)
  step (candidate w votes) ev = do
    (w', applied) ← apply_log w
    (st, out) ← candidate_branch w' votes ev
    ok (st, applied ++ out)
  step (leader w l) ev = do
    (w1, l1, acks) ← Leader.advance_commit_index w l
    (w2, applied) ← apply_log w1
    (st, out) ← leader_branch w2 l1 ev
    ok (st, acks ++ applied ++ out)

  -- The rounds of a run.
  unfoldable pub run : State Text Cmd → List (Event Cmd) → Outcome (State Text Cmd)
  run st [] = ok st
  run st (ev ∷ evs) = step st ev >>= λ r. run r.0 evs
