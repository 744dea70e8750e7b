-- ===== src/Raft/Clients/Silent.antt =====
-- One event of worker.rs in each role acknowledges no request: that is left to the next round.
use wraft.Base.{refl, ℕ, ◌≡◌, List, [], ◌∷◌, ◌++◌, arith, ok, >>=-ok}
use wraft.Raft.Storage.{Codec}
use wraft.Raft.Worker.{
  Inner, Effect, reset_timer, StateChange, continue, become_follower, handle_new_peer,
  set_disconnected, handle_debug,
}
use wraft.Raft.Worker.Follower
use wraft.Raft.Worker.Candidate
use wraft.Raft.Worker.Leader
use wraft.Raft.Worker.Leader.{Leader}
use wraft.Raft.Worker.Leader.Handlers
use wraft.Raft.Worker.Machine.{
  Event, State, follower_branch, candidate_after, candidate_branch, leader_after, leader_branch,
}
use wraft.Raft.Clients.Replies.{
  acks-silent, acks-response, acks-start_election, acks-heartbeat, acks-candidate-client,
  acks-follower-client, acks-client_request, acks-candidate-rpc, acks-leader-rpc, acks-follower-rpc,
  acks-drop_senders, acks,
}

module _ {Text Cmd : Type 0} ⦃codec : Codec Text Cmd⦄ where
  pub follower-acks :
      (w : Inner Text Cmd) (ev : Event Cmd) (st' : State Text Cmd) (out : List (Effect Cmd))
      → follower_branch w ev ≡ ok (st', out)
      → acks out ≡ []
  unfolding follower_branch handle_new_peer set_disconnected Follower.handle_client handle_debug
  follower-acks w (Event.rpc req tx) st' out h =
      let (r, handled, rest) = >>=-ok (Follower.handle_rpc w req tx) _ h in
      ground (arith, acks-follower-rpc w r.0 req tx r.1 handled)
  follower-acks w (Event.client req tx) st' out h = ground (arith, acks-follower-client w req tx)
  follower-acks w (Event.new_peer p) st' out h = ground arith
  follower-acks w (Event.disconnected p) st' out h = ground arith
  follower-acks w Event.timeout st' out h =
      acks-start_election (Candidate.from_follower w) st' out h
  follower-acks w Event.vote st' out h = ground arith
  follower-acks w (Event.append_response p f l res) st' out h = ground arith

  candidate_after-acks :
      (change : StateChange) (w : Inner Text Cmd) (votes : ℕ) (out : List (Effect Cmd))
      (st' : State Text Cmd) (out' : List (Effect Cmd))
      → candidate_after change w votes out ≡ ok (st', out')
      → acks out' ≡ acks out
  unfolding candidate_after
  candidate_after-acks become_follower w votes out st' out' h =
      ground (arith, acks-silent out (reset_timer ∷ []) refl)
  candidate_after-acks continue w votes out st' out' h = ground arith

  pub candidate-acks :
      (w : Inner Text Cmd) (votes : ℕ) (ev : Event Cmd) (st' : State Text Cmd)
      (out : List (Effect Cmd))
      → candidate_branch w votes ev ≡ ok (st', out)
      → acks out ≡ []
  unfolding candidate_branch handle_new_peer set_disconnected
  candidate-acks w votes (Event.rpc req tx) st' out h =
      let (r, handled, rest) = >>=-ok (Candidate.handle_rpc w req tx) _ h in
      ground (
        arith,
        candidate_after-acks r.0 r.1 votes r.2 st' out rest,
        acks-candidate-rpc w r.1 r.0 req tx r.2 handled,
      )
  candidate-acks w votes (Event.client req tx) st' out h =
      ground (arith, acks-candidate-client w req tx)
  candidate-acks w votes (Event.new_peer p) st' out h = ground arith
  candidate-acks w votes (Event.disconnected p) st' out h = ground arith
  candidate-acks w votes Event.timeout st' out h = acks-start_election w st' out h
  candidate-acks w votes Event.vote st' out h = ground arith
  candidate-acks w votes (Event.append_response p f l res) st' out h = ground arith

  leader_after-acks :
      (change : StateChange) (w : Inner Text Cmd) (l : Leader) (out : List (Effect Cmd))
      (st' : State Text Cmd) (out' : List (Effect Cmd))
      → leader_after change w l out ≡ ok (st', out')
      → acks out' ≡ acks out
  unfolding leader_after
  leader_after-acks become_follower w l out st' out' h =
      let dropped = Leader.drop_senders {Cmd = Cmd} l.in_flight_client_requests in
      let gone = acks-drop_senders Cmd l.in_flight_client_requests in
      ground
        (arith, acks-silent (out ++ dropped) (reset_timer ∷ []) refl, acks-silent out dropped gone)
  leader_after-acks continue w l out st' out' h = ground arith

  pub leader-acks :
      (w : Inner Text Cmd) (l : Leader) (ev : Event Cmd) (st' : State Text Cmd)
      (out : List (Effect Cmd))
      → leader_branch w l ev ≡ ok (st', out)
      → acks out ≡ []
  unfolding leader_branch handle_new_peer set_disconnected
  leader-acks w l (Event.rpc req tx) st' out h =
      let (r, handled, rest) = >>=-ok (Handlers.handle_rpc w l req tx) _ h in
      ground (
        arith,
        leader_after-acks r.0 r.1 r.2 r.3 st' out rest,
        acks-leader-rpc w r.1 l r.2 r.0 req tx r.3 handled,
      )
  leader-acks w l (Event.client req tx) st' out h =
      let (r, handled, rest) = >>=-ok (Handlers.handle_client_request w l req tx) _ h in
      ground (arith, acks-client_request w r.0 l r.1 r.2 req tx handled)
  leader-acks w l (Event.new_peer p) st' out h = ground arith
  leader-acks w l (Event.disconnected p) st' out h = ground arith
  leader-acks w l Event.timeout st' out h =
      let (r, sent, rest) = >>=-ok (Leader.heartbeat w l) _ h in
      ground (arith, acks-heartbeat w l r.0 r.1 sent)
  leader-acks w l Event.vote st' out h = ground arith
  leader-acks w l (Event.append_response p first last res) st' out h =
      let (r, handled, rest) =
        >>=-ok (Handlers.handle_append_entries_response w l p first last res) _ h in
      ground (
        arith,
        leader_after-acks r.0 r.1 r.2 r.3 st' out rest,
        acks-response w r.1 l r.2 p first last res r.0 r.3 handled,
      )
