-- ===== src/Raft/Clients/Branches.antt =====
-- One event of worker.rs in each role: what becomes of the request that it brings.
use wraft.Base.{
  inr, inl, Bool-cases, ℕ, ◌+◌, ◌<◌, ◌^◌, ◌≡◌, refl, List, [], ◌∷◌, ◌++◌, arith, ok, >>=-ok, leb,
}
use wraft.Raft.Storage.{Codec}
use wraft.Raft.Worker.{
  quorum, Inner, ClientSender, Effect, reset_timer, StateChange, continue, become_follower,
  handle_new_peer, set_disconnected,
}
use wraft.Raft.Worker.Follower
use wraft.Raft.Worker.Candidate
use wraft.Raft.Worker.Leader
use wraft.Raft.Worker.Leader.{Leader}
use wraft.Raft.Worker.Leader.Handlers
use wraft.Raft.Worker.Machine.{
  Event, State, follower, candidate, leader, follower_branch, candidate_after, candidate_branch,
  leader_after, leader_branch,
}
use wraft.Raft.Clients.{settled, arrives, waits_in, waiting, IsKeyed, AreKeyed}
use wraft.Raft.Clients.Effects.{
  settled-append, settled-drop_senders, settled-start_election, settled-append_all,
}
use wraft.Raft.Clients.Handlers.{
  settled-follower-client, settled-candidate-client, settled-follower-rpc, settled-candidate-rpc,
  client_request-Kept, leader-rpc-Changed, response-Changed, Changed,
}

module _ {Text Cmd : Type 0} where
  -- Every sender that waited or came with the event is settled by what is sent, or waits.
  abbrev pub Balanced : ClientSender → ℕ → Event Cmd → State Text Cmd → List (Effect Cmd) → Type 0
  Balanced s before ev st' out = waiting s st' + settled s out ≡ before + arrives s ev

module _ {Text Cmd : Type 0} ⦃codec : Codec Text Cmd⦄ where
  pub follower-Balanced :
      (s : ClientSender) (w : Inner Text Cmd) (ev : Event Cmd) (st' : State Text Cmd)
      (out : List (Effect Cmd))
      → follower_branch w ev ≡ ok (st', out)
      → Balanced s 0 ev st' out × AreKeyed st'
  unfolding follower_branch handle_new_peer set_disconnected
  follower-Balanced s w (Event.rpc req tx) st' out h =
      let (r, handled, rest) = >>=-ok (Follower.handle_rpc w req tx) _ h in
      let to : st' ≡ follower r.0 = ground arith in
      rw to (ground (arith, settled-follower-rpc s w r.0 req tx r.1 handled), tt)
  follower-Balanced s w (Event.client req tx) st' out h =
      let to : st' ≡ follower w = ground arith in
      rw to (ground (arith, settled-follower-client s w req tx), tt)
  follower-Balanced s w (Event.new_peer p) st' out h =
      let to : st' ≡ follower (handle_new_peer w p).0 = ground arith in rw to (ground arith, tt)
  follower-Balanced s w (Event.disconnected p) st' out h =
      let to : st' ≡ follower (set_disconnected w p) = ground arith in rw to (ground arith, tt)
  follower-Balanced s w Event.timeout st' out h =
      let (none_settled, (w', to)) =
        settled-start_election s (Candidate.from_follower w) st' out h in
      rw to (omega (arith, none_settled), tt)
  follower-Balanced s w Event.vote st' out h =
      let to : st' ≡ follower w = ground arith in rw to (ground arith, tt)
  follower-Balanced s w (Event.append_response p f l res) st' out h =
      let to : st' ≡ follower w = ground arith in rw to (ground arith, tt)

  candidate_after-Balanced :
      (s : ClientSender) (change : StateChange) (w : Inner Text Cmd) (votes : ℕ)
      (out : List (Effect Cmd)) (st' : State Text Cmd) (out' : List (Effect Cmd))
      → candidate_after change w votes out ≡ ok (st', out')
      → (waiting s st' ≡ 0) × (settled s out' ≡ settled s out) × AreKeyed st'
  unfolding candidate_after
  candidate_after-Balanced s become_follower w votes out st' out' h =
      let to : st' ≡ follower w = ground arith in
      rw to (refl, ground (arith, settled-append s out (reset_timer ∷ [])), tt)
  candidate_after-Balanced s continue w votes out st' out' h =
      let to : st' ≡ candidate w votes = ground arith in rw to (refl, ground arith, tt)

  pub candidate-Balanced :
      (s : ClientSender) (w : Inner Text Cmd) (votes : ℕ) (ev : Event Cmd) (st' : State Text Cmd)
      (out : List (Effect Cmd))
      → candidate_branch w votes ev ≡ ok (st', out)
      → Balanced s 0 ev st' out × AreKeyed st'
  unfolding candidate_branch handle_new_peer set_disconnected Leader.from_candidate
  candidate-Balanced s w votes (Event.rpc req tx) st' out h =
      let (r, handled, rest) = >>=-ok (Candidate.handle_rpc w req tx) _ h in
      let (none_waits, same, keyed) = candidate_after-Balanced s r.0 r.1 votes r.2 st' out rest in
      (omega (arith, none_waits, same, settled-candidate-rpc s w r.1 r.0 req tx r.2 handled), keyed)
  candidate-Balanced s w votes (Event.client req tx) st' out h =
      let to : st' ≡ candidate w votes = ground arith in
      rw to (ground (arith, settled-candidate-client s w req tx), tt)
  candidate-Balanced s w votes (Event.new_peer p) st' out h =
      let to : st' ≡ candidate (handle_new_peer w p).0 votes = ground arith in
      rw to (ground arith, tt)
  candidate-Balanced s w votes (Event.disconnected p) st' out h =
      let to : st' ≡ candidate (set_disconnected w p) votes = ground arith in
      rw to (ground arith, tt)
  candidate-Balanced s w votes Event.timeout st' out h =
      let (none_settled, (w', to)) = settled-start_election s w st' out h in
      rw to (omega (arith, none_settled), tt)
  candidate-Balanced s w votes Event.vote st' out h =
      elim (Bool-cases (leb (quorum w) (votes + 1))) [
        | inl won ↦
            let (u, l) = Leader.from_candidate w in
            let to : st' ≡ leader u l = ground arith in rw to (ground arith, tt)
        | inr few ↦
            let to : st' ≡ candidate w (votes + 1) = ground arith in rw to (ground arith, tt)
      ]
  candidate-Balanced s w votes (Event.append_response p f l res) st' out h =
      let to : st' ≡ candidate w votes = ground arith in rw to (ground arith, tt)

  leader_after-Balanced :
      (s : ClientSender) (came : ℕ) (w w' : Inner Text Cmd) (l l' : Leader) (change : StateChange)
      (out : List (Effect Cmd)) (st' : State Text Cmd) (out' : List (Effect Cmd))
      → Changed s w l came change w' l' out
      → leader_after change w' l' out ≡ ok (st', out')
      → (waiting s st' + settled s out' ≡ waits_in s l.in_flight_client_requests + came)
        × AreKeyed st'
  unfolding leader_after
  leader_after-Balanced s came w w' l l' become_follower out st' out' (even, keyed) h =
      let to : st' ≡ follower w' = ground arith in
      let dropped = Leader.drop_senders {Cmd = Cmd} l'.in_flight_client_requests in
      rw to (
        ground (
          arith,
          even,
          settled-append s (out ++ dropped) (reset_timer ∷ []),
          settled-append s out dropped,
          settled-drop_senders Cmd s l'.in_flight_client_requests,
        ),
        tt,
      )
  leader_after-Balanced s came w w' l l' continue out st' out' (even, keyed) h =
      let to : st' ≡ leader w' l' = ground arith in rw to (ground (arith, even), keyed refl)

  pub leader-Balanced :
      (s : ClientSender) (w : Inner Text Cmd) (l : Leader) (ev : Event Cmd) (st' : State Text Cmd)
      (out : List (Effect Cmd))
      → w.storage.last_log_index + 1 < 2 ^ 64
      → IsKeyed w.storage.last_log_index l.in_flight_client_requests
      → leader_branch w l ev ≡ ok (st', out)
      → Balanced s (waits_in s l.in_flight_client_requests) ev st' out × AreKeyed st'
  unfolding leader_branch handle_new_peer set_disconnected Leader.heartbeat
  leader-Balanced s w l (Event.rpc req tx) st' out fits keyed h =
      let (r, handled, rest) = >>=-ok (Handlers.handle_rpc w l req tx) _ h in
      leader_after-Balanced s _ w r.1 l r.2 r.0 r.3 st' out
        (leader-rpc-Changed s w r.1 l r.2 r.0 req tx r.3 fits keyed handled) rest
  leader-Balanced s w l (Event.client req tx) st' out fits keyed h =
      let (r, handled, rest) = >>=-ok (Handlers.handle_client_request w l req tx) _ h in
      let (keyed', even) = client_request-Kept s w r.0 l r.1 r.2 req tx fits keyed handled in
      let to : st' ≡ leader r.0 r.1 = ground arith in rw to (ground (arith, even), keyed')
  leader-Balanced s w l (Event.new_peer p) st' out fits keyed h =
      let to : st' ≡ leader (handle_new_peer w p).0 l = ground arith in rw to (ground arith, keyed)
  leader-Balanced s w l (Event.disconnected p) st' out fits keyed h =
      let to : st' ≡ leader (set_disconnected w p) l = ground arith in rw to (ground arith, keyed)
  leader-Balanced s w l Event.timeout st' out fits keyed h =
      let (r, sent, rest) = >>=-ok (Leader.heartbeat w l) _ h in
      let (q, all, last) = >>=-ok (Leader.append_all w l w.peers) _ sent in
      let (none_settled, same) = settled-append_all s w l q.0 w.peers q.1 all in
      let to : st' ≡ leader w r.0 = ground arith in
      let waits : r.0.in_flight_client_requests ≡ l.in_flight_client_requests =
        ground (arith, same) in
      rw to (
        ground (arith, waits, none_settled, settled-append s q.1 (reset_timer ∷ [])),
        rw waits keyed,
      )
  leader-Balanced s w l Event.vote st' out fits keyed h =
      let to : st' ≡ leader w l = ground arith in rw to (ground arith, keyed)
  leader-Balanced s w l (Event.append_response p first last res) st' out fits keyed h =
      let (r, handled, rest) =
        >>=-ok (Handlers.handle_append_entries_response w l p first last res) _ h in
      leader_after-Balanced s 0 w r.1 l r.2 r.0 r.3 st' out
        (response-Changed s w r.1 l r.2 p first last res r.0 r.3 keyed handled) rest
