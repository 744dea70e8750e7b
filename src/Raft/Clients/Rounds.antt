-- ===== src/Raft/Clients/Rounds.antt =====
-- Rounds and runs of worker.rs: what becomes of the requests that a node gets.
use wraft.Base.{ℕ, ◌+◌, ◌<◌, ◌^◌, ◌≡◌, ◌∙◌, List, [], ◌∷◌, ◌++◌, arith, ok, >>=-ok}
use wraft.Raft.Storage.{Codec}
use wraft.Raft.Worker.{ClientSender, Effect, apply_log}
use wraft.Raft.Worker.Leader
use wraft.Raft.Worker.Leader.{Leader}
use wraft.Raft.Worker.Machine.{
  Event, State, inner, follower, candidate, leader, follower_branch, candidate_branch,
  leader_branch, step,
}
use wraft.Raft.Votes.Handlers.{apply_log-storage}
use wraft.Raft.Votes.Runs.{advance_commit_index-storage}
use wraft.Raft.Clients.{settled, arrives, waiting, AreKeyed}
use wraft.Raft.Clients.Effects.{settled-append, settled-apply_log}
use wraft.Raft.Clients.Acks.{settled-advance}
use wraft.Raft.Clients.Branches.{Balanced, follower-Balanced, candidate-Balanced, leader-Balanced}

module _ {Text Cmd : Type 0} ⦃codec : Codec Text Cmd⦄ where
  -- A round leaves nothing unsettled but what a leader has waiting.
  pub step-Balanced :
      (s : ClientSender) (st st' : State Text Cmd) (ev : Event Cmd) (out : List (Effect Cmd))
      → (inner st).storage.last_log_index + 1 < 2 ^ 64
      → AreKeyed st
      → step st ev ≡ ok (st', out)
      → Balanced s (waiting s st) ev st' out × AreKeyed st'
  unfolding step
  step-Balanced s (follower w) st' ev out fits keyed h =
      let (r, applied, more) = >>=-ok (apply_log w) _ h in
      let (q, branch, rest) = >>=-ok (follower_branch r.0 ev) _ more in
      let (even, keyed') = follower-Balanced s r.0 ev q.0 q.1 branch in
      let to : st' ≡ q.0 = ground arith in
      rw to (
        ground (arith, even, settled-append s r.1 q.1, settled-apply_log s w r.0 r.1 applied),
        keyed',
      )
  step-Balanced s (candidate w votes) st' ev out fits keyed h =
      let (r, applied, more) = >>=-ok (apply_log w) _ h in
      let (q, branch, rest) = >>=-ok (candidate_branch r.0 votes ev) _ more in
      let (even, keyed') = candidate-Balanced s r.0 votes ev q.0 q.1 branch in
      let to : st' ≡ q.0 = ground arith in
      rw to (
        ground (arith, even, settled-append s r.1 q.1, settled-apply_log s w r.0 r.1 applied),
        keyed',
      )
  step-Balanced s (leader w l) st' ev out fits keyed h =
      let (p, advanced, most) = >>=-ok (Leader.advance_commit_index w l) _ h in
      let (r, applied, more) = >>=-ok (apply_log p.0) _ most in
      let (q, branch, rest) = >>=-ok (leader_branch r.0 p.1 ev) _ more in
      let stored : r.0.storage ≡ w.storage =
        apply_log-storage p.0 r.0 r.1 applied
        ∙ advance_commit_index-storage w p.0 l p.1 p.2 advanced in
      let (keyed1, acked) =
        settled-advance s w.storage.last_log_index w p.0 l p.1 p.2 advanced keyed in
      let (even, keyed') =
        leader-Balanced s r.0 p.1 ev q.0 q.1 (rw stored fits) (rw stored keyed1) branch in
      let to : st' ≡ q.0 = ground arith in
      rw to (
        ground (
          arith,
          even,
          acked,
          settled-append s (p.2 ++ r.1) q.1,
          settled-append s p.2 r.1,
          settled-apply_log s p.0 r.0 r.1 applied,
        ),
        keyed',
      )

  -- Rounds with what they send, each begun with room for an entry behind the log.
  pub data Rounds (st : State Text Cmd)
      : List (Event Cmd) → List (Effect Cmd) → State Text Cmd → Type 0 where
    begun : Rounds st [] [] st
    further :
        {evs : List (Event Cmd)} {out : List (Effect Cmd)} {mid : State Text Cmd}
        → Rounds st evs out mid
        → (inner mid).storage.last_log_index + 1 < 2 ^ 64
        → (ev : Event Cmd) (st' : State Text Cmd) (more : List (Effect Cmd))
        → step mid ev ≡ ok (st', more)
        → Rounds st (evs ++ ev ∷ []) (out ++ more) st'

abbrev pub arrivals : {Cmd : Type 0} → ClientSender → List (Event Cmd) → ℕ
arrivals s [] = 0
arrivals s (ev ∷ evs) = arrives s ev + arrivals s evs

arrivals-snoc :
    {Cmd : Type 0} (s : ClientSender) (evs : List (Event Cmd)) (ev : Event Cmd)
    → arrivals s (evs ++ ev ∷ []) ≡ arrivals s evs + arrives s ev
arrivals-snoc s [] ev = omega arith
arrivals-snoc s (x ∷ evs) ev = omega (arith, arrivals-snoc s evs ev)

module _ {Text Cmd : Type 0} ⦃codec : Codec Text Cmd⦄ where
  -- Over any rounds of a node, each begun with room for one more entry in the log: if at the start no
  -- index of a leader has two waiting senders and none is behind the end of the log, then a sender
  -- waits at the end, and has been answered, dropped, forwarded or replied to by what the rounds send,
  -- as often in sum as it waited at the start and came with the events; and at the end again no
  -- index has two waiting senders and none is behind the end of the log.
  pub requests_kept :
      (s : ClientSender) (st : State Text Cmd)
      → {evs : List (Event Cmd)} {out : List (Effect Cmd)} {st' : State Text Cmd} → AreKeyed st
      → Rounds st evs out st'
      → (waiting s st' + settled s out ≡ waiting s st + arrivals s evs) × AreKeyed st'
  requests_kept s st keyed begun = (omega arith, keyed)
  requests_kept s st keyed (further rounds fits ev st' more ran) =
      let (even, keyed') = requests_kept s st keyed rounds in
      let (even', keyed'') = step-Balanced s _ st' ev more fits keyed' ran in
      (omega (arith, even, even', arrivals-snoc s _ ev, settled-append s _ more), keyed'')
