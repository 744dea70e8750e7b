-- ===== src/Raft/Clients/Committed.antt =====
-- The acknowledgements of a round of worker.rs: which entries they are for.
use wraft.Base.{
  Option-cases, ap, ◌∙◌, ℕ, ◌+◌, ◌<◌, ◌≤◌, ◌^◌, ◌≡◌, some, List, [], ◌∷◌, ◌++◌, arith, ok, get,
  remove, get-remove, count_up, zero, suc, add64, All, inl, inr, length, subst, sym, >>=-ok, ◌-◌,
}
use wraft.Raft.Types.{LogEntry, ClientResult, ClientResponse}
use wraft.Raft.Storage.{Codec}
use wraft.Raft.Storage.Log.{Holds}
use wraft.Raft.Worker.{Inner, ClientSender, Effect, answer, apply_log}
use wraft.Raft.Worker.Leader
use wraft.Raft.Worker.Leader.{Leader}
use wraft.Raft.Worker.Machine.{
  candidate_branch, follower_branch, inner, Event, State, follower, candidate, leader,
  leader_branch, step,
}
use wraft.Raft.Leading.Commit.{Commits, Committable, advance_commit_index_lem}
use wraft.Raft.Clients.Replies.{acks-silent, acks, acks-append, acks-apply_log}
use wraft.Raft.Clients.Silent.{follower-acks, candidate-acks, leader-acks}

-- The sender waited for an entry between two indices.
abbrev WaitedIn : ℕ → ℕ → Leader → ClientSender → Type 0
WaitedIn low high l tx =
    (i : ℕ) × (low ≤ i) × (i < high) × (get i l.in_flight_client_requests ≡ some tx)

WaitedIn-remove :
    (low high j : ℕ) (l : Leader) (txs : List ClientSender)
    → low ≤ j
    → All
        (WaitedIn
          (low + 1)
          high
          (record l { in_flight_client_requests = remove j l.in_flight_client_requests }))
        txs
    → All (WaitedIn low high l) txs
WaitedIn-remove low high j l [] le h = tt
WaitedIn-remove low high j l (tx ∷ txs) le ((i, above, below, there), h) = (
  (
    i,
    omega (arith, above),
    below,
    ground (arith, there, get-remove j i l.in_flight_client_requests),
  ),
  WaitedIn-remove low high j l txs le h,
)

WaitedIn-widen :
    (low high : ℕ) (l : Leader) (txs : List ClientSender)
    → All (WaitedIn (low + 1) high l) txs
    → All (WaitedIn low high l) txs
WaitedIn-widen low high l [] h = tt
WaitedIn-widen low high l (tx ∷ txs) ((i, above, below, there), h) =
    ((i, omega (arith, above), below, there), WaitedIn-widen low high l txs h)

ack_range-WaitedIn :
    (Cmd : Type 0) (l : Leader) (low n : ℕ)
    → All (WaitedIn low (low + n) l) (acks (Leader.ack_range {Cmd = Cmd} l (count_up low n)).1)
unfolding Leader.ack_range
ack_range-WaitedIn Cmd l low zero = tt
ack_range-WaitedIn Cmd l low (suc n) = elim (Option-cases (get low l.in_flight_client_requests)) [
  | inl free ↦
      let same : Leader.ack_range {Cmd = Cmd} l (count_up low (suc n))
          ≡ Leader.ack_range l (count_up (low + 1) n) =
        ground (arith, free) in
      let rest =
        subst
          (λ h.
            All (WaitedIn (low + 1) h l)
              (acks (Leader.ack_range {Cmd = Cmd} l (count_up (low + 1) n)).1))
          (omega arith) (ack_range-WaitedIn Cmd l (low + 1) n) in
      rw same (WaitedIn-widen low (low + suc n) l _ rest)
  | inr (tx, here) ↦
      let l1 = record l { in_flight_client_requests = remove low l.in_flight_client_requests } in
      let r = Leader.ack_range {Cmd = Cmd} l1 (count_up (low + 1) n) in
      let same : Leader.ack_range {Cmd = Cmd} l (count_up low (suc n))
          ≡ (r.0, answer tx (ClientResult.ok ClientResponse.ack) ∷ r.1) =
        ground (arith, here) in
      let rest : All (WaitedIn (low + 1) (low + suc n) l1) (acks r.1) =
        subst (λ h. All (WaitedIn (low + 1) h l1) (acks r.1)) (omega arith)
          (ack_range-WaitedIn Cmd l1 (low + 1) n) in
      rw same (
        (low, omega arith, omega arith, here),
        WaitedIn-remove low (low + suc n) low l _ (omega arith) rest,
      )
]

module _ {Text Cmd : Type 0} where
  -- The sender waited for an entry that the leader can commit and had not.
  abbrev pub Acknowledged : Inner Text Cmd → Leader → List (LogEntry Cmd) → ClientSender → Type 0
  Acknowledged w l log tx =
      (i : ℕ) × (get i l.in_flight_client_requests ≡ some tx)
      × (w.commit_index < i)
      × Committable w l log i

  WaitedIn-Acknowledged :
      (w : Inner Text Cmd) (l : Leader) (log : List (LogEntry Cmd)) (m c high : ℕ)
      (txs : List ClientSender)
      → Commits w l log m c
      → high ≤ c + 1
      → All (WaitedIn (w.commit_index + 1) high l) txs
      → All (Acknowledged w l log) txs
  WaitedIn-Acknowledged w l log m c high [] commits le h = tt
  WaitedIn-Acknowledged w l log m c high (tx ∷ txs) commits le ((i, above, below, there), h) = (
    (i, there, omega (arith, above), commits.sound i (omega (arith, above)) (omega (arith, below))),
    WaitedIn-Acknowledged w l log m c high txs commits le h,
  )

module _ {Text Cmd : Type 0} ⦃codec : Codec Text Cmd⦄ where
  advance-Acknowledged :
      (w w' : Inner Text Cmd) (l l' : Leader) (log : List (LogEntry Cmd)) (out : List (Effect Cmd))
      → Holds w.storage log
      → w.commit_index ≤ length log
      → w.commit_index + 1 < 2 ^ 64
      → Leader.advance_commit_index w l ≡ ok (w', l', out)
      → All (Acknowledged w l log) (acks out)
  unfolding Leader.advance_commit_index
  advance-Acknowledged w w' l l' log out holds within room h =
      let (c, l1, out1, ran, commits, next_kept, match_kept, peers_kept) =
        advance_commit_index_lem w l log holds within room in
      let (u, ranged, rest) = >>=-ok (Leader.commit_range w l _) _ h in
      let reached : u.commit_index ≡ c = ground (arith, ran) in
      let next = add64 w.commit_index 1 in
      let n = u.commit_index + 1 - next in
      let same : (Leader.ack_range {Cmd = Cmd} l (count_up next n)).1 ≡ out =
        ground (arith, rest) in
      let first : next ≡ w.commit_index + 1 = omega arith in
      let waited =
        subst
          (λ k.
            All (WaitedIn k (next + n) l)
              (acks (Leader.ack_range {Cmd = Cmd} l (count_up next n)).1))
          first (ack_range-WaitedIn Cmd l next n) in
      WaitedIn-Acknowledged w l log (length log) c (next + n) (acks out) commits
        (omega (arith, commits.grows))
        (subst (λ o. All (WaitedIn (w.commit_index + 1) (next + n) l) (acks o)) same waited)

  -- Who may be acknowledged in a round of a node in this state.
  abbrev pub AckedBy : State Text Cmd → List (LogEntry Cmd) → List ClientSender → Type 0
  AckedBy (follower w) log txs = txs ≡ []
  AckedBy (candidate w votes) log txs = txs ≡ []
  AckedBy (leader w l) log txs = All (Acknowledged w l log) txs

  -- In a round of a node whose storage holds a log, with the commit index within it, a follower and
  -- a candidate acknowledge no request, and a leader only those that wait at an index beyond its
  -- commit index up to which it commits: a quorum, itself included, holds the entry there, which is
  -- of the leader's own term.
  pub acked_committed :
      (st st' : State Text Cmd) (ev : Event Cmd) (log : List (LogEntry Cmd))
      (out : List (Effect Cmd))
      → Holds (inner st).storage log
      → (inner st).commit_index ≤ length log
      → (inner st).commit_index + 1 < 2 ^ 64
      → step st ev ≡ ok (st', out)
      → AckedBy st log (acks out)
  unfolding step
  acked_committed (follower w) st' ev log out holds within room h =
      let (r, applied, more) = >>=-ok (apply_log w) _ h in
      let (q, branch, rest) = >>=-ok (follower_branch r.0 ev) _ more in
      ground (
        arith,
        acks-append r.1 q.1,
        acks-apply_log w r.0 r.1 applied,
        follower-acks r.0 ev q.0 q.1 branch,
      )
  acked_committed (candidate w votes) st' ev log out holds within room h =
      let (r, applied, more) = >>=-ok (apply_log w) _ h in
      let (q, branch, rest) = >>=-ok (candidate_branch r.0 votes ev) _ more in
      ground (
        arith,
        acks-append r.1 q.1,
        acks-apply_log w r.0 r.1 applied,
        candidate-acks r.0 votes ev q.0 q.1 branch,
      )
  acked_committed (leader w l) st' ev log out holds within room h =
      let (p, advanced, most) = >>=-ok (Leader.advance_commit_index w l) _ h in
      let (r, applied, more) = >>=-ok (apply_log p.0) _ most in
      let (q, branch, rest) = >>=-ok (leader_branch r.0 p.1 ev) _ more in
      let sent : (p.2 ++ r.1) ++ q.1 ≡ out = ground arith in
      let same : acks out ≡ acks p.2 =
        ap acks (sym sent)
        ∙ acks-silent (p.2 ++ r.1) q.1 (leader-acks r.0 p.1 ev q.0 q.1 branch)
        ∙ acks-silent p.2 r.1 (acks-apply_log p.0 r.0 r.1 applied) in
      rw same (advance-Acknowledged w p.0 l p.1 log p.2 holds within room advanced)
