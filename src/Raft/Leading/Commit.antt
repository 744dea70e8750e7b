-- ===== src/Raft/Leading/Commit.antt =====
-- `advance_commit_index` of a leader.
use wraft.Base.{
  remove, range_inclusive, leb, ap, ◌≢◌, ◌∙◌, subst, ℕ, zero, suc, ◌+◌, ◌-◌, ◌<◌, ◌≤◌, ◌^◌, ◌≡◌,
  refl, inl, inr, some, List, [], ◌∷◌, arith, ok, Bool-cases, ◌==◌, length, count_up, add64,
}
use wraft.Raft.Types.{LogEntry}
use wraft.Raft.Storage.{Codec, get_log}
use wraft.Raft.Storage.Log.{entry_at-some, entry_at, Holds, get_log_lem}
use wraft.Raft.Worker.{Inner, Effect, quorum}
use wraft.Raft.Worker.Leader.{Leader, agree, commit_range, ack_range, advance_commit_index}

ack_range_keeps :
    (Cmd : Type 0) (l : Leader) (ns : List ℕ)
    → let l' = (ack_range {Cmd = Cmd} l ns).0 in
      (l'.next_indices ≡ l.next_indices)
      × (l'.match_indices ≡ l.match_indices)
      × (l'.in_flight_peers ≡ l.in_flight_peers)
unfolding ack_range
ack_range_keeps Cmd l [] = (refl, refl, refl)
ack_range_keeps Cmd l (n ∷ ns) =
    let rest = record l { in_flight_client_requests = remove n l.in_flight_client_requests } in
    ground (arith, ack_range_keeps Cmd l ns, ack_range_keeps Cmd rest ns)

module _ {Text Cmd : Type 0} where
  -- With the leader itself a quorum holds the entry at the index, and it is of the leader's term.
  abbrev pub Committable : Inner Text Cmd → Leader → List (LogEntry Cmd) → ℕ → Type 0
  Committable w l log i =
      (quorum w ≤ agree l i + 1)
      × ((x : LogEntry Cmd) × (entry_at log i ≡ some x) × (x.term ≡ w.storage.current_term))

  -- The commit index `c` goes as far as every index on the way can be committed, up to `m`.
  pub record Commits (w : Inner Text Cmd) (l : Leader) (log : List (LogEntry Cmd)) (m c : ℕ)
      : Type 0 where
    pub grows : w.commit_index ≤ c
    pub bounded : c ≤ m
    pub sound : (i : ℕ) → w.commit_index < i → i ≤ c → Committable w l log i
    pub stops : c < m → ¬ Committable w l log (suc c)

  stay :
      (w : Inner Text Cmd) (l : Leader) (log : List (LogEntry Cmd)) (m : ℕ)
      → w.commit_index ≤ m
      → (w.commit_index < m → ¬ Committable w l log (suc w.commit_index))
      → Commits w l log m w.commit_index
  stay w l log m within stop = record {
    grows = omega arith;
    bounded = within;
    sound = λ i above below. absurd (omega arith);
    stops = stop;
  }

  go_on :
      (w : Inner Text Cmd) (l : Leader) (log : List (LogEntry Cmd)) (m c : ℕ)
      → Committable w l log (suc w.commit_index)
      → Commits (record w { commit_index = suc w.commit_index }) l log m c
      → Commits w l log m c
  unfolding quorum
  go_on w l log m c here r = record {
    grows = omega (arith, r.grows);
    bounded = r.bounded;
    sound = λ i above below. elim (Bool-cases (i == suc w.commit_index)) [
      | inl first ↦ subst (Committable w l log) (ground arith) here
      | inr later ↦ r.sound i (ground arith) below
    ];
    stops = r.stops;
  }

  not_Committable :
      (w : Inner Text Cmd) (l : Leader) (log : List (LogEntry Cmd)) (x : LogEntry Cmd) (i : ℕ)
      → entry_at log i ≡ some x
      → x.term ≢ w.storage.current_term
      → ¬ Committable w l log i
  not_Committable w l log x i here foreign (held, (y, there, own)) = ground arith

module _ {Text Cmd : Type 0} ⦃codec : Codec Text Cmd⦄ where
  range_few :
      (w : Inner Text Cmd) (l : Leader) (k : ℕ) (ns : List ℕ)
      → ¬ (quorum w ≤ agree l k + 1)
      → commit_range w l (k ∷ ns) ≡ ok w
  unfolding commit_range
  range_few w l k ns few = ground arith

  range_foreign :
      (w : Inner Text Cmd) (l : Leader) (x : LogEntry Cmd) (k : ℕ) (ns : List ℕ)
      → get_log w.storage k ≡ ok (some x)
      → x.term ≢ w.storage.current_term
      → commit_range w l (k ∷ ns) ≡ ok w
  unfolding commit_range
  range_foreign w l x k ns found foreign = ground arith

  range_own :
      (w : Inner Text Cmd) (l : Leader) (x : LogEntry Cmd) (k : ℕ) (ns : List ℕ)
      → quorum w ≤ agree l k + 1
      → get_log w.storage k ≡ ok (some x)
      → x.term ≡ w.storage.current_term
      → commit_range w l (k ∷ ns) ≡ commit_range (record w { commit_index = k }) l ns
  unfolding commit_range quorum
  range_own w l x k ns held found own = ground arith

  next_lem :
      (w : Inner Text Cmd) (l : Leader) (log : List (LogEntry Cmd)) (n k : ℕ)
      → Holds w.storage log
      → k ≡ suc w.commit_index
      → w.commit_index + suc n ≤ length log
      → (x : LogEntry Cmd) × (entry_at log k ≡ some x)
      → (c : ℕ) × (commit_range (record w { commit_index = k }) l (count_up (k + 1) n)
          ≡ ok (record w { commit_index = c }))
        × Commits (record w { commit_index = k }) l log (k + n) c
      → (c : ℕ) × (commit_range w l (k ∷ count_up (k + 1) n) ≡ ok (record w { commit_index = c }))
        × Commits w l log (w.commit_index + suc n) c
  next_lem w l log n k h e room (x, here) (c, rest, commits) =
      let read = get_log_lem w.storage log k h ∙ ap (λ o. ok o) here in
      elim (Bool-cases (leb (quorum w) (agree l k + 1))) [
        | inr few ↦ (
          w.commit_index,
          range_few w l k (count_up (k + 1) n) (ground arith),
          stay w l log (w.commit_index + suc n) (omega arith) (λ more can. ground (arith, can.0)),
        )
        | inl held ↦ elim (Bool-cases (x.term == w.storage.current_term)) [
          | inr foreign ↦ (
            w.commit_index,
            range_foreign w l x k (count_up (k + 1) n) read (ground arith),
            stay w l log (w.commit_index + suc n) (omega arith) (λ more.
                subst (λ j. ¬ Committable w l log j) e
                  (not_Committable w l log x k here (ground arith))),
          )
          | inl own ↦ (
            c,
            range_own w l x k (count_up (k + 1) n) (ground arith) read (ground arith) ∙ rest,
            go_on w l log (w.commit_index + suc n) c
                (subst (Committable w l log) e (ground arith, (x, here, ground arith)))
                (subst
                  (λ j. Commits (record w { commit_index = j }) l log (w.commit_index + suc n) c) e
                  (subst (λ m. Commits (record w { commit_index = k }) l log m c) (omega arith)
                    commits)),
          )
        ]
      ]

  commit_range_lem :
      (w : Inner Text Cmd) (l : Leader) (log : List (LogEntry Cmd)) (n k : ℕ)
      → Holds w.storage log
      → k ≡ suc w.commit_index
      → w.commit_index + n ≤ length log
      → (c : ℕ) × (commit_range w l (count_up k n) ≡ ok (record w { commit_index = c }))
        × Commits w l log (w.commit_index + n) c
  unfolding commit_range
  commit_range_lem w l log zero k h e room = (
    w.commit_index,
    refl,
    stay w l log (w.commit_index + 0) (omega arith) (λ more. absurd (omega arith)),
  )
  commit_range_lem w l log (suc n) k h e room =
      next_lem w l log n k h e room (entry_at-some log k (omega arith) (omega arith)) (
        commit_range_lem (record w { commit_index = k }) l log n (k + 1) h (omega arith)
          (omega arith))

  -- With the commit index within the log, `advance_commit_index` does not panic, and moves the commit index as far, and only as far, as
  -- every index on the way is held by a quorum, the leader included, with an entry of the leader's
  -- own term; it changes nothing else of the node, and of the leader only the waiting clients.
  pub advance_commit_index_lem :
      (w : Inner Text Cmd) (l : Leader) (log : List (LogEntry Cmd))
      → Holds w.storage log
      → w.commit_index ≤ length log
      → w.commit_index + 1 < 2 ^ 64
      → (c : ℕ) × (l' : Leader) × (out : List (Effect Cmd)) × (advance_commit_index w l
          ≡ ok (record w { commit_index = c }, l', out))
        × Commits w l log (length log) c
        × (l'.next_indices ≡ l.next_indices)
        × (l'.match_indices ≡ l.match_indices)
        × (l'.in_flight_peers ≡ l.in_flight_peers)
  unfolding advance_commit_index
  advance_commit_index_lem w l log h within room =
      let next = add64 w.commit_index 1 in
      let n = length log - w.commit_index in
      let (c, ranged, commits) = commit_range_lem w l log n next h (omega arith) (omega arith) in
      let acks = ack_range {Cmd = Cmd} l (range_inclusive next c) in
      let size : w.storage.last_log_index + 1 - next ≡ n = omega (arith, h.last) in
      let kept = ack_range_keeps Cmd l (range_inclusive next c) in
      (
        c,
        acks.0,
        acks.1,
        rw size (rw ranged refl),
        subst (λ m. Commits w l log m c) (omega arith) commits,
        kept.0,
        kept.1,
        kept.2,
      )
