-- ===== src/Raft/Replication/Agreement.antt =====
-- The lists that `merge` makes, entry by entry.
use wraft.Base.{
  true, false, append_assoc, append-nil, get_elem?-some, ℕ, zero, suc, ◌+◌, ◌-◌, ◌<◌, ◌≤◌, ◌≡◌,
  refl, sym, ◌∙◌, ◌⊎◌, inl, inr, ◌≢◌, none, some, List, [], ◌∷◌, ◌++◌, arith, Bool-cases,
  Option-cases, ◌==◌, length, take, length-append, length-take, get_elem?-take,
  get_elem?-append_left, get_elem?-append_right, get_elem?-none, All,
}
use wraft.Raft.Types.{LogEntry}
use wraft.Raft.Storage.Log.{entry_at}
use wraft.Raft.Replication.{merge_entry, merge}
use wraft.Raft.Replication.Refine.{entry_at-lt}

module _ {Cmd : Type 0} where
  -- The entries carry the indices from `k` on, one after the other.
  abbrev pub Consecutive : ℕ → List (LogEntry Cmd) → Type 0
  Consecutive k [] = Unit {0}
  Consecutive k (e ∷ es) = (e.idx ≡ k) × Consecutive (suc k) es

  -- The log has an entry of the same term at the entry's index.
  abbrev pub Agrees : List (LogEntry Cmd) → LogEntry Cmd → Type 0
  Agrees log e = (x : LogEntry Cmd) × (entry_at log e.idx ≡ some x) × (x.term ≡ e.term)

  entry_at-append :
      (xs ys : List (LogEntry Cmd)) (i : ℕ) → i ≤ length xs → entry_at (xs ++ ys) i ≡ entry_at xs i
  entry_at-append xs ys zero h = refl
  entry_at-append xs ys (suc i) h =
      let (x, here) = get_elem?-some xs i h in get_elem?-append_left xs ys i here ∙ sym here

  pub entry_at-next :
      (xs : List (LogEntry Cmd)) (e : LogEntry Cmd) (i : ℕ)
      → i ≡ length xs + 1
      → entry_at (xs ++ e ∷ []) i ≡ some e
  entry_at-next xs e zero h = absurd (omega arith)
  entry_at-next xs e (suc i) h =
      let same : i ≡ length xs + 0 = omega arith in rw same (get_elem?-append_right xs (e ∷ []) 0)

  entry_at-take :
      (n : ℕ) (xs : List (LogEntry Cmd)) (i : ℕ) → i ≤ n → entry_at (take n xs) i ≡ entry_at xs i
  entry_at-take n xs zero h = refl
  entry_at-take n xs (suc i) h = get_elem?-take n xs i (omega arith)

  -- Merging an entry leaves what stands before its index.
  pub merge_entry_before :
      (log log' : List (LogEntry Cmd)) (e : LogEntry Cmd) (i : ℕ)
      → merge_entry log e ≡ some log'
      → i < e.idx
      → entry_at log' i ≡ entry_at log i
  unfolding merge_entry
  merge_entry_before log log' e i h lt = ground (
    arith,
    entry_at-append log (e ∷ []) i,
    entry_at-append (take (e.idx - 1) log) (e ∷ []) i,
    entry_at-take (e.idx - 1) log i,
    length-take (e.idx - 1) log,
  )

  -- At its index the log then has an entry of its term.
  merge_entry_at :
      (log log' : List (LogEntry Cmd)) (e : LogEntry Cmd)
      → merge_entry log e ≡ some log'
      → Agrees log' e
  unfolding merge_entry
  merge_entry_at log log' e h = elim (Option-cases (entry_at log e.idx)) [
    | inl gone ↦ (e, ground (arith, entry_at-next log e e.idx), refl)
    | inr (old, here) ↦ elim (Bool-cases (old.term == e.term)) [
      | inl same ↦ (old, ground arith, ground arith)
      | inr differs ↦ (
        e,
        ground (
          arith,
          entry_at-next (take (e.idx - 1) log) e e.idx,
          length-take (e.idx - 1) log,
          entry_at-lt log e.idx old here,
        ),
        refl,
      )
    ]
  ]

  pub merge_before :
      (k : ℕ) (log log' es : List (LogEntry Cmd)) (i : ℕ)
      → Consecutive k es
      → merge log es ≡ some log'
      → i < k
      → entry_at log' i ≡ entry_at log i
  unfolding merge
  merge_before k log log' [] i c h lt = ground arith
  merge_before k log log' (e ∷ es) i c h lt = elim (Option-cases (merge_entry log e)) [
    | inl stopped ↦ ground arith
    | inr (mid, first) ↦
        merge_before (suc k) mid log' es i c.1 (ground arith) (omega arith)
        ∙ merge_entry_before log mid e i first (omega arith)
  ]

  pub merge_agrees :
      (k : ℕ) (log log' es : List (LogEntry Cmd))
      → Consecutive k es
      → merge log es ≡ some log'
      → All (Agrees log') es
  unfolding merge
  merge_agrees k log log' [] c h = tt
  merge_agrees k log log' (e ∷ es) c h = elim (Option-cases (merge_entry log e)) [
    | inl stopped ↦ ground arith
    | inr (mid, first) ↦
        let (x, here, same) = merge_entry_at log mid e first in
        (
          (x, merge_before (suc k) mid log' es e.idx c.1 (ground arith) (omega arith) ∙ here, same),
          merge_agrees (suc k) mid log' es c.1 (ground arith),
        )
  ]

  pub entry_at-beyond : (log : List (LogEntry Cmd)) (i : ℕ) → length log < i → entry_at log i ≡ none
  entry_at-beyond log zero h = refl
  entry_at-beyond log (suc i) h = get_elem?-none log i (omega arith)

  merge_entry_next :
      (log : List (LogEntry Cmd)) (e : LogEntry Cmd)
      → e.idx ≡ length log + 1
      → merge_entry log e ≡ some (log ++ e ∷ [])
  unfolding merge_entry
  merge_entry_next log e h = ground (arith, entry_at-beyond log e.idx)

  -- A run of entries right behind the log is appended.
  pub merge_behind :
      (log es : List (LogEntry Cmd)) (k : ℕ)
      → k ≡ length log + 1
      → Consecutive k es
      → merge log es ≡ some (log ++ es)
  unfolding merge
  merge_behind log [] k e c = rw append-nil
  merge_behind log (e ∷ es) k h c =
      let next = merge_entry_next log e (omega arith) in
      let rest =
        merge_behind (log ++ e ∷ []) es (suc k) (omega (arith, length-append log (e ∷ []))) c.1 in
      rw (next, merge, ← append_assoc log (e ∷ []) es) rest

  pub entry_at-gone :
      (log : List (LogEntry Cmd)) (i : ℕ) → entry_at log i ≡ none → (i ≡ 0) ⊎ (length log < i)
  entry_at-gone log zero h = inl refl
  entry_at-gone log (suc i) h = ground (arith, get_elem?-some log i)

  merge_entry_same :
      (log : List (LogEntry Cmd)) (e old : LogEntry Cmd)
      → entry_at log e.idx ≡ some old
      → (old.term == e.term) ≡ true
      → merge_entry log e ≡ some log
  unfolding merge_entry
  merge_entry_same log e old here same = ground arith

  merge_entry_last :
      (log : List (LogEntry Cmd)) (e old : LogEntry Cmd)
      → entry_at log e.idx ≡ some old
      → (old.term == e.term) ≡ false
      → e.idx ≡ length log
      → (merge_entry log e ≡ some (take (e.idx - 1) log ++ e ∷ []))
        × (length (take (e.idx - 1) log ++ e ∷ []) ≡ e.idx)
  unfolding merge_entry
  merge_entry_last log e old here differs last = (
    ground arith,
    ground (
      arith,
      length-append (take (e.idx - 1) log) (e ∷ []),
      length-take (e.idx - 1) log,
      entry_at-lt log e.idx old here,
    ),
  )

  -- An entry that differs from the log's before the log's end cannot be merged.
  pub merge_conflict :
      (log es : List (LogEntry Cmd)) (e old : LogEntry Cmd)
      → entry_at log e.idx ≡ some old
      → old.term ≢ e.term
      → e.idx < length log
      → merge log (e ∷ es) ≡ none
  unfolding merge merge_entry
  merge_conflict log es e old here differs early = ground arith

  -- The entry differs from the log's in its term only where the log ends.
  abbrev pub Compatible : List (LogEntry Cmd) → LogEntry Cmd → Type 0
  Compatible log e =
      (old : LogEntry Cmd)
      → entry_at log e.idx ≡ some old
      → (old.term ≡ e.term) ⊎ (e.idx ≡ length log)

  -- A run of entries that starts in the log or right behind it, and that differs from the log at
  -- the log's last entry at most, can be merged.
  pub merge_total :
      (k : ℕ) (log es : List (LogEntry Cmd))
      → Consecutive k es
      → k ≤ length log + 1
      → 0 < k
      → All (Compatible log) es
      → (log' : List (LogEntry Cmd)) × (merge log es ≡ some log')
  unfolding merge
  merge_total k log [] c h pos ok_all = (log, refl)
  merge_total k log (e ∷ es) c h pos ok_all = elim (Option-cases (entry_at log e.idx)) [
    | inl gone ↦
        let behind : k ≡ length log + 1 = ground (arith, entry_at-gone log e.idx gone, c.0) in
        (log ++ e ∷ es, merge_behind log (e ∷ es) k behind c)
    | inr (old, here) ↦ elim (Bool-cases (old.term == e.term)) [
      | inl same ↦
          let kept = merge_entry_same log e old here same in
          let (log', rest) =
            merge_total (suc k) log es c.1 (ground (arith, entry_at-lt log e.idx old here, c.0))
              (omega arith) ok_all.1 in
          (log', rw (kept, merge) rest)
      | inr differs ↦
          let last : e.idx ≡ length log = ground (arith, ok_all.0 old here) in
          let (replaced, size) = merge_entry_last log e old here differs last in
          (
            (take (e.idx - 1) log ++ e ∷ []) ++ es,
            rw (replaced, merge)
                (merge_behind (take (e.idx - 1) log ++ e ∷ []) es (suc k) (omega (arith, size))
                  c.1),
          )
    ]
  ]
