-- ===== src/Raft/Replication/Refine.antt =====
-- The loop of `handle_append_entries` over a request's entries, beside `merge`.
use wraft.Base.{
  get_elem?-lt, ◌≢◌, ℕ, zero, suc, ◌+◌, ◌-◌, ◌<◌, ◌≤◌, ◌^◌, ◌≡◌, refl, ◌⊎◌, inl, inr, Option, none,
  some, List, [], ◌∷◌, ◌++◌, arith, Outcome, ok, panic, Bool-cases, Option-cases, ◌==◌, length,
  take, drop, length-append, take-append-drop, length-take, length-drop, All,
}
use wraft.Raft.Types.{LogEntry, FitsU64}
use wraft.Raft.Storage.{increment_last_log_index, Codec, Storage, append_log, overwrite_log}
use wraft.Raft.Storage.Log.{
  entry_at, Holds, Keeps, get_log_lem, append_log_lem, overwrite_log_lem, overwrite_log_panics,
  Keeps-trans,
}
use wraft.Raft.Worker.{store_entry, store_entries}
use wraft.Raft.Replication.{merge_entry, merge}

pub entry_at-lt :
    {Cmd : Type 0} (log : List (LogEntry Cmd)) (idx : ℕ) (d : LogEntry Cmd)
    → entry_at log idx ≡ some d
    → (idx ≤ length log) × (idx ≢ 0)
entry_at-lt log zero d h = cc
entry_at-lt log (suc i) d h = ground (arith, get_elem?-lt log i h)

-- An entry makes the log longer by one at most.
length-merge_entry :
    {Cmd : Type 0} (log log' : List (LogEntry Cmd)) (e : LogEntry Cmd)
    → merge_entry log e ≡ some log'
    → length log' ≤ length log + 1
unfolding merge_entry
length-merge_entry log log' e h = ground (
  arith,
  length-append log (e ∷ []),
  length-append (take (e.idx - 1) log) (e ∷ []),
  length-take (e.idx - 1) log,
)

module _ {Text Cmd : Type 0} ⦃codec : Codec Text Cmd⦄ where
  -- The storage that results holds the log that results, with the term and the vote of before; or
  -- the code panics and there is no log.
  abbrev pub Refines :
      Storage Text Cmd → Outcome (Storage Text Cmd) → Option (List (LogEntry Cmd)) → Type 0
  Refines s (ok t) (some log) = Holds t log × Keeps s t
  Refines s panic none = Unit {0}
  Refines s (ok t) none = ⊥
  Refines s panic (some log) = ⊥

  Refines-ok :
      (s t : Storage Text Cmd) (r : Outcome (Storage Text Cmd)) (m : Option (List (LogEntry Cmd)))
      (log : List (LogEntry Cmd))
      → r ≡ ok t
      → m ≡ some log
      → Holds t log
      → Keeps s t
      → Refines s r m
  Refines-ok s t r m log er em h k = rw (er, em) (h, k)

  Refines-panic :
      (s : Storage Text Cmd) (r : Outcome (Storage Text Cmd)) (m : Option (List (LogEntry Cmd)))
      → r ≡ panic
      → m ≡ none
      → Refines s r m
  Refines-panic s r m er em = rw (er, em) tt

  Refines-cases :
      (s : Storage Text Cmd) (r : Outcome (Storage Text Cmd)) (m : Option (List (LogEntry Cmd)))
      → Refines s r m
      → ((t : Storage Text Cmd) × (log : List (LogEntry Cmd)) × (r ≡ ok t)
          × (m ≡ some log)
          × Holds t log
          × Keeps s t)
        ⊎ ((r ≡ panic) × (m ≡ none))
  Refines-cases s (ok t) (some log) h = inl (t, log, refl, refl, h.0, h.1)
  Refines-cases s panic none h = inr (refl, refl)
  Refines-cases s (ok t) none h = absurd h
  Refines-cases s panic (some log) h = absurd h

  Refines-trans :
      (s t : Storage Text Cmd) (r : Outcome (Storage Text Cmd)) (m : Option (List (LogEntry Cmd)))
      → Keeps s t
      → Refines t r m
      → Refines s r m
  Refines-trans s t (ok u) (some log) k h = (h.0, Keeps-trans k h.1)
  Refines-trans s t panic none k h = tt
  Refines-trans s t (ok u) none k h = h
  Refines-trans s t panic (some log) k h = h

  append_log_panics :
      (s : Storage Text Cmd) (log : List (LogEntry Cmd)) (e : LogEntry Cmd)
      → Holds s log
      → length log + 1 < 2 ^ 64
      → e.idx ≢ length log + 1
      → append_log s e ≡ panic
  unfolding append_log increment_last_log_index
  append_log_panics s log e h room ne = ground (arith, h.last)

  missing_entry :
      (s : Storage Text Cmd) (log : List (LogEntry Cmd)) (e : LogEntry Cmd)
      → Holds s log
      → FitsU64 e
      → length log + 1 < 2 ^ 64
      → entry_at log e.idx ≡ none
      → Refines s (store_entry s e) (merge_entry log e)
  unfolding store_entry merge_entry
  missing_entry s log e h fits room gone = elim (Bool-cases (e.idx == length log + 1)) [
    | inl next ↦
        let (t, done, holds, keeps) = append_log_lem s log e h fits (ground arith) in
        Refines-ok s t _ _ (log ++ e ∷ []) (ground (arith, get_log_lem s log e.idx h))
          (ground arith) holds keeps
    | inr other ↦
        Refines-panic s _ _
          (ground (arith, get_log_lem s log e.idx h, append_log_panics s log e h room))
          (ground arith)
  ]

  replaced_entry :
      (s : Storage Text Cmd) (log : List (LogEntry Cmd)) (e : LogEntry Cmd)
      → Holds s log
      → FitsU64 e
      → e.idx ≡ length log
      → e.idx ≢ 0
      → (t : Storage Text Cmd) × (overwrite_log s e ≡ ok t)
        × Holds t (take (e.idx - 1) log ++ e ∷ [])
        × Keeps s t
  replaced_entry s log e h fits last ne =
      overwrite_log_lem s (take (e.idx - 1) log) (drop (e.idx - 1) log) e
        (rw (take-append-drop (e.idx - 1) log) h) (omega (arith, length-drop (e.idx - 1) log)) fits
        (omega (arith, length-take (e.idx - 1) log (omega arith)))

  present_entry :
      (s : Storage Text Cmd) (log : List (LogEntry Cmd)) (e old : LogEntry Cmd)
      → Holds s log
      → FitsU64 e
      → entry_at log e.idx ≡ some old
      → Refines s (store_entry s e) (merge_entry log e)
  unfolding store_entry merge_entry
  present_entry s log e old h fits here = elim (Bool-cases (old.term == e.term)) [
    | inl same ↦
        Refines-ok s s _ _ log (ground (arith, get_log_lem s log e.idx h)) (ground arith) h
          (record { key = refl; term = refl; vote = refl })
    | inr differs ↦ elim (Bool-cases (e.idx == length log)) [
      | inl last ↦
          let (t, done, holds, keeps) =
            replaced_entry s log e h fits (ground arith) (entry_at-lt log e.idx old here).1 in
          Refines-ok s t _ _ (take (e.idx - 1) log ++ e ∷ [])
            (ground (arith, get_log_lem s log e.idx h)) (ground arith) holds keeps
      | inr early ↦
          let before : e.idx < s.last_log_index =
            ground (arith, entry_at-lt log e.idx old here, h.last) in
          Refines-panic s _ _
            (ground (arith, get_log_lem s log e.idx h, overwrite_log_panics s e (inl before)))
            (ground arith)
    ]
  ]

  -- One round of the loop.
  store_entry_lem :
      (s : Storage Text Cmd) (log : List (LogEntry Cmd)) (e : LogEntry Cmd)
      → Holds s log
      → FitsU64 e
      → length log + 1 < 2 ^ 64
      → Refines s (store_entry s e) (merge_entry log e)
  store_entry_lem s log e h fits room = elim (Option-cases (entry_at log e.idx)) [
    | inl gone ↦ missing_entry s log e h fits room gone
    | inr (old, here) ↦ present_entry s log e old h fits here
  ]

  -- For entries whose numbers fit their machine words, with room for them behind the log, the loop
  -- over a request's entries does to the stored log what `merge` does to the list, keeps
  -- the term and the vote, and panics exactly where `merge` has no result.
  pub store_entries_lem :
      (s : Storage Text Cmd) (log es : List (LogEntry Cmd))
      → Holds s log
      → All FitsU64 es
      → length log + length es < 2 ^ 64
      → Refines s (store_entries s es) (merge log es)
  unfolding store_entries merge
  store_entries_lem s log [] h fits room = (h, record { key = refl; term = refl; vote = refl })
  store_entries_lem s log (e ∷ es) h fits room =
      elim (Refines-cases s (store_entry s e) (merge_entry log e)
        (store_entry_lem s log e h fits.0 (omega arith))) [
          | inl (t, log', stored, merged, holds, keeps) ↦
              rw (stored, merged, merge)
                (Refines-trans s t (store_entries t es) (merge log' es) keeps (
                  store_entries_lem t log' es holds fits.1
                    (omega (arith, length-merge_entry log log' e merged))))
          | inr (stopped, none_left) ↦ rw (stopped, none_left, merge) tt
        ]
