-- ===== src/Raft/Replication/Reply.antt =====
-- `handle_append_entries` as a whole: when it refuses, when it accepts, and what it then holds.
use wraft.Base.{
  ◌==◌, Bool-cases, ◌∙◌, subst, Option-cases, ℕ, ◌+◌, ◌<◌, ◌≤◌, ◌^◌, ◌≡◌, ◌≢◌, refl, ◌⊎◌, inl, inr,
  true, false, Option, none, some, List, ◌∷◌, arith, Outcome, ok, panic, length, All,
}
use wraft.Raft.Types.{LogEntry, FitsU64, AppendEntriesRequest}
use wraft.Raft.Storage.{Codec, Storage}
use wraft.Raft.Storage.Log.{entry_at, Holds, Keeps, get_log_lem}
use wraft.Raft.Worker.{Inner, store_entries, accept_entries, handle_append_entries, follow_commit}
use wraft.Raft.Replication.{merge}
use wraft.Raft.Replication.Refine.{entry_at-lt, Refines, store_entries_lem}
use wraft.Raft.Replication.Agreement.{
  Consecutive, Agrees, Compatible, merge_before, merge_agrees, merge_total, merge_conflict,
}
use wraft.Raft.Votes.Handlers.{follow_commit-storage}

module _ {Cmd : Type 0} where
  -- The log has the entry before the request's entries, with the request's term for it.
  abbrev pub Matches : List (LogEntry Cmd) → AppendEntriesRequest Cmd → Type 0
  Matches log req =
      (req.prev_log_index ≡ 0)
      ⊎ ((x : LogEntry Cmd) × (entry_at log req.prev_log_index ≡ some x)
          × (x.term ≡ req.prev_log_term))

  pub Matches-le :
      (log : List (LogEntry Cmd)) (req : AppendEntriesRequest Cmd)
      → Matches log req
      → req.prev_log_index ≤ length log
  Matches-le log req (inl first) = omega arith
  Matches-le log req (inr (x, here, same)) =
      omega (arith, entry_at-lt log req.prev_log_index x here)

  not_Matches :
      (log : List (LogEntry Cmd)) (req : AppendEntriesRequest Cmd)
      → req.prev_log_index ≢ 0
      → ((x : LogEntry Cmd)
          → entry_at log req.prev_log_index ≡ some x
          → ¬ (x.term ≡ req.prev_log_term))
      → ¬ Matches log req
  not_Matches log req later other (inl first) = later first
  not_Matches log req later other (inr (x, here, same)) = other x here same

  pub Matches-cases :
      (log : List (LogEntry Cmd)) (req : AppendEntriesRequest Cmd)
      → Matches log req ⊎ (¬ Matches log req)
  Matches-cases log req = elim (Bool-cases (req.prev_log_index == 0)) [
    | inl first ↦ inl (inl (ground arith))
    | inr later ↦ elim (Option-cases (entry_at log req.prev_log_index)) [
      | inl gone ↦ inr (not_Matches log req (ground arith) (λ x here same. ground arith))
      | inr (x, here) ↦ elim (Bool-cases (x.term == req.prev_log_term)) [
        | inl same ↦ inl (inr (x, here, ground arith))
        | inr other ↦ inr (not_Matches log req (ground arith) (λ y there same. ground arith))
      ]
    ]
  ]

module _ {Text Cmd : Type 0} ⦃codec : Codec Text Cmd⦄ where
  -- A request from an older term, or whose previous entry the log lacks or has under another term,
  -- is refused with the node's term, and the node stays as it is.
  pub append_refused :
      (w : Inner Text Cmd) (req : AppendEntriesRequest Cmd) (log : List (LogEntry Cmd))
      → Holds w.storage log
      → (req.term < w.storage.current_term) ⊎ (¬ Matches log req)
      → handle_append_entries w req
        ≡ ok (w, record { term = w.storage.current_term; success = false })
  unfolding handle_append_entries
  append_refused w req log h (inl old) = ground arith
  append_refused w req log h (inr differs) =
      let there : ¬ (req.prev_log_index ≡ 0) = λ e. differs (inl e) in
      elim (Option-cases (entry_at log req.prev_log_index)) [
        | inl gone ↦ ground (arith, get_log_lem w.storage log req.prev_log_index h)
        | inr (x, here) ↦
            let other : ¬ (x.term ≡ req.prev_log_term) = λ e. differs (inr (x, here, e)) in
            ground (arith, get_log_lem w.storage log req.prev_log_index h)
      ]

  -- The other requests are stored.
  pub accepted :
      (w : Inner Text Cmd) (req : AppendEntriesRequest Cmd) (log : List (LogEntry Cmd))
      → Holds w.storage log
      → w.storage.current_term ≤ req.term
      → Matches log req
      → handle_append_entries w req ≡ accept_entries w req
  unfolding handle_append_entries
  accepted w req log h current m = ground (arith, get_log_lem w.storage log req.prev_log_index h)

  pub stored :
      (w : Inner Text Cmd) (req : AppendEntriesRequest Cmd) (log log' : List (LogEntry Cmd))
      → Holds w.storage log
      → All FitsU64 req.entries
      → length log + length req.entries < 2 ^ 64
      → merge log req.entries ≡ some log'
      → (t : Storage Text Cmd) × (accept_entries w req
          ≡ ok (
            follow_commit (record w { storage = t }) req,
            record { term = w.storage.current_term; success = true },
          ))
        × Holds t log'
        × Keeps w.storage t
  unfolding accept_entries
  stored w req log log' h fits room m =
      go (store_entries w.storage req.entries) (merge log req.entries) refl m
        (store_entries_lem w.storage log req.entries h fits room)
    where
      go :
          (r : Outcome (Storage Text Cmd)) (n : Option (List (LogEntry Cmd)))
          → store_entries w.storage req.entries ≡ r
          → n ≡ some log'
          → Refines w.storage r n
          → (t : Storage Text Cmd) × (accept_entries w req
              ≡ ok (
                follow_commit (record w { storage = t }) req,
                record { term = w.storage.current_term; success = true },
              ))
            × Holds t log'
            × Keeps w.storage t
      go (ok t) (some l) e em f = (t, ground arith, subst (Holds t) (ground arith) f.0, f.1)
      go panic (some l) e em f = absurd f
      go r none e em f = cc

  -- A request of the node's term or a later one, whose previous entry the log has, with entries
  -- that follow one another from there on, fit their machine words, and differ from the log at its
  -- last entry at most, is accepted. The log then agrees with each of the entries, and is unchanged
  -- up to the previous entry; the term and the vote stay.
  pub append_accepted :
      (w : Inner Text Cmd) (req : AppendEntriesRequest Cmd) (log : List (LogEntry Cmd))
      → Holds w.storage log
      → w.storage.current_term ≤ req.term
      → Matches log req
      → Consecutive (req.prev_log_index + 1) req.entries
      → All (Compatible log) req.entries
      → All FitsU64 req.entries
      → length log + length req.entries < 2 ^ 64
      → (w' : Inner Text Cmd) × (log' : List (LogEntry Cmd)) × (handle_append_entries w req
          ≡ ok (w', record { term = w.storage.current_term; success = true }))
        × Holds w'.storage log'
        × All (Agrees log') req.entries
        × ((i : ℕ) → i ≤ req.prev_log_index → entry_at log' i ≡ entry_at log i)
        × Keeps w.storage w'.storage
  append_accepted w req log h current m c compatible fits room =
      let (log', merged) =
        merge_total (req.prev_log_index + 1) log req.entries c (omega (arith, Matches-le log req m))
          (omega arith) compatible in
      let (t, done, holds, keeps) = stored w req log log' h fits room merged in
      (
        follow_commit (record w { storage = t }) req,
        log',
        accepted w req log h current m ∙ done,
        rw follow_commit-storage holds,
        merge_agrees (req.prev_log_index + 1) log log' req.entries c merged,
        (λ i le.
            merge_before (req.prev_log_index + 1) log log' req.entries i c merged (omega arith)),
        rw follow_commit-storage keeps,
      )

  pub not_stored :
      (w : Inner Text Cmd) (req : AppendEntriesRequest Cmd) (log : List (LogEntry Cmd))
      → Holds w.storage log
      → All FitsU64 req.entries
      → length log + length req.entries < 2 ^ 64
      → merge log req.entries ≡ none
      → accept_entries w req ≡ panic
  unfolding accept_entries
  not_stored w req log h fits room m =
      go (store_entries w.storage req.entries) (merge log req.entries) refl m
        (store_entries_lem w.storage log req.entries h fits room)
    where
      go :
          (r : Outcome (Storage Text Cmd)) (n : Option (List (LogEntry Cmd)))
          → store_entries w.storage req.entries ≡ r
          → n ≡ none
          → Refines w.storage r n
          → accept_entries w req ≡ panic
      go panic n e em f = ground arith
      go (ok t) none e em f = absurd f
      go (ok t) (some l) e em f = cc

  -- The panic of `overwrite_log`: a request of the node's term or a later one, whose previous
  -- entry the log has, and whose first entry has another term than the log's entry at its index,
  -- panics whenever the log goes on behind that index.
  pub append_conflict_panics :
      (w : Inner Text Cmd) (req : AppendEntriesRequest Cmd) (log es : List (LogEntry Cmd))
      (e old : LogEntry Cmd)
      → Holds w.storage log
      → w.storage.current_term ≤ req.term
      → Matches log req
      → req.entries ≡ e ∷ es
      → All FitsU64 req.entries
      → length log + length req.entries < 2 ^ 64
      → entry_at log e.idx ≡ some old
      → old.term ≢ e.term
      → e.idx < length log
      → handle_append_entries w req ≡ panic
  append_conflict_panics w req log es e old h current m entries fits room here differs early =
      accepted w req log h current m
      ∙ not_stored w req log h fits room
          (rw entries (merge_conflict log es e old here differs early))
