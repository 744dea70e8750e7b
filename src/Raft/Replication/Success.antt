-- ===== src/Raft/Replication/Success.antt =====
-- What a reply of success by `handle_append_entries` says of the node's log.
use wraft.Base.{
  ℕ, ◌+◌, ◌<◌, ◌≤◌, ◌^◌, ◌≡◌, sym, subst, ◌∙◌, inl, inr, some, true, false, List, arith, ok, length,
  All, ltb, ltb→lt, Bool-cases, Option-cases,
}
use wraft.Raft.Types.{LogEntry, FitsU64, AppendEntriesRequest, AppendEntriesResponse}
use wraft.Raft.Storage.{Codec}
use wraft.Raft.Storage.Log.{entry_at, Holds}
use wraft.Raft.Worker.{Inner, accept_entries, handle_append_entries}
use wraft.Raft.Replication.{merge}
use wraft.Raft.Replication.Agreement.{Consecutive, Agrees, merge_before, merge_agrees}
use wraft.Raft.Replication.Reply.{
  Matches, Matches-cases, append_refused, accepted, stored, not_stored,
}
use wraft.Raft.Votes.Handlers.{follow_commit-storage}

module _ {Text Cmd : Type 0} ⦃codec : Codec Text Cmd⦄ where
  no_success :
      (w w' : Inner Text Cmd) (req : AppendEntriesRequest Cmd) (resp : AppendEntriesResponse)
      → handle_append_entries w req ≡ ok (w', resp)
      → resp.success ≡ true
      → handle_append_entries w req
        ≡ ok (w, record { term = w.storage.current_term; success = false })
      → ⊥
  no_success w w' req resp replied good refused = ground arith

  held :
      (w w' : Inner Text Cmd) (req : AppendEntriesRequest Cmd) (resp : AppendEntriesResponse)
      (log : List (LogEntry Cmd))
      → Holds w.storage log
      → Consecutive (req.prev_log_index + 1) req.entries
      → All FitsU64 req.entries
      → length log + length req.entries < 2 ^ 64
      → accept_entries w req ≡ ok (w', resp)
      → (log' : List (LogEntry Cmd)) × Holds w'.storage log'
        × All (Agrees log') req.entries
        × ((i : ℕ) → i ≤ req.prev_log_index → entry_at log' i ≡ entry_at log i)
  held w w' req resp log h c fits room replied = elim (Option-cases (merge log req.entries)) [
    | inl conflict ↦ ground (arith, not_stored w req log h fits room conflict)
    | inr (log', merged) ↦
        let (t, done, holds, keeps) = stored w req log log' h fits room merged in
        let same : t ≡ w'.storage =
          ground (arith, follow_commit-storage (record w { storage = t }) req) in
        (
          log',
          subst (λ s. Holds s log') same holds,
          merge_agrees (req.prev_log_index + 1) log log' req.entries c merged,
          λ i le.
              merge_before (req.prev_log_index + 1) log log' req.entries i c merged (omega arith),
        )
  ]

  -- Whatever a reply of success says is so: the request was of the node's term or a later one, the
  -- log had its previous entry, and the log now agrees with each of its entries, which follow one
  -- another, and is unchanged up to the previous one.
  pub append_success :
      (w w' : Inner Text Cmd) (req : AppendEntriesRequest Cmd) (resp : AppendEntriesResponse)
      (log : List (LogEntry Cmd))
      → Holds w.storage log
      → Consecutive (req.prev_log_index + 1) req.entries
      → All FitsU64 req.entries
      → length log + length req.entries < 2 ^ 64
      → handle_append_entries w req ≡ ok (w', resp)
      → resp.success ≡ true
      → (w.storage.current_term ≤ req.term)
        × Matches log req
        × ((log' : List (LogEntry Cmd)) × Holds w'.storage log'
            × All (Agrees log') req.entries
            × ((i : ℕ) → i ≤ req.prev_log_index → entry_at log' i ≡ entry_at log i))
  append_success w w' req resp log h c fits room replied good =
      elim (Bool-cases (ltb req.term w.storage.current_term)) [
        | inl old ↦ absurd (
            no_success w w' req resp replied good
              (append_refused w req log h (inl (ltb→lt req.term _ old))))
        | inr current ↦ elim (Matches-cases log req) [
          | inr differs ↦
              absurd
                (no_success w w' req resp replied good (append_refused w req log h (inr differs)))
          | inl m ↦
              let same = accepted w req log h (ground arith) m in
              (ground arith, m, held w w' req resp log h c fits room (sym same ∙ replied))
        ]
      ]

  -- With a reply of success the log has become the merge of the log with the entries.
  pub success-merge :
      (w w' : Inner Text Cmd) (req : AppendEntriesRequest Cmd) (resp : AppendEntriesResponse)
      (log : List (LogEntry Cmd))
      → Holds w.storage log
      → Consecutive (req.prev_log_index + 1) req.entries
      → All FitsU64 req.entries
      → length log + length req.entries < 2 ^ 64
      → handle_append_entries w req ≡ ok (w', resp)
      → resp.success ≡ true
      → Matches log req
        × ((log' : List (LogEntry Cmd)) × (merge log req.entries ≡ some log')
            × Holds w'.storage log')
  success-merge w w' req resp log h c fits room replied good =
      let (current, m, changed) = append_success w w' req resp log h c fits room replied good in
      let accepts = sym (accepted w req log h current m) ∙ replied in
      elim (Option-cases (merge log req.entries)) [
        | inl conflict ↦ absurd (ground (arith, accepts, not_stored w req log h fits room conflict))
        | inr (log', merged) ↦
            let (t, done, holds, keeps) = stored w req log log' h fits room merged in
            let same : t ≡ w'.storage =
              ground (arith, accepts, done, follow_commit-storage (record w { storage = t }) req) in
            (m, (log', merged, subst (λ s. Holds s log') same holds))
      ]
