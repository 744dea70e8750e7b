-- ===== src/Raft/Replication/Applied.antt =====
-- `apply_log`, and the commit index of a follower.
use wraft.Base.{
  sym, subst, length-drop, length-take, ℕ, zero, suc, ◌+◌, ◌-◌, ◌<◌, ◌≤◌, ◌^◌, ◌≡◌, refl, inl, inr,
  none, some, List, [], ◌∷◌, ◌++◌, arith, ok, Option-cases, length, get_elem?, take, drop, drop_all,
  drop-get_elem?, get_elem?-some, last?, All, add64,
}
use wraft.Raft.Types.{LogEntry, AppendEntriesRequest}
use wraft.Raft.Storage.{Codec}
use wraft.Raft.Storage.Log.{Holds, sublog_lem}
use wraft.Raft.Worker.{Inner, Effect, send_command, apply_entries, apply_log, follow_commit, idx_or}
use wraft.Raft.Replication.Refine.{entry_at-lt}
use wraft.Raft.Replication.Agreement.{Consecutive, Agrees}

module _ {Cmd : Type 0} where
  -- The commands of entries, as they are sent to the state machine.
  abbrev pub commands : List (LogEntry Cmd) → List (Effect Cmd)
  commands [] = []
  commands (e ∷ es) = send_command e.cmd ∷ commands es

  pub commands-append :
      (xs ys : List (LogEntry Cmd)) → commands (xs ++ ys) ≡ commands xs ++ commands ys
  commands-append [] ys = refl
  commands-append (x ∷ xs) ys = rw (commands-append xs ys)

  last_within :
      (log es : List (LogEntry Cmd)) (d : ℕ)
      → All (Agrees log) es
      → (es ≡ [] → d ≤ length log)
      → idx_or (last? es) d ≤ length log
  last_within log [] d agrees h = h refl
  last_within log (e ∷ []) d agrees h = omega (arith, entry_at-lt log e.idx agrees.0.0 agrees.0.1)
  last_within log (e ∷ f ∷ es) d agrees h = last_within log (f ∷ es) d agrees.1 (λ none_left. cc)

  not_before : (log : List (LogEntry Cmd)) (i : ℕ) → get_elem? log i ≡ none → length log ≤ i
  not_before log i gone = ground (arith, get_elem?-some log i)

  -- A part of a log whose entries stand under their indices is a run of consecutive entries.
  pub slice-Consecutive :
      (log : List (LogEntry Cmd)) (n i : ℕ)
      → ((j : ℕ) (e : LogEntry Cmd) → get_elem? log j ≡ some e → e.idx ≡ suc j)
      → Consecutive (suc i) (take n (drop i log))
  slice-Consecutive log zero i indexed = tt
  slice-Consecutive log (suc n) i indexed = elim (Option-cases (get_elem? log i)) [
    | inl gone ↦ rw (drop_all log i (omega (arith, not_before log i gone))) tt
    | inr (d, here) ↦
        rw (drop-get_elem? log i here) (indexed i d here, slice-Consecutive log n (suc i) indexed)
  ]

  length-slice :
      (log : List (LogEntry Cmd)) (n i : ℕ) → i + n ≤ length log → length (take n (drop i log)) ≡ n
  length-slice log n i h = length-take n (drop i log) (omega (arith, length-drop i log))

module _ {Text Cmd : Type 0} where
  apply_entries_lem :
      (w : Inner Text Cmd) (es : List (LogEntry Cmd))
      → Consecutive (suc w.last_applied) es
      → apply_entries w es ≡ (record w { last_applied = w.last_applied + length es }, commands es)
  unfolding apply_entries
  apply_entries_lem w [] c = ground arith
  apply_entries_lem w (e ∷ es) c =
      let rest : Consecutive (suc e.idx) es = subst (λ k. Consecutive (suc k) es) (sym c.0) c.1 in
      ground (arith, apply_entries_lem (record w { last_applied = e.idx }) es rest)

  -- A commit index within the log stays within the log, if the request's entries are in the log
  -- and a request without entries comes from a leader whose commit index is within it.
  pub follow_commit_within :
      (w : Inner Text Cmd) (req : AppendEntriesRequest Cmd) (log : List (LogEntry Cmd))
      → w.commit_index ≤ length log
      → All (Agrees log) req.entries
      → (req.entries ≡ [] → req.leader_commit ≤ length log)
      → (follow_commit w req).commit_index ≤ length log
  unfolding follow_commit
  follow_commit_within w req log h agrees heartbeat =
      ground (arith, last_within log req.entries req.leader_commit agrees heartbeat)

module _ {Text Cmd : Type 0} ⦃codec : Codec Text Cmd⦄ where
  -- On a node whose commit index lies within its log and not before its last applied index,
  -- `apply_log` sends the commands of the entries behind the last applied one up to the commit
  -- index, each once and in the order of the log, and no others; then the last applied index is
  -- the commit index. It does not panic.
  pub apply_log_lem :
      (w : Inner Text Cmd) (log : List (LogEntry Cmd))
      → Holds w.storage log
      → w.last_applied ≤ w.commit_index
      → w.commit_index ≤ length log
      → w.last_applied + 1 < 2 ^ 64
      → apply_log w
        ≡ ok (
          record w { last_applied = w.commit_index },
          commands (take (w.commit_index - w.last_applied) (drop w.last_applied log)),
        )
  unfolding apply_log
  apply_log_lem w log h applied committed room =
      let first = add64 w.last_applied 1 in
      let size : w.commit_index + 1 - add64 w.last_applied 1 ≡ w.commit_index - w.last_applied =
        omega arith in
      let part = take (w.commit_index - w.last_applied) (drop w.last_applied log) in
      rw
        (sublog_lem w.storage log (w.commit_index + 1 - first) w.last_applied first h (omega arith))
        (rw size (
          ground (
            arith,
            apply_entries_lem w part
                (slice-Consecutive log (w.commit_index - w.last_applied) w.last_applied h.indexed),
            length-slice log (w.commit_index - w.last_applied) w.last_applied (omega arith),
          )))
