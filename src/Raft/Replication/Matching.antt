-- ===== src/Raft/Replication/Matching.antt =====
-- Log Matching between a follower's log and the log that a request of `handle_append_entries` comes
-- from.
use wraft.Base.{
  ℕ, zero, suc, ◌+◌, ◌-◌, ◌<◌, ◌≤◌, ◌≡◌, refl, sym, ◌∙◌, ◌⊎◌, inl, inr, some, List, [], ◌∷◌, arith,
  Bool-cases, Option-cases, ◌==◌, length, take, length-append, length-take, All,
}
use wraft.Raft.Types.{LogEntry, AppendEntriesRequest}
use wraft.Raft.Storage.Log.{entry_at}
use wraft.Raft.Replication.{merge_entry, merge}
use wraft.Raft.Replication.Refine.{entry_at-lt}
use wraft.Raft.Replication.Reply.{Matches}
use wraft.Raft.Replication.Agreement.{Consecutive, merge_entry_before, entry_at-next}

module _ {Cmd : Type 0} where
  -- The logs are the same up to an index.
  abbrev pub SameUpTo : ℕ → List (LogEntry Cmd) → List (LogEntry Cmd) → Type 0
  SameUpTo n f l = (j : ℕ) → j ≤ n → entry_at f j ≡ entry_at l j

  -- Where the logs have entries of one term at one index, they are the same up to there.
  abbrev pub Matching : List (LogEntry Cmd) → List (LogEntry Cmd) → Type 0
  Matching f l =
      (i : ℕ) (x y : LogEntry Cmd)
      → entry_at f i ≡ some x
      → entry_at l i ≡ some y
      → x.term ≡ y.term
      → SameUpTo i f l

  -- The entry is the log's at its index.
  abbrev pub IsIn : List (LogEntry Cmd) → LogEntry Cmd → Type 0
  IsIn l e = entry_at l e.idx ≡ some e

  -- Merging keeps the log, which has an entry of the term, or makes the entry its last.
  merge_entry_cases :
      (f f' : List (LogEntry Cmd)) (e : LogEntry Cmd)
      → merge_entry f e ≡ some f'
      → ((old : LogEntry Cmd) × (entry_at f e.idx ≡ some old) × (old.term ≡ e.term) × (f' ≡ f))
        ⊎ ((length f' ≡ e.idx) × (entry_at f' e.idx ≡ some e))
  unfolding merge_entry
  merge_entry_cases f f' e h = elim (Option-cases (entry_at f e.idx)) [
    | inl gone ↦
        inr (ground (arith, length-append f (e ∷ [])), ground (arith, entry_at-next f e e.idx))
    | inr (old, here) ↦ elim (Bool-cases (old.term == e.term)) [
      | inl same ↦ inl (old, here, ground arith, ground arith)
      | inr differs ↦ inr (
        ground (
          arith,
          length-append (take (e.idx - 1) f) (e ∷ []),
          length-take (e.idx - 1) f,
          entry_at-lt f e.idx old here,
        ),
        ground (
          arith,
          entry_at-next (take (e.idx - 1) f) e e.idx,
          length-take (e.idx - 1) f,
          entry_at-lt f e.idx old here,
        ),
      )
    ]
  ]

  -- Merging an entry of another log, with which the log is the same before the entry, makes them the
  -- same up to it, and they match as before.
  merge_entry-Matching :
      (f f' l : List (LogEntry Cmd)) (e : LogEntry Cmd)
      → IsIn l e
      → Matching f l
      → ((j : ℕ) → j < e.idx → entry_at f j ≡ entry_at l j)
      → merge_entry f e ≡ some f'
      → Matching f' l × SameUpTo e.idx f' l
  merge_entry-Matching f f' l e mine matching before h = elim (merge_entry_cases f f' e h) [
    | inl (old, here, same, kept) ↦ rw kept (matching, matching e.idx old e here mine same)
    | inr (size, there) ↦
        let upto : SameUpTo e.idx f' l = λ j le. elim (Bool-cases (j == e.idx)) [
          | inl at_it ↦ ground (arith, there, mine)
          | inr below ↦ merge_entry_before f f' e j h (ground arith) ∙ before j (ground arith)
        ] in
        (
          (λ i x y at_f at_l same j le. upto j (omega (arith, le, entry_at-lt f' i x at_f, size))),
          upto,
        )
  ]

  pub merge-Matching :
      (k : ℕ) (f f' l es : List (LogEntry Cmd))
      → Consecutive (suc k) es
      → All (IsIn l) es
      → Matching f l
      → SameUpTo k f l
      → merge f es ≡ some f'
      → Matching f' l × SameUpTo (k + length es) f' l
  unfolding merge
  merge-Matching k f f' l [] run mine matching same h =
      let kept : f' ≡ f = ground arith in rw kept (matching, λ j le. same j (omega arith))
  merge-Matching k f f' l (e ∷ es) (at, run) (in_l, mine) matching same h =
      elim (Option-cases (merge_entry f e)) [
        | inl stopped ↦ absurd (ground (arith, stopped))
        | inr (mid, first) ↦
            let (matching', same') =
              merge_entry-Matching f mid l e in_l matching (λ j lt. same j (omega (arith, at)))
                first in
            let (matched, upto) =
              merge-Matching (suc k) mid f' l es run mine matching'
                (λ j le. same' j (omega (arith, at))) (ground (arith, first)) in
            (matched, λ j le. upto j (omega arith))
      ]

  -- Where both logs match a request, they are the same up to its previous entry.
  pub Matches-same :
      (f l : List (LogEntry Cmd)) (req : AppendEntriesRequest Cmd)
      → Matches f req
      → Matches l req
      → Matching f l
      → SameUpTo req.prev_log_index f l
  Matches-same f l req (inl first) other matching zero le = refl
  Matches-same f l req (inl first) other matching (suc j) le = absurd (omega arith)
  Matches-same f l req (inr (x, here, term)) (inl first) matching zero le = refl
  Matches-same f l req (inr (x, here, term)) (inl first) matching (suc j) le = absurd (omega arith)
  Matches-same f l req (inr (x, here, term)) (inr (y, there, term')) matching j le =
      matching req.prev_log_index x y here there (term ∙ sym term') j le
