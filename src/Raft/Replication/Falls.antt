-- ===== src/Raft/Replication/Falls.antt =====
-- The commit index of a follower that takes a request with old entries.
use wraft.Base.{
  ◌+◌, ◌<◌, ◌≤◌, ◌^◌, ◌≡◌, refl, some, List, [], ◌∷◌, ◌++◌, arith, ok, length, last?, All, ap, ◌∙◌,
  true,
}
use wraft.Raft.Types.{LogEntry, FitsU64, AppendEntriesRequest}
use wraft.Raft.Storage.{Codec}
use wraft.Raft.Storage.Log.{Holds}
use wraft.Raft.Worker.{Inner, handle_append_entries, follow_commit}
use wraft.Raft.Replication.Agreement.{Consecutive, Compatible, merge_total}
use wraft.Raft.Replication.Reply.{Matches, Matches-le, accepted, stored}

last?-append : {A : Type 0} (xs : List A) (x : A) → last? (xs ++ x ∷ []) ≡ some x
last?-append [] x = refl
last?-append (y ∷ []) x = refl
last?-append (y ∷ z ∷ xs) x = last?-append (z ∷ xs) x

module _ {Text Cmd : Type 0} ⦃codec : Codec Text Cmd⦄ where
  follow_commit-falls :
      (w : Inner Text Cmd) (req : AppendEntriesRequest Cmd) (e : LogEntry Cmd)
      → last? req.entries ≡ some e
      → e.idx < w.commit_index
      → w.commit_index < req.leader_commit
      → (follow_commit w req).commit_index ≡ e.idx
  unfolding follow_commit
  follow_commit-falls w req e here old ahead = ground (arith, here)

  -- A commit index that falls: when a follower has committed entry `e` and more, and the leader has
  -- committed still more, a request that ends with entry `e`, from the node's term or a later one,
  -- whose previous entry the log has, with entries that follow one another from there on, fit their
  -- machine words, and differ from the log at its last entry at most, is accepted with a success,
  -- and the follower's commit index is the index of `e` again.
  pub commit_falls :
      (w : Inner Text Cmd) (req : AppendEntriesRequest Cmd) (log es : List (LogEntry Cmd))
      (e : LogEntry Cmd)
      → Holds w.storage log
      → w.storage.current_term ≤ req.term
      → Matches log req
      → req.entries ≡ es ++ e ∷ []
      → Consecutive (req.prev_log_index + 1) req.entries
      → All (Compatible log) req.entries
      → All FitsU64 req.entries
      → length log + length req.entries < 2 ^ 64
      → e.idx < w.commit_index
      → w.commit_index < req.leader_commit
      → (w' : Inner Text Cmd) × (handle_append_entries w req
          ≡ ok (w', record { term = w.storage.current_term; success = true }))
        × (w'.commit_index ≡ e.idx)
        × (w'.commit_index < w.commit_index)
  commit_falls w req log es e h current m ends c compatible fits room old ahead =
      let (log', merged) =
        merge_total (req.prev_log_index + 1) log req.entries c (omega (arith, Matches-le log req m))
          (omega arith) compatible in
      let (t, done, holds, keeps) = stored w req log log' h fits room merged in
      let falls : (follow_commit (record w { storage = t }) req).commit_index ≡ e.idx =
        follow_commit-falls (record w { storage = t }) req e (ap last? ends ∙ last?-append es e) old
          ahead in
      (
        follow_commit (record w { storage = t }) req,
        accepted w req log h current m ∙ done,
        falls,
        omega (arith, falls, old),
      )
