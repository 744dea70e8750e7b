-- ===== src/Raft/Leading/Sharing.antt =====
-- A leader's log and a follower's, over a request that the leader makes of its log.
use wraft.Base.{
  sym, ℕ, suc, zero, ◌+◌, ◌-◌, ◌<◌, ◌^◌, ◌≡◌, refl, subst, true, some, List, [], ◌∷◌, arith, ok,
  length, take, drop, get_elem?, All,
}
use wraft.Raft.Types.{LogEntry, FitsU64, AppendEntriesRequest, AppendEntriesResponse}
use wraft.Raft.Storage.{Codec}
use wraft.Raft.Storage.Log.{entry_at, Holds}
use wraft.Raft.Worker.{Inner, handle_append_entries}
use wraft.Raft.Worker.Leader.{max_batch_size}
use wraft.Raft.Replication.Agreement.{Consecutive}
use wraft.Raft.Replication.Matching.{IsIn, Matching, SameUpTo, merge-Matching, Matches-same}
use wraft.Raft.Replication.Success.{success-merge}
use wraft.Raft.Leading.Progress.{Asks}

module _ {A : Type 0} where
  pub All-drop : (P : A → Type 0) (n : ℕ) (xs : List A) → All P xs → All P (drop n xs)
  All-drop P zero xs h = h
  All-drop P (suc n) [] h = tt
  All-drop P (suc n) (x ∷ xs) (first, h) = All-drop P n xs h

  pub All-take : (P : A → Type 0) (n : ℕ) (xs : List A) → All P xs → All P (take n xs)
  All-take P zero xs h = tt
  All-take P (suc n) [] h = tt
  All-take P (suc n) (x ∷ xs) (first, h) = (first, All-take P n xs h)

  All-get_elem? :
      (P : A → Type 0) (xs : List A) → ((i : ℕ) (x : A) → get_elem? xs i ≡ some x → P x) → All P xs
  All-get_elem? P [] h = tt
  All-get_elem? P (x ∷ xs) h = (h zero x refl, All-get_elem? P xs (λ i y at. h (suc i) y at))

module _ {Text Cmd : Type 0} ⦃codec : Codec Text Cmd⦄ where
  Asks-IsIn :
      (u : Inner Text Cmd) (l : List (LogEntry Cmd)) (next : ℕ) (req : AppendEntriesRequest Cmd)
      → Holds u.storage l
      → Asks u l next req
      → All (IsIn l) req.entries
  Asks-IsIn u l next req h (term, leader, commit, prev, matches, sent, run) =
      let all_in : All (IsIn l) l =
        All-get_elem? (IsIn l) l
          (λ i e at. subst (λ k. entry_at l k ≡ some e) (sym (h.indexed i e at)) at) in
      subst (All (IsIn l)) (sym sent) (
        All-take (IsIn l) max_batch_size (drop (next - 1) l)
          (All-drop (IsIn l) (next - 1) l all_in))

  -- Log Matching over one request: when a node takes, with success, a request that a leader makes of
  -- its log, and the two logs are the same up to any index at which both have an entry of one term,
  -- then that is so of the node's new log as well, and the logs are the same up to the last entry of
  -- the request.
  pub log-Matching :
      (w w' u : Inner Text Cmd) (req : AppendEntriesRequest Cmd) (resp : AppendEntriesResponse)
      (f l : List (LogEntry Cmd)) (next : ℕ)
      → Holds w.storage f
      → Holds u.storage l
      → Asks u l next req
      → Matching f l
      → All FitsU64 req.entries
      → length f + length req.entries < 2 ^ 64
      → handle_append_entries w req ≡ ok (w', resp)
      → resp.success ≡ true
      → (f' : List (LogEntry Cmd)) × Holds w'.storage f'
        × Matching f' l
        × SameUpTo (req.prev_log_index + length req.entries) f' l
  log-Matching w w' u req resp f l next h hl asks matching fits room replied good =
      let (term, leader, commit, prev, matches, sent, run) = asks in
      let run' : Consecutive (req.prev_log_index + 1) req.entries =
        subst (λ k. Consecutive k req.entries) (sym prev) run in
      let (m, (f', merged, holds)) = success-merge w w' req resp f h run' fits room replied good in
      let run'' : Consecutive (suc req.prev_log_index) req.entries =
        subst (λ k. Consecutive k req.entries) (omega arith) run' in
      let (matched, upto) =
        merge-Matching req.prev_log_index f f' l req.entries run'' (Asks-IsIn u l next req hl asks)
          matching (Matches-same f l req m matches matching) merged in
      (f', holds, matched, upto)
