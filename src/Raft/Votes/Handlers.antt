-- ===== src/Raft/Votes/Handlers.antt =====
-- What each handler of worker.rs does to the node's term and vote.
use wraft.Base.{
  ℕ, ◌+◌, ◌<◌, ◌≤◌, ◌^◌, ◌≡◌, refl, ◌⊎◌, true, false, none, some, List, [], ◌∷◌, arith, ok, >>=-ok,
}
use wraft.Raft.Types.{AppendEntriesResponse, LogEntry, AppendEntriesRequest, RequestVoteRequest}
use wraft.Raft.Storage.{sublog, Codec, Storage, update_term, increment_term, set_current_term}
use wraft.Raft.Worker.{
  Inner, Effect, handle_request_vote, store_entry, store_entries, accept_entries,
  handle_append_entries, follow_commit, apply_log, apply_entries,
}
use wraft.Raft.Worker.Candidate
use wraft.Raft.Votes.{
  VoteKept, set_voted_for_lem, update_term_lem, append_log-vote, overwrite_log-vote,
}

module _ {Text Cmd : Type 0} where
  pub follow_commit-storage :
      (w : Inner Text Cmd) (req : AppendEntriesRequest Cmd)
      → (follow_commit w req).storage ≡ w.storage
  unfolding follow_commit
  follow_commit-storage w req = ground arith

  pub apply_entries-storage :
      (w : Inner Text Cmd) (es : List (LogEntry Cmd)) → (apply_entries w es).0.storage ≡ w.storage
  unfolding apply_entries
  apply_entries-storage w [] = refl
  apply_entries-storage w (e ∷ es) = apply_entries-storage (record w { last_applied = e.idx }) es

module _ {Text Cmd : Type 0} ⦃codec : Codec Text Cmd⦄ where
  -- A granted vote is recorded, in the term that the request names; a refusal changes nothing.
  -- Votes go to candidates of the node's term or later, to whom it is free to give it, and whose
  -- log is at least as long as what it knows to be committed.
  pub handle_request_vote_lem :
      (w : Inner Text Cmd) (req : RequestVoteRequest)
      → let (w', resp) = handle_request_vote w req in
        ((resp.vote_granted ≡ true)
          × (w.storage.current_term ≤ req.term)
          × (w.commit_index ≤ req.last_log_index)
          × ((w.storage.voted_for ≡ none) ⊎ (w.storage.voted_for ≡ some req.candidate))
          × (w'.storage.voted_for ≡ some req.candidate)
          × (w'.storage.current_term ≡ w.storage.current_term))
        ⊎ ((resp.vote_granted ≡ false) × (w' ≡ w))
  unfolding handle_request_vote
  handle_request_vote_lem w req = ground (arith, set_voted_for_lem w.storage (some req.candidate))

  pub handle_request_vote-VoteKept :
      (w : Inner Text Cmd) (req : RequestVoteRequest)
      → VoteKept w.storage (handle_request_vote w req).0.storage
  handle_request_vote-VoteKept w req = ground (arith, handle_request_vote_lem w req)

  pub update_term-VoteKept : (s : Storage Text Cmd) (n : ℕ) → VoteKept s (update_term s n).0
  update_term-VoteKept s n = ground (arith, update_term_lem s n)

  store_entry-vote :
      (s t : Storage Text Cmd) (e : LogEntry Cmd)
      → store_entry s e ≡ ok t
      → (t.current_term ≡ s.current_term) × (t.voted_for ≡ s.voted_for)
  unfolding store_entry
  store_entry-vote s t e h = ground (arith, append_log-vote s t e, overwrite_log-vote s t e)

  store_entries-vote :
      (s t : Storage Text Cmd) (es : List (LogEntry Cmd))
      → store_entries s es ≡ ok t
      → (t.current_term ≡ s.current_term) × (t.voted_for ≡ s.voted_for)
  unfolding store_entries
  store_entries-vote s t [] h = ground arith
  store_entries-vote s t (e ∷ es) h =
      let (r, first, rest) = >>=-ok (store_entry s e) (λ r. store_entries r es) h in
      ground (arith, store_entry-vote s r e first, store_entries-vote r t es rest)

  accept_entries-vote :
      (w w' : Inner Text Cmd) (req : AppendEntriesRequest Cmd) (resp : AppendEntriesResponse)
      → accept_entries w req ≡ ok (w', resp)
      → (w'.storage.current_term ≡ w.storage.current_term)
        × (w'.storage.voted_for ≡ w.storage.voted_for)
  unfolding accept_entries
  accept_entries-vote w w' req resp h =
      let (s, stored, rest) = >>=-ok (store_entries w.storage req.entries) _ h in
      ground (
        arith,
        store_entries-vote w.storage s req.entries stored,
        follow_commit-storage (record w { storage = s }) req,
      )

  -- `handle_append_entries` touches neither the term nor the vote.
  pub handle_append_entries-vote :
      (w w' : Inner Text Cmd) (req : AppendEntriesRequest Cmd) (resp : AppendEntriesResponse)
      → handle_append_entries w req ≡ ok (w', resp)
      → (w'.storage.current_term ≡ w.storage.current_term)
        × (w'.storage.voted_for ≡ w.storage.voted_for)
  unfolding handle_append_entries
  handle_append_entries-vote w w' req resp h = ground (arith, accept_entries-vote w w' req resp)

  pub apply_log-storage :
      (w w' : Inner Text Cmd) (out : List (Effect Cmd))
      → apply_log w ≡ ok (w', out)
      → w'.storage ≡ w.storage
  unfolding apply_log
  apply_log-storage w w' out h =
      let (es, read, rest) = >>=-ok (sublog w.storage _) _ h in
      ground (arith, apply_entries-storage w es)

  pub increment_term_lem :
      (s : Storage Text Cmd)
      → s.current_term + 1 < 2 ^ 64
      → ((increment_term s).current_term ≡ s.current_term + 1)
        × ((increment_term s).voted_for ≡ none)
  unfolding increment_term set_current_term
  increment_term_lem s h = ground (arith, set_voted_for_lem s none)

  -- A new election raises the term by one, and the node's vote in the new term is its own.
  pub start_lem :
      (w w' : Inner Text Cmd) (out : List (Effect Cmd))
      → w.storage.current_term + 1 < 2 ^ 64
      → Candidate.start w ≡ ok (w', out)
      → (w'.storage.current_term ≡ w.storage.current_term + 1)
        × (w'.storage.voted_for ≡ some w.node_id)
  unfolding Candidate.start
  start_lem w w' out fits h =
      let (calls, asked, rest) = >>=-ok (Candidate.request_votes _) _ h in
      ground (
        arith,
        increment_term_lem w.storage fits,
        set_voted_for_lem (increment_term w.storage) (some w.node_id),
      )
