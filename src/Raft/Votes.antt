-- ===== src/Raft/Votes.antt =====
-- A node's vote in its current term: worker.rs and storage.rs, seen at the term and the vote alone.
pub mod Handlers
pub mod Steps
pub mod Runs
pub mod Grants
use wraft.Base.{
  false, true, ℕ, ◌+◌, ◌<◌, ◌≤◌, ◌≡◌, refl, ◌∙◌, ◌⊎◌, inl, inr, Option, none, some, arith, Outcome,
  ok,
}
use wraft.Raft.Types.{LogEntry}
use wraft.Raft.Storage.{
  Codec, Storage, set_voted_for, set_current_term, update_term, increment_term, append_log,
  overwrite_log, set_last_log_index, increment_last_log_index,
}

-- The term does not fall, and within a term a vote once given stays.
abbrev pub VoteKept : {Text Cmd : Type 0} → Storage Text Cmd → Storage Text Cmd → Type 0
VoteKept s t =
    (s.current_term < t.current_term)
    ⊎ ((t.current_term ≡ s.current_term) × ((s.voted_for ≡ none) ⊎ (t.voted_for ≡ s.voted_for)))

module _ {Text Cmd : Type 0} where
  pub VoteKept-refl : (s : Storage Text Cmd) → VoteKept s s
  VoteKept-refl s = inr (refl, inr refl)

  pub VoteKept-trans : (s t u : Storage Text Cmd) → VoteKept s t → VoteKept t u → VoteKept s u
  VoteKept-trans s t u (inl a) (inl b) = inl (omega arith)
  VoteKept-trans s t u (inl a) (inr (b, _)) = inl (omega arith)
  VoteKept-trans s t u (inr (a, _)) (inl b) = inl (omega arith)
  VoteKept-trans s t u (inr (a, inl c)) (inr (b, d)) = inr (b ∙ a, inl c)
  VoteKept-trans s t u (inr (a, inr c)) (inr (b, inl d)) = inr (b ∙ a, inl (ground arith))
  VoteKept-trans s t u (inr (a, inr c)) (inr (b, inr d)) = inr (b ∙ a, inr (d ∙ c))

module _ {Text Cmd : Type 0} ⦃codec : Codec Text Cmd⦄ where
  pub set_voted_for_lem :
      (s : Storage Text Cmd) (v : Option ℕ)
      → ((set_voted_for s v).voted_for ≡ v) × ((set_voted_for s v).current_term ≡ s.current_term)
  unfolding set_voted_for
  set_voted_for_lem s none = (refl, refl)
  set_voted_for_lem s (some v) = (refl, refl)

  -- `update_term` never lowers the term and answers whether it raised it; a raised term is the one
  -- asked for, with no vote in it, and otherwise nothing changes.
  pub update_term_lem :
      (s : Storage Text Cmd) (n : ℕ)
      → let (t, newer) = update_term s n in
        ((newer ≡ true) × (s.current_term < n) × (t.current_term ≡ n) × (t.voted_for ≡ none))
        ⊎ ((newer ≡ false) × (n ≤ s.current_term) × (t ≡ s))
  unfolding update_term set_current_term
  update_term_lem s n = ground (arith, set_voted_for_lem s none)

  pub append_log-vote :
      (s t : Storage Text Cmd) (e : LogEntry Cmd)
      → append_log s e ≡ ok t
      → (t.current_term ≡ s.current_term) × (t.voted_for ≡ s.voted_for)
  unfolding append_log increment_last_log_index set_last_log_index
  append_log-vote s t e h = ground arith

  pub overwrite_log-vote :
      (s t : Storage Text Cmd) (e : LogEntry Cmd)
      → overwrite_log s e ≡ ok t
      → (t.current_term ≡ s.current_term) × (t.voted_for ≡ s.voted_for)
  unfolding overwrite_log append_log increment_last_log_index set_last_log_index
  overwrite_log-vote s t e h = ground arith
