-- ===== src/Raft/Leading/Election.antt =====
-- Elections: counting votes, and the change from candidate to leader.
use wraft.Base.{
  leb, Bool-cases, ℕ, zero, suc, ◌+◌, ◌<◌, ◌≤◌, ◌^◌, ◌≡◌, refl, ap, ◌∙◌, ◌⊎◌, inl, inr, Bool, true,
  false, ◌&&◌, Option, none, some, List, [], ◌∷◌, map, arith, ok, length, count, get_elem?, get,
  add64, ◌==◌,
}
use wraft.Raft.Storage.{Codec}
use wraft.Raft.Worker.{Inner, reset_timer, quorum}
use wraft.Raft.Worker.Leader.{Leader, from_candidate}
use wraft.Raft.Worker.Machine.{Event, candidate, leader, candidate_branch}

-- Two tests that hold of more than half of a list each hold together of one of its members.
overlap :
    {A : Type 0} (p q : A → Bool) (xs : List A)
    → length xs < count p xs + count q xs
    → (i : ℕ) × (x : A) × (get_elem? xs i ≡ some x) × (p x ≡ true) × (q x ≡ true)
overlap p q [] h = absurd (omega arith)
overlap p q (x ∷ xs) h = elim (Bool-cases (p x && q x)) [
  | inl both ↦ (0, x, refl, ground arith, ground arith)
  | inr not_both ↦
      let (i, y, here, hp, hq) = overlap p q xs (ground arith) in (suc i, y, here, hp, hq)
]

-- Whether a vote is for the candidate.
abbrev pub is_for : ℕ → Option ℕ → Bool
is_for c none = false
is_for c (some v) = v == c

same_vote : (v : Option ℕ) (c d : ℕ) → is_for c v ≡ true → is_for d v ≡ true → c ≡ d
same_vote none c d hc hd = cc
same_vote (some v) c d hc hd = ground arith

-- A map that gives each member of a list one value has that value at each.
get-map :
    (xs : List ℕ) (v i p : ℕ) → get_elem? xs i ≡ some p → get p (map (λ x. (x, v)) xs) ≡ some v
unfolding get
get-map [] v i p here = cc
get-map (x ∷ xs) v zero p here = ground arith
get-map (x ∷ xs) v (suc i) p here = ground (arith, get-map xs v i p here)

module _ {Text Cmd : Type 0} where
  -- With one vote for each node of the cluster, two candidates that a quorum votes for are one.
  pub one_winner :
      (w : Inner Text Cmd) (nodes : List ℕ) (vote : ℕ → Option ℕ) (c d : ℕ)
      → length nodes ≡ w.cluster_size
      → quorum w ≤ count (λ n. is_for c (vote n)) nodes
      → quorum w ≤ count (λ n. is_for d (vote n)) nodes
      → c ≡ d
  unfolding quorum
  one_winner w nodes vote c d size for_c for_d =
      let (i, n, here, votes_c, votes_d) =
        overlap (λ n. is_for c (vote n)) (λ n. is_for d (vote n)) nodes (omega arith) in
      same_vote (vote n) c d votes_c votes_d

module _ {Text Cmd : Type 0} ⦃codec : Codec Text Cmd⦄ where
  -- The vote that completes the quorum makes a candidate the leader, known as such to itself, with
  -- every peer's next index right behind its own log and no index matched; before that a vote is
  -- counted and no more.
  pub vote_counted :
      (w : Inner Text Cmd) (votes : ℕ)
      → w.storage.last_log_index + 1 < 2 ^ 64
      → ((votes + 1 < quorum w)
          × (candidate_branch w votes Event.vote ≡ ok (candidate w (votes + 1), [])))
        ⊎ ((quorum w ≤ votes + 1)
            × ((l : Leader) × (candidate_branch w votes Event.vote
                  ≡ ok (leader (record w { leader_id = some w.node_id }) l, reset_timer ∷ []))
                × ((i : ℕ) (p : ℕ)
                    → get_elem? w.peers i ≡ some p
                    → (get p l.next_indices ≡ some (w.storage.last_log_index + 1))
                      × (get p l.match_indices ≡ some 0))
                × (l.in_flight_client_requests ≡ [])
                × (l.in_flight_peers ≡ [])))
  unfolding candidate_branch from_candidate
  vote_counted w votes room = elim (Bool-cases (leb (quorum w) (votes + 1))) [
    | inr short ↦ inl (ground arith, ground arith)
    | inl won ↦ inr (
      ground arith,
      (
        (from_candidate w).1,
        ground arith,
        (λ i p here. (
          get-map w.peers (add64 w.storage.last_log_index 1) i p here
              ∙ ap (λ n. some n) (omega arith),
          get-map w.peers 0 i p here,
        )),
        refl,
        refl,
      ),
    )
  ]
