-- ===== src/Raft/Cluster/Lists.antt =====
-- Lists of clients and of ballots: what holds of all, and how many there are of one node.
use wraft.Base.{
  ℕ, ◌≤◌, ◌<◌, ◌≡◌, ◌≢◌, refl, ◌⊎◌, inl, inr, List, [], ◌∷◌, arith, subst, ◌==◌, Bool-cases, count,
  All, insert,
}
use wraft.Raft.Worker.{Client, online, disconnect_client}
use wraft.Raft.Cluster.{Ballot}
use wraft.Raft.Cluster.Calls.{is_ballot, Calls}
use wraft.Raft.Cluster.Invariant.{Other, Cast, Filed}

pub All-online : (Q : ℕ → Type 0) (m : List (ℕ × Client)) → All (λ e. Q e.0) m → All Q (online m)
All-online Q [] h = tt
All-online Q ((k, x) ∷ m) h = ground (arith, All-online Q m h.1, h.0)

pub count-online :
    (v : ℕ) (m : List (ℕ × Client)) → count (λ p. p == v) (online m) ≤ count (λ e. e.0 == v) m
count-online v [] = omega arith
count-online v ((k, x) ∷ m) = ground (arith, count-online v m)

pub All-insert :
    (Q : ℕ → Type 0) (k : ℕ) (x : Client) (m : List (ℕ × Client))
    → Q k
    → All (λ e. Q e.0) m
    → All (λ e. Q e.0) (insert k x m)
unfolding insert
All-insert Q k x [] new h = (new, tt)
All-insert Q k x ((j, y) ∷ m) new h = ground (arith, All-insert Q k x m new h.1, h.0, h.1)

pub count-insert :
    (v k : ℕ) (x : Client) (m : List (ℕ × Client))
    → count (λ e. e.0 == v) m ≤ 1
    → (count (λ e. e.0 == v) (insert k x m) ≤ 1)
      × (k ≢ v → count (λ e. e.0 == v) (insert k x m) ≡ count (λ e. e.0 == v) m)
unfolding insert
count-insert v k x [] h = (ground arith, λ other. ground arith)
count-insert v k x ((j, y) ∷ m) h = ground (arith, count-insert v k x m)

pub All-disconnect :
    (Q : ℕ → Type 0) (k : ℕ) (m : List (ℕ × Client))
    → All (λ e. Q e.0) m
    → All (λ e. Q e.0) (disconnect_client k m)
unfolding disconnect_client
All-disconnect Q k [] h = tt
All-disconnect Q k ((j, y) ∷ m) h = ground (arith, All-disconnect Q k m h.1, h.0)

same_count-disconnect :
    (v k : ℕ) (m : List (ℕ × Client))
    → count (λ e. e.0 == v) (disconnect_client k m) ≡ count (λ e. e.0 == v) m
unfolding disconnect_client
same_count-disconnect v k [] = refl
same_count-disconnect v k ((j, y) ∷ m) = ground (arith, same_count-disconnect v k m)

pub count-disconnect :
    (v k : ℕ) (m : List (ℕ × Client))
    → count (λ e. e.0 == v) m ≤ 1
    → count (λ e. e.0 == v) (disconnect_client k m) ≤ 1
count-disconnect v k m h = omega (arith, same_count-disconnect v k m, h)

-- A candidate has no ballots in terms that it has not come to.
pub none_above :
    (members : List ℕ) (cast : Cast) (terms : ℕ → ℕ) (xs : List Ballot) (v n t : ℕ)
    → All (Filed members cast terms) xs
    → terms n < t
    → count (is_ballot v n t) xs ≡ 0
none_above members cast terms [] v n t h above = refl
none_above members cast terms (b ∷ xs) v n t (here, all) above =
    elim (Bool-cases (is_ballot v n t b)) [
      | inl hit ↦
          let who : b.req.candidate ≡ n = ground arith in
          let when : b.req.term ≡ t = ground arith in
          absurd (omega (arith, when, subst (λ m. b.req.term ≤ terms m) who here.2, above))
      | inr miss ↦ ground (arith, none_above members cast terms xs v n t all above)
    ]

pub Calls-only :
    (Q : ℕ → Type 0) (n t : ℕ) (xs : List Ballot) (v m s : ℕ)
    → All (Calls Q n t) xs
    → (m ≢ n) ⊎ (s ≢ t)
    → count (is_ballot v m s) xs ≡ 0
Calls-only Q n t [] v m s h apart = refl
Calls-only Q n t (b ∷ xs) v m s (here, all) apart =
    ground (arith, Calls-only Q n t xs v m s all apart, here.1, here.2)

pub Calls-others :
    (members : List ℕ) (n t : ℕ) (xs : List Ballot) (s : ℕ)
    → All (Calls (Other members n) n t) xs
    → count (is_ballot n n s) xs ≡ 0
Calls-others members n t [] s h = refl
Calls-others members n t (b ∷ xs) s ((granted, who, term, other), all) =
    ground (arith, Calls-others members n t xs s all, other.1)
