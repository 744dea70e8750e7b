-- ===== src/Raft/Cluster/Ballots.antt =====
-- A ballot in the list of those on their way: taken out, or put back when it is answered.
use wraft.Base.{
  ℕ, ◌+◌, ◌≤◌, ◌≡◌, refl, Bool, true, false, some, List, ◌∷◌, ◌++◌, arith, if◌then◌else◌, count,
  count-append, All, All-append, All-left, All-right,
}
use wraft.Raft.Cluster.{Ballot, answered}
use wraft.Raft.Cluster.Calls.{is_ballot}
use wraft.Raft.Cluster.Invariant.{Cast, Filed}

-- A list with a member taken out.
pub count-middle :
    (p : Ballot → Bool) (before after : List Ballot) (b : Ballot)
    → count p (before ++ b ∷ after) ≡ count p (before ++ after) + (if p b then 1 else 0)
count-middle p before after b =
    ground (arith, count-append p before (b ∷ after), count-append p before after)

pub All-middle :
    (P : Ballot → Type 0) (before after : List Ballot) (b : Ballot)
    → All P (before ++ b ∷ after)
    → P b × All P (before ++ after)
All-middle P before after b h =
    let (here, later) = All-right P before (b ∷ after) h in
    (here, All-append P before after (All-left P before (b ∷ after) h) later)

-- No more than the ballot itself is left of an answered one.
pub count-answered :
    (v m t : ℕ) (b : Ballot) (g : Bool)
    → count (is_ballot v m t) (answered b g) ≤ (if is_ballot v m t b then 1 else 0)
count-answered v m t b true = ground arith
count-answered v m t b false = ground arith

pub answered-Filed :
    (members : List ℕ) (cast : Cast) (terms : ℕ → ℕ) (b : Ballot) (g : Bool)
    → Filed members cast terms b
    → (g ≡ true → cast b.voter b.req.term ≡ some b.req.candidate)
    → All (Filed members cast terms) (answered b g)
answered-Filed members cast terms b true (is_in, other, reached, voted) h =
    ((is_in, other, reached, λ e. h refl), tt)
answered-Filed members cast terms b false filed h = tt

pub All-put :
    (P : Ballot → Type 0) (before xs after : List Ballot)
    → All P (before ++ after)
    → All P xs
    → All P (before ++ xs ++ after)
All-put P before xs after rest new =
    All-append P (before ++ xs) after (All-append P before xs (All-left P before after rest) new)
      (All-right P before after rest)

pub count-put :
    (p : Ballot → Bool) (before xs after : List Ballot)
    → count p (before ++ xs ++ after) ≡ count p (before ++ after) + count p xs
count-put p before xs after = omega (
  arith,
  count-append p (before ++ xs) after,
  count-append p before xs,
  count-append p before after,
)
