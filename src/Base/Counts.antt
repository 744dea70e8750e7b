-- ===== src/Base/Counts.antt =====
-- Counting the members of a list that pass a test, and what holds of all of them.
use Prim.Native.Nat.{ℕ, zero, suc, ◌+◌, ◌≤◌}
use mathlib.Core.Option.{some}
use mathlib.Core.Path.{◌≡◌}
use mathlib.Core.Bool.{Bool, true, false, ◌||◌}
use mathlib.Core.List.{List, [], ◌∷◌, ◌++◌}
use native.Mathlib.Omega.{arith}
use wraft.Base.Tests.{◌==◌}
use wraft.Base.Lists.{count, All, set, get_elem?}
use wraft.Base.Map.{contains}

module _ {A : Type 0} where
  pub count-append : (p : A → Bool) (xs ys : List A) → count p (xs ++ ys) ≡ count p xs + count p ys
  count-append p [] ys = omega arith
  count-append p (x ∷ xs) ys = ground (arith, count-append p xs ys)

  pub count_le :
      (p q : A → Bool) (xs : List A) → ((x : A) → p x ≡ true → q x ≡ true) → count p xs ≤ count q xs
  count_le p q [] h = omega arith
  count_le p q (x ∷ xs) h = ground (arith, count_le p q xs h, h x)

  pub All-append : (P : A → Type 0) (xs ys : List A) → All P xs → All P ys → All P (xs ++ ys)
  All-append P [] ys hx hy = hy
  All-append P (x ∷ xs) ys hx hy = (hx.0, All-append P xs ys hx.1 hy)

  pub All-left : (P : A → Type 0) (xs ys : List A) → All P (xs ++ ys) → All P xs
  All-left P [] ys h = tt
  All-left P (x ∷ xs) ys h = (h.0, All-left P xs ys h.1)

  pub All-right : (P : A → Type 0) (xs ys : List A) → All P (xs ++ ys) → All P ys
  All-right P [] ys h = h
  All-right P (x ∷ xs) ys h = All-right P xs ys h.1

  pub All_implies : (P Q : A → Type 0) (xs : List A) → ((x : A) → P x → Q x) → All P xs → All Q xs
  All_implies P Q [] f h = tt
  All_implies P Q (x ∷ xs) f h = (f x h.0, All_implies P Q xs f h.1)

-- One more number of a list passes a test that is widened by it.
pub count_more :
    (p : ℕ → Bool) (u : ℕ) (xs : List ℕ)
    → contains u xs ≡ true
    → p u ≡ false
    → count p xs + 1 ≤ count (λ x. x == u || p x) xs
unfolding contains
count_more p u [] h miss = cc
count_more p u (x ∷ xs) h miss =
    ground (arith, count_le p (λ x. x == u || p x) xs (λ x e. ground arith), count_more p u xs)

-- A member that is overwritten is counted no more, and the new one is.
pub count-set {ℓ} :
    {A : Type ℓ} (p : A → Bool) (xs : List A) (i : ℕ) (a b : A)
    → get_elem? xs i ≡ some a
    → count p (set xs i b) + count p (a ∷ []) ≡ count p xs + count p (b ∷ [])
count-set p [] i a b here = cc
count-set p (x ∷ xs) zero a b here = ground arith
count-set p (x ∷ xs) (suc i) a b here = ground (arith, count-set p xs i a b here)
