-- ===== src/Base/Map.antt =====
-- `HashMap<u64, V>` and `HashSet<u64>` as association lists and lists.
use Prim.Native.Nat.{ℕ}
use mathlib.Core.Path.{◌≡◌, refl}
use mathlib.Core.Bool.{Bool, false, ◌||◌}
use mathlib.Core.List.{List, [], ◌∷◌}
use mathlib.Core.Option.{Option, none, some}
use native.Mathlib.Omega.{arith}
use wraft.Base.Tests.{◌==◌, if◌then◌else◌}

module _ {ℓ} {V : Type ℓ} where
  unfoldable pub get : ℕ → List (ℕ × V) → Option V
  get k [] = none
  get k ((j, v) ∷ m) = if j == k then some v else get k m

  unfoldable pub insert : ℕ → V → List (ℕ × V) → List (ℕ × V)
  insert key new [] = (key, new) ∷ []
  insert key new ((other, old) ∷ rest) =
      if other == key then (key, new) ∷ rest else (other, old) ∷ insert key new rest

  -- Every entry of the key goes.
  unfoldable pub remove : ℕ → List (ℕ × V) → List (ℕ × V)
  remove k [] = []
  remove k ((j, v) ∷ m) = if j == k then remove k m else (j, v) ∷ remove k m

  pub get-insert :
      (k j : ℕ) (v : V) (m : List (ℕ × V))
      → get j (insert k v m) ≡ (if k == j then some v else get j m)
  unfolding get insert
  get-insert k j v [] = refl
  get-insert k j v ((i, w) ∷ m) = ground (arith, get-insert k j v m)

  pub get-remove :
      (k j : ℕ) (m : List (ℕ × V)) → get j (remove k m) ≡ (if k == j then none else get j m)
  unfolding get remove
  get-remove k j [] = ground arith
  get-remove k j ((i, w) ∷ m) = ground (arith, get-remove k j m)

unfoldable pub contains : ℕ → List ℕ → Bool
contains k [] = false
contains k (j ∷ s) = j == k || contains k s

unfoldable pub insert_set : ℕ → List ℕ → List ℕ
insert_set k s = if contains k s then s else k ∷ s

unfoldable pub remove_set : ℕ → List ℕ → List ℕ
remove_set k [] = []
remove_set k (j ∷ s) = if j == k then remove_set k s else j ∷ remove_set k s

pub contains-insert_set :
    (k j : ℕ) (s : List ℕ) → contains j (insert_set k s) ≡ (k == j || contains j s)
unfolding insert_set contains
contains-insert_set k j s = ground arith

pub contains-remove_set : (k : ℕ) (s : List ℕ) → contains k (remove_set k s) ≡ false
unfolding contains remove_set
contains-remove_set k [] = refl
contains-remove_set k (j ∷ s) = ground (arith, contains-remove_set k s)
