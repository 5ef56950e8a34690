-- ===== src/Prelude/Maps.antt =====
-- Maps from native numbers, as association lists.
use Prim.Native.Nat.{ℕ}
use mathlib.Core.Path.{◌≡◌}
use mathlib.Core.Bool.{not}
use mathlib.Core.List.{List, [], ◌∷◌}
use mathlib.Core.Option.{Option, none, some}
use native.Mathlib.Omega.{arith}
use mostrix.Prelude.Tests.{◌==◌, if◌then◌else◌}
use mostrix.Prelude.Lists.{retain}

module _ {ℓ} {V : Type ℓ} where
  -- `m.get(&k)`
  unfoldable pub lookup : ℕ → List (ℕ × V) → Option V
  lookup k [] = none
  lookup k (x ∷ xs) = let rest = lookup k xs in if x.0 == k then some x.1 else rest

  -- `m.insert(k, v)`
  unfoldable pub insert : ℕ → V → List (ℕ × V) → List (ℕ × V)
  insert k v [] = (k, v) ∷ []
  insert k v (x ∷ xs) = let rest = insert k v xs in if x.0 == k then (k, v) ∷ xs else x ∷ rest

  -- `m.remove(&k)`
  unfoldable pub remove : ℕ → List (ℕ × V) → List (ℕ × V)
  remove k xs = retain (λ x. not (x.0 == k)) xs

  pub lookup-remove :
      (k j : ℕ) (m : List (ℕ × V)) → lookup j (remove k m) ≡ (if k == j then none else lookup j m)
  unfolding lookup remove
  lookup-remove k j [] = ground arith
  lookup-remove k j (x ∷ xs) = ground (arith, lookup-remove k j xs)
