-- ===== src/Base/StdMap/All.antt =====
-- A predicate of all the values of a map.
use mathlib.Core.Path.{◌≡◌}
use mathlib.Core.Option.{some}
use mathlib.Core.List.{[], ◌∷◌}
use native.Mathlib.Omega.{arith}
use tox4j.Base.StdMap.{Key, StdMap, lookup, insert, erase}

abbrev pub All {ℓ} : {K V : Type 0} → (V → Type ℓ) → StdMap K V → Type ℓ
All P [] = Unit
All P ((k, v) ∷ m) = P v × All P m

module _ {ℓ} {K V : Type 0} ⦃key : Key K⦄ (P : V → Type ℓ) where
  pub All-insert : (k : K) (v : V) (m : StdMap K V) → P v → All P m → All P (insert k v m)
  unfolding insert
  All-insert k v [] p a = (p, tt)
  All-insert k v ((j, w) ∷ m) p a = ground (arith, All-insert k v m p a.1)

  pub All-erase : (k : K) (m : StdMap K V) → All P m → All P (erase k m)
  unfolding erase
  All-erase k [] a = tt
  All-erase k ((j, w) ∷ m) a = ground (arith, All-erase k m a.1)

  pub All-lookup : (k : K) {v : V} (m : StdMap K V) → All P m → lookup k m ≡ some v → P v
  unfolding lookup
  All-lookup k [] a e = cc
  All-lookup k {v} ((j, w) ∷ m) a e = ground (arith, All-lookup k {v = v} m a.1)
