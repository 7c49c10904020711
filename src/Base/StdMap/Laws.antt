-- ===== src/Base/StdMap/Laws.antt =====
-- Lookup against insertion and removal, and the order of the keys.
use mathlib.Core.Path.{◌≡◌, refl}
use mathlib.Core.Bool.{true}
use mathlib.Core.Option.{none, some}
use mathlib.Core.List.{[], ◌∷◌}
use native.Mathlib.Omega.{arith}
use tox4j.Base.Tests.{if◌then◌else◌}
use tox4j.Base.StdMap.{Key, StdMap, lookup, insert, erase, Before, IsSorted}

module _ {K V : Type 0} ⦃key : Key K⦄ where
  pub lookup-insert :
      (k j : K) (v : V) (m : StdMap K V)
      → lookup j (insert k v m) ≡ (if key.beq k j then some v else lookup j m)
  unfolding lookup insert
  lookup-insert k j v [] = refl
  lookup-insert k j v ((i, w) ∷ m) =
      ground (arith, key.beq_iff k j, key.beq_iff i k, key.beq_iff i j, lookup-insert k j v m)

  pub Before-trans : (k j : K) (m : StdMap K V) → key.blt k j ≡ true → Before j m → Before k m
  Before-trans k j [] h b = tt
  Before-trans k j ((i, w) ∷ m) h b = (key.blt_trans k j i h b.0, Before-trans k j m h b.1)

  pub Before-insert :
      (k j : K) (v : V) (m : StdMap K V) → key.blt j k ≡ true → Before j m → Before j (insert k v m)
  unfolding insert
  Before-insert k j v [] h b = (h, tt)
  Before-insert k j v ((i, w) ∷ m) h b = ground (arith, Before-insert k j v m h b.1)

  pub insert-IsSorted : (k : K) (v : V) (m : StdMap K V) → IsSorted m → IsSorted (insert k v m)
  unfolding insert
  insert-IsSorted k v [] s = (tt, tt)
  insert-IsSorted k v ((j, w) ∷ m) s = ground (
    arith,
    key.beq_iff j k,
    key.blt_total j k,
    key.blt_total k j,
    Before-trans k j m,
    Before-insert k j v m,
    insert-IsSorted k v m s.1,
  )

  pub lookup_of_Before : (k : K) (m : StdMap K V) → Before k m → lookup k m ≡ none
  unfolding lookup
  lookup_of_Before k [] b = refl
  lookup_of_Before k ((j, w) ∷ m) b =
      ground (arith, key.beq_iff j k, key.blt_irrefl k, lookup_of_Before k m b.1)

  pub lookup-erase :
      (k j : K) (m : StdMap K V)
      → IsSorted m
      → lookup j (erase k m) ≡ (if key.beq k j then none else lookup j m)
  unfolding lookup erase
  lookup-erase k j [] s = ground arith
  lookup-erase k j ((i, w) ∷ m) s = ground (
    arith,
    key.beq_iff k j,
    key.beq_iff i k,
    key.beq_iff i j,
    lookup_of_Before i m s.0,
    lookup_of_Before j m,
    lookup-erase k j m s.1,
  )

  pub Before-erase : (k j : K) (m : StdMap K V) → Before j m → Before j (erase k m)
  unfolding erase
  Before-erase k j [] b = tt
  Before-erase k j ((i, w) ∷ m) b = ground (arith, Before-erase k j m b.1)

  pub erase-IsSorted : (k : K) (m : StdMap K V) → IsSorted m → IsSorted (erase k m)
  unfolding erase
  erase-IsSorted k [] s = tt
  erase-IsSorted k ((j, w) ∷ m) s = ground (arith, Before-erase k j m s.0, erase-IsSorted k m s.1)
