-- ===== src/Base/StdMap.antt =====
-- std::map: its entries in the order of the keys, each key once.
pub mod Laws
pub mod All
use mathlib.Core.Path.{◌≡◌}
use mathlib.Core.Logic.{◌↔◌}
use mathlib.Core.Bool.{Bool, true, false, not, ◌&&◌, ◌||◌}
use mathlib.Core.Option.{Option, none, some}
use mathlib.Core.List.{List, [], ◌∷◌}
use native.Mathlib.Omega.{arith}
use Prim.Native.Nat.{ℕ}
use tox4j.Base.Tests.{ltb, ◌==◌, if◌then◌else◌, ==_iff}

-- What a map asks of its keys: `operator <`, a linear order, and the equality that goes with it.
pub record Key (K : Type 0) : Type 0 where
  pub beq : K → K → Bool
  pub blt : K → K → Bool
  pub beq_iff : (a b : K) → (beq a b ≡ true) ↔ (a ≡ b)
  pub blt_trans : (a b c : K) → blt a b ≡ true → blt b c ≡ true → blt a c ≡ true
  pub blt_irrefl : (a : K) → blt a a ≡ false
  pub blt_total : (a b : K) → beq a b ≡ false → blt a b ≡ false → blt b a ≡ true

pub nat_blt_trans : (a b c : ℕ) → ltb a b ≡ true → ltb b c ≡ true → ltb a c ≡ true
nat_blt_trans a b c p q = ground arith

pub nat_blt_irrefl : (a : ℕ) → ltb a a ≡ false
nat_blt_irrefl a = ground arith

pub nat_blt_total : (a b : ℕ) → (a == b) ≡ false → ltb a b ≡ false → ltb b a ≡ true
nat_blt_total a b p q = ground arith

instance abbrev pub nat_key : Key ℕ
nat_key = record {
  beq = ◌==◌;
  blt = ltb;
  beq_iff = ==_iff;
  blt_trans = nat_blt_trans;
  blt_irrefl = nat_blt_irrefl;
  blt_total = nat_blt_total;
}

-- std::pair compares its first components, and on a tie the second ones.
abbrev pub pair_beq : ℕ × ℕ → ℕ × ℕ → Bool
pair_beq (a, b) (c, d) = (a == c) && (b == d)

abbrev pub pair_blt : ℕ × ℕ → ℕ × ℕ → Bool
pair_blt (a, b) (c, d) = ltb a c || ((a == c) && ltb b d)

pub pair_beq_iff : (p q : ℕ × ℕ) → (pair_beq p q ≡ true) ↔ (p ≡ q)
pair_beq_iff (a, b) (c, d) = ground arith

pub pair_blt_trans :
    (p q r : ℕ × ℕ) → pair_blt p q ≡ true → pair_blt q r ≡ true → pair_blt p r ≡ true
pair_blt_trans (a, b) (c, d) (e, f) h k = ground arith

pub pair_blt_irrefl : (p : ℕ × ℕ) → pair_blt p p ≡ false
pair_blt_irrefl (a, b) = ground arith

pub pair_blt_total :
    (p q : ℕ × ℕ) → pair_beq p q ≡ false → pair_blt p q ≡ false → pair_blt q p ≡ true
pair_blt_total (a, b) (c, d) h k = ground arith

instance abbrev pub pair_key : Key (ℕ × ℕ)
pair_key = record {
  beq = pair_beq;
  blt = pair_blt;
  beq_iff = pair_beq_iff;
  blt_trans = pair_blt_trans;
  blt_irrefl = pair_blt_irrefl;
  blt_total = pair_blt_total;
}

abbrev pub StdMap : Type 0 → Type 0 → Type 0
StdMap K V = List (K × V)

module _ {K V : Type 0} ⦃key : Key K⦄ where
  unfoldable pub lookup : K → StdMap K V → Option V
  lookup k [] = none
  lookup k ((j, v) ∷ m) = if key.beq j k then some v else lookup k m

  -- `m[k] = v`.
  unfoldable pub insert : K → V → StdMap K V → StdMap K V
  insert k v [] = (k, v) ∷ []
  insert k v ((j, w) ∷ m) =
      if key.beq j k
      then (k, v) ∷ m
      else if key.blt k j
      then (k, v) ∷ (j, w) ∷ m
      else (j, w) ∷ insert k v m

  unfoldable pub erase : K → StdMap K V → StdMap K V
  erase k [] = []
  erase k ((j, w) ∷ m) = if key.beq j k then m else (j, w) ∷ erase k m

  -- The key stands before all keys of the map.
  abbrev pub Before : K → StdMap K V → Type 0
  Before k [] = Unit {0}
  Before k ((j, v) ∷ m) = (key.blt k j ≡ true) × Before k m

  abbrev pub IsSorted : StdMap K V → Type 0
  IsSorted [] = Unit {0}
  IsSorted ((k, v) ∷ m) = Before k m × IsSorted m
