-- ===== src/Base/Effect.antt =====
-- What a call of the native code does: it returns with a new state, or it ends the process.
use mathlib.Core.Bool.{Bool, true, false}
use mathlib.Core.Path.{◌≡◌, refl}
use mathlib.Core.Logic.{◌⊎◌, inl, inr}
use mathlib.Core.Option.{Option, none, some}

-- An `assert` that fails, or a call or an access through a pointer to nothing.
pub data Fault : Type 0 where
  assertion_failed wild_call : Fault

pub data Outcome {ℓ} (A : Type ℓ) : Type ℓ where
  ok : A → Outcome A
  fault : Fault → Outcome A

-- The call returns, with a result and a state as stated.
abbrev pub Returns : {A S : Type 0} → Outcome (A × S) → (A → S → Type 0) → Type 0
Returns (ok (a, s)) P = P a s
Returns (fault x) P = ⊥

-- Code over the mutable state `S`, with a result of type `A`.
abbrev pub M : Type 0 → Type 0 → Type 0
M S A = S → Outcome (A × S)

module _ {S : Type 0} where
  abbrev pub pure : {A : Type 0} → A → M S A
  pure a s = ok (a, s)

  infixl 5 ◌>>=◌ ◌>>◌
  abbrev pub ◌>>=◌ : {A B : Type 0} → M S A → (A → M S B) → M S B
  ◌>>=◌ m f s = elim (m s) [ fault x ↦ fault x | ok (a, t) ↦ f a t ]

  abbrev pub ◌>>◌ : {B : Type 0} → M S (Unit {0}) → M S B → M S B
  m >> k = m >>= λ _. k

  abbrev pub get : M S S
  get s = ok (s, s)

  abbrev pub put : S → M S (Unit {0})
  put t s = ok (tt, t)

  abbrev pub assert : Bool → M S (Unit {0})
  assert true s = ok (tt, s)
  assert false s = fault assertion_failed

  -- `assert (p != nullptr)`, and the object that p points to.
  abbrev pub assert_some : {A : Type 0} → Option A → M S A
  assert_some none s = fault assertion_failed
  assert_some (some a) s = ok (a, s)

  abbrev pub skip : M S (Unit {0})
  skip s = ok (tt, s)

-- A chain that returns has a first part that returns, and goes on from there.
pub chain_first :
    {A B S : Type 0} (m : Outcome (A × S)) (f : A → S → Outcome B) (b : B)
    → (elim m [ fault x ↦ fault x | ok (a, s) ↦ f a s ]) ≡ ok b
    → (a : A) × (s : S) × (m ≡ ok (a, s)) × (f a s ≡ ok b)
chain_first (fault x) f b e = cc
chain_first (ok (a, s)) f b e = (a, s, refl, e)

pub chain-Returns :
    {A B S : Type 0} (P : A → S → Type 0) (Q : B → S → Type 0) (m : Outcome (A × S))
    (f : A → S → Outcome (B × S))
    → Returns m P
    → ((a : A) (s : S) → P a s → Returns (f a s) Q)
    → Returns (elim m [ fault x ↦ fault x | ok (a, s) ↦ f a s ]) Q
chain-Returns P Q (fault x) f p g = absurd p
chain-Returns P Q (ok (a, s)) f p g = g a s p

pub map-Returns :
    {A S : Type 0} (P Q : A → S → Type 0) (o : Outcome (A × S))
    → ((a : A) (s : S) → P a s → Q a s)
    → Returns o P
    → Returns o Q
map-Returns P Q (fault x) f p = absurd p
map-Returns P Q (ok (a, s)) f p = f a s p

-- The same for outcomes that are a state alone.
pub ok_first :
    {A B : Type 0} (o : Outcome A) (f : A → Outcome B) (b : B)
    → (elim o [ fault x ↦ fault x | ok a ↦ f a ]) ≡ ok b
    → (a : A) × (o ≡ ok a) × (f a ≡ ok b)
ok_first (fault x) f b e = cc
ok_first (ok a) f b e = (a, refl, e)

pub Outcome-cases :
    {A : Type 0} (o : Outcome A) → ((x : Fault) × (o ≡ fault x)) ⊎ ((a : A) × (o ≡ ok a))
Outcome-cases (fault x) = inl (x, refl)
Outcome-cases (ok a) = inr (a, refl)

-- What a call leaves, its result dropped.
abbrev pub left : {A S : Type 0} → Outcome (A × S) → Outcome S
left (fault x) = fault x
left (ok (a, s)) = ok s

pub left_ok :
    {A S : Type 0} (o : Outcome (A × S)) (t : S) → left o ≡ ok t → (a : A) × (o ≡ ok (a, t))
left_ok (fault x) t e = cc
left_ok (ok (a, s)) t e = (a, cc)
