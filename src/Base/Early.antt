-- ===== src/Base/Early.antt =====
-- Function bodies with early returns: `if (…) { *error = …; return …; }`.
use mathlib.Core.Bool.{Bool, true, false}
use tox4j.Base.Effect.{Outcome, ok, fault, M}

-- A statement goes on with a value, or the function has returned.
pub data Exit {ℓ κ} (R : Type ℓ) (A : Type κ) : Type (ℓ ⊔ κ) where
  returned : R → Exit R A
  goes : A → Exit R A

abbrev pub E : Type 0 → Type 0 → Type 0 → Type 0
E S R A = S → Outcome (Exit R A × S)

module _ {S R : Type 0} where
  infixl 5 ◌>>=◌ ◌>>◌
  abbrev pub ◌>>=◌ : {A B : Type 0} → E S R A → (A → E S R B) → E S R B
  ◌>>=◌ m f s = elim (m s) [
    | fault x ↦ fault x
    | ok (returned r, t) ↦ ok (returned r, t)
    | ok (goes a, t) ↦ f a t
  ]

  abbrev pub ◌>>◌ : {B : Type 0} → E S R (Unit {0}) → E S R B → E S R B
  m >> k = m >>= λ _. k

  -- `if (test) return r;`
  abbrev pub return_if : Bool → R → E S R (Unit {0})
  return_if true r s = ok (returned r, s)
  return_if false r s = ok (goes tt, s)

  abbrev pub finish : R → E S R R
  finish r s = ok (returned r, s)

  abbrev pub lift : {A : Type 0} → M S A → E S R A
  lift m s = elim (m s) [ fault x ↦ fault x | ok (a, t) ↦ ok (goes a, t) ]

  -- The whole body.
  abbrev pub body : E S R R → M S R
  body m s = elim (m s) [
    | fault x ↦ fault x
    | ok (returned r, t) ↦ ok (r, t)
    | ok (goes r, t) ↦ ok (r, t)
  ]
