-- ===== src/Base/Tests.antt =====
-- Boolean tests on the native numbers, the conditional, and fixed-width integers.
--
-- A machine integer of w bits is its bit pattern, a number below 2 ^ w. So a conversion between
-- int32_t and uint32_t changes nothing, and the sign of an int32_t is its top bit.
use Prim.Native.Nat.{ℕ, ◌+◌, ◌-◌, ◌%◌, compare, Ordering}
use mathlib.Core.Path.{◌≡◌, refl}
use mathlib.Core.Logic.{◌↔◌, ◌⊎◌, inl, inr}
use mathlib.Core.Bool.{Bool, true, false, not}
use mathlib.Core.Option.{Option, none, some}
use native.Mathlib.Omega.{arith}

abbrev pub ltb : ℕ → ℕ → Bool
ltb a b = elim (compare a b) [ Ordering.lt ↦ true | _ ↦ false ]

abbrev pub leb : ℕ → ℕ → Bool
leb a b = elim (compare a b) [ Ordering.gt ↦ false | _ ↦ true ]

infix 50 ◌==◌
abbrev pub ◌==◌ : ℕ → ℕ → Bool
a == b = elim (compare a b) [ Ordering.eq ↦ true | _ ↦ false ]

infix 1 if◌then◌else◌
abbrev pub if◌then◌else◌ {ℓ} : {A : Type ℓ} → Bool → A → A → A
if true then x else y = x
if false then x else y = y

abbrev pub u8 : ℕ → ℕ
u8 n = n % 0x100

abbrev pub u16 : ℕ → ℕ
u16 n = n % 0x1_0000

abbrev pub u32 : ℕ → ℕ
u32 n = n % 0x1_0000_0000

abbrev pub u64 : ℕ → ℕ
u64 n = n % 0x1_0000_0000_0000_0000

-- `a - b` on uint64_t.
abbrev pub sub64 : ℕ → ℕ → ℕ
sub64 a b = u64 (a + 0x1_0000_0000_0000_0000 - b)

-- The int -1.
abbrev pub minus_one : ℕ
minus_one = 0xffff_ffff

abbrev pub is_negative : ℕ → Bool
is_negative n = leb 0x8000_0000 n

-- The conversions of an int to bool and of a bool to int.
abbrev pub to_bool : ℕ → Bool
to_bool n = not (n == 0)

abbrev pub of_bool : Bool → ℕ
of_bool true = 1
of_bool false = 0

-- An int widened to uint64_t: the sign is extended.
abbrev pub int_to_u64 : ℕ → ℕ
int_to_u64 n = if is_negative n then n + 0xffff_ffff_0000_0000 else n

-- `p == nullptr`.
abbrev pub is_null {ℓ} : {A : Type ℓ} → Option A → Bool
is_null none = true
is_null (some _) = false

pub ==_iff : (a b : ℕ) → ((a == b) ≡ true) ↔ (a ≡ b)
==_iff a b = ground arith

pub Bool-cases : (b : Bool) → (b ≡ true) ⊎ (b ≡ false)
Bool-cases true = inl refl
Bool-cases false = inr refl

pub Option-cases {ℓ} : {A : Type ℓ} (o : Option A) → (o ≡ none) ⊎ ((a : A) × (o ≡ some a))
Option-cases none = inl refl
Option-cases (some a) = inr (a, refl)
