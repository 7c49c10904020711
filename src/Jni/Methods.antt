-- ===== src/Jni/Methods.antt =====
-- The native methods of im.tox.tox4j.ToxCoreImpl, over the table of instances: their common parts.
--
-- An array is an Option of its bytes, a null reference none. A method returns what Java receives; an
-- exception is in the table's list, and the value is then the default one.
pub mod ClientInfo
pub mod Connection
pub mod Friends
pub mod Traffic
pub mod Creation
pub mod Reported
pub mod Iterated
pub mod Served
use Prim.Native.String.{String}
use tox4j.Base.{ℕ, zero, suc, Option, none, some, [], ◌∷◌, length, take}
use tox4j.Base.Effect.{M, ok, fault}
use tox4j.Core.Enums.{Bytes}
use tox4j.Core.State.{NewTox, Session}
use tox4j.Jni.Exceptions.{ErrorHandling}
use tox4j.Jni.Instances.{Manager}
use tox4j.Jni.Calls.{Result, value, Func, with_instance, report}
use tox4j.Jni.Events.{CoreEvents}

abbrev pub Table : Type 0 → Type 0
Table Tox = Manager (NewTox Tox CoreEvents) CoreEvents

-- ByteArray::size.
abbrev pub size_of : Option Bytes → ℕ
size_of none = 0
size_of (some bytes) = length bytes

abbrev pub zeros : ℕ → Bytes
zeros zero = []
zeros (suc n) = 0 ∷ zeros n

-- A zeroed buffer of the given size, after a callee has written into it, or has not.
abbrev pub filled : ℕ → Option Bytes → Bytes
filled size none = zeros size
filled size (some bytes) = take size bytes

-- `[](bool) { }`.
abbrev pub ignore : {A : Type 0} → A → Unit {0}
ignore a = tt

abbrev pub same : {A : Type 0} → A → A
same a = a

module _ {Tox : Type 0} where
  -- A function that throws nothing.
  unfoldable pub on_session :
      {A : Type 0} → M (Session Tox CoreEvents) A → Func (NewTox Tox CoreEvents) CoreEvents A
  on_session func tox events = elim (func (record { new_tox = tox; user_data = events })) [
    | fault x ↦ fault x
    | ok (a, s) ↦ ok (value a, s.new_tox, s.user_data)
  ]

  -- with_error_handling, on a function with an error code.
  unfoldable pub with_error_handling :
      {A B E : Type 0}
      → String
      → (E → ErrorHandling)
      → (E → ℕ)
      → (A → B)
      → M (Session Tox CoreEvents) (A × E)
      → Func (NewTox Tox CoreEvents) CoreEvents B
  unfolding report
  with_error_handling method error_func number success_func tox_func tox events =
      elim (tox_func (record { new_tox = tox; user_data = events })) [
        | fault x ↦ fault x
        | ok ((a, error), s) ↦ ok (
          report "core" method (number error) (error_func error) success_func a,
          s.new_tox,
          s.user_data,
        )
      ]
