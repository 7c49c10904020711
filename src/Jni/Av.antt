-- ===== src/Jni/Av.antt =====
-- The native methods of im.tox.tox4j.ToxAvImpl, over their own table of instances: what they share.
pub mod Events
pub mod Callbacks
pub mod Errors
pub mod Methods
pub mod Creation
pub mod Reported
pub mod Received
use Prim.Native.String.{String}
use tox4j.Base.{ℕ}
use tox4j.Base.Effect.{M, ok, fault}
use tox4j.Av.State.{NewToxAv, AvSession}
use tox4j.Jni.Exceptions.{ErrorHandling}
use tox4j.Jni.Instances.{Manager}
use tox4j.Jni.Calls.{value, Func, report}
use tox4j.Jni.Av.Events.{AvEvents}

abbrev pub AvTable : Type 0 → Type 0
AvTable Av = Manager (NewToxAv Av AvEvents) AvEvents

module _ {Av : Type 0} where
  -- A function that throws nothing.
  unfoldable pub on_av_session :
      {A : Type 0} → M (AvSession Av AvEvents) A → Func (NewToxAv Av AvEvents) AvEvents A
  on_av_session func av events = elim (func (record { new_toxav = av; user_data = events })) [
    | fault x ↦ fault x
    | ok (a, s) ↦ ok (value a, s.new_toxav, s.user_data)
  ]

  -- with_error_handling of the namespace av, on a function with an error code.
  unfoldable pub av_with_error_handling :
      {A B E : Type 0}
      → String
      → (E → ErrorHandling)
      → (E → ℕ)
      → (A → B)
      → M (AvSession Av AvEvents) (A × E)
      → Func (NewToxAv Av AvEvents) AvEvents B
  unfolding report
  av_with_error_handling method error_func number success_func toxav_func av events =
      elim (toxav_func (record { new_toxav = av; user_data = events })) [
        | fault x ↦ fault x
        | ok ((a, error), s) ↦ ok (
          report "av" method (number error) (error_func error) success_func a,
          s.new_toxav,
          s.user_data,
        )
      ]
