-- ===== src/Jni/Av/Reported.antt =====
-- What a native method of ToxAvImpl with an error code does on a live session.
use Prim.Native.String.{String}
use tox4j.Base.{◌≡◌, refl, ℕ}
use tox4j.Base.Effect.{M, ok, Returns}
use tox4j.Av.State.{NewToxAv, AvSession}
use tox4j.Jni.Exceptions.{ErrorHandling}
use tox4j.Jni.Instances.Slots.{live, slot}
use tox4j.Jni.Instances.Invariant.{IsConsistent}
use tox4j.Jni.Calls.{Result, report, with_instance}
use tox4j.Jni.Calls.Reached.{ReachedSpec, with_instance_reaches}
use tox4j.Jni.Errors.Codes.{IsFaithful}
use tox4j.Jni.Methods.Reported.{ReportSpec, report_at}
use tox4j.Jni.Av.{AvTable, av_with_error_handling}
use tox4j.Jni.Av.Events.{AvEvents}

module _ {Av A B E : Type 0} where
  -- On a consistent table of sessions, a method with an error code whose object has a live session runs
  -- its function on that session; if the function returns, then with the code OK the method returns its
  -- value and throws nothing, and with any other code it throws the ToxException of the module av and
  -- the method with that code's name and returns the default; the session holds what the function
  -- left, and no other changes. The handler of the codes is one that reports each faithfully.
  pub av_method_reports :
      (method : String) (error_ok : E) (handle : E → ErrorHandling) (number : E → ℕ)
      (success_func : A → B) (default : B) (n : ℕ) (func : M (AvSession Av AvEvents) (A × E))
      (s : AvTable Av) (x : NewToxAv Av AvEvents) (v : AvEvents) (a : A) (error : E)
      (t : AvSession Av AvEvents)
      → IsFaithful error_ok handle
      → IsConsistent s
      → slot s n ≡ live x v
      → func (record { new_toxav = x; user_data = v }) ≡ ok ((a, error), t)
      → (r : Result B) × ReportSpec "av" method error_ok handle success_func error a r
        × Returns
            (with_instance default n
              (av_with_error_handling method handle number success_func func)
              s)
            (λ b u. ReachedSpec n default r t.new_toxav t.user_data s b u)
  unfolding av_with_error_handling
  av_method_reports method error_ok handle number success_func default n func s x v a error t f c l
        e =
      let r : Result B = report "av" method (number error) (handle error) success_func a in
      (
        r,
        report_at "av" method error_ok handle (number error) success_func error a (handle error) f
            refl,
        with_instance_reaches default n
            (av_with_error_handling method handle number success_func func) s x t.new_toxav v
            t.user_data r c l (rw (e, av_with_error_handling) refl),
      )
