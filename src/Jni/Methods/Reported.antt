-- ===== src/Jni/Methods/Reported.antt =====
-- What a native method with an error code does on a live instance (tox4j/with_instance.h).
use Prim.Native.String.{String}
use tox4j.Base.{ℕ, ◌≡◌, ◌≢◌, refl, sym, ◌∙◌, arith}
use tox4j.Base.Effect.{M, ok, Returns}
use tox4j.Core.State.{NewTox, Session}
use tox4j.Jni.Exceptions.{ErrorHandling, success, failure, unhandled, tox_exception}
use tox4j.Jni.Instances.Slots.{live, slot}
use tox4j.Jni.Instances.Invariant.{IsConsistent}
use tox4j.Jni.Calls.{Result, value, throws, report, with_instance}
use tox4j.Jni.Calls.Reached.{ReachedSpec, with_instance_reaches}
use tox4j.Jni.Errors.Codes.{IsFaithful}
use tox4j.Jni.Events.{CoreEvents}
use tox4j.Jni.Methods.{Table, with_error_handling}

-- The result for Java: the value, or the ToxException of the method with the code's name.
abbrev pub ReportSpec :
    {A B E : Type 0}
    → String
    → String
    → E
    → (E → ErrorHandling)
    → (A → B)
    → E
    → A
    → Result B
    → Type 0
ReportSpec module_name method error_ok handle success_func error a r =
    (error ≡ error_ok → r ≡ value (success_func a))
    × (error ≢ error_ok
        → (code : String) × (handle error ≡ failure code)
          × (r ≡ throws (tox_exception module_name method code)))

not_success : (code : String) → failure code ≢ success
not_success code p = ground arith

pub report_at :
    {A B E : Type 0} (module_name method : String) (error_ok : E) (handle : E → ErrorHandling)
    (n : ℕ) (success_func : A → B) (error : E) (a : A) (h : ErrorHandling)
    → IsFaithful error_ok handle
    → handle error ≡ h
    → ReportSpec module_name method error_ok handle success_func error a
        (report module_name method n h success_func a)
unfolding report
report_at module_name method error_ok handle n success_func error a success f e =
    ((λ p. refl), (λ p. absurd (p ((f.0 error).0 e))))
report_at module_name method error_ok handle n success_func error a (failure code) f e =
    ((λ p. absurd (not_success code (sym e ∙ (f.0 error).1 p))), (λ p. (code, e, refl)))
report_at module_name method error_ok handle n success_func error a unhandled f e =
    absurd (f.1 error e)

module _ {Tox A B E : Type 0} where
  -- On a consistent table, a method with an error code whose object has a live instance runs its
  -- function on that instance; if the function returns, then with the code OK the method returns its
  -- value and throws nothing, and with any other code it throws the ToxException of the method with
  -- that code's name and returns the default; the instance holds what the function left, and no
  -- other changes. The handler of the codes is one that reports each faithfully.
  pub method_reports :
      (method : String) (error_ok : E) (handle : E → ErrorHandling) (number : E → ℕ)
      (success_func : A → B) (default : B) (n : ℕ) (func : M (Session Tox CoreEvents) (A × E))
      (s : Table Tox) (x : NewTox Tox CoreEvents) (v : CoreEvents) (a : A) (error : E)
      (t : Session Tox CoreEvents)
      → IsFaithful error_ok handle
      → IsConsistent s
      → slot s n ≡ live x v
      → func (record { new_tox = x; user_data = v }) ≡ ok ((a, error), t)
      → (r : Result B) × ReportSpec "core" method error_ok handle success_func error a r
        × Returns
            (with_instance default n (with_error_handling method handle number success_func func) s)
            (λ b u. ReachedSpec n default r t.new_tox t.user_data s b u)
  unfolding with_error_handling
  method_reports method error_ok handle number success_func default n func s x v a error t f c l e =
      let r : Result B = report "core" method (number error) (handle error) success_func a in
      (
        r,
        report_at "core" method error_ok handle (number error) success_func error a (handle error) f
            refl,
        with_instance_reaches default n (with_error_handling method handle number success_func func)
            s x t.new_tox v t.user_data r c l (rw (e, with_error_handling) refl),
      )
