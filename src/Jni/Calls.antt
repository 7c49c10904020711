-- ===== src/Jni/Calls.antt =====
-- tox4j/with_instance.h: how a native method reaches its instance, and how it reports an error.
--
-- A function on a subsystem and its events returns a value, or throws and returns the default value
-- of its type. The locks are not here: the function runs to its end before the next call.
pub mod Reached
use Prim.Native.String.{String}
use tox4j.Base.{ℕ, ◌-◌, Bool, true, false, not, Option, none, some, ◌∷◌, ◌==◌, is_null, set}
use tox4j.Base.Effect.{Outcome, ok, fault, M, wild_call, assert, assert_some}
use tox4j.Base.Early.{E, ◌>>=◌, ◌>>◌, return_if, finish, lift, body}
use tox4j.Jni.Exceptions.{
  JavaException, illegal_state, tox_killed, tox_exception, text, ErrorHandling, success, failure,
  unhandled,
}
use tox4j.Jni.Instances.{Instance, Manager, throw_if, is_valid, at, put_at}

-- What a function that may throw comes to.
pub data Result (A : Type 0) : Type 0 where
  value : A → Result A
  throws : JavaException → Result A

-- A function called with the subsystem and the events of an instance.
abbrev pub Func : Type 0 → Type 0 → Type 0 → Type 0
Func T V A = T → V → Outcome (Result A × T × V)

module _ {T V A : Type 0} where
  abbrev pub or_throw : A → Result A → M (Manager T V) A
  or_throw default (value a) s = ok (a, s)
  or_throw default (throws e) s = ok (default, record s { thrown = e ∷ s.thrown })

  -- tox_instance::with_lock. A null subsystem would be passed on as it is.
  unfoldable pub with_lock : ℕ → Instance T V → A → Func T V A → M (Manager T V) A
  with_lock n instance default func s = elim (assert_some instance.mutex s) [
    | fault x ↦ fault x
    | ok (_, _) ↦ elim (assert_some instance.events s) [
      | fault x ↦ fault x
      | ok (events, _) ↦ elim instance.tox [
        | none ↦ fault wild_call
        | some tox ↦ elim (func tox events) [
          | fault x ↦ fault x
          | ok (result, tox', events') ↦ or_throw default result (record s {
            instances =
                set s.instances (n - 1)
                  (record instance { tox = some tox'; events = some events' });
          })
        ]
      ]
    ]
  ]

  unfoldable pub with_instance : A → ℕ → Func T V A → M (Manager T V) A
  unfolding is_valid at with_lock
  with_instance default instance_number func = body do
    incomplete ← lift (
        throw_if (instance_number == 0)
          (illegal_state instance_number (text "Function called on incomplete object")))
    return_if incomplete default
    valid ← lift λ s. ok (is_valid instance_number s, s)
    invalid ← lift (
        throw_if (not valid)
          (tox_killed instance_number (text "Tox function invoked on invalid tox instance")))
    return_if invalid default
    instance ← lift (at instance_number)
    killed ← lift (
        throw_if (not instance.live)
          (tox_killed instance_number (text "Tox function invoked on killed tox instance")))
    return_if killed default
    result ← lift (with_lock instance_number instance default func)
    finish result

-- What becomes of a result and an error code. `module_name` is that of tox_traits, and
-- `error_number` the code as a number.
unfoldable pub report :
    {A B : Type 0} → String → String → ℕ → ErrorHandling → (A → B) → A → Result B
report module_name method error_number success success_func a = value (success_func a)
report module_name method error_number (failure code) success_func a =
    throws (tox_exception module_name method code)
report module_name method error_number unhandled success_func a =
    throws (illegal_state error_number (text "Unknown error code"))
