-- ===== src/Jni/Methods/Creation.antt =====
-- ToxCore/lifecycle.cpp: the native methods that create, end and save an instance.
pub mod Created
use tox4j.Base.{ℕ, Bool, Option, none, some, ◌∷◌, not, is_negative, leb, u16}
use tox4j.Base.Effect.{M, ok, fault, assertion_failed, assert, ◌>>=◌, ◌>>◌, pure}
use tox4j.Core.Enums.{Bytes, ToxErrNew}
use tox4j.Core.Api.{ToxApi}
use tox4j.Core.State.{NewTox}
use tox4j.Core.Lifecycle.{new_tox_options_new, new_tox_new, new_tox_save_size, new_tox_save}
use tox4j.Jni.Exceptions.{
  JavaException, success, failure, unhandled, tox_exception, illegal_state, text,
}
use tox4j.Jni.Instances.{make_instance, add, kill, finalize}
use tox4j.Jni.Calls.{with_instance}
use tox4j.Jni.Errors.{handle_new_error}
use tox4j.Jni.Errors.Numbers.{number_of_new}
use tox4j.Jni.Events.{CoreEvents, no_events}
use tox4j.Jni.Events.Callbacks.{set_up_callbacks}
use tox4j.Jni.Methods.{Table, size_of, filled, on_session}

module _ {Tox : Type 0} where
  abbrev pub throw : JavaException → M (Table Tox) (Unit {0})
  throw e s = ok (tt, record s { thrown = e ∷ s.thrown })

  -- The success function of toxNew: callbacks into a new events object, and a place in the table.
  unfoldable pub install : Option (NewTox Tox CoreEvents) → M (Table Tox) ℕ
  unfolding set_up_callbacks no_events make_instance add
  install tox_pointer s = elim tox_pointer [
    | none ↦ fault assertion_failed
    | some tox ↦ elim (set_up_callbacks (record { new_tox = tox; user_data = no_events })) [
      | fault x ↦ fault x
      | ok (_, t) ↦ add (make_instance t.new_tox t.user_data) s
    ]
  ]

  -- with_error_handling, around tox_new. On a failure the pointer that came with the error is dropped.
  unfoldable pub created_or_thrown : Option (NewTox Tox CoreEvents) × ToxErrNew → M (Table Tox) ℕ
  unfolding install
  created_or_thrown (tox, error) = elim (handle_new_error error) [
    | success ↦ install tox
    | failure code ↦ throw (tox_exception "core" "New" code) >> pure 0
    | unhandled ↦ throw (illegal_state (number_of_new error) (text "Unknown error code")) >> pure 0
  ]

module _ {Tox : Type 0} (api : ToxApi Tox) where
  unfoldable pub tox_new :
      Bool → Bool → Option Bytes → Bool → Bool → ℕ → Option Bytes → ℕ → M (Table Tox) ℕ
  unfolding created_or_thrown new_tox_options_new new_tox_new
  tox_new allocated malloc_works save_data ipv6 udp proxy_type proxy_address proxy_port =
      assert (not (is_negative proxy_type))
      >> assert (not (is_negative proxy_port))
      >> assert (leb proxy_port 65535)
      >> (elim (new_tox_options_new allocated).0 [
        | none ↦ throw (tox_exception "core" "New" "MALLOC") >> pure 0
        | some opts ↦ created_or_thrown (
            new_tox_new api malloc_works
              (some (record opts {
                ipv6_enabled = ipv6;
                udp_enabled = udp;
                proxy_type = proxy_type;
                proxy_address = proxy_address;
                proxy_port = u16 proxy_port;
              }))
              save_data (size_of save_data))
      ])

  unfoldable pub tox_kill : ℕ → M (Table Tox) (Unit {0})
  unfolding kill
  tox_kill = kill

  unfoldable pub tox_finalize : ℕ → M (Table Tox) (Unit {0})
  unfolding finalize
  tox_finalize = finalize

  unfoldable pub tox_save : ℕ → M (Table Tox) (Option Bytes)
  unfolding with_instance on_session new_tox_save_size new_tox_save
  tox_save n = with_instance none n (
      on_session (
        new_tox_save_size api >>= λ size.
        new_tox_save api >>= λ bytes. pure (some (filled size (some bytes)))))
