-- ===== src/Jni/Methods/ClientInfo.antt =====
-- ToxCore/clientinfo.cpp: the native methods for the own name, status, keys and address.
use tox4j.Base.{ℕ, Option, none, some, ◌==◌, if◌then◌else◌}
use tox4j.Base.Effect.{M, ◌>>=◌, pure}
use tox4j.Core.Enums.{Bytes, tox_public_key_size, tox_secret_key_size, tox_address_size}
use tox4j.Core.Api.{ToxApi}
use tox4j.Core.State.{Session}
use tox4j.Core.Self.{
  new_tox_self_set_name, new_tox_self_get_name_size, new_tox_self_get_name,
  new_tox_self_set_status_message, new_tox_self_get_status_message_size,
  new_tox_self_get_status_message, new_tox_self_set_status, new_tox_self_get_status,
  new_tox_self_set_nospam, new_tox_self_get_nospam, new_tox_self_get_address,
  new_tox_self_get_public_key, new_tox_self_get_secret_key,
}
use tox4j.Jni.Calls.{with_instance}
use tox4j.Jni.Errors.{handle_set_info_error}
use tox4j.Jni.Errors.Numbers.{number_of_set_info}
use tox4j.Jni.Events.{CoreEvents}
use tox4j.Jni.Methods.{Table, size_of, filled, ignore, on_session, with_error_handling}

module _ {Tox : Type 0} where
  -- A buffer of a fixed size that a function fills.
  abbrev pub read_fixed :
      ℕ → M (Session Tox CoreEvents) Bytes → M (Session Tox CoreEvents) (Option Bytes)
  read_fixed size read = read >>= λ bytes. pure (some (filled size (some bytes)))

  -- A buffer of the size that one function returns and another fills; null for the size 0.
  abbrev pub read_sized :
      M (Session Tox CoreEvents) ℕ
      → M (Session Tox CoreEvents) (Option Bytes)
      → M (Session Tox CoreEvents) (Option Bytes)
  read_sized size_func read = size_func >>= λ size.
      if size == 0 then pure none else (read >>= λ written. pure (some (filled size written)))

module _ {Tox : Type 0} (api : ToxApi Tox) where
  unfoldable pub tox_self_get_public_key : ℕ → M (Table Tox) (Option Bytes)
  unfolding new_tox_self_get_public_key with_instance on_session
  tox_self_get_public_key n =
      with_instance none n
        (on_session (read_fixed tox_public_key_size (new_tox_self_get_public_key api)))

  unfoldable pub tox_self_get_secret_key : ℕ → M (Table Tox) (Option Bytes)
  unfolding new_tox_self_get_secret_key with_instance on_session
  tox_self_get_secret_key n =
      with_instance none n
        (on_session (read_fixed tox_secret_key_size (new_tox_self_get_secret_key api)))

  unfoldable pub tox_self_set_nospam : ℕ → ℕ → M (Table Tox) (Unit {0})
  unfolding new_tox_self_set_nospam with_instance on_session
  tox_self_set_nospam n nospam =
      with_instance tt n (on_session (new_tox_self_set_nospam api nospam))

  unfoldable pub tox_self_get_nospam : ℕ → M (Table Tox) ℕ
  unfolding new_tox_self_get_nospam with_instance on_session
  tox_self_get_nospam n = with_instance 0 n (on_session (new_tox_self_get_nospam api))

  unfoldable pub tox_self_get_address : ℕ → M (Table Tox) (Option Bytes)
  unfolding new_tox_self_get_address with_instance on_session
  tox_self_get_address n =
      with_instance none n (on_session (read_fixed tox_address_size (new_tox_self_get_address api)))

  unfoldable pub tox_self_set_name : ℕ → Option Bytes → M (Table Tox) (Unit {0})
  unfolding new_tox_self_set_name with_instance with_error_handling
  tox_self_set_name n name = with_instance tt n (
      with_error_handling "SetInfo" handle_set_info_error number_of_set_info ignore
        (new_tox_self_set_name api name (size_of name)))

  unfoldable pub tox_self_get_name : ℕ → M (Table Tox) (Option Bytes)
  unfolding new_tox_self_get_name_size new_tox_self_get_name with_instance on_session
  tox_self_get_name n =
      with_instance none n
        (on_session (read_sized (new_tox_self_get_name_size api) (new_tox_self_get_name api)))

  unfoldable pub tox_self_set_status_message : ℕ → Option Bytes → M (Table Tox) (Unit {0})
  unfolding new_tox_self_set_status_message with_instance with_error_handling
  tox_self_set_status_message n message = with_instance tt n (
      with_error_handling "SetInfo" handle_set_info_error number_of_set_info ignore
        (new_tox_self_set_status_message api message (size_of message)))

  unfoldable pub tox_self_get_status_message : ℕ → M (Table Tox) (Option Bytes)
  unfolding new_tox_self_get_status_message_size new_tox_self_get_status_message with_instance
      on_session
  tox_self_get_status_message n = with_instance none n (
      on_session (
        read_sized (new_tox_self_get_status_message_size api)
          (new_tox_self_get_status_message api)))

  unfoldable pub tox_self_set_status : ℕ → ℕ → M (Table Tox) (Unit {0})
  unfolding new_tox_self_set_status with_instance on_session
  tox_self_set_status n status =
      with_instance tt n (on_session (new_tox_self_set_status api status))

  unfoldable pub tox_self_get_status : ℕ → M (Table Tox) ℕ
  unfolding new_tox_self_get_status with_instance on_session
  tox_self_get_status n = with_instance 0 n (on_session (new_tox_self_get_status api))
