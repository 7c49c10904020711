-- ===== src/Jni/Methods/Connection.antt =====
-- ToxCore/connection.cpp: the native methods for bootstrapping, ports, and the iteration.
use tox4j.Base.{ℕ, Bool, Option, none, some, not, ◌||◌, leb, is_negative, is_null, ◌==◌, u16}
use tox4j.Base.Effect.{M, ◌>>◌, ok, fault, assert}
use tox4j.Core.Enums.{Bytes, ToxErrBootstrap, tox_public_key_size}
use tox4j.Core.Api.{ToxApi}
use tox4j.Core.State.{PauseReason, Session}
use tox4j.Core.Self.{new_tox_get_dht_id}
use tox4j.Core.Lifecycle.{
  new_tox_bootstrap, new_tox_add_tcp_relay, new_tox_get_tcp_port, new_tox_get_udp_port,
}
use tox4j.Core.Iteration.{new_tox_iteration, new_tox_iteration_interval}
use tox4j.Jni.Calls.{with_instance}
use tox4j.Jni.Errors.{handle_bootstrap_error, handle_get_port_error}
use tox4j.Jni.Errors.Numbers.{number_of_bootstrap, number_of_get_port}
use tox4j.Jni.Events.{CoreEvents, no_events}
use tox4j.Jni.Methods.{Table, size_of, ignore, same, on_session, with_error_handling}
use tox4j.Jni.Methods.ClientInfo.{read_fixed}

module _ {Tox : Type 0} where
  -- The asserts on the arguments come before the look for the instance.
  unfoldable pub tox_bootstrap_like :
      (Option Bytes → ℕ → Option Bytes → M (Session Tox CoreEvents) (Bool × ToxErrBootstrap))
      → ℕ
      → Option Bytes
      → ℕ
      → Option Bytes
      → M (Table Tox) (Unit {0})
  unfolding with_instance with_error_handling
  tox_bootstrap_like function n address port public_key =
      assert (not (is_negative port))
      >> assert (leb port 65535)
      >> assert (is_null public_key || (size_of public_key == tox_public_key_size))
      >> with_instance tt n (
          with_error_handling "Bootstrap" handle_bootstrap_error number_of_bootstrap ignore
            (function address (u16 port) public_key))

module _ {Tox : Type 0} (api : ToxApi Tox) where
  unfoldable pub tox_bootstrap : ℕ → Option Bytes → ℕ → Option Bytes → M (Table Tox) (Unit {0})
  unfolding tox_bootstrap_like new_tox_bootstrap
  tox_bootstrap = tox_bootstrap_like (new_tox_bootstrap api)

  unfoldable pub tox_add_tcp_relay : ℕ → Option Bytes → ℕ → Option Bytes → M (Table Tox) (Unit {0})
  unfolding tox_bootstrap_like new_tox_add_tcp_relay
  tox_add_tcp_relay = tox_bootstrap_like (new_tox_add_tcp_relay api)

  unfoldable pub tox_get_udp_port : ℕ → M (Table Tox) ℕ
  unfolding with_instance with_error_handling new_tox_get_udp_port
  tox_get_udp_port n = with_instance 0 n (
      with_error_handling "GetPort" handle_get_port_error number_of_get_port same
        new_tox_get_udp_port)

  unfoldable pub tox_get_tcp_port : ℕ → M (Table Tox) ℕ
  unfolding with_instance with_error_handling new_tox_get_tcp_port
  tox_get_tcp_port n = with_instance 0 n (
      with_error_handling "GetPort" handle_get_port_error number_of_get_port same
        new_tox_get_tcp_port)

  unfoldable pub tox_get_dht_id : ℕ → M (Table Tox) (Option Bytes)
  unfolding with_instance on_session new_tox_get_dht_id
  tox_get_dht_id n =
      with_instance none n (on_session (read_fixed tox_public_key_size (new_tox_get_dht_id api)))

  unfoldable pub tox_iteration_interval : ℕ → M (Table Tox) ℕ
  unfolding with_instance on_session new_tox_iteration_interval
  tox_iteration_interval n = with_instance 0 n (on_session (new_tox_iteration_interval api))

  -- The events that the iteration gathered are serialized and cleared. `serialize` is protobuf's.
  unfoldable pub iterate :
      (CoreEvents → Bytes) → PauseReason → M (Session Tox CoreEvents) (Option Bytes)
  unfolding new_tox_iteration no_events
  iterate serialize garbage s = elim (new_tox_iteration api garbage s) [
    | fault x ↦ fault x
    | ok (_, t) ↦ ok (some (serialize t.user_data), record t { user_data = no_events })
  ]

  unfoldable pub tox_iteration :
      (CoreEvents → Bytes) → PauseReason → ℕ → M (Table Tox) (Option Bytes)
  unfolding with_instance on_session iterate
  tox_iteration serialize garbage n = with_instance none n (on_session (iterate serialize garbage))
