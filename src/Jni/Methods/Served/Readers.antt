-- ===== src/Jni/Methods/Served/Readers.antt =====
-- The functions that the native methods read an instance with keep the callbacks and call none.
use tox4j.Base.{ℕ, some, arith}
use tox4j.Base.Effect.{◌>>=◌, pure}
use tox4j.Core.Enums.{tox_public_key_size, tox_secret_key_size, tox_address_size}
use tox4j.Core.Api.{ToxApi}
use tox4j.Core.Friends.{
  new_tox_friend_get_public_key, new_tox_friend_list_size, new_tox_friend_list,
}
use tox4j.Core.Iteration.{new_tox_iteration_interval}
use tox4j.Core.Self.{
  new_tox_get_dht_id, new_tox_self_get_public_key, new_tox_self_get_secret_key,
  new_tox_self_get_address, new_tox_self_get_nospam, new_tox_self_get_status,
  new_tox_self_get_name_size, new_tox_self_get_name, new_tox_self_get_status_message_size,
  new_tox_self_get_status_message,
}
use tox4j.Core.Lifecycle.{
  new_tox_get_udp_port, new_tox_get_tcp_port, new_tox_save_size, new_tox_save,
}
use tox4j.Jni.Methods.{zeros, filled}
use tox4j.Jni.Methods.ClientInfo.{read_fixed, read_sized}
use tox4j.Jni.Methods.Friends.{filled_key}
use tox4j.Jni.Methods.Served.{IsServing}

module _ {Tox : Type 0} (api : ToxApi Tox) where
  pub get_udp_port-IsServing : IsServing {Tox = Tox} (new_tox_get_udp_port)
  unfolding new_tox_get_udp_port
  get_udp_port-IsServing s r = ground arith

  pub get_tcp_port-IsServing : IsServing {Tox = Tox} (new_tox_get_tcp_port)
  unfolding new_tox_get_tcp_port
  get_tcp_port-IsServing s r = ground arith

  pub get_dht_id-IsServing :
      IsServing {Tox = Tox} (read_fixed tox_public_key_size (new_tox_get_dht_id api))
  unfolding new_tox_get_dht_id
  get_dht_id-IsServing s r = ground arith

  pub iteration_interval-IsServing : IsServing {Tox = Tox} (new_tox_iteration_interval api)
  unfolding new_tox_iteration_interval
  iteration_interval-IsServing s r = ground arith

  pub self_get_public_key-IsServing :
      IsServing {Tox = Tox} (read_fixed tox_public_key_size (new_tox_self_get_public_key api))
  unfolding new_tox_self_get_public_key
  self_get_public_key-IsServing s r = ground arith

  pub self_get_secret_key-IsServing :
      IsServing {Tox = Tox} (read_fixed tox_secret_key_size (new_tox_self_get_secret_key api))
  unfolding new_tox_self_get_secret_key
  self_get_secret_key-IsServing s r = ground arith

  pub self_get_address-IsServing :
      IsServing {Tox = Tox} (read_fixed tox_address_size (new_tox_self_get_address api))
  unfolding new_tox_self_get_address
  self_get_address-IsServing s r = ground arith

  pub self_get_nospam-IsServing : IsServing {Tox = Tox} (new_tox_self_get_nospam api)
  unfolding new_tox_self_get_nospam
  self_get_nospam-IsServing s r = ground arith

  pub self_get_status-IsServing : IsServing {Tox = Tox} (new_tox_self_get_status api)
  unfolding new_tox_self_get_status
  self_get_status-IsServing s r = ground arith

  pub self_get_name-IsServing :
      IsServing {Tox = Tox}
        (read_sized (new_tox_self_get_name_size api) (new_tox_self_get_name api))
  unfolding new_tox_self_get_name_size new_tox_self_get_name
  self_get_name-IsServing s r = ground arith

  pub self_get_status_message-IsServing :
      IsServing {Tox = Tox} (
        read_sized (new_tox_self_get_status_message_size api) (new_tox_self_get_status_message api))
  unfolding new_tox_self_get_status_message_size new_tox_self_get_status_message
  self_get_status_message-IsServing s r = ground arith

  pub friend_get_public_key-IsServing :
      (f : ℕ)
      → IsServing {Tox = Tox}
          (filled_key api (new_tox_friend_get_public_key api f (some (zeros tox_public_key_size))))
  unfolding new_tox_friend_get_public_key
  friend_get_public_key-IsServing f s r = ground arith

  pub friend_list-IsServing : IsServing {Tox = Tox} (
      new_tox_friend_list_size api >>= λ size.
      new_tox_friend_list api >>= λ list. pure (some (filled size (some list))))
  unfolding new_tox_friend_list_size new_tox_friend_list
  friend_list-IsServing s r = ground arith

  pub save-IsServing : IsServing {Tox = Tox} (
      new_tox_save_size api >>= λ size.
      new_tox_save api >>= λ bytes. pure (some (filled size (some bytes))))
  unfolding new_tox_save_size new_tox_save
  save-IsServing s r = ground arith
