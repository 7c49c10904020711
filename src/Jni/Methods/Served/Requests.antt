-- ===== src/Jni/Methods/Served/Requests.antt =====
-- The native methods of ToxCoreImpl that run on an instance, but for toxIteration, as requests.
use tox4j.Base.{ℕ, Bool, Option, some}
use tox4j.Base.Effect.{M, pure, ◌>>=◌}
use tox4j.Core.Enums.{Bytes}
use tox4j.Core.Api.{ToxApi}
use tox4j.Core.State.{PauseReason}
use tox4j.Jni.Methods.{Table}
use tox4j.Jni.Methods.Traffic.{
  tox_self_set_typing, tox_send_message, tox_send_action, tox_send_lossy_packet,
  tox_send_lossless_packet, tox_file_control, tox_file_send, tox_file_send_chunk,
}
use tox4j.Jni.Methods.Friends.{
  tox_friend_add, tox_friend_add_norequest, tox_friend_delete, tox_friend_by_public_key,
  tox_friend_get_public_key, tox_friend_exists, tox_friend_list,
}
use tox4j.Jni.Methods.Connection.{
  tox_bootstrap, tox_add_tcp_relay, tox_get_udp_port, tox_get_tcp_port, tox_get_dht_id,
  tox_iteration_interval,
}
use tox4j.Jni.Methods.ClientInfo.{
  tox_self_set_name, tox_self_set_status_message, tox_self_set_status, tox_self_set_nospam,
  tox_self_get_public_key, tox_self_get_secret_key, tox_self_get_address, tox_self_get_nospam,
  tox_self_get_status, tox_self_get_name, tox_self_get_status_message,
}
use tox4j.Jni.Methods.Creation.{tox_save}

-- A method with its arguments. toxFriendAddNorequest has a key: a null key goes to toxcore as it is.
pub data Method : Type 0 where
  self_set_typing : ℕ → Bool → Method
  send_message : ℕ → Option Bytes → Method
  send_action : ℕ → Option Bytes → Method
  send_lossy_packet : ℕ → Option Bytes → Method
  send_lossless_packet : ℕ → Option Bytes → Method
  file_control : ℕ → ℕ → ℕ → Method
  file_send : PauseReason → ℕ → ℕ → ℕ → Option Bytes → Method
  file_send_chunk : ℕ → ℕ → Option Bytes → Method
  friend_add : Option Bytes → Option Bytes → Method
  friend_add_norequest : Bytes → Method
  friend_delete : ℕ → Method
  friend_by_public_key : Option Bytes → Method
  friend_exists : ℕ → Method
  self_set_name : Option Bytes → Method
  self_set_status_message : Option Bytes → Method
  self_set_status : ℕ → Method
  self_set_nospam : ℕ → Method
  bootstrap : Option Bytes → ℕ → Option Bytes → Method
  add_tcp_relay : Option Bytes → ℕ → Option Bytes → Method
  get_udp_port : Method
  get_tcp_port : Method
  get_dht_id : Method
  iteration_interval : Method
  self_get_public_key : Method
  self_get_secret_key : Method
  self_get_address : Method
  self_get_nospam : Method
  self_get_status : Method
  self_get_name : Method
  self_get_status_message : Method
  friend_get_public_key : ℕ → Method
  friend_list : Method
  save : Method

module _ {Tox : Type 0} (api : ToxApi Tox) where
  -- A method on the object with a number; what it returns is dropped.
  unfoldable pub method_step : ℕ → Method → M (Table Tox) (Unit {0})
  method_step i (self_set_typing f b) = tox_self_set_typing api i f b >>= λ _. pure tt
  method_step i (send_message f m) = tox_send_message api i f m >>= λ _. pure tt
  method_step i (send_action f m) = tox_send_action api i f m >>= λ _. pure tt
  method_step i (send_lossy_packet f m) = tox_send_lossy_packet api i f m >>= λ _. pure tt
  method_step i (send_lossless_packet f m) = tox_send_lossless_packet api i f m >>= λ _. pure tt
  method_step i (file_control f n z) = tox_file_control api i f n z >>= λ _. pure tt
  method_step i (file_send g f k z m) = tox_file_send api g i f k z m >>= λ _. pure tt
  method_step i (file_send_chunk f n m) = tox_file_send_chunk api i f n m >>= λ _. pure tt
  method_step i (friend_add a m) = tox_friend_add api i a m >>= λ _. pure tt
  method_step i (friend_add_norequest k) = tox_friend_add_norequest api i (some k) >>= λ _. pure tt
  method_step i (friend_delete f) = tox_friend_delete api i f >>= λ _. pure tt
  method_step i (friend_by_public_key k) = tox_friend_by_public_key api i k >>= λ _. pure tt
  method_step i (friend_exists f) = tox_friend_exists api i f >>= λ _. pure tt
  method_step i (self_set_name m) = tox_self_set_name api i m >>= λ _. pure tt
  method_step i (self_set_status_message m) = tox_self_set_status_message api i m >>= λ _. pure tt
  method_step i (self_set_status n) = tox_self_set_status api i n >>= λ _. pure tt
  method_step i (self_set_nospam n) = tox_self_set_nospam api i n >>= λ _. pure tt
  method_step i (bootstrap a p k) = tox_bootstrap api i a p k >>= λ _. pure tt
  method_step i (add_tcp_relay a p k) = tox_add_tcp_relay api i a p k >>= λ _. pure tt
  method_step i get_udp_port = tox_get_udp_port api i >>= λ _. pure tt
  method_step i get_tcp_port = tox_get_tcp_port api i >>= λ _. pure tt
  method_step i get_dht_id = tox_get_dht_id api i >>= λ _. pure tt
  method_step i iteration_interval = tox_iteration_interval api i >>= λ _. pure tt
  method_step i self_get_public_key = tox_self_get_public_key api i >>= λ _. pure tt
  method_step i self_get_secret_key = tox_self_get_secret_key api i >>= λ _. pure tt
  method_step i self_get_address = tox_self_get_address api i >>= λ _. pure tt
  method_step i self_get_nospam = tox_self_get_nospam api i >>= λ _. pure tt
  method_step i self_get_status = tox_self_get_status api i >>= λ _. pure tt
  method_step i self_get_name = tox_self_get_name api i >>= λ _. pure tt
  method_step i self_get_status_message = tox_self_get_status_message api i >>= λ _. pure tt
  method_step i (friend_get_public_key f) = tox_friend_get_public_key api i f >>= λ _. pure tt
  method_step i friend_list = tox_friend_list api i >>= λ _. pure tt
  method_step i save = tox_save api i >>= λ _. pure tt
