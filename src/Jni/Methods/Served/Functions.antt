-- ===== src/Jni/Methods/Served/Functions.antt =====
-- The functions of the API that the native methods run keep the callbacks and call none.
use tox4j.Base.{ℕ, Bool, Option, arith}
use tox4j.Core.Enums.{Bytes}
use tox4j.Core.Api.{ToxApi}
use tox4j.Core.State.{PauseReason}
use tox4j.Core.Files.{
  new_tox_friend_exists, new_tox_file_control, new_tox_file_send, new_tox_file_send_chunk,
}
use tox4j.Core.Friends.{
  added, new_tox_friend_add, new_tox_friend_add_norequest, new_tox_friend_delete,
  new_tox_friend_by_public_key, new_tox_self_set_typing,
}
use tox4j.Core.Messages.{
  new_tox_send_something, new_tox_send_custom_packet, new_tox_send_message, new_tox_send_action,
  new_tox_send_lossy_packet, new_tox_send_lossless_packet,
}
use tox4j.Core.Self.{
  set_info, new_tox_self_set_name, new_tox_self_set_status_message, new_tox_self_set_status,
  new_tox_self_set_nospam,
}
use tox4j.Core.Lifecycle.{new_tox_bootstrap, new_tox_add_tcp_relay}
use tox4j.Jni.Methods.{size_of}
use tox4j.Jni.Methods.Served.{IsServing}

module _ {Tox : Type 0} (api : ToxApi Tox) where
  pub self_set_typing-IsServing :
      (f : ℕ) (b : Bool) → IsServing {Tox = Tox} (new_tox_self_set_typing api f b)
  unfolding new_tox_self_set_typing
  self_set_typing-IsServing f b s r = ground arith

  pub send_message-IsServing :
      (f : ℕ) (m : Option Bytes) → IsServing {Tox = Tox} (new_tox_send_message api f m (size_of m))
  unfolding new_tox_send_message new_tox_send_something
  send_message-IsServing f m s r = ground arith

  pub send_action-IsServing :
      (f : ℕ) (m : Option Bytes) → IsServing {Tox = Tox} (new_tox_send_action api f m (size_of m))
  unfolding new_tox_send_action new_tox_send_something
  send_action-IsServing f m s r = ground arith

  pub send_lossy_packet-IsServing :
      (f : ℕ) (m : Option Bytes)
      → IsServing {Tox = Tox} (new_tox_send_lossy_packet api f m (size_of m))
  unfolding new_tox_send_lossy_packet new_tox_send_custom_packet
  send_lossy_packet-IsServing f m s r = ground arith

  pub send_lossless_packet-IsServing :
      (f : ℕ) (m : Option Bytes)
      → IsServing {Tox = Tox} (new_tox_send_lossless_packet api f m (size_of m))
  unfolding new_tox_send_lossless_packet new_tox_send_custom_packet
  send_lossless_packet-IsServing f m s r = ground arith

  pub file_control-IsServing :
      (f : ℕ) (n : ℕ) (z : ℕ) → IsServing {Tox = Tox} (new_tox_file_control api f n z)
  unfolding new_tox_file_control
  file_control-IsServing f n z s r = ground arith

  pub file_send-IsServing :
      (g : PauseReason) (f : ℕ) (k : ℕ) (z : ℕ) (m : Option Bytes)
      → IsServing {Tox = Tox} (new_tox_file_send api g f k z m (size_of m))
  unfolding new_tox_file_send
  file_send-IsServing g f k z m s r = ground arith

  pub file_send_chunk-IsServing :
      (f : ℕ) (n : ℕ) (m : Option Bytes)
      → IsServing {Tox = Tox} (new_tox_file_send_chunk api f n m (size_of m))
  unfolding new_tox_file_send_chunk
  file_send_chunk-IsServing f n m s r = ground arith

  pub friend_add-IsServing :
      (a : Option Bytes) (m : Option Bytes)
      → IsServing {Tox = Tox} (new_tox_friend_add api a m (size_of m))
  unfolding new_tox_friend_add added
  friend_add-IsServing a m s r = ground arith

  pub friend_add_norequest-IsServing :
      (k : Bytes) → IsServing {Tox = Tox} (new_tox_friend_add_norequest api k)
  unfolding new_tox_friend_add_norequest added
  friend_add_norequest-IsServing k s r = ground arith

  pub friend_delete-IsServing : (f : ℕ) → IsServing {Tox = Tox} (new_tox_friend_delete api f)
  unfolding new_tox_friend_delete
  friend_delete-IsServing f s r = ground arith

  pub friend_by_public_key-IsServing :
      (k : Option Bytes) → IsServing {Tox = Tox} (new_tox_friend_by_public_key api k)
  unfolding new_tox_friend_by_public_key
  friend_by_public_key-IsServing k s r = ground arith

  pub friend_exists-IsServing : (f : ℕ) → IsServing {Tox = Tox} (new_tox_friend_exists api f)
  unfolding new_tox_friend_exists
  friend_exists-IsServing f s r = ground arith

  pub self_set_name-IsServing :
      (m : Option Bytes) → IsServing {Tox = Tox} (new_tox_self_set_name api m (size_of m))
  unfolding new_tox_self_set_name set_info
  self_set_name-IsServing m s r = ground arith

  pub self_set_status_message-IsServing :
      (m : Option Bytes) → IsServing {Tox = Tox} (new_tox_self_set_status_message api m (size_of m))
  unfolding new_tox_self_set_status_message set_info
  self_set_status_message-IsServing m s r = ground arith

  pub self_set_status-IsServing : (n : ℕ) → IsServing {Tox = Tox} (new_tox_self_set_status api n)
  unfolding new_tox_self_set_status
  self_set_status-IsServing n s r = ground arith

  pub self_set_nospam-IsServing : (n : ℕ) → IsServing {Tox = Tox} (new_tox_self_set_nospam api n)
  unfolding new_tox_self_set_nospam
  self_set_nospam-IsServing n s r = ground arith

  pub bootstrap-IsServing :
      (a : Option Bytes) (p : ℕ) (k : Option Bytes)
      → IsServing {Tox = Tox} (new_tox_bootstrap api a p k)
  unfolding new_tox_bootstrap
  bootstrap-IsServing a p k s r = ground arith

  pub add_tcp_relay-IsServing :
      (a : Option Bytes) (p : ℕ) (k : Option Bytes)
      → IsServing {Tox = Tox} (new_tox_add_tcp_relay api a p k)
  unfolding new_tox_add_tcp_relay
  add_tcp_relay-IsServing a p k s r = ground arith
