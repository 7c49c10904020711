-- ===== src/Core/Messages.antt =====
-- tox/core.cpp: messages and actions to a friend, and custom packets.
pub mod Outcomes
use tox4j.Base.{ℕ, Bool, true, false, not, Option, ◌==◌, ltb, u32, minus_one, is_null}
use tox4j.Base.Effect.{M, assert_some}
use tox4j.Base.Early.{◌>>=◌, ◌>>◌, return_if, finish, lift, body}
use tox4j.Core.Enums.{Bytes, ToxErrSendMessage, ToxErrSendCustomPacket, tox_max_message_length}
use tox4j.Core.Api.{ToxApi}
use tox4j.Core.State.{Session, call_tox}
use tox4j.Core.Files.{new_tox_friend_exists, friend_is_connected}

module _ {Tox U : Type 0} (api : ToxApi Tox) where
  unfoldable pub new_tox_send_something :
      (Tox → ℕ → Bytes → ℕ → ℕ × Tox)
      → ℕ
      → Option Bytes
      → ℕ
      → M (Session Tox U) (ℕ × ToxErrSendMessage)
  unfolding new_tox_friend_exists friend_is_connected
  new_tox_send_something tox_send friend_number message length = body do
    return_if (is_null message) (0, ToxErrSendMessage.null)
    return_if (length == 0) (0, ToxErrSendMessage.empty)
    return_if (ltb tox_max_message_length length) (0, ToxErrSendMessage.too_long)
    exists ← lift (new_tox_friend_exists api friend_number)
    return_if (not exists) (0, ToxErrSendMessage.friend_not_found)
    connected ← lift (friend_is_connected api friend_number)
    return_if (not connected) (0, ToxErrSendMessage.friend_not_connected)
    text ← lift (assert_some message)
    message_id ← lift (call_tox λ t. tox_send t friend_number text (u32 length))
    return_if (message_id == 0) (0, ToxErrSendMessage.sendq)
    finish (message_id, ToxErrSendMessage.ok)

  unfoldable pub new_tox_send_message :
      ℕ → Option Bytes → ℕ → M (Session Tox U) (ℕ × ToxErrSendMessage)
  unfolding new_tox_send_something
  new_tox_send_message = new_tox_send_something api.tox_send_message

  unfoldable pub new_tox_send_action :
      ℕ → Option Bytes → ℕ → M (Session Tox U) (ℕ × ToxErrSendMessage)
  unfolding new_tox_send_something
  new_tox_send_action = new_tox_send_something api.tox_send_action

  unfoldable pub new_tox_send_custom_packet :
      (Tox → ℕ → Option Bytes → ℕ → ℕ × Tox)
      → ℕ
      → Option Bytes
      → ℕ
      → M (Session Tox U) (Bool × ToxErrSendCustomPacket)
  unfolding new_tox_friend_exists friend_is_connected
  new_tox_send_custom_packet send friend_number bytes length = body do
    exists ← lift (new_tox_friend_exists api friend_number)
    return_if (not exists) (false, ToxErrSendCustomPacket.friend_not_found)
    connected ← lift (friend_is_connected api friend_number)
    return_if (not connected) (false, ToxErrSendCustomPacket.friend_not_connected)
    result ← lift (call_tox λ t. send t friend_number bytes (u32 length))
    return_if (result == minus_one) (false, ToxErrSendCustomPacket.sendq)
    finish (true, ToxErrSendCustomPacket.ok)

  unfoldable pub new_tox_send_lossy_packet :
      ℕ → Option Bytes → ℕ → M (Session Tox U) (Bool × ToxErrSendCustomPacket)
  unfolding new_tox_send_custom_packet
  new_tox_send_lossy_packet = new_tox_send_custom_packet api.tox_send_lossy_packet

  unfoldable pub new_tox_send_lossless_packet :
      ℕ → Option Bytes → ℕ → M (Session Tox U) (Bool × ToxErrSendCustomPacket)
  unfolding new_tox_send_custom_packet
  new_tox_send_lossless_packet = new_tox_send_custom_packet api.tox_send_lossless_packet
