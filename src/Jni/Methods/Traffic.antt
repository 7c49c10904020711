-- ===== src/Jni/Methods/Traffic.antt =====
-- ToxCore/interaction.cpp, ToxCore/custom.cpp and ToxCore/filetransfer.cpp: the native methods for
-- messages, custom packets and files.
use tox4j.Base.{ℕ, Bool, Option}
use tox4j.Base.Effect.{M}
use tox4j.Core.Enums.{Bytes}
use tox4j.Core.Api.{ToxApi}
use tox4j.Core.State.{PauseReason}
use tox4j.Core.Friends.{new_tox_self_set_typing}
use tox4j.Core.Messages.{
  new_tox_send_message, new_tox_send_action, new_tox_send_lossy_packet,
  new_tox_send_lossless_packet,
}
use tox4j.Core.Files.{new_tox_file_control, new_tox_file_send, new_tox_file_send_chunk}
use tox4j.Jni.Calls.{with_instance}
use tox4j.Jni.Errors.{
  handle_set_typing_error, handle_send_message_error, handle_send_custom_packet_error,
  handle_file_control_error, handle_file_send_error, handle_file_send_chunk_error,
}
use tox4j.Jni.Errors.Numbers.{
  number_of_set_typing, number_of_send_message, number_of_send_custom_packet,
  number_of_file_control, number_of_file_send, number_of_file_send_chunk,
}
use tox4j.Jni.Methods.{Table, size_of, ignore, same, with_error_handling}

module _ {Tox : Type 0} (api : ToxApi Tox) where
  unfoldable pub tox_self_set_typing : ℕ → ℕ → Bool → M (Table Tox) (Unit {0})
  unfolding with_instance with_error_handling new_tox_self_set_typing
  tox_self_set_typing n friend_number is_typing = with_instance tt n (
      with_error_handling "SetTyping" handle_set_typing_error number_of_set_typing ignore
        (new_tox_self_set_typing api friend_number is_typing))

  unfoldable pub tox_send_message : ℕ → ℕ → Option Bytes → M (Table Tox) ℕ
  unfolding with_instance with_error_handling new_tox_send_message
  tox_send_message n friend_number message = with_instance 0 n (
      with_error_handling "SendMessage" handle_send_message_error number_of_send_message same
        (new_tox_send_message api friend_number message (size_of message)))

  unfoldable pub tox_send_action : ℕ → ℕ → Option Bytes → M (Table Tox) ℕ
  unfolding with_instance with_error_handling new_tox_send_action
  tox_send_action n friend_number action = with_instance 0 n (
      with_error_handling "SendMessage" handle_send_message_error number_of_send_message same
        (new_tox_send_action api friend_number action (size_of action)))

  unfoldable pub tox_send_lossy_packet : ℕ → ℕ → Option Bytes → M (Table Tox) (Unit {0})
  unfolding with_instance with_error_handling new_tox_send_lossy_packet
  tox_send_lossy_packet n friend_number packet = with_instance tt n (
      with_error_handling "SendCustomPacket" handle_send_custom_packet_error
        number_of_send_custom_packet ignore
        (new_tox_send_lossy_packet api friend_number packet (size_of packet)))

  unfoldable pub tox_send_lossless_packet : ℕ → ℕ → Option Bytes → M (Table Tox) (Unit {0})
  unfolding with_instance with_error_handling new_tox_send_lossless_packet
  tox_send_lossless_packet n friend_number packet = with_instance tt n (
      with_error_handling "SendCustomPacket" handle_send_custom_packet_error
        number_of_send_custom_packet ignore
        (new_tox_send_lossless_packet api friend_number packet (size_of packet)))

  unfoldable pub tox_file_control : ℕ → ℕ → ℕ → ℕ → M (Table Tox) (Unit {0})
  unfolding with_instance with_error_handling new_tox_file_control
  tox_file_control n friend_number file_number control = with_instance tt n (
      with_error_handling "FileControl" handle_file_control_error number_of_file_control ignore
        (new_tox_file_control api friend_number file_number control))

  unfoldable pub tox_file_send : PauseReason → ℕ → ℕ → ℕ → ℕ → Option Bytes → M (Table Tox) ℕ
  unfolding with_instance with_error_handling new_tox_file_send
  tox_file_send garbage n friend_number kind file_size filename = with_instance 0 n (
      with_error_handling "FileSend" handle_file_send_error number_of_file_send same
        (new_tox_file_send api garbage friend_number kind file_size filename (size_of filename)))

  unfoldable pub tox_file_send_chunk : ℕ → ℕ → ℕ → Option Bytes → M (Table Tox) (Unit {0})
  unfolding with_instance with_error_handling new_tox_file_send_chunk
  tox_file_send_chunk n friend_number file_number chunk = with_instance tt n (
      with_error_handling "FileSendChunk" handle_file_send_chunk_error number_of_file_send_chunk
        ignore (new_tox_file_send_chunk api friend_number file_number chunk (size_of chunk)))
