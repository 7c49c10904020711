-- ===== src/Core/Files.antt =====
-- tox/core.cpp: the client's side of file transfers, and the two friend queries on which every
-- operation on a friend rests.
--
-- A function returns its result with the error code. Where the caller passes no place for the code,
-- it is dropped.
pub mod Numbers
pub mod Control
pub mod Send
pub mod Offers
pub mod Chunk
pub mod Paced
pub mod Delivery
use tox4j.Base.{
  ℕ, ◌+◌, Bool, true, false, not, ◌&&◌, Option, ◌==◌, ltb, leb, if◌then◌else◌, u64, int_to_u64,
  minus_one, is_negative, to_bool, is_null,
}
use tox4j.Base.Effect
use tox4j.Base.Effect.{M, assert, assert_some, skip}
use tox4j.Base.Early.{E, ◌>>=◌, ◌>>◌, return_if, finish, lift, body}
use tox4j.Core.Enums.{
  Bytes, ToxConnection, ToxErrFriendQuery, ToxErrFileControl, ToxErrFileSend, ToxErrFileSendChunk,
  tox_file_control_pause, tox_file_control_resume, tox_file_kind_avatar,
}
use tox4j.Core.Api.{ToxApi, OldFileControl}
use tox4j.Core.State.{
  PauseReason, TransferState, FileTransfer, Session, old_file_number, send_receive, call_tox,
  read_tox, get_transfer, put_transfer, add_transfer,
}
use tox4j.Core.Handlers.{connection_of_status}

abbrev pub is_paused : TransferState → Bool
is_paused TransferState.paused = true
is_paused _ = false

abbrev pub is_by_friend : PauseReason → Bool
is_by_friend PauseReason.by_friend = true
is_by_friend _ = false

abbrev pub is_connected : ToxConnection → Bool
is_connected ToxConnection.none = false
is_connected _ = true

module _ {Tox U : Type 0} (api : ToxApi Tox) where
  unfoldable pub new_tox_friend_exists : ℕ → M (Session Tox U) Bool
  new_tox_friend_exists friend_number =
      read_tox λ t. to_bool (api.tox_friend_exists t friend_number)

  unfoldable pub new_tox_friend_get_connection_status :
      ℕ → M (Session Tox U) (ToxConnection × ToxErrFriendQuery)
  unfolding new_tox_friend_exists connection_of_status
  new_tox_friend_get_connection_status friend_number = body do
    exists ← lift (new_tox_friend_exists friend_number)
    return_if (not exists) (ToxConnection.none, ToxErrFriendQuery.friend_not_found)
    status ← lift (read_tox λ t. api.tox_get_friend_connection_status t friend_number)
    lift (assert (not (status == minus_one)))
    finish (connection_of_status status, ToxErrFriendQuery.ok)

  -- `new_tox_friend_get_connection_status (tox, friend_number, nullptr)`, as a truth value.
  unfoldable pub friend_is_connected : ℕ → M (Session Tox U) Bool
  unfolding new_tox_friend_get_connection_status
  friend_is_connected friend_number s =
      Effect.◌>>=◌ (new_tox_friend_get_connection_status friend_number)
        (λ r. Effect.pure (is_connected r.0)) s

  -- `tox_file_send_control` about one of the transfers.
  unfoldable pub send_control : ℕ → ℕ → OldFileControl → M (Session Tox U) ℕ
  unfolding send_receive old_file_number
  send_control friend_number file_number control = call_tox λ t.
      api.tox_file_send_control t friend_number (send_receive file_number)
        (old_file_number file_number) control

  unfoldable pub pause_control :
      ℕ → ℕ → FileTransfer → E (Session Tox U) (Bool × ToxErrFileControl) (Bool × ToxErrFileControl)
  unfolding send_control
  pause_control friend_number file_number transfer = do
    return_if (is_paused transfer.state) (false, ToxErrFileControl.already_paused)
    result ← lift (send_control friend_number file_number OldFileControl.pause)
    lift (assert (result == 0))
    finish (true, ToxErrFileControl.ok)

  -- A failure of `tox_file_send_control` is passed over here.
  unfoldable pub resume_control :
      ℕ → ℕ → FileTransfer → E (Session Tox U) (Bool × ToxErrFileControl) (Bool × ToxErrFileControl)
  unfolding send_control
  resume_control friend_number file_number transfer = do
    return_if (not (is_paused transfer.state)) (false, ToxErrFileControl.not_paused)
    return_if (is_by_friend transfer.cause) (false, ToxErrFileControl.denied)
    result ← lift (send_control friend_number file_number OldFileControl.accept)
    finish (true, ToxErrFileControl.ok)

  unfoldable pub new_tox_file_control : ℕ → ℕ → ℕ → M (Session Tox U) (Bool × ToxErrFileControl)
  unfolding new_tox_friend_exists friend_is_connected get_transfer pause_control resume_control
  new_tox_file_control friend_number file_number control = body do
    exists ← lift (new_tox_friend_exists friend_number)
    return_if (not exists) (false, ToxErrFileControl.friend_not_found)
    connected ← lift (friend_is_connected friend_number)
    return_if (not connected) (false, ToxErrFileControl.friend_not_connected)
    found ← lift (get_transfer friend_number file_number)
    return_if (is_null found) (false, ToxErrFileControl.not_found)
    transfer ← lift (assert_some found)
    if control == tox_file_control_pause
        then pause_control friend_number file_number transfer
        else if control == tox_file_control_resume
        then resume_control friend_number file_number transfer
        else finish (true, ToxErrFileControl.ok)

  unfoldable pub new_tox_file_send :
      PauseReason → ℕ → ℕ → ℕ → Option Bytes → ℕ → M (Session Tox U) (ℕ × ToxErrFileSend)
  unfolding new_tox_friend_exists friend_is_connected get_transfer add_transfer
  new_tox_file_send garbage friend_number kind file_size filename filename_length = body do
    return_if (ltb 255 filename_length) (0, ToxErrFileSend.name_too_long)
    return_if ((filename_length == 0) && not (kind == tox_file_kind_avatar))
        (0, ToxErrFileSend.name_empty)
    return_if (is_null filename && not (kind == tox_file_kind_avatar)) (0, ToxErrFileSend.null)
    exists ← lift (new_tox_friend_exists friend_number)
    return_if (not exists) (0, ToxErrFileSend.friend_not_found)
    connected ← lift (friend_is_connected friend_number)
    return_if (not connected) (0, ToxErrFileSend.friend_not_connected)
    sender ←
        lift
          (call_tox λ t. api.tox_new_file_sender t friend_number file_size filename filename_length)
    return_if (sender == minus_one) (0, ToxErrFileSend.too_many)
    lift (assert (not (is_negative sender)))
    lift (assert (leb sender 255))
    found ← lift (get_transfer friend_number sender)
    lift (assert (is_null found))
    lift (add_transfer garbage friend_number sender file_size)
    finish (sender, ToxErrFileSend.ok)

  -- The FINISHED control after the last byte of the file.
  unfoldable pub finish_if_done : ℕ → ℕ → FileTransfer → M (Session Tox U) (Unit {0})
  unfolding send_control
  finish_if_done friend_number file_number transfer =
      if transfer.position == transfer.file_size
      then Effect.◌>>=◌ (send_control friend_number file_number OldFileControl.finished)
          (λ result. assert (result == 0))
      else skip

  unfoldable pub new_tox_file_send_chunk :
      ℕ → ℕ → Option Bytes → ℕ → M (Session Tox U) (Bool × ToxErrFileSendChunk)
  unfolding new_tox_friend_exists friend_is_connected get_transfer old_file_number finish_if_done
  new_tox_file_send_chunk friend_number file_number bytes length = body do
    lift (assert (not (length == 0)))
    data_size ← lift (read_tox λ t. int_to_u64 (api.tox_file_data_size t friend_number))
    return_if (ltb data_size length) (false, ToxErrFileSendChunk.too_large)
    return_if (not (length == 0) && is_null bytes) (false, ToxErrFileSendChunk.null)
    exists ← lift (new_tox_friend_exists friend_number)
    return_if (not exists) (false, ToxErrFileSendChunk.friend_not_found)
    connected ← lift (friend_is_connected friend_number)
    return_if (not connected) (false, ToxErrFileSendChunk.friend_not_connected)
    found ← lift (get_transfer friend_number file_number)
    return_if (is_null found) (false, ToxErrFileSendChunk.not_found)
    transfer ← lift (assert_some found)
    chunk ← lift (assert_some bytes)
    result ← lift (
        call_tox
          λ t. api.tox_file_send_data t friend_number (old_file_number file_number) chunk length)
    lift (assert (not (result == minus_one)))
    let position = u64 (transfer.position + length)
    let sent = record transfer { position = position; event_pending = false }
    lift (put_transfer friend_number file_number sent)
    lift (finish_if_done friend_number file_number sent)
    finish (true, ToxErrFileSendChunk.ok)
