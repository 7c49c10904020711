-- ===== src/Core/Handlers.antt =====
-- tox/core_private.h: the functions of new_Tox::CB, which toxcore calls from inside `tox_do`, and
-- the run of such a `tox_do`.
pub mod Controls
pub mod Receive
pub mod Told
use Prim.Native.Nat.{bit_or}
use mathlib.Core.Option
use tox4j.Base.{
  ℕ, ◌+◌, Bool, true, ◌&&◌, Option, none, some, [], ◌∷◌, ◌==◌, if◌then◌else◌, u64, to_bool,
}
use tox4j.Base.Effect.{ok, fault, M, ◌>>=◌, ◌>>◌, assert, assert_some, skip}
use tox4j.Core.Enums.{Bytes, ToxConnection, tox_file_kind_data, tox_file_control_resume}
use tox4j.Core.Api.{ToxApi, CoreCall, OldFileControl, Activity}
use tox4j.Core.State.{
  PauseReason, TransferState, FileTransfer, Callbacks, Session, new_file_number, set_tox, call_tox,
  call_back, get_transfer, put_transfer, add_transfer, remove_transfer,
}

-- `p[0]`, of a buffer that has a first byte.
abbrev pub first_byte : Bytes → ℕ
first_byte [] = 0
first_byte (b ∷ _) = b

-- `status ? TOX_CONNECTION_UDP4 : TOX_CONNECTION_NONE`.
unfoldable pub connection_of_status : ℕ → ToxConnection
connection_of_status status = if to_bool status then ToxConnection.udp4 else ToxConnection.none

module _ {Tox U : Type 0} where
  abbrev pub callbacks : (Callbacks U → Option (U → U)) → M (Session Tox U) (Unit {0})
  callbacks cb s = call_back (cb s.new_tox.callbacks) s

  -- A name or status message of one NUL byte is reported as an empty one.
  unfoldable pub name_change : ℕ → Bytes → ℕ → M (Session Tox U) (Unit {0})
  name_change friend_number newname length =
      if (length == 1) && (first_byte newname == 0)
      then callbacks (λ c. Option.map (λ f. f friend_number none 0) c.friend_name)
      else callbacks (λ c. Option.map (λ f. f friend_number (some newname) length) c.friend_name)

  unfoldable pub status_message : ℕ → Bytes → ℕ → M (Session Tox U) (Unit {0})
  status_message friend_number newstatus length =
      if (length == 1) && (first_byte newstatus == 0)
      then callbacks (λ c. Option.map (λ f. f friend_number none 0) c.friend_status_message)
      else callbacks
          (λ c. Option.map (λ f. f friend_number (some newstatus) length) c.friend_status_message)

  unfoldable pub file_send_request :
      PauseReason → ℕ → ℕ → ℕ → Bytes → ℕ → M (Session Tox U) (Unit {0})
  unfolding add_transfer
  file_send_request garbage friend_number filenumber filesize filename length = do
    add_transfer garbage friend_number (bit_or filenumber 0x100) filesize
    callbacks (λ c.
        Option.map
          (λ f.
            f friend_number (bit_or filenumber 0x100) tox_file_kind_data filesize filename length)
          c.file_receive)

  -- The FINISHED control: a request for no bytes tells the client, and the transfer is dropped.
  unfoldable pub finish_transfer : ℕ → ℕ → FileTransfer → M (Session Tox U) (Unit {0})
  unfolding remove_transfer
  finish_transfer friend_number file_number transfer = do
    callbacks (λ c.
        Option.map (λ f. f friend_number file_number transfer.position 0) c.file_request_chunk)
    remove_transfer friend_number file_number

  -- The ACCEPT control, as RESUME.
  unfoldable pub resume_transfer : ℕ → ℕ → FileTransfer → M (Session Tox U) (Unit {0})
  resume_transfer friend_number file_number transfer = do
    put_transfer friend_number file_number (record transfer { state = TransferState.running })
    callbacks
        (λ c. Option.map (λ f. f friend_number file_number tox_file_control_resume) c.file_control)

  unfoldable pub control_switch :
      OldFileControl → ℕ → ℕ → FileTransfer → M (Session Tox U) (Unit {0})
  unfolding finish_transfer resume_transfer
  control_switch OldFileControl.accept fn file_number t = resume_transfer fn file_number t
  control_switch OldFileControl.finished fn file_number t = finish_transfer fn file_number t
  control_switch _ fn file_number t = assert Bool.false

  unfoldable pub file_control : ℕ → Bool → ℕ → OldFileControl → M (Session Tox U) (Unit {0})
  unfolding get_transfer control_switch
  file_control friend_number receive_send filenumber control_type = do
    let file_number = new_file_number receive_send filenumber
    found ← get_transfer friend_number file_number
    transfer ← assert_some found
    control_switch control_type friend_number file_number transfer

  unfoldable pub lossy_packet : ℕ → Bytes → ℕ → M (Session Tox U) (Unit {0})
  lossy_packet friend_number bytes length =
      callbacks λ c. Option.map (λ f. f friend_number bytes length) c.friend_lossy_packet

  unfoldable pub lossless_packet : ℕ → Bytes → ℕ → M (Session Tox U) (Unit {0})
  lossless_packet friend_number bytes length =
      callbacks λ c. Option.map (λ f. f friend_number bytes length) c.friend_lossless_packet

module _ {Tox U : Type 0} (api : ToxApi Tox) where
  -- The receiver's FINISHED, after the last byte.
  unfoldable pub acknowledge : ℕ → ℕ → M (Session Tox U) (Unit {0})
  acknowledge friend_number filenumber = do
    result ←
        call_tox
          λ t. api.tox_file_send_control t friend_number true filenumber OldFileControl.finished
    assert (result == 0)

  unfoldable pub file_data : ℕ → ℕ → Bytes → ℕ → M (Session Tox U) (Unit {0})
  unfolding get_transfer acknowledge
  file_data friend_number filenumber bytes length = do
    let file_number = bit_or filenumber 0x100
    found ← get_transfer friend_number file_number
    transfer ← assert_some found
    callbacks (λ c.
        Option.map (λ f. f friend_number file_number transfer.position bytes length)
          c.file_receive_chunk)
    let position = u64 (transfer.position + length)
    put_transfer friend_number file_number (record transfer { position = position })
    if position == transfer.file_size then acknowledge friend_number filenumber else skip

  -- The function of CB that toxcore calls.
  unfoldable pub handle : PauseReason → CoreCall → M (Session Tox U) (Unit {0})
  unfolding name_change status_message connection_of_status file_send_request file_control file_data
      lossy_packet lossless_packet
  handle garbage (CoreCall.friend_request public_key bytes length) =
      callbacks λ c. Option.map (λ f. f public_key bytes length) c.friend_request
  handle garbage (CoreCall.friend_message fn message length) =
      callbacks λ c. Option.map (λ f. f fn message length) c.friend_message
  handle garbage (CoreCall.friend_action fn action length) =
      callbacks λ c. Option.map (λ f. f fn action length) c.friend_action
  handle garbage (CoreCall.name_change fn newname length) = name_change fn newname length
  handle garbage (CoreCall.status_message fn newstatus length) = status_message fn newstatus length
  handle garbage (CoreCall.user_status fn status) =
      callbacks λ c. Option.map (λ f. f fn status) c.friend_status
  handle garbage (CoreCall.typing_change fn is_typing) =
      callbacks λ c. Option.map (λ f. f fn (to_bool is_typing)) c.friend_typing
  handle garbage (CoreCall.read_receipt fn receipt) =
      callbacks λ c. Option.map (λ f. f fn receipt) c.read_receipt
  handle garbage (CoreCall.connection_status fn status) =
      callbacks λ c. Option.map (λ f. f fn (connection_of_status status)) c.friend_connection_status
  handle garbage (CoreCall.file_send_request fn filenumber filesize filename length) =
      file_send_request garbage fn filenumber filesize filename length
  handle garbage (CoreCall.file_control fn receive_send filenumber control_type bytes length) =
      file_control fn receive_send filenumber control_type
  handle garbage (CoreCall.file_data fn filenumber bytes length) =
      file_data fn filenumber bytes length
  handle garbage (CoreCall.lossy_packet fn bytes length) = lossy_packet fn bytes length
  handle garbage (CoreCall.lossless_packet fn bytes length) = lossless_packet fn bytes length

  -- `tox_do`: each call that toxcore makes is handled before it goes on.
  unfoldable pub run_activity : PauseReason → Activity Tox → M (Session Tox U) (Unit {0})
  run_activity garbage (Activity.returns t) s = ok (tt, set_tox t s)
  run_activity garbage (Activity.calls t call next) s = elim (handle garbage call (set_tox t s)) [
    | fault x ↦ fault x
    | ok (_, s') ↦ run_activity garbage (next s'.new_tox.tox) s'
  ]
