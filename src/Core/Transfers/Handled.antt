-- ===== src/Core/Transfers/Handled.antt =====
-- What the callbacks of toxcore do to the entries of the table.
pub mod Edits
use tox4j.Base.{ℕ, ◌+◌, Bool, Option, none, some, ◌≡◌, ◌⊎◌, inl, inr, arith, u64, ltb}
use tox4j.Base.Effect.{ok}
use tox4j.Base.StdMap.{lookup, insert, erase, IsSorted, pair_key}
use Prim.Native.Nat.{bit_or}
use tox4j.Core.Enums.{Bytes}
use tox4j.Core.Api.{ToxApi, CoreCall, OldFileControl}
use tox4j.Core.State.{
  PauseReason, TransferState, FileTransfer, Session, Transfers, new_file_number, file_transfer,
  call_back, get_transfer, add_transfer, remove_transfer,
}
use tox4j.Core.Handlers.{
  file_control, file_send_request, file_data, handle, control_switch, finish_transfer,
  resume_transfer, name_change, status_message, acknowledge,
}
use tox4j.Core.Transfers.{resumes, starts, receives}
use tox4j.Core.Transfers.Handled.Edits.{EditsTable, insert_edit, erase_edit, same_edit}

module _ {U Tox : Type 0} where
  -- The control finds its transfer, and resumes it or drops it.
  pub file_control_edits :
      (fn : ℕ) (receive_send : Bool) (filenumber : ℕ) (c : OldFileControl) (s t : Session Tox U)
      → file_control fn receive_send filenumber c s ≡ ok (tt, t)
      → (transfer : FileTransfer) × (lookup
            (fn, new_file_number receive_send filenumber)
            s.new_tox.transfers
          ≡ some transfer)
        × ((t.new_tox.transfers
              ≡ insert
                  (fn, new_file_number receive_send filenumber)
                  (record transfer { state = TransferState.running })
                  s.new_tox.transfers)
            ⊎ (t.new_tox.transfers
                ≡ erase (fn, new_file_number receive_send filenumber) s.new_tox.transfers))
  unfolding file_control control_switch get_transfer resume_transfer finish_transfer remove_transfer
  file_control_edits fn rs num c s t e = ground arith

  file_send_request_edits :
      (garbage : PauseReason) (fn num size : ℕ) (name : Bytes) (length : ℕ) (s t : Session Tox U)
      → file_send_request garbage fn num size name length s ≡ ok (tt, t)
      → (lookup (fn, bit_or num 0x100) s.new_tox.transfers ≡ none)
        × (t.new_tox.transfers
            ≡ insert (fn, bit_or num 0x100) (file_transfer garbage size) s.new_tox.transfers)
  unfolding file_send_request add_transfer get_transfer
  file_send_request_edits garbage fn num size name len s t e = ground arith

  file_data_edits :
      (api : ToxApi Tox) (fn num : ℕ) (bytes : Bytes) (length : ℕ) (s t : Session Tox U)
      → file_data api fn num bytes length s ≡ ok (tt, t)
      → (transfer : FileTransfer) × (lookup (fn, bit_or num 0x100) s.new_tox.transfers
          ≡ some transfer)
        × (t.new_tox.transfers
            ≡ insert
                (fn, bit_or num 0x100)
                (record transfer { position = u64 (transfer.position + length) })
                s.new_tox.transfers)
  unfolding file_data get_transfer acknowledge
  file_data_edits api fn num bytes len s t e = ground arith

module _ {Tox U : Type 0} (api : ToxApi Tox) (garbage : PauseReason) where
  file_control_edit :
      (fn : ℕ) (receive_send : Bool) (num : ℕ) (c : OldFileControl) (s t : Session Tox U)
      → IsSorted s.new_tox.transfers
      → file_control fn receive_send num c s ≡ ok (tt, t)
      → EditsTable garbage s.new_tox.transfers t.new_tox.transfers
  file_control_edit fn rs num c s t srt e =
      let (transfer, l, r) = file_control_edits fn rs num c s t e in
      let k : ℕ × ℕ = (fn, new_file_number rs num) in
      elim r [
        | inl q ↦ insert_edit garbage k (some transfer) _ _ _ srt l (resumes transfer) q
        | inr q ↦ erase_edit garbage k transfer _ _ srt l q
      ]

  callbacks_edit :
      (f : Option (U → U)) (s t : Session Tox U)
      → IsSorted s.new_tox.transfers
      → call_back f s ≡ ok (tt, t)
      → EditsTable garbage s.new_tox.transfers t.new_tox.transfers
  callbacks_edit f s t i e = same_edit garbage _ _ i (ground arith)

  name_change_edit :
      (f : ℕ) (b : Bytes) (n : ℕ) (s t : Session Tox U)
      → IsSorted s.new_tox.transfers
      → name_change f b n s ≡ ok (tt, t)
      → EditsTable garbage s.new_tox.transfers t.new_tox.transfers
  unfolding name_change
  name_change_edit f b n s t i e = same_edit garbage _ _ i (ground arith)

  status_message_edit :
      (f : ℕ) (b : Bytes) (n : ℕ) (s t : Session Tox U)
      → IsSorted s.new_tox.transfers
      → status_message f b n s ≡ ok (tt, t)
      → EditsTable garbage s.new_tox.transfers t.new_tox.transfers
  unfolding status_message
  status_message_edit f b n s t i e = same_edit garbage _ _ i (ground arith)

  -- From a table with its keys in order, each of toxcore's callbacks, if it returns, makes at most one
  -- move of a transfer's life with each entry, and leaves the keys in order.
  pub handle_edit :
      (call : CoreCall) (s t : Session Tox U)
      → IsSorted s.new_tox.transfers
      → handle api garbage call s ≡ ok (tt, t)
      → EditsTable garbage s.new_tox.transfers t.new_tox.transfers
  unfolding handle
  handle_edit (CoreCall.friend_request k b n) s t i e = callbacks_edit _ s t i e
  handle_edit (CoreCall.friend_message f b n) s t i e = callbacks_edit _ s t i e
  handle_edit (CoreCall.friend_action f b n) s t i e = callbacks_edit _ s t i e
  handle_edit (CoreCall.name_change f b n) s t i e = name_change_edit f b n s t i e
  handle_edit (CoreCall.status_message f b n) s t i e = status_message_edit f b n s t i e
  handle_edit (CoreCall.user_status f n) s t i e = callbacks_edit _ s t i e
  handle_edit (CoreCall.typing_change f n) s t i e = callbacks_edit _ s t i e
  handle_edit (CoreCall.read_receipt f n) s t i e = callbacks_edit _ s t i e
  handle_edit (CoreCall.connection_status f n) s t i e = callbacks_edit _ s t i e
  handle_edit (CoreCall.file_send_request fn num size name len) s t i e =
      let (l, q) = file_send_request_edits garbage fn num size name len s t e in
      insert_edit garbage (fn, bit_or num 0x100) none _ _ _ i l (starts size) q
  handle_edit (CoreCall.file_control fn rs num c b n) s t i e =
      file_control_edit fn rs num c s t i e
  handle_edit (CoreCall.file_data fn num b n) s t i e =
      let (transfer, l, q) = file_data_edits api fn num b n s t e in
      insert_edit garbage (fn, bit_or num 0x100) (some transfer) _ _ _ i l (receives transfer n) q
  handle_edit (CoreCall.lossy_packet f b n) s t i e = callbacks_edit _ s t i e
  handle_edit (CoreCall.lossless_packet f b n) s t i e = callbacks_edit _ s t i e
