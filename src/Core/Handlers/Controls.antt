-- ===== src/Core/Handlers/Controls.antt =====
-- CB::file_control of tox/core_private.h: which controls of a friend it survives, and what they do.
use tox4j.Base.{ℕ, Bool, none, some, ◌≡◌, ◌≢◌, ◌↔◌, ◌⊎◌, arith}
use tox4j.Base.Effect.{fault, assertion_failed, Returns}
use tox4j.Base.StdMap.{lookup, insert, erase, pair_key}
use tox4j.Core.Enums.{tox_file_control_resume}
use tox4j.Core.Api.{OldFileControl}
use tox4j.Core.State.{
  TransferState, FileTransfer, Session, new_file_number, get_transfer, remove_transfer,
}
use tox4j.Core.Handlers.{file_control, control_switch, resume_transfer, finish_transfer}

module _ {Tox U : Type 0} where
  -- With the client's callbacks for controls and for chunk requests in place, a control from a
  -- friend ends the process by a failed assertion exactly if it names no transfer of the table, or
  -- is neither ACCEPT nor FINISHED: PAUSE and KILL among them.
  pub file_control_aborts :
      (fn : ℕ) (receive_send : Bool) (num : ℕ) (control : OldFileControl) (s : Session Tox U)
      → s.new_tox.callbacks.file_control ≢ none
      → s.new_tox.callbacks.file_request_chunk ≢ none
      → (file_control fn receive_send num control s ≡ fault assertion_failed) ↔ (
          (lookup (fn, new_file_number receive_send num) s.new_tox.transfers ≡ none)
          ⊎ ((control ≢ OldFileControl.accept) × (control ≢ OldFileControl.finished)))
  unfolding file_control control_switch resume_transfer finish_transfer get_transfer remove_transfer
  file_control_aborts fn rs num OldFileControl.accept s p q = ground arith
  file_control_aborts fn rs num OldFileControl.pause s p q = ground arith
  file_control_aborts fn rs num OldFileControl.kill s p q = ground arith
  file_control_aborts fn rs num OldFileControl.finished s p q = ground arith
  file_control_aborts fn rs num OldFileControl.resume_broken s p q = ground arith
  file_control_aborts fn rs num (OldFileControl.unknown c) s p q = ground arith

  -- An ACCEPT from a friend for a transfer of the table sets it running and is told to the client as
  -- RESUME; a FINISHED is told to the client as a request for no bytes at the transfer's position,
  -- and drops the transfer.
  pub file_control_lem :
      (fn : ℕ) (receive_send : Bool) (num : ℕ) (s : Session Tox U) (transfer : FileTransfer)
      (f : ℕ → ℕ → ℕ → U → U) (g : ℕ → ℕ → ℕ → ℕ → U → U)
      → s.new_tox.callbacks.file_control ≡ some f
      → s.new_tox.callbacks.file_request_chunk ≡ some g
      → lookup (fn, new_file_number receive_send num) s.new_tox.transfers ≡ some transfer
      → Returns (file_control fn receive_send num OldFileControl.accept s) (λ _ t.
        (t.new_tox.transfers
          ≡ insert
              (fn, new_file_number receive_send num)
              (record transfer { state = TransferState.running })
              s.new_tox.transfers)
        × (t.user_data
            ≡ f fn (new_file_number receive_send num) tox_file_control_resume s.user_data))
        × Returns (file_control fn receive_send num OldFileControl.finished s) (λ _ t.
          (t.new_tox.transfers ≡ erase (fn, new_file_number receive_send num) s.new_tox.transfers)
          × (t.user_data ≡ g fn (new_file_number receive_send num) transfer.position 0 s.user_data))
  unfolding file_control control_switch resume_transfer finish_transfer get_transfer remove_transfer
  file_control_lem fn rs num s transfer f g p q l = ground arith
