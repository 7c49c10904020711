-- ===== src/Core/Files/Control.antt =====
-- What new_tox_file_control does to a transfer, and when it succeeds.
use tox4j.Base.{ℕ, Bool, true, false, some, ◌≡◌, ◌≢◌, ◌↔◌, arith, to_bool}
use tox4j.Base.Effect.{ok}
use tox4j.Base.StdMap.{lookup, pair_key}
use tox4j.Core.Enums.{ToxErrFileControl, tox_file_control_pause, tox_file_control_resume}
use tox4j.Core.Api.{ToxApi}
use tox4j.Core.State.{PauseReason, TransferState, FileTransfer, Session, get_transfer}
use tox4j.Core.Files.{new_tox_file_control}

-- What a control asks of the transfer.
abbrev pub Admits : ℕ → FileTransfer → Type 0
Admits control transfer =
    (control ≡ tox_file_control_pause → transfer.state ≢ TransferState.paused)
    × (control ≡ tox_file_control_resume
        → (transfer.state ≡ TransferState.paused) × (transfer.cause ≢ PauseReason.by_friend))

module _ {Tox U : Type 0} (api : ToxApi Tox) where
  -- If the client's file control returns, whatever the control, then no transfer, neither the
  -- connection nor the events have changed; the result is true exactly if the code is OK; and if it is
  -- false, nothing at all has changed.
  pub file_control_keeps_table :
      (friend_number file_number control : ℕ) (s t : Session Tox U) (r : Bool × ToxErrFileControl)
      → new_tox_file_control api friend_number file_number control s ≡ ok (r, t)
      → (t.new_tox.transfers ≡ s.new_tox.transfers)
        × (t.new_tox.connected ≡ s.new_tox.connected)
        × (t.user_data ≡ s.user_data)
        × ((r.0 ≡ true) ↔ (r.1 ≡ ToxErrFileControl.ok))
        × (r.0 ≡ false → t ≡ s)
  unfolding new_tox_file_control
  file_control_keeps_table fn num c s t r e = ground arith

  -- If the client's file control returns, for a transfer of the table to a friend that exists and is
  -- connected, the code is OK exactly if the transfer admits the control: PAUSE if it is not paused,
  -- RESUME if it is paused and its recorded cause is not the friend, and any other control always.
  pub file_control_admitted :
      (friend_number file_number control : ℕ) (s t : Session Tox U) (r : Bool × ToxErrFileControl)
      (transfer : FileTransfer)
      → new_tox_file_control api friend_number file_number control s ≡ ok (r, t)
      → lookup (friend_number, file_number) s.new_tox.transfers ≡ some transfer
      → to_bool (api.tox_friend_exists s.new_tox.tox friend_number) ≡ true
      → to_bool (api.tox_get_friend_connection_status s.new_tox.tox friend_number) ≡ true
      → (r.1 ≡ ToxErrFileControl.ok) ↔ Admits control transfer
  unfolding new_tox_file_control get_transfer
  file_control_admitted fn num c s t r transfer e l x y = ground arith
