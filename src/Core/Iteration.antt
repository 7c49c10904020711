-- ===== src/Core/Iteration.antt =====
-- tox/core.cpp: new_tox_iteration, and the interval between two of them.
--
-- The loop over the transfers calls the client back and writes into the transfer at hand. The client
-- callbacks of this library touch nothing but the event list, so the table is what the loop makes it.
pub mod Requests
pub mod Due
pub mod Settled
use Prim.Native.Nat.{min}
use mathlib.Core.Option
use tox4j.Base.{ℕ, Bool, true, not, ◌&&◌, [], ◌∷◌, ◌==◌, if◌then◌else◌, int_to_u64, sub64, of_bool}
use tox4j.Base.Effect.{ok, M, ◌>>=◌, ◌>>◌, pure}
use tox4j.Core.Enums.{ToxConnection}
use tox4j.Core.Api.{ToxApi}
use tox4j.Core.State.{
  PauseReason, TransferState, FileTransfer, Transfers, Session, set_transfers, read_tox,
}
use tox4j.Core.Handlers.{callbacks, run_activity}

abbrev pub is_running : TransferState → Bool
is_running TransferState.running = true
is_running _ = Bool.false

-- The transfer is under way and no chunk has been asked for since the last one came.
unfoldable pub wants_chunk : FileTransfer → Bool
wants_chunk transfer =
    not (transfer.position == transfer.file_size)
    && (is_running transfer.state && not transfer.event_pending)

-- `std::min ((uint64_t) tox_file_data_size (…), transfer.file_size - transfer.position)`.
unfoldable pub chunk_size : {Tox : Type 0} → ToxApi Tox → Tox → ℕ → FileTransfer → ℕ
chunk_size api t friend_number transfer =
    min (int_to_u64 (api.tox_file_data_size t friend_number))
      (sub64 transfer.file_size transfer.position)

module _ {Tox U : Type 0} (api : ToxApi Tox) where
  unfoldable pub request_chunk : ℕ → ℕ → FileTransfer → M (Session Tox U) FileTransfer
  unfolding chunk_size
  request_chunk friend_number file_number transfer = do
    size_requested ← read_tox λ t. chunk_size api t friend_number transfer
    callbacks (λ c.
        Option.map (λ f. f friend_number file_number transfer.position size_requested)
          c.file_request_chunk)
    pure (record transfer { size_requested = size_requested; event_pending = true })

  -- `for (auto &pair : tox->transfers)`.
  unfoldable pub request_chunks : Transfers → M (Session Tox U) Transfers
  unfolding request_chunk wants_chunk
  request_chunks [] = pure []
  request_chunks (((friend_number, file_number), transfer) ∷ rest) = do
    transfer' ←
        if wants_chunk transfer
        then request_chunk friend_number file_number transfer
        else pure transfer
    rest' ← request_chunks rest
    pure (((friend_number, file_number), transfer') ∷ rest')

  -- The change of the own connection status, if there is one.
  unfoldable pub notify_connection : M (Session Tox U) (Unit {0})
  notify_connection s =
      let isconnected = api.tox_isconnected s.new_tox.tox in
      let connected = not s.new_tox.connected in
      if isconnected == of_bool s.new_tox.connected
      then ok (tt, s)
      else callbacks
          (λ c.
            Option.map (λ f. f (if connected then ToxConnection.udp4 else ToxConnection.none))
              c.connection_status)
          (record s { new_tox = record (s.new_tox) { connected = connected } })

  unfoldable pub new_tox_iteration : PauseReason → M (Session Tox U) (Unit {0})
  unfolding run_activity notify_connection request_chunks
  new_tox_iteration garbage = do
    activity ← read_tox λ t. api.tox_do t
    run_activity api garbage activity
    notify_connection
    transfers ← λ s. ok (s.new_tox.transfers, s)
    transfers' ← request_chunks transfers
    λ s. ok (tt, set_transfers transfers' s)

  unfoldable pub new_tox_iteration_interval : M (Session Tox U) ℕ
  new_tox_iteration_interval = read_tox λ t. api.tox_do_interval t
