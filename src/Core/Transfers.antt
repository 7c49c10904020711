-- ===== src/Core/Transfers.antt =====
-- The life of a transfer in the table of tox/core_private.h, as a relation between its entry before
-- and after a step, and what holds at the end of any sequence of such steps.
pub mod Handled
pub mod Client
pub mod Iterations
pub mod Histories
use tox4j.Base.{ℕ, ◌+◌, ◌<◌, Bool, true, false, Option, none, some, ◌≡◌, ◌≢◌, arith, u64}
use tox4j.Core.State.{PauseReason, TransferState, FileTransfer, file_transfer}

-- `garbage` is what the memory of a new entry holds in place of a cause.
module _ (garbage : PauseReason) where
  -- An entry is made paused at 0, is resumed, is asked for a chunk, moves its position on, and ends.
  pub data Move : Option FileTransfer → Option FileTransfer → Type 0 where
    stays : (e : Option FileTransfer) → Move e e
    starts : (file_size : ℕ) → Move none (some (file_transfer garbage file_size))
    resumes : (t : FileTransfer) → Move (some t) (some (record t { state = TransferState.running }))
    asks :
        (t : FileTransfer) (size : ℕ)
        → t.state ≡ TransferState.running
        → t.position ≢ t.file_size
        → Move (some t) (some (record t { size_requested = size; event_pending = true }))
    sends :
        (t : FileTransfer) (length : ℕ)
        → Move
            (some t)
            (some (record t { position = u64 (t.position + length); event_pending = false }))
    receives :
        (t : FileTransfer) (length : ℕ)
        → Move (some t) (some (record t { position = u64 (t.position + length) }))
    ends : (t : FileTransfer) → Move (some t) none

  pub data Moves : Option FileTransfer → Option FileTransfer → Type 0 where
    at_rest : (e : Option FileTransfer) → Moves e e
    more : {d e f : Option FileTransfer} → Moves d e → Move e f → Moves d f

  pub Moves-trans : {d e f : Option FileTransfer} → Moves d e → Moves e f → Moves d f
  Moves-trans p (at_rest e) = p
  Moves-trans p (more q m) = more (Moves-trans p q) m

  -- A chunk is asked for only while the transfer runs, no transfer is ever in the state `finished`,
  -- and the cause is what the memory was.
  abbrev pub IsSound : FileTransfer → Type 0
  IsSound t =
      (t.cause ≡ garbage)
      × (t.state ≢ TransferState.finished)
      × (t.event_pending ≡ true → t.state ≡ TransferState.running)
      × (t.position < 0x1_0000_0000_0000_0000)

  abbrev pub IsSoundEntry : Option FileTransfer → Type 0
  IsSoundEntry none = Unit {0}
  IsSoundEntry (some t) = IsSound t

  pub Move-IsSoundEntry : {d e : Option FileTransfer} → Move d e → IsSoundEntry d → IsSoundEntry e
  unfolding file_transfer
  Move-IsSoundEntry (stays e) s = s
  Move-IsSoundEntry (starts n) s = ground arith
  Move-IsSoundEntry (resumes t) s = ground arith
  Move-IsSoundEntry (asks t n r p) s = ground arith
  Move-IsSoundEntry (sends t n) s = ground arith
  Move-IsSoundEntry (receives t n) s = ground arith
  Move-IsSoundEntry (ends t) s = tt

  -- Whatever happens to an entry that is sound, it is sound in the end.
  pub Moves-IsSoundEntry : {d e : Option FileTransfer} → Moves d e → IsSoundEntry d → IsSoundEntry e
  Moves-IsSoundEntry (at_rest e) s = s
  Moves-IsSoundEntry (more ms m) s = Move-IsSoundEntry m (Moves-IsSoundEntry ms s)
