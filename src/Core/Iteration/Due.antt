-- ===== src/Core/Iteration/Due.antt =====
-- The loop of new_tox_iteration over the transfers (tox/core.cpp), against a relation that says of each
-- transfer whether a chunk is due, and how large it is, without the code's tests.
use tox4j.Base.{ℕ, ◌+◌, ◌-◌, ◌%◌, ◌≤◌, true, false, List, [], ◌∷◌, ◌≡◌, ◌≢◌, ◌⊎◌, int_to_u64}
use tox4j.Core.Api.{ToxApi}
use tox4j.Core.State.{TransferState, FileTransfer, Transfers}

-- The transfer runs, its end is not reached, and the last chunk that was asked for has come.
abbrev pub IsDue : FileTransfer → Type 0
IsDue t = (t.state ≡ TransferState.running) × (t.event_pending ≡ false) × (t.position ≢ t.file_size)

-- The smaller one of what toxcore takes and of what the file has left, modulo 2^64.
abbrev pub IsSize : ℕ → FileTransfer → ℕ → Type 0
IsSize limit t n =
    (n ≤ limit)
    × (n ≤ (t.file_size + 0x1_0000_0000_0000_0000 - t.position) % 0x1_0000_0000_0000_0000)
    × ((n ≡ limit)
        ⊎ (n ≡ (t.file_size + 0x1_0000_0000_0000_0000 - t.position) % 0x1_0000_0000_0000_0000))

module _ {Tox : Type 0} (api : ToxApi Tox) (x : Tox) where
  -- A table, the table after the loop, and the requests that the client hears of, in order: friend, file,
  -- position and size.
  pub data Asks : Transfers → Transfers → List (ℕ × ℕ × ℕ × ℕ) → Type 0 where
    at_end : Asks [] [] []
    asks :
        (fn num size : ℕ) (t : FileTransfer) {m n : Transfers} {requests : List (ℕ × ℕ × ℕ × ℕ)}
        → IsDue t
        → IsSize (int_to_u64 (api.tox_file_data_size x fn)) t size
        → Asks m n requests
        → Asks
            (((fn, num), t) ∷ m)
            (((fn, num), record t { size_requested = size; event_pending = true }) ∷ n)
            ((fn, num, t.position, size) ∷ requests)
    passes :
        (k : ℕ × ℕ) (t : FileTransfer) {m n : Transfers} {requests : List (ℕ × ℕ × ℕ × ℕ)}
        → ¬ IsDue t
        → Asks m n requests
        → Asks ((k, t) ∷ m) ((k, t) ∷ n) requests
