-- ===== src/Core/Files/Send.antt =====
-- new_tox_file_send (tox/core.cpp): a new entry in the table, or none.
use tox4j.Base.{ℕ, ◌≤◌, Option, none, ◌≡◌, ◌≢◌, ◌⊎◌, arith}
use tox4j.Base.Effect.{ok}
use tox4j.Base.StdMap.{lookup, insert, pair_key}
use tox4j.Core.Enums.{Bytes, ToxErrFileSend}
use tox4j.Core.Api.{ToxApi}
use tox4j.Core.State.{PauseReason, Session, file_transfer, get_transfer}
use tox4j.Core.Files.{new_tox_file_send}

module _ {Tox U : Type 0} (api : ToxApi Tox) where
  -- If sending a file returns, then either the code is OK, the result is a number up to 255 that had no
  -- transfer, the name has at most 255 bytes, and the table has a new paused transfer of the file's
  -- size at position 0 under that number; or the code is an error, the result 0, and the table is as it
  -- was.
  pub file_send_registers :
      (garbage : PauseReason) (friend_number kind file_size : ℕ) (filename : Option Bytes)
      (filename_length : ℕ) (s t : Session Tox U) (sender : ℕ) (error : ToxErrFileSend)
      → new_tox_file_send api garbage friend_number kind file_size filename filename_length s
        ≡ ok ((sender, error), t)
      → ((error ≡ ToxErrFileSend.ok)
          × (sender ≤ 255)
          × (filename_length ≤ 255)
          × (lookup (friend_number, sender) s.new_tox.transfers ≡ none)
          × (t.new_tox.transfers
              ≡ insert
                  (friend_number, sender)
                  (file_transfer garbage file_size)
                  s.new_tox.transfers))
        ⊎ ((error ≢ ToxErrFileSend.ok) × (sender ≡ 0) × (t.new_tox.transfers ≡ s.new_tox.transfers))
  unfolding new_tox_file_send get_transfer
  file_send_registers g fn kind size name len s t sender error e = ground arith
