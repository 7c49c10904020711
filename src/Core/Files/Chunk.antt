-- ===== src/Core/Files/Chunk.antt =====
-- new_tox_file_send_chunk: what a chunk moves.
use tox4j.Base.{
  ℕ, ◌+◌, ◌≤◌, ◌<◌, Bool, true, false, Option, none, some, ◌≡◌, ◌≢◌, ◌⊎◌, ◌↔◌, arith, u64, to_bool,
  int_to_u64, minus_one,
}
use tox4j.Base.Effect.{ok, Returns}
use tox4j.Base.StdMap.{lookup, insert, pair_key}
use tox4j.Core.Enums.{Bytes, ToxErrFileSendChunk}
use tox4j.Core.Api.{ToxApi, OldFileControl}
use tox4j.Core.State.{FileTransfer, Session, get_transfer, old_file_number, send_receive}
use tox4j.Core.Files.{new_tox_file_send_chunk}

abbrev pub advance : ℕ → FileTransfer → FileTransfer
advance length transfer = record transfer {
  position = u64 (transfer.position + length);
  event_pending = false;
}

module _ {Tox U : Type 0} (api : ToxApi Tox) where
  -- If sending a chunk returns, then either the code is OK, the chunk is not empty, the transfer is in
  -- the table, and its position moves on by the length, modulo 2^64, with nothing pending, whatever the
  -- size that was asked for; or the code is an error, the result false, and nothing has changed.
  pub file_send_chunk_moves :
      (friend_number file_number : ℕ) (bytes : Option Bytes) (length : ℕ) (s t : Session Tox U)
      (result : Bool) (error : ToxErrFileSendChunk)
      → new_tox_file_send_chunk api friend_number file_number bytes length s
        ≡ ok ((result, error), t)
      → ((error ≡ ToxErrFileSendChunk.ok)
          × (result ≡ true)
          × (0 < length)
          × ((transfer : FileTransfer) × (lookup (friend_number, file_number) s.new_tox.transfers
                ≡ some transfer)
              × (t.new_tox.transfers
                  ≡ insert
                      (friend_number, file_number)
                      (advance length transfer)
                      s.new_tox.transfers)))
        ⊎ ((error ≢ ToxErrFileSendChunk.ok) × (result ≡ false) × (t ≡ s))
  unfolding new_tox_file_send_chunk get_transfer
  file_send_chunk_moves fn num bytes len s t result error e = ground arith

  abbrev pub Fits : ℕ → ℕ → Session Tox U → Type 0
  Fits friend_number length s =
      length ≤ int_to_u64 (api.tox_file_data_size s.new_tox.tox friend_number)

  abbrev pub Exists : ℕ → Session Tox U → Type 0
  Exists friend_number s = to_bool (api.tox_friend_exists s.new_tox.tox friend_number) ≡ true

  abbrev pub IsOnline : ℕ → Session Tox U → Type 0
  IsOnline friend_number s =
      to_bool (api.tox_get_friend_connection_status s.new_tox.tox friend_number) ≡ true

  -- When a call ends with a code. No two of these hold together, and none looks at the size that was
  -- asked for, or at the state of the transfer.
  abbrev pub Reason : ℕ → ℕ → Option Bytes → ℕ → Session Tox U → ToxErrFileSendChunk → Type 0
  Reason fn num bytes len s ToxErrFileSendChunk.too_large = ¬ Fits fn len s
  Reason fn num bytes len s ToxErrFileSendChunk.null = Fits fn len s × (bytes ≡ none)
  Reason fn num bytes len s ToxErrFileSendChunk.friend_not_found =
      Fits fn len s × (bytes ≢ none) × ¬ Exists fn s
  Reason fn num bytes len s ToxErrFileSendChunk.friend_not_connected =
      Fits fn len s × (bytes ≢ none) × Exists fn s × ¬ IsOnline fn s
  Reason fn num bytes len s ToxErrFileSendChunk.not_found =
      Fits fn len s
      × (bytes ≢ none)
      × Exists fn s
      × IsOnline fn s
      × (lookup (fn, num) s.new_tox.transfers ≡ none)
  Reason fn num bytes len s ToxErrFileSendChunk.ok =
      Fits fn len s
      × (bytes ≢ none)
      × Exists fn s
      × IsOnline fn s
      × (lookup (fn, num) s.new_tox.transfers ≢ none)

  -- A chunk that is not empty, of any length, for any file and friend, with bytes or without. If toxcore
  -- has a connection status for each friend that exists, and takes the data and the FINISHED control,
  -- then the call returns, with the code whose reason holds; the result is true exactly for OK; on an
  -- error nothing has changed; and on OK the entry of the transfer alone has changed: its position has
  -- moved on by the length, modulo 2^64, and no request is open. The size that was asked for and the state
  -- of the transfer play no part in what is accepted.
  pub file_send_chunk_decides :
      (friend_number file_number : ℕ) (bytes : Option Bytes) (length : ℕ) (s : Session Tox U)
      → 0 < length
      → (Exists friend_number s
          → api.tox_get_friend_connection_status s.new_tox.tox friend_number ≢ minus_one)
      → ((t : Tox) (n : ℕ) (b : Bytes)
          → (api.tox_file_send_data t friend_number n b length).0 ≢ minus_one)
      → ((t : Tox) (n : ℕ)
          → (api.tox_file_send_control t friend_number
              (send_receive file_number)
              n
              OldFileControl.finished).0
            ≡ 0)
      → Returns (new_tox_file_send_chunk api friend_number file_number bytes length s) (λ r t.
        Reason friend_number file_number bytes length s r.1
        × ((r.0 ≡ true) ↔ (r.1 ≡ ToxErrFileSendChunk.ok))
        × (r.1 ≢ ToxErrFileSendChunk.ok → t ≡ s)
        × ((transfer : FileTransfer)
            → r.1 ≡ ToxErrFileSendChunk.ok
            → lookup (friend_number, file_number) s.new_tox.transfers ≡ some transfer
            → t.new_tox.transfers
              ≡ insert (friend_number, file_number) (advance length transfer) s.new_tox.transfers))
  unfolding new_tox_file_send_chunk get_transfer
  file_send_chunk_decides fn num none len s pos st d f = ground arith
  file_send_chunk_decides fn num (some bytes) len s pos st d f = ground (
    arith,
    st,
    d s.new_tox.tox (old_file_number num) bytes,
    f (api.tox_file_send_data s.new_tox.tox fn (old_file_number num) bytes len).1
        (old_file_number num),
  )
