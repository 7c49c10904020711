-- ===== src/Core/Files/Paced.antt =====
-- A file that is sent by answering each request of new_tox_iteration with a chunk of the size asked
-- for, by new_tox_file_send_chunk (tox/core.cpp), seen at its entry in the table.
use Prim.Native.Nat.{min}
use tox4j.Base.{ℕ, zero, suc, ◌+◌, ◌*◌, ◌≤◌, ◌<◌, false, ◌≡◌, arith, if◌then◌else◌, int_to_u64}
use tox4j.Core.Api.{ToxApi}
use tox4j.Core.State.{TransferState, FileTransfer}
use tox4j.Core.Iteration.{wants_chunk, chunk_size}
use tox4j.Core.Iteration.Requests.{asked}
use tox4j.Core.Files.Chunk.{advance}

module _ {Tox : Type 0} (api : ToxApi Tox) (x : Tox) (fn : ℕ) where
  -- The request, if one is due, and the chunk that answers it.
  abbrev pub round : FileTransfer → FileTransfer
  round e =
      let e' = asked api x fn e in if e'.event_pending then advance e'.size_requested e' else e'

  abbrev pub rounds : ℕ → FileTransfer → FileTransfer
  rounds zero e = e
  rounds (suc n) e = rounds n (round e)

  -- The transfer runs, nothing is pending, and the position is within the file.
  abbrev pub IsReady : FileTransfer → Type 0
  IsReady e =
      (e.state ≡ TransferState.running)
      × (e.event_pending ≡ false)
      × (e.position ≤ e.file_size)
      × (e.file_size < 0x1_0000_0000_0000_0000)

  abbrev pub chunk_limit : ℕ
  chunk_limit = int_to_u64 (api.tox_file_data_size x fn)

  mul_step : (n : ℕ) → suc n * chunk_limit ≡ n * chunk_limit + chunk_limit
  mul_step n = omega arith

  mul_grows : (n : ℕ) → 0 < chunk_limit → n ≤ n * chunk_limit
  mul_grows zero d = omega arith
  mul_grows (suc n) d = omega (arith, mul_grows n d, mul_step n)

  round_lem :
      (e : FileTransfer)
      → IsReady e
      → IsReady (round e)
        × ((round e).position ≡ min e.file_size (e.position + chunk_limit))
        × ((round e).file_size ≡ e.file_size)
  unfolding wants_chunk chunk_size
  round_lem e r = ground arith

  -- If a transfer runs with nothing pending and its position within a file below 2^64, then after n
  -- requests that are answered with the size asked for, the position is n times toxcore's chunk size
  -- further, but not beyond the end of the file, and nothing is pending.
  pub rounds_lem :
      (n : ℕ) (e : FileTransfer)
      → IsReady e
      → IsReady (rounds n e)
        × ((rounds n e).position ≡ min e.file_size (e.position + n * chunk_limit))
        × ((rounds n e).file_size ≡ e.file_size)
  rounds_lem zero e r = ground arith
  rounds_lem (suc n) e r =
      let one = round_lem e r in
      let rest = rounds_lem n (round e) one.0 in
      (rest.0, ground (arith, one, rest, mul_step n), ground (arith, one, rest))

  -- If toxcore's chunk size is not 0, so many requests as the file has bytes are enough to send it:
  -- then the position is the end of the file, and no further chunk is wanted.
  pub rounds_finish :
      (e : FileTransfer)
      → IsReady e
      → 0 < chunk_limit
      → ((rounds e.file_size e).position ≡ e.file_size)
        × (wants_chunk (rounds e.file_size e) ≡ false)
  unfolding wants_chunk
  rounds_finish e r d =
      let all = rounds_lem e.file_size e r in ground (arith, all, mul_grows e.file_size d)
