-- ===== src/Core/Transfers/Client.antt =====
-- What the client's operations and the loop of new_tox_iteration do to the entries of the table.
use tox4j.Base.{
  ℕ, Bool, true, Option, none, some, ◌≡◌, sym, subst, [], ◌∷◌, inl, inr, arith, Bool-cases,
}
use tox4j.Base.Effect.{ok}
use tox4j.Base.StdMap.{lookup, IsSorted, Before, pair_key, pair_beq}
use tox4j.Core.Enums.{Bytes, ToxErrFileControl, ToxErrFileSend, ToxErrFileSendChunk}
use tox4j.Core.Api.{ToxApi}
use tox4j.Core.State.{PauseReason, TransferState, FileTransfer, Session, Transfers}
use tox4j.Core.Files.{new_tox_file_control, new_tox_file_send, new_tox_file_send_chunk}
use tox4j.Core.Files.Control.{file_control_keeps_table}
use tox4j.Core.Files.Send.{file_send_registers}
use tox4j.Core.Files.Chunk.{file_send_chunk_moves}
use tox4j.Core.Iteration.{wants_chunk, chunk_size}
use tox4j.Core.Iteration.Requests.{asked, asked_all}
use tox4j.Core.Transfers.{Move, stays, asks, starts, sends}
use tox4j.Core.Transfers.Handled.Edits.{EditsTable, insert_edit, same_edit}

module _ {Tox U : Type 0} (api : ToxApi Tox) (garbage : PauseReason) where
  pub file_control_client_edit :
      (fn num c : ℕ) (s t : Session Tox U) (r : Bool × ToxErrFileControl)
      → IsSorted s.new_tox.transfers
      → new_tox_file_control api fn num c s ≡ ok (r, t)
      → EditsTable garbage s.new_tox.transfers t.new_tox.transfers
  file_control_client_edit fn num c s t r i e =
      same_edit garbage _ _ i (file_control_keeps_table api fn num c s t r e).0

  pub file_send_edit :
      (fn kind size : ℕ) (name : Option Bytes) (len : ℕ) (s t : Session Tox U)
      (r : ℕ × ToxErrFileSend)
      → IsSorted s.new_tox.transfers
      → new_tox_file_send api garbage fn kind size name len s ≡ ok (r, t)
      → EditsTable garbage s.new_tox.transfers t.new_tox.transfers
  file_send_edit fn kind size name len s t (sender, error) i e =
      elim (file_send_registers api garbage fn kind size name len s t sender error e) [
        | inl (x, a, b, l, q) ↦ insert_edit garbage (fn, sender) none _ _ _ i l (starts size) q
        | inr (x, a, q) ↦ same_edit garbage _ _ i q
      ]

  pub file_send_chunk_edit :
      (fn num : ℕ) (bytes : Option Bytes) (len : ℕ) (s t : Session Tox U)
      (r : Bool × ToxErrFileSendChunk)
      → IsSorted s.new_tox.transfers
      → new_tox_file_send_chunk api fn num bytes len s ≡ ok (r, t)
      → EditsTable garbage s.new_tox.transfers t.new_tox.transfers
  file_send_chunk_edit fn num bytes len s t (result, error) i e =
      elim (file_send_chunk_moves api fn num bytes len s t result error e) [
        | inl (x, a, b, (transfer, l, q)) ↦
            insert_edit garbage (fn, num) (some transfer) _ _ _ i l (sends transfer len) q
        | inr (x, a, q) ↦ same_edit garbage _ _ i (ground arith)
      ]

wants_running : (e : FileTransfer) → wants_chunk e ≡ true → e.state ≡ TransferState.running
unfolding wants_chunk
wants_running e w = ground arith

module _ {Tox : Type 0} (api : ToxApi Tox) (t : Tox) (garbage : PauseReason) where
  asked-Move : (fn : ℕ) (e : FileTransfer) → Move garbage (some e) (some (asked api t fn e))
  unfolding wants_chunk
  asked-Move fn e = elim (Bool-cases (wants_chunk e)) [
    | inl w ↦
        let now : asked api t fn e
            ≡ (record e { size_requested = chunk_size api t fn e; event_pending = true }) =
          ground arith in
        subst (λ x. Move garbage (some e) (some x)) (sym now)
          (asks e (chunk_size api t fn e) (wants_running e w) (ground arith))
    | inr w ↦
        let now : asked api t fn e ≡ e = ground arith in
        subst (λ x. Move garbage (some e) (some x)) (sym now) (stays (some e))
  ]

  Before-asked : (k : ℕ × ℕ) (m : Transfers) → Before k m → Before k (asked_all api t m)
  Before-asked k [] b = tt
  Before-asked k ((j, v) ∷ m) b = (b.0, Before-asked k m b.1)

  asked-IsSorted : (m : Transfers) → IsSorted m → IsSorted (asked_all api t m)
  asked-IsSorted [] s = tt
  asked-IsSorted ((k, v) ∷ m) s = (Before-asked k m s.0, asked-IsSorted m s.1)

  asked_moves :
      (k : ℕ × ℕ) (m : Transfers) → Move garbage (lookup k m) (lookup k (asked_all api t m))
  unfolding lookup
  asked_moves k [] = stays none
  asked_moves k ((j, v) ∷ m) = elim (Bool-cases (pair_beq j k)) [
    | inl b ↦ rw b (asked-Move j.0 v)
    | inr b ↦ rw b (asked_moves k m)
  ]

  pub asked_edit : (m : Transfers) → IsSorted m → EditsTable garbage m (asked_all api t m)
  asked_edit m s = (asked-IsSorted m s, λ k. asked_moves k m)
