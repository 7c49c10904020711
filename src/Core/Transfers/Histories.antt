-- ===== src/Core/Transfers/Histories.antt =====
-- Sequences of iterations and of the client's file operations of tox/core.cpp.
use tox4j.Base.{ℕ, Option, none, List, [], ◌∷◌, ◌≡◌, subst, sym, arith}
use tox4j.Base.Effect.{Outcome, ok, fault, left, left_ok, ok_first}
use tox4j.Base.StdMap.{lookup, IsSorted, pair_key}
use tox4j.Core.Enums.{Bytes}
use tox4j.Core.Api.{ToxApi}
use tox4j.Core.State.{PauseReason, Session}
use tox4j.Core.Iteration.{new_tox_iteration}
use tox4j.Core.Files.{new_tox_file_control, new_tox_file_send, new_tox_file_send_chunk}
use tox4j.Core.Transfers.{IsSoundEntry, Moves-IsSoundEntry}
use tox4j.Core.Transfers.Client.{file_control_client_edit, file_send_edit, file_send_chunk_edit}
use tox4j.Core.Transfers.Iterations.{MovesTable, stay, after, before, iteration_moves}

-- What the client calls.
pub data Call : Type 0 where
  iterates : Call
  controls : ℕ → ℕ → ℕ → Call
  sends : ℕ → ℕ → ℕ → Option Bytes → ℕ → Call
  sends_chunk : ℕ → ℕ → Option Bytes → ℕ → Call

module _ {Tox U : Type 0} (api : ToxApi Tox) (garbage : PauseReason) where
  unfoldable pub step : Call → Session Tox U → Outcome (Session Tox U)
  step iterates s = left (new_tox_iteration api garbage s)
  step (controls fn num c) s = left (new_tox_file_control api fn num c s)
  step (sends fn kind size name n) s = left (new_tox_file_send api garbage fn kind size name n s)
  step (sends_chunk fn num b n) s = left (new_tox_file_send_chunk api fn num b n s)

  unfoldable pub run : List Call → Session Tox U → Outcome (Session Tox U)
  unfolding step
  run [] s = ok s
  run (c ∷ cs) s = elim (step c s) [ fault x ↦ fault x | ok t ↦ run cs t ]

  step_moves :
      (c : Call) (s t : Session Tox U)
      → IsSorted s.new_tox.transfers
      → step c s ≡ ok t
      → MovesTable garbage s.new_tox.transfers t.new_tox.transfers
  unfolding step
  step_moves iterates s t i e =
      iteration_moves api garbage s t i (left_ok (new_tox_iteration api garbage s) t e).1
  step_moves (controls fn num c) s t i e =
      let (r, q) = left_ok (new_tox_file_control api fn num c s) t e in
      after garbage _ _ _ (stay garbage _ i)
        (file_control_client_edit api garbage fn num c s t r i q)
  step_moves (sends fn kind size name n) s t i e =
      let (r, q) = left_ok (new_tox_file_send api garbage fn kind size name n s) t e in
      after garbage _ _ _ (stay garbage _ i)
        (file_send_edit api garbage fn kind size name n s t r i q)
  step_moves (sends_chunk fn num b n) s t i e =
      let (r, q) = left_ok (new_tox_file_send_chunk api fn num b n s) t e in
      after garbage _ _ _ (stay garbage _ i) (file_send_chunk_edit api garbage fn num b n s t r i q)

  -- Over any sequence of iterations and file operations that returns, the keys of the table stay in
  -- order, and each entry of the table goes from what it was to what it is by the moves of a
  -- transfer's life.
  pub run_moves :
      (cs : List Call) (s t : Session Tox U)
      → IsSorted s.new_tox.transfers
      → run cs s ≡ ok t
      → MovesTable garbage s.new_tox.transfers t.new_tox.transfers
  unfolding run
  run_moves [] s t i e =
      let same : s.new_tox.transfers ≡ t.new_tox.transfers = cc in
      subst (MovesTable garbage s.new_tox.transfers) same (stay garbage _ i)
  run_moves (c ∷ cs) s t i e =
      let (u, p, q) = ok_first (step c s) (run cs) t e in
      let first = step_moves c s u i p in before garbage _ _ _ first (run_moves cs u t first.0 q)

  -- From an empty table, a sequence of iterations and file operations that returns leaves only sound
  -- transfers: none is in the state `finished`, a chunk is pending only for one that runs, the position
  -- fits 64 bits, and the cause of a pause is what the memory held when the entry was made.
  pub run_sound :
      (cs : List Call) (s t : Session Tox U) (k : ℕ × ℕ)
      → s.new_tox.transfers ≡ []
      → run cs s ≡ ok t
      → IsSoundEntry garbage (lookup k t.new_tox.transfers)
  unfolding lookup
  run_sound cs s t k n e =
      let sorted : IsSorted s.new_tox.transfers = subst IsSorted (sym n) tt in
      let nothing : lookup k s.new_tox.transfers ≡ none = ground arith in
      Moves-IsSoundEntry garbage ((run_moves cs s t sorted e).1 k)
        (subst (IsSoundEntry garbage) (sym nothing) tt)
