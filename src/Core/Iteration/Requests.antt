-- ===== src/Core/Iteration/Requests.antt =====
-- The loop of new_tox_iteration over the transfers, against a description with no loop state.
use tox4j.Base.{ℕ, true, some, List, [], ◌∷◌, ◌≡◌, refl, arith, if◌then◌else◌}
use tox4j.Base.Effect.{ok}
use tox4j.Core.Api.{ToxApi}
use tox4j.Core.State.{FileTransfer, Transfers, Session}
use tox4j.Core.Iteration.{wants_chunk, chunk_size, request_chunks}

module _ {Tox : Type 0} (api : ToxApi Tox) (t : Tox) where
  -- The transfer after its turn in the loop.
  abbrev pub asked : ℕ → FileTransfer → FileTransfer
  asked friend_number transfer =
      if wants_chunk transfer
      then record transfer {
        size_requested = chunk_size api t friend_number transfer;
        event_pending = true;
      }
      else transfer

  abbrev pub asked_all : Transfers → Transfers
  asked_all [] = []
  asked_all (((fn, num), transfer) ∷ rest) = ((fn, num), asked fn transfer) ∷ asked_all rest

  -- The requests that are due, in the order of the table: friend, file, position and size.
  abbrev pub due : Transfers → List (ℕ × ℕ × ℕ × ℕ)
  due [] = []
  due (((fn, num), transfer) ∷ rest) =
      if wants_chunk transfer
      then (fn, num, transfer.position, chunk_size api t fn transfer) ∷ due rest
      else due rest

abbrev pub deliver : {U : Type 0} → (ℕ → ℕ → ℕ → ℕ → U → U) → List (ℕ × ℕ × ℕ × ℕ) → U → U
deliver f [] u = u
deliver f ((fn, num, position, size) ∷ rest) u = deliver f rest (f fn num position size u)

module _ {Tox U : Type 0} (api : ToxApi Tox) where
  -- With the client's callback for chunk requests in place, the loop over the transfers returns, asks
  -- the client for exactly the chunks that are due, in the order of the table, and records each request
  -- in its transfer.
  pub request_chunks_lem :
      (f : ℕ → ℕ → ℕ → ℕ → U → U) (m : Transfers) (s : Session Tox U)
      → s.new_tox.callbacks.file_request_chunk ≡ some f
      → request_chunks api m s
        ≡ ok (
          asked_all api s.new_tox.tox m,
          record s { user_data = deliver f (due api s.new_tox.tox m) s.user_data },
        )
  unfolding request_chunks
  request_chunks_lem f [] s e = refl
  request_chunks_lem f (((fn, num), transfer) ∷ rest) s e =
      let told : Session Tox U = record s {
        user_data =
            f fn num transfer.position (chunk_size api s.new_tox.tox fn transfer) s.user_data;
      } in
      ground (arith, request_chunks_lem f rest s e, request_chunks_lem f rest told e)
