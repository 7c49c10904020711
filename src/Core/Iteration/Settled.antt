-- ===== src/Core/Iteration/Settled.antt =====
-- What an iteration of tox/core.cpp leaves behind: nothing left to ask, and the connection known.
use tox4j.Base.{
  ℕ, ◌+◌, ◌≤◌, ◌<◌, false, not, [], ◌∷◌, ◌≡◌, ◌≢◌, some, refl, arith, ap, sym, subst, if◌then◌else◌,
  of_bool, Bool-cases, ◌==◌, inl, inr,
}
use tox4j.Base.Effect.{ok}
use tox4j.Base.StdMap.All.{All}
use tox4j.Core.Enums.{ToxConnection}
use tox4j.Core.Api.{ToxApi}
use tox4j.Core.State.{PauseReason, FileTransfer, Transfers, Session}
use tox4j.Core.Iteration.{wants_chunk, chunk_size, notify_connection, new_tox_iteration}
use tox4j.Core.Iteration.Requests.{asked, asked_all, due}
use tox4j.Core.Transfers.Iterations.{iteration_parts}

module _ {Tox : Type 0} (api : ToxApi Tox) where
  asked_quiet : (x : Tox) (fn : ℕ) (e : FileTransfer) → wants_chunk (asked api x fn e) ≡ false
  unfolding wants_chunk
  asked_quiet x fn e = ground arith

  asked_all_quiet : (x : Tox) (m : Transfers) → All (λ e. wants_chunk e ≡ false) (asked_all api x m)
  asked_all_quiet x [] = tt
  asked_all_quiet x (((fn, num), e) ∷ m) = (asked_quiet x fn e, asked_all_quiet x m)

  quiet_due : (x : Tox) (m : Transfers) → All (λ e. wants_chunk e ≡ false) m → due api x m ≡ []
  quiet_due x [] a = refl
  quiet_due x (((fn, num), e) ∷ m) a = rw a.0 (quiet_due x m a.1)

  -- A request never reaches past the end: at a position within the file, the chunk that is asked for
  -- ends within the file, and is not longer than what toxcore takes.
  pub chunk_size_bound :
      (x : Tox) (fn : ℕ) (e : FileTransfer)
      → e.position ≤ e.file_size
      → e.file_size < 0x1_0000_0000_0000_0000
      → e.position + chunk_size api x fn e ≤ e.file_size
  unfolding chunk_size
  chunk_size_bound x fn e p q = ground arith

module _ {Tox U : Type 0} (api : ToxApi Tox) where
  -- After an iteration that returns, no transfer of the table wants a chunk, so a second pass over
  -- the transfers, with any Tox, would ask for nothing.
  pub iteration_settles :
      (garbage : PauseReason) (s t : Session Tox U)
      → new_tox_iteration api garbage s ≡ ok (tt, t)
      → All (λ e. wants_chunk e ≡ false) t.new_tox.transfers
        × ((x : Tox) → due api x t.new_tox.transfers ≡ [])
  iteration_settles garbage s t e =
      let (u, v, h, k, r) = iteration_parts api garbage s t e in
      let quiet : All (λ e. wants_chunk e ≡ false) t.new_tox.transfers =
        subst (All (λ e. wants_chunk e ≡ false)) (sym (ap (λ n. n.transfers) r))
          (asked_all_quiet api v.new_tox.tox u.new_tox.transfers) in
      (quiet, λ x. quiet_due api x t.new_tox.transfers quiet)

  -- If `tox_isconnected` returns 0 or 1, the notice of the connection makes `connected` what it
  -- returned, and tells the client, once, exactly if that is a change.
  pub notify_connection_lem :
      (f : ToxConnection → U → U) (s : Session Tox U)
      → s.new_tox.callbacks.connection_status ≡ some f
      → api.tox_isconnected s.new_tox.tox ≤ 1
      → (t : Session Tox U) × (notify_connection api s ≡ ok (tt, t))
        × (of_bool t.new_tox.connected ≡ api.tox_isconnected s.new_tox.tox)
        × (t.new_tox.transfers ≡ s.new_tox.transfers)
        × (t.new_tox.connected ≡ s.new_tox.connected → t ≡ s)
        × (t.new_tox.connected ≢ s.new_tox.connected
            → t.user_data
              ≡ f
                  (if t.new_tox.connected then ToxConnection.udp4 else ToxConnection.none)
                  s.user_data)
  unfolding notify_connection
  notify_connection_lem f s c h =
      elim (Bool-cases (api.tox_isconnected s.new_tox.tox == of_bool s.new_tox.connected)) [
        | inl b ↦ (s, ground arith, ground arith, refl, (λ _. refl), (λ n. absurd (n refl)))
        | inr b ↦
            let connected = not s.new_tox.connected in
            (
              record {
                new_tox = record (s.new_tox) { connected = connected };
                user_data =
                    f (if connected then ToxConnection.udp4 else ToxConnection.none) s.user_data;
              },
              ground arith,
              ground arith,
              refl,
              (λ c. ground arith),
              (λ n. refl),
            )
      ]
