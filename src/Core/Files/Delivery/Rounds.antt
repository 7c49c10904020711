-- ===== src/Core/Files/Delivery/Rounds.antt =====
-- An iteration, and the chunk that answers its request, for a file that is sent (tox/core.cpp).
use tox4j.Base.{
  ℕ, ◌+◌, ◌≤◌, ◌<◌, none, some, [], ◌∷◌, ◌≡◌, ◌≢◌, arith, take, drop, take-drop, take-take, subst,
  sym, ap, ◌∙◌, Option-cases, inl, inr,
}
use mathlib.Core.List.{append_assoc}
use tox4j.Base.Effect.{Returns, chain-Returns}
use tox4j.Base.StdMap.{lookup, pair_key, pair_beq_iff}
use tox4j.Base.StdMap.Laws.{lookup-insert}
use tox4j.Core.Enums.{Bytes}
use tox4j.Core.Api.{ToxApi}
use tox4j.Core.State.{
  PauseReason, FileTransfer, Transfers, Session, get_transfer, old_file_number, set_transfers,
}
use tox4j.Core.Handlers.{run_activity}
use tox4j.Core.Handlers.Told.{IsRegistered, activity_told}
use tox4j.Core.Iteration.{request_chunks, notify_connection, new_tox_iteration}
use tox4j.Core.Iteration.Requests.{asked, asked_all, request_chunks_lem}
use tox4j.Core.Files.{new_tox_file_send_chunk}
use tox4j.Core.Files.Chunk.{advance}
use tox4j.Core.Files.Delivery.{Steady, HasSent}

module _ {Tox : Type 0} (api : ToxApi Tox) (fn num : ℕ) where
  lookup-asked_all :
      (x : Tox) (m : Transfers) (e : FileTransfer)
      → lookup (fn, num) m ≡ some e
      → lookup (fn, num) (asked_all api x m) ≡ some (asked api x fn e)
  unfolding lookup
  lookup-asked_all x [] e l = cc
  lookup-asked_all x (((f, n), d) ∷ m) e l = ground (arith, lookup-asked_all x m e)

module _ {Tox U : Type 0} (api : ToxApi Tox) (garbage : PauseReason) (fn num : ℕ)
    (content : Bytes) where
  notify_connection-Returns :
      (s : Session Tox U)
      → s.new_tox.callbacks.connection_status ≢ none
      → Returns (notify_connection api s) (λ _ t.
        (t.new_tox.tox ≡ s.new_tox.tox)
        × (t.new_tox.transfers ≡ s.new_tox.transfers)
        × (t.new_tox.callbacks ≡ s.new_tox.callbacks))
  unfolding notify_connection
  notify_connection-Returns s c = ground arith

  module _ (sent : Tox → Bytes) (Good : Tox → Type 0) (before : Bytes) where
    abbrev Has : FileTransfer → ℕ → Session Tox U → Type 0
    Has = HasSent api fn num content sent Good before

    requests-HasSent :
        (s : Session Tox U) (e : FileTransfer) (p : ℕ)
        → Has e p s
        → Returns
            (request_chunks api s.new_tox.transfers s)
            (λ m t. Has (asked api s.new_tox.tox fn e) p (set_transfers m t))
    requests-HasSent s e p h = elim (Option-cases s.new_tox.callbacks.file_request_chunk) [
      | inl missing ↦ absurd (h.3.file_request_chunk missing)
      | inr (f, c) ↦
          rw (request_chunks_lem api f s.new_tox.transfers s c)
            (lookup-asked_all api fn num s.new_tox.tox s.new_tox.transfers e h.0, h.1, h.2, h.3)
    ]

    pub iteration-HasSent :
        Steady api fn num sent Good
        → (s : Session Tox U) (e : FileTransfer) (p : ℕ) → Has e p s
        → Returns
            (new_tox_iteration api garbage s)
            (λ _ t. (x : Tox) × Good x × Has (asked api x fn e) p t)
    unfolding new_tox_iteration run_activity
    iteration-HasSent k s e p h =
        let told =
          activity_told api garbage (λ u. Good u × (sent u ≡ sent s.new_tox.tox))
            (api.tox_do s.new_tox.tox) s h.3 (k.no_files s.new_tox.tox h.1) in
        chain-Returns _ _ (run_activity api garbage (api.tox_do s.new_tox.tox) s) _ told (λ _ u q.
          let heard : Has e p u =
            (rw q.1 h.0, q.0.0, q.0.1 ∙ h.2, subst IsRegistered (sym q.2) h.3) in
          chain-Returns _ _ (notify_connection api u) _
            (notify_connection-Returns u heard.3.connection_status)
            (λ _ t n.
              let held : Has e p t = (
                rw n.1 heard.0,
                subst Good (sym n.0) heard.1,
                ap sent n.0 ∙ heard.2,
                subst IsRegistered (sym n.2) heard.3,
              ) in
              chain-Returns _ _ (request_chunks api t.new_tox.transfers t) _
                (requests-HasSent t e p held) (λ m w r. (t.new_tox.tox, held.1, r))))

    pub chunk-HasSent :
        (k : Steady api fn num sent Good) (s : Session Tox U) (e : FileTransfer) (p n : ℕ)
        → Has e p s
        → 0 < n
        → n ≤ k.limit
        → Returns
            (new_tox_file_send_chunk api fn num (some (take n (drop p content))) n s)
            (λ _ t. Has (advance n e) (p + n) t)
    unfolding new_tox_file_send_chunk get_transfer
    chunk-HasSent k s e p n h d l =
        let x = s.new_tox.tox in
        let y = (api.tox_file_send_data x fn (old_file_number num) (take n (drop p content)) n).1 in
        ground (
          arith,
          h,
          k.exists x h.1,
          k.online x h.1,
          k.data_size x h.1,
          k.takes x (take n (drop p content)) n h.1,
          k.finishes y,
          take-take n (drop p content),
          take-drop p n content,
          append_assoc before (take p content) (take n (drop p content)),
          lookup-insert (fn, num) (fn, num) (advance n e) s.new_tox.transfers,
          pair_beq_iff (fn, num) (fn, num),
        )
