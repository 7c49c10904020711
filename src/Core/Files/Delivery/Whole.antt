-- ===== src/Core/Files/Delivery/Whole.antt =====
-- A whole file through new_tox_iteration and new_tox_file_send_chunk of tox/core.cpp: what toxcore is
-- given to send.
use tox4j.Base.{
  ℕ, zero, suc, ◌+◌, ◌≤◌, true, false, some, ◌++◌, ◌≡◌, refl, arith, length, take, drop, subst, sym,
  u64, ◌∙◌, take-length, Bool-cases, inl, inr,
}
use mathlib.Core.List.{append-nil}
use tox4j.Base.Effect.{Returns, chain-Returns, map-Returns}
use tox4j.Base.StdMap.{lookup, pair_key}
use tox4j.Core.Enums.{Bytes}
use tox4j.Core.Api.{ToxApi}
use tox4j.Core.State.{PauseReason, FileTransfer, Session}
use tox4j.Core.Handlers.Told.{IsRegistered}
use tox4j.Core.Iteration.{wants_chunk, chunk_size, new_tox_iteration}
use tox4j.Core.Iteration.Requests.{asked}
use tox4j.Core.Iteration.Settled.{chunk_size_bound}
use tox4j.Core.Files.{new_tox_file_send_chunk}
use tox4j.Core.Files.Chunk.{advance}
use tox4j.Core.Files.Paced.{IsReady}
use tox4j.Core.Files.Delivery.{Steady, further, answer, send_round, send_rounds, HasSent, Sends}
use tox4j.Core.Files.Delivery.Rounds.{iteration-HasSent, chunk-HasSent}

module _ {Tox U : Type 0} (api : ToxApi Tox) (garbage : PauseReason) (fn num : ℕ)
    (content : Bytes) where
  module _ (sent : Tox → Bytes) (Good : Tox → Type 0) (before : Bytes) where
    abbrev Has : FileTransfer → ℕ → Session Tox U → Type 0
    Has = HasSent api fn num content sent Good before

    abbrev At : ℕ → Session Tox U → Type 0
    At = Sends api fn num content sent Good before

    answer-Sends :
        (k : Steady api fn num sent Good) (s : Session Tox U) (e : FileTransfer) (x : Tox)
        → Good x
        → Has (asked api x fn e) e.position s
        → IsReady api x fn e
        → e.file_size ≡ length content
        → Returns
            (answer api garbage fn num content (lookup (fn, num) s.new_tox.transfers) s)
            (λ _ t. At (further content k.limit e.position) t)
    unfolding wants_chunk chunk_size
    answer-Sends k s e x g h r z = rw h.0 (elim (Bool-cases (wants_chunk e)) [
      | inl wanted ↦
          let n = chunk_size api x fn e in
          let d : FileTransfer = record e { size_requested = n; event_pending = true } in
          let held : Has d e.position s = ground (arith, h, wanted) in
          let one =
            chunk-HasSent api garbage fn num content sent Good before k s d e.position n held
              (ground (arith, k.some_data, r, wanted, k.data_size x g))
              (ground (arith, k.data_size x g)) in
          let bound = chunk_size_bound api x fn e r.2 r.3 in
          let to : e.position + n ≡ further content k.limit e.position =
            ground (arith, k.data_size x g, r, z) in
          let at : u64 (e.position + n) ≡ e.position + n = ground (arith, bound, r) in
          rw wanted (
            chain-Returns _ _
              (new_tox_file_send_chunk api fn num (some (take n (drop e.position content))) n s) _
              one
              (λ _ t m. (
                advance n d,
                subst (λ p. Has (advance n d) p t) to m,
                (r.0, refl, rw at bound, r.3),
                at ∙ to,
                z,
              )))
      | inr over ↦
          let end : e.position ≡ further content k.limit e.position = ground (arith, over, r, z) in
          let held : Has e e.position s = ground (arith, h, over) in
          rw (over, r.1) (e, subst (λ p. Has e p s) end held, r, end, z)
    ])

    round-Sends :
        (k : Steady api fn num sent Good) (p : ℕ) (s : Session Tox U)
        → At p s
        → Returns
            (send_round api garbage fn num content s)
            (λ _ t. At (further content k.limit p) t)
    round-Sends k p s (e, h, r, q, z) =
        chain-Returns _ _ (new_tox_iteration api garbage s) _
          (iteration-HasSent api garbage fn num content sent Good before k s e p h)
          (λ _ t m.
            subst
              (λ p.
                Returns (answer api garbage fn num content (lookup (fn, num) t.new_tox.transfers) t)
                  (λ _ u. At (further content k.limit p) u))
              q
              (answer-Sends k t e m.0 m.1 (subst (λ p. Has (asked api m.0 fn e) p t) (sym q) m.2) r
                z))

    rounds-Sends :
        Steady api fn num sent Good
        → (n p : ℕ) (s : Session Tox U) → p ≤ length content
        → length content ≤ p + n
        → At p s
        → Returns (send_rounds api garbage fn num content n s) (λ _ t. At (length content) t)
    rounds-Sends k zero p s l m h = subst (λ p. At p s) (omega (arith, l, m)) h
    rounds-Sends k (suc n) p s l m h =
        let q = further content k.limit p in
        chain-Returns _ _ (send_round api garbage fn num content s)
          (λ _ t. send_rounds api garbage fn num content n t) (round-Sends k p s h)
          (λ _ t r. rounds-Sends k n q t (ground arith) (ground (arith, k.some_data)) r)

  -- If the transfer of a file runs from its start with no request open, all callbacks are set, and
  -- toxcore stays connected, takes all data and calls back about no files, and if the client answers each
  -- request with the bytes of its file at the position and of the size that it was told, then as many
  -- iterations as the file has bytes all return, and so do the answers; toxcore has been given the bytes
  -- of the file, all of them, once and in order; and no further chunk is wanted.
  pub file_delivered :
      (sent : Tox → Bytes) (Good : Tox → Type 0) (s : Session Tox U) (e : FileTransfer)
      → Steady api fn num sent Good
      → Good s.new_tox.tox
      → lookup (fn, num) s.new_tox.transfers ≡ some e
      → IsReady api s.new_tox.tox fn e
      → e.position ≡ 0
      → e.file_size ≡ length content
      → IsRegistered s.new_tox.callbacks
      → Returns (send_rounds api garbage fn num content (length content) s) (λ _ t.
        (sent t.new_tox.tox ≡ sent s.new_tox.tox ++ content)
        × ((e' : FileTransfer) × (lookup (fn, num) t.new_tox.transfers ≡ some e')
            × (e'.position ≡ length content)
            × (wants_chunk e' ≡ false)))
  unfolding wants_chunk
  file_delivered sent Good s e k g l r p z c =
      let before = sent s.new_tox.tox in
      let start : Sends api fn num content sent Good before 0 s =
        (e, (l, g, sym (append-nil before), c), r, p, z) in
      map-Returns _ _ (send_rounds api garbage fn num content (length content) s)
        (λ _ t (e', h, q, at, size). (
          subst (λ b. sent t.new_tox.tox ≡ before ++ b) (take-length content) h.2,
          (e', h.0, at, ground (arith, at, size)),
        ))
        (rounds-Sends sent Good before k (length content) 0 s (omega arith) (omega arith) start)
