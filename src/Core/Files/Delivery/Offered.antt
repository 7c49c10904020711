-- ===== src/Core/Files/Delivery/Offered.antt =====
-- The life of a file that is sent, from new_tox_file_send over the friend's ACCEPT (CB::file_control) to
-- the last chunk.
use tox4j.Base.{
  ℕ, ◌≤◌, ◌<◌, true, false, none, some, ◌≡◌, refl, arith, length, sym, ap, subst, ◌∙◌, to_bool, [],
  ◌++◌,
}
use tox4j.Base.Effect.{M, Returns, ◌>>=◌, ◌>>◌, chain-Returns, map-Returns}
use tox4j.Base.StdMap.{lookup, insert, pair_key, pair_beq_iff}
use tox4j.Base.StdMap.Laws.{lookup-insert}
use tox4j.Core.Enums.{Bytes, ToxErrFileSend}
use tox4j.Core.Api.{ToxApi, OldFileControl}
use tox4j.Core.State.{
  PauseReason, TransferState, FileTransfer, Session, file_transfer, get_transfer, set_transfers,
  set_tox,
}
use tox4j.Core.Handlers.{file_control, control_switch, resume_transfer}
use tox4j.Core.Handlers.Told.{IsRegistered}
use tox4j.Core.Iteration.{wants_chunk}
use tox4j.Core.Files.{new_tox_file_send}
use tox4j.Core.Files.Numbers.{sending_number}
use tox4j.Core.Files.Delivery.{Steady, send_rounds}
use tox4j.Core.Files.Delivery.Whole.{file_delivered}

module _ {Tox U : Type 0} (api : ToxApi Tox) (garbage : PauseReason) (fn : ℕ)
    (content : Bytes) where
  -- The offer, the friend's ACCEPT, and as many iterations as the file has bytes.
  abbrev pub send_file : ℕ → Bytes → ℕ → M (Session Tox U) (Unit {0})
  send_file kind name name_length =
      new_tox_file_send api garbage fn kind (length content) (some name) name_length >>= λ r.
      file_control fn true r.0 OldFileControl.accept
      >> send_rounds api garbage fn r.0 content (length content)

  offered :
      (kind : ℕ) (name : Bytes) (name_length sender : ℕ) (x : Tox) (s : Session Tox U)
      → 0 < name_length
      → name_length ≤ 255
      → to_bool (api.tox_friend_exists s.new_tox.tox fn) ≡ true
      → api.tox_get_friend_connection_status s.new_tox.tox fn ≡ 1
      → api.tox_new_file_sender s.new_tox.tox fn (length content) (some name) name_length
        ≡ (sender, x)
      → sender ≤ 255
      → lookup (fn, sender) s.new_tox.transfers ≡ none
      → Returns
          (new_tox_file_send api garbage fn kind (length content) (some name) name_length s)
          (λ r t.
            (r ≡ (sender, ToxErrFileSend.ok))
            × (t
                ≡ set_transfers
                    (insert
                      (fn, sender)
                      (file_transfer garbage (length content))
                      s.new_tox.transfers)
                    (set_tox x s)))
  unfolding new_tox_file_send get_transfer
  offered kind name len sender x s p q e c n b l = ground arith

  accepted :
      (num : ℕ) (s : Session Tox U) (e : FileTransfer)
      → num ≤ 255
      → IsRegistered s.new_tox.callbacks
      → lookup (fn, num) s.new_tox.transfers ≡ some e
      → Returns (file_control fn true num OldFileControl.accept s) (λ _ t.
        t.new_tox ≡ (record (s.new_tox) {
          transfers =
              insert (fn, num) (record e { state = TransferState.running }) s.new_tox.transfers;
        }))
  unfolding file_control control_switch resume_transfer get_transfer
  accepted num s e b r l = ground (arith, sending_number num (omega arith), r.file_control)

  -- toxcore has been given the whole file, and no further chunk is wanted.
  abbrev pub IsComplete : ℕ → (Tox → Bytes) → Session Tox U → Type 0
  IsComplete num sent t =
      (sent t.new_tox.tox ≡ content)
      × ((e : FileTransfer) × (lookup (fn, num) t.new_tox.transfers ≡ some e)
          × (e.position ≡ length content)
          × (wants_chunk e ≡ false))

  accepted_sent :
      (num : ℕ) (t : Session Tox U) (sent : Tox → Bytes) (Good : Tox → Type 0)
      → num ≤ 255
      → IsRegistered t.new_tox.callbacks
      → lookup (fn, num) t.new_tox.transfers ≡ some (file_transfer garbage (length content))
      → length content < 0x1_0000_0000_0000_0000
      → Steady api fn num sent Good
      → Good t.new_tox.tox
      → sent t.new_tox.tox ≡ []
      → Returns
          ((file_control fn true num OldFileControl.accept
              >> send_rounds api garbage fn num content (length content))
            t)
          (λ _ u. IsComplete num sent u)
  unfolding file_transfer
  accepted_sent num t sent Good b r l z k g y =
      let e = record (file_transfer garbage (length content)) { state = TransferState.running } in
      chain-Returns _ _ (file_control fn true num OldFileControl.accept t) _
        (accepted num t (file_transfer garbage (length content)) b r l)
        (λ _ v q.
          let found : lookup (fn, num) v.new_tox.transfers ≡ some e = ground (
            arith,
            q,
            lookup-insert (fn, num) (fn, num) e t.new_tox.transfers,
            pair_beq_iff (fn, num) (fn, num),
          ) in
          let empty : sent v.new_tox.tox ≡ [] = ap (λ n. sent n.tox) q ∙ y in
          map-Returns _ _ (send_rounds api garbage fn num content (length content) v)
            (λ _ w h. (h.0 ∙ ap (λ b. b ++ content) empty, h.1))
            (file_delivered api garbage fn num content sent Good v e k
              (subst (λ n. Good n.tox) (sym q) g) found (refl, refl, omega arith, z) refl refl
              (subst (λ n. IsRegistered n.callbacks) (sym q) r)))

  -- From new_tox_file_send to the last chunk. The friend exists and is connected, the name has 1 to 255
  -- bytes, all callbacks are set, the file has less than 2^64 bytes, and toxcore gives the transfer a
  -- number up to 255 under which there is none; from there toxcore stays connected, takes all data and
  -- calls back about no files but for the friend's ACCEPT. If the client then answers each request with the
  -- bytes of its file at the position and of the size that it was told, all calls return, toxcore has
  -- been given the bytes of the file, all of them, once and in order, and no further chunk is wanted.
  pub file_sent :
      (kind : ℕ) (name : Bytes) (name_length sender : ℕ) (x : Tox) (s : Session Tox U)
      (sent : Tox → Bytes) (Good : Tox → Type 0)
      → 0 < name_length
      → name_length ≤ 255
      → to_bool (api.tox_friend_exists s.new_tox.tox fn) ≡ true
      → api.tox_get_friend_connection_status s.new_tox.tox fn ≡ 1
      → api.tox_new_file_sender s.new_tox.tox fn (length content) (some name) name_length
        ≡ (sender, x)
      → sender ≤ 255
      → lookup (fn, sender) s.new_tox.transfers ≡ none
      → IsRegistered s.new_tox.callbacks
      → length content < 0x1_0000_0000_0000_0000
      → Steady api fn sender sent Good
      → Good x
      → sent x ≡ []
      → Returns (send_file kind name name_length s) (λ _ t. IsComplete sender sent t)
  file_sent kind name len sender x s sent Good p q e c n b l r z k g y =
      let entry = file_transfer garbage (length content) in
      let start = set_transfers (insert (fn, sender) entry s.new_tox.transfers) (set_tox x s) in
      chain-Returns _ _ (new_tox_file_send api garbage fn kind (length content) (some name) len s) _
        (offered kind name len sender x s p q e c n b l)
        (λ a t (i, j).
          subst
            (λ num.
              Returns
                ((file_control fn true num OldFileControl.accept
                    >> send_rounds api garbage fn num content (length content))
                  t)
                (λ _ u. IsComplete sender sent u))
            (sym (ap (λ r. r.0) i))
            (subst
              (λ t.
                Returns
                  ((file_control fn true sender OldFileControl.accept
                      >> send_rounds api garbage fn sender content (length content))
                    t)
                  (λ _ u. IsComplete sender sent u))
              (sym j)
              (accepted_sent sender start sent Good b r
                (ground (
                  arith,
                  lookup-insert (fn, sender) (fn, sender) entry s.new_tox.transfers,
                  pair_beq_iff (fn, sender) (fn, sender),
                ))
                z k g y)))
