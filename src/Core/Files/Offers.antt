-- ===== src/Core/Files/Offers.antt =====
-- new_tox_file_send (tox/core.cpp): which offers are refused, and the entry that one makes in the table.
pub mod Branches
use tox4j.Base.{
  ℕ, ◌≤◌, ◌<◌, false, Option, none, some, ◌==◌, Bool-cases, ltb, ◌&&◌, not, is_null, to_bool, inl,
  inr, ◌≡◌, ◌≢◌, ◌⊎◌, refl, arith, minus_one, subst,
}
use tox4j.Base.Effect.{ok, Returns, map-Returns}
use tox4j.Base.StdMap.{lookup, insert, pair_key}
use tox4j.Base.StdMap.Laws.{lookup-insert}
use tox4j.Core.Enums.{Bytes, ToxErrFileSend, tox_file_kind_avatar}
use tox4j.Core.Api.{ToxApi}
use tox4j.Core.State.{
  PauseReason, TransferState, FileTransfer, Transfers, Session, file_transfer, get_transfer,
}
use tox4j.Core.Files.Chunk.{Exists, IsOnline}
use tox4j.Core.Files.{new_tox_file_send}
use tox4j.Core.Files.Offers.Branches.{
  IsPassed, file_sent_inserts, file_refused_keeps, file_unconnected_keeps,
}

-- The name is not too long, and there is one, unless the file is an avatar.
abbrev pub IsNamed : ℕ → Option Bytes → ℕ → Type 0
IsNamed kind name len = (len ≤ 255) × ((kind ≡ tox_file_kind_avatar) ⊎ ((len ≢ 0) × (name ≢ none)))

-- The second table is the first one with a new transfer: paused, at position 0, with no request open.
abbrev pub Entered : ℕ × ℕ → ℕ → Transfers → Transfers → Type 0
Entered key file_size m n =
    ((transfer : FileTransfer) × (lookup key n ≡ some transfer)
      × (transfer.state ≡ TransferState.paused)
      × (transfer.file_size ≡ file_size)
      × (transfer.position ≡ 0)
      × (transfer.event_pending ≡ false))
    × ((k : ℕ × ℕ) → k ≢ key → lookup k n ≡ lookup k m)

insert-Entered :
    (garbage : PauseReason) (key : ℕ × ℕ) (size : ℕ) (m n : Transfers)
    → n ≡ insert key (file_transfer garbage size) m
    → Entered key size m n
unfolding file_transfer
insert-Entered garbage key size m n e =
    let entry = file_transfer garbage size in
    let there : lookup key n ≡ some entry =
      ground (arith, e, lookup-insert key key entry m, pair_key.beq_iff key key) in
    (
      (entry, there, refl, refl, refl, refl),
      λ k h. ground (arith, e, h, lookup-insert key k entry m, pair_key.beq_iff key k),
    )

module _ {Tox U : Type 0} (api : ToxApi Tox) where
  -- When an offer ends with a code. No two of these hold together. `sender` is what toxcore answers.
  abbrev pub SendReason : ℕ → ℕ → Option Bytes → ℕ → ℕ → Session Tox U → ToxErrFileSend → Type 0
  SendReason fn kind name len sender s ToxErrFileSend.name_too_long = 255 < len
  SendReason fn kind name len sender s ToxErrFileSend.name_empty =
      (len ≡ 0) × (kind ≢ tox_file_kind_avatar)
  SendReason fn kind name len sender s ToxErrFileSend.null =
      (len ≢ 0) × (len ≤ 255) × (name ≡ none) × (kind ≢ tox_file_kind_avatar)
  SendReason fn kind name len sender s ToxErrFileSend.friend_not_found =
      IsNamed kind name len × ¬ Exists api fn s
  SendReason fn kind name len sender s ToxErrFileSend.friend_not_connected =
      IsNamed kind name len × Exists api fn s × ¬ IsOnline api fn s
  SendReason fn kind name len sender s ToxErrFileSend.too_many =
      IsNamed kind name len × Exists api fn s × IsOnline api fn s × (sender ≡ minus_one)
  SendReason fn kind name len sender s ToxErrFileSend.ok =
      IsNamed kind name len × Exists api fn s × IsOnline api fn s × (sender ≢ minus_one)

  -- The call after its tests of the name.
  file_named_inserts :
      (g : PauseReason) (fn kind size : ℕ) (name : Option Bytes) (len sender : ℕ)
      (s : Session Tox U)
      → sender ≡ (api.tox_new_file_sender s.new_tox.tox fn size name len).0
      → (Exists api fn s → api.tox_get_friend_connection_status s.new_tox.tox fn ≢ minus_one)
      → (sender ≡ minus_one) ⊎ ((sender ≤ 255) × (lookup (fn, sender) s.new_tox.transfers ≡ none))
      → IsPassed kind name len
      → IsNamed kind name len
      → Returns (new_tox_file_send api g fn kind size name len s) (λ r t.
        SendReason fn kind name len sender s r.1
        × (r.1 ≢ ToxErrFileSend.ok → (r.0 ≡ 0) × (t.new_tox.transfers ≡ s.new_tox.transfers))
        × (r.1 ≡ ToxErrFileSend.ok
            → (r.0 ≡ sender)
              × (t.new_tox.transfers
                  ≡ insert (fn, sender) (file_transfer g size) s.new_tox.transfers)))
  unfolding new_tox_file_send get_transfer
  file_named_inserts g fn kind size name len sender s e st d passed n =
      elim (Bool-cases (to_bool (api.tox_friend_exists s.new_tox.tox fn))) [
        | inl exists ↦
            elim (Bool-cases (to_bool (api.tox_get_friend_connection_status s.new_tox.tox fn))) [
              | inl online ↦ elim d [
                | inl full ↦
                    let o =
                      file_refused_keeps api g fn kind size name len s passed exists (st exists)
                        online (subst (λ x. x ≡ minus_one) e full) in
                    rw o ((n, exists, online, full), (λ h. (refl, refl)), (λ h. cc))
                | inr (fits, free) ↦
                    let o =
                      file_sent_inserts api g fn kind size name len s passed exists (st exists)
                        online (subst (λ x. x ≤ 255) e fits)
                        (subst (λ x. lookup (fn, x) s.new_tox.transfers ≡ none) e free) in
                    let enough : sender ≢ minus_one = omega arith in
                    rw (e, o)
                      (
                        (n, exists, online, subst (λ x. x ≢ minus_one) e enough),
                        (λ h. absurd (h refl)),
                        (λ h. (refl, refl)),
                      )
              ]
              | inr offline ↦
                  let o =
                    file_unconnected_keeps api g fn kind size name len s passed exists (st exists)
                      offline in
                  rw o ((n, exists, λ online. cc), (λ h. (refl, refl)), (λ h. cc))
            ]
        | inr lost ↦ ground arith
      ]

  -- The same with the table after the call as an insertion.
  file_send_inserts :
      (garbage : PauseReason) (fn kind size : ℕ) (name : Option Bytes) (len sender : ℕ)
      (s : Session Tox U)
      → sender ≡ (api.tox_new_file_sender s.new_tox.tox fn size name len).0
      → (Exists api fn s → api.tox_get_friend_connection_status s.new_tox.tox fn ≢ minus_one)
      → (sender ≡ minus_one) ⊎ ((sender ≤ 255) × (lookup (fn, sender) s.new_tox.transfers ≡ none))
      → Returns (new_tox_file_send api garbage fn kind size name len s) (λ r t.
        SendReason fn kind name len sender s r.1
        × (r.1 ≢ ToxErrFileSend.ok → (r.0 ≡ 0) × (t.new_tox.transfers ≡ s.new_tox.transfers))
        × (r.1 ≡ ToxErrFileSend.ok
            → (r.0 ≡ sender)
              × (t.new_tox.transfers
                  ≡ insert (fn, sender) (file_transfer garbage size) s.new_tox.transfers)))
  unfolding new_tox_file_send get_transfer
  file_send_inserts g fn kind size name len sender s e st d = elim (Bool-cases (ltb 255 len)) [
    | inl long ↦ ground arith
    | inr short ↦ elim (Bool-cases ((len == 0) && not (kind == tox_file_kind_avatar))) [
      | inl unnamed ↦ ground arith
      | inr named ↦ elim (Bool-cases (is_null name && not (kind == tox_file_kind_avatar))) [
        | inl null ↦ ground arith
        | inr there ↦
            file_named_inserts g fn kind size name len sender s e st d (short, named, there)
              (ground arith)
      ]
    ]
  ]

  -- A file is offered, with any kind, size and name. If toxcore has a connection status for each friend
  -- that exists, and answers with -1 or with a number up to 255 that has no transfer with this friend, then
  -- the call returns, with the code whose reason holds. On an error the result is 0 and the table is as it
  -- was. On OK the result is toxcore's number, and the table has under it a transfer of the file's size at
  -- position 0, which is paused and has no request open; every other entry is as it was.
  pub file_send_decides :
      (garbage : PauseReason) (friend_number kind file_size : ℕ) (filename : Option Bytes)
      (filename_length sender : ℕ) (s : Session Tox U)
      → sender
        ≡ (api.tox_new_file_sender s.new_tox.tox friend_number file_size filename filename_length).0
      → (Exists api friend_number s
          → api.tox_get_friend_connection_status s.new_tox.tox friend_number ≢ minus_one)
      → (sender ≡ minus_one)
        ⊎ ((sender ≤ 255) × (lookup (friend_number, sender) s.new_tox.transfers ≡ none))
      → Returns
          (new_tox_file_send api garbage friend_number kind file_size filename filename_length s)
          (λ r t.
            SendReason friend_number kind filename filename_length sender s r.1
            × (r.1 ≢ ToxErrFileSend.ok → (r.0 ≡ 0) × (t.new_tox.transfers ≡ s.new_tox.transfers))
            × (r.1 ≡ ToxErrFileSend.ok
                → (r.0 ≡ sender)
                  × Entered
                      (friend_number, sender)
                      file_size
                      s.new_tox.transfers
                      t.new_tox.transfers))
  file_send_decides g fn kind size name len sender s e st d =
      map-Returns
        (λ r t.
          SendReason fn kind name len sender s r.1
          × (r.1 ≢ ToxErrFileSend.ok → (r.0 ≡ 0) × (t.new_tox.transfers ≡ s.new_tox.transfers))
          × (r.1 ≡ ToxErrFileSend.ok
              → (r.0 ≡ sender)
                × (t.new_tox.transfers
                    ≡ insert (fn, sender) (file_transfer g size) s.new_tox.transfers)))
        _ _
        (λ r t (reason, refused, table). (
          reason,
          refused,
          λ o. (
            (table o).0,
            insert-Entered g (fn, sender) size s.new_tox.transfers t.new_tox.transfers (table o).1,
          ),
        ))
        (file_send_inserts g fn kind size name len sender s e st d)
