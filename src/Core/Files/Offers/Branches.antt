-- ===== src/Core/Files/Offers/Branches.antt =====
-- new_tox_file_send (tox/core.cpp) on the branches behind its tests of the name.
use tox4j.Base.{
  ℕ, ◌≤◌, false, Option, none, ◌==◌, ltb, ◌&&◌, not, is_null, to_bool, ◌≡◌, ◌≢◌, arith, minus_one,
}
use tox4j.Base.Effect.{ok}
use tox4j.Base.StdMap.{lookup, insert, pair_key}
use tox4j.Core.Enums.{Bytes, ToxErrFileSend, tox_file_kind_avatar}
use tox4j.Core.Api.{ToxApi}
use tox4j.Core.State.{PauseReason, Session, file_transfer, get_transfer, add_transfer}
use tox4j.Core.Files.Chunk.{Exists, IsOnline}
use tox4j.Core.Files.{new_tox_file_send}

-- The tests of the name, passed.
abbrev pub IsPassed : ℕ → Option Bytes → ℕ → Type 0
IsPassed kind name len =
    (ltb 255 len ≡ false)
    × (((len == 0) && not (kind == tox_file_kind_avatar)) ≡ false)
    × ((is_null name && not (kind == tox_file_kind_avatar)) ≡ false)

module _ {Tox U : Type 0} (api : ToxApi Tox) where
  -- The call when all its tests are passed.
  pub file_sent_inserts :
      (g : PauseReason) (fn kind size : ℕ) (name : Option Bytes) (len : ℕ) (s : Session Tox U)
      → IsPassed kind name len
      → Exists api fn s
      → api.tox_get_friend_connection_status s.new_tox.tox fn ≢ minus_one
      → IsOnline api fn s
      → (api.tox_new_file_sender s.new_tox.tox fn size name len).0 ≤ 255
      → lookup (fn, (api.tox_new_file_sender s.new_tox.tox fn size name len).0) s.new_tox.transfers
        ≡ none
      → new_tox_file_send api g fn kind size name len s
        ≡ ok (
          ((api.tox_new_file_sender s.new_tox.tox fn size name len).0, ToxErrFileSend.ok),
          record s {
            new_tox = record (s.new_tox) {
              tox = (api.tox_new_file_sender s.new_tox.tox fn size name len).1;
              transfers =
                  insert
                    (fn, (api.tox_new_file_sender s.new_tox.tox fn size name len).0)
                    (file_transfer g size)
                    s.new_tox.transfers;
            };
          },
        )
  unfolding new_tox_file_send get_transfer add_transfer
  file_sent_inserts g fn kind size name len s passed exists status online fits free = ground arith

  pub file_refused_keeps :
      (g : PauseReason) (fn kind size : ℕ) (name : Option Bytes) (len : ℕ) (s : Session Tox U)
      → IsPassed kind name len
      → Exists api fn s
      → api.tox_get_friend_connection_status s.new_tox.tox fn ≢ minus_one
      → IsOnline api fn s
      → (api.tox_new_file_sender s.new_tox.tox fn size name len).0 ≡ minus_one
      → new_tox_file_send api g fn kind size name len s
        ≡ ok (
          (0, ToxErrFileSend.too_many),
          record s {
            new_tox = record (s.new_tox) {
              tox = (api.tox_new_file_sender s.new_tox.tox fn size name len).1;
            };
          },
        )
  unfolding new_tox_file_send
  file_refused_keeps g fn kind size name len s passed exists status online full = ground arith

  pub file_unconnected_keeps :
      (g : PauseReason) (fn kind size : ℕ) (name : Option Bytes) (len : ℕ) (s : Session Tox U)
      → IsPassed kind name len
      → Exists api fn s
      → api.tox_get_friend_connection_status s.new_tox.tox fn ≢ minus_one
      → to_bool (api.tox_get_friend_connection_status s.new_tox.tox fn) ≡ false
      → new_tox_file_send api g fn kind size name len s
        ≡ ok ((0, ToxErrFileSend.friend_not_connected), s)
  unfolding new_tox_file_send
  file_unconnected_keeps g fn kind size name len s passed exists status offline = ground arith
