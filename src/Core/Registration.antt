-- ===== src/Core/Registration.antt =====
-- What a new_Tox registers with toxcore: its callbacks, in its constructor, and the handlers of
-- custom packets for each friend (tox/core_private.h and tox/core.cpp).
pub mod Ranges
use tox4j.Base.{ℕ, zero, suc, ◌+◌, true, false, List, [], ◌∷◌, leb, u8}
use tox4j.Core.Api.{ToxApi, CallbackKind}

-- `for (uint8_t byte = first; byte <= last; byte++)`, on fuel: a byte has 256 values.
unfoldable pub for_bytes : {Tox : Type 0} → (ℕ → Tox → Tox) → ℕ → ℕ → ℕ → Tox → Tox
for_bytes register zero byte last t = t
for_bytes register (suc fuel) byte last t = elim (leb byte last) [
  | true ↦ for_bytes register fuel (u8 (byte + 1)) last (register byte t)
  | false ↦ t
]

module _ {Tox : Type 0} (api : ToxApi Tox) where
  -- The constructor's calls of tox_callback_*.
  unfoldable pub register_callbacks : Tox → Tox
  register_callbacks t =
      register_all
        (CallbackKind.friend_request ∷ CallbackKind.friend_message ∷ CallbackKind.friend_action
          ∷ CallbackKind.name_change ∷ CallbackKind.status_message ∷ CallbackKind.user_status
          ∷ CallbackKind.typing_change ∷ CallbackKind.read_receipt ∷ CallbackKind.connection_status
          ∷ CallbackKind.file_send_request ∷ CallbackKind.file_control ∷ CallbackKind.file_data
          ∷ [])
        t
    where
      register_all : List CallbackKind → Tox → Tox
      register_all [] u = u
      register_all (kind ∷ kinds) u = register_all kinds (api.tox_callback kind u)

  -- new_Tox::register_custom_packet_handlers.
  unfoldable pub register_friend : ℕ → Tox → Tox
  unfolding for_bytes
  register_friend friend_number t =
      let lossy = for_bytes (api.tox_lossy_packet_registerhandler friend_number) 256 200 254 t in
      for_bytes (api.tox_lossless_packet_registerhandler friend_number) 256 160 191 lossy

  unfoldable pub register_friends : List ℕ → Tox → Tox
  unfolding register_friend
  register_friends [] t = t
  register_friends (friend_number ∷ rest) t =
      register_friends rest (register_friend friend_number t)

  -- The static register_custom_packet_handlers: for all friends of a fresh Tox.
  unfoldable pub register_custom_packet_handlers : Tox → Tox
  unfolding register_friends
  register_custom_packet_handlers t =
      register_friends (api.tox_get_friendlist t (api.tox_count_friendlist t)) t
