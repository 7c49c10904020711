-- ===== src/Core/Setters.antt =====
-- tox/core.cpp: the new_tox_callback_* functions, which set one callback each, and the functions
-- that are not written yet and only fail an assertion.
use tox4j.Base.{ℕ, Bool, false, true, Option, some}
use tox4j.Base.Effect.{M, ok, ◌>>◌, assert, pure}
use tox4j.Core.Enums.{Bytes, ToxConnection, ToxErrFriendQuery, tox_status_none}
use tox4j.Core.State.{Callbacks, Session}

module _ {Tox U : Type 0} where
  abbrev pub set_callbacks : (Callbacks U → Callbacks U) → M (Session Tox U) (Unit {0})
  set_callbacks f s =
      ok (tt, record s { new_tox = record (s.new_tox) { callbacks = f s.new_tox.callbacks } })

  unfoldable pub new_tox_callback_connection_status :
      (ToxConnection → U → U) → M (Session Tox U) (Unit {0})
  new_tox_callback_connection_status function =
      set_callbacks λ c. record c { connection_status = some function }

  unfoldable pub new_tox_callback_friend_name :
      (ℕ → Option Bytes → ℕ → U → U) → M (Session Tox U) (Unit {0})
  new_tox_callback_friend_name function =
      set_callbacks λ c. record c { friend_name = some function }

  unfoldable pub new_tox_callback_friend_status_message :
      (ℕ → Option Bytes → ℕ → U → U) → M (Session Tox U) (Unit {0})
  new_tox_callback_friend_status_message function =
      set_callbacks λ c. record c { friend_status_message = some function }

  unfoldable pub new_tox_callback_friend_status : (ℕ → ℕ → U → U) → M (Session Tox U) (Unit {0})
  new_tox_callback_friend_status function =
      set_callbacks λ c. record c { friend_status = some function }

  unfoldable pub new_tox_callback_friend_connection_status :
      (ℕ → ToxConnection → U → U) → M (Session Tox U) (Unit {0})
  new_tox_callback_friend_connection_status function =
      set_callbacks λ c. record c { friend_connection_status = some function }

  unfoldable pub new_tox_callback_friend_typing : (ℕ → Bool → U → U) → M (Session Tox U) (Unit {0})
  new_tox_callback_friend_typing function =
      set_callbacks λ c. record c { friend_typing = some function }

  unfoldable pub new_tox_callback_read_receipt : (ℕ → ℕ → U → U) → M (Session Tox U) (Unit {0})
  new_tox_callback_read_receipt function =
      set_callbacks λ c. record c { read_receipt = some function }

  unfoldable pub new_tox_callback_friend_request :
      (Bytes → Bytes → ℕ → U → U) → M (Session Tox U) (Unit {0})
  new_tox_callback_friend_request function =
      set_callbacks λ c. record c { friend_request = some function }

  unfoldable pub new_tox_callback_friend_message :
      (ℕ → Bytes → ℕ → U → U) → M (Session Tox U) (Unit {0})
  new_tox_callback_friend_message function =
      set_callbacks λ c. record c { friend_message = some function }

  unfoldable pub new_tox_callback_friend_action :
      (ℕ → Bytes → ℕ → U → U) → M (Session Tox U) (Unit {0})
  new_tox_callback_friend_action function =
      set_callbacks λ c. record c { friend_action = some function }

  unfoldable pub new_tox_callback_file_control : (ℕ → ℕ → ℕ → U → U) → M (Session Tox U) (Unit {0})
  new_tox_callback_file_control function =
      set_callbacks λ c. record c { file_control = some function }

  unfoldable pub new_tox_callback_file_request_chunk :
      (ℕ → ℕ → ℕ → ℕ → U → U) → M (Session Tox U) (Unit {0})
  new_tox_callback_file_request_chunk function =
      set_callbacks λ c. record c { file_request_chunk = some function }

  unfoldable pub new_tox_callback_file_receive :
      (ℕ → ℕ → ℕ → ℕ → Bytes → ℕ → U → U) → M (Session Tox U) (Unit {0})
  new_tox_callback_file_receive function =
      set_callbacks λ c. record c { file_receive = some function }

  unfoldable pub new_tox_callback_file_receive_chunk :
      (ℕ → ℕ → ℕ → Bytes → ℕ → U → U) → M (Session Tox U) (Unit {0})
  new_tox_callback_file_receive_chunk function =
      set_callbacks λ c. record c { file_receive_chunk = some function }

  unfoldable pub new_tox_callback_friend_lossy_packet :
      (ℕ → Bytes → ℕ → U → U) → M (Session Tox U) (Unit {0})
  new_tox_callback_friend_lossy_packet function =
      set_callbacks λ c. record c { friend_lossy_packet = some function }

  unfoldable pub new_tox_callback_friend_lossless_packet :
      (ℕ → Bytes → ℕ → U → U) → M (Session Tox U) (Unit {0})
  new_tox_callback_friend_lossless_packet function =
      set_callbacks λ c. record c { friend_lossless_packet = some function }

module _ {S : Type 0} where
  unfoldable pub new_tox_connection_status : M S Bool
  new_tox_connection_status = do assert false; pure true

  unfoldable pub new_tox_friend_get_name_size : ℕ → M S (ℕ × ToxErrFriendQuery)
  new_tox_friend_get_name_size friend_number = do assert false; pure (0, ToxErrFriendQuery.ok)

  unfoldable pub new_tox_friend_get_name : ℕ → M S (Bool × ToxErrFriendQuery)
  new_tox_friend_get_name friend_number = do assert false; pure (true, ToxErrFriendQuery.ok)

  unfoldable pub new_tox_friend_get_status_message_size : ℕ → M S (ℕ × ToxErrFriendQuery)
  new_tox_friend_get_status_message_size friend_number = do
    assert false
    pure (0, ToxErrFriendQuery.ok)

  unfoldable pub new_tox_friend_get_status_message : ℕ → M S (Bool × ToxErrFriendQuery)
  new_tox_friend_get_status_message friend_number = do
    assert false
    pure (true, ToxErrFriendQuery.ok)

  unfoldable pub new_tox_friend_get_status : ℕ → M S (ℕ × ToxErrFriendQuery)
  new_tox_friend_get_status friend_number = do
    assert false
    pure (tox_status_none, ToxErrFriendQuery.ok)

  unfoldable pub new_tox_friend_get_typing : ℕ → M S (Bool × ToxErrFriendQuery)
  new_tox_friend_get_typing friend_number = do assert false; pure (true, ToxErrFriendQuery.ok)

  unfoldable pub new_tox_hash : Bytes → ℕ → M S Bool
  new_tox_hash bytes length = do assert false; pure true
