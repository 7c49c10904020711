-- ===== src/Core/Friends.antt =====
-- tox/core.cpp: the friend list.
pub mod Outcomes
use tox4j.Base.{
  ℕ, Bool, true, false, not, ◌||◌, Option, none, some, List, [], ◌∷◌, ◌==◌, minus_one, is_null,
}
use tox4j.Base.Effect.{M, assert, assert_some, ok}
use tox4j.Base.Early.{E, ◌>>=◌, ◌>>◌, return_if, finish, lift, body}
use tox4j.Core.Enums.{
  Bytes, ToxErrFriendAdd, ToxErrFriendDelete, ToxErrFriendByPublicKey, ToxErrFriendGetPublicKey,
  ToxErrSetTyping,
}
use tox4j.Core.Api.{ToxApi}
use tox4j.Core.State.{Session, call_tox, read_tox, set_tox}
use tox4j.Core.Registration.{register_friend}

-- `std::find (…) != list.end ()`.
unfoldable pub contains : ℕ → List ℕ → Bool
contains n [] = false
contains n (m ∷ ms) = (m == n) || contains n ms

module _ {Tox U : Type 0} (api : ToxApi Tox) where
  -- The end of both ways to add a friend.
  unfoldable pub added : ℕ → E (Session Tox U) (ℕ × ToxErrFriendAdd) (ℕ × ToxErrFriendAdd)
  added friend_number = do
    lift (λ s. ok (tt, set_tox (register_friend api friend_number s.new_tox.tox) s))
    finish (friend_number, ToxErrFriendAdd.ok)

  unfoldable pub new_tox_friend_add :
      Option Bytes → Option Bytes → ℕ → M (Session Tox U) (ℕ × ToxErrFriendAdd)
  unfolding added
  new_tox_friend_add address message length = body do
    return_if (is_null address || is_null message) (0, ToxErrFriendAdd.null)
    address' ← lift (assert_some address)
    message' ← lift (assert_some message)
    friend_number ← lift (call_tox λ t. api.tox_add_friend t address' message' length)
    return_if (friend_number == api.faerr_toolong) (0, ToxErrFriendAdd.too_long)
    return_if (friend_number == api.faerr_nomessage) (0, ToxErrFriendAdd.no_message)
    return_if (friend_number == api.faerr_ownkey) (0, ToxErrFriendAdd.own_key)
    return_if (friend_number == api.faerr_alreadysent) (0, ToxErrFriendAdd.already_sent)
    return_if (friend_number == api.faerr_badchecksum) (0, ToxErrFriendAdd.bad_checksum)
    return_if (friend_number == api.faerr_setnewnospam) (0, ToxErrFriendAdd.set_new_nospam)
    return_if (friend_number == api.faerr_nomem) (0, ToxErrFriendAdd.malloc)
    added friend_number

  -- The key is not compared with nullptr here: toxcore gets whatever the caller passed.
  unfoldable pub new_tox_friend_add_norequest : Bytes → M (Session Tox U) (ℕ × ToxErrFriendAdd)
  unfolding added
  new_tox_friend_add_norequest public_key = body do
    friend_number ← lift (call_tox λ t. api.tox_add_friend_norequest t public_key)
    return_if (friend_number == api.faerr_ownkey) (0, ToxErrFriendAdd.own_key)
    return_if (friend_number == api.faerr_alreadysent) (0, ToxErrFriendAdd.already_sent)
    return_if (friend_number == api.faerr_badchecksum) (0, ToxErrFriendAdd.bad_checksum)
    return_if (friend_number == api.faerr_setnewnospam) (0, ToxErrFriendAdd.set_new_nospam)
    return_if (friend_number == api.faerr_nomem) (0, ToxErrFriendAdd.malloc)
    added friend_number

  unfoldable pub new_tox_friend_delete : ℕ → M (Session Tox U) (Bool × ToxErrFriendDelete)
  unfolding contains
  new_tox_friend_delete friend_number = body do
    size ← lift (read_tox λ t. api.tox_count_friendlist t)
    list ← lift (read_tox λ t. api.tox_get_friendlist t size)
    result ← lift (call_tox λ t. api.tox_del_friend t friend_number)
    return_if (result == minus_one) (false, ToxErrFriendDelete.friend_not_found)
    lift (assert (result == 0))
    return_if (not (contains friend_number list)) (false, ToxErrFriendDelete.friend_not_found)
    finish (true, ToxErrFriendDelete.ok)

  unfoldable pub new_tox_friend_by_public_key :
      Option Bytes → M (Session Tox U) (ℕ × ToxErrFriendByPublicKey)
  new_tox_friend_by_public_key public_key = body do
    return_if (is_null public_key) (0, ToxErrFriendByPublicKey.null)
    key ← lift (assert_some public_key)
    friend_number ← lift (read_tox λ t. api.tox_get_friend_number t key)
    return_if (friend_number == minus_one) (0, ToxErrFriendByPublicKey.not_found)
    finish (friend_number, ToxErrFriendByPublicKey.ok)

  -- The result comes with the caller's buffer as the call leaves it.
  unfoldable pub new_tox_friend_get_public_key :
      ℕ → Option Bytes → M (Session Tox U) ((Bool × ToxErrFriendGetPublicKey) × Option Bytes)
  new_tox_friend_get_public_key friend_number buffer = body do
    return_if (is_null buffer) ((true, ToxErrFriendGetPublicKey.ok), none)
    found ← lift (read_tox λ t. api.tox_get_client_id t friend_number)
    return_if (found.0 == minus_one)
        ((false, ToxErrFriendGetPublicKey.friend_not_found), some found.1)
    lift (assert (found.0 == 0))
    finish ((true, ToxErrFriendGetPublicKey.ok), some found.1)

  unfoldable pub new_tox_friend_list_size : M (Session Tox U) ℕ
  new_tox_friend_list_size = read_tox λ t. api.tox_count_friendlist t

  unfoldable pub new_tox_friend_list : M (Session Tox U) (List ℕ)
  new_tox_friend_list = read_tox λ t. api.tox_get_friendlist t (api.tox_count_friendlist t)

  unfoldable pub new_tox_self_set_typing : ℕ → Bool → M (Session Tox U) (Bool × ToxErrSetTyping)
  new_tox_self_set_typing friend_number is_typing = body do
    result ← lift (call_tox λ t. api.tox_set_user_is_typing t friend_number is_typing)
    return_if (result == minus_one) (false, ToxErrSetTyping.friend_not_found)
    lift (assert (result == 0))
    finish (true, ToxErrSetTyping.ok)
