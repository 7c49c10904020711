-- ===== src/Jni/Methods/Friends.antt =====
-- ToxCore/friendlist.cpp: the native methods for the friend list.
use tox4j.Base.{ℕ, Bool, false, Option, none, some, List, ◌||◌, is_null, ◌==◌}
use tox4j.Base.Effect.{M, fault, wild_call, ◌>>=◌, ◌>>◌, assert, pure}
use tox4j.Core.Enums.{Bytes, ToxErrFriendAdd, tox_public_key_size, tox_address_size}
use tox4j.Core.Api.{ToxApi}
use tox4j.Core.State.{Session}
use tox4j.Core.Files.{new_tox_friend_exists}
use tox4j.Core.Friends.{
  new_tox_friend_add, new_tox_friend_add_norequest, new_tox_friend_delete,
  new_tox_friend_by_public_key, new_tox_friend_get_public_key, new_tox_friend_list_size,
  new_tox_friend_list,
}
use tox4j.Jni.Calls.{with_instance}
use tox4j.Jni.Errors.{
  handle_tox_friend_add_result, handle_friend_delete_error, handle_friend_by_public_key_error,
  handle_friend_get_public_key_error,
}
use tox4j.Jni.Errors.Numbers.{
  number_of_friend_add, number_of_friend_delete, number_of_friend_by_public_key,
  number_of_friend_get_public_key,
}
use tox4j.Jni.Events.{CoreEvents}
use tox4j.Jni.Methods.{Table, size_of, zeros, filled, ignore, same, on_session, with_error_handling}

module _ {Tox : Type 0} (api : ToxApi Tox) where
  unfoldable pub tox_friend_add : ℕ → Option Bytes → Option Bytes → M (Table Tox) ℕ
  unfolding with_instance with_error_handling new_tox_friend_add
  tox_friend_add n address message =
      assert (is_null address || (size_of address == tox_address_size))
      >> with_instance 0 n (
          with_error_handling "FriendAdd" handle_tox_friend_add_result number_of_friend_add same
            (new_tox_friend_add api address message (size_of message)))

  -- A null key goes to toxcore, which reads through it.
  abbrev pub friend_add_norequest : Option Bytes → M (Session Tox CoreEvents) (ℕ × ToxErrFriendAdd)
  friend_add_norequest none s = fault wild_call
  friend_add_norequest (some public_key) s = new_tox_friend_add_norequest api public_key s

  unfoldable pub tox_friend_add_norequest : ℕ → Option Bytes → M (Table Tox) ℕ
  unfolding with_instance with_error_handling new_tox_friend_add_norequest
  tox_friend_add_norequest n public_key =
      assert (is_null public_key || (size_of public_key == tox_public_key_size))
      >> with_instance 0 n (
          with_error_handling "FriendAdd" handle_tox_friend_add_result number_of_friend_add same
            (friend_add_norequest public_key))

  unfoldable pub tox_friend_delete : ℕ → ℕ → M (Table Tox) (Unit {0})
  unfolding with_instance with_error_handling new_tox_friend_delete
  tox_friend_delete n friend_number = with_instance tt n (
      with_error_handling "FriendDelete" handle_friend_delete_error number_of_friend_delete ignore
        (new_tox_friend_delete api friend_number))

  unfoldable pub tox_friend_by_public_key : ℕ → Option Bytes → M (Table Tox) ℕ
  unfolding with_instance with_error_handling new_tox_friend_by_public_key
  tox_friend_by_public_key n public_key =
      assert (is_null public_key || (size_of public_key == tox_public_key_size))
      >> with_instance 0 n (
          with_error_handling "FriendByPublicKey" handle_friend_by_public_key_error
            number_of_friend_by_public_key same (new_tox_friend_by_public_key api public_key))

  -- The callee fills the buffer of the method, which becomes the result.
  abbrev pub filled_key :
      {E : Type 0}
      → M (Session Tox CoreEvents) ((Bool × E) × Option Bytes)
      → M (Session Tox CoreEvents) (Option Bytes × E)
  filled_key func = func >>= λ r. pure (some (filled tox_public_key_size r.1), r.0.1)

  unfoldable pub tox_friend_get_public_key : ℕ → ℕ → M (Table Tox) (Option Bytes)
  unfolding with_instance with_error_handling new_tox_friend_get_public_key
  tox_friend_get_public_key n friend_number = with_instance none n (
      with_error_handling "FriendGetPublicKey" handle_friend_get_public_key_error
        number_of_friend_get_public_key same
        (filled_key
          (new_tox_friend_get_public_key api friend_number (some (zeros tox_public_key_size)))))

  unfoldable pub tox_friend_exists : ℕ → ℕ → M (Table Tox) Bool
  unfolding with_instance on_session new_tox_friend_exists
  tox_friend_exists n friend_number =
      with_instance false n (on_session (new_tox_friend_exists api friend_number))

  unfoldable pub tox_friend_list : ℕ → M (Table Tox) (Option (List ℕ))
  unfolding with_instance on_session new_tox_friend_list_size new_tox_friend_list
  tox_friend_list n = with_instance none n (
      on_session (
        new_tox_friend_list_size api >>= λ size.
        new_tox_friend_list api >>= λ list. pure (some (filled size (some list)))))
