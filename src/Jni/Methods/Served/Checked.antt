-- ===== src/Jni/Methods/Served/Checked.antt =====
-- The native methods of ToxCoreImpl that check their arguments before they look for the instance.
use tox4j.Base.{
  ℕ, Bool, true, false, Option, some, refl, not, is_negative, leb, ◌==◌, ◌||◌, is_null, u16,
}
use tox4j.Base.Effect.{M, assert, ◌>>◌}
use tox4j.Core.Enums.{Bytes, ToxErrBootstrap, tox_public_key_size, tox_address_size}
use tox4j.Core.Api.{ToxApi}
use tox4j.Core.State.{Session}
use tox4j.Core.Friends.{new_tox_friend_add, new_tox_friend_by_public_key}
use tox4j.Jni.Calls.{with_instance}
use tox4j.Jni.Instances.Invariant.{IsConsistent}
use tox4j.Jni.Errors.{
  handle_tox_friend_add_result, handle_friend_by_public_key_error, handle_bootstrap_error,
}
use tox4j.Jni.Errors.Numbers.{
  number_of_friend_add, number_of_friend_by_public_key, number_of_bootstrap,
}
use tox4j.Jni.Events.{CoreEvents}
use tox4j.Jni.Methods.{Table, size_of, same, ignore, with_error_handling}
use tox4j.Jni.Methods.Friends.{
  tox_friend_add, tox_friend_add_norequest, tox_friend_by_public_key, friend_add_norequest,
}
use tox4j.Jni.Methods.Connection.{tox_bootstrap_like}
use tox4j.Jni.Methods.Served.{
  AllRegistered, IsServed, IsServing, with_error_handling-IsKeeping, with_instance-IsServed,
}
use tox4j.Jni.Methods.Served.Functions.{
  friend_add-IsServing, friend_add_norequest-IsServing, friend_by_public_key-IsServing,
}

module _ {Tox : Type 0} where
  asserted-IsServed :
      {A : Type 0} (test : Bool) (m : M (Table Tox) A) (s : Table Tox)
      → IsServed (m s)
      → IsServed ((assert test >> m) s)
  asserted-IsServed true m s p = p
  asserted-IsServed false m s p = refl

  asserted_thrice-IsServed :
      {A : Type 0} (b c d : Bool) (m : M (Table Tox) A) (s : Table Tox)
      → IsServed (m s)
      → IsServed ((assert b >> assert c >> assert d >> m) s)
  asserted_thrice-IsServed true true true m s p = p
  asserted_thrice-IsServed true true false m s p = refl
  asserted_thrice-IsServed true false d m s p = refl
  asserted_thrice-IsServed false c d m s p = refl

  pub bootstrap_like-IsServed :
      (function : Option Bytes
        → ℕ
        → Option Bytes
        → M (Session Tox CoreEvents) (Bool × ToxErrBootstrap))
      (i : ℕ) (a : Option Bytes) (p : ℕ) (k : Option Bytes) (s : Table Tox)
      → IsServing (function a (u16 p) k)
      → IsConsistent s
      → AllRegistered s
      → IsServed (tox_bootstrap_like function i a p k s)
  unfolding tox_bootstrap_like
  bootstrap_like-IsServed function i a p k s served c r =
      let method = with_instance tt i (
        with_error_handling "Bootstrap" handle_bootstrap_error number_of_bootstrap ignore
          (function a (u16 p) k)) in
      asserted_thrice-IsServed (not (is_negative p)) (leb p 65535)
        (is_null k || (size_of k == tox_public_key_size)) method s
        (with_instance-IsServed tt i _ s (with_error_handling-IsKeeping _ _ _ _ _ served) c r)

module _ {Tox : Type 0} (api : ToxApi Tox) where
  pub tox_friend_add-IsServed :
      (i : ℕ) (a m : Option Bytes) (s : Table Tox)
      → IsConsistent s
      → AllRegistered s
      → IsServed (tox_friend_add api i a m s)
  unfolding tox_friend_add
  tox_friend_add-IsServed i a m s c r =
      asserted-IsServed (is_null a || (size_of a == tox_address_size))
        (with_instance 0 i (
          with_error_handling "FriendAdd" handle_tox_friend_add_result number_of_friend_add same
            (new_tox_friend_add api a m (size_of m))))
        s
        (with_instance-IsServed 0 i _ s
          (with_error_handling-IsKeeping _ _ _ _ _ (friend_add-IsServing api a m)) c r)

  pub tox_friend_add_norequest-IsServed :
      (i : ℕ) (k : Bytes) (s : Table Tox)
      → IsConsistent s
      → AllRegistered s
      → IsServed (tox_friend_add_norequest api i (some k) s)
  unfolding tox_friend_add_norequest
  tox_friend_add_norequest-IsServed i k s c r =
      asserted-IsServed (is_null (some k) || (size_of (some k) == tox_public_key_size))
        (with_instance 0 i (
          with_error_handling "FriendAdd" handle_tox_friend_add_result number_of_friend_add same
            (friend_add_norequest api (some k))))
        s
        (with_instance-IsServed 0 i _ s
          (with_error_handling-IsKeeping _ _ _ _ _ (friend_add_norequest-IsServing api k)) c r)

  pub tox_friend_by_public_key-IsServed :
      (i : ℕ) (k : Option Bytes) (s : Table Tox)
      → IsConsistent s
      → AllRegistered s
      → IsServed (tox_friend_by_public_key api i k s)
  unfolding tox_friend_by_public_key
  tox_friend_by_public_key-IsServed i k s c r =
      asserted-IsServed (is_null k || (size_of k == tox_public_key_size))
        (with_instance 0 i (
          with_error_handling "FriendByPublicKey" handle_friend_by_public_key_error
            number_of_friend_by_public_key same (new_tox_friend_by_public_key api k)))
        s
        (with_instance-IsServed 0 i _ s
          (with_error_handling-IsKeeping _ _ _ _ _ (friend_by_public_key-IsServing api k)) c r)
