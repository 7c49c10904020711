-- ===== src/Core/Friends/Outcomes.antt =====
-- When the operations on the friend list of tox/core.cpp succeed.
use tox4j.Base.{
  Bool, ℕ, true, Option, none, some, List, [], ◌∷◌, ◌≡◌, ◌≢◌, ◌↔◌, ◌⊎◌, arith, minus_one,
}
use tox4j.Base.Effect.{Returns}
use tox4j.Core.Enums.{Bytes, ToxErrFriendAdd, ToxErrFriendDelete}
use tox4j.Core.Api.{ToxApi}
use tox4j.Core.State.{Session, set_tox}
use tox4j.Core.Registration.{register_friend}
use tox4j.Core.Friends.{new_tox_friend_add, new_tox_friend_delete, contains}

abbrev pub IsOneOf : ℕ → List ℕ → Type 0
IsOneOf n [] = ⊥
IsOneOf n (m ∷ ms) = (n ≡ m) ⊎ IsOneOf n ms

pub contains_iff : (n : ℕ) (ms : List ℕ) → (contains n ms ≡ true) ↔ IsOneOf n ms
unfolding contains
contains_iff n [] = ground arith
contains_iff n (m ∷ ms) = ground (arith, contains_iff n ms)

module _ {Tox : Type 0} (api : ToxApi Tox) where
  -- The codes that the switch of new_tox_friend_add names.
  abbrev pub add_codes : List ℕ
  add_codes =
      api.faerr_toolong ∷ api.faerr_nomessage ∷ api.faerr_ownkey ∷ api.faerr_alreadysent
      ∷ api.faerr_badchecksum ∷ api.faerr_setnewnospam ∷ api.faerr_nomem ∷ []

module _ {Tox U : Type 0} (api : ToxApi Tox) where
  -- With both arguments.
  abbrev pub AddedSpec :
      Bytes → Bytes → ℕ → Session Tox U → ℕ × ToxErrFriendAdd → Session Tox U → Type 0
  AddedSpec address message length s r t =
      let added = api.tox_add_friend s.new_tox.tox address message length in
      (r.1 ≢ ToxErrFriendAdd.null)
      × ((r.1 ≢ ToxErrFriendAdd.ok) ↔ IsOneOf added.0 (add_codes api))
      × (r.1 ≡ ToxErrFriendAdd.ok
          → (r.0 ≡ added.0) × (t ≡ set_tox (register_friend api added.0 added.1) s))
      × (r.1 ≢ ToxErrFriendAdd.ok → (r.0 ≡ 0) × (t ≡ set_tox added.1 s))

  abbrev pub AddSpec :
      Option Bytes → Option Bytes → ℕ → Session Tox U → ℕ × ToxErrFriendAdd → Session Tox U → Type 0
  AddSpec (some address) (some message) length s r t = AddedSpec address message length s r t
  AddSpec _ _ length s r t = (r ≡ (0, ToxErrFriendAdd.null)) × (t ≡ s)

  -- Adding a friend returns. If the address or the message is null, the code is NULL, the result 0, and
  -- nothing changes. If both are there, it fails exactly if toxcore's result is one of the seven codes
  -- that the switch names; any other result, negative or not, is a success. On a success the result is
  -- toxcore's, and the packet handlers are registered for it; on an error it is 0, the code is not NULL,
  -- and nothing is registered.
  pub friend_add_lem :
      (address message : Option Bytes) (length : ℕ) (s : Session Tox U)
      → Returns (new_tox_friend_add api address message length s) (AddSpec address message length s)
  unfolding new_tox_friend_add
  friend_add_lem none message length s = ground arith
  friend_add_lem (some address) none length s = ground arith
  friend_add_lem (some address) (some message) length s = ground arith

  abbrev pub DeletedSpec : ℕ → Session Tox U → Bool × ToxErrFriendDelete → Session Tox U → Type 0
  DeletedSpec fn s r t =
      let deleted = api.tox_del_friend s.new_tox.tox fn in
      ((r.1 ≡ ToxErrFriendDelete.ok) ↔ (
        (deleted.0 ≡ 0)
        × IsOneOf fn
            (api.tox_get_friendlist s.new_tox.tox (api.tox_count_friendlist s.new_tox.tox))))
      × ((r.0 ≡ true) ↔ (r.1 ≡ ToxErrFriendDelete.ok))
      × (t ≡ set_tox deleted.1 s)

  -- If toxcore's delete returns 0 or -1, deleting a friend returns, and succeeds exactly if toxcore
  -- deleted it and it had been on the friend list from before the call.
  pub friend_delete_lem :
      (fn : ℕ) (s : Session Tox U)
      → ((api.tox_del_friend s.new_tox.tox fn).0 ≢ minus_one
          → (api.tox_del_friend s.new_tox.tox fn).0 ≡ 0)
      → Returns (new_tox_friend_delete api fn s) (DeletedSpec fn s)
  unfolding new_tox_friend_delete
  friend_delete_lem fn s h = ground (
    arith,
    contains_iff fn (api.tox_get_friendlist s.new_tox.tox (api.tox_count_friendlist s.new_tox.tox)),
  )
