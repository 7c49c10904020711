-- ===== src/Core/Self/RoundTrip.antt =====
-- The own name of tox/core.cpp: what is set is what is read.
use tox4j.Base.{Bool, ◌≤◌, true, none, some, [], ◌∷◌, ◌≡◌, ◌≢◌, ◌==◌, arith, length, if◌then◌else◌}
use tox4j.Base.Effect.{ok, Returns}
use tox4j.Core.Enums.{Bytes, ToxErrSetInfo, tox_max_name_length}
use tox4j.Core.Api.{ToxApi}
use tox4j.Core.State.{Session}
use tox4j.Core.Self.{
  new_tox_self_set_name, new_tox_self_get_name, new_tox_self_get_name_size, empty_text,
}

module _ {Tox : Type 0} (api : ToxApi Tox) where
  -- toxcore takes a name of 1 to 128 bytes and keeps it with its size.
  abbrev pub KeepsNames : Type 0
  KeepsNames =
      (t : Tox) (name : Bytes)
      → length name ≤ tox_max_name_length
      → name ≢ []
      → ((api.tox_set_name t name (length name)).0 ≡ 0)
        × (api.tox_get_self_name (api.tox_set_name t name (length name)).1 ≡ name)
        × (api.tox_get_self_name_size (api.tox_set_name t name (length name)).1 ≡ length name)

module _ {Tox U : Type 0} (api : ToxApi Tox) where
  abbrev pub KeptSpec : Bytes → Bool × ToxErrSetInfo → Session Tox U → Type 0
  KeptSpec name r t =
      (r ≡ (true, ToxErrSetInfo.ok))
      × (new_tox_self_get_name_size api t ≡ ok (length name, t))
      × (new_tox_self_get_name api t ≡ ok ((if length name == 0 then none else some name), t))

  -- If toxcore keeps the names of 1 to 128 bytes that it is given, setting a name of at most 128
  -- bytes that is not the single NUL byte succeeds, the empty name included; then the size is that
  -- of the name, and reading gives the name, or nothing if it is empty.
  pub name_round_trip :
      (name : Bytes) (s : Session Tox U)
      → KeepsNames api
      → length name ≤ tox_max_name_length
      → name ≢ 0 ∷ []
      → Returns (new_tox_self_set_name api (some name) (length name) s) (KeptSpec name)
  unfolding new_tox_self_set_name new_tox_self_get_name new_tox_self_get_name_size
  name_round_trip [] s k h n = ground (arith, k s.new_tox.tox empty_text)
  name_round_trip (b ∷ []) s k h n = ground (arith, k s.new_tox.tox (b ∷ []))
  name_round_trip (b ∷ c ∷ name) s k h n = ground (arith, k s.new_tox.tox (b ∷ c ∷ name))
