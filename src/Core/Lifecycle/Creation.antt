-- ===== src/Core/Lifecycle/Creation.antt =====
-- new_tox_new of tox/core.cpp: the options that it takes, and what it returns.
use tox4j.Base.{
  ℕ, Bool, true, false, Option, none, some, [], ◌∷◌, ◌≡◌, ◌≢◌, ◌↔◌, ◌⊎◌, arith, refl, inl, inr,
  Option-cases, ◌≤◌,
}
use tox4j.Core.Enums.{Bytes, ToxErrNew, tox_proxy_type_none}
use tox4j.Core.Api.{ToxApi}
use tox4j.Core.State.{NewTox}
use tox4j.Core.Lifecycle.{
  ToxOptions, check_proxy, check_address, isprint, all_isprint, new_tox_new, created, make_options,
  make_new_tox, load_saved,
}

-- Each byte is printable in the C locale.
abbrev pub IsPrintable : Bytes → Type 0
IsPrintable [] = Unit {0}
IsPrintable (c ∷ cs) = (0x20 ≤ c) × (c ≤ 0x7e) × IsPrintable cs

abbrev pub StartsWell : Bytes → Type 0
StartsWell [] = ⊥
StartsWell (c ∷ cs) = c ≢ b'.'

pub all_isprint_iff : (a : Bytes) → (all_isprint a ≡ true) ↔ IsPrintable a
unfolding all_isprint isprint
all_isprint_iff [] = ground arith
all_isprint_iff (c ∷ cs) = ground (arith, all_isprint_iff cs)

-- The address of a host and a port.
abbrev pub IsHost : Option Bytes → ℕ → Type 0
IsHost none port = ⊥
IsHost (some a) port = IsPrintable a × StartsWell a × (port ≢ 0)

-- The creation goes past the check of the proxy exactly if there is to be none, or the address is
-- there, is not empty, is printable, does not start with a dot, and the port is not 0.
pub check_proxy_iff :
    (options : ToxOptions)
    → (check_proxy options ≡ none) ↔ (
        (options.proxy_type ≡ tox_proxy_type_none)
        ⊎ IsHost options.proxy_address options.proxy_port)
unfolding check_proxy check_address
check_proxy_iff options = go options.proxy_address refl
  where
    go :
        (a : Option Bytes)
        → options.proxy_address ≡ a
        → (check_proxy options ≡ none) ↔ (
            (options.proxy_type ≡ tox_proxy_type_none)
            ⊎ IsHost options.proxy_address options.proxy_port)
    go none e = ground arith
    go (some []) e = ground arith
    go (some (c ∷ cs)) e = ground (arith, all_isprint_iff (c ∷ cs))

abbrev pub IsLoadError : ToxErrNew → Type 0
IsLoadError error = (error ≡ ToxErrNew.load_bad_format) ⊎ (error ≡ ToxErrNew.load_encrypted)

module _ {Tox U : Type 0} where
  -- A fresh instance: not connected, no transfers, no ToxAV.
  abbrev pub IsFresh : NewTox Tox U → Type 0
  IsFresh n = (n.connected ≡ false) × (n.has_av ≡ false) × (n.transfers ≡ [])

  -- No instance, and an error that says why; or a fresh instance, and perhaps a note on its data.
  abbrev pub CreationSpec : Option (NewTox Tox U) × ToxErrNew → Type 0
  CreationSpec (none, error) = (error ≢ ToxErrNew.ok) × ¬ IsLoadError error
  CreationSpec (some n, error) =
      IsFresh n × ((error ≡ ToxErrNew.ok) ⊎ (error ≡ ToxErrNew.null) ⊎ IsLoadError error)

proxy_error :
    (options : ToxOptions) (error : ToxErrNew)
    → check_proxy options ≡ some error
    → (error ≢ ToxErrNew.ok) × ¬ IsLoadError error
unfolding check_proxy check_address
proxy_error options error e = ground arith

module _ {Tox : Type 0} (U : Type 0) (api : ToxApi Tox) where
  created_lem :
      (malloc_works : Bool) (t : Option Tox) (bytes : Option Bytes) (size : ℕ)
      → CreationSpec (created {U = U} api malloc_works t bytes size)
  unfolding created make_new_tox load_saved
  created_lem false none bytes size = ground arith
  created_lem true none bytes size = ground arith
  created_lem m (some t) none size = ground arith
  created_lem m (some t) (some bytes) size = ground arith

  new_tox_new_refuses :
      (m : Bool) (o : ToxOptions) (b : Option Bytes) (n : ℕ) (error : ToxErrNew)
      → check_proxy o ≡ some error
      → new_tox_new {U = U} api m (some o) b n ≡ (none, error)
  unfolding new_tox_new
  new_tox_new_refuses m o b n error e = ground arith

  new_tox_new_goes_on :
      (m : Bool) (o : ToxOptions) (b : Option Bytes) (n : ℕ)
      → check_proxy o ≡ none
      → new_tox_new {U = U} api m (some o) b n
        ≡ created api m (api.tox_new (some (make_options api.proxy_address_size o))) b n
  unfolding new_tox_new
  new_tox_new_goes_on m o b n e = ground arith

  -- A creation without an error has an instance, and any instance is fresh: not connected, with no
  -- transfers and no ToxAV. An error of the load never takes the instance away: with it, an instance
  -- is returned.
  pub new_tox_new_lem :
      (malloc_works : Bool) (options : Option ToxOptions) (bytes : Option Bytes) (size : ℕ)
      → CreationSpec (new_tox_new {U = U} api malloc_works options bytes size)
  unfolding new_tox_new
  new_tox_new_lem m none b n = created_lem m (api.tox_new none) b n
  new_tox_new_lem m (some o) b n = elim (Option-cases (check_proxy o)) [
    | inl e ↦
        rw (new_tox_new_goes_on m o b n e)
          (created_lem m (api.tox_new (some (make_options api.proxy_address_size o))) b n)
    | inr (error, e) ↦ rw (new_tox_new_refuses m o b n error e) (proxy_error o error e)
  ]
