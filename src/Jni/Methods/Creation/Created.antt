-- ===== src/Jni/Methods/Creation/Created.antt =====
-- toxNew (ToxCore/lifecycle.cpp): a live instance with all its callbacks, or an exception.
use Prim.Native.String.{String}
use tox4j.Base.{
  ℕ, suc, ◌<◌, ◌≤◌, Bool, true, false, is_negative, leb, Option, none, some, ◌∷◌, ◌≡◌, ◌≢◌, ◌⊎◌,
  inl, inr, refl, arith, length, u16,
}
use tox4j.Base.Effect.{Returns, map-Returns}
use tox4j.Core.Enums.{Bytes, ToxErrNew}
use tox4j.Core.Api.{ToxApi}
use tox4j.Core.State.{NewTox}
use tox4j.Core.Lifecycle.{ToxOptions, new_tox_new, new_tox_options_new, new_tox_options_default}
use tox4j.Core.Lifecycle.Creation.{CreationSpec, new_tox_new_lem}
use tox4j.Jni.Exceptions.{tox_exception, failure}
use tox4j.Jni.Instances.Invariant.{IsConsistent}
use tox4j.Jni.Instances.Add.{AddSpec, add_refines}
use tox4j.Jni.Errors.{handle_new_error}
use tox4j.Jni.Events.{CoreEvents, no_events}
use tox4j.Core.Handlers.Told.{IsRegistered}
use tox4j.Jni.Events.Registered.{equipped, set_up_callbacks_lem}
use tox4j.Jni.Methods.{Table, size_of}
use tox4j.Jni.Methods.Creation.{tox_new, created_or_thrown, install}

module _ {Tox : Type 0} where
  -- The number of the new object: it holds the instance that was made, as it was made but for its
  -- callbacks, which are all there, and no events.
  abbrev pub Installed : Option (NewTox Tox CoreEvents) → Table Tox → ℕ → Table Tox → Type 0
  Installed tox s n t =
      (x : NewTox Tox CoreEvents) × (tox ≡ some x)
      × IsRegistered (equipped x).callbacks
      × AddSpec (equipped x) no_events n s t

  -- An exception with the name of the code, and the table is as it was: what came with the error is
  -- neither in the table nor destroyed.
  abbrev pub Refused : ToxErrNew → Table Tox → ℕ → Table Tox → Type 0
  Refused error s n t =
      (n ≡ 0)
      × ((code : String) × (handle_new_error error ≡ failure code)
          × (t ≡ record s { thrown = tox_exception "core" "New" code ∷ s.thrown }))

  abbrev pub NewSpec :
      Option (NewTox Tox CoreEvents) × ToxErrNew → Table Tox → ℕ → Table Tox → Type 0
  NewSpec r s n t =
      ((r.1 ≡ ToxErrNew.ok) × Installed r.0 s n t) ⊎ ((r.1 ≢ ToxErrNew.ok) × Refused r.1 s n t)

  install_lem :
      (x : NewTox Tox CoreEvents) (s : Table Tox)
      → IsConsistent s
      → suc (length s.instances) < 0x8000_0000
      → Returns (install (some x) s) (λ n t. Installed (some x) s n t)
  unfolding install
  install_lem x s c h =
      let registered = set_up_callbacks_lem (record { new_tox = x; user_data = no_events }) in
      map-Returns _ _ (install (some x) s) (λ n t p. (x, refl, registered.1, p))
        (add_refines (equipped x) no_events s c h)

  created_or_thrown_lem :
      (r : Option (NewTox Tox CoreEvents) × ToxErrNew) (s : Table Tox)
      → CreationSpec r
      → IsConsistent s
      → suc (length s.instances) < 0x8000_0000
      → Returns (created_or_thrown r s) (NewSpec r s)
  unfolding created_or_thrown handle_new_error
  created_or_thrown_lem (none, ToxErrNew.ok) s p c h = absurd (p.0 refl)
  created_or_thrown_lem (some x, ToxErrNew.ok) s p c h =
      map-Returns _ _ (install (some x) s) (λ n t q. inl (refl, q)) (install_lem x s c h)
  created_or_thrown_lem (tox, ToxErrNew.null) s p c h = inr ((λ e. cc), (refl, (_, refl, refl)))
  created_or_thrown_lem (tox, ToxErrNew.malloc) s p c h = inr ((λ e. cc), (refl, (_, refl, refl)))
  created_or_thrown_lem (tox, ToxErrNew.port_alloc) s p c h =
      inr ((λ e. cc), (refl, (_, refl, refl)))
  created_or_thrown_lem (tox, ToxErrNew.proxy_bad_host) s p c h =
      inr ((λ e. cc), (refl, (_, refl, refl)))
  created_or_thrown_lem (tox, ToxErrNew.proxy_bad_port) s p c h =
      inr ((λ e. cc), (refl, (_, refl, refl)))
  created_or_thrown_lem (tox, ToxErrNew.proxy_not_found) s p c h =
      inr ((λ e. cc), (refl, (_, refl, refl)))
  created_or_thrown_lem (tox, ToxErrNew.load_encrypted) s p c h =
      inr ((λ e. cc), (refl, (_, refl, refl)))
  created_or_thrown_lem (tox, ToxErrNew.load_bad_format) s p c h =
      inr ((λ e. cc), (refl, (_, refl, refl)))

-- The options object that toxNew makes of its arguments.
abbrev pub options_of : Bool → Bool → ℕ → Option Bytes → ℕ → ToxOptions
options_of ipv6 udp proxy_type proxy_address proxy_port = record {
  ipv6_enabled = ipv6;
  udp_enabled = udp;
  proxy_type = proxy_type;
  proxy_address = proxy_address;
  proxy_port = u16 proxy_port;
}

module _ {Tox : Type 0} (api : ToxApi Tox) where
  -- On a consistent table with room, toxNew with a proxy type and a port that are not negative, the
  -- port at most 65535, and memory for the options, returns. If tox_new gives no error, the result is
  -- the number of a slot that was vacant and now holds the instance that tox_new returned, with the
  -- callback of each event in place and nothing else of it changed, and no events pending. If it gives an error, ToxNewException is thrown with the code's name, the
  -- result is 0, and nothing else of the table changes: an instance that came with a load error is
  -- neither in the table nor destroyed.
  pub tox_new_lem :
      (malloc_works : Bool) (save_data : Option Bytes) (ipv6 udp : Bool) (proxy_type : ℕ)
      (proxy_address : Option Bytes) (proxy_port : ℕ) (s : Table Tox)
      → IsConsistent s
      → suc (length s.instances) < 0x8000_0000
      → proxy_type < 0x8000_0000
      → proxy_port ≤ 65535
      → Returns
          (tox_new api true malloc_works save_data ipv6 udp proxy_type proxy_address proxy_port s)
          (NewSpec
            (new_tox_new {U = CoreEvents} api malloc_works
              (some (options_of ipv6 udp proxy_type proxy_address proxy_port))
              save_data
              (size_of save_data))
            s)
  unfolding tox_new new_tox_options_new new_tox_options_default
  tox_new_lem m save ipv6 udp type address port s c h p q =
      let a : is_negative type ≡ false = ground arith in
      let b : is_negative port ≡ false = ground arith in
      let d : leb port 65535 ≡ true = ground arith in
      let o = some (options_of ipv6 udp type address port) in
      rw (a, b, d)
        (created_or_thrown_lem (new_tox_new {U = CoreEvents} api m o save (size_of save)) s
          (new_tox_new_lem CoreEvents api m o save (size_of save)) c h)
