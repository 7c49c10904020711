-- ===== src/Av/Creation.antt =====
-- tox/av.cpp: new_toxav_new and new_toxav_kill; tox/core.cpp: new_tox_kill.
--
-- The store maps the address of each new_Tox that is alive to it. A pointer is an address, and an
-- access through one that is not there is a fault.
pub mod Exclusive
pub mod Orphans
use tox4j.Base.{ℕ, ◌+◌, ◌*◌, true, false, Option, none, some, [], u32, if◌then◌else◌}
use tox4j.Base.StdMap.{StdMap, lookup, insert, erase, nat_key}
use tox4j.Base.Effect.{M, ok, fault, wild_call, ◌>>=◌}
use tox4j.Core.Api.{ToxApi}
use tox4j.Core.State.{NewTox}
use tox4j.Av.Enums.{ToxAvErrNew}
use tox4j.Av.State.{AvCallbacks, NewToxAv, AvApi}

abbrev pub Toxes : Type 0 → Type 0 → Type 0
Toxes Tox U = StdMap ℕ (NewTox Tox U)

abbrev pub no_av_callbacks : {V : Type 0} → AvCallbacks V
no_av_callbacks = record {
  call = none;
  call_state = none;
  request_audio_frame = none;
  request_video_frame = none;
  receive_audio_frame = none;
  receive_video_frame = none;
}

-- The constructor of new_ToxAV.
unfoldable pub make_new_toxav : {Av V : Type 0} → Av → ℕ → NewToxAv Av V
make_new_toxav av tox = record {
  av = av;
  tox = tox;
  call_to_friend = [];
  friend_to_call = [];
  callbacks = no_av_callbacks;
}

module _ {Tox U : Type 0} where
  -- The object behind a pointer.
  abbrev pub pointee : ℕ → M (Toxes Tox U) (NewTox Tox U)
  pointee address s = elim (lookup address s) [ none ↦ fault wild_call | some tox ↦ ok (tox, s) ]

  abbrev pub store : ℕ → NewTox Tox U → M (Toxes Tox U) (Unit {0})
  store address tox s = ok (tt, insert address tox s)

  -- The old Tox is destroyed, and the memory of the new_Tox is freed.
  unfoldable pub new_tox_kill : ℕ → M (Toxes Tox U) (Unit {0})
  new_tox_kill address = pointee address >>= λ _ s. ok (tt, erase address s)

  module _ {Av V : Type 0} (api : ToxApi Tox) (av_api : AvApi Tox Av) where
    -- The session for a Tox that has none; the error code of a success is MALLOC.
    abbrev pub open_session :
        ℕ → NewTox Tox U → M (Toxes Tox U) (Option (NewToxAv Av V) × ToxAvErrNew)
    open_session address tox s =
        elim (av_api.toxav_new tox.tox (u32 (api.tox_count_friendlist tox.tox * 2 + 100))) [
          | none ↦ ok ((none, ToxAvErrNew.malloc), s)
          | some av ↦ ok (
            (some (make_new_toxav av address), ToxAvErrNew.malloc),
            insert address (record tox { has_av = true }) s,
          )
        ]

    unfoldable pub new_toxav_new : Option ℕ → M (Toxes Tox U) (Option (NewToxAv Av V) × ToxAvErrNew)
    unfolding make_new_toxav
    new_toxav_new none s = ok ((none, ToxAvErrNew.null), s)
    new_toxav_new (some address) s = elim (pointee address s) [
      | fault x ↦ fault x
      | ok (tox, t) ↦
          if tox.has_av then ok ((none, ToxAvErrNew.multiple), t) else open_session address tox t
    ]

  -- The old ToxAV is destroyed, and the Tox is free for another session.
  unfoldable pub new_toxav_kill : {Av V : Type 0} → NewToxAv Av V → M (Toxes Tox U) (Unit {0})
  new_toxav_kill av = pointee av.tox >>= λ tox. store av.tox (record tox { has_av = false })
