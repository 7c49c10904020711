-- ===== src/Jni/Av/Creation/Opened.antt =====
-- toxAvNew (ToxAv/lifecycle.cpp): a session with all its callbacks, or the end of the process.
use tox4j.Base.{
  ℕ, suc, ◌+◌, ◌*◌, ◌<◌, Bool, true, false, Option, none, some, [], ◌≡◌, refl, sym, subst, u32,
  length, arith,
}
use tox4j.Base.StdMap.{lookup, insert, nat_key}
use tox4j.Base.Effect.{Outcome, ok, fault, wild_call, Returns}
use tox4j.Core.Api.{ToxApi}
use tox4j.Core.State.{NewTox}
use tox4j.Av.State.{AvCallbacks, NewToxAv, AvApi}
use tox4j.Jni.Instances.{make_instance, add}
use tox4j.Jni.Instances.Slots.{live, slot}
use tox4j.Jni.Instances.Invariant.{IsConsistent}
use tox4j.Jni.Instances.Add.{AddSpec, add_refines}
use tox4j.Jni.Calls.{value, with_instance}
use tox4j.Jni.Calls.Reached.{ReachedSpec, with_instance_reaches, with_instance-fault}
use tox4j.Jni.Events.{CoreEvents}
use tox4j.Jni.Methods.{Table}
use tox4j.Jni.Av.Events.{AvEvents, no_av_events}
use tox4j.Jni.Av.Callbacks.{
  tox4j_call_cb, tox4j_call_state_cb, tox4j_request_audio_frame_cb, tox4j_request_video_frame_cb,
  tox4j_receive_audio_frame_cb, tox4j_receive_video_frame_cb,
}
use tox4j.Jni.Av.Creation.{Tables, set_up_session, new_session, add_session, tox_av_new}

-- Each event has its callback.
abbrev pub all_av_callbacks : AvCallbacks AvEvents
all_av_callbacks = record {
  call = some tox4j_call_cb;
  call_state = some tox4j_call_state_cb;
  request_audio_frame = some tox4j_request_audio_frame_cb;
  request_video_frame = some tox4j_request_video_frame_cb;
  receive_audio_frame = some tox4j_receive_audio_frame_cb;
  receive_video_frame = some tox4j_receive_video_frame_cb;
}

-- A session without calls, with all callbacks.
abbrev pub opened : {Av : Type 0} → Av → ℕ → NewToxAv Av AvEvents
opened av address = record {
  av = av;
  tox = address;
  call_to_friend = [];
  friend_to_call = [];
  callbacks = all_av_callbacks;
}

abbrev pub new_pair : {Av : Type 0} → Av → ℕ → Option (NewToxAv Av AvEvents × AvEvents)
new_pair av address = some (opened av address, no_av_events)

go_on :
    {A S C : Type 0} (P : A → S → Type 0) (Q : Outcome C → Type 0) (o : Outcome (A × S))
    (f : A → S → Outcome C)
    → Returns o P
    → ((a : A) (s : S) → P a s → Q (f a s))
    → Q (elim o [ fault x ↦ fault x | ok (a, s) ↦ f a s ])
go_on P Q (fault x) f p g = absurd p
go_on P Q (ok (a, s)) f p g = g a s p

module _ {Tox Av : Type 0} where
  -- The number `k` is that of the new session, and the Tox knows that it has one.
  abbrev pub Opens :
      ℕ → ℕ → NewTox Tox CoreEvents → CoreEvents → Av → Tables Tox Av → ℕ → Tables Tox Av → Type 0
  Opens address n x v av s k t =
      ReachedSpec n none (value (new_pair av address)) (record x { has_av = true }) v s.core
        (new_pair av address) t.core
      × AddSpec (opened av address) no_av_events k s.av t.av

  -- By whether the Tox has a session, and what toxav_new returns.
  abbrev pub OpenSpec :
      ℕ
      → ℕ
      → NewTox Tox CoreEvents
      → CoreEvents
      → Tables Tox Av
      → Bool
      → Option Av
      → Outcome (ℕ × Tables Tox Av)
      → Type 0
  OpenSpec address n x v s true m o = o ≡ fault wild_call
  OpenSpec address n x v s false none o = o ≡ fault wild_call
  OpenSpec address n x v s false (some av) o = Returns o (λ k t. Opens address n x v av s k t)

module _ {Tox Av : Type 0} (api : ToxApi Tox) (av_api : AvApi Tox Av) where
  -- The number of calls that toxav is asked to make room for.
  abbrev pub toxav_of : Tox → Option Av
  toxav_of t = av_api.toxav_new t (u32 (api.tox_count_friendlist t * 2 + 100))

  new_session_lem :
      (address : ℕ) (x : NewTox Tox CoreEvents) (v : CoreEvents) (av : Av)
      → x.has_av ≡ false
      → toxav_of x.tox ≡ some av
      → new_session api av_api address x v
        ≡ ok (value (new_pair av address), record x { has_av = true }, v)
  unfolding new_session set_up_session lookup insert
  new_session_lem address x v av h m = ground arith

  -- The second half of toxAvNew.
  abbrev placed :
      Tables Tox Av
      → Option (NewToxAv Av AvEvents × AvEvents)
      → Table Tox
      → Outcome (ℕ × Tables Tox Av)
  placed s session core = elim (add_session api av_api session s.av) [
    | fault x ↦ fault x
    | ok (k, av) ↦ ok (k, record { core = core; av = av })
  ]

  placed_lem :
      (address n : ℕ) (x : NewTox Tox CoreEvents) (v : CoreEvents) (av : Av) (s : Tables Tox Av)
      (core : Table Tox)
      → IsConsistent s.av
      → suc (length s.av.instances) < 0x8000_0000
      → ReachedSpec n none
          (value (new_pair av address))
          (record x { has_av = true })
          v
          s.core
          (new_pair av address)
          core
      → Returns (placed s (new_pair av address) core) (λ k t. Opens address n x v av s k t)
  unfolding add_session
  placed_lem address n x v av s core d h r =
      go_on _ (λ o. Returns o (λ k t. Opens address n x v av s k t))
        (add (make_instance (opened av address) no_av_events) s.av)
        (λ k av. ok (k, record { core = core; av = av }))
        (add_refines (opened av address) no_av_events s.av d h) (λ k av a. (r, a))

  opened_by :
      (address n : ℕ) (s : Tables Tox Av) (x : NewTox Tox CoreEvents) (v : CoreEvents) (b : Bool)
      (m : Option Av)
      → IsConsistent s.core
      → IsConsistent s.av
      → suc (length s.av.instances) < 0x8000_0000
      → slot s.core n ≡ live x v
      → x.has_av ≡ b
      → toxav_of x.tox ≡ m
      → OpenSpec address n x v s b m (tox_av_new api av_api address n s)
  unfolding tox_av_new new_session set_up_session lookup insert
  opened_by address n s x v true m c d h l p q =
      rw
        (
          with_instance-fault none n (new_session api av_api address) s.core x v wild_call c l
              (ground arith),
          tox_av_new,
        )
        refl
  opened_by address n s x v false none c d h l p q =
      rw
        (
          with_instance-fault none n (new_session api av_api address) s.core x v wild_call c l
              (ground arith),
          tox_av_new,
        )
        refl
  opened_by address n s x v false (some av) c d h l p q =
      let func = new_session api av_api address in
      go_on _ (λ o. Returns o (λ k t. Opens address n x v av s k t))
        (with_instance none n func s.core) (placed s)
        (with_instance_reaches none n func s.core x (record x { has_av = true }) v v
          (value (new_pair av address)) c l (new_session_lem address x v av p q))
        (λ session core r.
          subst (λ z. Returns (placed s z core) (λ k t. Opens address n x v av s k t)) (sym r.0)
            (placed_lem address n x v av s core d h (refl, r.1, r.2, r.3, r.4)))

  -- toxAvNew on a live instance of a Tox, with both tables consistent and room for one more session.
  -- If the Tox has no session and toxav_new gives one, the result is the number of a slot that was
  -- vacant and now holds the new session, without calls, with all callbacks registered and no events
  -- pending, and the Tox is marked to have a session; nothing else changes. If the Tox has a session
  -- already, or toxav_new fails, no exception is thrown: the process ends with the access through the
  -- null pointer that new_toxav_new returned.
  pub tox_av_new_lem :
      (address n : ℕ) (s : Tables Tox Av) (x : NewTox Tox CoreEvents) (v : CoreEvents)
      → IsConsistent s.core
      → IsConsistent s.av
      → suc (length s.av.instances) < 0x8000_0000
      → slot s.core n ≡ live x v
      → OpenSpec address n x v s x.has_av (toxav_of x.tox) (tox_av_new api av_api address n s)
  tox_av_new_lem address n s x v c d h l =
      opened_by address n s x v x.has_av (toxav_of x.tox) c d h l refl refl
