-- ===== src/Jni/Av/Creation.antt =====
-- ToxAv/lifecycle.cpp: the native methods that create and end a session.
--
-- toxAvNew runs on the instance of a Tox; `address` is where its new_Tox stands. The deleted sessions of
-- the table are those that new_toxav_kill was called with.
pub mod Opened
use tox4j.Base.{ℕ, Option, none, some, []}
use tox4j.Base.StdMap.{lookup, insert, nat_key}
use tox4j.Base.Effect.{M, Outcome, ok, fault, wild_call}
use tox4j.Core.Api.{ToxApi}
use tox4j.Core.State.{NewTox}
use tox4j.Av.State.{NewToxAv, AvApi}
use tox4j.Av.Creation.{new_toxav_new}
use tox4j.Jni.Instances.{make_instance, add, kill, finalize}
use tox4j.Jni.Calls.{value, Func, with_instance}
use tox4j.Jni.Events.{CoreEvents}
use tox4j.Jni.Methods.{Table}
use tox4j.Jni.Av.{AvTable}
use tox4j.Jni.Av.Events.{AvEvents, no_av_events}
use tox4j.Jni.Av.Callbacks.{set_up_av_callbacks}

-- Both tables.
pub record Tables (Tox Av : Type 0) : Type 0 where
  pub core : Table Tox
  pub av : AvTable Av

module _ {Av : Type 0} where
  -- The callbacks of a new session. Through a null pointer they cannot be set.
  unfoldable pub set_up_session :
      Option (NewToxAv Av AvEvents) → Outcome (NewToxAv Av AvEvents × AvEvents)
  unfolding set_up_av_callbacks no_av_events
  set_up_session none = fault wild_call
  set_up_session (some av) =
      elim (set_up_av_callbacks (record { new_toxav = av; user_data = no_av_events })) [
        | fault x ↦ fault x
        | ok (_, s) ↦ ok (s.new_toxav, s.user_data)
      ]

  unfoldable pub tox_av_kill : ℕ → M (AvTable Av) (Unit {0})
  unfolding kill
  tox_av_kill = kill

  unfoldable pub tox_av_finalize : ℕ → M (AvTable Av) (Unit {0})
  unfolding finalize
  tox_av_finalize = finalize

module _ {Tox Av : Type 0} (api : ToxApi Tox) (av_api : AvApi Tox Av) where
  -- The code that new_toxav_new sets is not looked at.
  unfoldable pub new_session :
      ℕ → Func (NewTox Tox CoreEvents) CoreEvents (Option (NewToxAv Av AvEvents × AvEvents))
  unfolding new_toxav_new set_up_session
  new_session address tox events =
      elim (new_toxav_new {V = AvEvents} api av_api (some address) (insert address tox [])) [
        | fault x ↦ fault x
        | ok ((av, _), toxes) ↦ elim (set_up_session av) [
          | fault x ↦ fault x
          | ok session ↦ elim (lookup address toxes) [
            | none ↦ fault wild_call
            | some tox' ↦ ok (value (some session), tox', events)
          ]
        ]
      ]

  -- The session goes into its table; an exception leaves 0.
  unfoldable pub add_session : Option (NewToxAv Av AvEvents × AvEvents) → M (AvTable Av) ℕ
  unfolding add make_instance
  add_session none s = ok (0, s)
  add_session (some (av, events)) s = add (make_instance av events) s

  unfoldable pub tox_av_new : ℕ → ℕ → M (Tables Tox Av) ℕ
  unfolding with_instance new_session add_session
  tox_av_new address tox_instance_number s =
      elim (with_instance none tox_instance_number (new_session address) s.core) [
        | fault x ↦ fault x
        | ok (session, core) ↦ elim (add_session session s.av) [
          | fault x ↦ fault x
          | ok (n, av) ↦ ok (n, record { core = core; av = av })
        ]
      ]
