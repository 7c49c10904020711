-- ===== src/Jni/Methods/Iterated.antt =====
-- toxIteration (ToxCore/connection.cpp): the events of one iteration, once.
use tox4j.Base.{ℕ, none, some, ◌≡◌, refl}
use tox4j.Base.Effect.{ok, Returns}
use tox4j.Core.Enums.{Bytes}
use tox4j.Core.Api.{ToxApi}
use tox4j.Core.State.{PauseReason, NewTox, Session}
use tox4j.Core.Iteration.{new_tox_iteration}
use tox4j.Jni.Instances.Slots.{live, slot}
use tox4j.Jni.Instances.Invariant.{IsConsistent}
use tox4j.Jni.Calls.{value}
use tox4j.Jni.Calls.Reached.{ReachedSpec, with_instance_reaches}
use tox4j.Jni.Events.{CoreEvents, no_events}
use tox4j.Jni.Methods.{Table, on_session}
use tox4j.Jni.Methods.Connection.{tox_iteration, iterate}

module _ {Tox : Type 0} (api : ToxApi Tox) where
  -- On a consistent table, toxIteration on a live instance, if the iteration returns, hands Java the
  -- serialized events that were there with those of the iteration, throws nothing, and leaves the
  -- instance with what the iteration made of the Tox and with no events; no other instance changes.
  pub tox_iteration_lem :
      (serialize : CoreEvents → Bytes) (garbage : PauseReason) (n : ℕ) (s : Table Tox)
      (x : NewTox Tox CoreEvents) (v : CoreEvents) (t : Session Tox CoreEvents)
      → IsConsistent s
      → slot s n ≡ live x v
      → new_tox_iteration api garbage (record { new_tox = x; user_data = v }) ≡ ok (tt, t)
      → Returns (tox_iteration api serialize garbage n s) (λ b u.
        ReachedSpec n none (value (some (serialize t.user_data))) t.new_tox no_events s b u)
  unfolding tox_iteration
  tox_iteration_lem serialize garbage n s x v t c l e =
      with_instance_reaches none n (on_session (iterate api serialize garbage)) s x t.new_tox v
        no_events (value (some (serialize t.user_data))) c l (rw (e, on_session, iterate) refl)
