-- ===== src/Jni/Methods/Served.antt =====
-- Each native method of ToxCoreImpl keeps the callbacks of the instances, and calls none that is missing.
pub mod Functions
pub mod Readers
pub mod Requests
pub mod Checked
pub mod Calls
pub mod Histories
use tox4j.Base.{ℕ, none, ◌∷◌, ◌≡◌, refl, subst, arith, inl, inr, ◌==◌, Bool-cases, Option-cases}
use tox4j.Base.Effect.{Outcome, ok, fault, assertion_failed, M, Returns, Outcome-cases, map-Returns}
use tox4j.Core.Api.{ToxApi}
use tox4j.Core.State.{Callbacks, NewTox, Session}
use tox4j.Core.Handlers.Told.{IsRegistered}
use Prim.Native.String.{String}
use tox4j.Jni.Exceptions.{ErrorHandling}
use tox4j.Jni.Instances.Slots.{Slot, live, absent, dead, collected, slot, killed, finalized}
use tox4j.Jni.Instances.Effects.{ChangesAt, throwing-IsConsistent}
use tox4j.Jni.Instances.{is_valid, kill, finalize}
use tox4j.Jni.Instances.Invariant.{IsConsistent}
use tox4j.Jni.Instances.Kill.{kill_refines}
use tox4j.Jni.Instances.Finalize.{finalize_refines}
use tox4j.Jni.Calls.{Result, Func, with_instance}
use tox4j.Jni.Calls.Reached.{
  unreached, with_instance_reaches, with_instance-fault, with_instance-unreached,
}
use tox4j.Jni.Events.{CoreEvents}
use tox4j.Jni.Events.Served.{Serves}
use tox4j.Jni.Methods.{Table, on_session, with_error_handling}
use tox4j.Jni.Methods.Creation.{tox_kill, tox_finalize}

module _ {T V : Type 0} where
  reached_live : (n : ℕ) (z : Slot T V) → unreached n z ≡ none → (x : T) × (v : V) × (z ≡ live x v)
  reached_live n (live x v) u = (x, v, refl)
  reached_live n absent u = absurd (ground arith)
  reached_live n dead u = cc
  reached_live n collected u = cc

  -- No slot is live after close, or after the collection of its object.
  no_killed : {P : Type 0} (z : Slot T V) (x : T) (v : V) → killed z ≡ live x v → P
  no_killed (live y w) x v h = cc
  no_killed absent x v h = cc
  no_killed dead x v h = cc
  no_killed collected x v h = cc

  no_finalized : {P : Type 0} (z : Slot T V) (x : T) (v : V) → finalized z ≡ live x v → P
  no_finalized (live y w) x v h = cc
  no_finalized absent x v h = cc
  no_finalized dead x v h = cc
  no_finalized collected x v h = cc

module _ {Tox : Type 0} where
  -- Each live instance has all callbacks.
  abbrev pub AllRegistered : Table Tox → Type 0
  AllRegistered s =
      (n : ℕ) (x : NewTox Tox CoreEvents) (v : CoreEvents)
      → slot s n ≡ live x v
      → IsRegistered x.callbacks

  -- A consistent table of instances with all callbacks, or a failed assertion.
  abbrev pub IsServed : {A : Type 0} → Outcome (A × Table Tox) → Type 0
  IsServed (fault x) = x ≡ assertion_failed
  IsServed (ok (a, t)) = IsConsistent t × AllRegistered t

  -- A function on a session that keeps the callbacks, and calls none that is missing.
  abbrev pub IsServing : {A : Type 0} → M (Session Tox CoreEvents) A → Type 0
  IsServing func =
      (s : Session Tox CoreEvents)
      → IsRegistered s.new_tox.callbacks
      → Serves s.new_tox.callbacks (func s)

  -- The same of a function on an instance, which may throw.
  abbrev pub Keeps :
      {A : Type 0}
      → Callbacks CoreEvents
      → Outcome (Result A × NewTox Tox CoreEvents × CoreEvents)
      → Type 0
  Keeps c (fault x) = x ≡ assertion_failed
  Keeps c (ok (r, y, w)) = y.callbacks ≡ c

  abbrev pub IsKeeping : {A : Type 0} → Func (NewTox Tox CoreEvents) CoreEvents A → Type 0
  IsKeeping func =
      (x : NewTox Tox CoreEvents) (v : CoreEvents)
      → IsRegistered x.callbacks
      → Keeps x.callbacks (func x v)

  pub on_session-IsKeeping :
      {A : Type 0} (func : M (Session Tox CoreEvents) A)
      → IsServing func
      → IsKeeping (on_session func)
  unfolding on_session
  on_session-IsKeeping func f x v r =
      let start : Session Tox CoreEvents = record { new_tox = x; user_data = v } in
      elim (Outcome-cases (func start)) [
        | inl (e, q) ↦ rw (q, Keeps) (subst (Serves x.callbacks) q (f start r))
        | inr ((a, t), q) ↦ rw (q, Keeps) (subst (Serves x.callbacks) q (f start r))
      ]

  pub with_error_handling-IsKeeping :
      {A B E : Type 0} (method : String) (handle : E → ErrorHandling) (number : E → ℕ)
      (success_func : A → B) (func : M (Session Tox CoreEvents) (A × E))
      → IsServing func
      → IsKeeping (with_error_handling method handle number success_func func)
  unfolding with_error_handling
  with_error_handling-IsKeeping method handle number success_func func f x v r =
      let start : Session Tox CoreEvents = record { new_tox = x; user_data = v } in
      elim (Outcome-cases (func start)) [
        | inl (e, q) ↦ rw (q, Keeps) (subst (Serves x.callbacks) q (f start r))
        | inr (((a, error), t), q) ↦ rw (q, Keeps) (subst (Serves x.callbacks) q (f start r))
      ]

  pub returns-IsServed :
      {A : Type 0} (o : Outcome (A × Table Tox))
      → Returns o (λ _ t. IsConsistent t × AllRegistered t)
      → IsServed o
  returns-IsServed (fault x) p = absurd p
  returns-IsServed (ok (a, t)) p = p

  pub changed-AllRegistered :
      (n : ℕ)
      (f : Slot (NewTox Tox CoreEvents) CoreEvents → Slot (NewTox Tox CoreEvents) CoreEvents)
      (s t : Table Tox)
      → AllRegistered s
      → ChangesAt n f s t
      → ((x : NewTox Tox CoreEvents) (v : CoreEvents)
          → f (slot s n) ≡ live x v
          → IsRegistered x.callbacks)
      → AllRegistered t
  changed-AllRegistered n f s t r d g k x v h = elim (Bool-cases (n == k)) [
    | inl e ↦ g x v (ground (arith, d k))
    | inr e ↦ r k x v (ground (arith, d k))
  ]

  with_instance_live-IsServed :
      {A : Type 0} (default : A) (n : ℕ) (func : Func (NewTox Tox CoreEvents) CoreEvents A)
      (s : Table Tox) (x : NewTox Tox CoreEvents) (v : CoreEvents)
      → IsKeeping func
      → IsConsistent s
      → AllRegistered s
      → slot s n ≡ live x v
      → IsServed (with_instance default n func s)
  with_instance_live-IsServed default n func s x v f c r l =
      let safe = f x v (r n x v l) in
      elim (Outcome-cases (func x v)) [
        | inl (e, q) ↦
            rw (with_instance-fault default n func s x v e c l q) (subst (Keeps x.callbacks) q safe)
        | inr ((a, y, w), q) ↦
            let kept : y.callbacks ≡ x.callbacks = subst (Keeps x.callbacks) q safe in
            returns-IsServed _ (
              map-Returns _ _ (with_instance default n func s)
                (λ b u p. (
                  p.1,
                  changed-AllRegistered n (λ _. live y w) s u r p.2
                      (λ z e h. subst IsRegistered (ground arith) (r n x v l)),
                ))
                (with_instance_reaches default n func s x y v w a c l q))
      ]

  pub with_instance-IsServed :
      {A : Type 0} (default : A) (n : ℕ) (func : Func (NewTox Tox CoreEvents) CoreEvents A)
      (s : Table Tox)
      → IsKeeping func
      → IsConsistent s
      → AllRegistered s
      → IsServed (with_instance default n func s)
  unfolding is_valid
  with_instance-IsServed default n func s f c r = elim (Option-cases (unreached n (slot s n))) [
    | inl u ↦
        let (x, v, l) = reached_live n (slot s n) u in
        with_instance_live-IsServed default n func s x v f c r l
    | inr (e, u) ↦
        rw (with_instance-unreached default n func s e c u)
          (throwing-IsConsistent (e ∷ s.thrown) s c, r)
  ]

  pub kill-IsServed :
      (api : ToxApi Tox) (n : ℕ) (s : Table Tox)
      → IsConsistent s
      → AllRegistered s
      → IsServed (tox_kill api n s)
  unfolding tox_kill
  kill-IsServed api n s c r = returns-IsServed (kill n s) (
      map-Returns _ _ (kill n s)
        (λ _ t p.
          (p.0, changed-AllRegistered n killed s t r p.1 (λ x v h. no_killed (slot s n) x v h)))
        (kill_refines n s c))

  pub finalize-IsServed :
      (api : ToxApi Tox) (n : ℕ) (s : Table Tox)
      → IsConsistent s
      → AllRegistered s
      → IsServed (tox_finalize api n s)
  unfolding tox_finalize
  finalize-IsServed api n s c r = returns-IsServed (finalize n s) (
      map-Returns _ _ (finalize n s)
        (λ _ t p. (
          p.0,
          changed-AllRegistered n finalized s t r p.1 (λ x v h. no_finalized (slot s n) x v h),
        ))
        (finalize_refines n s c))
