-- ===== src/Jni/Events/Served.antt =====
-- With all callbacks registered, an iteration of tox/core.cpp calls no missing one.
use tox4j.Base.{◌≡◌, refl, arith, sym, subst, inl, inr, Option-cases}
use tox4j.Base.Effect.{Outcome, ok, fault, Fault, assertion_failed, ◌>>=◌, ◌>>◌}
use tox4j.Core.Api.{ToxApi, CoreCall, Activity}
use tox4j.Core.State.{PauseReason, Callbacks, Session, Transfers, set_tox, set_transfers}
use tox4j.Core.Handlers.{handle, run_activity}
use tox4j.Core.Iteration.Requests.{request_chunks_lem}
use tox4j.Core.Iteration.{new_tox_iteration, notify_connection, request_chunks}
use tox4j.Core.Handlers.Told.{IsRegistered}

module _ {Tox U : Type 0} where
  -- The call returns with the given callbacks, or fails an assertion.
  abbrev pub Serves : {A : Type 0} → Callbacks U → Outcome (A × Session Tox U) → Type 0
  Serves c (fault x) = x ≡ assertion_failed
  Serves c (ok (a, s)) = s.new_tox.callbacks ≡ c

  chain-Serves :
      {A B : Type 0} (c : Callbacks U) (m : Outcome (A × Session Tox U))
      (f : A → Session Tox U → Outcome (B × Session Tox U))
      → Serves c m
      → ((a : A) (s : Session Tox U) → s.new_tox.callbacks ≡ c → Serves c (f a s))
      → Serves c (elim m [ fault x ↦ fault x | ok (a, s) ↦ f a s ])
  chain-Serves c (fault x) f p g = p
  chain-Serves c (ok (a, s)) f p g = g a s p

  outcome-Serves :
      {A : Type 0} (c : Callbacks U) (o m : Outcome (A × Session Tox U))
      → m ≡ o
      → ((x : Fault) → m ≡ fault x → x ≡ assertion_failed)
      → ((a : A) (t : Session Tox U) → m ≡ ok (a, t) → t.new_tox.callbacks ≡ c)
      → Serves c o
  outcome-Serves c (fault x) m e p q = p x e
  outcome-Serves c (ok (a, t)) m e p q = q a t e

module _ {Tox U : Type 0} (api : ToxApi Tox) (garbage : PauseReason) where
  handle_faults :
      (call : CoreCall) (s : Session Tox U) (x : Fault)
      → IsRegistered s.new_tox.callbacks
      → handle api garbage call s ≡ fault x
      → x ≡ assertion_failed
  unfolding handle
  handle_faults (CoreCall.friend_request k b n) s x r e = ground arith
  handle_faults call s x r e = ground arith

  handle_keeps :
      (call : CoreCall) (s t : Session Tox U) (u : Unit {0})
      → handle api garbage call s ≡ ok (u, t)
      → t.new_tox.callbacks ≡ s.new_tox.callbacks
  unfolding handle
  handle_keeps (CoreCall.friend_request k b n) s t u e = ground arith
  handle_keeps call s t u e = ground arith

  activity-Serves :
      (a : Activity Tox) (s : Session Tox U)
      → IsRegistered s.new_tox.callbacks
      → Serves s.new_tox.callbacks (run_activity api garbage a s)
  unfolding run_activity
  activity-Serves (Activity.returns x) s r = refl
  activity-Serves (Activity.calls x call next) s r =
      let told = set_tox x s in
      let c = s.new_tox.callbacks in
      chain-Serves c (handle api garbage call told)
        (λ _ s'. run_activity api garbage (next s'.new_tox.tox) s')
        (outcome-Serves c _ (handle api garbage call told) refl
          (λ x e. handle_faults call told x r e) (λ u t e. handle_keeps call told t u e))
        (λ _ s' k.
          subst (λ z. Serves z (run_activity api garbage (next s'.new_tox.tox) s')) k
            (activity-Serves (next s'.new_tox.tox) s' (subst IsRegistered (sym k) r)))

  notify-Serves :
      (s : Session Tox U)
      → IsRegistered s.new_tox.callbacks
      → Serves s.new_tox.callbacks (notify_connection api s)
  unfolding notify_connection
  notify-Serves s r =
      outcome-Serves s.new_tox.callbacks _ (notify_connection api s) refl (λ x e. ground arith)
        (λ u t e. ground arith)

  request_chunks-Serves :
      (m : Transfers) (s : Session Tox U)
      → IsRegistered s.new_tox.callbacks
      → Serves s.new_tox.callbacks (request_chunks api m s)
  request_chunks-Serves m s r = elim (Option-cases s.new_tox.callbacks.file_request_chunk) [
    | inl missing ↦ absurd (r.file_request_chunk missing)
    | inr (f, e) ↦ rw (request_chunks_lem api f m s e) refl
  ]

  -- With all callbacks registered, an iteration, whatever calls toxcore makes in it, returns with the same
  -- callbacks or ends in a failed assertion: it never calls a callback that is missing.
  pub iteration-Serves :
      (s : Session Tox U)
      → IsRegistered s.new_tox.callbacks
      → Serves s.new_tox.callbacks (new_tox_iteration api garbage s)
  unfolding new_tox_iteration
  iteration-Serves s r =
      let c = s.new_tox.callbacks in
      chain-Serves c (run_activity api garbage (api.tox_do s.new_tox.tox) s)
        (λ _. notify_connection api >> (λ s.
          (request_chunks api s.new_tox.transfers >>= λ m s. ok (tt, set_transfers m s)) s))
        (activity-Serves (api.tox_do s.new_tox.tox) s r)
        (λ _ t k.
          chain-Serves c (notify_connection api t)
            (λ _ s.
              (request_chunks api s.new_tox.transfers >>= λ m s. ok (tt, set_transfers m s)) s)
            (subst (λ z. Serves z (notify_connection api t)) k
              (notify-Serves t (subst IsRegistered (sym k) r)))
            (λ _ v l.
              chain-Serves c (request_chunks api v.new_tox.transfers v)
                (λ m s. ok (tt, set_transfers m s))
                (subst (λ z. Serves z (request_chunks api v.new_tox.transfers v)) l
                  (request_chunks-Serves v.new_tox.transfers v (subst IsRegistered (sym l) r)))
                (λ m w h. h)))
