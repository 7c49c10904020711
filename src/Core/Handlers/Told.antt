-- ===== src/Core/Handlers/Told.antt =====
-- The functions of new_Tox::CB that only tell the client: all but those on file transfers.
use tox4j.Base.{Bool, true, false, none, ◌≡◌, ◌≢◌, refl, arith, sym, subst, ap, ◌∙◌}
use tox4j.Base.Effect.{Returns, chain-Returns, map-Returns}
use tox4j.Core.Api.{ToxApi, CoreCall, Activity}
use tox4j.Core.State.{PauseReason, Callbacks, Session, set_tox}
use tox4j.Core.Handlers.{handle, run_activity}

module _ {U : Type 0} where
  -- No callback is missing.
  pub record IsRegistered (c : Callbacks U) : Type 0 where
    pub connection_status : c.connection_status ≢ none
    pub friend_name : c.friend_name ≢ none
    pub friend_status_message : c.friend_status_message ≢ none
    pub friend_status : c.friend_status ≢ none
    pub friend_connection_status : c.friend_connection_status ≢ none
    pub friend_typing : c.friend_typing ≢ none
    pub read_receipt : c.read_receipt ≢ none
    pub friend_request : c.friend_request ≢ none
    pub friend_message : c.friend_message ≢ none
    pub friend_action : c.friend_action ≢ none
    pub file_control : c.file_control ≢ none
    pub file_request_chunk : c.file_request_chunk ≢ none
    pub file_receive : c.file_receive ≢ none
    pub file_receive_chunk : c.file_receive_chunk ≢ none
    pub friend_lossy_packet : c.friend_lossy_packet ≢ none
    pub friend_lossless_packet : c.friend_lossless_packet ≢ none

abbrev pub is_told : CoreCall → Bool
is_told (CoreCall.file_send_request fn num size name length) = false
is_told (CoreCall.file_control fn rs num control bytes length) = false
is_told (CoreCall.file_data fn num bytes length) = false
is_told call = true

-- A `tox_do` that makes no calls about files, and the Tox that it leaves.
abbrev pub TellsOnly : {Tox : Type 0} → (Tox → Type 0) → Activity Tox → Type 0
TellsOnly P (Activity.returns t) = P t
TellsOnly P (Activity.calls t call next) = (is_told call ≡ true) × TellsOnly P (next t)

module _ {Tox U : Type 0} (api : ToxApi Tox) (garbage : PauseReason) where
  handle_told :
      (call : CoreCall) (s : Session Tox U)
      → IsRegistered s.new_tox.callbacks
      → is_told call ≡ true
      → Returns (handle api garbage call s) (λ _ t. t.new_tox ≡ s.new_tox)
  unfolding handle
  handle_told (CoreCall.friend_request k b n) s r e = ground arith
  handle_told call s r e = ground arith

  -- A `tox_do` that makes no calls about files leaves the table and the callbacks as they were.
  pub activity_told :
      (P : Tox → Type 0) (a : Activity Tox) (s : Session Tox U)
      → IsRegistered s.new_tox.callbacks
      → TellsOnly P a
      → Returns (run_activity api garbage a s) (λ _ t.
        P t.new_tox.tox
        × (t.new_tox.transfers ≡ s.new_tox.transfers)
        × (t.new_tox.callbacks ≡ s.new_tox.callbacks))
  unfolding run_activity
  activity_told P (Activity.returns x) s r t = (t, refl, refl)
  activity_told P (Activity.calls x call next) s r t =
      chain-Returns _ _ (handle api garbage call (set_tox x s))
        (λ _ s'. run_activity api garbage (next s'.new_tox.tox) s')
        (handle_told call (set_tox x s) r t.0)
        (λ _ s' e.
          map-Returns _ _ (run_activity api garbage (next s'.new_tox.tox) s')
            (λ _ u q. (q.0, q.1 ∙ ap (λ n. n.transfers) e, q.2 ∙ ap (λ n. n.callbacks) e))
            (activity_told P (next s'.new_tox.tox) s'
              (subst (λ n. IsRegistered n.callbacks) (sym e) r)
              (subst (λ n. TellsOnly P (next n.tox)) (sym e) t.1)))
