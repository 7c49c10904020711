-- ===== src/Av/Histories.antt =====
-- Sequences of the client's calls of tox/av.cpp.
use tox4j.Base.{ℕ, false, Option, none, some, List, [], ◌∷◌, ◌≡◌, refl, is_null, arith}
use tox4j.Base.Effect.{Outcome, ok, fault, assertion_failed, left, left_ok, ok_first}
use tox4j.Base.StdMap.{lookup, nat_key}
use tox4j.Av.State.{AvCall, AvSession, AvApi, get_call}
use tox4j.Av.Client.{
  new_toxav_call, new_toxav_answer, new_toxav_send_audio_frame, new_toxav_iteration,
}
use tox4j.Av.Linked.{
  Extends, Extends-trans, iteration-Extends, call-Extends, answer-Extends, send_audio_frame-Extends,
}

-- What the client calls.
pub data AvRequest : Type 0 where
  iterates : AvRequest
  starts : ℕ → ℕ → ℕ → AvRequest
  answers : ℕ → ℕ → ℕ → AvRequest
  sends_audio : ℕ → List ℕ → ℕ → ℕ → ℕ → AvRequest

module _ {Tox Av U : Type 0} (api : AvApi Tox Av) where
  unfoldable pub av_step : AvRequest → AvSession Av U → Outcome (AvSession Av U)
  av_step iterates s = left (new_toxav_iteration api s)
  av_step (starts fn a v) s = left (new_toxav_call api fn a v s)
  av_step (answers fn a v) s = left (new_toxav_answer api fn a v s)
  av_step (sends_audio fn pcm n c r) s = left (new_toxav_send_audio_frame api fn pcm n c r s)

  unfoldable pub av_run : List AvRequest → AvSession Av U → Outcome (AvSession Av U)
  unfolding av_step
  av_run [] s = ok s
  av_run (r ∷ rs) s = elim (av_step r s) [ fault x ↦ fault x | ok t ↦ av_run rs t ]

  step-Extends : (r : AvRequest) (s t : AvSession Av U) → av_step r s ≡ ok t → Extends s t
  unfolding av_step
  step-Extends iterates s t e =
      let (u, q) = left_ok (new_toxav_iteration api s) t e in iteration-Extends api s t u q
  step-Extends (starts fn a v) s t e =
      let (b, q) = left_ok (new_toxav_call api fn a v s) t e in call-Extends api fn a v s t b q
  step-Extends (answers fn a v) s t e =
      let (b, q) = left_ok (new_toxav_answer api fn a v s) t e in answer-Extends api fn a v s t b q
  step-Extends (sends_audio fn pcm n c r) s t e =
      let (b, q) = left_ok (new_toxav_send_audio_frame api fn pcm n c r s) t e in
      send_audio_frame-Extends api fn pcm n c r s t b q

  run-Extends : (rs : List AvRequest) (s t : AvSession Av U) → av_run rs s ≡ ok t → Extends s t
  unfolding av_run
  run-Extends [] s t e = ((λ f k. ground arith), (λ i g l h. ground arith))
  run-Extends (r ∷ rs) s t e =
      let (u, p, q) = ok_first (av_step r s) (av_run rs) t e in
      Extends-trans s u t (step-Extends r s u p) (run-Extends rs u t q)

  -- Whatever the client does and toxav calls, once a friend has a call, the friend has it for as long as
  -- the session lasts: after any sequence of iterations, calls, answers and sent audio frames that
  -- returns, another new_toxav_call to that friend fails an assertion and ends the process.
  pub called_once :
      (rs : List AvRequest) (s t : AvSession Av U) (f a v : ℕ) (call : AvCall)
      → lookup f s.new_toxav.friend_to_call ≡ some call
      → av_run rs s ≡ ok t
      → new_toxav_call api f a v t ≡ fault assertion_failed
  unfolding new_toxav_call
  called_once rs s t f a v call l e =
      let grows = (run-Extends rs s t e).0 f (ground arith) in ground arith

  -- From a session without calls, after any sequence of iterations, calls, answers and sent audio
  -- frames that returns, the friend of each call that the session knows by its index has a call: the
  -- assertion of get_call cannot fail for the friend that get_friend_number finds.
  pub known_calls :
      (rs : List AvRequest) (s t : AvSession Av U) (i f : ℕ)
      → s.new_toxav.call_to_friend ≡ []
      → av_run rs s ≡ ok t
      → lookup i t.new_toxav.call_to_friend ≡ some f
      → (call : AvCall) × (get_call f t ≡ ok (call, t))
  unfolding get_call lookup
  known_calls rs s t i f n e h =
      let known = (run-Extends rs s t e).1 i f (λ q. absurd (ground arith)) h in
      found (lookup f t.new_toxav.friend_to_call) refl known
    where
      found :
          (o : Option AvCall)
          → lookup f t.new_toxav.friend_to_call ≡ o
          → is_null o ≡ false
          → (call : AvCall) × (get_call f t ≡ ok (call, t))
      found none p q = cc
      found (some call) p q = (call, ground arith)
