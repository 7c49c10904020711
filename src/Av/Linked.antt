-- ===== src/Av/Linked.antt =====
-- tox/av.cpp: the two maps of new_ToxAV against each other.
use tox4j.Base.{ℕ, Bool, false, some, List, [], ◌∷◌, ◌≡◌, is_null, arith}
use tox4j.Base.StdMap.{lookup, insert, nat_key}
use tox4j.Base.StdMap.Laws.{lookup-insert}
use tox4j.Base.Effect.{ok, chain_first, ◌>>=◌, pure}
use tox4j.Av.Enums.{ToxAvErrCall, ToxAvErrAnswer, ToxAvErrSendFrame}
use tox4j.Av.State.{
  CallState, AvCall, av_call, Calls, AvSession, AvApi, AvEvent, AvCallIn, AvActivity, insert_new,
  set_av, set_calls, get_call, get_friend_number,
}
use tox4j.Av.Handlers.{on_invite, on_ringing, on_start, on_audio, av_handle, run_av_activity}
use tox4j.Av.Client.{
  make_settings, new_toxav_call, new_toxav_answer, new_toxav_send_audio_frame, ask_frames,
  ask_audio_frame, ask_all_frames, new_toxav_iteration,
}

-- The friend has a call.
abbrev pub Known : ℕ → Calls → Type 0
Known f n = is_null (lookup f n) ≡ false

Known-insert : (f g : ℕ) (c : AvCall) (n : Calls) → Known g n → Known g (insert f c n)
Known-insert f g c n e = ground (arith, lookup-insert f g c n)

Known-insert_new : (f g : ℕ) (c : AvCall) (n : Calls) → Known g n → Known g (insert_new f c n)
unfolding insert_new
Known-insert_new f g c n e = ground (arith, lookup-insert f g c n)

insert_new-Known : (f : ℕ) (c : AvCall) (n : Calls) → Known f (insert_new f c n)
unfolding insert_new
insert_new-Known f c n = ground (arith, lookup-insert f f c n)

module _ {Av U : Type 0} where
  -- What an operation does to the maps: no friend loses its call, and the friend of a call index that
  -- is new has a call.
  abbrev pub Extends : AvSession Av U → AvSession Av U → Type 0
  Extends s t =
      ((f : ℕ) → Known f s.new_toxav.friend_to_call → Known f t.new_toxav.friend_to_call)
      × ((i g : ℕ)
          → (lookup i s.new_toxav.call_to_friend ≡ some g → Known g s.new_toxav.friend_to_call)
          → lookup i t.new_toxav.call_to_friend ≡ some g
          → Known g t.new_toxav.friend_to_call)

  pub Extends-trans : (s t u : AvSession Av U) → Extends s t → Extends t u → Extends s u
  Extends-trans s t u a b = ((λ f k. b.0 f (a.0 f k)), (λ i g l h. b.1 i g (a.1 i g l) h))

module _ {Tox Av U : Type 0} (api : AvApi Tox Av) where
  on_invite-Extends :
      (i : ℕ) (s t : AvSession Av U) (u : Unit {0}) → on_invite api i s ≡ ok (u, t) → Extends s t
  unfolding on_invite get_call
  on_invite-Extends i s t u e = (
    λ f k. ground (
      arith,
      Known-insert_new (api.toxav_get_peer_id s.new_toxav.av i 0) f (av_call i)
          s.new_toxav.friend_to_call,
    ),
    λ j g l h. ground (
      arith,
      lookup-insert i j (api.toxav_get_peer_id s.new_toxav.av i 0) s.new_toxav.call_to_friend,
      insert_new-Known (api.toxav_get_peer_id s.new_toxav.av i 0) (av_call i)
          s.new_toxav.friend_to_call,
      Known-insert_new (api.toxav_get_peer_id s.new_toxav.av i 0) g (av_call i)
          s.new_toxav.friend_to_call,
    ),
  )

  on_ringing-Extends :
      (i : ℕ) (s t : AvSession Av U) (u : Unit {0}) → on_ringing api i s ≡ ok (u, t) → Extends s t
  unfolding on_ringing get_call get_friend_number
  on_ringing-Extends i s t u e =
      (λ f k. grind (arith, Known-insert), λ j g l h. grind (arith, Known-insert))

  pub answer-Extends :
      (fn a v : ℕ) (s t : AvSession Av U) (r : Bool × ToxAvErrAnswer)
      → new_toxav_answer api fn a v s ≡ ok (r, t)
      → Extends s t
  unfolding new_toxav_answer
  answer-Extends fn a v s t r e =
      (λ f k. grind (arith, Known-insert), λ j g l h. grind (arith, Known-insert))

  on_start-Extends :
      (i : ℕ) (s t : AvSession Av U) (u : Unit {0}) → on_start api i s ≡ ok (u, t) → Extends s t
  unfolding on_start get_call get_friend_number
  on_start-Extends i s t u e =
      (λ f k. grind (arith, Known-insert), λ j g l h. grind (arith, Known-insert))

  on_audio-Extends :
      (i : ℕ) (pcm : ℕ → ℕ) (size : ℕ) (s t : AvSession Av U) (u : Unit {0})
      → on_audio api i pcm size s ≡ ok (u, t)
      → Extends s t
  unfolding on_audio get_call get_friend_number
  on_audio-Extends i pcm size s t u e =
      (λ f k. grind (arith, Known-insert), λ j g l h. grind (arith, Known-insert))

  pub call-Extends :
      (fn a v : ℕ) (s t : AvSession Av U) (b : Bool × ToxAvErrCall)
      → new_toxav_call api fn a v s ≡ ok (b, t)
      → Extends s t
  unfolding new_toxav_call
  call-Extends fn a v s t b e =
      let settings = make_settings api a v in
      let index = (api.toxav_call s.new_toxav.av fn settings 0x7fffffff).0.1 in
      (
        λ f k. ground (
          arith,
          Known-insert_new fn f (record (av_call index) { settings = settings })
              s.new_toxav.friend_to_call,
        ),
        λ j g l h. ground (
          arith,
          lookup-insert index j fn s.new_toxav.call_to_friend,
          insert_new-Known fn (record (av_call index) { settings = settings })
              s.new_toxav.friend_to_call,
          Known-insert_new fn g (record (av_call index) { settings = settings })
              s.new_toxav.friend_to_call,
        ),
      )

  pub send_audio_frame-Extends :
      (fn : ℕ) (pcm : List ℕ) (n c r : ℕ) (s t : AvSession Av U) (b : Bool × ToxAvErrSendFrame)
      → new_toxav_send_audio_frame api fn pcm n c r s ≡ ok (b, t)
      → Extends s t
  unfolding new_toxav_send_audio_frame get_call
  send_audio_frame-Extends fn pcm n c r s t b e =
      (λ f k. grind (arith, Known-insert), λ j g l h. grind (arith, Known-insert))

  handle-Extends :
      (call : AvCallIn) (s t : AvSession Av U) (u : Unit {0})
      → av_handle api call s ≡ ok (u, t)
      → Extends s t
  unfolding av_handle
  handle-Extends (AvCallIn.call_state AvEvent.invite i) s t u e = on_invite-Extends i s t u e
  handle-Extends (AvCallIn.call_state AvEvent.ringing i) s t u e = on_ringing-Extends i s t u e
  handle-Extends (AvCallIn.call_state AvEvent.start i) s t u e = on_start-Extends i s t u e
  handle-Extends (AvCallIn.call_state _ i) s t u e = cc
  handle-Extends (AvCallIn.audio i pcm size) s t u e = on_audio-Extends i pcm size s t u e
  handle-Extends (AvCallIn.video i) s t u e = cc

  activity-Extends :
      (a : AvActivity Av) (s t : AvSession Av U) (u : Unit {0})
      → run_av_activity api a s ≡ ok (u, t)
      → Extends s t
  unfolding run_av_activity
  activity-Extends (AvActivity.returns a) s t u e = (λ f k. ground arith, λ j g l h. ground arith)
  activity-Extends (AvActivity.calls a call next) s t u e =
      let told : AvSession Av U = set_av a s in
      let (u', s', p, q) =
        chain_first (av_handle api call told)
          (λ _ s'. run_av_activity api (next s'.new_toxav.av) s') (u, t) e in
      Extends-trans told s' t (handle-Extends call told s' u' p)
        (activity-Extends (next s'.new_toxav.av) s' t u q)

  -- Asking for frames tells the client only.
  ask_frames_keeps :
      (fn : ℕ) (c d : AvCall) (state : CallState) (s t : AvSession Av U)
      → ask_frames fn c state s ≡ ok (d, t)
      → (t.new_toxav.call_to_friend ≡ s.new_toxav.call_to_friend)
  unfolding ask_frames ask_audio_frame
  ask_frames_keeps fn c d CallState.sending_v s t e = ground arith
  ask_frames_keeps fn c d CallState.sending_av s t e = ground arith
  ask_frames_keeps fn c d CallState.sending_a s t e = ground arith
  ask_frames_keeps fn c d _ s t e = cc

  -- The loop keeps the map of the calls and the friends that have a call.
  ask_all_frames_keeps :
      (m n : Calls) (s t : AvSession Av U)
      → ask_all_frames m s ≡ ok (n, t)
      → (t.new_toxav.call_to_friend ≡ s.new_toxav.call_to_friend)
        × ((g : ℕ) → is_null (lookup g n) ≡ is_null (lookup g m))
  unfolding ask_all_frames lookup
  ask_all_frames_keeps [] n s t e = (ground arith, λ g. ground arith)
  ask_all_frames_keeps ((fn, c) ∷ m) n s t e =
      let (d, u, p, q) =
        chain_first (ask_frames fn c c.state s) (λ d. ask_all_frames m >>= λ r. pure ((fn, d) ∷ r))
          (n, t) e in
      let (r, v, x, y) = chain_first (ask_all_frames m u) (λ r. pure ((fn, d) ∷ r)) (n, t) q in
      let (k, w) = ask_all_frames_keeps m r u v x in
      let told = ask_frames_keeps fn c d c.state s u p in (ground arith, λ g. ground (arith, w g))

  pub iteration-Extends :
      (s t : AvSession Av U) (u : Unit {0}) → new_toxav_iteration api s ≡ ok (u, t) → Extends s t
  unfolding new_toxav_iteration
  iteration-Extends s t u e =
      let (u', s', p, q) =
        chain_first (run_av_activity api (api.toxav_do s.new_toxav.av) s)
          (λ _ s'.
            (ask_all_frames s'.new_toxav.friend_to_call >>= λ m s. ok (tt, set_calls m s)) s')
          (u, t) e in
      let (m, v, x, y) =
        chain_first (ask_all_frames s'.new_toxav.friend_to_call s') (λ m s. ok (tt, set_calls m s))
          (u, t) q in
      let (grows, links) = activity-Extends (api.toxav_do s.new_toxav.av) s s' u' p in
      let (k, w) = ask_all_frames_keeps s'.new_toxav.friend_to_call m s' v x in
      (λ f a. ground (arith, grows f a, w f), λ i g l h. ground (arith, links i g l, w g))
