-- ===== src/Av/States.antt =====
-- tox/av.cpp: the states that a call is ever in.
use tox4j.Base.{
  ℕ, Bool, true, false, Option, none, some, List, [], ◌∷◌, ◌≡◌, arith, ◌==◌, if◌then◌else◌,
}
use tox4j.Base.StdMap.{lookup, insert, nat_key}
use tox4j.Base.StdMap.Laws.{lookup-insert}
use tox4j.Base.Effect.{ok, chain_first, ok_first, left_ok, ◌>>=◌, pure}
use tox4j.Av.State.{
  CallState, AvCall, av_call, Calls, AvSession, AvApi, AvEvent, AvCallIn, AvActivity, insert_new,
  get_call, get_friend_number, set_av, set_calls,
}
use tox4j.Av.Handlers.{on_invite, on_ringing, on_start, on_audio, av_handle, run_av_activity}
use tox4j.Av.Client.{
  make_settings, new_toxav_call, new_toxav_answer, new_toxav_send_audio_frame, ask_audio_frame,
  ask_frames, ask_all_frames, new_toxav_iteration,
}
use tox4j.Av.Histories.{AvRequest, iterates, starts, answers, sends_audio, av_step, av_run}

-- The states that the code gives a call. SENDING_V, PAUSED and ERROR are not among them, and END is
-- what a call starts with.
abbrev pub is_entered : CallState → Bool
is_entered CallState.sending_v = false
is_entered CallState.paused = false
is_entered CallState.error = false
is_entered _ = true

abbrev pub Entered : Option AvCall → Type 0
Entered none = Unit {0}
Entered (some call) = is_entered call.state ≡ true

Entered-insert :
    (f g : ℕ) (c : AvCall) (n : Calls)
    → is_entered c.state ≡ true
    → Entered (lookup g n)
    → Entered (lookup g (insert f c n))
Entered-insert f g c n p e = rw (lookup-insert f g c n) (cases (f == g))
  where
    cases : (b : Bool) → Entered (if b then some c else lookup g n)
    cases true = p
    cases false = e

Entered-insert_new :
    (f g : ℕ) (c : AvCall) (n : Calls)
    → is_entered c.state ≡ true
    → Entered (lookup g n)
    → Entered (lookup g (insert_new f c n))
unfolding insert_new
Entered-insert_new f g c n p e = cases (lookup f n)
  where
    cases : (o : Option AvCall) → Entered (lookup g (elim o [ none ↦ insert f c n | some _ ↦ n ]))
    cases none = Entered-insert f g c n p e
    cases (some _) = e

module _ {Tox Av U : Type 0} (api : AvApi Tox Av) where
  abbrev pub AllEntered : AvSession Av U → Type 0
  AllEntered s = (f : ℕ) → Entered (lookup f s.new_toxav.friend_to_call)

  on_invite-entered :
      (i : ℕ) (s t : AvSession Av U) (u : Unit {0})
      → AllEntered s
      → on_invite api i s ≡ ok (u, t)
      → AllEntered t
  unfolding on_invite get_call
  on_invite-entered i s t u a e f = ground (
    arith,
    Entered-insert_new (api.toxav_get_peer_id s.new_toxav.av i 0) f (av_call i)
        s.new_toxav.friend_to_call,
    a f,
  )

  on_ringing-entered :
      (i : ℕ) (s t : AvSession Av U) (u : Unit {0})
      → AllEntered s
      → on_ringing api i s ≡ ok (u, t)
      → AllEntered t
  unfolding on_ringing get_call get_friend_number
  on_ringing-entered i s t u a e f = grind (arith, Entered-insert)

  on_start-entered :
      (i : ℕ) (s t : AvSession Av U) (u : Unit {0})
      → AllEntered s
      → on_start api i s ≡ ok (u, t)
      → AllEntered t
  unfolding on_start get_call get_friend_number
  on_start-entered i s t u a e f = grind (arith, Entered-insert)

  on_audio-entered :
      (i : ℕ) (pcm : ℕ → ℕ) (size : ℕ) (s t : AvSession Av U) (u : Unit {0})
      → AllEntered s
      → on_audio api i pcm size s ≡ ok (u, t)
      → AllEntered t
  unfolding on_audio get_call get_friend_number
  on_audio-entered i pcm size s t u a e f = grind (arith, a f)

  handle-entered :
      (call : AvCallIn) (s t : AvSession Av U) (u : Unit {0})
      → AllEntered s
      → av_handle api call s ≡ ok (u, t)
      → AllEntered t
  unfolding av_handle
  handle-entered (AvCallIn.call_state AvEvent.invite i) s t u a e = on_invite-entered i s t u a e
  handle-entered (AvCallIn.call_state AvEvent.ringing i) s t u a e = on_ringing-entered i s t u a e
  handle-entered (AvCallIn.call_state AvEvent.start i) s t u a e = on_start-entered i s t u a e
  handle-entered (AvCallIn.call_state _ i) s t u a e = cc
  handle-entered (AvCallIn.audio i pcm size) s t u a e = on_audio-entered i pcm size s t u a e
  handle-entered (AvCallIn.video i) s t u a e = cc

  activity-entered :
      (x : AvActivity Av) (s t : AvSession Av U) (u : Unit {0})
      → AllEntered s
      → run_av_activity api x s ≡ ok (u, t)
      → AllEntered t
  unfolding run_av_activity
  activity-entered (AvActivity.returns x) s t u a e = λ f. ground (arith, a f)
  activity-entered (AvActivity.calls x call next) s t u a e =
      let told : AvSession Av U = set_av x s in
      let (u', s', p, q) =
        chain_first (av_handle api call told)
          (λ _ s'. run_av_activity api (next s'.new_toxav.av) s') (u, t) e in
      activity-entered (next s'.new_toxav.av) s' t u (handle-entered call told s' u' a p) q

  ask_frames_keeps_state :
      (fn : ℕ) (c d : AvCall) (state : CallState) (s t : AvSession Av U)
      → ask_frames fn c state s ≡ ok (d, t)
      → d.state ≡ c.state
  unfolding ask_frames ask_audio_frame
  ask_frames_keeps_state fn c d CallState.sending_v s t e = ground arith
  ask_frames_keeps_state fn c d CallState.sending_av s t e = ground arith
  ask_frames_keeps_state fn c d CallState.sending_a s t e = ground arith
  ask_frames_keeps_state fn c d _ s t e = cc

  ask_all_frames-Entered :
      (m n : Calls) (s t : AvSession Av U)
      → ask_all_frames m s ≡ ok (n, t)
      → (f : ℕ) → Entered (lookup f m)
      → Entered (lookup f n)
  unfolding ask_all_frames lookup
  ask_all_frames-Entered [] n s t e f h = ground arith
  ask_all_frames-Entered ((fn, c) ∷ m) n s t e f h =
      let (d, u, p, q) =
        chain_first (ask_frames fn c c.state s) (λ d. ask_all_frames m >>= λ r. pure ((fn, d) ∷ r))
          (n, t) e in
      let (r, v, x, y) = chain_first (ask_all_frames m u) (λ r. pure ((fn, d) ∷ r)) (n, t) q in
      let same = ask_frames_keeps_state fn c d c.state s u p in
      ground (arith, ask_all_frames-Entered m r u v x f)

  iteration-entered :
      (s t : AvSession Av U) (u : Unit {0})
      → AllEntered s
      → new_toxav_iteration api s ≡ ok (u, t)
      → AllEntered t
  unfolding new_toxav_iteration
  iteration-entered s t u a e f =
      let (u', s', p, q) =
        chain_first (run_av_activity api (api.toxav_do s.new_toxav.av) s)
          (λ _ s'.
            (ask_all_frames s'.new_toxav.friend_to_call >>= λ m s. ok (tt, set_calls m s)) s')
          (u, t) e in
      let (m, v, x, y) =
        chain_first (ask_all_frames s'.new_toxav.friend_to_call s') (λ m s. ok (tt, set_calls m s))
          (u, t) q in
      ground (
        arith,
        activity-entered (api.toxav_do s.new_toxav.av) s s' u' a p f,
        ask_all_frames-Entered s'.new_toxav.friend_to_call m s' v x f,
      )

  step-entered :
      (r : AvRequest) (s t : AvSession Av U) → AllEntered s → av_step api r s ≡ ok t → AllEntered t
  unfolding av_step new_toxav_call new_toxav_answer new_toxav_send_audio_frame get_call
  step-entered iterates s t a e f =
      let (u, q) = left_ok (new_toxav_iteration api s) t e in iteration-entered s t u a q f
  step-entered (starts fn x v) s t a e f =
      let settings = make_settings api x v in
      let index = (api.toxav_call s.new_toxav.av fn settings 0x7fffffff).0.1 in
      ground (
        arith,
        Entered-insert_new fn f (record (av_call index) { settings = settings })
            s.new_toxav.friend_to_call,
        a f,
      )
  step-entered (answers fn x v) s t a e f = grind (arith, Entered-insert, a fn)
  step-entered (sends_audio fn pcm n c r) s t a e f = grind (arith, Entered-insert, a fn)

  run_keeps_entered :
      (rs : List AvRequest) (s t : AvSession Av U)
      → AllEntered s
      → av_run api rs s ≡ ok t
      → AllEntered t
  unfolding av_run
  run_keeps_entered [] s t a e = λ f. ground (arith, a f)
  run_keeps_entered (r ∷ rs) s t a e =
      let (u, p, q) = ok_first (av_step api r s) (av_run api rs) t e in
      run_keeps_entered rs u t (step-entered r s u a p) q

  -- From a session without calls, after any sequence of iterations, calls, answers and sent audio frames
  -- that returns, each call is in the state END that it started with, RINGING, SENDING_NONE, SENDING_A
  -- or SENDING_AV: no call is ever in SENDING_V, PAUSED or ERROR.
  pub run_entered :
      (rs : List AvRequest) (s t : AvSession Av U) (f : ℕ) (call : AvCall)
      → s.new_toxav.friend_to_call ≡ []
      → av_run api rs s ≡ ok t
      → lookup f t.new_toxav.friend_to_call ≡ some call
      → is_entered call.state ≡ true
  unfolding lookup
  run_entered rs s t f call n e l =
      let start : AllEntered s = λ g. ground arith in
      let all = run_keeps_entered rs s t start e f in ground arith
