-- ===== src/Av/Frames.antt =====
-- tox/av.cpp: which frames new_toxav_iteration asks the client for.
use tox4j.Base.{
  ℕ, Bool, true, false, not, ◌&&◌, ◌||◌, some, [], ◌∷◌, ◌≡◌, refl, arith, if◌then◌else◌,
}
use tox4j.Base.StdMap.All.{All}
use tox4j.Base.Effect.{ok}
use tox4j.Av.State.{CallState, AvCall, Calls, AvSession}
use tox4j.Av.Client.{ask_audio_frame, ask_frames, ask_all_frames}
use tox4j.Av.States.{is_entered}

abbrev pub sends_video : CallState → Bool
sends_video CallState.sending_v = true
sends_video CallState.sending_av = true
sends_video _ = false

-- A call that only sends video counts while a video frame is awaited.
abbrev pub sends_audio : CallState → Bool → Bool
sends_audio CallState.sending_a video_pending = true
sends_audio CallState.sending_av video_pending = true
sends_audio CallState.sending_v video_pending = video_pending
sends_audio _ video_pending = false

abbrev pub video_due : AvCall → Bool
video_due call = sends_video call.state && not call.video_event_pending

abbrev pub audio_due : AvCall → Bool
audio_due call = sends_audio call.state call.video_event_pending && not call.audio_event_pending

-- What is due is pending from then on.
abbrev pub asked : AvCall → AvCall
asked call = record call {
  audio_event_pending = call.audio_event_pending || audio_due call;
  video_event_pending = call.video_event_pending || video_due call;
}

unfoldable pub asked_all : Calls → Calls
asked_all [] = []
asked_all ((f, call) ∷ m) = (f, asked call) ∷ asked_all m

module _ {U : Type 0} (audio video : ℕ → U → U) where
  -- For each call the video frame, and then the audio frame, if they are due.
  abbrev pub told : ℕ → AvCall → U → U
  told f call u =
      let v = if video_due call then video f u else u in if audio_due call then audio f v else v

  unfoldable pub told_all : Calls → U → U
  told_all [] u = u
  told_all ((f, call) ∷ m) u = told_all m (told f call u)

  asked_settles :
      (m : Calls) (u : U)
      → All (λ call. is_entered call.state ≡ true) m
      → (asked_all (asked_all m) ≡ asked_all m) × (told_all (asked_all m) u ≡ u)
  unfolding asked_all told_all
  asked_settles [] u a = (refl, refl)
  asked_settles ((f, call) ∷ m) u a = ground (arith, asked_settles m u a.1)

module _ {Av U : Type 0} (audio video : ℕ → U → U) where
  -- A session whose callbacks for requests are the given ones.
  abbrev pub Requests : AvSession Av U → Type 0
  Requests s =
      (s.new_toxav.callbacks.request_audio_frame ≡ some audio)
      × (s.new_toxav.callbacks.request_video_frame ≡ some video)

  ask_frames_lem :
      (f : ℕ) (call : AvCall) (state : CallState) (s : AvSession Av U)
      → call.state ≡ state
      → Requests s
      → ask_frames f call state s
        ≡ ok (asked call, record s { user_data = told audio video f call s.user_data })
  unfolding ask_frames ask_audio_frame
  ask_frames_lem f call CallState.sending_v s e r = ground arith
  ask_frames_lem f call CallState.sending_av s e r = ground arith
  ask_frames_lem f call CallState.sending_a s e r = ground arith
  ask_frames_lem f call _ s e r = ground arith

  -- With both callbacks for requests set, the loop of an iteration over the calls returns; it asks for
  -- the frames that are due and no others, call by call in the order of the friends, marks these as
  -- pending, and changes nothing else. A video frame is due for a call that sends video and has none
  -- pending; an audio frame for one that sends audio and has none pending, and also for one that sends
  -- only video, while its video frame is pending.
  pub ask_all_frames_lem :
      (m : Calls) (s : AvSession Av U)
      → Requests s
      → ask_all_frames m s
        ≡ ok (asked_all m, record s { user_data = told_all audio video m s.user_data })
  unfolding ask_all_frames asked_all told_all
  ask_all_frames_lem [] s r = refl
  ask_all_frames_lem ((f, call) ∷ m) s r = ground (
    arith,
    ask_frames_lem f call call.state s refl r,
    ask_all_frames_lem m (record s { user_data = told audio video f call s.user_data }) r,
  )

  -- With both callbacks for requests set and each call in a state that the code gives it, what one run of
  -- the loop has asked for, the next run does not ask for again: it returns and changes nothing.
  pub asks_once :
      (m : Calls) (s t : AvSession Av U) (n : Calls)
      → Requests s
      → All (λ call. is_entered call.state ≡ true) m
      → ask_all_frames m s ≡ ok (n, t)
      → ask_all_frames n t ≡ ok (n, t)
  asks_once m s t n r a e =
      let after : AvSession Av U = record s { user_data = told_all audio video m s.user_data } in
      let (same, quiet) = asked_settles audio video m after.user_data a in
      ground (arith, ask_all_frames_lem m s r, ask_all_frames_lem (asked_all m) after r)
