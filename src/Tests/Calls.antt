-- ===== src/Tests/Calls.antt =====
-- The theorem on sequences of A/V calls, with a small toxav that is a counter.
use tox4j.Base.{ℕ, true, false, some, List, [], ◌∷◌, ◌≡◌, refl, ◌+◌, ◌==◌, if◌then◌else◌}
use tox4j.Base.Effect.{ok, fault, assertion_failed}
use tox4j.Base.StdMap.{lookup, insert}
use tox4j.Av.State.{
  CallState, zero_settings, AvCall, av_call, AvCallbacks, AvSession, AvEvent, AvCallIn, AvActivity,
  AvApi, get_call, get_friend_number, insert_new,
}
use tox4j.Av.Handlers.{
  on_invite, on_start, av_handle, run_av_activity, enabled_by_type, state_by_type,
}
use tox4j.Av.Client.{
  make_settings, new_toxav_call, new_toxav_answer, new_toxav_send_audio_frame, ask_audio_frame,
  ask_frames, ask_all_frames, new_toxav_iteration,
}
use tox4j.Core.Enums.{Bytes}
use tox4j.Av.Histories.{
  AvRequest, iterates, answers, sends_audio, av_step, av_run, known_calls, called_once,
}
use tox4j.Av.States.{is_entered, run_entered}
use tox4j.Av.Frames.{asked_all, told_all, ask_all_frames_lem, asks_once}

-- First an invitation to the call 7 by the friend 1, then its start.
abbrev pub av_api : AvApi Bytes ℕ
av_api = record {
  toxav_new = λ t n. some 0;
  toxav_get_peer_id = λ t i p. 1;
  toxav_prepare_transmission = λ t i v. t + 1;
  toxav_get_peer_csettings = λ t i. zero_settings;
  toxav_do_interval = λ t. 20;
  toxav_do = λ t.
      AvActivity.calls (t + 1)
        (AvCallIn.call_state (if t == 0 then AvEvent.invite else AvEvent.start) 7)
        (λ u. AvActivity.returns u);
  toxav_call = λ t f s n. ((0, 8), t);
  toxav_answer = λ t i s. (0, t);
  toxav_prepare_audio_frame = λ t i n pcm k. ((2, 5 ∷ 6 ∷ []), t);
  toxav_send_audio = λ t i b n. (0, t);
  av_default_settings = zero_settings;
  av_type_audio = 192;
  av_type_video = 193;
}

-- The client counts the events.
abbrev pub counting : AvCallbacks ℕ
counting = record {
  call = some (λ f a v n. n + 1);
  call_state = some (λ f s n. n + 1);
  request_audio_frame = some (λ f n. n + 1);
  request_video_frame = some (λ f n. n + 1);
  receive_audio_frame = some (λ f pcm k c r n. n + 1);
  receive_video_frame = some (λ f w h y u v a n. n + 1);
}

abbrev av_session : AvSession ℕ ℕ
av_session = record {
  new_toxav = record {
    av = 0;
    tox = 0;
    call_to_friend = [];
    friend_to_call = [];
    callbacks = counting;
  };
  user_data = 0;
}

abbrev requests : List AvRequest
requests = iterates ∷ answers 1 64 0 ∷ iterates ∷ sends_audio 1 [] 480 1 8000 ∷ []

-- A call with audio under way, whose frame has been sent.
abbrev pub answered : AvCall
answered = record {
  index = 7;
  settings = record zero_settings {
    call_type = 192;
    audio_bitrate = 64000;
    audio_frame_duration = 60;
    audio_sample_rate = 8000;
    audio_channels = 1;
  };
  state = CallState.sending_a;
  audio_event_pending = false;
  video_event_pending = false;
}

abbrev pub called : AvSession ℕ ℕ
called = record {
  new_toxav = record {
    av = 3;
    tox = 0;
    call_to_friend = (7, 1) ∷ [];
    friend_to_call = (1, answered) ∷ [];
    callbacks = counting;
  };
  user_data = 3;
}

run_requests : av_run av_api requests av_session ≡ ok called
unfolding av_run av_step new_toxav_iteration run_av_activity av_handle on_invite on_start get_call
    get_friend_number insert_new lookup insert enabled_by_type state_by_type make_settings av_call
    new_toxav_answer new_toxav_send_audio_frame ask_audio_frame ask_frames ask_all_frames
run_requests = refl

known_calls_example : (call : AvCall) × (get_call 1 called ≡ ok (call, called))
unfolding lookup
known_calls_example = known_calls av_api requests av_session called 7 1 refl run_requests refl

-- The friend has a call already after the first iteration.
abbrev invited : AvSession ℕ ℕ
invited = record {
  new_toxav = record {
    av = 1;
    tox = 0;
    call_to_friend = (7, 1) ∷ [];
    friend_to_call = (1, av_call 7) ∷ [];
    callbacks = counting;
  };
  user_data = 1;
}

run_later :
    av_run av_api (answers 1 64 0 ∷ iterates ∷ sends_audio 1 [] 480 1 8000 ∷ []) invited ≡ ok called
unfolding av_run av_step new_toxav_iteration run_av_activity av_handle on_invite on_start get_call
    get_friend_number insert_new lookup insert enabled_by_type state_by_type make_settings av_call
    new_toxav_answer new_toxav_send_audio_frame ask_audio_frame ask_frames ask_all_frames
run_later = refl

called_once_example : new_toxav_call av_api 1 64 0 called ≡ fault assertion_failed
unfolding lookup
called_once_example =
    called_once av_api (answers 1 64 0 ∷ iterates ∷ sends_audio 1 [] 480 1 8000 ∷ []) invited called
      1 64 0 (av_call 7) refl run_later

run_entered_example : is_entered answered.state ≡ true
unfolding lookup
run_entered_example =
    run_entered av_api requests av_session called 1 answered refl run_requests refl

-- A call that sends audio and video, with nothing pending.
abbrev sending : AvCall
sending = record answered { state = CallState.sending_av }

ask_all_frames_lem_example :
    ask_all_frames ((1, sending) ∷ []) called
    ≡ ok (
      asked_all ((1, sending) ∷ []),
      record called {
        user_data = told_all (λ f n. n + 1) (λ f n. n + 1) ((1, sending) ∷ []) called.user_data;
      },
    )
ask_all_frames_lem_example =
    ask_all_frames_lem (λ f n. n + 1) (λ f n. n + 1) ((1, sending) ∷ []) called (refl, refl)

asks_all :
    ask_all_frames ((1, sending) ∷ []) called
    ≡ ok (asked_all ((1, sending) ∷ []), record called { user_data = 5 })
unfolding ask_all_frames ask_frames ask_audio_frame asked_all
asks_all = refl

asks_once_example :
    ask_all_frames (asked_all ((1, sending) ∷ [])) (record called { user_data = 5 })
    ≡ ok (asked_all ((1, sending) ∷ []), record called { user_data = 5 })
asks_once_example =
    asks_once (λ f n. n + 1) (λ f n. n + 1) ((1, sending) ∷ []) called
      (record called { user_data = 5 }) (asked_all ((1, sending) ∷ [])) (refl, refl) (refl, tt)
      asks_all
