-- ===== src/Av/Client.antt =====
-- tox/av.cpp: the functions that the client calls, and an iteration.
--
-- The functions that are not written yet only fail an assertion. The pointer for an error code is
-- never null here.
use mathlib.Core.Option
use tox4j.Base.{
  ℕ, ◌*◌, ◌/◌, Bool, true, false, not, is_negative, ◌&&◌, Option, none, some, List, [], ◌∷◌, ◌==◌,
  is_null, if◌then◌else◌, u32,
}
use tox4j.Base.StdMap.{lookup, insert, nat_key}
use tox4j.Base.Effect.{M, ok, ◌>>=◌, ◌>>◌, assert, pure}
use tox4j.Core.Enums.{Bytes}
use tox4j.Av.Enums.{
  ToxAvErrCall, ToxAvErrAnswer, ToxAvErrCallControl, ToxAvErrBitRate, ToxAvErrSendFrame,
}
use tox4j.Av.State.{
  CallState, Settings, AvCall, av_call, Calls, AvSession, AvApi, av_callbacks, get_call, put_call,
  read_av, call_av, set_calls, set_maps, insert_new,
}
use tox4j.Av.Handlers.{run_av_activity}

module _ {Av U : Type 0} where
  unfoldable pub ask_audio_frame : ℕ → AvCall → M (AvSession Av U) AvCall
  ask_audio_frame friend_number call = if call.audio_event_pending then pure call else (do
    av_callbacks (λ c. Option.map (λ f. f friend_number) c.request_audio_frame)
    pure (record call { audio_event_pending = true }))

  abbrev pub ask_video_frame : ℕ → AvCall → M (AvSession Av U) AvCall
  ask_video_frame friend_number call = do
    av_callbacks (λ c. Option.map (λ f. f friend_number) c.request_video_frame)
    pure (record call { video_event_pending = true })

  -- The switch of the loop: a case without `break` goes on to the next one.
  unfoldable pub ask_frames : ℕ → AvCall → CallState → M (AvSession Av U) AvCall
  unfolding ask_audio_frame
  ask_frames friend_number call CallState.sending_v =
      if call.video_event_pending
      then ask_audio_frame friend_number call
      else ask_video_frame friend_number call
  ask_frames friend_number call CallState.sending_av =
      if call.video_event_pending
      then ask_audio_frame friend_number call
      else (do call' ← ask_video_frame friend_number call; ask_audio_frame friend_number call')
  ask_frames friend_number call CallState.sending_a = ask_audio_frame friend_number call
  ask_frames friend_number call _ = pure call

  -- `for (auto &pair : av->friend_to_call)`.
  unfoldable pub ask_all_frames : Calls → M (AvSession Av U) Calls
  unfolding ask_frames
  ask_all_frames [] = pure []
  ask_all_frames ((friend_number, call) ∷ rest) = do
    call' ← ask_frames friend_number call call.state
    rest' ← ask_all_frames rest
    pure ((friend_number, call') ∷ rest')

module _ {Tox Av : Type 0} (api : AvApi Tox Av) where
  abbrev pub with_audio : ℕ → Settings → Settings
  with_audio audio_bit_rate settings = record settings {
    call_type = api.av_type_audio;
    audio_bitrate = u32 (audio_bit_rate * 1000);
    audio_frame_duration = 60;
    audio_sample_rate = 8000;
    audio_channels = 1;
  }

  abbrev pub with_video : ℕ → Settings → Settings
  with_video video_bit_rate settings = record settings {
    call_type = api.av_type_video;
    video_bitrate = video_bit_rate;
    max_video_width = 640;
    max_video_height = 480;
  }

  unfoldable pub make_settings : ℕ → ℕ → Settings
  make_settings audio_bit_rate video_bit_rate =
      let settings =
        if audio_bit_rate == 0
        then api.av_default_settings
        else with_audio audio_bit_rate api.av_default_settings in
      if video_bit_rate == 0 then settings else with_video video_bit_rate settings

  module _ {U : Type 0} where
    -- The index of the call comes back through a pointer; an error code is told and asserted away.
    unfoldable pub new_toxav_call : ℕ → ℕ → ℕ → M (AvSession Av U) (Bool × ToxAvErrCall)
    unfolding make_settings av_call insert_new
    new_toxav_call friend_number audio_bit_rate video_bit_rate = do
      let settings = make_settings audio_bit_rate video_bit_rate
      known ← λ s. ok (lookup friend_number s.new_toxav.friend_to_call, s)
      assert (is_null known)
      result ← call_av λ t. api.toxav_call t friend_number settings 0x7fffffff
      assert (result.0 == 0)
      λ s. ok (
        (true, ToxAvErrCall.ok),
        set_maps (insert result.1 friend_number s.new_toxav.call_to_friend)
            (insert_new friend_number (record (av_call result.1) { settings = settings })
              s.new_toxav.friend_to_call)
            s,
      )

    unfoldable pub new_toxav_answer : ℕ → ℕ → ℕ → M (AvSession Av U) (Bool × ToxAvErrAnswer)
    unfolding make_settings
    new_toxav_answer friend_number audio_bit_rate video_bit_rate s =
        let settings = make_settings audio_bit_rate video_bit_rate in
        elim (lookup friend_number s.new_toxav.friend_to_call) [
          | none ↦ ok ((false, ToxAvErrAnswer.friend_not_calling), s)
          | some found ↦
              (do
                put_call friend_number (record found { settings = settings })
                result ← call_av λ t. api.toxav_answer t found.index settings
                assert (result == 0)
                pure (true, ToxAvErrAnswer.ok))
                s
        ]

    -- The results are `int`s: not positive is 0 or a set sign bit.
    unfoldable pub new_toxav_send_audio_frame :
        ℕ → List ℕ → ℕ → ℕ → ℕ → M (AvSession Av U) (Bool × ToxAvErrSendFrame)
    unfolding get_call
    new_toxav_send_audio_frame friend_number pcm sample_count channels sampling_rate = do
      call ← get_call friend_number
      assert (
          sample_count
          == u32 (u32 (sampling_rate * channels) * call.settings.audio_frame_duration) / 1000)
      assert (channels == call.settings.audio_channels)
      assert (sampling_rate == call.settings.audio_sample_rate)
      result ←
          call_av
            λ t. api.toxav_prepare_audio_frame t call.index 1500 pcm (u32 (sample_count * channels))
      assert (not (is_negative result.0) && not (result.0 == 0))
      sent ← call_av λ t. api.toxav_send_audio t call.index result.1 result.0
      assert (not (is_negative sent))
      put_call friend_number (record call { audio_event_pending = false })
      pure (true, ToxAvErrSendFrame.ok)

    unfoldable pub new_toxav_iteration : M (AvSession Av U) (Unit {0})
    unfolding run_av_activity ask_all_frames
    new_toxav_iteration = do
      activity ← read_av λ t. api.toxav_do t
      run_av_activity api activity
      friend_to_call ← λ s. ok (s.new_toxav.friend_to_call, s)
      friend_to_call' ← ask_all_frames friend_to_call
      λ s. ok (tt, set_calls friend_to_call' s)

    unfoldable pub new_toxav_iteration_interval : M (AvSession Av U) ℕ
    new_toxav_iteration_interval = read_av λ t. api.toxav_do_interval t

module _ {Av U : Type 0} where
  unfoldable pub new_toxav_get_tox : M (AvSession Av U) (Option ℕ)
  new_toxav_get_tox = assert false >> pure none

  unfoldable pub new_toxav_call_control : ℕ → ℕ → M (AvSession Av U) (Bool × ToxAvErrCallControl)
  new_toxav_call_control friend_number control =
      assert false >> pure (false, ToxAvErrCallControl.ok)

  unfoldable pub new_toxav_set_audio_bit_rate : ℕ → ℕ → M (AvSession Av U) (Bool × ToxAvErrBitRate)
  new_toxav_set_audio_bit_rate friend_number audio_bit_rate =
      assert false >> pure (false, ToxAvErrBitRate.ok)

  unfoldable pub new_toxav_set_video_bit_rate : ℕ → ℕ → M (AvSession Av U) (Bool × ToxAvErrBitRate)
  new_toxav_set_video_bit_rate friend_number video_bit_rate =
      assert false >> pure (false, ToxAvErrBitRate.ok)

  unfoldable pub new_toxav_send_video_frame :
      ℕ
      → ℕ
      → ℕ
      → Option Bytes
      → Option Bytes
      → Option Bytes
      → Option Bytes
      → M (AvSession Av U) (Bool × ToxAvErrSendFrame)
  new_toxav_send_video_frame friend_number width height y u v a =
      assert false >> pure (false, ToxAvErrSendFrame.ok)
