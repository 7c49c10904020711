-- ===== src/Av/Handlers.antt =====
-- tox/av.cpp: the functions of new_ToxAV::CB, and the run of a `toxav_do`.
use mathlib.Core.Option
use tox4j.Base.{
  ℕ, ◌*◌, ◌/◌, Bool, true, false, not, Option, none, some, ◌==◌, is_null, if◌then◌else◌, u8, u32,
}
use tox4j.Base.StdMap.{lookup, insert, nat_key}
use tox4j.Base.Effect.{M, ok, fault, ◌>>=◌, ◌>>◌, assert, assert_some}
use tox4j.Av.State.{
  CallState, AvCall, av_call, AvSession, AvEvent, AvCallIn, AvActivity, AvApi, av_callbacks,
  get_call, put_call, get_friend_number, read_av, set_av, set_maps, insert_new,
}

abbrev pub state_test : CallState → ℕ
state_test CallState.ringing = 0
state_test CallState.sending_none = 1
state_test CallState.sending_a = 2
state_test CallState.sending_v = 3
state_test CallState.sending_av = 4
state_test CallState.paused = 5
state_test CallState.end = 6
state_test CallState.error = 7

module _ {Tox Av : Type 0} (api : AvApi Tox Av) where
  -- The switches on the type of a call; the default is a failed assertion.
  unfoldable pub enabled_by_type : ℕ → Option (Bool × Bool)
  enabled_by_type call_type =
      if call_type == 0
      then some (false, false)
      else if call_type == api.av_type_audio
      then some (true, false)
      else if call_type == api.av_type_video
      then some (true, true)
      else none

  unfoldable pub state_by_type : ℕ → Option CallState
  state_by_type call_type =
      if call_type == 0
      then some CallState.sending_none
      else if call_type == api.av_type_audio
      then some CallState.sending_a
      else if call_type == api.av_type_video
      then some CallState.sending_av
      else none

module _ {Tox Av U : Type 0} (api : AvApi Tox Av) where
  unfoldable pub on_invite : ℕ → M (AvSession Av U) (Unit {0})
  unfolding get_call enabled_by_type av_call insert_new
  on_invite call_idx = do
    known ← λ s. ok (lookup call_idx s.new_toxav.call_to_friend, s)
    assert (is_null known)
    peer_id ← read_av λ t. api.toxav_get_peer_id t call_idx 0
    λ s. ok (
      tt,
      set_maps (insert call_idx peer_id s.new_toxav.call_to_friend)
          (insert_new peer_id (av_call call_idx) s.new_toxav.friend_to_call) s,
    )
    call ← get_call peer_id
    enabled ← assert_some (enabled_by_type api call.settings.call_type)
    av_callbacks (λ c. Option.map (λ f. f peer_id enabled.0 enabled.1) c.call)

  -- The new state is stored.
  abbrev pub enter : ℕ → AvCall → CallState → M (AvSession Av U) (Unit {0})
  enter friend_number call state = put_call friend_number (record call { state = state })

  unfoldable pub on_ringing : ℕ → M (AvSession Av U) (Unit {0})
  unfolding get_friend_number get_call
  on_ringing call_idx = do
    friend_number ← get_friend_number call_idx
    call ← get_call friend_number
    enter friend_number call CallState.ringing
    av_callbacks (λ c. Option.map (λ f. f friend_number CallState.ringing) c.call_state)

  unfoldable pub on_start : ℕ → M (AvSession Av U) (Unit {0})
  unfolding get_friend_number get_call state_by_type
  on_start call_idx = do
    friend_number ← get_friend_number call_idx
    call ← get_call friend_number
    state ← assert_some (state_by_type api call.settings.call_type)
    assert (not (state_test call.state == state_test state))
    enter friend_number call state
    λ s. ok (tt, set_av (api.toxav_prepare_transmission s.new_toxav.av call_idx 1) s)
    av_callbacks (λ c. Option.map (λ f. f friend_number state) c.call_state)

  unfoldable pub on_audio : ℕ → (ℕ → ℕ) → ℕ → M (AvSession Av U) (Unit {0})
  unfolding get_friend_number get_call
  on_audio call_idx pcm size = do
    friend_number ← get_friend_number call_idx
    call ← get_call friend_number
    settings ← read_av λ t. api.toxav_get_peer_csettings t call.index
    let sample_count =
        u32 (
          u32 (settings.audio_channels * settings.audio_sample_rate)
          * call.settings.audio_frame_duration)
        / 1000
    av_callbacks (λ c.
        Option.map
          (λ f.
            f friend_number pcm sample_count (u8 settings.audio_channels)
              settings.audio_sample_rate)
          c.receive_audio_frame)

  -- All other changes of a call, and video, only fail an assertion.
  unfoldable pub av_handle : AvCallIn → M (AvSession Av U) (Unit {0})
  unfolding on_invite on_ringing on_start on_audio
  av_handle (AvCallIn.call_state AvEvent.invite call_idx) = on_invite call_idx
  av_handle (AvCallIn.call_state AvEvent.ringing call_idx) = on_ringing call_idx
  av_handle (AvCallIn.call_state AvEvent.start call_idx) = on_start call_idx
  av_handle (AvCallIn.call_state _ call_idx) = assert false
  av_handle (AvCallIn.audio call_idx pcm size) = on_audio call_idx pcm size
  av_handle (AvCallIn.video call_idx) = assert false

  unfoldable pub run_av_activity : AvActivity Av → M (AvSession Av U) (Unit {0})
  run_av_activity (AvActivity.returns t) s = ok (tt, set_av t s)
  run_av_activity (AvActivity.calls t call next) s = elim (av_handle call (set_av t s)) [
    | fault x ↦ fault x
    | ok (_, s') ↦ run_av_activity (next s'.new_toxav.av) s'
  ]
