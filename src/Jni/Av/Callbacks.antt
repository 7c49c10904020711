-- ===== src/Jni/Av/Callbacks.antt =====
-- ToxAv/lifecycle.cpp: the tox4j_*_cb functions, which add an event each, and their registration.
use tox4j.Base.{
  ℕ, zero, suc, ◌+◌, ◌*◌, Bool, Option, none, some, List, [], ◌∷◌, ◌++◌, ltb, take, u32, int_to_u64,
  if◌then◌else◌,
}
use tox4j.Base.Effect.{M, ◌>>◌}
use tox4j.Core.Enums.{Bytes}
use tox4j.Av.State.{CallState, AvSession}
use tox4j.Av.Setters.{
  new_toxav_callback_call, new_toxav_callback_call_state, new_toxav_callback_request_audio_frame,
  new_toxav_callback_request_video_frame, new_toxav_callback_receive_audio_frame,
  new_toxav_callback_receive_video_frame,
}
use tox4j.Jni.Av.Events.{CallStateKind, AvEvents}

unfoldable pub tox4j_call_cb : ℕ → Bool → Bool → AvEvents → AvEvents
tox4j_call_cb friend_number audio_enabled video_enabled events = record events {
  call =
      events.call
      ++ record {
        friend_number = friend_number;
        audio_enabled = audio_enabled;
        video_enabled = video_enabled;
      }
        ∷ [];
}

unfoldable pub call_state_kind : CallState → CallStateKind
call_state_kind CallState.ringing = CallStateKind.ringing
call_state_kind CallState.sending_none = CallStateKind.sending_none
call_state_kind CallState.sending_a = CallStateKind.sending_a
call_state_kind CallState.sending_v = CallStateKind.sending_v
call_state_kind CallState.sending_av = CallStateKind.sending_av
call_state_kind CallState.paused = CallStateKind.paused
call_state_kind CallState.end = CallStateKind.end
call_state_kind CallState.error = CallStateKind.error

unfoldable pub tox4j_call_state_cb : ℕ → CallState → AvEvents → AvEvents
unfolding call_state_kind
tox4j_call_state_cb friend_number state events = record events {
  call_state =
      events.call_state
      ++ record { friend_number = friend_number; state = call_state_kind state } ∷ [];
}

unfoldable pub tox4j_request_audio_frame_cb : ℕ → AvEvents → AvEvents
tox4j_request_audio_frame_cb friend_number events = record events {
  request_audio_frame = events.request_audio_frame ++ record { friend_number = friend_number } ∷ [];
}

unfoldable pub tox4j_request_video_frame_cb : ℕ → AvEvents → AvEvents
tox4j_request_video_frame_cb friend_number events = record events {
  request_video_frame = events.request_video_frame ++ record { friend_number = friend_number } ∷ [];
}

-- An int16_t as an int32.
unfoldable pub widened : ℕ → ℕ
widened x = if ltb x 0x8000 then x else x + 0xffff_0000

-- `for (size_t i = 0; i < n; i++) msg->add_pcm (pcm[i]);`, on the rounds left.
unfoldable pub add_pcm : (ℕ → ℕ) → ℕ → ℕ → List ℕ
unfolding widened
add_pcm pcm i zero = []
add_pcm pcm i (suc n) = widened (pcm i) ∷ add_pcm pcm (i + 1) n

unfoldable pub tox4j_receive_audio_frame_cb : ℕ → (ℕ → ℕ) → ℕ → ℕ → ℕ → AvEvents → AvEvents
unfolding add_pcm
tox4j_receive_audio_frame_cb friend_number pcm sample_count channels sampling_rate events =
    record events {
      receive_audio_frame =
          events.receive_audio_frame
          ++ record {
            friend_number = friend_number;
            pcm = add_pcm pcm 0 (sample_count * channels);
            channels = channels;
            sampling_rate = sampling_rate;
          }
            ∷ [];
    }

-- `width * height` is an int.
unfoldable pub tox4j_receive_video_frame_cb :
    ℕ → ℕ → ℕ → Bytes → Bytes → Bytes → Option Bytes → AvEvents → AvEvents
tox4j_receive_video_frame_cb friend_number width height y u v a events =
    let size = int_to_u64 (u32 (width * height)) in
    record events {
      receive_video_frame =
          events.receive_video_frame
          ++ record {
            friend_number = friend_number;
            width = width;
            height = height;
            y = take size y;
            u = take size u;
            v = take size v;
            a = elim a [ none ↦ none | some bytes ↦ some (take size bytes) ];
          }
            ∷ [];
    }

-- The calls of toxav_callback_* in toxAvNew, with the new events object.
unfoldable pub set_up_av_callbacks : {Av : Type 0} → M (AvSession Av AvEvents) (Unit {0})
unfolding new_toxav_callback_call new_toxav_callback_call_state
    new_toxav_callback_request_audio_frame new_toxav_callback_request_video_frame
    new_toxav_callback_receive_audio_frame new_toxav_callback_receive_video_frame
set_up_av_callbacks =
    new_toxav_callback_call tox4j_call_cb
    >> new_toxav_callback_call_state tox4j_call_state_cb
    >> new_toxav_callback_request_audio_frame tox4j_request_audio_frame_cb
    >> new_toxav_callback_request_video_frame tox4j_request_video_frame_cb
    >> new_toxav_callback_receive_audio_frame tox4j_receive_audio_frame_cb
    >> new_toxav_callback_receive_video_frame tox4j_receive_video_frame_cb
