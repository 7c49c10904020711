-- ===== src/Jni/Av/Methods.antt =====
-- ToxAv/av.cpp: the native methods on a session.
--
-- A jint argument that the API takes as a narrower integer is cut. An array of shorts is an Option of
-- its samples.
use tox4j.Base.{
  ℕ, ◌*◌, Bool, not, ◌&&◌, ◌||◌, Option, none, some, List, [], length, leb, ◌==◌, is_negative, u16,
  u32, int_to_u64, if◌then◌else◌, ◌∷◌,
}
use tox4j.Base.Effect.{M, ok, fault, ◌>>◌, assert}
use tox4j.Core.Enums.{Bytes}
use tox4j.Av.State.{AvSession, AvApi}
use tox4j.Av.Client.{
  new_toxav_iteration, new_toxav_iteration_interval, new_toxav_call, new_toxav_answer,
  new_toxav_call_control, new_toxav_set_audio_bit_rate, new_toxav_set_video_bit_rate,
  new_toxav_send_video_frame, new_toxav_send_audio_frame,
}
use tox4j.Jni.Exceptions.{JavaException, tox_exception}
use tox4j.Jni.Calls.{with_instance}
use tox4j.Jni.Methods.{size_of, ignore}
use tox4j.Jni.Av.{AvTable, on_av_session, av_with_error_handling}
use tox4j.Jni.Av.Events.{AvEvents, no_av_events}
use tox4j.Jni.Av.Errors.{
  handle_call_error, handle_answer_error, handle_call_control_error, handle_bit_rate_error,
  handle_send_frame_error, number_of_call, number_of_answer, number_of_call_control,
  number_of_bit_rate, number_of_send_frame,
}

-- ShortArray::data.
abbrev pub samples : Option (List ℕ) → List ℕ
samples none = []
samples (some pcm) = pcm

-- The planes have a byte for each pixel; the alpha plane may be empty.
unfoldable pub has_bad_length :
    ℕ → ℕ → Option Bytes → Option Bytes → Option Bytes → Option Bytes → Bool
has_bad_length width height y u v a =
    let pixel_count = int_to_u64 (u32 (width * height)) in
    not (size_of y == pixel_count)
    || (not (size_of u == pixel_count)
        || (not (size_of v == pixel_count)
            || (not (size_of a == 0) && not (size_of a == pixel_count))))

module _ {Av : Type 0} where
  abbrev pub throw_av : JavaException → M (AvTable Av) (Unit {0})
  throw_av e s = ok (tt, record s { thrown = e ∷ s.thrown })

  unfoldable pub tox_av_call_control : ℕ → ℕ → ℕ → M (AvTable Av) (Unit {0})
  unfolding with_instance av_with_error_handling new_toxav_call_control
  tox_av_call_control n friend_number control = with_instance tt n (
      av_with_error_handling "CallControl" handle_call_control_error number_of_call_control ignore
        (new_toxav_call_control friend_number control))

  unfoldable pub tox_av_set_audio_bit_rate : ℕ → ℕ → ℕ → M (AvTable Av) (Unit {0})
  unfolding with_instance av_with_error_handling new_toxav_set_audio_bit_rate
  tox_av_set_audio_bit_rate n friend_number audio_bit_rate = with_instance tt n (
      av_with_error_handling "BitRate" handle_bit_rate_error number_of_bit_rate ignore
        (new_toxav_set_audio_bit_rate friend_number audio_bit_rate))

  unfoldable pub tox_av_set_video_bit_rate : ℕ → ℕ → ℕ → M (AvTable Av) (Unit {0})
  unfolding with_instance av_with_error_handling new_toxav_set_video_bit_rate
  tox_av_set_video_bit_rate n friend_number video_bit_rate = with_instance tt n (
      av_with_error_handling "BitRate" handle_bit_rate_error number_of_bit_rate ignore
        (new_toxav_set_video_bit_rate friend_number video_bit_rate))

  unfoldable pub tox_av_send_video_frame :
      ℕ
      → ℕ
      → ℕ
      → ℕ
      → Option Bytes
      → Option Bytes
      → Option Bytes
      → Option Bytes
      → M (AvTable Av) (Unit {0})
  unfolding with_instance av_with_error_handling new_toxav_send_video_frame has_bad_length
  tox_av_send_video_frame n friend_number width height y u v a =
      if has_bad_length width height y u v a
      then throw_av (tox_exception "av" "SendFrame" "BAD_LENGTH")
      else with_instance tt n (
          av_with_error_handling "SendFrame" handle_send_frame_error number_of_send_frame ignore
            (new_toxav_send_video_frame friend_number (u16 width) (u16 height) y u v a))

module _ {Tox Av : Type 0} (api : AvApi Tox Av) where
  unfoldable pub tox_av_iteration_interval : ℕ → M (AvTable Av) ℕ
  unfolding with_instance on_av_session new_toxav_iteration_interval
  tox_av_iteration_interval n = with_instance 0 n (on_av_session (new_toxav_iteration_interval api))

  unfoldable pub av_iterate : (AvEvents → Bytes) → M (AvSession Av AvEvents) (Option Bytes)
  unfolding new_toxav_iteration no_av_events
  av_iterate serialize s = elim (new_toxav_iteration api s) [
    | fault x ↦ fault x
    | ok (_, t) ↦ ok (some (serialize t.user_data), record t { user_data = no_av_events })
  ]

  unfoldable pub tox_av_iteration : (AvEvents → Bytes) → ℕ → M (AvTable Av) (Option Bytes)
  unfolding with_instance on_av_session av_iterate
  tox_av_iteration serialize n = with_instance none n (on_av_session (av_iterate serialize))

  unfoldable pub tox_av_call : ℕ → ℕ → ℕ → ℕ → M (AvTable Av) (Unit {0})
  unfolding with_instance av_with_error_handling new_toxav_call
  tox_av_call n friend_number audio_bit_rate video_bit_rate = with_instance tt n (
      av_with_error_handling "Call" handle_call_error number_of_call ignore
        (new_toxav_call api friend_number audio_bit_rate video_bit_rate))

  unfoldable pub tox_av_answer : ℕ → ℕ → ℕ → ℕ → M (AvTable Av) (Unit {0})
  unfolding with_instance av_with_error_handling new_toxav_answer
  tox_av_answer n friend_number audio_bit_rate video_bit_rate = with_instance tt n (
      av_with_error_handling "Answer" handle_answer_error number_of_answer ignore
        (new_toxav_answer api friend_number audio_bit_rate video_bit_rate))

  unfoldable pub tox_av_send_audio_frame :
      ℕ → ℕ → Option (List ℕ) → ℕ → ℕ → ℕ → M (AvTable Av) (Unit {0})
  unfolding with_instance av_with_error_handling new_toxav_send_audio_frame
  tox_av_send_audio_frame n friend_number pcm sample_count channels sampling_rate =
      assert (not (is_negative sample_count))
      >> assert (not (is_negative channels))
      >> assert (leb channels 255)
      >> assert (not (is_negative sampling_rate))
      >> (if not (length (samples pcm) == int_to_u64 (u32 (sample_count * channels)))
          then throw_av (tox_exception "av" "SendFrame" "BAD_LENGTH")
          else with_instance tt n (
              av_with_error_handling "SendFrame" handle_send_frame_error number_of_send_frame ignore
                (new_toxav_send_audio_frame api friend_number (samples pcm) sample_count channels
                  sampling_rate)))
