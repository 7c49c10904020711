-- ===== src/Av/Setters.antt =====
-- tox/av.cpp: the new_toxav_callback_* functions, which set one callback each.
use tox4j.Base.{ℕ, Bool, Option, some}
use tox4j.Base.Effect.{M, ok}
use tox4j.Core.Enums.{Bytes}
use tox4j.Av.State.{CallState, AvCallbacks, AvSession}

module _ {Av U : Type 0} where
  abbrev pub set_av_callbacks : (AvCallbacks U → AvCallbacks U) → M (AvSession Av U) (Unit {0})
  set_av_callbacks f s =
      ok (tt, record s { new_toxav = record (s.new_toxav) { callbacks = f s.new_toxav.callbacks } })

  unfoldable pub new_toxav_callback_call : (ℕ → Bool → Bool → U → U) → M (AvSession Av U) (Unit {0})
  new_toxav_callback_call function = set_av_callbacks λ c. record c { call = some function }

  unfoldable pub new_toxav_callback_call_state :
      (ℕ → CallState → U → U) → M (AvSession Av U) (Unit {0})
  new_toxav_callback_call_state function =
      set_av_callbacks λ c. record c { call_state = some function }

  unfoldable pub new_toxav_callback_request_video_frame :
      (ℕ → U → U) → M (AvSession Av U) (Unit {0})
  new_toxav_callback_request_video_frame function =
      set_av_callbacks λ c. record c { request_video_frame = some function }

  unfoldable pub new_toxav_callback_request_audio_frame :
      (ℕ → U → U) → M (AvSession Av U) (Unit {0})
  new_toxav_callback_request_audio_frame function =
      set_av_callbacks λ c. record c { request_audio_frame = some function }

  unfoldable pub new_toxav_callback_receive_video_frame :
      (ℕ → ℕ → ℕ → Bytes → Bytes → Bytes → Option Bytes → U → U) → M (AvSession Av U) (Unit {0})
  new_toxav_callback_receive_video_frame function =
      set_av_callbacks λ c. record c { receive_video_frame = some function }

  unfoldable pub new_toxav_callback_receive_audio_frame :
      (ℕ → (ℕ → ℕ) → ℕ → ℕ → ℕ → U → U) → M (AvSession Av U) (Unit {0})
  new_toxav_callback_receive_audio_frame function =
      set_av_callbacks λ c. record c { receive_audio_frame = some function }
