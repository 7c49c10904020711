-- ===== src/Jni/Av/Errors/Codes.antt =====
-- Each error code of the A/V API is reported, and under a name of its own.
use tox4j.Base.{List, [], ◌∷◌, refl, arith}
use tox4j.Av.Enums.{
  ToxAvErrCall, ToxAvErrAnswer, ToxAvErrCallControl, ToxAvErrBitRate, ToxAvErrSendFrame,
}
use tox4j.Jni.Errors.Codes.{IsFaithful, ReadsBack, faithful, CoreCodes, all_codes-IsFaithful}
use tox4j.Jni.Av.Errors.{
  handle_call_error, handle_answer_error, handle_call_control_error, handle_bit_rate_error,
  handle_send_frame_error,
}

handle_call_error-IsFaithful : IsFaithful ToxAvErrCall.ok handle_call_error
unfolding handle_call_error
handle_call_error-IsFaithful =
    let codes : List ToxAvErrCall =
      ToxAvErrCall.ok ∷ ToxAvErrCall.malloc ∷ ToxAvErrCall.friend_not_found
      ∷ ToxAvErrCall.friend_not_connected ∷ ToxAvErrCall.friend_already_in_call
      ∷ ToxAvErrCall.invalid_bit_rate ∷ [] in
    faithful ToxAvErrCall.ok handle_call_error codes refl (λ e. ground arith)
      (λ e. elim e as (ReadsBack ToxAvErrCall.ok handle_call_error codes) [
        | ToxAvErrCall.ok ↦ refl
        | ToxAvErrCall.malloc ↦ refl
        | ToxAvErrCall.friend_not_found ↦ refl
        | ToxAvErrCall.friend_not_connected ↦ refl
        | ToxAvErrCall.friend_already_in_call ↦ refl
        | ToxAvErrCall.invalid_bit_rate ↦ refl
      ])

handle_answer_error-IsFaithful : IsFaithful ToxAvErrAnswer.ok handle_answer_error
unfolding handle_answer_error
handle_answer_error-IsFaithful =
    let codes : List ToxAvErrAnswer =
      ToxAvErrAnswer.ok ∷ ToxAvErrAnswer.malloc ∷ ToxAvErrAnswer.friend_not_found
      ∷ ToxAvErrAnswer.friend_not_calling ∷ ToxAvErrAnswer.invalid_bit_rate ∷ [] in
    faithful ToxAvErrAnswer.ok handle_answer_error codes refl (λ e. ground arith)
      (λ e. elim e as (ReadsBack ToxAvErrAnswer.ok handle_answer_error codes) [
        | ToxAvErrAnswer.ok ↦ refl
        | ToxAvErrAnswer.malloc ↦ refl
        | ToxAvErrAnswer.friend_not_found ↦ refl
        | ToxAvErrAnswer.friend_not_calling ↦ refl
        | ToxAvErrAnswer.invalid_bit_rate ↦ refl
      ])

handle_call_control_error-IsFaithful : IsFaithful ToxAvErrCallControl.ok handle_call_control_error
unfolding handle_call_control_error
handle_call_control_error-IsFaithful =
    let codes : List ToxAvErrCallControl =
      ToxAvErrCallControl.ok ∷ ToxAvErrCallControl.friend_not_found
      ∷ ToxAvErrCallControl.friend_not_in_call ∷ ToxAvErrCallControl.not_paused
      ∷ ToxAvErrCallControl.denied ∷ ToxAvErrCallControl.already_paused ∷ [] in
    faithful ToxAvErrCallControl.ok handle_call_control_error codes refl (λ e. ground arith)
      (λ e. elim e as (ReadsBack ToxAvErrCallControl.ok handle_call_control_error codes) [
        | ToxAvErrCallControl.ok ↦ refl
        | ToxAvErrCallControl.friend_not_found ↦ refl
        | ToxAvErrCallControl.friend_not_in_call ↦ refl
        | ToxAvErrCallControl.not_paused ↦ refl
        | ToxAvErrCallControl.denied ↦ refl
        | ToxAvErrCallControl.already_paused ↦ refl
      ])

handle_bit_rate_error-IsFaithful : IsFaithful ToxAvErrBitRate.ok handle_bit_rate_error
unfolding handle_bit_rate_error
handle_bit_rate_error-IsFaithful =
    let codes : List ToxAvErrBitRate = ToxAvErrBitRate.ok ∷ ToxAvErrBitRate.invalid ∷ [] in
    faithful ToxAvErrBitRate.ok handle_bit_rate_error codes refl (λ e. ground arith)
      (λ e. elim e as (ReadsBack ToxAvErrBitRate.ok handle_bit_rate_error codes) [
        | ToxAvErrBitRate.ok ↦ refl
        | ToxAvErrBitRate.invalid ↦ refl
      ])

handle_send_frame_error-IsFaithful : IsFaithful ToxAvErrSendFrame.ok handle_send_frame_error
unfolding handle_send_frame_error
handle_send_frame_error-IsFaithful =
    let codes : List ToxAvErrSendFrame =
      ToxAvErrSendFrame.ok ∷ ToxAvErrSendFrame.null ∷ ToxAvErrSendFrame.friend_not_found
      ∷ ToxAvErrSendFrame.friend_not_in_call ∷ ToxAvErrSendFrame.not_requested
      ∷ ToxAvErrSendFrame.invalid ∷ [] in
    faithful ToxAvErrSendFrame.ok handle_send_frame_error codes refl (λ e. ground arith)
      (λ e. elim e as (ReadsBack ToxAvErrSendFrame.ok handle_send_frame_error codes) [
        | ToxAvErrSendFrame.ok ↦ refl
        | ToxAvErrSendFrame.null ↦ refl
        | ToxAvErrSendFrame.friend_not_found ↦ refl
        | ToxAvErrSendFrame.friend_not_in_call ↦ refl
        | ToxAvErrSendFrame.not_requested ↦ refl
        | ToxAvErrSendFrame.invalid ↦ refl
      ])

-- Each of the five error functions of ToxAvImpl is faithful.
abbrev pub AvCodes : Type 0
AvCodes =
    IsFaithful ToxAvErrCall.ok handle_call_error
    × IsFaithful ToxAvErrAnswer.ok handle_answer_error
    × IsFaithful ToxAvErrCallControl.ok handle_call_control_error
    × IsFaithful ToxAvErrBitRate.ok handle_bit_rate_error
    × IsFaithful ToxAvErrSendFrame.ok handle_send_frame_error

av_codes-IsFaithful : AvCodes
av_codes-IsFaithful = (
  handle_call_error-IsFaithful, handle_answer_error-IsFaithful,
  handle_call_control_error-IsFaithful, handle_bit_rate_error-IsFaithful,
  handle_send_frame_error-IsFaithful,
)

-- Every error code that a native method of ToxCoreImpl or ToxAvImpl checks is reported to Java faithfully:
-- for each of the nineteen error functions, OK alone is a success, no code is left unhandled, and
-- distinct codes are reported differently.
pub every_code-IsFaithful : CoreCodes × AvCodes
every_code-IsFaithful = (all_codes-IsFaithful, av_codes-IsFaithful)
