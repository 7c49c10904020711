-- ===== src/Jni/Av/Errors.antt =====
-- The error functions of ToxAv/av.cpp: from an error code of tox/av.h to what is thrown.
--
-- Both setters of a bit rate have the same one, and so have both senders of a frame.
pub mod Codes
use tox4j.Base.{ℕ}
use tox4j.Av.Enums.{
  ToxAvErrCall, ToxAvErrAnswer, ToxAvErrCallControl, ToxAvErrBitRate, ToxAvErrSendFrame,
}
use tox4j.Jni.Exceptions.{ErrorHandling, success, failure}

unfoldable pub handle_call_error : ToxAvErrCall → ErrorHandling
handle_call_error ToxAvErrCall.ok = success
handle_call_error ToxAvErrCall.malloc = failure "MALLOC"
handle_call_error ToxAvErrCall.friend_not_found = failure "FRIEND_NOT_FOUND"
handle_call_error ToxAvErrCall.friend_not_connected = failure "FRIEND_NOT_CONNECTED"
handle_call_error ToxAvErrCall.friend_already_in_call = failure "FRIEND_ALREADY_IN_CALL"
handle_call_error ToxAvErrCall.invalid_bit_rate = failure "INVALID_BIT_RATE"

unfoldable pub handle_answer_error : ToxAvErrAnswer → ErrorHandling
handle_answer_error ToxAvErrAnswer.ok = success
handle_answer_error ToxAvErrAnswer.malloc = failure "MALLOC"
handle_answer_error ToxAvErrAnswer.friend_not_found = failure "FRIEND_NOT_FOUND"
handle_answer_error ToxAvErrAnswer.friend_not_calling = failure "FRIEND_NOT_CALLING"
handle_answer_error ToxAvErrAnswer.invalid_bit_rate = failure "INVALID_BIT_RATE"

unfoldable pub handle_call_control_error : ToxAvErrCallControl → ErrorHandling
handle_call_control_error ToxAvErrCallControl.ok = success
handle_call_control_error ToxAvErrCallControl.friend_not_found = failure "FRIEND_NOT_FOUND"
handle_call_control_error ToxAvErrCallControl.friend_not_in_call = failure "FRIEND_NOT_IN_CALL"
handle_call_control_error ToxAvErrCallControl.not_paused = failure "NOT_PAUSED"
handle_call_control_error ToxAvErrCallControl.denied = failure "DENIED"
handle_call_control_error ToxAvErrCallControl.already_paused = failure "ALREADY_PAUSED"

unfoldable pub handle_bit_rate_error : ToxAvErrBitRate → ErrorHandling
handle_bit_rate_error ToxAvErrBitRate.ok = success
handle_bit_rate_error ToxAvErrBitRate.invalid = failure "INVALID"

unfoldable pub handle_send_frame_error : ToxAvErrSendFrame → ErrorHandling
handle_send_frame_error ToxAvErrSendFrame.ok = success
handle_send_frame_error ToxAvErrSendFrame.null = failure "NULL"
handle_send_frame_error ToxAvErrSendFrame.friend_not_found = failure "FRIEND_NOT_FOUND"
handle_send_frame_error ToxAvErrSendFrame.friend_not_in_call = failure "FRIEND_NOT_IN_CALL"
handle_send_frame_error ToxAvErrSendFrame.not_requested = failure "NOT_REQUESTED"
handle_send_frame_error ToxAvErrSendFrame.invalid = failure "INVALID"

abbrev pub number_of_call : ToxAvErrCall → ℕ
number_of_call ToxAvErrCall.ok = 0
number_of_call ToxAvErrCall.malloc = 1
number_of_call ToxAvErrCall.friend_not_found = 2
number_of_call ToxAvErrCall.friend_not_connected = 3
number_of_call ToxAvErrCall.friend_already_in_call = 4
number_of_call ToxAvErrCall.invalid_bit_rate = 5

abbrev pub number_of_answer : ToxAvErrAnswer → ℕ
number_of_answer ToxAvErrAnswer.ok = 0
number_of_answer ToxAvErrAnswer.malloc = 1
number_of_answer ToxAvErrAnswer.friend_not_found = 2
number_of_answer ToxAvErrAnswer.friend_not_calling = 3
number_of_answer ToxAvErrAnswer.invalid_bit_rate = 4

abbrev pub number_of_call_control : ToxAvErrCallControl → ℕ
number_of_call_control ToxAvErrCallControl.ok = 0
number_of_call_control ToxAvErrCallControl.friend_not_found = 1
number_of_call_control ToxAvErrCallControl.friend_not_in_call = 2
number_of_call_control ToxAvErrCallControl.not_paused = 3
number_of_call_control ToxAvErrCallControl.denied = 4
number_of_call_control ToxAvErrCallControl.already_paused = 5

abbrev pub number_of_bit_rate : ToxAvErrBitRate → ℕ
number_of_bit_rate ToxAvErrBitRate.ok = 0
number_of_bit_rate ToxAvErrBitRate.invalid = 1

abbrev pub number_of_send_frame : ToxAvErrSendFrame → ℕ
number_of_send_frame ToxAvErrSendFrame.ok = 0
number_of_send_frame ToxAvErrSendFrame.null = 1
number_of_send_frame ToxAvErrSendFrame.friend_not_found = 2
number_of_send_frame ToxAvErrSendFrame.friend_not_in_call = 3
number_of_send_frame ToxAvErrSendFrame.not_requested = 4
number_of_send_frame ToxAvErrSendFrame.invalid = 5
