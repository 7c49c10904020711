-- ===== src/Jni/Errors.antt =====
-- The error functions of ToxCore/*.cpp: from an error code of tox/core.h to what is thrown.
--
-- A function that is a lambda there has the name of its method here.
pub mod Codes
pub mod Numbers
use tox4j.Core.Enums.{
  ToxErrNew, ToxErrBootstrap, ToxErrGetPort, ToxErrSetInfo, ToxErrFriendAdd, ToxErrFriendDelete,
  ToxErrFriendByPublicKey, ToxErrFriendGetPublicKey, ToxErrSetTyping, ToxErrSendMessage,
  ToxErrFileControl, ToxErrFileSend, ToxErrFileSendChunk, ToxErrSendCustomPacket,
}
use tox4j.Jni.Exceptions.{ErrorHandling, success, failure}

unfoldable pub handle_new_error : ToxErrNew → ErrorHandling
handle_new_error ToxErrNew.ok = success
handle_new_error ToxErrNew.null = failure "NULL"
handle_new_error ToxErrNew.malloc = failure "MALLOC"
handle_new_error ToxErrNew.port_alloc = failure "PORT_ALLOC"
handle_new_error ToxErrNew.proxy_bad_host = failure "PROXY_BAD_HOST"
handle_new_error ToxErrNew.proxy_bad_port = failure "PROXY_BAD_PORT"
handle_new_error ToxErrNew.proxy_not_found = failure "PROXY_NOT_FOUND"
handle_new_error ToxErrNew.load_encrypted = failure "LOAD_ENCRYPTED"
handle_new_error ToxErrNew.load_bad_format = failure "LOAD_BAD_FORMAT"

unfoldable pub handle_bootstrap_error : ToxErrBootstrap → ErrorHandling
handle_bootstrap_error ToxErrBootstrap.ok = success
handle_bootstrap_error ToxErrBootstrap.null = failure "NULL"
handle_bootstrap_error ToxErrBootstrap.bad_address = failure "BAD_ADDRESS"
handle_bootstrap_error ToxErrBootstrap.bad_port = failure "BAD_PORT"

unfoldable pub handle_get_port_error : ToxErrGetPort → ErrorHandling
handle_get_port_error ToxErrGetPort.ok = success
handle_get_port_error ToxErrGetPort.not_bound = failure "NOT_BOUND"

unfoldable pub handle_set_info_error : ToxErrSetInfo → ErrorHandling
handle_set_info_error ToxErrSetInfo.ok = success
handle_set_info_error ToxErrSetInfo.null = failure "NULL"
handle_set_info_error ToxErrSetInfo.too_long = failure "TOO_LONG"

unfoldable pub handle_tox_friend_add_result : ToxErrFriendAdd → ErrorHandling
handle_tox_friend_add_result ToxErrFriendAdd.ok = success
handle_tox_friend_add_result ToxErrFriendAdd.null = failure "NULL"
handle_tox_friend_add_result ToxErrFriendAdd.too_long = failure "TOO_LONG"
handle_tox_friend_add_result ToxErrFriendAdd.no_message = failure "NO_MESSAGE"
handle_tox_friend_add_result ToxErrFriendAdd.own_key = failure "OWN_KEY"
handle_tox_friend_add_result ToxErrFriendAdd.already_sent = failure "ALREADY_SENT"
handle_tox_friend_add_result ToxErrFriendAdd.bad_checksum = failure "BAD_CHECKSUM"
handle_tox_friend_add_result ToxErrFriendAdd.set_new_nospam = failure "SET_NEW_NOSPAM"
handle_tox_friend_add_result ToxErrFriendAdd.malloc = failure "MALLOC"

unfoldable pub handle_friend_delete_error : ToxErrFriendDelete → ErrorHandling
handle_friend_delete_error ToxErrFriendDelete.ok = success
handle_friend_delete_error ToxErrFriendDelete.friend_not_found = failure "FRIEND_NOT_FOUND"

unfoldable pub handle_friend_by_public_key_error : ToxErrFriendByPublicKey → ErrorHandling
handle_friend_by_public_key_error ToxErrFriendByPublicKey.ok = success
handle_friend_by_public_key_error ToxErrFriendByPublicKey.null = failure "NULL"
handle_friend_by_public_key_error ToxErrFriendByPublicKey.not_found = failure "NOT_FOUND"

unfoldable pub handle_friend_get_public_key_error : ToxErrFriendGetPublicKey → ErrorHandling
handle_friend_get_public_key_error ToxErrFriendGetPublicKey.ok = success
handle_friend_get_public_key_error ToxErrFriendGetPublicKey.friend_not_found =
    failure "FRIEND_NOT_FOUND"

unfoldable pub handle_set_typing_error : ToxErrSetTyping → ErrorHandling
handle_set_typing_error ToxErrSetTyping.ok = success
handle_set_typing_error ToxErrSetTyping.friend_not_found = failure "FRIEND_NOT_FOUND"

unfoldable pub handle_send_message_error : ToxErrSendMessage → ErrorHandling
handle_send_message_error ToxErrSendMessage.ok = success
handle_send_message_error ToxErrSendMessage.null = failure "NULL"
handle_send_message_error ToxErrSendMessage.friend_not_found = failure "FRIEND_NOT_FOUND"
handle_send_message_error ToxErrSendMessage.friend_not_connected = failure "FRIEND_NOT_CONNECTED"
handle_send_message_error ToxErrSendMessage.sendq = failure "SENDQ"
handle_send_message_error ToxErrSendMessage.too_long = failure "TOO_LONG"
handle_send_message_error ToxErrSendMessage.empty = failure "EMPTY"

unfoldable pub handle_file_control_error : ToxErrFileControl → ErrorHandling
handle_file_control_error ToxErrFileControl.ok = success
handle_file_control_error ToxErrFileControl.friend_not_found = failure "FRIEND_NOT_FOUND"
handle_file_control_error ToxErrFileControl.friend_not_connected = failure "FRIEND_NOT_CONNECTED"
handle_file_control_error ToxErrFileControl.not_found = failure "NOT_FOUND"
handle_file_control_error ToxErrFileControl.not_paused = failure "NOT_PAUSED"
handle_file_control_error ToxErrFileControl.denied = failure "DENIED"
handle_file_control_error ToxErrFileControl.already_paused = failure "ALREADY_PAUSED"

unfoldable pub handle_file_send_error : ToxErrFileSend → ErrorHandling
handle_file_send_error ToxErrFileSend.ok = success
handle_file_send_error ToxErrFileSend.null = failure "NULL"
handle_file_send_error ToxErrFileSend.friend_not_found = failure "FRIEND_NOT_FOUND"
handle_file_send_error ToxErrFileSend.friend_not_connected = failure "FRIEND_NOT_CONNECTED"
handle_file_send_error ToxErrFileSend.name_empty = failure "NAME_EMPTY"
handle_file_send_error ToxErrFileSend.name_too_long = failure "NAME_TOO_LONG"
handle_file_send_error ToxErrFileSend.too_many = failure "TOO_MANY"

unfoldable pub handle_file_send_chunk_error : ToxErrFileSendChunk → ErrorHandling
handle_file_send_chunk_error ToxErrFileSendChunk.ok = success
handle_file_send_chunk_error ToxErrFileSendChunk.null = failure "NULL"
handle_file_send_chunk_error ToxErrFileSendChunk.friend_not_found = failure "FRIEND_NOT_FOUND"
handle_file_send_chunk_error ToxErrFileSendChunk.friend_not_connected =
    failure "FRIEND_NOT_CONNECTED"
handle_file_send_chunk_error ToxErrFileSendChunk.not_found = failure "NOT_FOUND"
handle_file_send_chunk_error ToxErrFileSendChunk.too_large = failure "TOO_LARGE"

unfoldable pub handle_send_custom_packet_error : ToxErrSendCustomPacket → ErrorHandling
handle_send_custom_packet_error ToxErrSendCustomPacket.ok = success
handle_send_custom_packet_error ToxErrSendCustomPacket.null = failure "NULL"
handle_send_custom_packet_error ToxErrSendCustomPacket.friend_not_found = failure "FRIEND_NOT_FOUND"
handle_send_custom_packet_error ToxErrSendCustomPacket.friend_not_connected =
    failure "FRIEND_NOT_CONNECTED"
handle_send_custom_packet_error ToxErrSendCustomPacket.invalid = failure "INVALID"
handle_send_custom_packet_error ToxErrSendCustomPacket.empty = failure "EMPTY"
handle_send_custom_packet_error ToxErrSendCustomPacket.too_long = failure "TOO_LONG"
handle_send_custom_packet_error ToxErrSendCustomPacket.sendq = failure "SENDQ"
