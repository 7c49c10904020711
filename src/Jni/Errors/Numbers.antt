-- ===== src/Jni/Errors/Numbers.antt =====
-- The numbers of the error codes of tox/core.h, which the report of an unknown code would carry.
use tox4j.Base.{ℕ}
use tox4j.Core.Enums.{
  ToxErrNew, ToxErrBootstrap, ToxErrGetPort, ToxErrSetInfo, ToxErrFriendAdd, ToxErrFriendDelete,
  ToxErrFriendByPublicKey, ToxErrFriendGetPublicKey, ToxErrSetTyping, ToxErrSendMessage,
  ToxErrFileControl, ToxErrFileSend, ToxErrFileSendChunk, ToxErrSendCustomPacket,
}

abbrev pub number_of_new : ToxErrNew → ℕ
number_of_new ToxErrNew.ok = 0
number_of_new ToxErrNew.null = 1
number_of_new ToxErrNew.malloc = 2
number_of_new ToxErrNew.port_alloc = 3
number_of_new ToxErrNew.proxy_bad_host = 4
number_of_new ToxErrNew.proxy_bad_port = 5
number_of_new ToxErrNew.proxy_not_found = 6
number_of_new ToxErrNew.load_encrypted = 7
number_of_new ToxErrNew.load_bad_format = 8

abbrev pub number_of_bootstrap : ToxErrBootstrap → ℕ
number_of_bootstrap ToxErrBootstrap.ok = 0
number_of_bootstrap ToxErrBootstrap.null = 1
number_of_bootstrap ToxErrBootstrap.bad_address = 2
number_of_bootstrap ToxErrBootstrap.bad_port = 3

abbrev pub number_of_get_port : ToxErrGetPort → ℕ
number_of_get_port ToxErrGetPort.ok = 0
number_of_get_port ToxErrGetPort.not_bound = 1

abbrev pub number_of_set_info : ToxErrSetInfo → ℕ
number_of_set_info ToxErrSetInfo.ok = 0
number_of_set_info ToxErrSetInfo.null = 1
number_of_set_info ToxErrSetInfo.too_long = 2

abbrev pub number_of_friend_add : ToxErrFriendAdd → ℕ
number_of_friend_add ToxErrFriendAdd.ok = 0
number_of_friend_add ToxErrFriendAdd.null = 1
number_of_friend_add ToxErrFriendAdd.too_long = 2
number_of_friend_add ToxErrFriendAdd.no_message = 3
number_of_friend_add ToxErrFriendAdd.own_key = 4
number_of_friend_add ToxErrFriendAdd.already_sent = 5
number_of_friend_add ToxErrFriendAdd.bad_checksum = 6
number_of_friend_add ToxErrFriendAdd.set_new_nospam = 7
number_of_friend_add ToxErrFriendAdd.malloc = 8

abbrev pub number_of_friend_delete : ToxErrFriendDelete → ℕ
number_of_friend_delete ToxErrFriendDelete.ok = 0
number_of_friend_delete ToxErrFriendDelete.friend_not_found = 1

abbrev pub number_of_friend_by_public_key : ToxErrFriendByPublicKey → ℕ
number_of_friend_by_public_key ToxErrFriendByPublicKey.ok = 0
number_of_friend_by_public_key ToxErrFriendByPublicKey.null = 1
number_of_friend_by_public_key ToxErrFriendByPublicKey.not_found = 2

abbrev pub number_of_friend_get_public_key : ToxErrFriendGetPublicKey → ℕ
number_of_friend_get_public_key ToxErrFriendGetPublicKey.ok = 0
number_of_friend_get_public_key ToxErrFriendGetPublicKey.friend_not_found = 1

abbrev pub number_of_set_typing : ToxErrSetTyping → ℕ
number_of_set_typing ToxErrSetTyping.ok = 0
number_of_set_typing ToxErrSetTyping.friend_not_found = 1

abbrev pub number_of_send_message : ToxErrSendMessage → ℕ
number_of_send_message ToxErrSendMessage.ok = 0
number_of_send_message ToxErrSendMessage.null = 1
number_of_send_message ToxErrSendMessage.friend_not_found = 2
number_of_send_message ToxErrSendMessage.friend_not_connected = 3
number_of_send_message ToxErrSendMessage.sendq = 4
number_of_send_message ToxErrSendMessage.too_long = 5
number_of_send_message ToxErrSendMessage.empty = 6

abbrev pub number_of_file_control : ToxErrFileControl → ℕ
number_of_file_control ToxErrFileControl.ok = 0
number_of_file_control ToxErrFileControl.friend_not_found = 1
number_of_file_control ToxErrFileControl.friend_not_connected = 2
number_of_file_control ToxErrFileControl.not_found = 3
number_of_file_control ToxErrFileControl.not_paused = 4
number_of_file_control ToxErrFileControl.denied = 5
number_of_file_control ToxErrFileControl.already_paused = 6

abbrev pub number_of_file_send : ToxErrFileSend → ℕ
number_of_file_send ToxErrFileSend.ok = 0
number_of_file_send ToxErrFileSend.null = 1
number_of_file_send ToxErrFileSend.friend_not_found = 2
number_of_file_send ToxErrFileSend.friend_not_connected = 3
number_of_file_send ToxErrFileSend.name_empty = 4
number_of_file_send ToxErrFileSend.name_too_long = 5
number_of_file_send ToxErrFileSend.too_many = 6

abbrev pub number_of_file_send_chunk : ToxErrFileSendChunk → ℕ
number_of_file_send_chunk ToxErrFileSendChunk.ok = 0
number_of_file_send_chunk ToxErrFileSendChunk.null = 1
number_of_file_send_chunk ToxErrFileSendChunk.friend_not_found = 2
number_of_file_send_chunk ToxErrFileSendChunk.friend_not_connected = 3
number_of_file_send_chunk ToxErrFileSendChunk.not_found = 4
number_of_file_send_chunk ToxErrFileSendChunk.too_large = 5

abbrev pub number_of_send_custom_packet : ToxErrSendCustomPacket → ℕ
number_of_send_custom_packet ToxErrSendCustomPacket.ok = 0
number_of_send_custom_packet ToxErrSendCustomPacket.null = 1
number_of_send_custom_packet ToxErrSendCustomPacket.friend_not_found = 2
number_of_send_custom_packet ToxErrSendCustomPacket.friend_not_connected = 3
number_of_send_custom_packet ToxErrSendCustomPacket.invalid = 4
number_of_send_custom_packet ToxErrSendCustomPacket.empty = 5
number_of_send_custom_packet ToxErrSendCustomPacket.too_long = 6
number_of_send_custom_packet ToxErrSendCustomPacket.sendq = 7
