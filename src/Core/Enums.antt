-- ===== src/Core/Enums.antt =====
-- The constants and the enumerations of tox/core.h.
--
-- An enumeration whose values come from a cast of an integer is that integer, with a name for each
-- value; the others are data types.
use tox4j.Base.{ℕ, Bool, ◌&&◌, ◌||◌, ltb, leb, ◌==◌, List}

abbrev pub Bytes : Type 0
Bytes = List ℕ

abbrev pub tox_version_major : ℕ
tox_version_major = 0

abbrev pub tox_version_minor : ℕ
tox_version_minor = 0

abbrev pub tox_version_patch : ℕ
tox_version_patch = 0

-- TOX_VERSION_IS_API_COMPATIBLE, at any version of the library.
unfoldable pub is_api_compatible : ℕ × ℕ × ℕ → ℕ → ℕ → ℕ → Bool
is_api_compatible (version_major, version_minor, version_patch) major minor patch =
    (version_major == major)
    && (ltb minor version_minor || ((version_minor == minor) && leb patch version_patch))

unfoldable pub tox_version_is_compatible : ℕ → ℕ → ℕ → Bool
unfolding is_api_compatible
tox_version_is_compatible =
    is_api_compatible (tox_version_major, tox_version_minor, tox_version_patch)

abbrev pub tox_public_key_size : ℕ
tox_public_key_size = 32

abbrev pub tox_secret_key_size : ℕ
tox_secret_key_size = 32

abbrev pub tox_address_size : ℕ
tox_address_size = 38

abbrev pub tox_max_name_length : ℕ
tox_max_name_length = 128

abbrev pub tox_max_status_message_length : ℕ
tox_max_status_message_length = 1007

abbrev pub tox_max_message_length : ℕ
tox_max_message_length = 1368

abbrev pub tox_status_none : ℕ
tox_status_none = 0

abbrev pub tox_status_away : ℕ
tox_status_away = 1

abbrev pub tox_status_busy : ℕ
tox_status_busy = 2

abbrev pub tox_proxy_type_none : ℕ
tox_proxy_type_none = 0

abbrev pub tox_proxy_type_http : ℕ
tox_proxy_type_http = 1

abbrev pub tox_proxy_type_socks5 : ℕ
tox_proxy_type_socks5 = 2

abbrev pub tox_file_kind_data : ℕ
tox_file_kind_data = 0

abbrev pub tox_file_kind_avatar : ℕ
tox_file_kind_avatar = 1

abbrev pub tox_file_control_resume : ℕ
tox_file_control_resume = 0

abbrev pub tox_file_control_pause : ℕ
tox_file_control_pause = 1

abbrev pub tox_file_control_cancel : ℕ
tox_file_control_cancel = 2

pub data ToxConnection : Type 0 where
  none tcp4 tcp6 udp4 udp6 : ToxConnection

pub data ToxErrOptionsNew : Type 0 where
  ok malloc : ToxErrOptionsNew

pub data ToxErrNew : Type 0 where
  ok null malloc port_alloc proxy_bad_host proxy_bad_port proxy_not_found load_encrypted
        load_bad_format :
      ToxErrNew

pub data ToxErrBootstrap : Type 0 where
  ok null bad_address bad_port : ToxErrBootstrap

pub data ToxErrSetInfo : Type 0 where
  ok null too_long : ToxErrSetInfo

pub data ToxErrFriendAdd : Type 0 where
  ok null too_long no_message own_key already_sent bad_checksum set_new_nospam malloc :
      ToxErrFriendAdd

pub data ToxErrFriendDelete : Type 0 where
  ok friend_not_found : ToxErrFriendDelete

pub data ToxErrFriendByPublicKey : Type 0 where
  ok null not_found : ToxErrFriendByPublicKey

pub data ToxErrFriendGetPublicKey : Type 0 where
  ok friend_not_found : ToxErrFriendGetPublicKey

pub data ToxErrFriendQuery : Type 0 where
  ok null friend_not_found : ToxErrFriendQuery

pub data ToxErrSetTyping : Type 0 where
  ok friend_not_found : ToxErrSetTyping

pub data ToxErrSendMessage : Type 0 where
  ok null friend_not_found friend_not_connected sendq too_long empty : ToxErrSendMessage

pub data ToxErrFileControl : Type 0 where
  ok friend_not_found friend_not_connected not_found not_paused denied already_paused :
      ToxErrFileControl

pub data ToxErrFileSend : Type 0 where
  ok null friend_not_found friend_not_connected name_empty name_too_long too_many : ToxErrFileSend

pub data ToxErrFileSendChunk : Type 0 where
  ok null friend_not_found friend_not_connected not_found too_large : ToxErrFileSendChunk

pub data ToxErrSendCustomPacket : Type 0 where
  ok null friend_not_found friend_not_connected invalid empty too_long sendq :
      ToxErrSendCustomPacket

pub data ToxErrGetPort : Type 0 where
  ok not_bound : ToxErrGetPort
