-- ===== src/Core/Api.antt =====
-- The old toxcore, which the code only calls: its functions are a parameter.
--
-- An int is its bit pattern, so -1 is `minus_one`. A function that takes a `Tox const *` returns no
-- new Tox. A buffer that the callee fills is part of the result.
use tox4j.Base.{ℕ, Bool, Option, List}
use tox4j.Core.Enums.{Bytes}

-- tox_proxy_type and Tox_Options of the old API.
pub data OldProxyType : Type 0 where
  none socks5 http : OldProxyType

pub record OldOptions : Type 0 where
  pub ipv6enabled : Bool
  pub udp_disabled : Bool
  pub proxy_type : OldProxyType
  pub proxy_address : Bytes
  pub proxy_port : ℕ

-- TOX_FILECONTROL_*; the callback's uint8_t may hold other values.
pub data OldFileControl : Type 0 where
  accept pause kill finished resume_broken : OldFileControl
  unknown : ℕ → OldFileControl

-- The callbacks that a new_Tox registers, and the calls that toxcore makes of them.
pub data CallbackKind : Type 0 where
  friend_request friend_message friend_action name_change status_message user_status typing_change
        read_receipt connection_status file_send_request file_control file_data :
      CallbackKind

pub data CoreCall : Type 0 where
  friend_request : Bytes → Bytes → ℕ → CoreCall
  friend_message : ℕ → Bytes → ℕ → CoreCall
  friend_action : ℕ → Bytes → ℕ → CoreCall
  name_change : ℕ → Bytes → ℕ → CoreCall
  status_message : ℕ → Bytes → ℕ → CoreCall
  user_status : ℕ → ℕ → CoreCall
  typing_change : ℕ → ℕ → CoreCall
  read_receipt : ℕ → ℕ → CoreCall
  connection_status : ℕ → ℕ → CoreCall
  file_send_request : ℕ → ℕ → ℕ → Bytes → ℕ → CoreCall
  file_control : ℕ → Bool → ℕ → OldFileControl → Bytes → ℕ → CoreCall
  file_data : ℕ → ℕ → Bytes → ℕ → CoreCall
  lossy_packet : ℕ → Bytes → ℕ → CoreCall
  lossless_packet : ℕ → Bytes → ℕ → CoreCall

-- What toxcore does inside `tox_do`: it calls back with the Tox as it stands then, and goes on with
-- the Tox that the callback leaves, until it returns.
pub data Activity (Tox : Type 0) : Type 0 where
  returns : Tox → Activity Tox
  calls : Tox → CoreCall → (Tox → Activity Tox) → Activity Tox

pub record ToxApi (Tox : Type 0) : Type 0 where
  pub tox_new : Option OldOptions → Option Tox
  pub proxy_address_size : ℕ
  pub tox_load : Tox → Bytes → ℕ → ℕ × Tox
  pub tox_callback : CallbackKind → Tox → Tox
  pub tox_size : Tox → ℕ
  pub tox_save : Tox → Bytes
  pub tox_bootstrap_from_address : Tox → Bytes → ℕ → Bytes → ℕ × Tox
  pub tox_add_tcp_relay : Tox → Bytes → ℕ → Bytes → ℕ × Tox
  pub tox_do_interval : Tox → ℕ
  pub tox_do : Tox → Activity Tox
  pub tox_isconnected : Tox → ℕ
  pub tox_get_address : Tox → Bytes
  pub tox_set_nospam : Tox → ℕ → Tox
  pub tox_get_nospam : Tox → ℕ
  pub tox_get_public_key : Tox → Bytes
  pub tox_get_secret_key : Tox → Bytes
  pub tox_set_name : Tox → Bytes → ℕ → ℕ × Tox
  pub tox_get_self_name_size : Tox → ℕ
  pub tox_get_self_name : Tox → Bytes
  pub tox_set_status_message : Tox → Bytes → ℕ → ℕ × Tox
  pub tox_get_self_status_message_size : Tox → ℕ
  pub tox_get_self_status_message : Tox → ℕ → Bytes
  pub tox_set_user_status : Tox → ℕ → Tox
  pub tox_get_self_user_status : Tox → ℕ
  pub tox_add_friend : Tox → Bytes → Bytes → ℕ → ℕ × Tox
  pub tox_add_friend_norequest : Tox → Bytes → ℕ × Tox
  pub faerr_toolong : ℕ
  pub faerr_nomessage : ℕ
  pub faerr_ownkey : ℕ
  pub faerr_alreadysent : ℕ
  pub faerr_badchecksum : ℕ
  pub faerr_setnewnospam : ℕ
  pub faerr_nomem : ℕ
  pub tox_lossy_packet_registerhandler : ℕ → ℕ → Tox → Tox
  pub tox_lossless_packet_registerhandler : ℕ → ℕ → Tox → Tox
  pub tox_count_friendlist : Tox → ℕ
  pub tox_get_friendlist : Tox → ℕ → List ℕ
  pub tox_del_friend : Tox → ℕ → ℕ × Tox
  pub tox_get_friend_number : Tox → Bytes → ℕ
  pub tox_get_client_id : Tox → ℕ → ℕ × Bytes
  pub tox_friend_exists : Tox → ℕ → ℕ
  pub tox_get_friend_connection_status : Tox → ℕ → ℕ
  pub tox_set_user_is_typing : Tox → ℕ → Bool → ℕ × Tox
  pub tox_send_message : Tox → ℕ → Bytes → ℕ → ℕ × Tox
  pub tox_send_action : Tox → ℕ → Bytes → ℕ → ℕ × Tox
  pub tox_new_file_sender : Tox → ℕ → ℕ → Option Bytes → ℕ → ℕ × Tox
  pub tox_file_send_control : Tox → ℕ → Bool → ℕ → OldFileControl → ℕ × Tox
  pub tox_file_data_size : Tox → ℕ → ℕ
  pub tox_file_send_data : Tox → ℕ → ℕ → Bytes → ℕ → ℕ × Tox
  pub tox_send_lossy_packet : Tox → ℕ → Option Bytes → ℕ → ℕ × Tox
  pub tox_send_lossless_packet : Tox → ℕ → Option Bytes → ℕ → ℕ × Tox
