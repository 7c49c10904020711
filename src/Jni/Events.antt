-- ===== src/Jni/Events.antt =====
-- protobuf/Core.proto: the events that an iteration hands to Java.
--
-- A required field of an enumeration is an Option: a switch that names no value leaves it unset.
pub mod Callbacks
pub mod Registered
pub mod Served
use tox4j.Base.{ℕ, Bool, Option, List, []}
use tox4j.Core.Enums.{Bytes}

pub data Socket : Type 0 where
  none tcp4 tcp6 udp4 udp6 : Socket

pub data ControlKind : Type 0 where
  resume pause cancel : ControlKind

pub data FileKind : Type 0 where
  data_file avatar : FileKind

pub data StatusKind : Type 0 where
  none away busy : StatusKind

pub record ConnectionStatus : Type 0 where
  pub connection_status : Socket

pub record FileControl : Type 0 where
  pub friend_number : ℕ
  pub file_number : ℕ
  pub control : Option ControlKind

pub record FileReceive : Type 0 where
  pub friend_number : ℕ
  pub file_number : ℕ
  pub kind : Option FileKind
  pub file_size : ℕ
  pub filename : Bytes

pub record FileReceiveChunk : Type 0 where
  pub friend_number : ℕ
  pub file_number : ℕ
  pub position : ℕ
  pub bytes : Bytes

pub record FileRequestChunk : Type 0 where
  pub friend_number : ℕ
  pub file_number : ℕ
  pub position : ℕ
  pub length : ℕ

pub record FriendAction : Type 0 where
  pub friend_number : ℕ
  pub time_delta : ℕ
  pub action : Bytes

pub record FriendConnectionStatus : Type 0 where
  pub friend_number : ℕ
  pub connection_status : Socket

pub record FriendMessage : Type 0 where
  pub friend_number : ℕ
  pub time_delta : ℕ
  pub message : Bytes

pub record FriendName : Type 0 where
  pub friend_number : ℕ
  pub name : Bytes

pub record FriendRequest : Type 0 where
  pub public_key : Bytes
  pub time_delta : ℕ
  pub message : Bytes

pub record FriendStatus : Type 0 where
  pub friend_number : ℕ
  pub status : Option StatusKind

pub record FriendStatusMessage : Type 0 where
  pub friend_number : ℕ
  pub message : Bytes

pub record FriendTyping : Type 0 where
  pub friend_number : ℕ
  pub is_typing : Bool

pub record FriendLosslessPacket : Type 0 where
  pub friend_number : ℕ
  pub bytes : Bytes

pub record FriendLossyPacket : Type 0 where
  pub friend_number : ℕ
  pub bytes : Bytes

pub record ReadReceipt : Type 0 where
  pub friend_number : ℕ
  pub message_id : ℕ

pub record CoreEvents : Type 0 where
  pub connection_status : List ConnectionStatus
  pub file_control : List FileControl
  pub file_receive : List FileReceive
  pub file_receive_chunk : List FileReceiveChunk
  pub file_request_chunk : List FileRequestChunk
  pub friend_action : List FriendAction
  pub friend_connection_status : List FriendConnectionStatus
  pub friend_message : List FriendMessage
  pub friend_name : List FriendName
  pub friend_request : List FriendRequest
  pub friend_status : List FriendStatus
  pub friend_status_message : List FriendStatusMessage
  pub friend_typing : List FriendTyping
  pub friend_lossless_packet : List FriendLosslessPacket
  pub friend_lossy_packet : List FriendLossyPacket
  pub read_receipt : List ReadReceipt

-- A new object, and what Clear leaves.
unfoldable pub no_events : CoreEvents
no_events = record {
  connection_status = [];
  file_control = [];
  file_receive = [];
  file_receive_chunk = [];
  file_request_chunk = [];
  friend_action = [];
  friend_connection_status = [];
  friend_message = [];
  friend_name = [];
  friend_request = [];
  friend_status = [];
  friend_status_message = [];
  friend_typing = [];
  friend_lossless_packet = [];
  friend_lossy_packet = [];
  read_receipt = [];
}
