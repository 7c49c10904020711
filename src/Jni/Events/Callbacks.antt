-- ===== src/Jni/Events/Callbacks.antt =====
-- ToxCore/lifecycle.cpp: the tox4j_*_cb functions, which add an event each, and their registration.
--
-- Each event is added at the end of its list.
use tox4j.Base.{ℕ, Bool, Option, none, some, [], ◌∷◌, ◌++◌, ◌==◌, if◌then◌else◌, take, u32}
use tox4j.Base.Effect.{M, ◌>>◌}
use tox4j.Core.Enums.{
  Bytes, ToxConnection, tox_public_key_size, tox_status_none, tox_status_away, tox_status_busy,
  tox_file_kind_data, tox_file_kind_avatar, tox_file_control_resume, tox_file_control_pause,
  tox_file_control_cancel,
}
use tox4j.Core.State.{Session}
use tox4j.Core.Setters.{
  new_tox_callback_connection_status, new_tox_callback_friend_name,
  new_tox_callback_friend_status_message, new_tox_callback_friend_status,
  new_tox_callback_friend_connection_status, new_tox_callback_friend_typing,
  new_tox_callback_read_receipt, new_tox_callback_friend_request, new_tox_callback_friend_message,
  new_tox_callback_friend_action, new_tox_callback_file_control,
  new_tox_callback_file_request_chunk, new_tox_callback_file_receive,
  new_tox_callback_file_receive_chunk, new_tox_callback_friend_lossy_packet,
  new_tox_callback_friend_lossless_packet,
}
use tox4j.Jni.Events.{Socket, ControlKind, FileKind, StatusKind, CoreEvents}

-- The switches on the enumerations.
unfoldable pub socket_of : ToxConnection → Socket
socket_of ToxConnection.none = Socket.none
socket_of ToxConnection.tcp4 = Socket.tcp4
socket_of ToxConnection.tcp6 = Socket.tcp6
socket_of ToxConnection.udp4 = Socket.udp4
socket_of ToxConnection.udp6 = Socket.udp6

unfoldable pub status_kind : ℕ → Option StatusKind
status_kind status =
    if status == tox_status_none
    then some StatusKind.none
    else if status == tox_status_away
    then some StatusKind.away
    else if status == tox_status_busy
    then some StatusKind.busy
    else none

unfoldable pub control_kind : ℕ → Option ControlKind
control_kind control =
    if control == tox_file_control_resume
    then some ControlKind.resume
    else if control == tox_file_control_pause
    then some ControlKind.pause
    else if control == tox_file_control_cancel
    then some ControlKind.cancel
    else none

unfoldable pub file_kind : ℕ → Option FileKind
file_kind kind =
    if kind == tox_file_kind_data
    then some FileKind.data_file
    else if kind == tox_file_kind_avatar
    then some FileKind.avatar
    else none

-- `set_name (name, length)`; a null pointer comes with the length 0.
abbrev pub taken : Option Bytes → ℕ → Bytes
taken none size = []
taken (some bytes) size = take size bytes

unfoldable pub tox4j_connection_status_cb : ToxConnection → CoreEvents → CoreEvents
tox4j_connection_status_cb connection_status events = record events {
  connection_status =
      events.connection_status ++ record { connection_status = socket_of connection_status } ∷ [];
}

unfoldable pub tox4j_friend_name_cb : ℕ → Option Bytes → ℕ → CoreEvents → CoreEvents
tox4j_friend_name_cb friend_number name size events = record events {
  friend_name =
      events.friend_name ++ record { friend_number = friend_number; name = taken name size } ∷ [];
}

unfoldable pub tox4j_friend_status_message_cb : ℕ → Option Bytes → ℕ → CoreEvents → CoreEvents
tox4j_friend_status_message_cb friend_number message size events = record events {
  friend_status_message =
      events.friend_status_message
      ++ record { friend_number = friend_number; message = taken message size } ∷ [];
}

unfoldable pub tox4j_friend_status_cb : ℕ → ℕ → CoreEvents → CoreEvents
tox4j_friend_status_cb friend_number status events = record events {
  friend_status =
      events.friend_status
      ++ record { friend_number = friend_number; status = status_kind status } ∷ [];
}

unfoldable pub tox4j_friend_connection_status_cb : ℕ → ToxConnection → CoreEvents → CoreEvents
tox4j_friend_connection_status_cb friend_number connection_status events = record events {
  friend_connection_status =
      events.friend_connection_status
      ++ record { friend_number = friend_number; connection_status = socket_of connection_status }
        ∷ [];
}

unfoldable pub tox4j_friend_typing_cb : ℕ → Bool → CoreEvents → CoreEvents
tox4j_friend_typing_cb friend_number is_typing events = record events {
  friend_typing =
      events.friend_typing ++ record { friend_number = friend_number; is_typing = is_typing } ∷ [];
}

unfoldable pub tox4j_read_receipt_cb : ℕ → ℕ → CoreEvents → CoreEvents
tox4j_read_receipt_cb friend_number message_id events = record events {
  read_receipt =
      events.read_receipt ++ record { friend_number = friend_number; message_id = message_id } ∷ [];
}

unfoldable pub tox4j_friend_request_cb : Bytes → Bytes → ℕ → CoreEvents → CoreEvents
tox4j_friend_request_cb public_key message size events = record events {
  friend_request =
      events.friend_request
      ++ record {
        public_key = take tox_public_key_size public_key;
        time_delta = 0;
        message = take size message;
      }
        ∷ [];
}

unfoldable pub tox4j_friend_message_cb : ℕ → Bytes → ℕ → CoreEvents → CoreEvents
tox4j_friend_message_cb friend_number message size events = record events {
  friend_message =
      events.friend_message
      ++ record { friend_number = friend_number; time_delta = 0; message = take size message } ∷ [];
}

unfoldable pub tox4j_friend_action_cb : ℕ → Bytes → ℕ → CoreEvents → CoreEvents
tox4j_friend_action_cb friend_number action size events = record events {
  friend_action =
      events.friend_action
      ++ record { friend_number = friend_number; time_delta = 0; action = take size action } ∷ [];
}

unfoldable pub tox4j_file_control_cb : ℕ → ℕ → ℕ → CoreEvents → CoreEvents
tox4j_file_control_cb friend_number file_number control events = record events {
  file_control =
      events.file_control
      ++ record {
        friend_number = friend_number;
        file_number = file_number;
        control = control_kind control;
      }
        ∷ [];
}

unfoldable pub tox4j_file_request_chunk_cb : ℕ → ℕ → ℕ → ℕ → CoreEvents → CoreEvents
tox4j_file_request_chunk_cb friend_number file_number position size events = record events {
  file_request_chunk =
      events.file_request_chunk
      ++ record {
        friend_number = friend_number;
        file_number = file_number;
        position = position;
        length = u32 size;
      }
        ∷ [];
}

unfoldable pub tox4j_file_receive_cb : ℕ → ℕ → ℕ → ℕ → Bytes → ℕ → CoreEvents → CoreEvents
tox4j_file_receive_cb friend_number file_number kind file_size filename size events =
    record events {
      file_receive =
          events.file_receive
          ++ record {
            friend_number = friend_number;
            file_number = file_number;
            kind = file_kind kind;
            file_size = file_size;
            filename = take size filename;
          }
            ∷ [];
    }

unfoldable pub tox4j_file_receive_chunk_cb : ℕ → ℕ → ℕ → Bytes → ℕ → CoreEvents → CoreEvents
tox4j_file_receive_chunk_cb friend_number file_number position bytes size events = record events {
  file_receive_chunk =
      events.file_receive_chunk
      ++ record {
        friend_number = friend_number;
        file_number = file_number;
        position = position;
        bytes = take size bytes;
      }
        ∷ [];
}

unfoldable pub tox4j_friend_lossy_packet_cb : ℕ → Bytes → ℕ → CoreEvents → CoreEvents
tox4j_friend_lossy_packet_cb friend_number bytes size events = record events {
  friend_lossy_packet =
      events.friend_lossy_packet
      ++ record { friend_number = friend_number; bytes = take size bytes } ∷ [];
}

unfoldable pub tox4j_friend_lossless_packet_cb : ℕ → Bytes → ℕ → CoreEvents → CoreEvents
tox4j_friend_lossless_packet_cb friend_number bytes size events = record events {
  friend_lossless_packet =
      events.friend_lossless_packet
      ++ record { friend_number = friend_number; bytes = take size bytes } ∷ [];
}

-- The calls of tox_callback_* in toxNew, with the new events object.
unfoldable pub set_up_callbacks : {Tox : Type 0} → M (Session Tox CoreEvents) (Unit {0})
unfolding new_tox_callback_connection_status new_tox_callback_friend_name
    new_tox_callback_friend_status_message new_tox_callback_friend_status
    new_tox_callback_friend_connection_status new_tox_callback_friend_typing
    new_tox_callback_read_receipt new_tox_callback_friend_request new_tox_callback_friend_message
    new_tox_callback_friend_action new_tox_callback_file_control new_tox_callback_file_request_chunk
    new_tox_callback_file_receive new_tox_callback_file_receive_chunk
    new_tox_callback_friend_lossy_packet new_tox_callback_friend_lossless_packet
set_up_callbacks =
    new_tox_callback_connection_status tox4j_connection_status_cb
    >> new_tox_callback_friend_name tox4j_friend_name_cb
    >> new_tox_callback_friend_status_message tox4j_friend_status_message_cb
    >> new_tox_callback_friend_status tox4j_friend_status_cb
    >> new_tox_callback_friend_connection_status tox4j_friend_connection_status_cb
    >> new_tox_callback_friend_typing tox4j_friend_typing_cb
    >> new_tox_callback_read_receipt tox4j_read_receipt_cb
    >> new_tox_callback_friend_request tox4j_friend_request_cb
    >> new_tox_callback_friend_message tox4j_friend_message_cb
    >> new_tox_callback_friend_action tox4j_friend_action_cb
    >> new_tox_callback_file_control tox4j_file_control_cb
    >> new_tox_callback_file_request_chunk tox4j_file_request_chunk_cb
    >> new_tox_callback_file_receive tox4j_file_receive_cb
    >> new_tox_callback_file_receive_chunk tox4j_file_receive_chunk_cb
    >> new_tox_callback_friend_lossy_packet tox4j_friend_lossy_packet_cb
    >> new_tox_callback_friend_lossless_packet tox4j_friend_lossless_packet_cb
