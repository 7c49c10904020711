-- ===== src/Tests.antt =====
-- A small toxcore, in which a Tox is the bytes of the own name, and states to try the theorems on.
mod Instances
mod Methods
mod Files
mod Delivery
mod Client
mod Calls
mod Sessions
mod Locks
use tox4j.Base.{true, false, some, [], ◌∷◌, length, minus_one, ◌==◌, if◌then◌else◌}
use tox4j.Core.Enums.{Bytes}
use tox4j.Core.Api.{ToxApi, CoreCall, OldFileControl, Activity}
use tox4j.Core.State.{PauseReason, TransferState, FileTransfer, NewTox, Session, Transfers}
use tox4j.Jni.Events.{CoreEvents, no_events}
use tox4j.Jni.Events.Registered.{all_callbacks}

-- Friend 1 exists and is connected. Each `tox_do` brings the friend's ACCEPT for the file 0 that it
-- is sent.
abbrev pub api : ToxApi Bytes
api = record {
  tox_new = λ o. some (120 ∷ []);
  proxy_address_size = 256;
  tox_load = λ t b n. if n == 1 then (minus_one, t) else (0, b);
  tox_callback = λ k t. t;
  tox_size = length;
  tox_save = λ t. t;
  tox_bootstrap_from_address = λ t a p k. (1, t);
  tox_add_tcp_relay = λ t a p k. (1, t);
  tox_do_interval = λ t. 50;
  tox_do = λ t.
      Activity.calls t (CoreCall.file_control 1 true 0 OldFileControl.accept [] 0)
        (λ u. Activity.returns u);
  tox_isconnected = λ t. 1;
  tox_get_address = λ t. [];
  tox_set_nospam = λ t n. t;
  tox_get_nospam = λ t. 0;
  tox_get_public_key = λ t. [];
  tox_get_secret_key = λ t. [];
  tox_set_name = λ t b n. (0, b);
  tox_get_self_name_size = length;
  tox_get_self_name = λ t. t;
  tox_set_status_message = λ t b n. (0, t);
  tox_get_self_status_message_size = λ t. 0;
  tox_get_self_status_message = λ t n. [];
  tox_set_user_status = λ t n. t;
  tox_get_self_user_status = λ t. 0;
  tox_add_friend = λ t a m n. (2, t);
  tox_add_friend_norequest = λ t k. (2, t);
  faerr_toolong = 0xffff_ffff;
  faerr_nomessage = 0xffff_fffe;
  faerr_ownkey = 0xffff_fffd;
  faerr_alreadysent = 0xffff_fffc;
  faerr_badchecksum = 0xffff_fffa;
  faerr_setnewnospam = 0xffff_fff9;
  faerr_nomem = 0xffff_fff8;
  tox_lossy_packet_registerhandler = λ f b t. t;
  tox_lossless_packet_registerhandler = λ f b t. t;
  tox_count_friendlist = λ t. 1;
  tox_get_friendlist = λ t n. 1 ∷ [];
  tox_del_friend = λ t f. if f == 1 then (0, t) else (minus_one, t);
  tox_get_friend_number = λ t k. 1;
  tox_get_client_id = λ t f. (0, []);
  tox_friend_exists = λ t f. if f == 1 then 1 else 0;
  tox_get_friend_connection_status = λ t f. 1;
  tox_set_user_is_typing = λ t f b. (0, t);
  tox_send_message = λ t f b n. (17, t);
  tox_send_action = λ t f b n. (18, t);
  tox_new_file_sender = λ t f n name k. (0, t);
  tox_file_send_control = λ t f r n c. (0, t);
  tox_file_data_size = λ t f. 4;
  tox_file_send_data = λ t f n b k. (0, t);
  tox_send_lossy_packet = λ t f b n. (0, t);
  tox_send_lossless_packet = λ t f b n. (0, t);
}

abbrev pub garbage : PauseReason
garbage = PauseReason.initial

-- A running transfer of ten bytes, of which two have been moved.
abbrev pub ten_bytes : FileTransfer
ten_bytes = record {
  cause = garbage;
  state = TransferState.running;
  position = 2;
  file_size = 10;
  event_pending = false;
  size_requested = 0;
}

abbrev pub new_tox : Transfers → NewTox Bytes CoreEvents
new_tox transfers = record {
  tox = 120 ∷ [];
  connected = false;
  has_av = false;
  transfers = transfers;
  callbacks = all_callbacks;
}

abbrev pub session : Transfers → Session Bytes CoreEvents
session transfers = record { new_tox = new_tox transfers; user_data = no_events }
