-- ===== src/Jni/Events/Registered.antt =====
-- The callbacks that toxNew registers are all that toxcore's calls and an iteration need.
use tox4j.Base.{some, ◌≡◌, refl}
use tox4j.Base.Effect.{ok}
use tox4j.Core.State.{NewTox, Session, Callbacks}
use tox4j.Core.Handlers.Told.{IsRegistered}
use tox4j.Jni.Events.{CoreEvents}
use tox4j.Jni.Events.Callbacks.{
  set_up_callbacks, tox4j_connection_status_cb, tox4j_friend_name_cb,
  tox4j_friend_status_message_cb, tox4j_friend_status_cb, tox4j_friend_connection_status_cb,
  tox4j_friend_typing_cb, tox4j_read_receipt_cb, tox4j_friend_request_cb, tox4j_friend_message_cb,
  tox4j_friend_action_cb, tox4j_file_control_cb, tox4j_file_request_chunk_cb, tox4j_file_receive_cb,
  tox4j_file_receive_chunk_cb, tox4j_friend_lossy_packet_cb, tox4j_friend_lossless_packet_cb,
}

-- Each event has its callback.
abbrev pub all_callbacks : Callbacks CoreEvents
all_callbacks = record {
  connection_status = some tox4j_connection_status_cb;
  friend_name = some tox4j_friend_name_cb;
  friend_status_message = some tox4j_friend_status_message_cb;
  friend_status = some tox4j_friend_status_cb;
  friend_connection_status = some tox4j_friend_connection_status_cb;
  friend_typing = some tox4j_friend_typing_cb;
  read_receipt = some tox4j_read_receipt_cb;
  friend_request = some tox4j_friend_request_cb;
  friend_message = some tox4j_friend_message_cb;
  friend_action = some tox4j_friend_action_cb;
  file_control = some tox4j_file_control_cb;
  file_request_chunk = some tox4j_file_request_chunk_cb;
  file_receive = some tox4j_file_receive_cb;
  file_receive_chunk = some tox4j_file_receive_chunk_cb;
  friend_lossy_packet = some tox4j_friend_lossy_packet_cb;
  friend_lossless_packet = some tox4j_friend_lossless_packet_cb;
}

abbrev pub equipped : {Tox : Type 0} → NewTox Tox CoreEvents → NewTox Tox CoreEvents
equipped x = record x { callbacks = all_callbacks }

pub all_callbacks-IsRegistered : IsRegistered all_callbacks
all_callbacks-IsRegistered = record {
  connection_status = λ e. cc;
  friend_name = λ e. cc;
  friend_status_message = λ e. cc;
  friend_status = λ e. cc;
  friend_connection_status = λ e. cc;
  friend_typing = λ e. cc;
  read_receipt = λ e. cc;
  friend_request = λ e. cc;
  friend_message = λ e. cc;
  friend_action = λ e. cc;
  file_control = λ e. cc;
  file_request_chunk = λ e. cc;
  file_receive = λ e. cc;
  file_receive_chunk = λ e. cc;
  friend_lossy_packet = λ e. cc;
  friend_lossless_packet = λ e. cc;
}

-- toxNew's calls of tox_callback_* set each callback to the function for its event, so that none is
-- missing, and change nothing else.
pub set_up_callbacks_lem :
    {Tox : Type 0} (s : Session Tox CoreEvents)
    → (set_up_callbacks s ≡ ok (tt, record s { new_tox = equipped s.new_tox }))
      × IsRegistered (equipped s.new_tox).callbacks
unfolding set_up_callbacks
set_up_callbacks_lem s = (refl, all_callbacks-IsRegistered)
