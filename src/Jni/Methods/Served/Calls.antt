-- ===== src/Jni/Methods/Served/Calls.antt =====
-- No native method on an instance calls a missing callback or reads through a null pointer.
use tox4j.Base.{ℕ, some, u16}
use tox4j.Base.Effect.{Outcome, ok, fault, M, ◌>>=◌, pure}
use tox4j.Core.Api.{ToxApi}
use tox4j.Jni.Instances.Invariant.{IsConsistent}
use tox4j.Jni.Methods.{Table, on_session, with_error_handling, same, filled}
use tox4j.Jni.Methods.Traffic.{
  tox_self_set_typing, tox_send_message, tox_send_action, tox_send_lossy_packet,
  tox_send_lossless_packet, tox_file_control, tox_file_send, tox_file_send_chunk,
}
use tox4j.Jni.Methods.Friends.{
  tox_friend_delete, tox_friend_get_public_key, tox_friend_exists, tox_friend_list,
}
use tox4j.Jni.Methods.Connection.{
  tox_bootstrap, tox_add_tcp_relay, tox_get_udp_port, tox_get_tcp_port, tox_get_dht_id,
  tox_iteration_interval,
}
use tox4j.Jni.Methods.ClientInfo.{
  tox_self_set_name, tox_self_set_status_message, tox_self_set_status, tox_self_set_nospam,
  tox_self_get_public_key, tox_self_get_secret_key, tox_self_get_address, tox_self_get_nospam,
  tox_self_get_status, tox_self_get_name, tox_self_get_status_message, read_fixed, read_sized,
}
use tox4j.Jni.Methods.Creation.{tox_save}
use tox4j.Jni.Methods.Served.{
  AllRegistered, IsServed, on_session-IsKeeping, with_error_handling-IsKeeping,
  with_instance-IsServed, IsServing,
}
use tox4j.Jni.Methods.Served.Functions.{
  self_set_typing-IsServing, send_message-IsServing, send_action-IsServing,
  send_lossy_packet-IsServing, send_lossless_packet-IsServing, file_control-IsServing,
  file_send-IsServing, file_send_chunk-IsServing, friend_delete-IsServing, friend_exists-IsServing,
  self_set_name-IsServing, self_set_status_message-IsServing, self_set_status-IsServing,
  self_set_nospam-IsServing, bootstrap-IsServing, add_tcp_relay-IsServing,
}
use tox4j.Jni.Methods.Served.Readers.{
  get_udp_port-IsServing, get_tcp_port-IsServing, get_dht_id-IsServing,
  iteration_interval-IsServing, self_get_public_key-IsServing, self_get_secret_key-IsServing,
  self_get_address-IsServing, self_get_nospam-IsServing, self_get_status-IsServing,
  self_get_name-IsServing, self_get_status_message-IsServing, friend_get_public_key-IsServing,
  friend_list-IsServing, save-IsServing,
}
use tox4j.Jni.Methods.Served.Requests.{
  Method, self_set_typing, send_message, send_action, send_lossy_packet, send_lossless_packet,
  file_control, file_send, file_send_chunk, friend_add, friend_add_norequest, friend_delete,
  friend_by_public_key, friend_exists, self_set_name, self_set_status_message, self_set_status,
  self_set_nospam, bootstrap, add_tcp_relay, get_udp_port, get_tcp_port, get_dht_id,
  iteration_interval, self_get_public_key, self_get_secret_key, self_get_address, self_get_nospam,
  self_get_status, self_get_name, self_get_status_message, friend_get_public_key, friend_list, save,
  method_step,
}
use tox4j.Jni.Methods.Served.Checked.{
  tox_friend_add-IsServed, tox_friend_add_norequest-IsServed, tox_friend_by_public_key-IsServed,
  bootstrap_like-IsServed,
}
use tox4j.Core.Enums.{ToxErrGetPort, tox_public_key_size, tox_secret_key_size, tox_address_size}
use tox4j.Core.State.{Session}
use tox4j.Core.Friends.{new_tox_friend_list_size, new_tox_friend_list}
use tox4j.Core.Files.{new_tox_friend_exists}
use tox4j.Core.Iteration.{new_tox_iteration_interval}
use tox4j.Core.Self.{
  new_tox_get_dht_id, new_tox_self_get_public_key, new_tox_self_get_secret_key,
  new_tox_self_get_address, new_tox_self_get_nospam, new_tox_self_get_status,
  new_tox_self_get_name_size, new_tox_self_get_name, new_tox_self_get_status_message_size,
  new_tox_self_get_status_message, new_tox_self_set_status, new_tox_self_set_nospam,
}
use tox4j.Core.Lifecycle.{
  new_tox_get_udp_port, new_tox_get_tcp_port, new_tox_save_size, new_tox_save, new_tox_bootstrap,
  new_tox_add_tcp_relay,
}
use tox4j.Jni.Calls.{with_instance}
use tox4j.Jni.Events.{CoreEvents}
use tox4j.Jni.Errors.{handle_get_port_error}
use tox4j.Jni.Errors.Numbers.{number_of_get_port}

module _ {Tox : Type 0} where
  pub dropped-IsServed :
      {A : Type 0} (o : Outcome (A × Table Tox))
      → IsServed o
      → IsServed (elim o [ fault x ↦ fault x | ok (a, t) ↦ ok (tt, t) ])
  dropped-IsServed (fault x) p = p
  dropped-IsServed (ok (a, t)) p = p

  asking-IsServed :
      {A : Type 0} (default : A) (i : ℕ) (func : M (Session Tox CoreEvents) A) (s : Table Tox)
      → IsServing func
      → IsConsistent s
      → AllRegistered s
      → IsServed ((with_instance default i (on_session func) >>= λ _. pure {S = Table Tox} tt) s)
  asking-IsServed default i func s f c r =
      dropped-IsServed _ (with_instance-IsServed default i _ s (on_session-IsKeeping func f) c r)

  port-IsServed :
      (i : ℕ) (func : M (Session Tox CoreEvents) (ℕ × ToxErrGetPort)) (s : Table Tox)
      → IsServing func
      → IsConsistent s
      → AllRegistered s
      → IsServed (
          (with_instance 0 i
                (with_error_handling "GetPort" handle_get_port_error number_of_get_port same func)
              >>= λ _. pure {S = Table Tox} tt)
            s)
  port-IsServed i func s f c r = dropped-IsServed _ (
      with_instance-IsServed 0 i _ s
        (with_error_handling-IsKeeping "GetPort" handle_get_port_error number_of_get_port same func
          f)
        c r)

module _ {Tox : Type 0} (api : ToxApi Tox) where
  pub method-IsServed :
      (i : ℕ) (method : Method) (s : Table Tox)
      → IsConsistent s
      → AllRegistered s
      → IsServed (method_step api i method s)
  unfolding method_step tox_self_set_typing tox_send_message tox_send_action tox_send_lossy_packet
      tox_send_lossless_packet tox_file_control tox_file_send tox_file_send_chunk tox_friend_delete
      tox_friend_exists tox_self_set_name tox_self_set_status_message tox_self_set_status
      tox_self_set_nospam tox_bootstrap tox_add_tcp_relay tox_get_udp_port tox_get_tcp_port
      tox_get_dht_id tox_iteration_interval tox_self_get_public_key tox_self_get_secret_key
      tox_self_get_address tox_self_get_nospam tox_self_get_status tox_self_get_name
      tox_self_get_status_message tox_friend_get_public_key tox_friend_list tox_save
  method-IsServed i (self_set_typing f b) s c r = dropped-IsServed _ (
      with_instance-IsServed _ i _ s
        (with_error_handling-IsKeeping _ _ _ _ _ (self_set_typing-IsServing api f b)) c r)
  method-IsServed i (send_message f m) s c r = dropped-IsServed _ (
      with_instance-IsServed _ i _ s
        (with_error_handling-IsKeeping _ _ _ _ _ (send_message-IsServing api f m)) c r)
  method-IsServed i (send_action f m) s c r = dropped-IsServed _ (
      with_instance-IsServed _ i _ s
        (with_error_handling-IsKeeping _ _ _ _ _ (send_action-IsServing api f m)) c r)
  method-IsServed i (send_lossy_packet f m) s c r = dropped-IsServed _ (
      with_instance-IsServed _ i _ s
        (with_error_handling-IsKeeping _ _ _ _ _ (send_lossy_packet-IsServing api f m)) c r)
  method-IsServed i (send_lossless_packet f m) s c r = dropped-IsServed _ (
      with_instance-IsServed _ i _ s
        (with_error_handling-IsKeeping _ _ _ _ _ (send_lossless_packet-IsServing api f m)) c r)
  method-IsServed i (file_control f n z) s c r = dropped-IsServed _ (
      with_instance-IsServed _ i _ s
        (with_error_handling-IsKeeping _ _ _ _ _ (file_control-IsServing api f n z)) c r)
  method-IsServed i (file_send g f k z m) s c r = dropped-IsServed _ (
      with_instance-IsServed _ i _ s
        (with_error_handling-IsKeeping _ _ _ _ _ (file_send-IsServing api g f k z m)) c r)
  method-IsServed i (file_send_chunk f n m) s c r = dropped-IsServed _ (
      with_instance-IsServed _ i _ s
        (with_error_handling-IsKeeping _ _ _ _ _ (file_send_chunk-IsServing api f n m)) c r)
  method-IsServed i (friend_add a m) s c r =
      dropped-IsServed _ (tox_friend_add-IsServed api i a m s c r)
  method-IsServed i (friend_add_norequest k) s c r =
      dropped-IsServed _ (tox_friend_add_norequest-IsServed api i k s c r)
  method-IsServed i (friend_delete f) s c r = dropped-IsServed _ (
      with_instance-IsServed _ i _ s
        (with_error_handling-IsKeeping _ _ _ _ _ (friend_delete-IsServing api f)) c r)
  method-IsServed i (friend_by_public_key k) s c r =
      dropped-IsServed _ (tox_friend_by_public_key-IsServed api i k s c r)
  method-IsServed i (friend_exists f) s c r =
      asking-IsServed _ i (new_tox_friend_exists api f) s (friend_exists-IsServing api f) c r
  method-IsServed i (self_set_name m) s c r = dropped-IsServed _ (
      with_instance-IsServed _ i _ s
        (with_error_handling-IsKeeping _ _ _ _ _ (self_set_name-IsServing api m)) c r)
  method-IsServed i (self_set_status_message m) s c r = dropped-IsServed _ (
      with_instance-IsServed _ i _ s
        (with_error_handling-IsKeeping _ _ _ _ _ (self_set_status_message-IsServing api m)) c r)
  method-IsServed i (self_set_status n) s c r =
      asking-IsServed _ i (new_tox_self_set_status api n) s (self_set_status-IsServing api n) c r
  method-IsServed i (self_set_nospam n) s c r =
      asking-IsServed _ i (new_tox_self_set_nospam api n) s (self_set_nospam-IsServing api n) c r
  method-IsServed i (bootstrap a p k) s c r = dropped-IsServed _ (
      bootstrap_like-IsServed (new_tox_bootstrap api) i a p k s
        (bootstrap-IsServing api a (u16 p) k) c r)
  method-IsServed i (add_tcp_relay a p k) s c r = dropped-IsServed _ (
      bootstrap_like-IsServed (new_tox_add_tcp_relay api) i a p k s
        (add_tcp_relay-IsServing api a (u16 p) k) c r)
  method-IsServed i get_udp_port s c r =
      port-IsServed i new_tox_get_udp_port s (get_udp_port-IsServing api) c r
  method-IsServed i get_tcp_port s c r =
      port-IsServed i new_tox_get_tcp_port s (get_tcp_port-IsServing api) c r
  method-IsServed i get_dht_id s c r =
      asking-IsServed _ i (read_fixed tox_public_key_size (new_tox_get_dht_id api)) s
        (get_dht_id-IsServing api) c r
  method-IsServed i iteration_interval s c r =
      asking-IsServed _ i (new_tox_iteration_interval api) s (iteration_interval-IsServing api) c r
  method-IsServed i self_get_public_key s c r =
      asking-IsServed _ i (read_fixed tox_public_key_size (new_tox_self_get_public_key api)) s
        (self_get_public_key-IsServing api) c r
  method-IsServed i self_get_secret_key s c r =
      asking-IsServed _ i (read_fixed tox_secret_key_size (new_tox_self_get_secret_key api)) s
        (self_get_secret_key-IsServing api) c r
  method-IsServed i self_get_address s c r =
      asking-IsServed _ i (read_fixed tox_address_size (new_tox_self_get_address api)) s
        (self_get_address-IsServing api) c r
  method-IsServed i self_get_nospam s c r =
      asking-IsServed _ i (new_tox_self_get_nospam api) s (self_get_nospam-IsServing api) c r
  method-IsServed i self_get_status s c r =
      asking-IsServed _ i (new_tox_self_get_status api) s (self_get_status-IsServing api) c r
  method-IsServed i self_get_name s c r =
      asking-IsServed _ i (read_sized (new_tox_self_get_name_size api) (new_tox_self_get_name api))
        s (self_get_name-IsServing api) c r
  method-IsServed i self_get_status_message s c r =
      asking-IsServed _ i
        (read_sized (new_tox_self_get_status_message_size api)
          (new_tox_self_get_status_message api))
        s (self_get_status_message-IsServing api) c r
  method-IsServed i (friend_get_public_key f) s c r = dropped-IsServed _ (
      with_instance-IsServed _ i _ s
        (with_error_handling-IsKeeping _ _ _ _ _ (friend_get_public_key-IsServing api f)) c r)
  method-IsServed i friend_list s c r =
      asking-IsServed _ i
        (new_tox_friend_list_size api >>= λ size.
          new_tox_friend_list api >>= λ list. pure (some (filled size (some list))))
        s (friend_list-IsServing api) c r
  method-IsServed i save s c r =
      asking-IsServed _ i
        (new_tox_save_size api >>= λ size.
          new_tox_save api >>= λ bytes. pure (some (filled size (some bytes))))
        s (save-IsServing api) c r
