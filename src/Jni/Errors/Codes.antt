-- ===== src/Jni/Errors/Codes.antt =====
-- Each error code of the API is reported, and under a name of its own.
use Prim.Native.Nat.{Ordering}
use Prim.Native.String.{compare}
use tox4j.Base.{
  Bool, true, false, List, [], ◌∷◌, ◌≡◌, ◌≢◌, ◌↔◌, ◌∙◌, arith, refl, sym, ap, if◌then◌else◌,
}
use tox4j.Core.Enums.{
  ToxErrNew, ToxErrBootstrap, ToxErrGetPort, ToxErrSetInfo, ToxErrFriendAdd, ToxErrFriendDelete,
  ToxErrFriendByPublicKey, ToxErrFriendGetPublicKey, ToxErrSetTyping, ToxErrSendMessage,
  ToxErrFileControl, ToxErrFileSend, ToxErrFileSendChunk, ToxErrSendCustomPacket,
}
use tox4j.Jni.Exceptions.{ErrorHandling, success, failure, unhandled}
use tox4j.Jni.Errors.{
  handle_new_error, handle_bootstrap_error, handle_get_port_error, handle_set_info_error,
  handle_tox_friend_add_result, handle_friend_delete_error, handle_friend_by_public_key_error,
  handle_friend_get_public_key_error, handle_set_typing_error, handle_send_message_error,
  handle_file_control_error, handle_file_send_error, handle_file_send_chunk_error,
  handle_send_custom_packet_error,
}

-- What a reader of the report takes it for: the first code that is reported so.
abbrev pub same : ErrorHandling → ErrorHandling → Bool
same (failure s) (failure t) = elim (compare s t) [ Ordering.eq ↦ true | _ ↦ false ]
same success success = true
same _ _ = false

abbrev pub read_as : {E : Type 0} → E → (E → ErrorHandling) → List E → ErrorHandling → E
read_as ok handle [] h = ok
read_as ok handle (e ∷ es) h = if same (handle e) h then e else read_as ok handle es h

abbrev pub ReadsBack : {E : Type 0} → E → (E → ErrorHandling) → List E → E → Type 0
ReadsBack ok handle codes e = read_as ok handle codes (handle e) ≡ e

-- OK alone is a success, no code is unhandled, and distinct codes have distinct reports.
abbrev pub IsFaithful : {E : Type 0} → E → (E → ErrorHandling) → Type 0
IsFaithful {E} ok handle =
    ((e : E) → (handle e ≡ success) ↔ (e ≡ ok))
    × ((e : E) → handle e ≢ unhandled)
    × ((e f : E) → handle e ≡ handle f → e ≡ f)

pub faithful :
    {E : Type 0} (ok : E) (handle : E → ErrorHandling) (codes : List E)
    → handle ok ≡ success
    → ((e : E) → handle e ≢ unhandled)
    → ((e : E) → ReadsBack ok handle codes e)
    → IsFaithful ok handle
faithful ok handle codes o u r =
    let distinct : (e f : _) → handle e ≡ handle f → e ≡ f =
      λ e f p. sym (r e) ∙ (ap (read_as ok handle codes) p ∙ r f) in
    ((λ e. ((λ p. distinct e ok (p ∙ sym o)), (λ p. ap handle p ∙ o))), u, distinct)

handle_new_error-IsFaithful : IsFaithful ToxErrNew.ok handle_new_error
unfolding handle_new_error
handle_new_error-IsFaithful =
    let codes : List ToxErrNew =
      ToxErrNew.ok ∷ ToxErrNew.null ∷ ToxErrNew.malloc ∷ ToxErrNew.port_alloc
      ∷ ToxErrNew.proxy_bad_host ∷ ToxErrNew.proxy_bad_port ∷ ToxErrNew.proxy_not_found
      ∷ ToxErrNew.load_encrypted ∷ ToxErrNew.load_bad_format ∷ [] in
    faithful ToxErrNew.ok handle_new_error codes refl (λ e. ground arith)
      (λ e. elim e as (ReadsBack ToxErrNew.ok handle_new_error codes) [
        | ToxErrNew.ok ↦ refl
        | ToxErrNew.null ↦ refl
        | ToxErrNew.malloc ↦ refl
        | ToxErrNew.port_alloc ↦ refl
        | ToxErrNew.proxy_bad_host ↦ refl
        | ToxErrNew.proxy_bad_port ↦ refl
        | ToxErrNew.proxy_not_found ↦ refl
        | ToxErrNew.load_encrypted ↦ refl
        | ToxErrNew.load_bad_format ↦ refl
      ])

handle_bootstrap_error-IsFaithful : IsFaithful ToxErrBootstrap.ok handle_bootstrap_error
unfolding handle_bootstrap_error
handle_bootstrap_error-IsFaithful =
    let codes : List ToxErrBootstrap =
      ToxErrBootstrap.ok ∷ ToxErrBootstrap.null ∷ ToxErrBootstrap.bad_address
      ∷ ToxErrBootstrap.bad_port ∷ [] in
    faithful ToxErrBootstrap.ok handle_bootstrap_error codes refl (λ e. ground arith)
      (λ e. elim e as (ReadsBack ToxErrBootstrap.ok handle_bootstrap_error codes) [
        | ToxErrBootstrap.ok ↦ refl
        | ToxErrBootstrap.null ↦ refl
        | ToxErrBootstrap.bad_address ↦ refl
        | ToxErrBootstrap.bad_port ↦ refl
      ])

handle_get_port_error-IsFaithful : IsFaithful ToxErrGetPort.ok handle_get_port_error
unfolding handle_get_port_error
handle_get_port_error-IsFaithful =
    let codes : List ToxErrGetPort = ToxErrGetPort.ok ∷ ToxErrGetPort.not_bound ∷ [] in
    faithful ToxErrGetPort.ok handle_get_port_error codes refl (λ e. ground arith)
      (λ e. elim e as (ReadsBack ToxErrGetPort.ok handle_get_port_error codes) [
        | ToxErrGetPort.ok ↦ refl
        | ToxErrGetPort.not_bound ↦ refl
      ])

handle_set_info_error-IsFaithful : IsFaithful ToxErrSetInfo.ok handle_set_info_error
unfolding handle_set_info_error
handle_set_info_error-IsFaithful =
    let codes : List ToxErrSetInfo =
      ToxErrSetInfo.ok ∷ ToxErrSetInfo.null ∷ ToxErrSetInfo.too_long ∷ [] in
    faithful ToxErrSetInfo.ok handle_set_info_error codes refl (λ e. ground arith)
      (λ e. elim e as (ReadsBack ToxErrSetInfo.ok handle_set_info_error codes) [
        | ToxErrSetInfo.ok ↦ refl
        | ToxErrSetInfo.null ↦ refl
        | ToxErrSetInfo.too_long ↦ refl
      ])

handle_tox_friend_add_result-IsFaithful : IsFaithful ToxErrFriendAdd.ok handle_tox_friend_add_result
unfolding handle_tox_friend_add_result
handle_tox_friend_add_result-IsFaithful =
    let codes : List ToxErrFriendAdd =
      ToxErrFriendAdd.ok ∷ ToxErrFriendAdd.null ∷ ToxErrFriendAdd.too_long
      ∷ ToxErrFriendAdd.no_message ∷ ToxErrFriendAdd.own_key ∷ ToxErrFriendAdd.already_sent
      ∷ ToxErrFriendAdd.bad_checksum ∷ ToxErrFriendAdd.set_new_nospam ∷ ToxErrFriendAdd.malloc
      ∷ [] in
    faithful ToxErrFriendAdd.ok handle_tox_friend_add_result codes refl (λ e. ground arith)
      (λ e. elim e as (ReadsBack ToxErrFriendAdd.ok handle_tox_friend_add_result codes) [
        | ToxErrFriendAdd.ok ↦ refl
        | ToxErrFriendAdd.null ↦ refl
        | ToxErrFriendAdd.too_long ↦ refl
        | ToxErrFriendAdd.no_message ↦ refl
        | ToxErrFriendAdd.own_key ↦ refl
        | ToxErrFriendAdd.already_sent ↦ refl
        | ToxErrFriendAdd.bad_checksum ↦ refl
        | ToxErrFriendAdd.set_new_nospam ↦ refl
        | ToxErrFriendAdd.malloc ↦ refl
      ])

handle_friend_delete_error-IsFaithful : IsFaithful ToxErrFriendDelete.ok handle_friend_delete_error
unfolding handle_friend_delete_error
handle_friend_delete_error-IsFaithful =
    let codes : List ToxErrFriendDelete =
      ToxErrFriendDelete.ok ∷ ToxErrFriendDelete.friend_not_found ∷ [] in
    faithful ToxErrFriendDelete.ok handle_friend_delete_error codes refl (λ e. ground arith)
      (λ e. elim e as (ReadsBack ToxErrFriendDelete.ok handle_friend_delete_error codes) [
        | ToxErrFriendDelete.ok ↦ refl
        | ToxErrFriendDelete.friend_not_found ↦ refl
      ])

handle_friend_by_public_key_error-IsFaithful :
    IsFaithful ToxErrFriendByPublicKey.ok handle_friend_by_public_key_error
unfolding handle_friend_by_public_key_error
handle_friend_by_public_key_error-IsFaithful =
    let codes : List ToxErrFriendByPublicKey =
      ToxErrFriendByPublicKey.ok ∷ ToxErrFriendByPublicKey.null ∷ ToxErrFriendByPublicKey.not_found
      ∷ [] in
    faithful ToxErrFriendByPublicKey.ok handle_friend_by_public_key_error codes refl
      (λ e. ground arith)
      (λ e.
        elim e as (ReadsBack ToxErrFriendByPublicKey.ok handle_friend_by_public_key_error codes) [
          | ToxErrFriendByPublicKey.ok ↦ refl
          | ToxErrFriendByPublicKey.null ↦ refl
          | ToxErrFriendByPublicKey.not_found ↦ refl
        ])

handle_friend_get_public_key_error-IsFaithful :
    IsFaithful ToxErrFriendGetPublicKey.ok handle_friend_get_public_key_error
unfolding handle_friend_get_public_key_error
handle_friend_get_public_key_error-IsFaithful =
    let codes : List ToxErrFriendGetPublicKey =
      ToxErrFriendGetPublicKey.ok ∷ ToxErrFriendGetPublicKey.friend_not_found ∷ [] in
    faithful ToxErrFriendGetPublicKey.ok handle_friend_get_public_key_error codes refl
      (λ e. ground arith)
      (λ e.
        elim e as (ReadsBack ToxErrFriendGetPublicKey.ok handle_friend_get_public_key_error codes) [
          | ToxErrFriendGetPublicKey.ok ↦ refl
          | ToxErrFriendGetPublicKey.friend_not_found ↦ refl
        ])

handle_set_typing_error-IsFaithful : IsFaithful ToxErrSetTyping.ok handle_set_typing_error
unfolding handle_set_typing_error
handle_set_typing_error-IsFaithful =
    let codes : List ToxErrSetTyping = ToxErrSetTyping.ok ∷ ToxErrSetTyping.friend_not_found ∷ [] in
    faithful ToxErrSetTyping.ok handle_set_typing_error codes refl (λ e. ground arith)
      (λ e. elim e as (ReadsBack ToxErrSetTyping.ok handle_set_typing_error codes) [
        | ToxErrSetTyping.ok ↦ refl
        | ToxErrSetTyping.friend_not_found ↦ refl
      ])

pub handle_send_message_error-IsFaithful : IsFaithful ToxErrSendMessage.ok handle_send_message_error
unfolding handle_send_message_error
handle_send_message_error-IsFaithful =
    let codes : List ToxErrSendMessage =
      ToxErrSendMessage.ok ∷ ToxErrSendMessage.null ∷ ToxErrSendMessage.friend_not_found
      ∷ ToxErrSendMessage.friend_not_connected ∷ ToxErrSendMessage.sendq
      ∷ ToxErrSendMessage.too_long ∷ ToxErrSendMessage.empty ∷ [] in
    faithful ToxErrSendMessage.ok handle_send_message_error codes refl (λ e. ground arith)
      (λ e. elim e as (ReadsBack ToxErrSendMessage.ok handle_send_message_error codes) [
        | ToxErrSendMessage.ok ↦ refl
        | ToxErrSendMessage.null ↦ refl
        | ToxErrSendMessage.friend_not_found ↦ refl
        | ToxErrSendMessage.friend_not_connected ↦ refl
        | ToxErrSendMessage.sendq ↦ refl
        | ToxErrSendMessage.too_long ↦ refl
        | ToxErrSendMessage.empty ↦ refl
      ])

handle_file_control_error-IsFaithful : IsFaithful ToxErrFileControl.ok handle_file_control_error
unfolding handle_file_control_error
handle_file_control_error-IsFaithful =
    let codes : List ToxErrFileControl =
      ToxErrFileControl.ok ∷ ToxErrFileControl.friend_not_found
      ∷ ToxErrFileControl.friend_not_connected ∷ ToxErrFileControl.not_found
      ∷ ToxErrFileControl.not_paused ∷ ToxErrFileControl.denied ∷ ToxErrFileControl.already_paused
      ∷ [] in
    faithful ToxErrFileControl.ok handle_file_control_error codes refl (λ e. ground arith)
      (λ e. elim e as (ReadsBack ToxErrFileControl.ok handle_file_control_error codes) [
        | ToxErrFileControl.ok ↦ refl
        | ToxErrFileControl.friend_not_found ↦ refl
        | ToxErrFileControl.friend_not_connected ↦ refl
        | ToxErrFileControl.not_found ↦ refl
        | ToxErrFileControl.not_paused ↦ refl
        | ToxErrFileControl.denied ↦ refl
        | ToxErrFileControl.already_paused ↦ refl
      ])

handle_file_send_error-IsFaithful : IsFaithful ToxErrFileSend.ok handle_file_send_error
unfolding handle_file_send_error
handle_file_send_error-IsFaithful =
    let codes : List ToxErrFileSend =
      ToxErrFileSend.ok ∷ ToxErrFileSend.null ∷ ToxErrFileSend.friend_not_found
      ∷ ToxErrFileSend.friend_not_connected ∷ ToxErrFileSend.name_empty
      ∷ ToxErrFileSend.name_too_long ∷ ToxErrFileSend.too_many ∷ [] in
    faithful ToxErrFileSend.ok handle_file_send_error codes refl (λ e. ground arith)
      (λ e. elim e as (ReadsBack ToxErrFileSend.ok handle_file_send_error codes) [
        | ToxErrFileSend.ok ↦ refl
        | ToxErrFileSend.null ↦ refl
        | ToxErrFileSend.friend_not_found ↦ refl
        | ToxErrFileSend.friend_not_connected ↦ refl
        | ToxErrFileSend.name_empty ↦ refl
        | ToxErrFileSend.name_too_long ↦ refl
        | ToxErrFileSend.too_many ↦ refl
      ])

handle_file_send_chunk_error-IsFaithful :
    IsFaithful ToxErrFileSendChunk.ok handle_file_send_chunk_error
unfolding handle_file_send_chunk_error
handle_file_send_chunk_error-IsFaithful =
    let codes : List ToxErrFileSendChunk =
      ToxErrFileSendChunk.ok ∷ ToxErrFileSendChunk.null ∷ ToxErrFileSendChunk.friend_not_found
      ∷ ToxErrFileSendChunk.friend_not_connected ∷ ToxErrFileSendChunk.not_found
      ∷ ToxErrFileSendChunk.too_large ∷ [] in
    faithful ToxErrFileSendChunk.ok handle_file_send_chunk_error codes refl (λ e. ground arith)
      (λ e. elim e as (ReadsBack ToxErrFileSendChunk.ok handle_file_send_chunk_error codes) [
        | ToxErrFileSendChunk.ok ↦ refl
        | ToxErrFileSendChunk.null ↦ refl
        | ToxErrFileSendChunk.friend_not_found ↦ refl
        | ToxErrFileSendChunk.friend_not_connected ↦ refl
        | ToxErrFileSendChunk.not_found ↦ refl
        | ToxErrFileSendChunk.too_large ↦ refl
      ])

handle_send_custom_packet_error-IsFaithful :
    IsFaithful ToxErrSendCustomPacket.ok handle_send_custom_packet_error
unfolding handle_send_custom_packet_error
handle_send_custom_packet_error-IsFaithful =
    let codes : List ToxErrSendCustomPacket =
      ToxErrSendCustomPacket.ok ∷ ToxErrSendCustomPacket.null
      ∷ ToxErrSendCustomPacket.friend_not_found ∷ ToxErrSendCustomPacket.friend_not_connected
      ∷ ToxErrSendCustomPacket.invalid ∷ ToxErrSendCustomPacket.empty
      ∷ ToxErrSendCustomPacket.too_long ∷ ToxErrSendCustomPacket.sendq ∷ [] in
    faithful ToxErrSendCustomPacket.ok handle_send_custom_packet_error codes refl
      (λ e. ground arith)
      (λ e. elim e as (ReadsBack ToxErrSendCustomPacket.ok handle_send_custom_packet_error codes) [
        | ToxErrSendCustomPacket.ok ↦ refl
        | ToxErrSendCustomPacket.null ↦ refl
        | ToxErrSendCustomPacket.friend_not_found ↦ refl
        | ToxErrSendCustomPacket.friend_not_connected ↦ refl
        | ToxErrSendCustomPacket.invalid ↦ refl
        | ToxErrSendCustomPacket.empty ↦ refl
        | ToxErrSendCustomPacket.too_long ↦ refl
        | ToxErrSendCustomPacket.sendq ↦ refl
      ])

-- Each of the fourteen error functions of ToxCoreImpl is faithful.
abbrev pub CoreCodes : Type 0
CoreCodes =
    IsFaithful ToxErrNew.ok handle_new_error
    × IsFaithful ToxErrBootstrap.ok handle_bootstrap_error
    × IsFaithful ToxErrGetPort.ok handle_get_port_error
    × IsFaithful ToxErrSetInfo.ok handle_set_info_error
    × IsFaithful ToxErrFriendAdd.ok handle_tox_friend_add_result
    × IsFaithful ToxErrFriendDelete.ok handle_friend_delete_error
    × IsFaithful ToxErrFriendByPublicKey.ok handle_friend_by_public_key_error
    × IsFaithful ToxErrFriendGetPublicKey.ok handle_friend_get_public_key_error
    × IsFaithful ToxErrSetTyping.ok handle_set_typing_error
    × IsFaithful ToxErrSendMessage.ok handle_send_message_error
    × IsFaithful ToxErrFileControl.ok handle_file_control_error
    × IsFaithful ToxErrFileSend.ok handle_file_send_error
    × IsFaithful ToxErrFileSendChunk.ok handle_file_send_chunk_error
    × IsFaithful ToxErrSendCustomPacket.ok handle_send_custom_packet_error

-- Every error code of the new API that a native method checks is reported to Java faithfully.
pub all_codes-IsFaithful : CoreCodes
all_codes-IsFaithful = (
  handle_new_error-IsFaithful, handle_bootstrap_error-IsFaithful, handle_get_port_error-IsFaithful,
  handle_set_info_error-IsFaithful, handle_tox_friend_add_result-IsFaithful,
  handle_friend_delete_error-IsFaithful, handle_friend_by_public_key_error-IsFaithful,
  handle_friend_get_public_key_error-IsFaithful, handle_set_typing_error-IsFaithful,
  handle_send_message_error-IsFaithful, handle_file_control_error-IsFaithful,
  handle_file_send_error-IsFaithful, handle_file_send_chunk_error-IsFaithful,
  handle_send_custom_packet_error-IsFaithful,
)
