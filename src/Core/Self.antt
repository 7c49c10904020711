-- ===== src/Core/Self.antt =====
-- tox/core.cpp: the own name, status message, status, keys and nospam.
pub mod RoundTrip
use tox4j.Base.{
  ℕ, Bool, true, false, ◌&&◌, Option, none, some, [], ◌∷◌, ◌==◌, ltb, minus_one, is_null,
  if◌then◌else◌,
}
use tox4j.Base.Effect.{M, ok, assert_some}
use tox4j.Base.Early.{◌>>=◌, ◌>>◌, return_if, finish, lift, body}
use tox4j.Core.Enums.{Bytes, ToxErrSetInfo, tox_max_name_length, tox_max_status_message_length}
use tox4j.Core.Api.{ToxApi}
use tox4j.Core.State.{Session, set_tox, call_tox, read_tox}
use tox4j.Core.Handlers.{first_byte}

-- `(uint8_t const *) ""`, which holds the NUL that ends it.
abbrev pub empty_text : Bytes
empty_text = 0 ∷ []

module _ {Tox U : Type 0} where
  -- new_tox_self_set_name and new_tox_self_set_status_message have one text, but for the limit and
  -- the toxcore function.
  unfoldable pub set_info :
      ℕ → (Tox → Bytes → ℕ → ℕ × Tox) → Option Bytes → ℕ → M (Session Tox U) (Bool × ToxErrSetInfo)
  set_info limit set text length = body do
    return_if (ltb limit length) (false, ToxErrSetInfo.too_long)
    return_if (ltb 0 length && is_null text) (false, ToxErrSetInfo.null)
    let length' = if length == 0 then 1 else length
    text' ← lift (assert_some (if length == 0 then some empty_text else text))
    result ← lift (call_tox λ t. set t text' length')
    return_if (result == minus_one) (false, ToxErrSetInfo.null)
    finish (true, ToxErrSetInfo.ok)

-- The size of a text that toxcore keeps, where one NUL byte stands for the empty text.
abbrev pub visible_size : ℕ → Bytes → ℕ
visible_size size text = if (size == 1) && (first_byte text == 0) then 0 else size

module _ {Tox U : Type 0} (api : ToxApi Tox) where
  unfoldable pub new_tox_self_set_name : Option Bytes → ℕ → M (Session Tox U) (Bool × ToxErrSetInfo)
  unfolding set_info
  new_tox_self_set_name = set_info tox_max_name_length api.tox_set_name

  unfoldable pub new_tox_self_get_name_size : M (Session Tox U) ℕ
  new_tox_self_get_name_size =
      read_tox λ t. visible_size (api.tox_get_self_name_size t) (api.tox_get_self_name t)

  -- What is written into the caller's buffer, if anything is.
  unfoldable pub new_tox_self_get_name : M (Session Tox U) (Option Bytes)
  unfolding new_tox_self_get_name_size
  new_tox_self_get_name = body do
    size ← lift new_tox_self_get_name_size
    return_if (size == 0) none
    name ← lift (read_tox λ t. api.tox_get_self_name t)
    finish (some name)

  unfoldable pub new_tox_self_set_status_message :
      Option Bytes → ℕ → M (Session Tox U) (Bool × ToxErrSetInfo)
  unfolding set_info
  new_tox_self_set_status_message =
      set_info tox_max_status_message_length api.tox_set_status_message

  unfoldable pub new_tox_self_get_status_message_size : M (Session Tox U) ℕ
  new_tox_self_get_status_message_size = read_tox λ t.
      visible_size (api.tox_get_self_status_message_size t) (api.tox_get_self_status_message t 1)

  unfoldable pub new_tox_self_get_status_message : M (Session Tox U) (Option Bytes)
  unfolding new_tox_self_get_status_message_size
  new_tox_self_get_status_message = body do
    length ← lift new_tox_self_get_status_message_size
    return_if (length == 0) none
    status ← lift (read_tox λ t. api.tox_get_self_status_message t length)
    finish (some status)

  unfoldable pub new_tox_self_set_status : ℕ → M (Session Tox U) (Unit {0})
  new_tox_self_set_status status s =
      ok (tt, set_tox (api.tox_set_user_status s.new_tox.tox status) s)

  unfoldable pub new_tox_self_get_status : M (Session Tox U) ℕ
  new_tox_self_get_status = read_tox λ t. api.tox_get_self_user_status t

  unfoldable pub new_tox_self_set_nospam : ℕ → M (Session Tox U) (Unit {0})
  new_tox_self_set_nospam nospam s = ok (tt, set_tox (api.tox_set_nospam s.new_tox.tox nospam) s)

  unfoldable pub new_tox_self_get_nospam : M (Session Tox U) ℕ
  new_tox_self_get_nospam = read_tox λ t. api.tox_get_nospam t

  unfoldable pub new_tox_self_get_address : M (Session Tox U) Bytes
  new_tox_self_get_address = read_tox λ t. api.tox_get_address t

  unfoldable pub new_tox_self_get_public_key : M (Session Tox U) Bytes
  new_tox_self_get_public_key = read_tox λ t. api.tox_get_public_key t

  unfoldable pub new_tox_self_get_secret_key : M (Session Tox U) Bytes
  new_tox_self_get_secret_key = read_tox λ t. api.tox_get_secret_key t

  unfoldable pub new_tox_get_dht_id : M (Session Tox U) Bytes
  unfolding new_tox_self_get_public_key
  new_tox_get_dht_id = new_tox_self_get_public_key
