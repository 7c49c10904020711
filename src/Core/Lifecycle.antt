-- ===== src/Core/Lifecycle.antt =====
-- tox/core.cpp: options, the creation of a new_Tox, saving, bootstrapping, and ports.
pub mod Creation
use tox4j.Base.{
  ℕ, Bool, true, false, not, ◌&&◌, ◌||◌, Option, none, some, [], ◌∷◌, ◌==◌, leb, minus_one, is_null,
  to_bool, if◌then◌else◌, take, ◌-◌,
}
use tox4j.Base.Effect.{M, ok, assert_some}
use tox4j.Base.Early.{◌>>=◌, ◌>>◌, return_if, finish, lift, body}
use tox4j.Core.Enums.{
  Bytes, ToxErrOptionsNew, ToxErrNew, ToxErrBootstrap, ToxErrGetPort, tox_proxy_type_none,
  tox_proxy_type_http, tox_proxy_type_socks5,
}
use tox4j.Core.Api.{ToxApi, OldProxyType, OldOptions}
use tox4j.Core.State.{Callbacks, NewTox, Session, call_tox, read_tox}
use tox4j.Core.Registration.{register_callbacks, register_custom_packet_handlers}

-- A C string is the list of its bytes before the NUL.
pub record ToxOptions : Type 0 where
  pub ipv6_enabled : Bool
  pub udp_enabled : Bool
  pub proxy_type : ℕ
  pub proxy_address : Option Bytes
  pub proxy_port : ℕ  -- uint16_t

unfoldable pub new_tox_options_default : ToxOptions
new_tox_options_default = record {
  ipv6_enabled = true;
  udp_enabled = true;
  proxy_type = tox_proxy_type_none;
  proxy_address = none;
  proxy_port = 0;
}

-- `allocated` says whether `new` gave an object.
unfoldable pub new_tox_options_new : Bool → Option ToxOptions × ToxErrOptionsNew
unfolding new_tox_options_default
new_tox_options_new allocated =
    if allocated
    then (some new_tox_options_default, ToxErrOptionsNew.ok)
    else (none, ToxErrOptionsNew.malloc)

-- std::isprint in the "C" locale.
unfoldable pub isprint : ℕ → Bool
isprint c = leb 0x20 c && leb c 0x7e

unfoldable pub all_isprint : Bytes → Bool
unfolding isprint
all_isprint [] = true
all_isprint (c ∷ cs) = isprint c && all_isprint cs

-- `case '\0': case '.':` of the first character.
abbrev pub is_bad_start : Bytes → Bool
is_bad_start [] = true
is_bad_start (c ∷ _) = c == b'.'

-- The checks of the proxy, in their order; `none` lets the creation go on.
unfoldable pub check_address : Bytes → ℕ → Option ToxErrNew
unfolding all_isprint
check_address address port =
    if not (all_isprint address)
    then some ToxErrNew.proxy_bad_host
    else if is_bad_start address
    then some ToxErrNew.proxy_bad_host
    else if port == 0
    then some ToxErrNew.proxy_bad_port
    else none

unfoldable pub check_proxy : ToxOptions → Option ToxErrNew
unfolding check_address
check_proxy options =
    if options.proxy_type == tox_proxy_type_none then none else elim options.proxy_address [
      | none ↦ some ToxErrNew.null
      | some address ↦ check_address address options.proxy_port
    ]

-- A value that no case names leaves the zero of the initialisation.
unfoldable pub old_proxy_type : ℕ → OldProxyType
old_proxy_type proxy_type =
    if proxy_type == tox_proxy_type_socks5
    then OldProxyType.socks5
    else if proxy_type == tox_proxy_type_http
    then OldProxyType.http
    else OldProxyType.none

abbrev pub is_proxied : OldProxyType → Bool
is_proxied OldProxyType.none = false
is_proxied _ = true

abbrev pub or_empty : Option Bytes → Bytes
or_empty none = []
or_empty (some address) = address

-- The old API's options. `std::strncpy` copies at most `size - 1` bytes.
unfoldable pub make_options : ℕ → ToxOptions → OldOptions
unfolding old_proxy_type
make_options size options =
    let proxy_type = old_proxy_type options.proxy_type in
    record {
      ipv6enabled = options.ipv6_enabled;
      udp_disabled = not options.udp_enabled;
      proxy_type = proxy_type;
      proxy_address =
          if is_proxied proxy_type then take (size - 1) (or_empty options.proxy_address) else [];
      proxy_port = if is_proxied proxy_type then options.proxy_port else 0;
    }

unfoldable pub no_callbacks : {U : Type 0} → Callbacks U
no_callbacks = record {
  connection_status = none;
  friend_name = none;
  friend_status_message = none;
  friend_status = none;
  friend_connection_status = none;
  friend_typing = none;
  read_receipt = none;
  friend_request = none;
  friend_message = none;
  friend_action = none;
  file_control = none;
  file_request_chunk = none;
  file_receive = none;
  file_receive_chunk = none;
  friend_lossy_packet = none;
  friend_lossless_packet = none;
}

-- The switch on the result of tox_load.
abbrev pub load_error : ℕ → ToxErrNew
load_error result =
    if result == minus_one
    then ToxErrNew.load_bad_format
    else if result == 1
    then ToxErrNew.load_encrypted
    else ToxErrNew.ok

module _ {Tox U : Type 0} (api : ToxApi Tox) where
  -- `new new_Tox (tox)`, with the handlers of custom packets.
  unfoldable pub make_new_tox : Tox → NewTox Tox U
  unfolding register_callbacks register_custom_packet_handlers no_callbacks
  make_new_tox t = record {
    tox = register_custom_packet_handlers api (register_callbacks api t);
    connected = false;
    has_av = false;
    transfers = [];
    callbacks = no_callbacks;
  }

  -- The saved data is loaded last; whatever comes of it, the instance is returned.
  unfoldable pub load_saved : NewTox Tox U → Option Bytes → ℕ → NewTox Tox U × ToxErrNew
  load_saved new_tox none length = (new_tox, if length == 0 then ToxErrNew.ok else ToxErrNew.null)
  load_saved new_tox (some bytes) length =
      if length == 0
      then (new_tox, ToxErrNew.ok)
      else let (result, t) = api.tox_load new_tox.tox bytes length in
        (record new_tox { tox = t }, load_error result)

  unfoldable pub created : Bool → Option Tox → Option Bytes → ℕ → Option (NewTox Tox U) × ToxErrNew
  unfolding make_new_tox load_saved
  created malloc_works none bytes length =
      (none, if malloc_works then ToxErrNew.port_alloc else ToxErrNew.malloc)
  created malloc_works (some t) bytes length =
      let (new_tox, error) = load_saved (make_new_tox t) bytes length in (some new_tox, error)

  -- `malloc_works` says whether 1 KB can be allocated after toxcore has failed.
  unfoldable pub new_tox_new :
      Bool → Option ToxOptions → Option Bytes → ℕ → Option (NewTox Tox U) × ToxErrNew
  unfolding check_proxy make_options created
  new_tox_new malloc_works none bytes length = created malloc_works (api.tox_new none) bytes length
  new_tox_new malloc_works (some options) bytes length = elim (check_proxy options) [
    | some error ↦ (none, error)
    | none ↦
        created malloc_works (api.tox_new (some (make_options api.proxy_address_size options)))
          bytes length
  ]

  unfoldable pub new_tox_save_size : M (Session Tox U) ℕ
  new_tox_save_size = read_tox λ t. api.tox_size t

  unfoldable pub new_tox_save : M (Session Tox U) Bytes
  new_tox_save = read_tox λ t. api.tox_save t

  unfoldable pub bootstrap_like :
      (Tox → Bytes → ℕ → Bytes → ℕ × Tox)
      → Option Bytes
      → ℕ
      → Option Bytes
      → M (Session Tox U) (Bool × ToxErrBootstrap)
  bootstrap_like func address port public_key = body do
    return_if (is_null address || is_null public_key) (false, ToxErrBootstrap.null)
    return_if (port == 0) (false, ToxErrBootstrap.bad_port)
    address' ← lift (assert_some address)
    key ← lift (assert_some public_key)
    result ← lift (call_tox λ t. func t address' port key)
    return_if (not (to_bool result)) (false, ToxErrBootstrap.bad_address)
    finish (true, ToxErrBootstrap.ok)

  unfoldable pub new_tox_bootstrap :
      Option Bytes → ℕ → Option Bytes → M (Session Tox U) (Bool × ToxErrBootstrap)
  unfolding bootstrap_like
  new_tox_bootstrap = bootstrap_like api.tox_bootstrap_from_address

  unfoldable pub new_tox_add_tcp_relay :
      Option Bytes → ℕ → Option Bytes → M (Session Tox U) (Bool × ToxErrBootstrap)
  unfolding bootstrap_like
  new_tox_add_tcp_relay = bootstrap_like api.tox_add_tcp_relay

module _ {S : Type 0} where
  unfoldable pub new_tox_get_tcp_port : M S (ℕ × ToxErrGetPort)
  new_tox_get_tcp_port s = ok ((0, ToxErrGetPort.not_bound), s)

  unfoldable pub new_tox_get_udp_port : M S (ℕ × ToxErrGetPort)
  new_tox_get_udp_port s = ok ((0, ToxErrGetPort.not_bound), s)
