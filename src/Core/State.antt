-- ===== src/Core/State.antt =====
-- tox/core_private.h: file_transfer, new_Tox and its table of transfers.
--
-- Every client callback is registered with one user_data pointer (ToxCore/lifecycle.cpp), so the
-- object that it points to stands beside the new_Tox in a Session. A callback that was never
-- registered is `none`, and a call of it is a fault.
use Prim.Native.Nat.{bit_and, bit_or}
use tox4j.Base.{ℕ, ◌*◌, ◌^◌, Bool, false, not, Option, none, some, to_bool, of_bool, is_null}
use tox4j.Base.Effect.{ok, fault, wild_call, M, ◌>>=◌, ◌>>◌, assert}
use tox4j.Base.StdMap.{StdMap, lookup, insert, erase, pair_key}
use tox4j.Core.Enums.{Bytes, ToxConnection}

pub data PauseReason : Type 0 where
  initial by_self by_friend : PauseReason

pub data TransferState : Type 0 where
  paused running finished : TransferState

pub record FileTransfer : Type 0 where
  pub cause : PauseReason
  pub state : TransferState
  pub position : ℕ  -- uint64_t
  pub file_size : ℕ  -- uint64_t
  pub event_pending : Bool
  pub size_requested : ℕ  -- size_t

-- The constructor from a file size. It leaves `cause` as the memory was: an argument here.
unfoldable pub file_transfer : PauseReason → ℕ → FileTransfer
file_transfer garbage file_size = record {
  cause = garbage;
  state = paused;
  position = 0;
  file_size = file_size;
  event_pending = false;
  size_requested = 0;
}

-- `(!receive_send << 8) | filenumber`.
unfoldable pub new_file_number : Bool → ℕ → ℕ
new_file_number receive_send filenumber = bit_or (of_bool (not receive_send) * 2 ^ 8) filenumber

unfoldable pub old_file_number : ℕ → ℕ
old_file_number file_number = bit_and file_number 0xff

unfoldable pub send_receive : ℕ → Bool
send_receive file_number = to_bool (bit_and file_number 0x100)

pub record Callbacks (U : Type 0) : Type 0 where
  pub connection_status : Option (ToxConnection → U → U)
  pub friend_name : Option (ℕ → Option Bytes → ℕ → U → U)
  pub friend_status_message : Option (ℕ → Option Bytes → ℕ → U → U)
  pub friend_status : Option (ℕ → ℕ → U → U)
  pub friend_connection_status : Option (ℕ → ToxConnection → U → U)
  pub friend_typing : Option (ℕ → Bool → U → U)
  pub read_receipt : Option (ℕ → ℕ → U → U)
  pub friend_request : Option (Bytes → Bytes → ℕ → U → U)
  pub friend_message : Option (ℕ → Bytes → ℕ → U → U)
  pub friend_action : Option (ℕ → Bytes → ℕ → U → U)
  pub file_control : Option (ℕ → ℕ → ℕ → U → U)
  pub file_request_chunk : Option (ℕ → ℕ → ℕ → ℕ → U → U)
  pub file_receive : Option (ℕ → ℕ → ℕ → ℕ → Bytes → ℕ → U → U)
  pub file_receive_chunk : Option (ℕ → ℕ → ℕ → Bytes → ℕ → U → U)
  pub friend_lossy_packet : Option (ℕ → Bytes → ℕ → U → U)
  pub friend_lossless_packet : Option (ℕ → Bytes → ℕ → U → U)

abbrev pub Transfers : Type 0
Transfers = StdMap (ℕ × ℕ) FileTransfer

pub record NewTox (Tox U : Type 0) : Type 0 where
  pub tox : Tox
  pub connected : Bool
  pub has_av : Bool
  pub transfers : Transfers
  pub callbacks : Callbacks U

pub record Session (Tox U : Type 0) : Type 0 where
  pub new_tox : NewTox Tox U
  pub user_data : U

module _ {Tox U : Type 0} where
  abbrev pub set_tox : Tox → Session Tox U → Session Tox U
  set_tox t s = record s { new_tox = record (s.new_tox) { tox = t } }

  abbrev pub set_transfers : Transfers → Session Tox U → Session Tox U
  set_transfers m s = record s { new_tox = record (s.new_tox) { transfers = m } }

  -- A call of a toxcore function that changes the Tox, and of one that only reads it.
  abbrev pub call_tox : {A : Type 0} → (Tox → A × Tox) → M (Session Tox U) A
  call_tox f s = let (a, t) = f s.new_tox.tox in ok (a, set_tox t s)

  abbrev pub read_tox : {A : Type 0} → (Tox → A) → M (Session Tox U) A
  read_tox f s = ok (f s.new_tox.tox, s)

  -- `cb.func (…, cb.user_data)`.
  abbrev pub call_back : Option (U → U) → M (Session Tox U) (Unit {0})
  call_back none s = fault wild_call
  call_back (some f) s = ok (tt, record s { user_data = f s.user_data })

  unfoldable pub get_transfer : ℕ → ℕ → M (Session Tox U) (Option FileTransfer)
  get_transfer friend_number file_number s =
      ok (lookup (friend_number, file_number) s.new_tox.transfers, s)

  -- A write through the pointer that `get_transfer` returned.
  abbrev pub put_transfer : ℕ → ℕ → FileTransfer → M (Session Tox U) (Unit {0})
  put_transfer friend_number file_number transfer s =
      ok (tt, set_transfers (insert (friend_number, file_number) transfer s.new_tox.transfers) s)

  unfoldable pub add_transfer : PauseReason → ℕ → ℕ → ℕ → M (Session Tox U) (Unit {0})
  unfolding get_transfer file_transfer
  add_transfer garbage friend_number file_number file_size = do
    found ← get_transfer friend_number file_number
    assert (is_null found)
    put_transfer friend_number file_number (file_transfer garbage file_size)

  unfoldable pub remove_transfer : ℕ → ℕ → M (Session Tox U) (Unit {0})
  unfolding get_transfer
  remove_transfer friend_number file_number = do
    found ← get_transfer friend_number file_number
    assert (not (is_null found))
    λ s. ok (tt, set_transfers (erase (friend_number, file_number) s.new_tox.transfers) s)
