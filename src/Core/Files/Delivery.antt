-- ===== src/Core/Files/Delivery.antt =====
-- A whole file through new_tox_iteration and new_tox_file_send_chunk of tox/core.cpp: the client, what
-- it relies on in toxcore, and how far it has come.
pub mod Rounds
pub mod Whole
pub mod Offered
use Prim.Native.Nat.{min}
use tox4j.Base.{
  ℕ, zero, suc, ◌+◌, ◌<◌, true, Option, none, some, ◌++◌, ◌≡◌, ◌≢◌, if◌then◌else◌, int_to_u64,
  to_bool, minus_one, length, take, drop,
}
use tox4j.Base.Effect.{M, ok, pure, ◌>>=◌, ◌>>◌}
use tox4j.Base.StdMap.{lookup, pair_key}
use tox4j.Core.Enums.{Bytes}
use tox4j.Core.Api.{ToxApi, OldFileControl}
use tox4j.Core.State.{PauseReason, FileTransfer, Session, old_file_number, send_receive}
use tox4j.Core.Handlers.Told.{IsRegistered, TellsOnly}
use tox4j.Core.Iteration.{new_tox_iteration}
use tox4j.Core.Files.{new_tox_file_send_chunk}
use tox4j.Core.Files.Paced.{IsReady}

-- toxcore, for the file `num` that is sent to the friend `fn`, as long as both stay connected:
-- `sent t` is the data of the file that the Tox `t` has been given. A `tox_do` makes no calls back about
-- files.
pub record Steady {Tox : Type 0} (api : ToxApi Tox) (fn num : ℕ) (sent : Tox → Bytes)
    (Good : Tox → Type 0) : Type 0 where
  pub limit : ℕ
  pub some_data : 0 < limit
  pub no_files : (t : Tox) → Good t → TellsOnly (λ u. Good u × (sent u ≡ sent t)) (api.tox_do t)
  pub exists : (t : Tox) → Good t → to_bool (api.tox_friend_exists t fn) ≡ true
  pub online : (t : Tox) → Good t → api.tox_get_friend_connection_status t fn ≡ 1
  pub data_size : (t : Tox) → Good t → int_to_u64 (api.tox_file_data_size t fn) ≡ limit
  pub takes :
      (t : Tox) (bytes : Bytes) (n : ℕ)
      → Good t
      → ((api.tox_file_send_data t fn (old_file_number num) bytes n).0 ≢ minus_one)
        × Good (api.tox_file_send_data t fn (old_file_number num) bytes n).1
        × (sent (api.tox_file_send_data t fn (old_file_number num) bytes n).1
            ≡ sent t ++ take n bytes)
  pub finishes :
      (t : Tox)
      → Good t
      → ((api.tox_file_send_control t fn
            (send_receive num)
            (old_file_number num)
            OldFileControl.finished).0
          ≡ 0)
        × Good
            (api.tox_file_send_control t fn
              (send_receive num)
              (old_file_number num)
              OldFileControl.finished).1
        × (sent
              (api.tox_file_send_control t fn
                (send_receive num)
                (old_file_number num)
                OldFileControl.finished).1
            ≡ sent t)

-- One chunk further in a file, at most to its end.
abbrev pub further : Bytes → ℕ → ℕ → ℕ
further content limit p = min (length content) (p + limit)

module _ {Tox U : Type 0} (api : ToxApi Tox) (garbage : PauseReason) (fn num : ℕ)
    (content : Bytes) where
  -- The client's answer to the request that it was told of and has not answered yet.
  abbrev pub answer : Option FileTransfer → M (Session Tox U) (Unit {0})
  answer none s = ok (tt, s)
  answer (some e) s =
      if e.event_pending
      then (new_tox_file_send_chunk api fn num
              (some (take e.size_requested (drop e.position content))) e.size_requested
            >>= λ _. pure tt)
          s
      else ok (tt, s)

  -- An iteration, and the answer.
  abbrev pub send_round : M (Session Tox U) (Unit {0})
  send_round s =
      (new_tox_iteration api garbage >> (λ t. answer (lookup (fn, num) t.new_tox.transfers) t)) s

  abbrev pub send_rounds : ℕ → M (Session Tox U) (Unit {0})
  send_rounds zero s = ok (tt, s)
  send_rounds (suc n) s = (send_round >> send_rounds n) s

module _ {Tox U : Type 0} (api : ToxApi Tox) (fn num : ℕ) (content : Bytes) (sent : Tox → Bytes)
    (Good : Tox → Type 0) (before : Bytes) where
  -- The transfer's entry, what toxcore has been given of the file, and the callbacks.
  abbrev pub HasSent : FileTransfer → ℕ → Session Tox U → Type 0
  HasSent e p s =
      (lookup (fn, num) s.new_tox.transfers ≡ some e)
      × Good s.new_tox.tox
      × (sent s.new_tox.tox ≡ before ++ take p content)
      × IsRegistered s.new_tox.callbacks

  -- The first `p` bytes of the file have been given to toxcore, and the next may be asked for.
  abbrev pub Sends : ℕ → Session Tox U → Type 0
  Sends p s =
      (e : FileTransfer) × HasSent e p s
      × IsReady api s.new_tox.tox fn e
      × (e.position ≡ p)
      × (e.file_size ≡ length content)
