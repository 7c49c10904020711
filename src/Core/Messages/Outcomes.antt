-- ===== src/Core/Messages/Outcomes.antt =====
-- When the sends of tox/core.cpp succeed, and what they leave.
use tox4j.Base.{
  ℕ, ◌≤◌, ◌<◌, Bool, true, Option, some, ◌≡◌, ◌≢◌, ◌↔◌, arith, to_bool, minus_one, u32,
}
use tox4j.Base.Effect.{Returns}
use tox4j.Core.Enums.{Bytes, ToxErrSendMessage, ToxErrSendCustomPacket, tox_max_message_length}
use tox4j.Core.Api.{ToxApi}
use tox4j.Core.State.{Session, set_tox}
use tox4j.Core.Messages.{new_tox_send_something, new_tox_send_custom_packet}

module _ {Tox : Type 0} (api : ToxApi Tox) where
  -- The friend is on the list and connected.
  abbrev pub IsReachable : ℕ → Tox → Type 0
  IsReachable friend_number t =
      (to_bool (api.tox_friend_exists t friend_number) ≡ true)
      × (to_bool (api.tox_get_friend_connection_status t friend_number) ≡ true)

  -- toxcore knows the connection status of each friend that exists.
  abbrev pub KnowsStatus : ℕ → Tox → Type 0
  KnowsStatus friend_number t =
      to_bool (api.tox_friend_exists t friend_number) ≡ true
      → api.tox_get_friend_connection_status t friend_number ≢ minus_one

module _ {Tox U : Type 0} (api : ToxApi Tox) where
  abbrev pub SendSpec :
      (Tox → ℕ → Bytes → ℕ → ℕ × Tox)
      → ℕ
      → Bytes
      → ℕ
      → Session Tox U
      → ℕ × ToxErrSendMessage
      → Session Tox U
      → Type 0
  SendSpec tox_send fn text length s r t =
      let sent = tox_send s.new_tox.tox fn text (u32 length) in
      ((r.1 ≡ ToxErrSendMessage.ok) ↔ (
        (0 < length)
        × (length ≤ tox_max_message_length)
        × IsReachable api fn s.new_tox.tox
        × (sent.0 ≢ 0)))
      × (r.1 ≡ ToxErrSendMessage.ok → (r.0 ≡ sent.0) × (t ≡ set_tox sent.1 s))
      × (r.1 ≢ ToxErrSendMessage.ok → r.0 ≡ 0)
      × (r.1 ≢ ToxErrSendMessage.ok → r.1 ≢ ToxErrSendMessage.sendq → t ≡ s)

  -- If toxcore knows the connection status of the friends that exist, a message or an action is
  -- handed to it exactly if the friend is reachable and the text has a length from 1 to the maximum.
  -- The call returns; it succeeds exactly if it was handed over and toxcore gave it an id, which is
  -- the result; otherwise the result is 0; and what was not handed over leaves no trace.
  pub send_something_lem :
      (tox_send : Tox → ℕ → Bytes → ℕ → ℕ × Tox) (fn : ℕ) (text : Bytes) (length : ℕ)
      (s : Session Tox U)
      → KnowsStatus api fn s.new_tox.tox
      → Returns
          (new_tox_send_something api tox_send fn (some text) length s)
          (SendSpec tox_send fn text length s)
  unfolding new_tox_send_something
  send_something_lem tox_send fn text length s k = ground arith

  abbrev pub PacketSpec :
      (Tox → ℕ → Option Bytes → ℕ → ℕ × Tox)
      → ℕ
      → Option Bytes
      → ℕ
      → Session Tox U
      → Bool × ToxErrSendCustomPacket
      → Session Tox U
      → Type 0
  PacketSpec send fn bytes length s r t =
      let sent = send s.new_tox.tox fn bytes (u32 length) in
      ((r.1 ≡ ToxErrSendCustomPacket.ok)
        ↔ (IsReachable api fn s.new_tox.tox × (sent.0 ≢ minus_one)))
      × ((r.1 ≡ ToxErrSendCustomPacket.sendq)
          ↔ (IsReachable api fn s.new_tox.tox × (sent.0 ≡ minus_one)))
      × ((r.0 ≡ true) ↔ (r.1 ≡ ToxErrSendCustomPacket.ok))
      × (IsReachable api fn s.new_tox.tox → t ≡ set_tox sent.1 s)
      × (r.1 ≢ ToxErrSendCustomPacket.ok → r.1 ≢ ToxErrSendCustomPacket.sendq → t ≡ s)

  -- If toxcore knows the connection status of the friends that exist, a custom packet succeeds
  -- exactly if the friend is reachable and toxcore does not refuse it, and fails with SENDQ exactly
  -- if the friend is reachable and it does; a packet for a friend that is not reachable leaves no
  -- trace.
  pub send_custom_packet_lem :
      (send : Tox → ℕ → Option Bytes → ℕ → ℕ × Tox) (fn : ℕ) (bytes : Option Bytes) (length : ℕ)
      (s : Session Tox U)
      → KnowsStatus api fn s.new_tox.tox
      → Returns
          (new_tox_send_custom_packet api send fn bytes length s)
          (PacketSpec send fn bytes length s)
  unfolding new_tox_send_custom_packet
  send_custom_packet_lem send fn bytes length s k = ground arith
