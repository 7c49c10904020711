-- ===== src/Core/Registration/Ranges.antt =====
-- The loops over the bytes of packet ids, against the ranges that they cover.
use tox4j.Base.{ℕ, zero, suc, ◌+◌, ◌<◌, ◌≡◌, arith}
use tox4j.Core.Api.{ToxApi}
use tox4j.Core.Registration.{for_bytes, register_friend}

-- `register` at `count` bytes in turn, from `first` on.
abbrev pub register_range : {Tox : Type 0} → (ℕ → Tox → Tox) → ℕ → ℕ → Tox → Tox
register_range register first zero t = t
register_range register first (suc count) t =
    register_range register (suc first) count (register first t)

module _ {Tox : Type 0} (register : ℕ → Tox → Tox) where
  -- A loop up to a byte below 255 ends, on any fuel that exceeds the number of its turns.
  pub for_bytes-range :
      (fuel count first last : ℕ) (t : Tox)
      → last < 255
      → first + count ≡ suc last
      → count < fuel
      → for_bytes register fuel first last t ≡ register_range register first count t
  unfolding for_bytes
  for_bytes-range zero count first last t p q h = ground arith
  for_bytes-range (suc fuel) zero first last t p q h = ground arith
  for_bytes-range (suc fuel) (suc count) first last t p q h =
      ground (arith, for_bytes-range fuel count (suc first) last (register first t) p)

-- For each friend, the packet ids 200 to 254 get the lossy handler and 160 to 191 the lossless one,
-- each once and in this order: the loops over a uint8_t end, within 256 turns.
pub register_friend_lem :
    {Tox : Type 0} (api : ToxApi Tox) (fn : ℕ) (t : Tox)
    → register_friend api fn t
      ≡ register_range
          (api.tox_lossless_packet_registerhandler fn)
          160
          32
          (register_range (api.tox_lossy_packet_registerhandler fn) 200 55 t)
unfolding register_friend
register_friend_lem api fn t =
    let lossy = api.tox_lossy_packet_registerhandler fn in
    let lossless = api.tox_lossless_packet_registerhandler fn in
    rw (for_bytes-range lossy 256 55 200 254 t (omega arith) (omega arith) (omega arith)) (
      for_bytes-range lossless 256 32 160 191 (register_range lossy 200 55 t) (omega arith)
        (omega arith) (omega arith))
