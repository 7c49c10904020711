-- ===== src/Core/Files/Numbers.antt =====
-- file_transfer::new_file_number against old_file_number and send_receive: one number for the
-- slots of both directions.
use Prim.Native.Nat.{bit_or}
use tox4j.Base.{
  ℕ, zero, suc, ◌<◌, Bool, true, false, not, ◌&&◌, ◌≡◌, refl, ◌==◌, if◌then◌else◌, arith, ==_iff,
}
use tox4j.Core.State.{new_file_number, old_file_number, send_receive}

-- A test of the slots under a bound, from the last one down.
passes : (ℕ → Bool) → ℕ → Bool
passes test zero = true
passes test (suc slot) = if test slot then passes test slot else false

test-passes :
    (test : ℕ → Bool) (bound slot : ℕ) → slot < bound → passes test bound ≡ true → test slot ≡ true
unfolding passes
test-passes test zero slot under ok = absurd (omega (arith, under))
test-passes test (suc last) slot under ok = ground (arith, test-passes test last slot)

-- Both fields of the number can be read back, for each direction and each byte.
abbrev bool_eq : Bool → Bool → Bool
bool_eq true b = b
bool_eq false b = not b

abbrev reads_back : Bool → ℕ → Bool
reads_back receive_send f =
    (old_file_number (new_file_number receive_send f) == f)
    && bool_eq (send_receive (new_file_number receive_send f)) (not receive_send)

bytes_read_back : (receive_send : Bool) → passes (reads_back receive_send) 256 ≡ true
unfolding passes old_file_number new_file_number send_receive
bytes_read_back true = refl
bytes_read_back false = refl

-- The slot number and the direction of a file number are those that it was made from.
pub new_file_number_fields :
    (receive_send : Bool) (f : ℕ)
    → f < 256
    → (old_file_number (new_file_number receive_send f) ≡ f)
      × (send_receive (new_file_number receive_send f) ≡ not receive_send)
new_file_number_fields receive_send f h =
    ground (arith, test-passes (reads_back receive_send) 256 f h (bytes_read_back receive_send))

abbrev receives_at : ℕ → Bool
receives_at f = new_file_number false f == bit_or f 0x100

bytes_receive_at : passes receives_at 256 ≡ true
unfolding passes new_file_number
bytes_receive_at = refl

-- A receiving transfer is stored under the number that its controls look up.
pub receiving_number : (f : ℕ) → f < 256 → new_file_number false f ≡ bit_or f 0x100
receiving_number f h = (==_iff _ _).0 (test-passes receives_at 256 f h bytes_receive_at)

abbrev sends_at : ℕ → Bool
sends_at f = new_file_number true f == f

bytes_send_at : passes sends_at 256 ≡ true
unfolding passes new_file_number
bytes_send_at = refl

-- A sending transfer is stored under toxcore's own number.
pub sending_number : (f : ℕ) → f < 256 → new_file_number true f ≡ f
sending_number f h = (==_iff _ _).0 (test-passes sends_at 256 f h bytes_send_at)
