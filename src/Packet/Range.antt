-- ===== src/Packet/Range.antt =====
-- packet.h and server.h: `urange`, the number of values of an unsigned type, which is the length of the
-- array of expected sequence numbers.
use ghetto_subscriber_valida.Prelude.{
  ℕ, zero, suc, ◌+◌, ◌-◌, ◌*◌, ◌/◌, ◌%◌, ◌^◌, ◌≡◌, refl, ◌||◌, ◌==◌, if◌then◌else◌,
}
use ghetto_subscriber_valida.Packet.{byte_size, short_size}

-- The bitwise or of two numbers of this many bits.
unfoldable or_bits : ℕ → ℕ → ℕ → ℕ
or_bits zero a b = 0
or_bits (suc w) a b = (if a % 2 == 1 || b % 2 == 1 then 1 else 0) + 2 * or_bits w (a / 2) (b / 2)

-- `urange` of a type of so many bytes, in the arithmetic of unsigned long long.
unfoldable pub urange : ℕ → ℕ
unfolding or_bits
urange size =
    (or_bits 64 (2 ^ (size * 8 - 1) % 2 ^ 64 - 1) (15 * 2 ^ (size * 8 - 4) % 2 ^ 64) + 1) % 2 ^ 64

pub urange-byte_size : urange byte_size ≡ 256
unfolding urange
urange-byte_size = refl

urange-short_size : urange short_size ≡ 2 ^ 16
unfolding urange
urange-short_size = refl

-- For a type of 64 bits the sum wraps around.
urange_wrap : urange 8 ≡ 0
unfolding urange
urange_wrap = refl
