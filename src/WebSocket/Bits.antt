-- ===== src/WebSocket/Bits.antt =====
-- The operators of C++ on unsigned numbers that web_socket_server/server_ws.hpp uses.
use boost_irc.Base.{
  ℕ, zero, suc, ◌+◌, ◌*◌, ◌/◌, ◌%◌, ◌^◌, ◌<◌, ◌≡◌, refl, ◌∙◌, ltb, Option, none, some, arith,
  if◌then◌else◌,
}

-- `a ^ b` on numbers of so many bits.
unfoldable pub xor : ℕ → ℕ → ℕ → ℕ
xor zero a b = 0
xor (suc bits) a b = (a % 2 + b % 2) % 2 + 2 * xor bits (a / 2) (b / 2)

-- `a << n` for a byte, which is promoted to int: none where the behaviour is undefined, since n is
-- not below the width of an int. No shift of a byte below that but by 24 leaves an int.
unfoldable pub shift_left : ℕ → ℕ → Option ℕ
shift_left a n = if ltb n 32 then some (a * 2 ^ n) else none

low_bit : (low rest : ℕ) → low < 2 → ((low + 2 * rest) % 2 ≡ low) × ((low + 2 * rest) / 2 ≡ rest)
low_bit low rest h = (omega arith, omega arith)

xor_step : (bits a b : ℕ) → xor (suc bits) a b ≡ (a % 2 + b % 2) % 2 + 2 * xor bits (a / 2) (b / 2)
unfolding xor
xor_step bits a b = refl

xor_zero : (a b : ℕ) → xor 0 a b ≡ 0
unfolding xor
xor_zero a b = refl

half_bound : (bits a : ℕ) → a < 2 ^ suc bits → a / 2 < 2 ^ bits
half_bound bits a h = omega arith

-- To mask a number of so many bits twice is to mask it not at all.
pub xor-xor : (bits a m : ℕ) → a < 2 ^ bits → xor bits (xor bits a m) m ≡ a
xor-xor zero a m h = omega (arith, xor_zero (xor 0 a m) m)
xor-xor (suc bits) a m h =
    let (low, high) = low_bit ((a % 2 + m % 2) % 2) (xor bits (a / 2) (m / 2)) (omega arith) in
    xor_step bits (xor (suc bits) a m) m
    ∙ rw (xor_step bits a m)
        (rw low (rw high (rw (xor-xor bits (a / 2) (m / 2) (half_bound bits a h)) (omega arith))))
