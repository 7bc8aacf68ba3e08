-- ===== src/WebSocket/Frame/Length.antt =====
-- The length bytes of a frame are the digits of its length to the base 256.
use boost_irc.Base.{ℕ, ◌+◌, ◌*◌, ◌^◌, ◌<◌, ◌≡◌, refl, ap, arith, Bytes, [], ◌∷◌, some, none, length}
use boost_irc.WebSocket.Frame.{length_bytes, read_length}

-- A number that is sent with its high bytes first, as RFC 6455 has it (network byte order).
abbrev pub big_endian : ℕ → Bytes → ℕ
big_endian n [] = n
big_endian n (b ∷ bs) = big_endian (n * 256 + b) bs

pub big_endian-length_bytes_two : (n : ℕ) → n < 2 ^ 16 → big_endian 0 (length_bytes 2 n) ≡ n
unfolding length_bytes
big_endian-length_bytes_two n h = omega arith

pub big_endian-length_bytes_eight : (n : ℕ) → n < 2 ^ 64 → big_endian 0 (length_bytes 8 n) ≡ n
unfolding length_bytes
big_endian-length_bytes_eight n h = omega arith

-- The two bytes of a middle length are read as they are meant.
pub read_length_two : (a b : ℕ) → read_length (a ∷ b ∷ []) ≡ some (big_endian 0 (a ∷ b ∷ []))
unfolding read_length
read_length_two a b = ap some (omega arith)

-- The first byte of eight is shifted beyond the width of an int.
pub read_length_eight : (a : ℕ) (bs : Bytes) → length bs ≡ 7 → read_length (a ∷ bs) ≡ none
unfolding read_length
read_length_eight a bs h = rw h refl
