-- ===== src/WebSocket/Frame/Bounds.antt =====
-- The size and the bytes of the header of a frame.
use boost_irc.Base.{
  ℕ, zero, suc, ◌<◌, leb, ltb, ◌≡◌, refl, Bool, true, false, [], ◌∷◌, Bytes, length, arith, All,
  if◌then◌else◌,
}
use boost_irc.WebSocket.Frame.{length_bytes, frame_header}

-- RFC 6455, section 5.2: the length takes no bytes of its own, or two, or eight.
abbrev pub header_size : ℕ → ℕ
header_size n = if ltb n 126 then 2 else if ltb n 65536 then 4 else 10

abbrev pub second : Bytes → ℕ
second (a ∷ b ∷ s) = b
second _ = 0

-- Its bytes are bytes, it is as short as it can be, and its mask bit is not set.
pub record IsHeader (n : ℕ) (header : Bytes) : Type 0 where
  pub bytes : All (λ b. b < 256) header
  pub size : length header ≡ header_size n
  pub unmasked : second header < 128

length_bytes-All : (c n : ℕ) → All (λ b. b < 256) (length_bytes c n)
unfolding length_bytes
length_bytes-All zero n = tt
length_bytes-All (suc c) n = (omega arith, length_bytes-All c n)

length-length_bytes : (c n : ℕ) → length (length_bytes c n) ≡ c
unfolding length_bytes
length-length_bytes zero n = refl
length-length_bytes (suc c) n = omega (arith, length-length_bytes c n)

-- By the two tests of `send`.
by_tests :
    (op n : ℕ) (long large : Bool)
    → op < 256
    → leb 126 n ≡ long
    → ltb 65535 n ≡ large
    → IsHeader n (
        op
        ∷ (if long
            then if large then 127 ∷ length_bytes 8 n else 126 ∷ length_bytes 2 n
            else n ∷ []))
by_tests op n false large byte e f = record {
  bytes = (byte, (ground (arith, e), tt));
  size = ground (arith, e);
  unmasked = ground (arith, e);
}
by_tests op n true false byte e f = record {
  bytes = (byte, (omega arith, length_bytes-All 2 n));
  size = ground (arith, e, f, length-length_bytes 2 n);
  unmasked = omega arith;
}
by_tests op n true true byte e f = record {
  bytes = (byte, (omega arith, length_bytes-All 8 n));
  size = ground (arith, e, f, length-length_bytes 8 n);
  unmasked = omega arith;
}

-- Whatever the length, the header that is sent has bytes only; it has 2 bytes for a length below
-- 126, 4 below 65536, and 10 from there on; and its mask bit is not set.
pub frame_header-IsHeader : (op n : ℕ) → op < 256 → IsHeader n (frame_header op n)
unfolding frame_header
frame_header-IsHeader op n byte = by_tests op n (leb 126 n) (ltb 65535 n) byte refl refl
