-- ===== src/WebSocket/Frame/RoundTrip.antt =====
-- What RFC 6455 reads of the frames that `send` writes, and how a mask is taken off.
use boost_irc.Base.{
  ℕ, suc, ◌^◌, ◌<◌, ◌≡◌, refl, ap, arith, Bytes, [], ◌∷◌, ◌++◌, Option, some, none, length, take,
  drop, leb, ltb, if◌then◌else◌, All, length-append,
}
use boost_irc.Std.Find.{take-length, drop-length}
use boost_irc.WebSocket.Bits.{xor-xor}
use boost_irc.WebSocket.Frame.{frame_header, length_bytes, unmask, mask_at}
use boost_irc.WebSocket.Frame.Length.{
  big_endian, big_endian-length_bytes_two, big_endian-length_bytes_eight,
}

-- A frame of a server, read as RFC 6455 says (section 5.2): the first byte, the payload and what
-- follows the frame; none if the text is not a whole frame without a mask.
abbrev payload : ℕ → ℕ → Bytes → Option (ℕ × Bytes × Bytes)
payload fin n rest = if leb n (length rest) then some (fin, take n rest, drop n rest) else none

pub read_frame : Bytes → Option (ℕ × Bytes × Bytes)
read_frame [] = none
read_frame (fin ∷ []) = none
read_frame (fin ∷ n ∷ rest) =
    if ltb n 126
    then payload fin n rest
    else if ltb n 127
    then payload fin (big_endian 0 (take 2 rest)) (drop 2 rest)
    else if ltb n 128
    then payload fin (big_endian 0 (take 8 rest)) (drop 8 rest)
    else none

payload-append :
    (fin n : ℕ) (m rest : Bytes) → n ≡ length m → payload fin n (m ++ rest) ≡ some (fin, m, rest)
payload-append fin n m rest e =
    ground (arith, e, take-length m rest, drop-length m rest, length-append m rest)

read_small :
    (fin : ℕ) (m rest : Bytes)
    → length m < 126
    → read_frame (fin ∷ length m ∷ (m ++ rest)) ≡ some (fin, m, rest)
unfolding read_frame
read_small fin m rest h = ground (arith, payload-append fin (length m) m rest refl)

read_middle :
    (fin : ℕ) (m rest : Bytes)
    → length m < 65536
    → read_frame (fin ∷ 126 ∷ (length_bytes 2 (length m) ++ (m ++ rest))) ≡ some (fin, m, rest)
unfolding read_frame length_bytes
read_middle fin m rest h = payload-append fin _ m rest (big_endian-length_bytes_two (length m) h)

read_large :
    (fin : ℕ) (m rest : Bytes)
    → length m < 2 ^ 64
    → read_frame (fin ∷ 127 ∷ (length_bytes 8 (length m) ++ (m ++ rest))) ≡ some (fin, m, rest)
unfolding read_frame length_bytes
read_large fin m rest h = payload-append fin _ m rest (big_endian-length_bytes_eight (length m) h)

-- A message whose length is below 2^64 is sent as one frame of RFC 6455: what a reader takes from
-- the header and the message is the first byte, the message, and what is sent behind it.
pub read_frame-frame_header :
    (fin : ℕ) (m rest : Bytes)
    → length m < 2 ^ 64
    → read_frame (frame_header fin (length m) ++ (m ++ rest)) ≡ some (fin, m, rest)
unfolding frame_header
read_frame-frame_header fin m rest h =
    ground (arith, read_small fin m rest, read_middle fin m rest, read_large fin m rest)

-- The mask is taken off as it was put on.
pub unmask-unmask :
    (mask : Bytes) (c : ℕ) (m : Bytes) → All (λ b. b < 256) m → unmask mask c (unmask mask c m) ≡ m
unfolding unmask
unmask-unmask mask c [] h = refl
unmask-unmask mask c (b ∷ m) h =
    rw (xor-xor 8 b (mask_at mask c) h.0) (ap (◌∷◌ b) (unmask-unmask mask (suc c) m h.1))

pub length-unmask : (mask : Bytes) (c : ℕ) (m : Bytes) → length (unmask mask c m) ≡ length m
unfolding unmask
length-unmask mask c [] = refl
length-unmask mask c (b ∷ m) = ap suc (length-unmask mask (suc c) m)
