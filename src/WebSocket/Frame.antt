-- ===== src/WebSocket/Frame.antt =====
-- The frames of web_socket_server/server_ws.hpp: the header that `send` writes, the length that
-- `read_message` reads, and the mask that `read_message_content` takes off.
pub mod Bounds
pub mod Length
pub mod RoundTrip
use boost_irc.Base.{
  ℕ, zero, suc, ◌+◌, ◌*◌, ◌/◌, ◌%◌, ◌^◌, leb, ltb, Bool, true, false, Option, none, some, List, [],
  ◌∷◌, ◌++◌, Bytes, length, get_elem?, if◌then◌else◌,
}
use boost_irc.WebSocket.Bits.{xor, shift_left}

-- `for(int c=num_bytes-1;c>=0;c--) header_stream->put((length>>(8*c))%256);`
unfoldable pub length_bytes : ℕ → ℕ → Bytes
length_bytes zero n = []
length_bytes (suc c) n = (n / 2 ^ (8 * c)) % 256 ∷ length_bytes c n

-- The header stream of `send`, which is unmasked.
unfoldable pub frame_header : ℕ → ℕ → Bytes
frame_header fin_rsv_opcode n =
    fin_rsv_opcode
    ∷ (if leb 126 n
        then if ltb 65535 n then 127 ∷ length_bytes 8 n else 126 ∷ length_bytes 2 n
        else n ∷ [])

abbrev pub add_length : Option ℕ → Option ℕ → Option ℕ
add_length (some high) (some low) = some (high + low)
add_length (some high) none = none
add_length none low = none

-- `length+=length_bytes[c]<<(8*(num_bytes-1-c))`, over the bytes; none where a shift is undefined.
unfoldable pub read_length : Bytes → Option ℕ
unfolding shift_left
read_length [] = some 0
read_length (b ∷ bs) = add_length (shift_left b (8 * length bs)) (read_length bs)

-- `mask[c%4]`
unfoldable pub mask_at : Bytes → ℕ → ℕ
mask_at mask c = elim (get_elem? mask (c % 4)) [ none ↦ 0 | some m ↦ m ]

-- `put(raw_message_data.get()^mask[c%4])`, from the index c on.
unfoldable pub unmask : Bytes → ℕ → Bytes → Bytes
unmask mask c [] = []
unmask mask c (b ∷ bs) = xor 8 b (mask_at mask c) ∷ unmask mask (suc c) bs
