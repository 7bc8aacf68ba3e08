-- ===== src/WebSocket/Handshake.antt =====
-- The handshake of web_socket_server/server_ws.hpp: `parse_handshake`, `write_handshake` and
-- `generate_handshake`, and the handler of `read_handshake`. SHA-1 is Boost's and so is
-- boost::regex_match: both are parameters.
pub mod Answering
pub mod Accept
use boost_irc.Base.{
  ℕ, zero, suc, ◌+◌, ◌-◌, ◌*◌, ◌/◌, ◌%◌, ltb, Bool, true, false, Option, none, some, List, [], ◌∷◌,
  ◌++◌, Bytes, codes, crlf, equal, length, if◌then◌else◌, ◌≡◌,
}
use boost_irc.Boost.Regex.{Groups}
use boost_irc.Crypto.{Base64Filter, encode}
use boost_irc.Std.Find.{index_of, index_from, substr, size_sub}
use boost_irc.Std.Stream.{Stream, getline}
use boost_irc.HttpServer.Header.{Fields, read_header}
use boost_irc.HttpServer.Request.{Request, new_request, stream_of}

-- `header["key"]`
abbrev pub find_field : Bytes → Fields → Option Bytes
find_field key [] = none
find_field key ((k, v) ∷ header) = if equal k key then some v else find_field key header

-- `header.insert(field)`: a key that is there keeps its value.
abbrev pub insert_new : Option Bytes → Bytes × Bytes → Fields → Fields
insert_new none field header = header ++ (field ∷ [])
insert_new (some v) field header = header

abbrev pub insert_unique : Bytes × Bytes → Fields → Fields
insert_unique field header = insert_new (find_field field.0 header) field header

-- The members of a connection that the handshake sets, and the stream behind it; none where the loop
-- over the header does not end.
abbrev pub Parsed : Type 0
Parsed = Option (Request × Stream)

abbrev pub with_header : Request → Option (Fields × Stream) → Parsed
with_header c none = none
with_header c (some (header, stream)) = some (record c { header = header }, stream)

-- "1.1" where the line has nothing behind the protocol.
unfoldable pub handshake_version : Bytes → ℕ → Bytes
unfolding size_sub
handshake_version line path_end =
    if ltb (path_end + 6) (length line)
    then substr (path_end + 6) (size_sub (size_sub (length line) (path_end + 6)) 1) line
    else codes "1.1"

unfoldable pub parse_fields : ℕ → Bytes → ℕ → ℕ → Stream → Request → Parsed
unfolding getline read_header handshake_version
parse_fields fuel line method_end path_end stream c =
    with_header
      (record c {
        method = substr 0 method_end line;
        path = substr (method_end + 1) (size_sub (size_sub path_end method_end) 1) line;
        http_version = handshake_version line path_end;
      })
      (read_header insert_unique fuel (getline stream line).0 (getline stream line).1 c.header)

unfoldable pub parse_line : ℕ → Bytes × Stream → Request → Parsed
unfolding index_of index_from parse_fields
parse_line fuel (line, stream) c = elim (index_of b' ' line) [
  | none ↦ some (c, stream)
  | some method_end ↦ elim (index_from b' ' (method_end + 1) line) [
    | none ↦ some (c, stream)
    | some path_end ↦ parse_fields fuel line method_end path_end stream c
  ]
]

-- `parse_handshake`, on a new connection.
unfoldable pub parse_handshake : ℕ → Stream → Parsed
unfolding getline parse_line
parse_handshake fuel stream = parse_line fuel (getline stream []) new_request

abbrev pub hex_digit : ℕ → ℕ
hex_digit d = if ltb d 10 then 48 + d else 87 + d

-- `ss << hex << n` for an unsigned int, in front of some text: as many digits as it has.
unfoldable pub hex_from : ℕ → ℕ → Bytes → Bytes
hex_from zero n text = text
hex_from (suc digits) n text =
    let more = hex_from digits (n / 16) (hex_digit (n % 16) ∷ text) in
    if ltb n 16 then hex_digit (n % 16) ∷ text else more

unfoldable pub hex : ℕ → Bytes
unfolding hex_from
hex n = hex_from 8 n []

-- `setfill('0') << setw(8)`
unfoldable pub pad : ℕ → Bytes → Bytes
pad zero text = text
pad (suc n) text = 48 ∷ pad n text

abbrev pub hex_all : List ℕ → Bytes
hex_all [] = []
hex_all (n ∷ ns) = hex n ++ hex_all ns

-- The loop over the words of the digest: a width is spent by the first output.
unfoldable pub hex_words : List ℕ → Bytes
unfolding hex pad
hex_words [] = []
hex_words (n ∷ ns) = pad (8 - length (hex n)) (hex n) ++ hex_all ns

abbrev pub ws_magic_string : Bytes
ws_magic_string = codes "258EAFA5-E914-47DA-95CA-C5AB0DC85B11"

abbrev pub handshake_head : Bytes
handshake_head =
    codes
      "HTTP/1.1 101 Web Socket Protocol Handshake\r\nUpgrade: websocket\r\nConnection: Upgrade\r\nSec-WebSocket-Accept: "

-- What the handshake is made with: the five words of a digest, OpenSSL, and the endpoints, which are
-- numbered, in the order of the map.
pub record Handshaker : Type 0 where
  pub sha1 : Bytes → List ℕ
  pub filter : Base64Filter
  pub regex_match : Bytes → Bytes → Option Groups
  pub opt_endpoint : List (Bytes × ℕ)

module _ (h : Handshaker) where
  unfoldable pub accept_value : Bytes → Bytes
  unfolding hex_words encode
  accept_value key = encode h.filter (hex_words (h.sha1 (key ++ ws_magic_string)))

  -- The handshake, if the key is there.
  unfoldable pub generate_handshake : Request → Option Bytes
  unfolding accept_value
  generate_handshake c = elim (find_field (codes "sec-websocket-key") c.header) [
    | none ↦ none
    | some key ↦ some (handshake_head ++ (accept_value key ++ (crlf ++ crlf)))
  ]

  abbrev pub handshake_for : ℕ → Groups → Option Bytes → Option (ℕ × Groups × Bytes)
  handshake_for endpoint path_match none = none
  handshake_for endpoint path_match (some text) = some (endpoint, path_match, text)

  -- The first endpoint that matches, and what is written; none where nothing is.
  unfoldable pub write_handshake : List (Bytes × ℕ) → Request → Option (ℕ × Groups × Bytes)
  unfolding generate_handshake
  write_handshake [] c = none
  write_handshake ((expression, endpoint) ∷ opt_endpoint) c =
      elim (h.regex_match expression c.path) [
        | some path_match ↦ handshake_for endpoint path_match (generate_handshake c)
        | none ↦ write_handshake opt_endpoint c
      ]

  abbrev pub after_parse : Parsed → Option (ℕ × Groups × Bytes)
  after_parse none = none
  after_parse (some (c, stream)) = write_handshake h.opt_endpoint c

  -- The handler of async_read_until in `read_handshake`, on what was read.
  unfoldable pub handshake_read : Bool → Bytes → Option (ℕ × Groups × Bytes)
  unfolding parse_handshake write_handshake
  handshake_read true text = none
  handshake_read false text = after_parse (parse_handshake (length text) (stream_of text))
