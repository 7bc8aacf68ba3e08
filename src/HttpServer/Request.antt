-- ===== src/HttpServer/Request.antt =====
-- `Request` and `parse_request` of web_server/server_http.hpp.
pub mod RoundTrip
pub mod Size
pub mod Ending
use boost_irc.Base.{
  ℕ, suc, ◌+◌, not, Bool, true, false, Option, none, some, List, [], ◌∷◌, ◌++◌, Bytes, codes, equal,
  length, if◌then◌else◌,
}
use boost_irc.Std.Find.{index_of, index_from, substr, size_sub}
use boost_irc.Std.Stream.{Stream, getline}
use boost_irc.HttpServer.Header.{Fields, read_header}

-- The fields in the order of their insertion: `header` is a multimap.
pub record Request : Type 0 where
  pub method : Bytes
  pub path : Bytes
  pub http_version : Bytes
  pub header : Fields

abbrev pub new_request : Request
new_request = record { method = []; path = []; http_version = []; header = [] }

abbrev pub insert : Bytes × Bytes → Fields → Fields
insert field header = header ++ (field ∷ [])

-- What was parsed: whether to go on, the request, and the stream behind it; none where the loop over
-- the header does not end in the rounds that it is given.
abbrev pub Parsed : Type 0
Parsed = Option (Bool × Request × Stream)

abbrev with_header : Request → Option (Fields × Stream) → Parsed
with_header r none = none
with_header r (some (header, stream)) = some (true, record r { header = header }, stream)

-- The part behind the version.
unfoldable pub parse_header : ℕ → Bytes → Stream → Request → Parsed
unfolding getline read_header
parse_header fuel line stream r =
    with_header r (read_header insert fuel (getline stream line).0 (getline stream line).1 r.header)

unfoldable pub parse_protocol : ℕ → Bytes → ℕ → Stream → Request → Parsed
unfolding index_from size_sub parse_header
parse_protocol fuel line path_end stream r = elim (index_from b'/' (path_end + 1) line) [
  | none ↦ some (false, r, stream)
  | some protocol_end ↦
      if not (
        equal (substr (path_end + 1) (size_sub (size_sub protocol_end path_end) 1) line)
          (codes "HTTP"))
      then some (false, r, stream)
      else parse_header fuel line stream (record r {
        http_version =
            substr (protocol_end + 1) (size_sub (size_sub (length line) protocol_end) 2) line;
      })
]

unfoldable pub parse_path : ℕ → Bytes → ℕ → Stream → Request → Parsed
unfolding index_from size_sub parse_protocol
parse_path fuel line method_end stream r = elim (index_from b' ' (method_end + 1) line) [
  | none ↦ some (false, r, stream)
  | some path_end ↦ parse_protocol fuel line path_end stream (record r {
    method = substr 0 method_end line;
    path = substr (method_end + 1) (size_sub (size_sub path_end method_end) 1) line;
  })
]

-- On the first line, and what is behind it.
unfoldable pub parse_method : ℕ → Bytes × Stream → Parsed
unfolding index_of parse_path
parse_method fuel (line, rest) = elim (index_of b' ' line) [
  | none ↦ some (false, new_request, rest)
  | some method_end ↦ parse_path fuel line method_end rest new_request
]

-- `parse_request`, on a new request.
unfoldable pub parse_request : ℕ → Stream → Parsed
unfolding getline parse_method
parse_request fuel stream = parse_method fuel (getline stream [])

-- The stream of a buffer, which is new.
abbrev pub stream_of : Bytes → Stream
stream_of text = record { text = text; good = true }
