-- ===== src/HttpServer/Request/Size.antt =====
-- How long the text of a request is.
use boost_irc.Base.{◌+◌, ◌<◌, ◌≡◌, ◌∙◌, [], ◌∷◌, Bytes, length, length-append, arith}
use boost_irc.Std.Find.{size_sub, size_sub_le}
use boost_irc.HttpServer.Header.{Fields}
use boost_irc.HttpServer.Header.Reading.{header_text, field_line}
use boost_irc.HttpServer.Request.{Request}
use boost_irc.HttpServer.Request.RoundTrip.{request_line, request_text}

length-header_text :
    (fs : Fields) (body : Bytes)
    → length (header_text fs body) ≡ length (header_text fs []) + length body
length-header_text [] body = omega arith
length-header_text (f ∷ fs) body = omega (
  arith,
  length-append (field_line f) (b'\n' ∷ header_text fs body),
  length-append (field_line f) (b'\n' ∷ header_text fs []),
  length-header_text fs body,
)

header_text_bound : (fs : Fields) → length fs < length (header_text fs [])
header_text_bound [] = omega arith
header_text_bound (f ∷ fs) =
    omega (arith, length-append (field_line f) (b'\n' ∷ header_text fs []), header_text_bound fs)

length-request_text :
    (r : Request) (behind : Bytes)
    → length (request_text r behind) ≡ length (request_text r []) + length behind
length-request_text r behind = omega (
  arith,
  length-append (request_line r) (b'\n' ∷ header_text r.header behind),
  length-append (request_line r) (b'\n' ∷ header_text r.header []),
  length-header_text r.header behind,
)

pub request_text_bound :
    (r : Request) (behind : Bytes) → length r.header < length (request_text r behind)
request_text_bound r behind = omega (
  arith,
  length-append (request_line r) (b'\n' ∷ header_text r.header behind),
  length-header_text r.header behind,
  header_text_bound r.header,
)

pub size_behind :
    (r : Request) (behind : Bytes)
    → size_sub (length (request_text r behind)) (length (request_text r [])) ≡ length behind
size_behind r behind =
    size_sub_le (length (request_text r behind)) (length (request_text r []))
      (omega (arith, length-request_text r behind))
    ∙ omega (arith, length-request_text r behind)
