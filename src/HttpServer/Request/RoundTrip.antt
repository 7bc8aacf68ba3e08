-- ===== src/HttpServer/Request/RoundTrip.antt =====
-- A request that is written as HTTP has it is parsed as it was written.
use boost_irc.Base.{
  ℕ, ◌+◌, ◌-◌, ◌<◌, ◌≡◌, refl, sym, ap, ◌∙◌, true, some, [], ◌∷◌, ◌++◌, Bytes, codes, equal, length,
  length-append, lacks, lacks-append, append_assoc, append-nil, arith, All,
}
use boost_irc.Std.Find.{
  index_of, index_of-append, index_from, index_from-append, substr, substr-append, size_sub,
  size_sub_le, take-length,
}
use boost_irc.Std.Stream.{Stream, getline, getline-append}
use boost_irc.HttpServer.Header.{Fields, read_header}
use boost_irc.HttpServer.Header.Reading.{IsField, header_text, inserted, read_header-header_text}
use boost_irc.HttpServer.Request.{
  Request, new_request, insert, parse_header, parse_protocol, parse_path, parse_method,
  parse_request, stream_of,
}

-- The request line of HTTP, without its line feed.
abbrev pub request_line : Request → Bytes
request_line r =
    r.method
    ++ ((b' ' ∷ [])
        ++ (r.path
            ++ ((b' ' ∷ []) ++ (codes "HTTP" ++ ((b'/' ∷ []) ++ (r.http_version ++ codes "\r"))))))

abbrev pub request_text : Request → Bytes → Bytes
request_text r body = request_line r ++ (b'\n' ∷ header_text r.header body)

pub record IsRequest (r : Request) : Type 0 where
  pub method_word : (lacks b' ' r.method ≡ true) × (lacks b'\n' r.method ≡ true)
  pub path_word : (lacks b' ' r.path ≡ true) × (lacks b'\n' r.path ≡ true)
  pub version_line : lacks b'\n' r.http_version ≡ true
  pub fields : All IsField r.header

inserted-append : (h fs : Fields) → inserted insert h fs ≡ h ++ fs
inserted-append h [] = sym (append-nil h)
inserted-append h (f ∷ fs) = inserted-append (h ++ (f ∷ [])) fs ∙ append_assoc h (f ∷ []) fs

-- The steps of the parser, where each search succeeds.
parse_request_step :
    (fuel m : ℕ) (line : Bytes) (stream rest : Stream)
    → getline stream [] ≡ (line, rest)
    → index_of b' ' line ≡ some m
    → parse_request fuel stream ≡ parse_path fuel line m rest new_request
unfolding parse_request parse_method
parse_request_step fuel m line stream rest g h =
    ap (parse_method fuel) g ∙ rw (h, parse_method) refl

parse_path_step :
    (fuel m p : ℕ) (line method path : Bytes) (rest : Stream) (q : Request)
    → index_from b' ' (m + 1) line ≡ some p
    → substr 0 m line ≡ method
    → substr (m + 1) (size_sub (size_sub p m) 1) line ≡ path
    → parse_path fuel line m rest q
      ≡ parse_protocol fuel line p rest (record q { method = method; path = path })
unfolding parse_path
parse_path_step fuel m p line method path rest q h e k =
    rw (h, parse_path)
      (ap
          (λ x.
            parse_protocol fuel line p rest
              (record q { method = x; path = substr (m + 1) (size_sub (size_sub p m) 1) line }))
          e
        ∙ ap (λ x. parse_protocol fuel line p rest (record q { method = method; path = x })) k)

parse_protocol_step :
    (fuel p e : ℕ) (line version : Bytes) (rest : Stream) (q : Request)
    → index_from b'/' (p + 1) line ≡ some e
    → substr (p + 1) (size_sub (size_sub e p) 1) line ≡ codes "HTTP"
    → substr (e + 1) (size_sub (size_sub (length line) e) 2) line ≡ version
    → parse_protocol fuel line p rest q
      ≡ parse_header fuel line rest (record q { http_version = version })
unfolding parse_protocol equal
parse_protocol_step fuel p e line version rest q h k v =
    rw (h, parse_protocol)
      (rw k (ap (λ x. parse_header fuel line rest (record q { http_version = x })) v))

parse_header_step :
    (fuel : ℕ) (line : Bytes) (rest : Stream) (q : Request) (fields : Fields) (behind : Stream)
    → read_header insert fuel (getline rest line).0 (getline rest line).1 q.header
      ≡ some (fields, behind)
    → parse_header fuel line rest q ≡ some (true, record q { header = fields }, behind)
unfolding parse_header
parse_header_step fuel line rest q fields behind h = rw (h, parse_header) refl

module _ (r : Request) (h : IsRequest r) where
  abbrev pub line : Bytes
  line = request_line r

  abbrev pub m_end : ℕ
  m_end = length r.method

  abbrev pub p_end : ℕ
  p_end = length r.method + 1 + length r.path

  -- The parts of the line that come before the path, the protocol and the version.
  abbrev pub before_path : Bytes
  before_path = r.method ++ (b' ' ∷ [])

  abbrev before_protocol : Bytes
  before_protocol = r.method ++ ((b' ' ∷ []) ++ (r.path ++ (b' ' ∷ [])))

  abbrev pub before_version : Bytes
  before_version =
      r.method ++ ((b' ' ∷ []) ++ (r.path ++ ((b' ' ∷ []) ++ (codes "HTTP" ++ (b'/' ∷ [])))))

  at_path :
      line
      ≡ before_path
        ++ (r.path ++ (b' ' ∷ (codes "HTTP" ++ (b'/' ∷ (r.http_version ++ codes "\r")))))
  at_path = sym (append_assoc r.method (b' ' ∷ []) _)

  at_protocol : line ≡ before_protocol ++ (codes "HTTP" ++ (b'/' ∷ (r.http_version ++ codes "\r")))
  at_protocol = simp append_assoc refl

  pub at_version : line ≡ before_version ++ (r.http_version ++ codes "\r")
  at_version = simp append_assoc refl

  length-before_path : length before_path ≡ m_end + 1
  length-before_path = length-append r.method (b' ' ∷ [])

  length-before_protocol : length before_protocol ≡ p_end + 1
  length-before_protocol = omega (
    arith,
    length-append r.method ((b' ' ∷ []) ++ (r.path ++ (b' ' ∷ []))),
    length-append r.path (b' ' ∷ []),
  )

  pub length-before_version : length before_version ≡ p_end + 1 + 4 + 1
  length-before_version = omega (
    arith,
    length-append r.method ((b' ' ∷ []) ++ (r.path ++ (b' ' ∷ (codes "HTTP/")))),
    length-append r.path (b' ' ∷ (codes "HTTP/")),
  )

  pub length-line : length line ≡ p_end + 1 + 4 + 1 + length r.http_version + 1
  length-line = omega (
    arith,
    ap length at_version,
    length-append before_version (r.http_version ++ codes "\r"),
    length-append r.http_version (codes "\r"),
    length-before_version,
  )

  pub find_method : index_of b' ' line ≡ some m_end
  find_method = index_of-append b' ' r.method _ h.method_word.0

  pub find_path : index_from b' ' (m_end + 1) line ≡ some p_end
  find_path =
      ap (index_from b' ' (m_end + 1)) at_path
      ∙ index_from-append b' ' (m_end + 1) before_path r.path _ length-before_path h.path_word.0

  find_protocol : index_from b'/' (p_end + 1) line ≡ some (p_end + 1 + 4)
  find_protocol =
      ap (index_from b'/' (p_end + 1)) at_protocol
      ∙ index_from-append b'/' (p_end + 1) before_protocol (codes "HTTP") _ length-before_protocol
          refl

  pub part_path : substr (m_end + 1) (size_sub (size_sub p_end m_end) 1) line ≡ r.path
  part_path = rw (size_sub_le p_end m_end (omega arith)) (
      rw (size_sub_le (p_end - m_end) 1 (omega arith)) (
        ap (substr (m_end + 1) (p_end - m_end - 1)) at_path
        ∙ substr-append (m_end + 1) (p_end - m_end - 1) before_path r.path _ length-before_path
            (omega arith)))

  part_protocol :
      substr (p_end + 1) (size_sub (size_sub (p_end + 1 + 4) p_end) 1) line ≡ codes "HTTP"
  part_protocol = rw (size_sub_le (p_end + 1 + 4) p_end (omega arith)) (
      rw (size_sub_le (p_end + 1 + 4 - p_end) 1 (omega arith)) (
        ap (substr (p_end + 1) (p_end + 1 + 4 - p_end - 1)) at_protocol
        ∙ substr-append (p_end + 1) (p_end + 1 + 4 - p_end - 1) before_protocol (codes "HTTP") _
            length-before_protocol (omega arith)))

  pub part_version :
      substr (p_end + 1 + 4 + 1) (size_sub (size_sub (length line) (p_end + 1 + 4)) 2) line
      ≡ r.http_version
  part_version = rw (size_sub_le (length line) (p_end + 1 + 4) (omega (arith, length-line))) (
      rw (size_sub_le (length line - (p_end + 1 + 4)) 2 (omega (arith, length-line))) (
        ap (substr (p_end + 1 + 4 + 1) (length line - (p_end + 1 + 4) - 2)) at_version
        ∙ substr-append (p_end + 1 + 4 + 1) (length line - (p_end + 1 + 4) - 2) before_version
            r.http_version (codes "\r") length-before_version (omega (arith, length-line))))

  pub line-lacks : lacks b'\n' line ≡ true
  line-lacks = lacks-append b'\n' r.method _ h.method_word.1 (
      lacks-append b'\n' r.path _ h.path_word.1
        (lacks-append b'\n' r.http_version (codes "\r") h.version_line refl))

  abbrev with_path : Request
  with_path = record new_request { method = r.method; path = r.path }

  abbrev with_version : Request
  with_version = record with_path { http_version = r.http_version }

  -- A request is parsed as it was written: a request line with HTTP/ and a version, fields, and
  -- the blank line give the method, the path, the version and the fields, in their order, and the
  -- body is left in the stream. One round more than there are fields is enough.
  pub parse_request-request_text :
      (fuel : ℕ) (body : Bytes)
      → length r.header < fuel
      → parse_request fuel (stream_of (request_text r body)) ≡ some (true, r, stream_of body)
  parse_request-request_text fuel body l =
      let rest = stream_of (header_text r.header body) in
      parse_request_step fuel m_end line (stream_of (request_text r body)) rest
        (getline-append line (header_text r.header body) [] line-lacks) find_method
      ∙ parse_path_step fuel m_end p_end line r.method r.path rest new_request find_path
          (take-length r.method _) part_path
      ∙ parse_protocol_step fuel p_end (p_end + 1 + 4) line r.http_version rest with_path
          find_protocol part_protocol part_version
      ∙ parse_header_step fuel line rest with_version r.header (stream_of body) (
          read_header-header_text insert r.header fuel body line [] h.fields l
          ∙ ap (λ x. some (x, stream_of body)) (inserted-append [] r.header))
