-- ===== src/WebSocket/Handshake/Answering.antt =====
-- Which handshakes are answered, and with what.
use boost_irc.Base.{
  ℕ, ◌+◌, ◌-◌, ◌<◌, ◌≡◌, refl, sym, ap, ◌∙◌, subst, Bool, true, false, Bool-cases, inl, inr, Option,
  none, some, List, [], ◌∷◌, ◌++◌, Bytes, codes, crlf, equal, equal_iff, length, length-append,
  ltb-eq-true, if◌then◌else◌, arith,
}
use boost_irc.Boost.Regex.{Groups}
use boost_irc.Std.Find.{
  index_of, index_from, substr, substr-append, size_sub, size_sub_le, take-length,
}
use boost_irc.Std.Stream.{Stream, getline, getline-append}
use boost_irc.HttpServer.Header.{Fields, read_header}
use boost_irc.HttpServer.Header.Reading.{header_text, inserted, read_header-header_text}
use boost_irc.HttpServer.Request.{Request, new_request, stream_of}
use boost_irc.HttpServer.Request.Size.{request_text_bound}
use boost_irc.HttpServer.Request.RoundTrip.{
  IsRequest, request_line, request_text, before_version, at_version, length-before_version,
  find_method, find_path, part_path, line-lacks, m_end, p_end,
}
use boost_irc.WebSocket.Handshake.{
  find_field, insert_new, insert_unique, handshake_version, parse_fields, parse_line,
  parse_handshake, Handshaker, accept_value, generate_handshake, handshake_for, handshake_head,
  write_handshake, after_parse, handshake_read,
}

-- A field that is inserted is found unless its key was there before.
abbrev first_of : Option Bytes → Option Bytes → Option Bytes
first_of none later = later
first_of (some v) later = some v

first_of-none : (o : Option Bytes) → first_of o none ≡ o
first_of-none none = refl
first_of-none (some v) = refl

first_of-if :
    (o later : Option Bytes) (b : Bool) (v : Bytes)
    → first_of (first_of o (if b then some v else none)) later
      ≡ first_of o (if b then some v else later)
first_of-if (some u) later b v = refl
first_of-if none later true v = refl
first_of-if none later false v = refl

find_field-append :
    (key : Bytes) (h : Fields) (f : Bytes × Bytes)
    → find_field key (h ++ (f ∷ []))
      ≡ first_of (find_field key h) (if equal f.0 key then some f.1 else none)
find_field-append key [] f = refl
find_field-append key ((k, v) ∷ h) f =
    ground (arith, Bool-cases (equal k key), find_field-append key h f)

find_field-insert_unique :
    (key : Bytes) (h : Fields) (f : Bytes × Bytes)
    → find_field key (insert_unique f h)
      ≡ first_of (find_field key h) (if equal f.0 key then some f.1 else none)
find_field-insert_unique key h f = inserted_by (find_field f.0 h) refl
  where
    inserted_by :
        (o : Option Bytes)
        → find_field f.0 h ≡ o
        → find_field key (insert_new o f h)
          ≡ first_of (find_field key h) (if equal f.0 key then some f.1 else none)
    inserted_by none e = find_field-append key h f
    inserted_by (some v) e = elim (Bool-cases (equal f.0 key)) [
      | inl q ↦
          let same : find_field key h ≡ some v =
            subst (λ k. find_field k h ≡ some v) ((equal_iff f.0 key).0 q) e in
          rw q (rw same refl)
      | inr q ↦ rw q (sym (first_of-none (find_field key h)))
    ]

find_field-inserted :
    (key : Bytes) (h fs : Fields)
    → find_field key (inserted insert_unique h fs) ≡ first_of (find_field key h) (find_field key fs)
find_field-inserted key h [] = sym (first_of-none (find_field key h))
find_field-inserted key h (f ∷ fs) =
    find_field-inserted key (insert_unique f h) fs
    ∙ ap (λ o. first_of o (find_field key fs)) (find_field-insert_unique key h f)
    ∙ first_of-if (find_field key h) (find_field key fs) (equal f.0 key) f.1

-- The steps of the parser, where each search succeeds.
parse_handshake_step :
    (fuel m p : ℕ) (line : Bytes) (stream rest : Stream)
    → getline stream [] ≡ (line, rest)
    → index_of b' ' line ≡ some m
    → index_from b' ' (m + 1) line ≡ some p
    → parse_handshake fuel stream ≡ parse_fields fuel line m p rest new_request
unfolding parse_handshake parse_line
parse_handshake_step fuel m p line stream rest g h k =
    ap (λ x. parse_line fuel x new_request) g ∙ rw (h, parse_line) (rw k refl)

parse_fields_step :
    (fuel m p : ℕ) (line method path version : Bytes) (rest behind : Stream) (header : Fields)
    → substr 0 m line ≡ method
    → substr (m + 1) (size_sub (size_sub p m) 1) line ≡ path
    → handshake_version line p ≡ version
    → read_header insert_unique fuel (getline rest line).0 (getline rest line).1 []
      ≡ some (header, behind)
    → parse_fields fuel line m p rest new_request
      ≡ some
          (record { method = method; path = path; http_version = version; header = header }, behind)
unfolding parse_fields
parse_fields_step fuel m p line method path version rest behind header e k v h =
    rw (h, parse_fields) (rw e (rw k (rw v refl)))

version_size : (n p m : ℕ) → n ≡ p + 6 + (m + 1) → size_sub (size_sub n (p + 6)) 1 ≡ m
version_size n p m e =
    ap (λ x. size_sub x 1) (size_sub_le n (p + 6) (omega (arith, e)))
    ∙ size_sub_le (n - (p + 6)) 1 (omega (arith, e))
    ∙ omega (arith, e)

handshake_version-append :
    (before version : Bytes) (p : ℕ)
    → length before ≡ p + 6
    → handshake_version (before ++ (version ++ codes "\r")) p ≡ version
unfolding handshake_version
handshake_version-append before version p l =
    let line = before ++ (version ++ codes "\r") in
    let size : length line ≡ p + 6 + (length version + 1) = omega (
      arith,
      length-append before (version ++ codes "\r"),
      length-append version (codes "\r"),
      l,
    ) in
    rw (ltb-eq-true (p + 6) (length line) (omega (arith, size))) (
      ap (λ n. substr (p + 6) n line) (version_size (length line) p (length version) size)
      ∙ substr-append (p + 6) (length version) before version (codes "\r") l refl)

module _ (r : Request) (h : IsRequest r) where
  version_at : handshake_version (request_line r) (p_end r h) ≡ r.http_version
  version_at =
      ap (λ line. handshake_version line (p_end r h)) (at_version r h)
      ∙ handshake_version-append (before_version r h) r.http_version (p_end r h)
          (length-before_version r h ∙ omega arith)

  pub parse_handshake-request_text :
      (fuel : ℕ) (behind : Bytes)
      → length r.header < fuel
      → parse_handshake fuel (stream_of (request_text r behind))
        ≡ some (record r { header = inserted insert_unique [] r.header }, stream_of behind)
  parse_handshake-request_text fuel behind l =
      let line = request_line r in
      let rest = stream_of (header_text r.header behind) in
      parse_handshake_step fuel (m_end r h) (p_end r h) line (stream_of (request_text r behind))
        rest (getline-append line (header_text r.header behind) [] (line-lacks r h))
        (find_method r h) (find_path r h)
      ∙ parse_fields_step fuel (m_end r h) (p_end r h) line r.method r.path r.http_version rest
          (stream_of behind) (inserted insert_unique [] r.header) (take-length r.method _)
          (part_path r h) version_at
          (read_header-header_text insert_unique r.header fuel behind line [] h.fields l)

-- The first endpoint whose expression matches a path.
abbrev pub first_endpoint :
    (Bytes → Bytes → Option Groups) → Bytes → List (Bytes × ℕ) → Option (ℕ × Groups)
first_endpoint regex_match path [] = none
first_endpoint regex_match path ((expression, endpoint) ∷ es) = elim (regex_match expression path) [
  | some path_match ↦ some (endpoint, path_match)
  | none ↦ first_endpoint regex_match path es
]

module _ (hs : Handshaker) where
  -- What is written for an endpoint and a key.
  abbrev pub answered : Option (ℕ × Groups) → Option Bytes → Option (ℕ × Groups × Bytes)
  answered (some (endpoint, path_match)) (some key) =
      some (endpoint, path_match, handshake_head ++ (accept_value hs key ++ (crlf ++ crlf)))
  answered (some (endpoint, path_match)) none = none
  answered none key = none

  generate_handshake-answered :
      (endpoint : ℕ) (path_match : Groups) (c : Request)
      → handshake_for hs endpoint path_match (generate_handshake hs c)
        ≡ answered (some (endpoint, path_match)) (find_field (codes "sec-websocket-key") c.header)
  unfolding generate_handshake
  generate_handshake-answered endpoint path_match c =
      by_key (find_field (codes "sec-websocket-key") c.header)
    where
      by_key :
          (o : Option Bytes)
          → handshake_for hs endpoint path_match (elim o [
            | none ↦ none
            | some key ↦ some (handshake_head ++ (accept_value hs key ++ (crlf ++ crlf)))
          ])
            ≡ answered (some (endpoint, path_match)) o
      by_key none = refl
      by_key (some key) = refl

  write_handshake-answered :
      (es : List (Bytes × ℕ)) (c : Request)
      → write_handshake hs es c
        ≡ answered
            (first_endpoint hs.regex_match c.path es)
            (find_field (codes "sec-websocket-key") c.header)
  unfolding write_handshake
  write_handshake-answered [] c = refl
  write_handshake-answered ((expression, endpoint) ∷ es) c =
      by_match (hs.regex_match expression c.path) (write_handshake-answered es c)
    where
      by_match :
          (o : Option Groups)
          → (write_handshake hs es c
              ≡ answered
                  (first_endpoint hs.regex_match c.path es)
                  (find_field (codes "sec-websocket-key") c.header))
          → (elim o [
            | some path_match ↦ handshake_for hs endpoint path_match (generate_handshake hs c)
            | none ↦ write_handshake hs es c
          ])
            ≡ answered
                (elim o [
                  | some path_match ↦ some (endpoint, path_match)
                  | none ↦ first_endpoint hs.regex_match c.path es
                ])
                (find_field (codes "sec-websocket-key") c.header)
      by_match none ih = ih
      by_match (some path_match) ih = generate_handshake-answered endpoint path_match c

  -- A handshake that is written as HTTP has it is answered if an endpoint matches its path and it has
  -- a field that is named sec-websocket-key, in lower case: the answer is for the first such endpoint
  -- and has the accept value of the first such field. Any other is not answered.
  pub handshake_read-request_text :
      (r : Request)
      → IsRequest r
      → (behind : Bytes)
      → handshake_read hs false (request_text r behind)
        ≡ answered
            (first_endpoint hs.regex_match r.path hs.opt_endpoint)
            (find_field (codes "sec-websocket-key") r.header)
  unfolding handshake_read
  handshake_read-request_text r h behind =
      ap (after_parse hs) (
        parse_handshake-request_text r h (length (request_text r behind)) behind
          (request_text_bound r behind))
      ∙ write_handshake-answered hs.opt_endpoint
          (record r { header = inserted insert_unique [] r.header })
      ∙ ap (answered (first_endpoint hs.regex_match r.path hs.opt_endpoint))
          (find_field-inserted (codes "sec-websocket-key") [] r.header)
