-- ===== src/HttpServer/Request/Ending.antt =====
-- `parse_request` ends on every text that async_read_until can have read.
use boost_irc.Base.{
  ℕ, zero, suc, ◌+◌, ◌<◌, ◌≡◌, refl, sym, ap, ◌∙◌, subst, Bool, true, false, Option, none, some,
  List, [], ◌∷◌, ◌++◌, Bytes, codes, length, length-append, if◌then◌else◌, arith, not, equal,
}
use boost_irc.Std.Find.{index_of, index_of-none, index_from, substr, size_sub}
use boost_irc.Std.Stream.{Stream, getline, getline-append}
use boost_irc.HttpServer.Header.{Fields, read_header}
use boost_irc.HttpServer.Header.Ending.{
  ended, AreLines, good, lines_of, length-ended, read_header-Ends, Ends,
}
use boost_irc.HttpServer.Header.Reading.{read_header_end}
use boost_irc.HttpServer.Request.{
  Request, Parsed, new_request, insert, parse_header, parse_protocol, parse_path, parse_method,
  parse_request, stream_of, with_header,
}

abbrev pub IsParsed : Parsed → Type 0
IsParsed o = (p : Bool × Request × Stream) × (o ≡ some p)

with_header-IsParsed :
    (r : Request) (o : Option (Fields × Stream)) → Ends insert o → IsParsed (with_header r o)
with_header-IsParsed r o (p, e) = ((true, record r { header = p.0 }, p.1), ap (with_header r) e)

IsParsed-if : (b : Bool) (p q : Parsed) → IsParsed p → IsParsed q → IsParsed (if b then p else q)
IsParsed-if true p q h k = h
IsParsed-if false p q h k = k

IsParsed-search :
    (o : Option ℕ) (p : Parsed) (f : ℕ → Parsed)
    → IsParsed p
    → ((n : ℕ) → IsParsed (f n))
    → IsParsed (elim o [ none ↦ p | some n ↦ f n ])
IsParsed-search none p f h k = h
IsParsed-search (some n) p f h k = k n

-- The loop over the header, with its first line.
first_line-Ends :
    (ls : List Bytes) (behind line : Bytes) (fuel : ℕ) (header : Fields)
    → AreLines ls
    → length ls + 1 < fuel
    → Ends insert (
        read_header insert fuel
          (getline (good (ended ls behind)) line).0
          (getline (good (ended ls behind)) line).1
          header)
first_line-Ends ls behind line zero header h l = absurd (omega (arith, l))
first_line-Ends [] behind line (suc fuel) header h l = (
  (header, good behind),
  ap (λ g. read_header insert (suc fuel) g.0 g.1 header)
        (getline-append (codes "\r") behind line refl)
      ∙ read_header_end insert fuel (codes "\r") (good behind) header
          (index_of-none b':' (codes "\r") refl),
)
first_line-Ends (m ∷ ls) behind line (suc fuel) header h l =
    let (r, q) = read_header-Ends insert ls behind m (suc fuel) header h.1 (omega (arith, l)) in
    (
      r,
      ap (λ g. read_header insert (suc fuel) g.0 g.1 header)
            (getline-append m (ended ls behind) line h.0)
          ∙ q,
    )

module _ (ls : List Bytes) (behind line : Bytes) (fuel : ℕ) (h : AreLines ls)
    (l : length ls + 1 < fuel) where
  abbrev rest : Stream
  rest = good (ended ls behind)

  parse_header-IsParsed : (r : Request) → IsParsed (parse_header fuel line rest r)
  unfolding parse_header
  parse_header-IsParsed r =
      with_header-IsParsed r _ (first_line-Ends ls behind line fuel r.header h l)

  parse_protocol-IsParsed : (p : ℕ) (r : Request) → IsParsed (parse_protocol fuel line p rest r)
  unfolding parse_protocol
  parse_protocol-IsParsed p r =
      IsParsed-search (index_from b'/' (p + 1) line) (some (false, r, rest))
        (λ e.
          if not (equal (substr (p + 1) (size_sub (size_sub e p) 1) line) (codes "HTTP"))
          then some (false, r, rest)
          else parse_header fuel line rest (record r {
            http_version = substr (e + 1) (size_sub (size_sub (length line) e) 2) line;
          }))
        ((false, r, rest), refl)
        (λ e.
          IsParsed-if (not (equal (substr (p + 1) (size_sub (size_sub e p) 1) line) (codes "HTTP")))
            (some (false, r, rest))
            (parse_header fuel line rest (record r {
              http_version = substr (e + 1) (size_sub (size_sub (length line) e) 2) line;
            }))
            ((false, r, rest), refl) (parse_header-IsParsed _))

  parse_path-IsParsed : (m : ℕ) (r : Request) → IsParsed (parse_path fuel line m rest r)
  unfolding parse_path
  parse_path-IsParsed m r =
      IsParsed-search (index_from b' ' (m + 1) line) (some (false, r, rest))
        (λ p. parse_protocol fuel line p rest (record r {
          method = substr 0 m line;
          path = substr (m + 1) (size_sub (size_sub p m) 1) line;
        }))
        ((false, r, rest), refl) (λ p. parse_protocol-IsParsed p _)

  parse_method-IsParsed : IsParsed (parse_method fuel (line, rest))
  unfolding parse_method
  parse_method-IsParsed =
      IsParsed-search (index_of b' ' line) (some (false, new_request, rest))
        (λ m. parse_path fuel line m rest new_request) ((false, new_request, rest), refl)
        (λ m. parse_path-IsParsed m new_request)

-- On a text with two line ends in a row, parse_request ends, with as many rounds of its loop as the
-- text has bytes.
pub parse_request-IsParsed :
    (a behind : Bytes)
    → let text = a ++ (codes "\r\n\r\n" ++ behind) in
      IsParsed (parse_request (length text) (stream_of text))
unfolding parse_request
parse_request-IsParsed a behind =
    let (line, ls, h, e) = lines_of a behind in
    let text = line ++ (b'\n' ∷ ended ls behind) in
    subst (λ t. IsParsed (parse_request (length t) (stream_of t))) (sym e)
      (subst (λ g. IsParsed (parse_method (length text) g))
        (sym (getline-append line (ended ls behind) [] h.0))
        (parse_method-IsParsed ls behind line (length text) h.1
          (omega (arith, length-ended ls behind, length-append line (b'\n' ∷ ended ls behind)))))
