-- ===== src/Tests/HttpServer.antt =====
-- The HTTP server on requests for two resources.
use mathlib.Core.List.Permᴰ
use std.Quotient.{cls}
use boost_irc.Irc.Stoi.{ℤ}
use boost_irc.HttpServer.Keys.{upper, ihash, iequal_to}
use boost_irc.HttpServer.Keys.Classes.{Key, iequal_to-Key}
use boost_irc.HttpServer.Resources.Order.{find_resource-perm}
use boost_irc.Base.{
  inl, inr, List, ℕ, ◌≡◌, refl, Bool, true, false, Option, none, some, [], ◌∷◌, ◌++◌, Bytes, codes,
  equal, length, arith, map, suc, ◌↔◌,
}
use boost_irc.Boost.Regex.{Groups}
use boost_irc.HttpServer.Request.{Request, parse_request, stream_of}
use boost_irc.HttpServer.Request.RoundTrip.{IsRequest, request_text, parse_request-request_text}
use boost_irc.HttpServer.Request.Ending.{IsParsed, parse_request-IsParsed}
use boost_irc.HttpServer.Number.{is_above}
use boost_irc.HttpServer.Resources.{
  OptResource, add_resources, find_resource, find_path, find_default,
}
use boost_irc.HttpServer.Resources.Grouping.{of_method, or_else, find_resource-first}
use boost_irc.HttpServer.Connection.{Server, accepted, header_ends, values, IsOneOf}
use boost_irc.HttpServer.Connection.Content.{Calls, header_ends-Calls}

is_above_runs :
    (is_above (codes "1.1") ≡ some true)
    × (is_above (codes "1.0") ≡ some false)
    × (is_above (codes "1.05") ≡ some false)
    × (is_above (codes "20e-1x") ≡ some true)
    × (is_above (codes "x") ≡ none)
unfolding is_above equal
is_above_runs = (refl, refl, refl, refl, refl)

abbrev pub get : Request
get = record {
  method = codes "GET";
  path = codes "/a";
  http_version = codes "1.1";
  header = (codes "Host", codes "h") ∷ [];
}

pub get-IsRequest : IsRequest get
get-IsRequest = record {
  method_word = (refl, refl);
  path_word = (refl, refl);
  version_line = refl;
  fields = ((refl, refl, refl), tt);
}

parse_request_runs :
    parse_request 9 (stream_of (codes "GET /a HTTP/1.1\r\nHost: h\r\n\r\nx"))
    ≡ some (true, get, stream_of (codes "x"))
unfolding parse_request equal
parse_request_runs = refl

parse_request-request_text_example :
    parse_request 2 (stream_of (request_text get (codes "x")))
    ≡ some (true, get, stream_of (codes "x"))
parse_request-request_text_example =
    parse_request-request_text get get-IsRequest 2 (codes "x") (omega arith)

parse_request-IsParsed_example :
    IsParsed (parse_request 12 (stream_of (codes "a b c" ++ (codes "\r\n\r\n" ++ codes "xyz"))))
parse_request-IsParsed_example = parse_request-IsParsed (codes "a b c") (codes "xyz")

-- An expression that is a path matches it.
abbrev pub match_if : Bool → Option Groups
match_if true = some []
match_if false = none

abbrev pub same_path : Bytes → Bytes → Option Groups
same_path expression path = match_if (equal expression path)

abbrev pub resource : OptResource ℕ
resource =
    (codes "/b", (codes "GET", 1) ∷ (codes "POST", 2) ∷ [])
    ∷ (codes "/a", (codes "GET", 3) ∷ [])
    ∷ []

find_resource-first_example :
    find_resource same_path (add_resources resource []) [] (codes "GET") (codes "/a")
    ≡ or_else
        (find_path same_path (codes "/a") (of_method (codes "GET") resource))
        (find_default (codes "GET") [])
find_resource-first_example = find_resource-first same_path (codes "/a") (codes "GET") resource []

-- Of several fields the last is found.
abbrev pub last_of : List Bytes → Option Bytes
last_of [] = none
last_of (x ∷ []) = some x
last_of (x ∷ y ∷ xs) = last_of (y ∷ xs)

pub last_of-none : (xs : List Bytes) → last_of xs ≡ none → xs ≡ []
last_of-none [] e = refl
last_of-none (x ∷ []) e = absurd cc
last_of-none (x ∷ y ∷ xs) e = let h : y ∷ xs ≡ [] = last_of-none (y ∷ xs) e in absurd cc

pub last_of-IsOneOf : (xs : List Bytes) (v : Bytes) → last_of xs ≡ some v → IsOneOf v xs
last_of-IsOneOf [] v e = absurd cc
last_of-IsOneOf (x ∷ []) v e = inl cc
last_of-IsOneOf (x ∷ y ∷ xs) v e = inr (last_of-IsOneOf (y ∷ xs) v e)

abbrev pub server : Server ℕ
server = record {
  timeout_request = 5;
  timeout_content = 300;
  opt_resource = add_resources resource [];
  default_resource = [];
  regex_match = same_path;
  iequals = equal;
  find = λ name header. last_of (values equal name header);
  find_none = λ name header. last_of-none (values equal name header);
  find_some = λ name header. last_of-IsOneOf (values equal name header);
}

abbrev other_order : OptResource ℕ
other_order =
    (codes "/a", (codes "GET", 3) ∷ [])
    ∷ (codes "/b", (codes "GET", 1) ∷ (codes "POST", 2) ∷ [])
    ∷ []

find_resource-perm_example :
    find_resource same_path (add_resources resource []) [] (codes "GET") (codes "/a")
    ≡ find_resource same_path (add_resources other_order []) [] (codes "GET") (codes "/a")
unfolding equal
find_resource-perm_example =
    find_resource-perm same_path (codes "/a") (codes "GET") resource other_order []
      (Permᴰ.swap refl refl) (omega arith)

header_ends-Calls_example : Calls 3 [] get (codes "x") (accepted server) (
    header_ends server false
      (request_text get (codes "x"))
      (length (request_text get []))
      (accepted server))
unfolding find_resource add_resources equal
header_ends-Calls_example =
    header_ends-Calls server 3 [] get refl get-IsRequest (codes "x") (accepted server) refl

abbrev put : Request
put = record get {
  method = codes "POST";
  path = codes "/b";
  header = (codes "Content-Length", codes "5") ∷ [];
}

-- Names are compared by their upper case, and hashed by the number of their bytes.
abbrev iequals : Bytes → Bytes → Bool
iequals k l = equal (map upper k) (map upper l)

abbrev counted : ℕ → ℤ → ℕ
counted seed c = suc seed

iequal_to-Key_example :
    ((iequal_to iequals (codes "Host") (codes "hOST") ≡ true)
      ↔ ◌≡◌ {A = Key iequals (λ k l. refl)} (cls (codes "Host")) (cls (codes "hOST")))
    × (◌≡◌ {A = Key iequals (λ k l. refl)} (cls (codes "Host")) (cls (codes "hOST"))
        → ihash counted (codes "Host") ≡ ihash counted (codes "hOST"))
iequal_to-Key_example = iequal_to-Key iequals (λ k l. refl) counted (codes "Host") (codes "hOST")
