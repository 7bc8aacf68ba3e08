-- ===== src/HttpServer/Keys.antt =====
-- The names of the header fields in web_server/server_http.hpp: `iequal_to` and `ihash`, by which
-- the unordered map of a request finds them.
pub mod Classes
use boost_irc.Base.{
  ℕ, ◌-◌, ◌==◌, ltb, leb, ◌&&◌, Bool, true, false, Option, none, some, List, [], ◌∷◌, Bytes, map,
  equal, if◌then◌else◌, ◌≡◌,
}
use boost_irc.Irc.Stoi.{ℤ, pos, negsuc}
use boost_irc.HttpServer.Number.{lower}
use boost_irc.HttpServer.Header.{Fields}

-- `std::toupper(c, locale)`, in the classic locale.
abbrev pub upper : ℕ → ℕ
upper c = if leb b'a' c && leb c b'z' then c - 32 else c

-- `std::tolower(c)` of a char that is signed, as it is on x86: of what is negative only EOF, the
-- byte 255, is allowed; none where the behaviour is undefined.
abbrev pub tolower : ℕ → Option ℤ
tolower c = if ltb c 128 then some (pos (lower c)) else if c == 255 then some (negsuc 0) else none

module _ (hash_combine : ℕ → ℤ → ℕ) where
  -- The loop, from a seed on.
  unfoldable pub ihash_from : ℕ → Bytes → Option ℕ
  ihash_from seed [] = some seed
  ihash_from seed (c ∷ key) = elim (tolower c) [
    | none ↦ none
    | some i ↦ ihash_from (hash_combine seed i) key
  ]

  abbrev pub ihash : Bytes → Option ℕ
  ihash key = ihash_from 0 key

-- What Boost says of iequals: texts are compared by their upper case, byte by byte.
abbrev pub IsCaseless : (Bytes → Bytes → Bool) → Type 0
IsCaseless iequals = (k l : Bytes) → iequals k l ≡ equal (map upper k) (map upper l)

module _ (iequals : Bytes → Bytes → Bool) where
  abbrev pub iequal_to : Bytes → Bytes → Bool
  iequal_to key1 key2 = iequals key1 key2
