-- ===== src/Irc/Message.antt =====
-- The class `Message` of irc/irc_client.hpp: its regular expression, its constructor and
-- `toString`.
pub mod Pattern
pub mod Matching
pub mod Shape
pub mod Line
pub mod Printed
pub mod RoundTrip
use boost_irc.Base.{
  ℕ, zero, suc, ◌≡◌, ◌==◌, ◌&&◌, ltb, not, Bool, true, false, Option, none, some, List, [], ◌∷◌,
  ◌++◌, map, Bytes, codes, crlf, equal, if◌then◌else◌,
}
use boost_irc.Boost.{StringAlgo, Piece, text, arg}
use boost_irc.Boost.Regex.{Groups, RegexSearch, capture}
use boost_irc.Irc.Message.Pattern.{message_regex}

-- `operator<` of std::string.
unfoldable pub less : Bytes → Bytes → Bool
less [] [] = false
less [] (y ∷ ys) = true
less (x ∷ xs) [] = false
less (x ∷ xs) (y ∷ ys) = if x == y then less xs ys else ltb x y

-- std::map<std::string, std::string>: its entries in the order of their keys.
abbrev pub Tags : Type 0
Tags = List (Bytes × Bytes)

-- `insert` keeps an entry that is there.
unfoldable pub insert : Bytes → Bytes → Tags → Tags
unfolding less equal
insert k v [] = (k, v) ∷ []
insert k v ((j, w) ∷ m) =
    if equal j k
    then (j, w) ∷ m
    else if less k j
    then (k, v) ∷ (j, w) ∷ m
    else (j, w) ∷ insert k v m

pub record Message : Type 0 where
  pub raw : Bytes
  pub tags : Tags
  pub prefix : Bytes
  pub nickname : Bytes
  pub user : Bytes
  pub host : Bytes
  pub command : Bytes
  pub params : List Bytes

-- The members before the constructor's body runs.
abbrev pub empty_message : Message
empty_message = record {
  raw = [];
  tags = [];
  prefix = [];
  nickname = [];
  user = [];
  host = [];
  command = [];
  params = [];
}

-- One round of the loop over the tags, on the token and its parts at `=`: the map, and the lines
-- written to std::cout. `boost::split` yields one part at least (`split-ne-nil`).
unfoldable pub tag_step : Bytes → List Bytes → Tags → Tags × List Bytes
unfolding insert
tag_step token [] m = (m, [])
tag_step token ([] ∷ more) m = (m, [])
tag_step token ((c ∷ k) ∷ []) m = (insert (c ∷ k) [] m, [])
tag_step token ((c ∷ k) ∷ v ∷ []) m = (insert (c ∷ k) v m, [])
tag_step token ((c ∷ k) ∷ v ∷ w ∷ more) m = (m, token ∷ [])

-- `this->params.erase(this->params.begin())`
abbrev pub erase_begin : List Bytes → List Bytes
erase_begin [] = []
erase_begin (x ∷ xs) = xs

module _ (algo : StringAlgo) where
  unfoldable pub read_tags : List Bytes → Tags → Tags × List Bytes
  unfolding tag_step
  read_tags [] m = (m, [])
  read_tags (token ∷ tokens) m =
      let (m', printed) = tag_step token (algo.split token b'=') m in
      let (m'', more) = read_tags tokens m' in (m'', printed ++ more)

  -- The last push_back stands behind the empty statement of its `if`, so it is always made.
  unfoldable pub read_params : Bytes → Bytes → List Bytes
  read_params words trailing = erase_begin (algo.split words b' ') ++ (trailing ∷ [])

  -- The body of the constructor, on the groups of the match.
  unfoldable pub fill_message : Bytes → Groups → Message × List Bytes
  unfolding read_tags read_params
  fill_message raw gs =
      let (tags, printed) = read_tags (algo.split (capture 1 gs) b';') [] in
      (
        record {
          raw = raw;
          tags = tags;
          prefix = capture 2 gs;
          nickname = capture 3 gs;
          user = capture 4 gs;
          host = capture 5 gs;
          command = capture 6 gs;
          params = read_params (capture 7 gs) (capture 8 gs);
        },
        printed,
      )

  -- `Message(raw)`, with the lines written to std::cout.
  unfoldable pub parse : RegexSearch message_regex → Bytes → Message × List Bytes
  unfolding fill_message
  parse regex raw = elim (regex.search raw) [
    | none ↦ (empty_message, [])
    | some gs ↦ fill_message raw gs
  ]

  tag_line : List Piece
  tag_line =
      text (codes "        \"")
      ∷ arg 0
      ∷ text (codes "\": \"")
      ∷ arg 1
      ∷ text (codes "\",\r\n")
      ∷ []

  -- The loop of `toString` over the map.
  unfoldable pub show_tags : Bytes → Tags → Bytes
  unfolding tag_line
  show_tags out [] = out
  show_tags out ((k, v) ∷ m) = show_tags (out ++ algo.format tag_line (k ∷ v ∷ [])) m

  message_format : List Piece
  message_format =
      text (codes "{\r\n    \"nickname\": \"")
      ∷ arg 0
      ∷ text (codes "\",\r\n    \"user\": \"")
      ∷ arg 1
      ∷ text (codes "\",\r\n    \"host\": \"")
      ∷ arg 2
      ∷ text (codes "\",\r\n    \"command\": \"")
      ∷ arg 3
      ∷ text (codes "\",\r\n    \"params\": \"")
      ∷ arg 4
      ∷ text (codes "\",\r\n")
      ∷ arg 5
      ∷ text (codes "}")
      ∷ []

  unfoldable pub to_string : Message → Bytes
  unfolding show_tags message_format
  to_string m =
      let shown = show_tags (codes "    \"tags\": [\r\n") m.tags ++ codes "    ]\r\n" in
      algo.format message_format
        (m.nickname ∷ m.user ∷ m.host ∷ m.command ∷ algo.join m.params (codes ":") ∷ shown ∷ [])
