-- ===== src/JsonClient.antt =====
-- http_client/json_client.cpp, and the callback that src/twitch_client.cpp gives it. The trees of
-- Boost, with their reader, are a parameter.
pub mod Response
use boost_irc.Base.{ℕ, suc, Option, none, some, List, [], ◌∷◌, ◌++◌, Bytes, codes, newline}
use boost_irc.Bot.{decimal}
use boost_irc.HttpClient.{Action, call_back, Client, create}
use boost_irc.Irc.Stoi.{ℤ, pos, negsuc}

-- boost::property_tree: none where a function throws.
pub record Trees (Tree : Type 0) : Type 0 where
  pub read_json : Bytes → Option Tree
  pub get_child : Bytes → Tree → Option Tree
  -- get_value<int>
  pub get_int : Tree → Option ℤ

-- What a callback does: it prints, or an exception leaves it, and with it the io_service's thread,
-- which ends the program.
pub data Outcome : Type 0 where
  printed : Bytes → Outcome
  thrown : Outcome

abbrev pub show_int : ℤ → Bytes
show_int (pos n) = decimal n
show_int (negsuc n) = codes "-" ++ decimal (suc n)

abbrev pub print_value : Option ℤ → Outcome
print_value none = thrown
print_value (some n) = printed (show_int n ++ newline)

-- An exception ends the program.
abbrev pub outcomes_behind : Outcome → List Outcome → List Outcome
outcomes_behind (printed text) later = printed text ∷ later
outcomes_behind thrown later = thrown ∷ []

module _ {Tree : Type 0} (trees : Trees Tree) where
  -- The callback of `twitch_client::reply`.
  unfoldable pub show_chatters : Tree → Outcome
  show_chatters res = elim (trees.get_child (codes "chatter_count") res) [
    | none ↦ thrown
    | some chatter_count ↦ print_value (trees.get_int chatter_count)
  ]

  module _ (json_cb : Tree → Outcome) where
    -- The callback that `json_client` gives to its http_client, on the body of a response.
    unfoldable pub read_body : Bytes → Outcome
    read_body res = elim (trees.read_json res) [ none ↦ thrown | some pt ↦ json_cb pt ]

    -- What comes of the actions of the http_client.
    unfoldable pub outcomes : List Action → List Outcome
    unfolding read_body
    outcomes [] = []
    outcomes (call_back res ∷ actions) = outcomes_behind (read_body res) (outcomes actions)
    outcomes (action ∷ actions) = outcomes actions

-- `json_client::create` makes an http_client.
abbrev pub create_json : Bytes → Bytes → Client
create_json server path = create server path
