-- ===== src/Tests/Samples.antt =====
-- A line of a chat, and an expression search: that which reports the first match.
use boost_irc.Base.{◌≡◌, refl, some, [], ◌∷◌, Bytes, codes, arith}
use boost_irc.Boost.Regex.{Groups, RegexSearch}
use boost_irc.Boost.Regex.First.{search_first}
use boost_irc.Boost.Regex.First.Sound.{search_first-IsFound}
use boost_irc.Irc.Message.Pattern.{message_regex}
use boost_irc.Irc.Message.Line.{Line, IsPrintable}

abbrev pub chat_line : Bytes
chat_line = codes "@k=v :n!u@h PRIVMSG #c :hi you"

abbrev pub parts : Line
parts = record {
  tags = some (codes "k=v");
  nickname = codes "n";
  user = codes "u";
  host = codes "h";
  command = codes "PRIVMSG";
  words = codes "#c" ∷ [];
  trailing = codes "hi you";
}

pub parts-IsPrintable : IsPrintable parts
parts-IsPrintable = record {
  tags_are = refl;
  nickname_is = refl;
  user_is = refl;
  host_is = refl;
  command_is = (refl, refl);
  few_words = omega arith;
  words_are = ((refl, refl), tt);
}

abbrev pub chat_groups : Groups
chat_groups =
    (1, codes "k=v")
    ∷ (3, codes "n")
    ∷ (4, codes "u")
    ∷ (5, codes "h")
    ∷ (2, codes "n!u@h")
    ∷ (6, codes "PRIVMSG")
    ∷ (7, codes " #c")
    ∷ (8, codes "hi you")
    ∷ []

abbrev pub regex : RegexSearch message_regex
regex = record {
  search = search_first message_regex;
  search_sound = search_first-IsFound message_regex;
}

-- A line with no prefix and no trailing parameter is found as well.
search_runs :
    search_first message_regex (codes "PING a") ≡ some ((6, codes "PING") ∷ (7, codes " a") ∷ [])
unfolding search_first
search_runs = refl
