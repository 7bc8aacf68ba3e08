-- ===== src/Irc/Message/RoundTrip.antt =====
-- How lines with a full prefix and a trailing parameter are parsed.
use boost_irc.Base.{◌≡◌, refl, ◌∙◌, ap, Option, none, some, List, [], ◌∷◌, ◌++◌, Bytes}
use boost_irc.Boost.{StringAlgo}
use boost_irc.Boost.Regex.{RegexSearch}
use boost_irc.Boost.Regex.First.{search_first}
use boost_irc.Boost.Regex.First.Parts.{Takes-search_first}
use boost_irc.Irc.Message.Pattern.{message_regex}
use boost_irc.Irc.Message.Matching.{spaced}
use boost_irc.Irc.Message.Shape.{read_params-spaced}
use boost_irc.Irc.Message.Line.{Line, IsPrintable, line_text, groups_with, line_groups, prefix_text}
use boost_irc.Irc.Message.Printed.{line-Takes}
use boost_irc.Irc.Message.{Message, Tags, tag_step, read_tags, read_params, fill_message, parse}

module _ (algo : StringAlgo) where
  -- The tags are split at semicolons, and each at its equals sign.
  abbrev pub tags_of : Option Bytes → Tags × List Bytes
  tags_of none = ([], [])
  tags_of (some t) = read_tags algo (algo.split t b';') []

  abbrev pub message_of : Line → Message
  message_of l = record {
    raw = line_text l;
    tags = (tags_of l.tags).0;
    prefix = prefix_text l.nickname l.user l.host;
    nickname = l.nickname;
    user = l.user;
    host = l.host;
    command = l.command;
    params = l.words ++ (l.trailing ∷ []);
  }

  no_tags : read_tags algo (algo.split [] b';') [] ≡ ([], [])
  unfolding read_tags tag_step
  no_tags =
      ap (λ tokens. read_tags algo tokens []) (algo.split_last [] b';' refl)
      ∙ rw (algo.split_last [] b'=' refl) refl

  -- The members, from what was read of the tags and the parameters.
  filled : Line → Tags × List Bytes → List Bytes → Message × List Bytes
  filled l (tags, printed) params = (
    record {
      raw = line_text l;
      tags = tags;
      prefix = prefix_text l.nickname l.user l.host;
      nickname = l.nickname;
      user = l.user;
      host = l.host;
      command = l.command;
      params = params;
    },
    printed,
  )

  fill_message-filled :
      (tags : Option Bytes) (l : Line)
      → fill_message algo (line_text l) (groups_with tags l)
        ≡ filled l (tags_of tags) (read_params algo (spaced l.words) l.trailing)
  unfolding fill_message filled
  fill_message-filled none l =
      ap (λ ts. filled l ts (read_params algo (spaced l.words) l.trailing)) no_tags
  fill_message-filled (some t) l = refl

  fill_message-line :
      (l : Line)
      → IsPrintable l
      → fill_message algo (line_text l) (line_groups l) ≡ (message_of l, (tags_of l.tags).1)
  unfolding filled
  fill_message-line l i =
      fill_message-filled l.tags l
      ∙ ap (filled l (tags_of l.tags)) (read_params-spaced algo l.words l.trailing i.words_are)

  module _ (regex : RegexSearch message_regex)
      (first : (s : Bytes) → regex.search s ≡ search_first message_regex s) where
    -- Where boost::regex_search reports the first match in Perl's order: a line with a prefix
    -- nick!user@host, a command, up to 14 words and a trailing parameter, with or without tags, is
    -- parsed as just these, and its tags as they are split at semicolons and equals signs. All that
    -- is behind the colon is the trailing parameter, also a carriage return at its end.
    pub parse-line_text :
        (l : Line)
        → IsPrintable l
        → parse algo regex (line_text l) ≡ (message_of l, (tags_of l.tags).1)
    unfolding parse
    parse-line_text l i =
        let e : regex.search (line_text l) ≡ some (line_groups l) =
          first (line_text l)
          ∙ Takes-search_first message_regex (line_text l) (line_groups l) (line-Takes l i) in
        rw (e, parse) (fill_message-line l i)
