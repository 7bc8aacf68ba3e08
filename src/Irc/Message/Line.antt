-- ===== src/Irc/Message/Line.antt =====
-- Lines as the protocol has them, and the groups that the expression of `Message` has on them.
use boost_irc.Base.{
  ◌≤◌, ◌≡◌, true, Option, none, some, List, [], ◌∷◌, ◌++◌, Bytes, length, All, all,
}
use boost_irc.Boost.Regex.{Groups}
use boost_irc.Irc.Message.Matching.{IsWord, spaced}
use boost_irc.Irc.Message.Pattern.{not_space, not_at, is_nick_byte}

-- A line: its tags, if it has them, the parts of its prefix, and so on.
pub record Line : Type 0 where
  pub tags : Option Bytes
  pub nickname : Bytes
  pub user : Bytes
  pub host : Bytes
  pub command : Bytes
  pub words : List Bytes
  pub trailing : Bytes

abbrev pub IsCommand : Bytes → Type 0
IsCommand [] = ⊥
IsCommand (c ∷ s) = (not_space c ≡ true) × (all not_space s ≡ true)

abbrev pub AreTags : Option Bytes → Type 0
AreTags none = Unit {0}
AreTags (some t) = all not_space t ≡ true

pub record IsPrintable (l : Line) : Type 0 where
  pub tags_are : AreTags l.tags
  pub nickname_is : all is_nick_byte l.nickname ≡ true
  pub user_is : all not_at l.user ≡ true
  pub host_is : all not_space l.host ≡ true
  pub command_is : IsCommand l.command
  pub few_words : length l.words ≤ 14
  pub words_are : All IsWord l.words

-- The text of a line, from each of its parts on.
abbrev pub trailing_text : Bytes → Bytes
trailing_text trailing = b' ' ∷ b':' ∷ trailing

abbrev pub words_text : List Bytes → Bytes → Bytes
words_text words trailing = spaced words ++ trailing_text trailing

abbrev pub command_text : Bytes → List Bytes → Bytes → Bytes
command_text command words trailing = command ++ words_text words trailing

-- nick!user@host
abbrev pub prefix_text : Bytes → Bytes → Bytes → Bytes
prefix_text nickname user host = nickname ++ (b'!' ∷ (user ++ (b'@' ∷ host)))

-- The groups from the command on.
abbrev pub command_groups : Groups → Bytes → List Bytes → Bytes → Groups
command_groups gs command words trailing =
    ((gs ++ ((6, command) ∷ [])) ++ ((7, spaced words) ∷ [])) ++ ((8, trailing) ∷ [])

-- The groups of the prefix.
abbrev pub prefix_groups : Groups → Bytes → Bytes → Bytes → Groups
prefix_groups gs nickname user host =
    (((gs ++ ((3, nickname) ∷ [])) ++ ((4, user) ∷ [])) ++ ((5, host) ∷ []))
    ++ ((2, prefix_text nickname user host) ∷ [])

-- A line as the protocol has it.
abbrev pub tagged : Option Bytes → Bytes → Bytes
tagged none rest = rest
tagged (some t) rest = b'@' ∷ (t ++ (b' ' ∷ rest))

abbrev pub tag_groups : Option Bytes → Groups
tag_groups none = []
tag_groups (some t) = (1, t) ∷ []

abbrev pub line_text : Line → Bytes
line_text l = tagged l.tags (
    b':'
    ∷ (l.nickname
        ++ (b'!'
            ∷ (l.user
                ++ (b'@'
                    ∷ (l.host
                        ++ (b' '
                            ∷ (l.command ++ (spaced l.words ++ (b' ' ∷ b':' ∷ l.trailing))))))))))

-- The groups of a line, with some tags.
abbrev pub groups_with : Option Bytes → Line → Groups
groups_with tags l =
    command_groups (prefix_groups (tag_groups tags) l.nickname l.user l.host) l.command l.words
      l.trailing

abbrev pub line_groups : Line → Groups
line_groups l = groups_with l.tags l
