-- ===== src/Irc/Message/Pattern.antt =====
-- The regular expression of `Message`, part by part as its comments lay it out.
use boost_irc.Base.{ℕ, Bool, true, not, ◌==◌, ◌||◌}
use boost_irc.Boost.Regex.{
  Regex, one_of, seq, opt, star, lazy_star, plus, up_to, group, line_start, line_end,
}

abbrev pub byte_is : ℕ → ℕ → Bool
byte_is k c = c == k

abbrev pub any_byte : ℕ → Bool
any_byte c = true

abbrev pub not_space : ℕ → Bool
not_space c = not (c == b' ')

abbrev pub not_at : ℕ → Bool
not_at c = not (c == b'@')

-- `[^@!\ ]`
abbrev pub is_nick_byte : ℕ → Bool
is_nick_byte c = not (c == b'@' || c == b'!' || c == b' ')

-- `[^:\ ]`
abbrev pub starts_word : ℕ → Bool
starts_word c = not (c == b':' || c == b' ')

abbrev pub tags_part : Regex
tags_part = opt (
    seq (one_of (byte_is b'@'))
      (seq (group 1 (lazy_star (one_of any_byte))) (one_of (byte_is b' '))))

abbrev pub user_part : Regex
user_part = opt (seq (one_of (byte_is b'!')) (group 4 (star (one_of not_at))))

abbrev pub host_part : Regex
host_part = opt (seq user_part (seq (one_of (byte_is b'@')) (group 5 (star (one_of not_space)))))

abbrev pub nick_part : Regex
nick_part = group 3 (star (one_of is_nick_byte))

abbrev pub prefix_part : Regex
prefix_part =
    opt (
      seq (one_of (byte_is b':')) (seq (group 2 (seq nick_part host_part)) (one_of (byte_is b' '))))

abbrev pub command_part : Regex
command_part = group 6 (plus (one_of not_space))

abbrev pub word_part : Regex
word_part = seq (one_of (byte_is b' ')) (seq (one_of starts_word) (star (one_of not_space)))

abbrev pub words_part : Regex
words_part = group 7 (up_to 14 word_part)

abbrev pub trailing_part : Regex
trailing_part = opt (
    seq (one_of (byte_is b' '))
      (seq (opt (one_of (byte_is b':'))) (group 8 (star (one_of any_byte)))))

-- The expression, from each of its parts on.
abbrev pub from_trailing : Regex
from_trailing = seq trailing_part line_end

abbrev pub from_words : Regex
from_words = seq words_part from_trailing

abbrev pub from_command : Regex
from_command = seq command_part from_words

abbrev pub from_prefix : Regex
from_prefix = seq prefix_part from_command

abbrev pub from_tags : Regex
from_tags = seq tags_part from_prefix

abbrev pub message_regex : Regex
message_regex = seq line_start from_tags
