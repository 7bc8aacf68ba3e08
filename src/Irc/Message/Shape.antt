-- ===== src/Irc/Message/Shape.antt =====
-- What the constructor of `Message` leaves in its members, where the expression matches.
use boost_irc.Base.{
  ◌≤◌, ◌≡◌, ◌≢◌, refl, ◌∙◌, ap, true, some, List, [], ◌∷◌, ◌++◌, Bytes, All, all, lacks, length,
  append-nil, append_assoc,
}
use boost_irc.Boost.{StringAlgo}
use boost_irc.Boost.Regex.{Groups, RegexSearch, StartsLine, EndsLine, capture}
use boost_irc.Irc.Message.Pattern.{message_regex, not_space}
use boost_irc.Irc.Message.Matching.{IsWord, IsWord-lacks, spaced, IsTail, Parts-matches}
use boost_irc.Irc.Message.{Message, read_params, parse}

-- The text is a line of the protocol, and the command and the parameters are those of the line.
pub record IsLine (raw : Bytes) (m : Message) : Type 0 where
  pub before : Bytes
  pub lead : Bytes
  pub words : List Bytes
  pub tail : Bytes
  pub trailing : Bytes
  pub after : Bytes
  pub splits : raw ≡ before ++ (lead ++ (m.command ++ (spaced words ++ (tail ++ after))))
  pub starts : StartsLine before
  pub ends : EndsLine after
  pub command_ne_nil : m.command ≢ []
  pub command_bytes : all not_space m.command ≡ true
  pub few_words : length words ≤ 14
  pub words_are : All IsWord words
  pub tail_is : IsTail tail trailing
  pub params_are : m.params ≡ words ++ (trailing ∷ [])

module _ (algo : StringAlgo) where
  -- `boost::split` at spaces takes the words apart again.
  split-spaced :
      (s : Bytes) (ws : List Bytes)
      → lacks b' ' s ≡ true
      → All IsWord ws
      → algo.split (s ++ spaced ws) b' ' ≡ s ∷ ws
  split-spaced s [] h all_words = rw append-nil (algo.split_last s b' ' h)
  split-spaced s (w ∷ ws) h (hw, all_words) =
      algo.split_more s (w ++ spaced ws) b' ' h
      ∙ ap (◌∷◌ s) (split-spaced w ws (IsWord-lacks w hw) all_words)

  pub read_params-spaced :
      (ws : List Bytes) (trailing : Bytes)
      → All IsWord ws
      → read_params algo (spaced ws) trailing ≡ ws ++ (trailing ∷ [])
  unfolding read_params
  read_params-spaced ws trailing h = rw (split-spaced [] ws refl h) refl

regroup :
    (before after lead command words tail : Bytes) {raw text : Bytes}
    → raw ≡ before ++ (text ++ after)
    → text ≡ lead ++ (command ++ (words ++ tail))
    → raw ≡ before ++ (lead ++ (command ++ (words ++ (tail ++ after))))
regroup before after lead command words tail e f = rw (e, f) (simp append_assoc)

module _ (algo : StringAlgo) (regex : RegexSearch message_regex) where
  -- Where the expression matches, the message holds the parts of the line: the command is not
  -- empty and has no space, and the parameters are up to 14 words without spaces and then the
  -- trailing one, which is there (and empty) also where the line has none.
  pub parse-IsLine :
      (raw : Bytes) (gs : Groups) → regex.search raw ≡ some gs → IsLine raw (parse algo regex raw).0
  unfolding parse
  parse-IsLine raw gs e =
      let f = regex.search_sound raw gs e in
      let p = Parts-matches f.before f.matched f.after gs f.matches in
      rw (e, parse)
        (record {
          before = f.before;
          lead = p.lead;
          words = p.words;
          tail = p.tail;
          trailing = capture 8 gs;
          after = f.after;
          splits =
              regroup f.before f.after p.lead (capture 6 gs) (spaced p.words) p.tail f.splits
                p.splits;
          starts = p.starts;
          ends = p.ends;
          command_ne_nil = p.command_ne_nil;
          command_bytes = p.command_bytes;
          few_words = p.few_words;
          words_are = p.words_are;
          tail_is = p.tail_is;
          params_are = rw p.words_text (read_params-spaced algo p.words (capture 8 gs) p.words_are);
        })
