-- ===== src/Irc/Message/Matching.antt =====
-- The parts of a line that the expression of `Message` matches, and their groups.
use boost_irc.Base.{
  ℕ, zero, suc, ◌≤◌, ◌≡◌, ◌≢◌, ◌⊎◌, inl, inr, refl, ◌∙◌, ap, true, false, some, List, [], ◌∷◌, ◌++◌,
  Bytes, arith, All, all, lacks, length, append-nil, append_assoc,
}
use boost_irc.Boost.Regex.{
  Regex, declares, line_start, line_end, Groups, Then, Matches, Times, StartsLine, EndsLine, one_of,
  find, capture, find-append, find-append_some, find-append_right,
}
use boost_irc.Boost.Regex.Laws.{find-undeclared, Times-one_of}
use boost_irc.Irc.Message.Pattern.{
  message_regex, tags_part, prefix_part, command_part, words_part, word_part, trailing_part,
  from_tags, from_prefix, from_command, from_words, from_trailing, not_space, starts_word,
}

-- A parameter that stands before the last: not empty, no space in it, no colon at its start.
abbrev pub IsWord : Bytes → Type 0
IsWord [] = ⊥
IsWord (c ∷ w) = (starts_word c ≡ true) × (all not_space w ≡ true)

-- Each word with a space before it.
abbrev pub spaced : List Bytes → Bytes
spaced [] = []
spaced (w ∷ ws) = b' ' ∷ (w ++ spaced ws)

-- What follows the words: nothing, or a space, an optional colon and the trailing parameter.
abbrev pub IsTail : Bytes → Bytes → Type 0
IsTail tail trailing =
    ((tail ≡ []) × (trailing ≡ [])) ⊎ (tail ≡ b' ' ∷ trailing) ⊎ (tail ≡ b' ' ∷ b':' ∷ trailing)

lacks-not_space : (s : Bytes) → all not_space s ≡ true → lacks b' ' s ≡ true
lacks-not_space [] h = refl
lacks-not_space (c ∷ s) h = ground (arith, lacks-not_space s)

pub IsWord-lacks : (w : Bytes) → IsWord w → lacks b' ' w ≡ true
IsWord-lacks [] h = absurd h
IsWord-lacks (c ∷ w) h = ground (arith, lacks-not_space w)

-- The text of `{0,14}` words.
Times-IsWord :
    (n : ℕ) (before text after : Bytes) (gs : Groups)
    → Times n (Matches word_part) before text after gs
    → (ws : List Bytes) × (text ≡ spaced ws) × (length ws ≡ n) × All IsWord ws
Times-IsWord zero before text after gs (et, eg) = ([], et, refl, tt)
Times-IsWord (suc n) before text after gs
      (
        t,
        u,
        g,
        h,
        et,
        eg,
        (
          t1,
          t2,
          g1,
          g2,
          e1,
          e2,
          (c, ec, hc, eg1),
          (t3, t4, g3, g4, e3, e4, (d, ed, hd, eg3), (k, more)),
        ),
        rest,
      ) =
    let (ws, ew, el, hw) = Times-IsWord n _ u after h rest in
    (
      (d ∷ t4) ∷ ws,
      ground (arith, et, e1, e3),
      ap suc el,
      ((hd, Times-one_of not_space k _ t4 _ g4 more), hw),
    )

last_group : (k : ℕ) (g : Groups) (t : Bytes) → find k (g ++ ((k, t) ∷ [])) ≡ some t
last_group k g t = find-append_some k g ((k, t) ∷ []) {t = t} (ground arith)

-- The trailing part and its group.
trailing_lem :
    (before text after : Bytes) (gs : Groups)
    → Matches trailing_part before text after gs
    → IsTail text (capture 8 gs)
trailing_lem before text after gs (inl (et, eg)) = rw eg (inl (et, refl))
trailing_lem before text after gs
      (inr (
        t1,
        t2,
        g1,
        g2,
        e1,
        e2,
        (c, ec, hc, eg1),
        (t3, t4, g3, g4, e3, e4, colon, (g, eg, many)),
      )) =
    inr ground (arith, e1, ec, hc, e3, trailing_group, colon)
  where
    trailing_group : capture 8 gs ≡ t4
    trailing_group =
        let e : find 8 gs ≡ some t4 =
          rw (e2, eg1, e4, eg) (find-append_some 8 g3 _ (last_group 8 g t4)) in
        rw e refl

-- A group that only one of two parts declares.
module _ (k : ℕ) (r s : Regex) (before text after : Bytes) (gs : Groups) where
  in_second :
      declares k r ≡ false
      → (m : Then (Matches r) (Matches s) before text after gs) → find k gs ≡ find k m.3
  in_second d m = rw m.5 (find-append_right k m.2 m.3 (find-undeclared k r d _ m.0 _ m.2 m.6))

  in_first :
      declares k s ≡ false
      → (m : Then (Matches r) (Matches s) before text after gs) → find k gs ≡ find k m.2
  in_first d m = rw m.5 (find-append k m.2 m.3 (find-undeclared k s d _ m.1 after m.3 m.7))

-- The groups of a match of the whole expression, and the parts of its text.
pub record Parts (before text after : Bytes) (gs : Groups) : Type 0 where
  pub lead : Bytes
  pub words : List Bytes
  pub tail : Bytes
  pub splits : text ≡ lead ++ (capture 6 gs ++ (spaced words ++ tail))
  pub command_ne_nil : capture 6 gs ≢ []
  pub command_bytes : all not_space (capture 6 gs) ≡ true
  pub few_words : length words ≤ 14
  pub words_are : All IsWord words
  pub words_text : capture 7 gs ≡ spaced words
  pub tail_is : IsTail tail (capture 8 gs)
  pub starts : StartsLine before
  pub ends : EndsLine after

command_lem :
    (before text after : Bytes) (gs : Groups)
    → Matches command_part before text after gs
    → (text ≢ []) × (all not_space text ≡ true) × (find 6 gs ≡ some text)
command_lem before text after gs (g, eg, (n, many)) = (
  nonempty many,
  Times-one_of not_space (suc n) before text after g many,
  rw eg (last_group 6 g text),
)
  where
    nonempty : Times (suc n) (Matches (one_of not_space)) before text after g → text ≢ []
    nonempty (t, u, g1, g2, et, e2, (c, ec, hc, e3), rest) e = ground arith

words_lem :
    (before text after : Bytes) (gs : Groups)
    → Matches words_part before text after gs
    → (ws : List Bytes) × (text ≡ spaced ws)
      × (length ws ≤ 14)
      × All IsWord ws
      × (find 7 gs ≡ some text)
words_lem before text after gs (g, eg, (n, few, many)) =
    let (ws, et, el, hw) = Times-IsWord n before text after g many in
    (ws, et, omega arith, hw, rw eg (last_group 7 g text))

join_parts :
    (a b c e d' : Bytes) {text z t0 t1 t2 t3 d t4 t5 : Bytes}
    → text ≡ z ++ t0
    → z ≡ []
    → t0 ≡ a ++ t1
    → t1 ≡ b ++ t2
    → t2 ≡ c ++ t3
    → t3 ≡ d ++ t4
    → t4 ≡ e ++ t5
    → t5 ≡ []
    → d ≡ d'
    → text ≡ (a ++ b) ++ (c ++ (d' ++ e))
join_parts a b c e d' e0 ez e1 e2 e3 e4 e5 e6 ed =
    rw (e0, ez, e1, e2, e3, e4, e5, e6, ed) (simp (append-nil, append_assoc))

module _ (before text after : Bytes) (gs : Groups)
    (m : Matches message_regex before text after gs) where
  -- A group behind the command's part is one of the words or of the trailing part.
  to_command :
      (k : ℕ)
      → declares k line_start ≡ false
      → declares k tags_part ≡ false
      → declares k prefix_part ≡ false
      → find k gs ≡ find k (((m.7).7).3)
  to_command k a b c =
      in_second k line_start from_tags _ _ _ _ a m
      ∙ in_second k tags_part from_prefix _ _ _ _ b m.7
      ∙ in_second k prefix_part from_command _ _ _ _ c (m.7).7

  pub Parts-matches : Parts before text after gs
  Parts-matches =
      let m1 = m.7 in
      let m2 = m1.7 in
      let m3 = m2.7 in
      let m4 = m3.7 in
      let m5 = m4.7 in
      let (ne, bytes, command_group) = command_lem _ m3.0 _ m3.2 m3.6 in
      let (ws, words_text, few, all_words, words_group) = words_lem _ m4.0 _ m4.2 m4.6 in
      let command_is : find 6 gs ≡ some m3.0 =
        to_command 6 refl refl refl
        ∙ in_first 6 command_part from_words _ _ _ _ refl m3
        ∙ command_group in
      let words_is : find 7 gs ≡ some m4.0 =
        to_command 7 refl refl refl
        ∙ in_second 7 command_part from_words _ _ _ _ refl m3
        ∙ in_first 7 words_part from_trailing _ _ _ _ refl m4
        ∙ words_group in
      let trailing_is : find 8 gs ≡ find 8 m5.2 =
        to_command 8 refl refl refl
        ∙ in_second 8 command_part from_words _ _ _ _ refl m3
        ∙ in_second 8 words_part from_trailing _ _ _ _ refl m4
        ∙ in_first 8 trailing_part line_end _ _ _ _ refl m5 in
      record {
        lead = m1.0 ++ m2.0;
        words = ws;
        tail = m5.0;
        splits = rw command_is (
            join_parts m1.0 m2.0 m3.0 m5.0 (spaced ws) m.4 m.6.0 m1.4 m2.4 m3.4 m4.4 m5.4 m5.7.0
              words_text);
        command_ne_nil = rw command_is ne;
        command_bytes = rw command_is bytes;
        few_words = few;
        words_are = all_words;
        words_text = rw words_is words_text;
        tail_is = rw trailing_is (trailing_lem _ m5.0 _ m5.2 m5.6);
        starts = m.6.2;
        ends = m5.7.2;
      }
