-- ===== src/Irc/Message/Printed.antt =====
-- What the first match of the expression of `Message` is on a line that is written as the protocol
-- has it, part by part from its end.
use boost_irc.Base.{
  ℕ, zero, suc, ◌≤◌, ◌≡◌, refl, sym, ap, ◌∙◌, ◌==◌, true, false, Option, none, some, List, [], ◌∷◌,
  ◌++◌, Bytes, length, drop, All, all, arith, append_assoc, append-nil,
}
use boost_irc.Boost.Regex.{Groups, star, one_of, line_end}
use boost_irc.Boost.Regex.First.{begins_with}
use boost_irc.Boost.Regex.First.{first_from}
use boost_irc.Boost.Regex.First.Sound.{drop-append}
use boost_irc.Boost.Regex.First.Parts.{
  Todo, part, again, close, run_all, Takes, finish, byte, both, taken, skipped, run, run_lazy,
  run_some, counted, once_more, no_more, grouped, closed, at_start, at_end,
}
use boost_irc.Boost.Regex.First.Steps.{one_byte-none}
use boost_irc.Irc.Message.Matching.{IsWord, spaced}
use boost_irc.Irc.Message.Pattern.{
  from_trailing, from_words, from_command, from_prefix, from_tags, message_regex, any_byte,
  not_space, word_part,
}
use boost_irc.Irc.Message.Line.{
  Line, IsCommand, AreTags, IsPrintable, trailing_text, words_text, command_text, prefix_text,
  command_groups, prefix_groups, tagged, tag_groups, line_text, line_groups,
}

all_any : (s : Bytes) → all any_byte s ≡ true
all_any [] = refl
all_any (c ∷ s) = all_any s

drop_behind : (xs ys zs : Bytes) → xs ++ ys ≡ zs → drop (length xs) zs ≡ ys
drop_behind xs ys zs e = ap (drop (length xs)) (sym e) ∙ drop-append xs ys

first_trailing :
    (before trailing : Bytes) (gs : Groups)
    → Takes
        (part from_trailing ∷ [])
        before
        (trailing_text trailing)
        gs
        (gs ++ ((8, trailing) ∷ []))
first_trailing before trailing gs =
    let b = (before ++ (b' ' ∷ [])) ++ (b':' ∷ []) in
    let todo = part (star (one_of any_byte)) ∷ close 8 (length b) ∷ part line_end ∷ [] in
    let behind : Takes todo b (trailing ++ []) gs (gs ++ ((8, trailing) ∷ [])) =
      run trailing (all_any trailing) refl
        (closed trailing (drop-append b trailing) (at_end finish)) in
    both (
      taken (
        both (byte refl (both (taken (byte refl (grouped (rw (append-nil trailing) at behind))))))))

spaced-stops :
    (ws : List Bytes) (trailing : Bytes) → begins_with not_space (words_text ws trailing) ≡ false
spaced-stops [] trailing = refl
spaced-stops (w ∷ ws) trailing = refl

spaced_again :
    (ws : List Bytes) (n : ℕ) {todo : List Todo} (before trailing : Bytes) {gs out : Groups}
    → All IsWord ws
    → length ws ≤ n
    → Takes todo (before ++ spaced ws) (trailing_text trailing) gs out
    → Takes (again n word_part ∷ todo) before (words_text ws trailing) gs out
unfolding first_from
spaced_again [] n before trailing h l d = no_more (λ next. refl) (rw (append-nil before) at d)
spaced_again ([] ∷ ws) n before trailing (f, h) l d = absurd f
spaced_again (w ∷ ws) zero before trailing h l d = absurd (omega (arith, l))
spaced_again ((c ∷ w) ∷ ws) (suc n) {todo} before trailing {gs} {out} ((f, k), h) l d =
    let b = (before ++ (b' ' ∷ [])) ++ (c ∷ []) in
    let place : before ++ spaced ((c ∷ w) ∷ ws) ≡ (b ++ w) ++ spaced ws = simp append_assoc in
    let behind : Takes (again n word_part ∷ todo) (b ++ w) (words_text ws trailing) gs out =
      spaced_again ws n (b ++ w) trailing h (omega (arith, l)) (rw place at d) in
    let inner : Takes (part (star (one_of not_space)) ∷ again n word_part ∷ todo) b
        ((w ++ spaced ws) ++ trailing_text trailing) gs out =
      rw (append_assoc w (spaced ws) (trailing_text trailing))
        (run w k (spaced-stops ws trailing) behind) in
    once_more (both (byte refl (both (byte f inner))))

first_words :
    (before : Bytes) (words : List Bytes) (trailing : Bytes) (gs : Groups)
    → length words ≤ 14
    → All IsWord words
    → Takes
        (part from_words ∷ [])
        before
        (words_text words trailing)
        gs
        ((gs ++ ((7, spaced words) ∷ [])) ++ ((8, trailing) ∷ []))
first_words before words trailing gs l h = both (
    grouped (
      counted (
        spaced_again words 14 before trailing h l (
          closed (spaced words) (drop-append before (spaced words))
            (first_trailing (before ++ spaced words) trailing (gs ++ ((7, spaced words) ∷ [])))))))

first_command :
    (before command : Bytes) (words : List Bytes) (trailing : Bytes) (gs : Groups)
    → IsCommand command
    → length words ≤ 14
    → All IsWord words
    → Takes
        (part from_command ∷ [])
        before
        (command_text command words trailing)
        gs
        (command_groups gs command words trailing)
first_command before [] words trailing gs i l h = absurd i
first_command before (c ∷ s) words trailing gs (f, k) l h = both (
    grouped (
      run_some c s f k (spaced-stops words trailing) (
        closed (c ∷ s) (drop-append before (c ∷ s))
          (first_words (before ++ (c ∷ s)) words trailing (gs ++ ((6, c ∷ s) ∷ [])) l h))))

module _ (l : Line) (i : IsPrintable l) where
  abbrev behind_tags : Bytes
  behind_tags =
      b':'
      ∷ (l.nickname
          ++ (b'!'
              ∷ (l.user
                  ++ (b'@' ∷ (l.host ++ (b' ' ∷ command_text l.command l.words l.trailing))))))

  abbrev groups_behind : Groups → Groups
  groups_behind gs =
      command_groups (prefix_groups gs l.nickname l.user l.host) l.command l.words l.trailing

  prefix_place :
      (before : Bytes)
      → before ++ prefix_text l.nickname l.user l.host
        ≡ ((((before ++ l.nickname) ++ (b'!' ∷ [])) ++ l.user) ++ (b'@' ∷ [])) ++ l.host
  prefix_place before = simp append_assoc

  first_prefix :
      (before : Bytes) (gs : Groups)
      → Takes (part from_prefix ∷ []) before behind_tags gs (groups_behind gs)
  first_prefix before gs =
      let b = before ++ (b':' ∷ []) in
      let c = (b ++ l.nickname) ++ (b'!' ∷ []) in
      let d = (c ++ l.user) ++ (b'@' ∷ []) in
      both (
        taken (
          both (
            byte refl (
              both (
                grouped (
                  both (
                    grouped (
                      run l.nickname i.nickname_is refl (
                        closed l.nickname (drop-append b l.nickname) (
                          taken (
                            both (
                              taken (
                                both (
                                  byte refl (
                                    grouped (
                                      run l.user i.user_is refl (
                                        closed l.user (drop-append c l.user) (
                                          both (
                                            byte refl (
                                              grouped (
                                                run l.host i.host_is refl (
                                                  closed l.host (drop-append d l.host) (
                                                    closed (prefix_text l.nickname l.user l.host)
                                                      (drop_behind b
                                                        (prefix_text l.nickname l.user l.host)
                                                        (d ++ l.host) (prefix_place b))
                                                      (byte refl (
                                                        first_command _ l.command l.words l.trailing
                                                          _ i.command_is i.few_words
                                                          i.words_are)))))))))))))))))))))))))

first_tags :
    (tags : Option Bytes) (rest : Bytes) (out : Groups)
    → AreTags tags
    → begins_with (λ c. c == b'@') rest ≡ false
    → ((before : Bytes) → Takes (part from_prefix ∷ []) before rest (tag_groups tags) out)
    → Takes (part from_tags ∷ []) [] (tagged tags rest) [] out
unfolding run_all first_from
first_tags none rest out h n d = both (skipped (one_byte-none _ [] rest [] _ n) (d []))
first_tags (some t) rest out h n d = both (
    taken (
      both (
        byte refl (
          both (
            grouped (
              run_lazy t (λ c. c == b' ')
                (λ b r g k. one_byte-none (λ c. c == b' ') b r (g ++ ((1, drop 1 b) ∷ [])) _ k) h
                (all_any t) (closed t (drop-append (b'@' ∷ []) t) (byte refl (d _)))))))))

-- The first match on a line has its parts.
pub line-Takes :
    (l : Line) → IsPrintable l → Takes (part message_regex ∷ []) [] (line_text l) [] (line_groups l)
line-Takes l i = both (
    at_start (
      first_tags l.tags _ (line_groups l) i.tags_are refl
        (λ before. first_prefix l i before (tag_groups l.tags))))
