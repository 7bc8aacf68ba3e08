-- ===== src/Irc/Dispatch/Answers.antt =====
-- How messages are answered.
use boost_irc.Base.{
  ℕ, ◌+◌, ◌*◌, ◌^◌, ◌≤◌, ◌<◌, ◌≡◌, refl, ap, ◌∙◌, Bool, true, false, none, List, [], ◌∷◌, ◌++◌,
  Bytes, codes, crlf, newline, get_elem?, arith, all, append-nil, append_assoc,
}
use boost_irc.Boost.{StringAlgo}
use boost_irc.Boost.Split.{join-split}
use boost_irc.Irc.Commands.{pong, perform}
use boost_irc.Irc.Commands.Lines.{send-eq-write}
use boost_irc.Irc.Message.{Message}
use boost_irc.Irc.Stoi.{
  stoi, stoi_word, stoi_numeric, stoi_large, leading_digits, is_digit, number, pos,
}
use boost_irc.Irc.Effects.{
  ◌>>=◌, ◌>>◌, return, raise, invalid_argument, catch_invalid, after-nil, Event, Run, done, failed,
  write, print, undefined, out_of_range,
}
use boost_irc.Irc.Dispatch.{
  Overrides, join_msg, on_ping, on_join, on_privmsg, message, read_message, show_raw,
}

-- The first text of a list, or the default "".
abbrev pub head_or_nil : List Bytes → Bytes
head_or_nil [] = []
head_or_nil (x ∷ xs) = x

module _ (algo : StringAlgo) (self : Overrides) (msg : Message) where
  perform-pong :
      (p q : Bytes)
      → perform algo (pong p q)
        ≡ done tt (write ((codes "PONG " ++ (p ++ (b' ' ∷ q))) ++ crlf) ∷ [])
  unfolding perform
  perform-pong p q =
      rw (send-eq-write algo (codes "PONG") (p ∷ q ∷ []), algo.join_more, algo.join_one)

  -- A command that is no number goes to `message`.
  read_message_word :
      (c : ℕ) (s : Bytes)
      → msg.command ≡ c ∷ s
      → stoi (c ∷ s) ≡ raise invalid_argument
      → read_message algo self msg ≡ (message algo self msg >>= show_raw algo self msg)
  unfolding read_message
  read_message_word c s e h = rw (read_message, e, h) (after-nil _)

  module _ (c : Bytes) where
    message_ping : msg.command ≡ b'P' ∷ b'I' ∷ c → message algo self msg ≡ on_ping algo msg
    unfolding message
    message_ping e = ground arith

    message_privmsg :
        msg.command ≡ b'P' ∷ b'R' ∷ c → message algo self msg ≡ on_privmsg algo self msg
    unfolding message
    message_privmsg e = ground arith

    message_join : msg.command ≡ b'J' ∷ c → message algo self msg ≡ on_join algo msg
    unfolding message
    message_join e = ground arith

  on_ping_lem :
      (p : Bytes) (ps : List Bytes)
      → msg.params ≡ p ∷ ps
      → on_ping algo msg ≡ (perform algo (pong p (head_or_nil ps)) >> return false)
  unfolding on_ping
  on_ping_lem p [] f = rw (on_ping, f) (after-nil _)
  on_ping_lem p (q ∷ ps) f = ground (arith, after-nil (perform algo (pong p q) >> return false))

  -- A PING is answered by one PONG with its first two parameters.
  pub read_message-ping :
      (c : Bytes) (p : Bytes) (ps : List Bytes)
      → msg.command ≡ b'P' ∷ b'I' ∷ c
      → msg.params ≡ p ∷ ps
      → read_message algo self msg
        ≡ done tt (write ((codes "PONG " ++ (p ++ (b' ' ∷ head_or_nil ps))) ++ crlf) ∷ [])
  read_message-ping c p ps e f =
      read_message_word _ _ e (stoi_word _ _ refl refl refl refl)
      ∙ rw (message_ping c e, on_ping_lem p ps f, perform-pong) refl

  on_privmsg_short : get_elem? msg.params 1 ≡ none → on_privmsg algo self msg ≡ failed undefined []
  unfolding on_privmsg
  on_privmsg_short h = ground arith

  -- A PRIVMSG with fewer than two parameters reads out of the bounds of the vector of parameters.
  pub read_message-privmsg_short :
      (c : Bytes)
      → msg.command ≡ b'P' ∷ b'R' ∷ c
      → get_elem? msg.params 1 ≡ none
      → read_message algo self msg ≡ failed undefined []
  read_message-privmsg_short c e f =
      read_message_word _ _ e (stoi_word _ _ refl refl refl refl)
      ∙ rw (message_privmsg c e, on_privmsg_short f) refl

  on_privmsg_lem :
      (t x : Bytes) (r : List Bytes)
      → msg.params ≡ t ∷ x ∷ r
      → on_privmsg algo self msg ≡ (self.privmsg msg t x >> return false)
  unfolding on_privmsg
  on_privmsg_lem t x r f = ground (arith, after-nil (self.privmsg msg t x >> return false))

  -- A PRIVMSG with two parameters or more is handed to the class's own `privmsg`, and nothing else
  -- is done.
  pub read_message-privmsg :
      (c t x : Bytes) (r : List Bytes) (es : List Event)
      → msg.command ≡ b'P' ∷ b'R' ∷ c
      → msg.params ≡ t ∷ x ∷ r
      → self.privmsg msg t x ≡ done tt es
      → read_message algo self msg ≡ done tt es
  read_message-privmsg c t x r es e f h =
      read_message_word _ _ e (stoi_word _ _ refl refl refl refl)
      ∙ rw (message_privmsg c e, on_privmsg_lem t x r f, h) (simp append-nil)

  join_msg_lem :
      (p : Bytes) (keys : List Bytes)
      → join_msg algo msg (algo.split p b',') keys
        ≡ done tt (print (msg.nickname ++ (codes " joined " ++ (p ++ newline))) ∷ [])
  unfolding join_msg
  join_msg_lem p keys =
      rw (algo.format_lem, join-split algo p b',') (simp (append-nil, append_assoc))

  on_join_lem :
      (p : Bytes) (ps : List Bytes)
      → msg.params ≡ p ∷ ps
      → on_join algo msg
        ≡ done false (print (msg.nickname ++ (codes " joined " ++ (p ++ newline))) ∷ [])
  unfolding on_join
  on_join_lem p [] f = ground (arith, join_msg_lem p [])
  on_join_lem p (q ∷ ps) f = ground (arith, join_msg_lem p (algo.split q b','))

  -- A JOIN prints the nickname and the first parameter, and sends nothing.
  pub read_message-join :
      (c : Bytes) (p : Bytes) (ps : List Bytes)
      → msg.command ≡ b'J' ∷ c
      → msg.params ≡ p ∷ ps
      → read_message algo self msg
        ≡ done tt (print (msg.nickname ++ (codes " joined " ++ (p ++ newline))) ∷ [])
  read_message-join c p ps e f =
      read_message_word _ _ e (stoi_word _ _ refl refl refl refl)
      ∙ rw (message_join c e, on_join_lem p ps f) refl

  catch_show :
      (shown : Bool) (es : List Event) (k : Run (Unit {0}))
      → catch_invalid (done tt es >> show_raw algo self msg shown) k
        ≡ (done tt es >> show_raw algo self msg shown)
  catch_show true es k = refl
  catch_show false es k = refl

  -- A numeric command of three digits is a reply, and its number is given to the class's `reply`.
  pub read_message-numeric :
      (a b c : ℕ) (s : Bytes) (shown : Bool) (es : List Event)
      → a < 10
      → b < 10
      → c < 10
      → leading_digits s ≡ []
      → msg.command ≡ (48 + a) ∷ (48 + b) ∷ (48 + c) ∷ s
      → self.reply msg (pos (a * 100 + b * 10 + c)) ≡ done shown es
      → read_message algo self msg ≡ (done tt es >> show_raw algo self msg shown)
  unfolding read_message
  read_message-numeric a b c s shown es ha hb hc hs e h =
      let number_is : stoi msg.command ≡ return (pos (a * 100 + b * 10 + c)) =
        ap stoi e ∙ stoi_numeric a b c s ha hb hc hs in
      rw (read_message, number_is, after-nil, h) (catch_show shown es _)

  -- Only std::invalid_argument is caught: a command of digits whose number is beyond an int ends
  -- the call of `read` by std::out_of_range, with nothing printed or sent.
  pub read_message-out_of_range :
      (c : ℕ) (s : Bytes)
      → msg.command ≡ c ∷ s
      → all is_digit (c ∷ s) ≡ true
      → 2 ^ 31 ≤ number 0 (c ∷ s)
      → read_message algo self msg ≡ failed out_of_range []
  unfolding read_message
  read_message-out_of_range c s e h big =
      let number_is : stoi msg.command ≡ raise out_of_range = ap stoi e ∙ stoi_large c s h big in
      rw (read_message, number_is)
