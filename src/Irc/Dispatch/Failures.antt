-- ===== src/Irc/Dispatch/Failures.antt =====
-- How a call of `read` can fail.
use boost_irc.Base.{
  ℕ, ◌≡◌, refl, Bool, true, false, none, some, List, [], get_elem?, Bytes, arith, newline, ◌++◌,
  Option,
}
use boost_irc.Boost.{StringAlgo}
use boost_irc.Boost.Regex.{RegexSearch}
use boost_irc.Irc.Message.{Message, parse}
use boost_irc.Irc.Message.Pattern.{message_regex}
use boost_irc.Irc.Stoi.{ℤ, stoi}
use boost_irc.Irc.Commands.{perform}
use boost_irc.Irc.Commands.Lines.{send-eq-write}
use boost_irc.Irc.Effects.{done, failed, Run, emit, print}
use boost_irc.Irc.Effects.Failures.{
  FailsBy, returns, fails, FailsBy-if, thrown, escaping, FailsBy-bind, FailsBy-for_each,
  FailsBy-catch, thrown-escaping,
}
use boost_irc.Irc.Dispatch.{
  Overrides, element, ping_msg, join_msg, on_ping, on_join, on_privmsg, message, show_raw,
  read_message, read_line, split_param,
}

abbrev IsThrown : Run ℤ → Type 0
IsThrown (done i es) = Unit
IsThrown (failed x es) = thrown x ≡ true

stoi-IsThrown : (s : Bytes) → IsThrown (stoi s)
unfolding stoi
stoi-IsThrown s = ground arith

FailsBy-of_IsThrown : (m : Run ℤ) → IsThrown m → FailsBy thrown m
FailsBy-of_IsThrown (done i es) h = returns
FailsBy-of_IsThrown (failed x es) h = fails h

stoi-FailsBy : (s : Bytes) → FailsBy thrown (stoi s)
stoi-FailsBy s = FailsBy-of_IsThrown (stoi s) (stoi-IsThrown s)

element-FailsBy : (v : List Bytes) (i : ℕ) → FailsBy escaping (element v i)
element-FailsBy v i = go (get_elem? v i) refl
  where
    go : (o : Option Bytes) → get_elem? v i ≡ o → FailsBy escaping (element v i)
    go none e = rw (e, element) (fails refl)
    go (some x) e = rw (e, element) returns

module _ (algo : StringAlgo) where
  ping_msg-FailsBy : (msg : Message) (p q : Bytes) → FailsBy escaping (ping_msg algo msg p q)
  unfolding ping_msg perform
  ping_msg-FailsBy msg p q = rw (send-eq-write algo _ _) returns

  on_ping-FailsBy : (msg : Message) → FailsBy escaping (on_ping algo msg)
  unfolding on_ping
  on_ping-FailsBy msg =
      FailsBy-if escaping _ _ _
        (FailsBy-bind escaping (element msg.params 0) _ (element-FailsBy msg.params 0) (λ p.
          FailsBy-bind escaping (ping_msg algo msg p []) _ (ping_msg-FailsBy msg p [])
            (λ _. returns)))
        (FailsBy-if escaping _ _ _
          (FailsBy-bind escaping (element msg.params 0) _ (element-FailsBy msg.params 0) (λ p.
            FailsBy-bind escaping (element msg.params 1) _ (element-FailsBy msg.params 1) (λ q.
              FailsBy-bind escaping (ping_msg algo msg p q) _ (ping_msg-FailsBy msg p q)
                (λ _. returns))))
          returns)

  split_param-FailsBy : (msg : Message) (i : ℕ) → FailsBy escaping (split_param algo msg i)
  split_param-FailsBy msg i =
      FailsBy-if escaping _ _ _
        (FailsBy-bind escaping (element msg.params i) _ (element-FailsBy msg.params i)
          (λ _. returns))
        returns

  on_join-FailsBy : (msg : Message) → FailsBy escaping (on_join algo msg)
  unfolding on_join join_msg
  on_join-FailsBy msg =
      FailsBy-bind escaping (split_param algo msg 0) _ (split_param-FailsBy msg 0) (λ _.
        FailsBy-bind escaping (split_param algo msg 1) _ (split_param-FailsBy msg 1) (λ _. returns))

  module _ (self : Overrides)
      (reply_fails : (msg : Message) (code : ℤ) → FailsBy escaping (self.reply msg code))
      (privmsg_fails : (msg : Message) (t x : Bytes)
        → FailsBy escaping (self.privmsg msg t x)) where
    on_privmsg-FailsBy : (msg : Message) → FailsBy escaping (on_privmsg algo self msg)
    unfolding on_privmsg
    on_privmsg-FailsBy msg =
        FailsBy-bind escaping (element msg.params 0) _ (element-FailsBy msg.params 0) (λ t.
          FailsBy-bind escaping (element msg.params 1) _ (element-FailsBy msg.params 1) (λ x.
            FailsBy-bind escaping (self.privmsg msg t x) _ (privmsg_fails msg t x) (λ _. returns)))

    message-FailsBy : (msg : Message) → FailsBy escaping (message algo self msg)
    unfolding message
    message-FailsBy msg =
        FailsBy-if escaping _ _ _
          (FailsBy-if escaping _ _ _ (on_privmsg-FailsBy msg)
            (FailsBy-if escaping _ _ _ (on_ping-FailsBy msg) returns))
          (FailsBy-if escaping _ _ _ (on_join-FailsBy msg) returns)

    show_raw-FailsBy : (msg : Message) (b : Bool) → FailsBy escaping (show_raw algo self msg b)
    show_raw-FailsBy msg true = returns
    show_raw-FailsBy msg false = returns

    -- Handling a message throws nothing but std::out_of_range, of `stoi`, or reads out of bounds.
    pub read_message-FailsBy : (msg : Message) → FailsBy escaping (read_message algo self msg)
    unfolding read_message
    read_message-FailsBy msg =
        FailsBy-catch _ _
          (FailsBy-bind thrown (stoi msg.command) _ (stoi-FailsBy msg.command) (λ code.
            FailsBy-bind thrown (self.reply msg code) _
              (thrown-escaping (self.reply msg code) (reply_fails msg code))
              (λ b. thrown-escaping (show_raw algo self msg b) (show_raw-FailsBy msg b))))
          (FailsBy-bind escaping (message algo self msg) _ (message-FailsBy msg)
            (show_raw-FailsBy msg))

    pub read_line-FailsBy :
        (regex : RegexSearch message_regex) (raw : Bytes)
        → FailsBy escaping (read_line algo self regex raw)
    unfolding read_line
    read_line-FailsBy regex raw =
        FailsBy-bind escaping _ _
          (FailsBy-for_each escaping (λ token. emit (print (token ++ newline)))
            (parse algo regex raw).1 (λ _. returns))
          (λ _. read_message-FailsBy (parse algo regex raw).0)
