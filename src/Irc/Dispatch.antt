-- ===== src/Irc/Dispatch.antt =====
-- What a client does with a message: `message`, `reply`, `ping`, `join`, `privmsg` and `read` of
-- irc/irc_client.cpp. The two functions that twitch_client overrides are a parameter.
pub mod Answers
pub mod Failures
use boost_irc.Base.{
  ℕ, zero, suc, Bool, true, false, ◌==◌, ltb, Option, none, some, List, [], ◌∷◌, ◌++◌, Bytes, codes,
  newline, length, get_elem?, if◌then◌else◌,
}
use boost_irc.Boost.{StringAlgo, Piece, text, arg}
use boost_irc.Boost.Regex.{RegexSearch}
use boost_irc.Irc.Message.{Message, parse}
use boost_irc.Irc.Message.Pattern.{message_regex}
use boost_irc.Irc.Stoi.{ℤ, stoi}
use boost_irc.Irc.Commands.{perform, pong}
use boost_irc.Irc.Effects.{
  Run, ◌>>=◌, ◌>>◌, return, emit, raise, catch_invalid, for_each, print, undefined,
}

-- The virtual functions with more than one body.
pub record Overrides : Type 0 where
  pub reply : Message → ℤ → Run Bool
  pub privmsg : Message → Bytes → Bytes → Run (Unit {0})

-- `irc_client::reply`
unfoldable pub reply : Message → ℤ → Run Bool
reply msg code = return true

-- `irc_client::privmsg(msg, msgtarget, text)`
unfoldable pub privmsg : Message → Bytes → Bytes → Run (Unit {0})
privmsg msg msgtarget sent =
    emit (print (msgtarget ++ (codes "> " ++ (msg.nickname ++ (codes ": " ++ (sent ++ newline))))))

abbrev pub irc_client : Overrides
irc_client = record { reply = reply; privmsg = privmsg }

-- `s[i]` of a std::string: the byte behind the last is 0.
abbrev pub char_at : Bytes → ℕ → ℕ
char_at [] i = 0
char_at (c ∷ s) zero = c
char_at (c ∷ s) (suc i) = char_at s i

-- `v[i]` of a std::vector
abbrev pub element : List Bytes → ℕ → Run Bytes
element v i = elim (get_elem? v i) [ none ↦ raise undefined | some x ↦ return x ]

module _ (algo : StringAlgo) where
  -- `ping(msg, server, server2)` answers.
  unfoldable pub ping_msg : Message → Bytes → Bytes → Run (Unit {0})
  ping_msg msg server server2 = perform algo (pong server server2)

  abbrev joined_line : List Piece
  joined_line = arg 0 ∷ text (codes " joined ") ∷ arg 1 ∷ []

  unfoldable pub join_msg : Message → List Bytes → List Bytes → Run (Unit {0})
  join_msg msg channels keys = emit (
      print
        (algo.format joined_line (msg.nickname ∷ algo.join channels (codes ",") ∷ []) ++ newline))

  -- `case 'I'`: the second argument of `ping` is "" by default.
  unfoldable pub on_ping : Message → Run Bool
  unfolding ping_msg
  on_ping msg =
      if length msg.params == 1
      then (do server ← element msg.params 0; ping_msg msg server []; return false)
      else if ltb 1 (length msg.params)
      then (do
        server ← element msg.params 0
        server2 ← element msg.params 1
        ping_msg msg server server2
        return false)
      else return false

  -- A parameter, split at commas, where there is one.
  abbrev split_param : Message → ℕ → Run (List Bytes)
  split_param msg i =
      if ltb i (length msg.params)
      then (do p ← element msg.params i; return (algo.split p b','))
      else return []

  unfoldable pub on_join : Message → Run Bool
  on_join msg = do
    channels ← split_param msg 0
    keys ← split_param msg 1
    join_msg msg channels keys
    return false

  -- A client of a class with its overriding functions.
  module _ (self : Overrides) where
    unfoldable pub on_privmsg : Message → Run Bool
    on_privmsg msg = do
      msgtarget ← element msg.params 0
      sent ← element msg.params 1
      self.privmsg msg msgtarget sent
      return false

    -- `message`: the command is told by its first two bytes.
    unfoldable pub message : Message → Run Bool
    message msg =
        if char_at msg.command 0 == b'P'
        then (if char_at msg.command 1 == b'R'
            then on_privmsg msg
            else if char_at msg.command 1 == b'I'
            then on_ping msg
            else return true)
        else if char_at msg.command 0 == b'J'
        then on_join msg
        else return true

    -- `std::cout << "> " << msg.raw() << std::endl`, if asked for.
    abbrev pub show_raw : Message → Bool → Run (Unit {0})
    show_raw msg asked =
        if asked then emit (print (codes "> " ++ (msg.raw ++ newline))) else return tt

    -- `read(msg)`: both calls of the first line stand in the `try` block.
    unfoldable pub read_message : Message → Run (Unit {0})
    read_message msg =
        catch_invalid (do code ← stoi msg.command; asked ← self.reply msg code; show_raw msg asked)
          (do asked ← message msg; show_raw msg asked)

    -- `read(line)`: what the constructor of the message writes comes first.
    unfoldable pub read_line : RegexSearch message_regex → Bytes → Run (Unit {0})
    unfolding read_message
    read_line regex raw =
        let (msg, printed) = parse algo regex raw in
        for_each (λ token. emit (print (token ++ newline))) printed >> read_message msg
