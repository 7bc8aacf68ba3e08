-- ===== src/Twitch/Welcome.antt =====
-- What a Twitch client does with the messages of its channel.
use boost_irc.Base.{◌≡◌, refl, false, List, [], ◌∷◌, ◌++◌, Bytes, codes, crlf, newline, arith}
use boost_irc.Boost.{StringAlgo}
use boost_irc.Irc.Message.{Message}
use boost_irc.Irc.Stoi.{ℤ, pos, leading_digits}
use boost_irc.Irc.Commands.{send_raw}
use boost_irc.Irc.Commands.Lines.{perform-join}
use boost_irc.Irc.Dispatch.{privmsg, read_message}
use boost_irc.Irc.Dispatch.Answers.{read_message-numeric, read_message-privmsg}
use boost_irc.Irc.Effects.{Event, done, print, write, ws_send, fetch}
use boost_irc.Irc.Effects.Failures.{FailsBy, FailsBy-if, returns, escaping}
use boost_irc.Twitch.{reply, on_welcomed, privmsg_to_page, twitch_client}

module _ (algo : StringAlgo) (channel : Bytes) where
  -- The lines and the request that follow the end of the message of the day.
  abbrev pub welcome : List Event
  welcome =
      write (codes "CAP REQ :twitch.tv/tags" ++ crlf)
      ∷ write (codes "CAP REQ :twitch.tv/membership" ++ crlf)
      ∷ write (codes "CAP REQ :twitch.tv/commands" ++ crlf)
      ∷ fetch (codes "tmi.twitch.tv") (codes "/group/user/" ++ (channel ++ codes "/chatters"))
      ∷ write ((codes "JOIN #" ++ (channel ++ codes " ")) ++ crlf)
      ∷ []

  on_welcomed_lem : on_welcomed algo channel ≡ done false welcome
  unfolding on_welcomed send_raw
  on_welcomed_lem = rw (on_welcomed, perform-join) refl

  reply_end_of_motd : (msg : Message) → reply algo channel msg (pos 376) ≡ done false welcome
  unfolding reply
  reply_end_of_motd msg = on_welcomed_lem

  -- At the end of the message of the day the client asks for the capabilities, fetches the list of
  -- chatters and joins its channel.
  pub read_message-end_of_motd :
      (msg : Message) (s : Bytes)
      → msg.command ≡ codes "376" ++ s
      → leading_digits s ≡ []
      → read_message algo (twitch_client algo channel) msg ≡ done tt welcome
  read_message-end_of_motd msg s e h =
      read_message-numeric algo (twitch_client algo channel) msg 3 7 6 s false welcome (omega arith)
        (omega arith) (omega arith) h e (reply_end_of_motd msg)

  -- A message to the channel is printed and then passed on to the page, with a line feed.
  pub read_message-to_page :
      (msg : Message) (c t x : Bytes) (r : List Bytes)
      → msg.command ≡ codes "PR" ++ c
      → msg.params ≡ t ∷ x ∷ r
      → read_message algo (twitch_client algo channel) msg
        ≡ done tt (
            print (t ++ (codes "> " ++ (msg.nickname ++ (codes ": " ++ (x ++ newline)))))
            ∷ ws_send (x ++ newline)
            ∷ [])
  unfolding privmsg_to_page privmsg
  read_message-to_page msg c t x r e f =
      read_message-privmsg algo (twitch_client algo channel) msg c t x r _ e f refl

  on_welcomed-FailsBy : FailsBy escaping (on_welcomed algo channel)
  on_welcomed-FailsBy = rw on_welcomed_lem returns

  -- The overriding functions always return.
  pub reply-FailsBy : (msg : Message) (code : ℤ) → FailsBy escaping (reply algo channel msg code)
  unfolding reply
  reply-FailsBy msg code =
      FailsBy-if escaping _ _ _ returns (FailsBy-if escaping _ _ _ on_welcomed-FailsBy returns)

  pub privmsg_to_page-FailsBy :
      (msg : Message) (t x : Bytes) → FailsBy escaping (privmsg_to_page algo channel msg t x)
  unfolding privmsg_to_page privmsg
  privmsg_to_page-FailsBy msg t x = returns
