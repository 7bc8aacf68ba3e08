-- ===== src/Twitch.antt =====
-- src/twitch_client.hpp and src/twitch_client.cpp: the client that a page opens for a channel.
pub mod Welcome
pub mod Database
use boost_irc.Base.{
  ℕ, ◌==◌, ◌||◌, Bool, true, false, List, [], ◌∷◌, ◌++◌, Bytes, codes, newline, if◌then◌else◌,
}
use boost_irc.Boost.{StringAlgo}
use boost_irc.Irc.Message.{Message}
use boost_irc.Irc.Stoi.{ℤ, pos, negsuc}
use boost_irc.Irc.Reply.{
  Reply, number_of, rpl_welcome, rpl_yourhost, rpl_created, rpl_myinfo, rpl_motdstart, rpl_motd,
  rpl_endofmotd,
}
use boost_irc.Irc.Commands.{send_raw, perform, join}
use boost_irc.Irc.Dispatch.{Overrides, privmsg}
use boost_irc.Irc.Effects.{Run, ◌>>=◌, ◌>>◌, return, emit, ws_send, fetch}

-- `case label:` of a switch over an int.
unfoldable pub is_case : Reply → ℤ → Bool
unfolding number_of
is_case label (pos n) = n == number_of label
is_case label (negsuc n) = false

-- `channel` is `m_connection->path_match[1]`, the name in the path of the page's socket.
module _ (algo : StringAlgo) (channel : Bytes) where
  -- `case RPL_ENDOFMOTD`
  unfoldable pub on_welcomed : Run Bool
  on_welcomed = do
    send_raw (codes "CAP REQ :twitch.tv/tags")
    send_raw (codes "CAP REQ :twitch.tv/membership")
    send_raw (codes "CAP REQ :twitch.tv/commands")
    emit (fetch (codes "tmi.twitch.tv") (codes "/group/user/" ++ (channel ++ codes "/chatters")))
    perform algo (join (codes "#" ++ channel) [])
    return false

  -- `twitch_client::reply`
  unfoldable pub reply : Message → ℤ → Run Bool
  unfolding is_case
  reply msg code =
      if is_case rpl_welcome code
        || is_case rpl_yourhost code
        || is_case rpl_created code
        || is_case rpl_myinfo code
        || is_case rpl_motdstart code
        || is_case rpl_motd code
      then return false
      else if is_case rpl_endofmotd code
      then on_welcomed
      else return true

  -- `twitch_client::privmsg`: the message is printed and passed on to the page.
  unfoldable pub privmsg_to_page : Message → Bytes → Bytes → Run (Unit {0})
  privmsg_to_page msg msgtarget sent = do
    privmsg msg msgtarget sent
    emit (ws_send (sent ++ newline))

  abbrev pub twitch_client : Overrides
  twitch_client = record { reply = reply; privmsg = privmsg_to_page }
