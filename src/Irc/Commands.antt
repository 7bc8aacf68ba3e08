-- ===== src/Irc/Commands.antt =====
-- The commands that a client sends: the member functions of `irc_client` in irc/irc_client.cpp
-- that a program calls, from `send` to `error`.
pub mod Lines
use boost_irc.Base.{ℕ, List, [], ◌∷◌, ◌++◌, Bytes, codes, crlf}
use boost_irc.Boost.{StringAlgo, Piece, text, arg}
use boost_irc.Irc.Effects.{Run, return, emit, write}

-- One constructor for each member function, with its arguments (a default argument is passed).
pub data Command : Type 0 where
  pass nick quit : Bytes → Command
  user : (name : Bytes) (mode : ℕ) (unused realname : Bytes) → Command
  oper user_mode squit : (a b : Bytes) → Command
  service : (nickname reserved1 distribution kind reserved2 info : Bytes) → Command
  join0 : Command
  join_list : (channels keys : List Bytes) → Command
  join : (channels keys : Bytes) → Command
  part_list : (channels : List Bytes) (message : Bytes) → Command
  part : (channels message : Bytes) → Command
  channel_mode : (channel modes modeparams : Bytes) → Command
  topic : (channel topic : Bytes) → Command
  names_list list_list : (channels : List Bytes) (target : Bytes) → Command
  names list : (channels target : Bytes) → Command
  invite : (nickname channel : Bytes) → Command
  kick : (channels users : List Bytes) (comment : Bytes) → Command
  privmsg notice : (msgtarget message : Bytes) → Command
  motd version time trace admin info : (target : Bytes) → Command
  lusers stats links servlist who whois : (a b : Bytes) → Command
  connect : (target_server port remote_server : Bytes) → Command
  squery : (servicename message : Bytes) → Command
  whowas : (nicknames : Bytes) (count : ℕ) (target : Bytes) → Command
  kill : (nickname comment : Bytes) → Command
  ping pong : (server server2 : Bytes) → Command
  error : (error_message : Bytes) → Command

-- `send(raw)`: the write is started, and its buffer lives until it ends.
unfoldable pub send_raw : Bytes → Run (Unit {0})
send_raw raw = emit (write (raw ++ crlf))

module _ (algo : StringAlgo) where
  -- `"%1% %2%"`
  abbrev pub two_args : List Piece
  two_args = arg 0 ∷ text (codes " ") ∷ arg 1 ∷ []

  -- `send(cmd, vec)`
  unfoldable pub send : Bytes → List Bytes → Run (Unit {0})
  unfolding send_raw
  send cmd vec = send_raw (algo.format two_args (cmd ∷ algo.join vec (codes " ") ∷ []))

  unfoldable pub send_join : Bytes → Bytes → Run (Unit {0})
  unfolding send
  send_join channels keys = send (codes "JOIN") (channels ∷ keys ∷ [])

  unfoldable pub send_part : Bytes → Bytes → Run (Unit {0})
  unfolding send
  send_part channels message = send (codes "PART") (channels ∷ message ∷ [])

  -- A call of the member function. Those from `user` on have an empty body.
  unfoldable pub perform : Command → Run (Unit {0})
  unfolding send send_join send_part
  perform (pass password) = send (codes "PASS") (password ∷ [])
  perform (nick nickname) = send (codes "NICK") (nickname ∷ [])
  perform (quit message) = send (codes "QUIT") (message ∷ [])
  perform (join_list channels keys) =
      send_join (algo.join channels (codes ",")) (algo.join keys (codes ","))
  perform (join channels keys) = send_join channels keys
  perform join0 = send (codes "JOIN") (codes "0" ∷ [])
  perform (part_list channels message) = send_part (algo.join channels (codes ",")) message
  perform (part channels message) = send_part channels message
  perform (privmsg msgtarget message) =
      send (codes "PRIVMSG") (msgtarget ∷ (codes ":" ++ message) ∷ [])
  perform (ping server server2) = send (codes "PING") (server ∷ server2 ∷ [])
  perform (pong server server2) = send (codes "PONG") (server ∷ server2 ∷ [])
  perform (user name mode unused realname) = return tt
  perform (oper name password) = return tt
  perform (user_mode nickname mode) = return tt
  perform (service nickname reserved1 distribution kind reserved2 details) = return tt
  perform (squit server comment) = return tt
  perform (channel_mode channel modes modeparams) = return tt
  perform (topic channel t) = return tt
  perform (names_list channels target) = return tt
  perform (names channels target) = return tt
  perform (list_list channels target) = return tt
  perform (list channels target) = return tt
  perform (invite nickname channel) = return tt
  perform (kick channels users comment) = return tt
  perform (notice msgtarget message) = return tt
  perform (motd target) = return tt
  perform (lusers mask target) = return tt
  perform (version target) = return tt
  perform (stats query target) = return tt
  perform (links remote_server server_mask) = return tt
  perform (time target) = return tt
  perform (connect target_server port remote_server) = return tt
  perform (trace target) = return tt
  perform (admin target) = return tt
  perform (info target) = return tt
  perform (servlist mask kind) = return tt
  perform (squery servicename message) = return tt
  perform (who mask parameter) = return tt
  perform (whois mask target) = return tt
  perform (whowas nicknames count target) = return tt
  perform (kill nickname comment) = return tt
  perform (error error_message) = return tt
