-- ===== src/Irc/Commands/Lines.antt =====
-- What the commands put on the wire.
use boost_irc.Base.{
  ◌≡◌, refl, true, List, [], ◌∷◌, ◌++◌, Bytes, codes, crlf, lacks, lacks-append, All, append-nil,
}
use boost_irc.Boost.{StringAlgo}
use boost_irc.Irc.Effects.{Event, write, events, done}
use boost_irc.Irc.Commands.{
  Command, pass, nick, user, oper, user_mode, service, quit, squit, join0, join_list, join,
  part_list, part, channel_mode, topic, names_list, names, list_list, list, invite, kick, privmsg,
  notice, motd, lusers, version, stats, links, time, connect, trace, admin, info, servlist, squery,
  who, whois, whowas, kill, ping, pong, error, send, perform,
}

-- The texts and the lists of texts that a command passes to the server.
abbrev Lacking : Bytes → Type 0
Lacking s = lacks 10 s ≡ true

-- No argument of the command holds a line feed.
abbrev pub HasNoNewline : Command → Type 0
HasNoNewline (pass password) = Lacking password
HasNoNewline (nick nickname) = Lacking nickname
HasNoNewline (quit message) = Lacking message
HasNoNewline (join_list channels keys) = All Lacking channels × All Lacking keys
HasNoNewline (join channels keys) = Lacking channels × Lacking keys
HasNoNewline (part_list channels message) = All Lacking channels × Lacking message
HasNoNewline (part channels message) = Lacking channels × Lacking message
HasNoNewline (privmsg msgtarget message) = Lacking msgtarget × Lacking message
HasNoNewline (ping server server2) = Lacking server × Lacking server2
HasNoNewline (pong server server2) = Lacking server × Lacking server2
HasNoNewline _ = Unit

-- One line of the protocol: its only line feed is the last byte, behind a carriage return.
pub data IsWireLine : Event → Type 0 where
  line : (body : Bytes) → lacks 10 body ≡ true → IsWireLine (write (body ++ crlf))

module _ (algo : StringAlgo) where
  join-lacks :
      (xs : List Bytes) (sep : Bytes) → Lacking sep → All Lacking xs → Lacking (algo.join xs sep)
  join-lacks [] sep hs h = rw algo.join_nil refl
  join-lacks (x ∷ []) sep hs h = rw algo.join_one h.0
  join-lacks (x ∷ y ∷ r) sep hs h =
      rw algo.join_more
        (lacks-append 10 x _ h.0 (lacks-append 10 sep _ hs (join-lacks (y ∷ r) sep hs h.1)))

  -- `send(cmd, vec)` writes the command, a space, and the arguments joined by spaces.
  pub send-eq-write :
      (cmd : Bytes) (vec : List Bytes)
      → send algo cmd vec ≡ done tt (write ((cmd ++ (32 ∷ algo.join vec (codes " "))) ++ crlf) ∷ [])
  unfolding send
  send-eq-write cmd vec = rw algo.format_lem (rw append-nil)

  -- At most one line of the protocol, and nothing else.
  abbrev pub IsOneLine : List Event → Type 0
  IsOneLine [] = Unit
  IsOneLine (e ∷ []) = IsWireLine e
  IsOneLine (e ∷ f ∷ r) = ⊥

  send-IsOneLine :
      (cmd : Bytes) (vec : List Bytes)
      → Lacking cmd
      → All Lacking vec
      → IsOneLine (events (send algo cmd vec))
  send-IsOneLine cmd vec hc hv = rw (send-eq-write cmd vec) (
      line (cmd ++ (32 ∷ algo.join vec (codes " ")))
        (lacks-append 10 cmd _ hc (join-lacks vec (codes " ") refl hv)))

  -- A command whose arguments hold no line feed writes at most one line to the server, whatever the
  -- arguments: nothing in them starts a second command.
  pub perform-IsOneLine : (c : Command) → HasNoNewline c → IsOneLine (events (perform algo c))
  unfolding perform
  perform-IsOneLine (pass password) h = send-IsOneLine (codes "PASS") _ refl (h, tt)
  perform-IsOneLine (nick nickname) h = send-IsOneLine (codes "NICK") _ refl (h, tt)
  perform-IsOneLine (quit message) h = send-IsOneLine (codes "QUIT") _ refl (h, tt)
  perform-IsOneLine (join_list channels keys) h =
      send-IsOneLine (codes "JOIN") _ refl
        (join-lacks channels (codes ",") refl h.0, (join-lacks keys (codes ",") refl h.1, tt))
  perform-IsOneLine (join channels keys) h = send-IsOneLine (codes "JOIN") _ refl (h.0, (h.1, tt))
  perform-IsOneLine join0 h = send-IsOneLine (codes "JOIN") _ refl (refl, tt)
  perform-IsOneLine (part_list channels message) h =
      send-IsOneLine (codes "PART") _ refl (join-lacks channels (codes ",") refl h.0, (h.1, tt))
  perform-IsOneLine (part channels message) h =
      send-IsOneLine (codes "PART") _ refl (h.0, (h.1, tt))
  perform-IsOneLine (privmsg msgtarget message) h =
      send-IsOneLine (codes "PRIVMSG") _ refl (h.0, (h.1, tt))
  perform-IsOneLine (ping server server2) h = send-IsOneLine (codes "PING") _ refl (h.0, (h.1, tt))
  perform-IsOneLine (pong server server2) h = send-IsOneLine (codes "PONG") _ refl (h.0, (h.1, tt))
  perform-IsOneLine (user name mode unused realname) h = tt
  perform-IsOneLine (oper name password) h = tt
  perform-IsOneLine (user_mode nickname mode) h = tt
  perform-IsOneLine (service nickname reserved1 distribution kind reserved2 details) h = tt
  perform-IsOneLine (squit server comment) h = tt
  perform-IsOneLine (channel_mode channel modes modeparams) h = tt
  perform-IsOneLine (topic channel t) h = tt
  perform-IsOneLine (names_list channels target) h = tt
  perform-IsOneLine (names channels target) h = tt
  perform-IsOneLine (list_list channels target) h = tt
  perform-IsOneLine (list channels target) h = tt
  perform-IsOneLine (invite nickname channel) h = tt
  perform-IsOneLine (kick channels users comment) h = tt
  perform-IsOneLine (notice msgtarget message) h = tt
  perform-IsOneLine (motd target) h = tt
  perform-IsOneLine (lusers mask target) h = tt
  perform-IsOneLine (version target) h = tt
  perform-IsOneLine (stats query target) h = tt
  perform-IsOneLine (links remote_server server_mask) h = tt
  perform-IsOneLine (time target) h = tt
  perform-IsOneLine (connect target_server port remote_server) h = tt
  perform-IsOneLine (trace target) h = tt
  perform-IsOneLine (admin target) h = tt
  perform-IsOneLine (info target) h = tt
  perform-IsOneLine (servlist mask kind) h = tt
  perform-IsOneLine (squery servicename message) h = tt
  perform-IsOneLine (who mask parameter) h = tt
  perform-IsOneLine (whois mask target) h = tt
  perform-IsOneLine (whowas nicknames count target) h = tt
  perform-IsOneLine (kill nickname comment) h = tt
  perform-IsOneLine (error error_message) h = tt

  -- The lines of the two commands that greet the server.
  pub perform-pass :
      (p : Bytes) → perform algo (pass p) ≡ done tt (write ((codes "PASS " ++ p) ++ crlf) ∷ [])
  unfolding perform
  perform-pass p = rw (send-eq-write (codes "PASS") (p ∷ []), algo.join_one)

  pub perform-nick :
      (p : Bytes) → perform algo (nick p) ≡ done tt (write ((codes "NICK " ++ p) ++ crlf) ∷ [])
  unfolding perform
  perform-nick p = rw (send-eq-write (codes "NICK") (p ∷ []), algo.join_one)

  pub perform-join :
      (channels keys : Bytes)
      → perform algo (join channels keys)
        ≡ done tt (write ((codes "JOIN " ++ (channels ++ (32 ∷ keys))) ++ crlf) ∷ [])
  unfolding perform
  perform-join channels keys =
      rw (send-eq-write (codes "JOIN") (channels ∷ keys ∷ []), algo.join_more, algo.join_one)
