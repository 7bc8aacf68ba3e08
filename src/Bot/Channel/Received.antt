-- ===== src/Bot/Channel/Received.antt =====
-- What a page reads of the lines of the chat that its client has read.
use boost_irc.Base.{
  ℕ, ◌*◌, ◌^◌, ◌<◌, ◌≡◌, refl, sym, ap, ◌∙◌, subst, true, Option, List, [], ◌∷◌, ◌++◌, Bytes, codes,
  newline, map, length, lacks, All,
}
use boost_irc.Boost.{StringAlgo}
use boost_irc.Boost.Regex.{RegexSearch}
use boost_irc.Boost.Regex.First.{search_first}
use boost_irc.Irc.Message.{Message}
use boost_irc.Irc.Message.Pattern.{message_regex}
use boost_irc.Irc.Message.Line.{Line, IsPrintable, line_text}
use boost_irc.Irc.Message.RoundTrip.{tags_of, message_of, parse-line_text}
use boost_irc.Irc.Dispatch.{read_line, read_message}
use boost_irc.Irc.Effects.{Run, events, for_each, after-nil}
use boost_irc.Irc.Reader.{read_lines}
use boost_irc.Irc.Reader.Lines.{lines, lines-append, lines-lacks, run_buffer}
use boost_irc.Twitch.{twitch_client}
use boost_irc.WebSocket.Connection.{Connection}
use boost_irc.WebSocket.Queue.{Queue, Reach}
use boost_irc.WebSocket.Queue.Draining.{after}
use boost_irc.Bot.Channel.{pass_on, queued}
use boost_irc.Bot.Channel.Shown.{IsChat, IsShown, shown, handled, handled-IsShown}

-- A text that is a line of its own.
abbrev pub IsRaw : Bytes → Type 0
IsRaw [] = ⊥
IsRaw (c ∷ s) = lacks b'\n' (c ∷ s) ≡ true

-- Some lines, each with a line feed.
abbrev pub joined : List Bytes → Bytes
joined [] = []
joined (x ∷ xs) = x ++ (b'\n' ∷ joined xs)

lines-joined : (x : Bytes) (xs : List Bytes) → All IsRaw (x ∷ xs) → lines (joined (x ∷ xs)) ≡ x ∷ xs
lines-joined [] xs (h, k) = absurd h
lines-joined (c ∷ s) [] (h, k) = (lines-lacks [] c s h).1
lines-joined (c ∷ s) ([] ∷ xs) (h, (k, i)) = absurd k
lines-joined (c ∷ s) ((d ∷ t) ∷ xs) (h, k) =
    lines-append [] (c ∷ s) d (t ++ (b'\n' ∷ joined xs))
    ∙ rw ((lines-lacks [] c s h).1, lines-joined (d ∷ t) xs k) refl

module _ (algo : StringAlgo) (regex : RegexSearch message_regex)
    (first : (s : Bytes) → regex.search s ≡ search_first message_regex s) (channel : Bytes) where
  -- A line of the chat.
  pub record IsChatLine (l : Line) : Type 0 where
    pub target : Bytes
    pub more : Bytes
    pub is_printable : IsPrintable l
    pub is_raw : IsRaw (line_text l)
    pub command_is : l.command ≡ codes "PR" ++ more
    pub words_are : l.words ≡ target ∷ []
    -- no tag has more than one equals sign
    pub no_tokens : (tags_of algo l.tags).1 ≡ []

  abbrev read : Bytes → Run (Unit {0})
  read = read_line algo (twitch_client algo channel) regex

  read-message :
      (l : Line)
      → IsChatLine l
      → read (line_text l) ≡ read_message algo (twitch_client algo channel) (message_of algo l)
  unfolding read_line read_message
  read-message l i =
      rw (parse-line_text algo regex first l i.is_printable, i.no_tokens)
        (after-nil (read_message algo (twitch_client algo channel) (message_of algo l)))

  abbrev chat_of : List Line → List (Message × Bytes)
  chat_of ls = map (λ l. (message_of algo l, l.trailing)) ls

  for_each-chat :
      (ls : List Line)
      → All IsChatLine ls
      → for_each read (map line_text ls) ≡ handled algo channel (chat_of ls)
  for_each-chat [] h = refl
  for_each-chat (l ∷ ls) (i, h) = rw (read-message l i, for_each-chat ls h) refl

  chat_of-IsChat : (ls : List Line) → All IsChatLine ls → All IsChat (chat_of ls)
  chat_of-IsChat [] h = tt
  chat_of-IsChat (l ∷ ls) (i, h) = (
    (i.more, i.target, [], i.command_is, ap (λ ws. ws ++ (l.trailing ∷ [])) i.words_are),
    chat_of-IsChat ls h,
  )

  line_text-IsRaw : (ls : List Line) → All IsChatLine ls → All IsRaw (map line_text ls)
  line_text-IsRaw [] h = tt
  line_text-IsRaw (l ∷ ls) (i, h) = (i.is_raw, line_text-IsRaw ls h)

  -- The texts of the lines.
  abbrev pub texts : List Line → List Bytes
  texts [] = []
  texts (l ∷ ls) = (l.trailing ++ newline) ∷ texts ls

  shown-chat : (ls : List Line) → shown (chat_of ls) ≡ texts ls
  shown-chat [] = refl
  shown-chat (l ∷ ls) = ap (◌∷◌ (l.trailing ++ newline)) (shown-chat ls)

  -- The read loop on what was received.
  abbrev pub received : List Line → Run (Unit {0})
  received ls = let text = joined (map line_text ls) in read_lines read (length text) text

  pub received-handled :
      (l : Line) (ls : List Line)
      → All IsChatLine (l ∷ ls)
      → received (l ∷ ls) ≡ handled algo channel (chat_of (l ∷ ls))
  received-handled l ls h =
      run_buffer read (line_text l) b'\n' (joined (map line_text ls))
      ∙ ap (for_each read)
          (lines-joined (line_text l) (map line_text ls) (line_text-IsRaw (l ∷ ls) h))
      ∙ for_each-chat (l ∷ ls) h

  -- Where boost::regex_search reports the first match in Perl's order: a Twitch client whose read
  -- loop gets lines of the chat handles all of them, and once no more is sent and the writes of the
  -- page's connection have ended without an error, the page reads just their texts from what is on
  -- the socket: what is behind the colon of each line, with a line feed, in a text frame of its own,
  -- in their order. Each line has a prefix nick!user@host, a command that starts with PR, one word
  -- and a trailing parameter, no line feed in it, and no tag with two equals signs. The
  -- connection had posted nothing before, and each text is below 2^64 bytes.
  pub received-IsShown :
      (l : Line) (ls : List Line) (c : Connection) (callback : Option ℕ) (q : Queue)
      → All IsChatLine (l ∷ ls)
      → All (λ x. length x < 2 ^ 64) (texts (l ∷ ls))
      → queued callback c.actions ≡ []
      → Reach (queued callback (pass_on (events (received (l ∷ ls))) c).actions) q
      → IsShown (received (l ∷ ls)) (texts (l ∷ ls)) (after (3 * length q.send_queue) q).written
  received-IsShown l ls c callback q h b none_before r =
      let e = received-handled l ls h in
      let t = shown-chat (l ∷ ls) in
      let written = (after (3 * length q.send_queue) q).written in
      let shown_chat : IsShown (handled algo channel (chat_of (l ∷ ls))) (shown (chat_of (l ∷ ls)))
          written =
        handled-IsShown algo channel (chat_of (l ∷ ls)) c callback q (chat_of-IsChat (l ∷ ls) h)
          (subst (λ x. All (λ y. length y < 2 ^ 64) x) (sym t) b) none_before
          (subst (λ x. Reach (queued callback (pass_on (events x) c).actions) q) e r) in
      subst (λ x. IsShown x (texts (l ∷ ls)) written) (sym e)
        (subst (λ x. IsShown (handled algo channel (chat_of (l ∷ ls))) x written) t shown_chat)
