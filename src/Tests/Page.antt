-- ===== src/Tests/Page.antt =====
-- A page of the channel endpoint and its client, on concrete inputs.
use boost_irc.Base.{◌≡◌, refl, sym, ap, ◌∙◌, subst, some, true, [], ◌∷◌, codes, arith, equal}
use boost_irc.Irc.Message.{read_tags}
use boost_irc.Irc.Effects.{Run, events, return, ◌>>◌}
use boost_irc.Twitch.Welcome.{read_message-to_page}
use boost_irc.WebSocket.Frame.{frame_header}
use boost_irc.WebSocket.Connection.{Connection, first_bytes, opening, send}
use boost_irc.WebSocket.Queue.{SendData, Reach, no_data, enqueue, empty, sends}
use boost_irc.WebSocket.Queue.Draining.{after}
use boost_irc.Bot.Channel.{pass_on, queued}
use boost_irc.Bot.Channel.Shown.{IsShown}
use boost_irc.Bot.Channel.Received.{IsChatLine, received, received-handled, received-IsShown}
use boost_irc.Irc.Message.Line.{Line}
use boost_irc.Irc.Message.RoundTrip.{message_of}
use boost_irc.Tests.Samples.{parts, regex}
use boost_irc.Tests.Library.{algo}

abbrev page : Connection
page = record (opening []) { wait = first_bytes; member = true }

-- A line that ends with a carriage return, as the server sends it.
abbrev said : Line
said = record parts { trailing = codes "hi\r" }

said-IsChatLine : IsChatLine algo regex (λ s. refl) (codes "c") said
unfolding read_tags equal
said-IsChatLine = record {
  target = codes "#c";
  more = codes "IVMSG";
  is_printable = record {
    tags_are = refl;
    nickname_is = refl;
    user_is = refl;
    host_is = refl;
    command_is = (refl, refl);
    few_words = omega arith;
    words_are = ((refl, refl), tt);
  };
  is_raw = refl;
  command_is = refl;
  words_are = refl;
  no_tokens = refl;
}

abbrev hi : SendData
hi = record { header_stream = 129 ∷ 4 ∷ []; message_stream = codes "hi\r\n"; callback = some 1 }

abbrev run : Run (Unit {0})
run = received algo regex (λ s. refl) (codes "c") (said ∷ [])

-- The one message is posted.
posted_once : queued (some 1) (pass_on (events run) page).actions ≡ hi ∷ []
unfolding queued pass_on send frame_header
posted_once =
    ap (λ m. queued (some 1) (pass_on (events m) page).actions)
      (received-handled algo regex (λ s. refl) (codes "c") said [] (said-IsChatLine, tt))
    ∙ ap (λ m. queued (some 1) (pass_on (events (m >> return tt)) page).actions)
        (read_message-to_page algo (codes "c") (message_of algo said) (codes "IVMSG") (codes "#c")
          (codes "hi\r") [] refl refl)

received-IsShown_example : IsShown run (codes "hi\r\n" ∷ []) (after 3 (enqueue hi no_data)).written
unfolding queued enqueue
received-IsShown_example =
    received-IsShown algo regex (λ s. refl) (codes "c") said [] page (some 1) (enqueue hi no_data)
      (said-IsChatLine, tt) (omega arith, tt) refl
      (subst (λ ds. Reach ds (enqueue hi no_data)) (sym posted_once) (sends hi empty))
