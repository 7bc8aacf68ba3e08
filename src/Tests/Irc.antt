-- ===== src/Tests/Irc.antt =====
-- The IRC and Twitch clients on one line of a chat.
use boost_irc.Base.{◌≡◌, refl, true, false, List, [], ◌∷◌, ◌++◌, Bytes, codes, crlf, arith, equal}
use boost_irc.Irc.Message.{Message, empty_message, parse, read_tags}
use boost_irc.Irc.Message.RoundTrip.{parse-line_text}
use boost_irc.Boost.Regex.First.{search_first}
use boost_irc.Irc.Message.Shape.{IsLine, parse-IsLine}
use boost_irc.Irc.Stoi.{stoi, pos, negsuc, number}
use boost_irc.Irc.Commands.{part_list, perform}
use boost_irc.Irc.Commands.Lines.{IsOneLine, perform-IsOneLine}
use boost_irc.Irc.Dispatch.{irc_client, read_message}
use boost_irc.Irc.Dispatch.Answers.{
  read_message-ping, read_message-privmsg_short, read_message-out_of_range,
}
use boost_irc.Irc.Reader.{read_lines}
use boost_irc.Irc.Reader.Lines.{lines, read_lines-eq-for_each, read_lines_torn}
use boost_irc.Irc.Stoi.{leading_digits}
use boost_irc.Irc.Session.{start, here, next, connect_ends, on_connect}
use boost_irc.Irc.Session.Invariant.{PhaseInv, Reach-PhaseInv}
use boost_irc.Irc.Effects.{
  write, print, done, failed, undefined, out_of_range, events, for_each, emit, Run, ◌>>◌,
}
use boost_irc.Twitch.{twitch_client}
use boost_irc.Twitch.Welcome.{
  welcome, read_message-end_of_motd, reply-FailsBy, privmsg_to_page-FailsBy,
}
use boost_irc.Twitch.Database.{query_persons, IsHandled, query_persons-IsHandled}
use boost_irc.Tests.Library.{algo}
use boost_irc.Tests.Samples.{chat_line, chat_groups, regex, parts, parts-IsPrintable}

abbrev chat_message : Message
chat_message = record {
  raw = chat_line;
  tags = (codes "k", codes "v") ∷ [];
  prefix = codes "n!u@h";
  nickname = codes "n";
  user = codes "u";
  host = codes "h";
  command = codes "PRIVMSG";
  params = codes "#c" ∷ codes "hi you" ∷ [];
}

parse-line_text_example : parse algo regex chat_line ≡ (chat_message, [])
unfolding read_tags equal
parse-line_text_example = parse-line_text algo regex (λ s. refl) parts parts-IsPrintable

stoi_runs : (stoi (codes " -12x") ≡ done (negsuc 11) []) × (stoi (codes "001") ≡ done (pos 1) [])
unfolding stoi
stoi_runs = (refl, refl)

parse-IsLine_example : IsLine chat_line (parse algo regex chat_line).0
unfolding search_first
parse-IsLine_example = parse-IsLine algo regex chat_line chat_groups refl

perform-IsOneLine_example :
    IsOneLine algo (events (perform algo (part_list (codes "#a" ∷ codes "#b" ∷ []) (codes "bye"))))
perform-IsOneLine_example =
    perform-IsOneLine algo (part_list (codes "#a" ∷ codes "#b" ∷ []) (codes "bye"))
      ((refl, (refl, tt)), refl)

abbrev asking : Bytes → List Bytes → Message
asking command params = record empty_message { command = command; params = params }

read_message-ping_example :
    read_message algo irc_client (asking (codes "PING") (codes "srv" ∷ []))
    ≡ done tt (write (codes "PONG srv " ++ crlf) ∷ [])
read_message-ping_example =
    read_message-ping algo irc_client (asking (codes "PING") (codes "srv" ∷ [])) (codes "NG")
      (codes "srv") [] refl refl

read_message-privmsg_short_example :
    read_message algo irc_client (asking (codes "PRIVMSG") (codes "hi" ∷ [])) ≡ failed undefined []
read_message-privmsg_short_example =
    read_message-privmsg_short algo irc_client (asking (codes "PRIVMSG") (codes "hi" ∷ []))
      (codes "IVMSG") refl refl

read_message-out_of_range_example :
    read_message algo irc_client (asking (codes "3000000000") []) ≡ failed out_of_range []
unfolding number
read_message-out_of_range_example =
    read_message-out_of_range algo irc_client (asking (codes "3000000000") []) b'3'
      (codes "000000000") refl refl (omega arith)

read_lines-eq-for_each_example :
    read_lines (λ l. emit (print l)) 3 (codes "a\nb")
    ≡ for_each (λ l. emit (print l)) (lines (codes "a\nb"))
read_lines-eq-for_each_example =
    read_lines-eq-for_each (λ l. emit (print l)) 3 b'a' (codes "\nb") (omega arith)

abbrev show : Bytes → Run (Unit {0})
show l = emit (print l)

read_lines_torn_example :
    ((read_lines show 4 (codes "x\nab") >> read_lines show 3 (codes "cd\n"))
      ≡ for_each show (lines (codes "x\n") ++ (codes "ab" ∷ codes "cd" ∷ [])))
    × (read_lines show 7 (codes "x\nabcd\n")
        ≡ for_each show (lines (codes "x\n") ++ (codes "abcd" ∷ [])))
read_lines_torn_example =
    read_lines_torn show (codes "x") b'a' (codes "b") b'c' (codes "d") refl refl

Reach-PhaseInv_example :
    PhaseInv
      (codes "nick")
      (codes "oauth:x")
      (on_connect algo regex
        (twitch_client algo (codes "c"))
        (codes "nick")
        (codes "oauth:x")
        false
        start).phase
      (on_connect algo regex
        (twitch_client algo (codes "c"))
        (codes "nick")
        (codes "oauth:x")
        false
        start).trace
Reach-PhaseInv_example =
    Reach-PhaseInv algo regex (twitch_client algo (codes "c")) (codes "nick") (codes "oauth:x")
      (reply-FailsBy algo (codes "c")) (privmsg_to_page-FailsBy algo (codes "c"))
      (next here (connect_ends false start refl))

query_persons-IsHandled_example :
    IsHandled false true (query_persons false [] true (codes "no such table: persons") [])
query_persons-IsHandled_example =
    query_persons-IsHandled false [] true (codes "no such table: persons") []

read_message-end_of_motd_example :
    read_message algo (twitch_client algo (codes "c")) (asking (codes "376") [])
    ≡ done tt (welcome algo (codes "c"))
unfolding leading_digits
read_message-end_of_motd_example =
    read_message-end_of_motd algo (codes "c") (asking (codes "376") []) [] refl refl
