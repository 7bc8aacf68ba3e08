-- ===== src/Tests/Handshake.antt =====
-- The handshake of the WebSocket server, and the echo of a message behind it.
use boost_irc.Base.{ℕ, ◌≡◌, ◌≢◌, refl, true, false, none, some, List, [], ◌∷◌, codes, equal, arith}
use boost_irc.Crypto.{encode}
use boost_irc.Tests.Crypto.{padded}
use boost_irc.HttpServer.Request.{Request}
use boost_irc.HttpServer.Request.RoundTrip.{IsRequest, request_text}
use boost_irc.WebSocket.Handshake.{Handshaker, handshake_read, accept_value, hex_words}
use boost_irc.WebSocket.Handshake.Accept.{IsLong, accept_value-ne-base64}
use boost_irc.WebSocket.Handshake.Answering.{answered, first_endpoint, handshake_read-request_text}
use boost_irc.WebSocket.Connection.{Connection, opening, first_bytes}
use boost_irc.Bot.Endpoints.{bot_program, new_client}
use boost_irc.Bot.Opening.{opens}
use boost_irc.Bot.Opening.Pages.{opens-bot_program}
use boost_irc.Bot.Endpoints.Echo.{IsEcho, echoed, echoed-IsEcho}

abbrev pub digest : List ℕ
digest = 16 ∷ 2147483648 ∷ 1193046 ∷ 4294967295 ∷ 16777215 ∷ []

hex_words_runs : hex_words (16 ∷ 171 ∷ []) ≡ codes "00000010ab"
unfolding hex_words
hex_words_runs = refl

abbrev pub handshaker : Handshaker
handshaker = record {
  sha1 = λ s. digest;
  filter = padded;
  regex_match = λ expression path. some [];
  opt_endpoint = (codes "^/echo/?$", 7) ∷ [];
}

digest-IsLong : IsLong digest
digest-IsLong = record {
  a = 16;
  b = 2147483648;
  c = 1193046;
  d = 4294967295;
  e = 16777215;
  words = refl;
  long = (omega arith, omega arith, omega arith, omega arith);
}

accept_value-ne-base64_example :
    accept_value handshaker (codes "key") ≢ encode padded (codes "01234567890123456789")
accept_value-ne-base64_example =
    accept_value-ne-base64 handshaker (codes "key") (codes "01234567890123456789") digest-IsLong
      refl

abbrev upgrade : Request
upgrade = record {
  method = codes "GET";
  path = codes "/echo";
  http_version = codes "1.1";
  header = (codes "Sec-WebSocket-Key", codes "dGhl") ∷ [];
}

upgrade-IsRequest : IsRequest upgrade
upgrade-IsRequest = record {
  method_word = (refl, refl);
  path_word = (refl, refl);
  version_line = refl;
  fields = ((refl, refl, refl), tt);
}

-- The key in the spelling of RFC 6455 is not found.
handshake_read-request_text_example :
    handshake_read handshaker false (request_text upgrade [])
    ≡ answered handshaker
        (first_endpoint handshaker.regex_match (codes "/echo") handshaker.opt_endpoint)
        none
unfolding equal
handshake_read-request_text_example =
    handshake_read-request_text handshaker upgrade upgrade-IsRequest []

abbrev page : Connection
page = record (opening []) { wait = first_bytes; member = true }

echoed-IsEcho_example : IsEcho (codes "hi") page (echoed 3 (1 ∷ 2 ∷ 3 ∷ 4 ∷ []) (codes "hi") page)
echoed-IsEcho_example =
    echoed-IsEcho 3 (1 ∷ 2 ∷ 3 ∷ 4 ∷ []) (codes "hi") page refl refl refl
      (omega arith, (omega arith, tt)) (omega arith)

-- With the name of the field as the server looks it up.
abbrev lower_case : Request
lower_case = record upgrade { header = (codes "sec-websocket-key", codes "key") ∷ [] }

lower_case-IsRequest : IsRequest lower_case
lower_case-IsRequest = record {
  method_word = (refl, refl);
  path_word = (refl, refl);
  version_line = refl;
  fields = ((refl, refl, refl), tt);
}

opens-bot_program_example :
    opens handshaker
      (bot_program (codes "bot") (codes "oauth:x")).endpoint
      3
      (request_text lower_case [])
    ≡ some (new_client (codes "bot") (codes "oauth:x") ∷ [])
unfolding equal
opens-bot_program_example =
    opens-bot_program handshaker (codes "bot") (codes "oauth:x") lower_case [] (codes "key") 3
      lower_case-IsRequest refl
