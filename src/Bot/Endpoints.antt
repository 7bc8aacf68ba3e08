-- ===== src/Bot/Endpoints.antt =====
-- src/bot.cpp: the two endpoints of the WebSocket server, and `main`, which sets them up.
pub mod Echo
use boost_irc.Base.{
  ℕ, ◌==◌, not, Bool, true, false, Option, none, some, List, [], ◌∷◌, ◌++◌, Bytes, codes, newline,
  if◌then◌else◌,
}
use boost_irc.Bot.{decimal}
use boost_irc.WebSocket.Connection.{Connection, Endpoint, send}

-- What a function of an endpoint does. A connection is known by its address.
pub data Effect : Type 0 where
  print : Bytes → Effect
  -- websocket.send(connection, send_stream, …), with the default first byte
  ws_send : Bytes → Effect
  -- new twitch_client(nick, pass, &websocket, connection)
  new_client : Bytes → Bytes → Effect

-- The functions of an endpoint; an error code is a number with a message.
pub record Functions : Type 0 where
  pub onopen : ℕ → List Effect
  pub onmessage : ℕ → Bytes → List Effect
  pub onclose : ℕ → ℕ → Bytes → List Effect
  pub onerror : ℕ → ℕ → Bytes → List Effect

abbrev error_text : ℕ → Bytes → Bytes
error_text ec message =
    codes "Error: " ++ (decimal ec ++ (codes ", error message: " ++ (message ++ newline)))

unfoldable pub echo_onmessage : ℕ → Bytes → List Effect
echo_onmessage connection message =
    print (
      codes "Server: Message received: \""
      ++ (message ++ (codes "\" from " ++ (decimal connection ++ newline))))
    ∷ print (
        codes "Server: Sending message \""
        ++ (message ++ (codes "\" to " ++ (decimal connection ++ newline))))
    ∷ ws_send message
    ∷ []

-- The callback of the send.
unfoldable pub echo_sent : Option (ℕ × Bytes) → List Effect
echo_sent none = []
echo_sent (some (ec, message)) =
    print (codes "Server: Error sending message. " ++ error_text ec message) ∷ []

unfoldable pub echo_onopen : ℕ → List Effect
echo_onopen connection =
    print (codes "Server: Opened connection " ++ (decimal connection ++ newline)) ∷ []

unfoldable pub echo_onclose : ℕ → ℕ → Bytes → List Effect
echo_onclose connection status reason =
    print (
      codes "Server: Closed connection "
      ++ (decimal connection ++ (codes " with status code " ++ (decimal status ++ newline))))
    ∷ []

unfoldable pub echo_onerror : ℕ → ℕ → Bytes → List Effect
echo_onerror connection ec message =
    print (
      codes "Server: Error in connection "
      ++ (decimal connection ++ (codes ". " ++ error_text ec message)))
    ∷ []

-- `websocket.endpoint["^/echo/?$"]`
abbrev pub echo : Functions
echo = record {
  onopen = echo_onopen;
  onmessage = echo_onmessage;
  onclose = echo_onclose;
  onerror = echo_onerror;
}

-- `websocket.endpoint["^/channel/([a-z0-9]+)/?$"]`: a page that opens it gets a client.
abbrev pub channel : Bytes → Bytes → Functions
channel username password = record {
  onopen = λ connection. new_client username password ∷ [];
  onmessage = λ connection message. [];
  onclose = λ connection status reason. [];
  onerror = λ connection ec message. [];
}

-- What `main` runs: the ports of the two servers, and the endpoints, in the order of their map.
pub record Program : Type 0 where
  pub http_port : ℕ
  pub websocket_port : ℕ
  pub endpoint : List (Bytes × Functions)

abbrev pub bot_program : Bytes → Bytes → Program
bot_program username password = record {
  http_port = 8080;
  websocket_port = 8081;
  endpoint =
      (codes "^/channel/([a-z0-9]+)/?$", channel username password)
      ∷ (codes "^/echo/?$", echo)
      ∷ [];
}

-- `main`, on its arguments; none where it returns 1.
unfoldable pub main : List Bytes → Option Program
main (bot ∷ username ∷ password ∷ doc_root ∷ []) = some (bot_program username password)
main _ = none

-- Both endpoints set every function, and the server has no idle timeout.
abbrev pub no_timeout : Endpoint
no_timeout = record {
  has_onopen = true;
  has_onmessage = true;
  has_onerror = true;
  has_onclose = true;
  timeout_idle = 0;
}

-- The effects of a function on its connection: what it sends.
unfoldable pub run_effects : List Effect → Connection → Connection
unfolding send
run_effects [] c = c
run_effects (print text ∷ effects) c = run_effects effects c
run_effects (ws_send text ∷ effects) c = run_effects effects (send no_timeout text 129 c)
run_effects (new_client username password ∷ effects) c = run_effects effects c
