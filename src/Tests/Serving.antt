-- ===== src/Tests/Serving.antt =====
-- The servers with their connections, on concrete runs.
use boost_irc.Base.{
  ℕ, ◌≡◌, ◌↔◌, refl, true, false, some, List, [], ◌∷◌, Bytes, codes, length, equal, arith,
}
use boost_irc.Serving as Serving
use boost_irc.Serving.{Config}
use boost_irc.Serving.Every.{EachIs}
use boost_irc.Serving.Tls as Tls
use boost_irc.Serving.Tls.{TlsPeer}
use boost_irc.HttpServer.Connection.{
  Connection as HttpConnection, response, accepted, header_ends, part_sent, part_written,
  response_dropped, Step, header_ended, part_sends, part_ends, dropped,
}
use boost_irc.HttpServer.Connection.Cycle.{InTurn}
use boost_irc.HttpServer.Resources.{find_resource, add_resources}
use boost_irc.HttpServer.Serving as HttpServing
use boost_irc.HttpServer.Serving.Turns.{served-InTurn}
use boost_irc.WebSocket.Connection.{
  Connection, Endpoint, opening, handshake_ends, connection_open, timer_idle_init, IsReading,
  handshake_written,
}
use boost_irc.WebSocket.Peer as Peer
use boost_irc.WebSocket.Peer.{read_handshake, handshake_received, get_connections}
use boost_irc.WebSocket.Peer.Sets.{has, get_connections-IsReading}
use boost_irc.Bot.Endpoints.{no_timeout}
use boost_irc.HttpServer.Request.RoundTrip.{request_text}
use boost_irc.HttpServer.Connection.Content.{header_ends-Calls}
use boost_irc.Tests.HttpServer.{server, get, get-IsRequest}
use boost_irc.Tests.Handshake.{handshaker}

abbrev config : Config
config = record { port = 8080; address = []; reuse_address = true; num_threads = 1 }

-- Two connections of the HTTP server. The function that gets the request of the first one sends a
-- part of its response before it drops it.
abbrev two_accepted : Serving.Server (HttpConnection ℕ)
two_accepted =
    Serving.accept_ends (some (some (accepted server)))
      (Serving.accept_ends (some (some (accepted server))) (Serving.start config))

two_accepted-Reach : HttpServing.Reach server config two_accepted
unfolding Serving.start Serving.accept_ends
two_accepted-Reach =
    Serving.next
      (Serving.next Serving.here (
        Serving.accepts_peer (some (accepted server)) (Serving.start config)
          (HttpServing.made (accepted server) refl) refl (omega arith)))
      (Serving.accepts_peer (some (accepted server))
        (Serving.accept_ends (some (some (accepted server))) (Serving.start config))
        (HttpServing.made (accepted server) refl) refl (omega arith))

abbrev first_is : HttpConnection ℕ → Serving.Server (HttpConnection ℕ)
first_is c = Serving.peer_ends [] (some c) (accepted server ∷ []) two_accepted

-- A handler of the first connection has run.
first_runs :
    (s : Serving.Server (HttpConnection ℕ)) (c d : HttpConnection ℕ)
    → s.peers ≡ c ∷ accepted server ∷ []
    → s.state ≡ Serving.running
    → Step server c d
    → HttpServing.Reach server config s
    → HttpServing.Reach server config (Serving.peer_ends [] (some d) (accepted server ∷ []) s)
first_runs s c d e running st r =
    Serving.next r (
      Serving.peer_steps [] c (some d) (accepted server ∷ []) s e running (HttpServing.runs c d st))

abbrev called_with : HttpConnection ℕ
called_with =
    header_ends server false (request_text get []) (length (request_text get [])) (accepted server)

abbrev first_part : HttpConnection ℕ
first_part = part_sent server (codes "x") get 0 called_with

abbrev second_part : HttpConnection ℕ
second_part = part_sent server (codes "y") get 0 (part_written server get 0 first_part)

abbrev answered : HttpConnection ℕ
answered = response_dropped server [] get (part_written server get 0 second_part)

called_with_waits : called_with.wait ≡ response get 0
unfolding find_resource add_resources equal
called_with_waits =
    (header_ends-Calls server 3 [] get refl get-IsRequest [] (accepted server) refl).waits

answered-Reach : HttpServing.Reach server config (first_is answered)
unfolding Serving.start Serving.accept_ends part_sent part_written response_dropped accepted
answered-Reach =
    first_runs (first_is (part_written server get 0 second_part))
      (part_written server get 0 second_part) answered refl refl
      (dropped [] get (part_written server get 0 second_part) refl)
      (first_runs (first_is second_part) second_part (part_written server get 0 second_part) refl
        refl (part_ends get 0 second_part refl)
        (first_runs (first_is (part_written server get 0 first_part))
          (part_written server get 0 first_part) second_part refl refl
          (part_sends (codes "y") get 0 (part_written server get 0 first_part) refl)
          (first_runs (first_is first_part) first_part (part_written server get 0 first_part) refl
            refl (part_ends get 0 first_part refl)
            (first_runs (first_is called_with) called_with first_part refl refl
              (part_sends (codes "x") get 0 called_with called_with_waits)
              (first_runs two_accepted (accepted server) called_with refl refl
                (header_ended false (request_text get []) (length (request_text get []))
                  (accepted server) refl)
                two_accepted-Reach)))))

served-InTurn_example : EachIs InTurn InTurn (first_is answered)
served-InTurn_example = served-InTurn server config (first_is answered) answered-Reach

-- A connection over TLS, whose handshake ends.
abbrev tls_peer : TlsPeer (HttpConnection ℕ)
tls_peer = Tls.tls_accepted 5

-- A connection of the WebSocket server, whose handshake is read and answered.
abbrev begun : Peer.Peer
begun = read_handshake handshaker 5

abbrev request : Bytes
request = codes "GET /echo HTTP/1.1\r\nsec-websocket-key: k\r\n\r\n"

abbrev answering : Peer.Peer
answering = handshake_received handshaker 5 false request begun

abbrev open_connection : Connection
open_connection = handshake_ends no_timeout false (opening [])

abbrev opened : Peer.Peer
opened = record answering { stage = Peer.serving 7 open_connection }

abbrev endpoints : List Endpoint
endpoints =
    no_timeout ∷ no_timeout ∷ no_timeout ∷ no_timeout ∷ no_timeout ∷ no_timeout ∷ no_timeout
    ∷ no_timeout ∷ []

abbrev one_peer : Peer.Peer → Serving.Server Peer.Peer
one_peer p =
    Serving.peer_ends [] (some p) []
      (Serving.accept_ends (some (some begun)) (Serving.start config))

answering_runs : answering.stage ≡ Peer.serving 7 (opening [])
unfolding handshake_received read_handshake equal
answering_runs = refl

one_peer-Reach : Peer.Reach handshaker 5 endpoints config (one_peer opened)
unfolding Serving.start Serving.accept_ends read_handshake
one_peer-Reach =
    Serving.next
      (Serving.next
        (Serving.next Serving.here (
          Serving.accepts_peer (some begun) (Serving.start config) (Peer.made begun refl) refl
            (omega arith)))
        (Serving.peer_steps [] begun (some answering) []
          (Serving.accept_ends (some (some begun)) (Serving.start config)) refl refl
          (Peer.handshake_ended false request begun refl)))
      (Serving.peer_steps [] answering (some opened) [] (one_peer answering) refl refl (
        Peer.connection_steps 7 no_timeout (opening []) open_connection answering answering_runs
          refl (handshake_written false (opening []) refl)))

get_connections-IsReading_example :
    (has 0 (get_connections 0 8 (one_peer opened).peers) ≡ true) ↔ IsReading open_connection.wait
unfolding Serving.start Serving.accept_ends handshake_ends connection_open timer_idle_init
get_connections-IsReading_example =
    get_connections-IsReading handshaker 5 endpoints config (one_peer opened) one_peer-Reach 0 7
      opened open_connection refl refl refl (omega arith) (λ e. cc)
