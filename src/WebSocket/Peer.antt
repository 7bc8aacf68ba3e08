-- ===== src/WebSocket/Peer.antt =====
-- A connection of web_socket_server/server_ws.hpp from its acceptance on: `read_handshake` with its
-- timer, and then the connection of an endpoint. The server of all connections is `Serving`, and
-- the sets of the endpoints are read from the connections.
pub mod Sets
pub mod Served
use boost_irc.Base.{
  ℕ, zero, suc, ◌==◌, Bool, true, false, Option, none, some, List, [], ◌∷◌, ◌++◌, Bytes, length,
  get_elem?, ◌≡◌, if◌then◌else◌,
}
use boost_irc.Std.Stream.{Stream}
use boost_irc.Boost.Regex.{Groups}
use boost_irc.HttpServer.Request.{stream_of}
use boost_irc.Serving as Serving
use boost_irc.Serving.{Config}
use boost_irc.Serving.Timer.{Timer, off, waiting, due, set, cancel, fires}
use boost_irc.Serving.Tls as Tls
use boost_irc.Serving.Tls.{
  TlsPeer, secured, handshaking, refused as tls_refused, TlsAccepted, TlsStep,
}
use boost_irc.WebSocket.Handshake.{Handshaker, Parsed, parse_handshake, handshake_read}
use boost_irc.WebSocket.Connection.{Connection, Endpoint, opening, Step}

-- `refused`: no handler holds the connection but the timer's. `serving`: at an endpoint, by its
-- place.
pub data Stage : Type 0 where
  reading_handshake refused : Stage
  serving : ℕ → Connection → Stage

pub record Peer : Type 0 where
  pub stage : Stage
  -- of the handshake
  pub timer : Timer
  pub socket_closed : Bool

-- What is left in `read_buffer` behind the handshake.
abbrev pub rest_of : Parsed → Bytes
rest_of none = []
rest_of (some (c, stream)) = stream.text

abbrev pub answered_stage : Bytes → Option (ℕ × Groups × Bytes) → Stage
answered_stage rest none = refused
answered_stage rest (some (endpoint, path_match, answer)) = serving endpoint (opening rest)

-- The handler of the timer: shutdown throws on an error, which the flag tells.
unfoldable pub timeout_ends : Bool → Peer → Option Peer
timeout_ends true p = none
timeout_ends false p = some (record p { timer = off; socket_closed = true })

-- `stop()` clears the sets of the endpoints.
abbrev pub clear_stage : Stage → Stage
clear_stage reading_handshake = reading_handshake
clear_stage refused = refused
clear_stage (serving i c) = serving i (record c { member = false })

unfoldable pub clear : Peer → Peer
clear p = record p { stage = clear_stage p.stage }

abbrev pub MayThrow : Bool → Type 0
MayThrow b = Unit {0}

abbrev pub clear_secured : Tls.Stage Peer → Tls.Stage Peer
clear_secured handshaking = handshaking
clear_secured tls_refused = tls_refused
clear_secured (secured p) = secured (clear p)

abbrev pub clear_tls : TlsPeer Peer → TlsPeer Peer
clear_tls p = record p { stage = clear_secured p.stage }

module _ (h : Handshaker) (timeout_request : ℕ) where
  -- `read_handshake`, up to the wait.
  unfoldable pub read_handshake : Peer
  read_handshake = record {
    stage = reading_handshake;
    timer = set timeout_request;
    socket_closed = false;
  }

  -- Its handler.
  unfoldable pub handshake_received : Bool → Bytes → Peer → Peer
  unfolding parse_handshake handshake_read
  handshake_received ec text p = record p {
    stage =
        answered_stage (rest_of (parse_handshake (length text) (stream_of text)))
          (handshake_read h ec text);
    timer = cancel p.timer;
  }

  -- The handler of async_accept.
  pub data WsAccepted : Option Peer → Type 0 where
    made : (p : Peer) → p ≡ read_handshake → WsAccepted (some p)

  module _ (endpoints : List Endpoint) where
    pub data PeerStep : Peer → Option Peer → Type 0 where
      handshake_ended :
          (ec : Bool) (text : Bytes) (p : Peer)
          → p.stage ≡ reading_handshake
          → PeerStep p (some (handshake_received ec text p))
      time_over :
          (p : Peer) → p.timer ≡ waiting → PeerStep p (some (record p { timer = fires p.timer }))
      timeout_ended :
          (throws : Bool) (p : Peer) → p.timer ≡ due → PeerStep p (timeout_ends throws p)
      connection_steps :
          (i : ℕ) (e : Endpoint) (c d : Connection) (p : Peer)
          → p.stage ≡ serving i c
          → get_elem? endpoints i ≡ some e
          → Step e c d
          → PeerStep p (some (record p { stage = serving i d }))

    abbrev pub Reach : Config → Serving.Server Peer → Type 0
    Reach = Serving.Reach WsAccepted PeerStep clear

    -- `SocketServer<WSS>`: the connection begins behind a handshake.
    abbrev pub IsBegun : Peer → Type 0
    IsBegun p = p ≡ read_handshake

    abbrev pub TlsReach : Config → Serving.Server (TlsPeer Peer) → Type 0
    TlsReach =
        Serving.Reach (TlsAccepted timeout_request ⊥ IsBegun MayThrow PeerStep)
          (TlsStep timeout_request ⊥ IsBegun MayThrow PeerStep) clear_tls

-- The connections of a server are known by their places among its peers, from `k` on.
-- `endpoint.connections` of the endpoint at the place `i`.
abbrev pub in_set : ℕ → Stage → Bool
in_set i reading_handshake = false
in_set i refused = false
in_set i (serving j c) = if i == j then c.member else false

unfoldable pub connections : ℕ → ℕ → List Peer → List ℕ
connections i k [] = []
connections i k (p ∷ peers) =
    let rest = connections i (suc k) peers in if in_set i p.stage then k ∷ rest else rest

-- `get_connections()`: the sets of all endpoints, of which there are `n`, from the place `i` on.
unfoldable pub get_connections : ℕ → ℕ → List Peer → List ℕ
unfolding connections
get_connections i zero peers = []
get_connections i (suc n) peers = connections i 0 peers ++ get_connections (suc i) n peers
