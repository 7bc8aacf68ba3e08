-- ===== src/HttpServer/Serving.antt =====
-- The whole HTTP server, web_server/server_http.hpp, with all its connections, and the one over TLS,
-- web_server/server_https.hpp.
pub mod Turns
use boost_irc.Base.{ℕ, Bool, false, Option, none, some, ◌≡◌}
use boost_irc.Serving as Serving
use boost_irc.Serving.{Config}
use boost_irc.Serving.Tls.{TlsPeer, TlsAccepted, TlsStep}
use boost_irc.HttpServer.Connection.{Connection, Server, accepted, Step}

module _ {H : Type 0} (server : Server H) where
  -- What a connection begins with: read_request_and_content was called.
  abbrev pub IsAccepted : Connection H → Type 0
  IsAccepted c = c ≡ accepted server

  -- The handler of async_accept in `Server<HTTP>::accept`: set_option may throw.
  pub data HttpAccepted : Option (Connection H) → Type 0 where
    option_fails : HttpAccepted none
    made : (c : Connection H) → IsAccepted c → HttpAccepted (some c)

  -- The handlers of a connection catch what they call.
  pub data HttpStep : Connection H → Option (Connection H) → Type 0 where
    runs : (c d : Connection H) → Step server c d → HttpStep c (some d)

  abbrev pub same : Connection H → Connection H
  same c = c

  abbrev pub NoThrow : Bool → Type 0
  NoThrow thrown = thrown ≡ false

  -- The states of the server: `stop()` leaves the connections as they are.
  abbrev pub Reach : Config → Serving.Server (Connection H) → Type 0
  Reach = Serving.Reach HttpAccepted HttpStep same

  -- `Server<HTTPS>`: its timer ignores the error of shutdown.
  abbrev pub same_tls : TlsPeer (Connection H) → TlsPeer (Connection H)
  same_tls p = p

  abbrev pub TlsReach : Config → Serving.Server (TlsPeer (Connection H)) → Type 0
  TlsReach =
      Serving.Reach (TlsAccepted server.timeout_request (Unit {0}) IsAccepted NoThrow HttpStep)
        (TlsStep server.timeout_request (Unit {0}) IsAccepted NoThrow HttpStep) same_tls
