-- ===== src/HttpServer/Serving/Turns.antt =====
-- On every connection of a server requests and responses take turns.
use boost_irc.Base.{Option, sym, subst}
use boost_irc.Serving as Serving
use boost_irc.Serving.{Config, IsResult}
use boost_irc.Serving.Every.{EachIs, Reach-EachIs}
use boost_irc.HttpServer.Connection.{Connection, Server, accepted, here}
use boost_irc.HttpServer.Connection.Cycle.{InTurn}
use boost_irc.HttpServer.Connection.Reached.{Reach-InTurn, Step-InTurn}
use boost_irc.HttpServer.Serving as All
use boost_irc.HttpServer.Serving.{
  IsAccepted, HttpAccepted, option_fails, made, HttpStep, runs, same,
}

module _ {H : Type 0} (server : Server H) where
  begins : (c : Connection H) → IsAccepted server c → InTurn c
  begins c e = subst InTurn (sym e) (Reach-InTurn server (accepted server) here)

  keeps :
      (c : Connection H) (r : Option (Connection H))
      → HttpStep server c r
      → InTurn c
      → IsResult InTurn r
  keeps _ _ (runs c d st) i = Step-InTurn server c d st i

  begins_accepted : (r : Option (Connection H)) → HttpAccepted server r → IsResult InTurn r
  begins_accepted _ option_fails = tt
  begins_accepted _ (made c e) = begins c e

  -- In every state that the HTTP server reaches, in whatever order the handlers of its connections
  -- run: one async_accept waits, and on each connection requests and responses take turns. That is,
  -- in all that the connection has done, a request is read first, or where the response to the one
  -- before was ended; then its content, if any, and one function that is called with it; then any
  -- number of parts that this function sends, while it holds the response; and then the last part,
  -- when the response is dropped, with which it is ended. What is awaited is what comes next.
  pub served-InTurn :
      (config : Config) (s : Serving.Server (Connection H))
      → All.Reach server config s
      → EachIs InTurn InTurn s
  served-InTurn config s r =
      Reach-EachIs InTurn InTurn (HttpAccepted server) (HttpStep server) (same server)
        begins_accepted keeps (λ c i. i) config s r
