-- ===== src/WebSocket/Peer/Served.antt =====
-- What holds of every connection of a server, in whatever order the handlers run.
use boost_irc.Base.{
  ℕ, Bool, true, false, Option, none, some, ◌≡◌, ◌≢◌, refl, sym, subst, Bytes, List,
}
use boost_irc.Boost.Regex.{Groups}
use boost_irc.Serving as Serving
use boost_irc.Serving.{Config, IsResult}
use boost_irc.Serving.Timer.{Timer, off, waiting, cancel, fires, cancel-ne-waiting}
use boost_irc.Serving.Every.{EachIs, Reach-EachIs}
use boost_irc.Serving.Tls as Tls
use boost_irc.Serving.Tls.{
  TlsPeer, handshaking, refused as tls_refused, secured, IsTls, TlsAccepted-IsResult,
  TlsStep-IsResult,
}
use boost_irc.WebSocket.Handshake.{Handshaker, handshake_read}
use boost_irc.WebSocket.Connection.{Endpoint}
use boost_irc.WebSocket.Connection.Closing.{OnceClosed}
use boost_irc.WebSocket.Connection.Reached.{Step-OnceClosed}
use boost_irc.WebSocket.Peer.{
  Stage, reading_handshake, refused, serving, Peer, answered_stage, read_handshake,
  handshake_received, timeout_ends, WsAccepted, made, PeerStep, handshake_ended, time_over,
  timeout_ended, connection_steps, clear, clear_stage, Reach, IsBegun, MayThrow, clear_secured,
  clear_tls, TlsReach,
}

-- Behind its handshake a connection is closed once and ends once, and the timer of the handshake
-- does not wait.
abbrev pub IsServedStage : Stage → Timer → Type 0
IsServedStage reading_handshake timer = Unit {0}
IsServedStage refused timer = timer ≢ waiting
IsServedStage (serving i c) timer = (timer ≢ waiting) × OnceClosed c

abbrev pub IsServed : Peer → Type 0
IsServed p = IsServedStage p.stage p.timer

-- When the server was stopped: no connection is in a set.
abbrev pub IsOutStage : Stage → Type 0
IsOutStage (serving i c) = c.member ≡ false
IsOutStage _ = Unit {0}

abbrev pub IsOut : Peer → Type 0
IsOut p = IsOutStage p.stage

abbrev pub IsOutSecured : Tls.Stage Peer → Type 0
IsOutSecured (secured p) = IsOut p
IsOutSecured _ = Unit {0}

abbrev pub IsOutTls : TlsPeer Peer → Type 0
IsOutTls p = IsOutSecured p.stage

fires-IsServed :
    (s : Stage) (t : Timer) → t ≡ waiting → IsServedStage s t → IsServedStage s (fires t)
fires-IsServed reading_handshake t e i = tt
fires-IsServed refused t e i = absurd (i e)
fires-IsServed (serving j c) t e i = absurd (i.0 e)

off-IsServed : (s : Stage) (t : Timer) → IsServedStage s t → IsServedStage s off
off-IsServed reading_handshake t i = tt
off-IsServed refused t i = λ e. cc
off-IsServed (serving j c) t i = (λ e. cc, i.1)

clear_stage-IsOut : (s : Stage) → IsOutStage (clear_stage s)
clear_stage-IsOut reading_handshake = tt
clear_stage-IsOut refused = tt
clear_stage-IsOut (serving i c) = refl

clear-IsOut : (p : Peer) → IsOut (clear p)
unfolding clear
clear-IsOut p = clear_stage-IsOut p.stage

clear_secured-IsOut : (s : Tls.Stage Peer) → IsOutSecured (clear_secured s)
clear_secured-IsOut handshaking = tt
clear_secured-IsOut tls_refused = tt
clear_secured-IsOut (secured p) = clear-IsOut p

module _ (h : Handshaker) (timeout_request : ℕ) (endpoints : List Endpoint) where
  answered-IsServed :
      (rest : Bytes) (o : Option (ℕ × Groups × Bytes)) (t : Timer)
      → IsServedStage (answered_stage rest o) (cancel t)
  answered-IsServed rest none t = cancel-ne-waiting t
  answered-IsServed rest (some (i, m, a)) t =
      (cancel-ne-waiting t, record { closing = refl; phase = (refl, refl) })

  timeout_ends-IsServed :
      (throws : Bool) (p : Peer) → IsServed p → IsResult IsServed (timeout_ends throws p)
  unfolding timeout_ends
  timeout_ends-IsServed true p i = tt
  timeout_ends-IsServed false p i = off-IsServed p.stage p.timer i

  PeerStep-IsServed :
      (p : Peer) (r : Option Peer)
      → PeerStep h timeout_request endpoints p r
      → IsServed p
      → IsResult IsServed r
  unfolding handshake_received
  PeerStep-IsServed _ _ (handshake_ended ec text p e) i =
      answered-IsServed _ (handshake_read h ec text) p.timer
  PeerStep-IsServed _ _ (time_over p e) i = fires-IsServed p.stage p.timer e i
  PeerStep-IsServed _ _ (timeout_ended throws p e) i = timeout_ends-IsServed throws p i
  PeerStep-IsServed _ _ (connection_steps j e c d p s l st) i =
      let (n, o) = subst (λ v. IsServedStage v p.timer) s i in (n, Step-OnceClosed e c d st o)

  begun-IsServed : (p : Peer) → p ≡ read_handshake h timeout_request → IsServed p
  unfolding read_handshake
  begun-IsServed p e = subst IsServed (sym e) tt

  accepted-IsServed : (r : Option Peer) → WsAccepted h timeout_request r → IsResult IsServed r
  accepted-IsServed _ (made p e) = begun-IsServed p e

  -- In every state that the server reaches, in whatever order the handlers of its connections run:
  -- one async_accept waits, each connection of an endpoint is closed once and ends once, and the
  -- timer of its handshake does not wait any more; when the server was stopped, no connection is in
  -- the set of its endpoint.
  pub Reach-IsServed :
      (config : Config) (s : Serving.Server Peer)
      → Reach h timeout_request endpoints config s
      → EachIs IsServed IsOut s
  Reach-IsServed config s r =
      Reach-EachIs IsServed IsOut (WsAccepted h timeout_request)
        (PeerStep h timeout_request endpoints) clear accepted-IsServed PeerStep-IsServed
        (λ p i. clear-IsOut p) config s r

  -- The same over TLS, of the connections that a handshake has secured, none of which begins before;
  -- and the timer of that handshake waits at most until it has ended.
  pub TlsReach-IsServed :
      (config : Config) (s : Serving.Server (TlsPeer Peer))
      → TlsReach h timeout_request endpoints config s
      → EachIs (IsTls IsServed) IsOutTls s
  TlsReach-IsServed config s r =
      Reach-EachIs (IsTls IsServed) IsOutTls _ _ clear_tls
        (TlsAccepted-IsResult timeout_request ⊥ (IsBegun h timeout_request endpoints) MayThrow
          (PeerStep h timeout_request endpoints) IsServed)
        (TlsStep-IsResult timeout_request ⊥ (IsBegun h timeout_request endpoints) MayThrow
          (PeerStep h timeout_request endpoints) IsServed begun-IsServed PeerStep-IsServed)
        (λ p i. clear_secured-IsOut p.stage) config s r
