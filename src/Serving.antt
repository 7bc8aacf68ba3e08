-- ===== src/Serving.antt =====
-- What the two servers do alike (web_server/server_http.hpp and web_socket_server/server_ws.hpp,
-- where `start`, `accept` and `stop` are the same but for the connections): the acceptor, and the
-- connections as peers, whose handlers the io_service runs one at a time, in any order.
pub mod Every
pub mod Timer
pub mod Tls
use boost_irc.Base.{
  ℕ, suc, ◌-◌, ltb, Bool, true, false, Option, none, some, List, [], ◌∷◌, ◌++◌, Bytes, length, map,
  ◌≡◌, if◌then◌else◌, ◌+◌, ◌<◌,
}

pub record Config : Type 0 where
  pub port : ℕ
  -- empty: any address
  pub address : Bytes
  pub reuse_address : Bool
  pub num_threads : ℕ

pub data AcceptorCall : Type 0 where
  -- open(protocol), set_option(reuse_address), bind(endpoint), listen(), close()
  opens listens closes : AcceptorCall
  reuses : Bool → AcceptorCall
  -- none: any address of version 4
  binds : Option Bytes → ℕ → AcceptorCall

-- `stopped`: io_service.stop() was called, so no handler is run any more. `terminated`: an
-- exception left a handler, and with it io_service.run() and the thread, which ends the program.
pub data Running : Type 0 where
  running stopped terminated : Running

pub record Server (P : Type 0) : Type 0 where
  pub state : Running
  pub acceptor : List AcceptorCall
  -- the operations async_accept that wait, and the threads that run the io_service
  pub accepts : ℕ
  pub threads : ℕ
  pub peers : List P

-- `if(config.address.size()>0) … else …`
abbrev pub bind_address : Bytes → Option Bytes
bind_address [] = none
bind_address (c ∷ s) = some (c ∷ s)

-- Of a result that is none nothing is asked.
abbrev pub IsResult : {P : Type 0} → (P → Type 0) → Option P → Type 0
IsResult I none = Unit {0}
IsResult I (some p) = I p

module _ {P : Type 0} where
  -- `accept()`: a new socket, and an async_accept for it.
  abbrev pub accept : Server P → Server P
  accept s = record s { accepts = s.accepts + 1 }

  -- `start()` on a server that did not run before, up to io_service.run().
  unfoldable pub start : Config → Server P
  start config = accept (record {
    state = running;
    acceptor =
        opens
        ∷ reuses config.reuse_address
        ∷ binds (bind_address config.address) config.port
        ∷ listens
        ∷ [];
    accepts = 0;
    threads = suc (config.num_threads - 1);
    peers = [];
  })

  abbrev pub add_peer : Option P → Server P → Server P
  add_peer none s = record s { state = terminated }
  add_peer (some p) s = record s { peers = s.peers ++ (p ∷ []) }

  -- The handler of async_accept: it accepts anew, also on an error (none); without one it makes a
  -- peer, or an exception leaves it.
  unfoldable pub accept_ends : Option (Option P) → Server P → Server P
  accept_ends none s = accept (record s { accepts = s.accepts - 1 })
  accept_ends (some p) s = add_peer p (accept (record s { accepts = s.accepts - 1 }))

  -- `stop()`: what it does to the peers is `clear`.
  unfoldable pub stop : (P → P) → Server P → Server P
  stop clear s = record s {
    state = stopped;
    acceptor = s.acceptor ++ (closes ∷ []);
    peers = map clear s.peers;
  }

  -- A handler of one of the peers has run, with the peers before it and behind it.
  abbrev pub peer_ends : List P → Option P → List P → Server P → Server P
  peer_ends before none behind s = record s { state = terminated }
  peer_ends before (some p) behind s = record s { peers = before ++ (p ∷ behind) }

  module _ (Accepted : Option P → Type 0) (PeerStep : P → Option P → Type 0) (clear : P → P) where
    -- A step of the server: a handler, where `Accepted` and `PeerStep` say what those of a
    -- connection do (none where an exception leaves them), or a call of stop().
    pub data Step : Server P → Server P → Type 0 where
      accept_fails :
          (s : Server P) → s.state ≡ running → 0 < s.accepts → Step s (accept_ends none s)
      accepts_peer :
          (p : Option P) (s : Server P)
          → Accepted p
          → s.state ≡ running
          → 0 < s.accepts
          → Step s (accept_ends (some p) s)
      peer_steps :
          (before : List P) (p : P) (r : Option P) (behind : List P) (s : Server P)
          → s.peers ≡ before ++ (p ∷ behind)
          → s.state ≡ running
          → PeerStep p r
          → Step s (peer_ends before r behind s)
      stops : (s : Server P) → s.state ≡ running → Step s (stop clear s)

    pub data Reach (config : Config) : Server P → Type 0 where
      here : Reach config (start config)
      next : {s t : Server P} → Reach config s → Step s t → Reach config t
