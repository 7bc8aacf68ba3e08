-- ===== src/Serving/Tls.antt =====
-- The servers over TLS, web_server/server_https.hpp and web_socket_server/server_wss.hpp: `accept`
-- makes a handshake before the connection, which is that of the server without TLS, begins.
pub mod Context
use boost_irc.Base.{ℕ, Bool, true, false, Option, none, some, ◌≡◌, ◌≢◌, subst, sym}
use boost_irc.Serving.{IsResult}
use boost_irc.Serving.Timer.{Timer, off, waiting, due, set, cancel, fires, cancel-ne-waiting}

-- `refused`: no handler holds the socket but the timer's.
pub data Stage (P : Type 0) : Type 0 where
  handshaking refused : Stage P
  secured : P → Stage P

pub record TlsPeer (P : Type 0) : Type 0 where
  pub stage : Stage P
  -- of the handshake
  pub timer : Timer
  pub socket_closed : Bool

module _ {P : Type 0} where
  -- The handler of async_accept, without an error.
  abbrev pub tls_accepted : ℕ → TlsPeer P
  tls_accepted timeout_request = record {
    stage = handshaking;
    timer = set timeout_request;
    socket_closed = false;
  }

  -- The handler of async_handshake; `first` is what the connection begins with.
  unfoldable pub tls_ends : Bool → P → TlsPeer P → TlsPeer P
  tls_ends true first p = record p { stage = refused; timer = cancel p.timer }
  tls_ends false first p = record p { stage = secured first; timer = cancel p.timer }

  -- The handler of the timer; a flag tells whether an exception leaves it.
  unfoldable pub tls_timer_ends : Bool → TlsPeer P → Option (TlsPeer P)
  tls_timer_ends true p = none
  tls_timer_ends false p = some (record p { timer = off; socket_closed = true })

  abbrev pub in_stage : TlsPeer P → Option P → Option (TlsPeer P)
  in_stage p none = none
  in_stage p (some d) = some (record p { stage = secured d })

  module _ (I : P → Type 0) where
    abbrev pub IsStage : Stage P → Timer → Type 0
    IsStage handshaking timer = Unit {0}
    IsStage refused timer = timer ≢ waiting
    IsStage (secured c) timer = (timer ≢ waiting) × I c

    abbrev pub IsTls : TlsPeer P → Type 0
    IsTls p = IsStage p.stage p.timer

    IsStage-fires : (s : Stage P) (t : Timer) → t ≡ waiting → IsStage s t → IsStage s (fires t)
    IsStage-fires handshaking t e i = tt
    IsStage-fires refused t e i = absurd (i e)
    IsStage-fires (secured c) t e i = absurd (i.0 e)

    IsStage-off : (s : Stage P) (t : Timer) → IsStage s t → IsStage s off
    IsStage-off handshaking t i = tt
    IsStage-off refused t i = λ e. cc
    IsStage-off (secured c) t i = (λ e. cc, i.1)

  module _ (timeout_request : ℕ) (option_throws : Type 0) (First : P → Type 0)
      (throws : Bool → Type 0) (PeerStep : P → Option P → Type 0) where
    pub data TlsAccepted : Option (TlsPeer P) → Type 0 where
      -- set_option throws
      option_fails : option_throws → TlsAccepted none
      made : (p : TlsPeer P) → p ≡ tls_accepted timeout_request → TlsAccepted (some p)

    -- `First` holds of what a connection begins with, and `throws` of whether the handler of the
    -- timer may throw.
    pub data TlsStep : TlsPeer P → Option (TlsPeer P) → Type 0 where
      handshake_ended :
          (ec : Bool) (first : P) (p : TlsPeer P)
          → First first
          → p.stage ≡ handshaking
          → TlsStep p (some (tls_ends ec first p))
      time_over :
          (p : TlsPeer P)
          → p.timer ≡ waiting
          → TlsStep p (some (record p { timer = fires p.timer }))
      timer_ended :
          (thrown : Bool) (p : TlsPeer P)
          → throws thrown
          → p.timer ≡ due
          → TlsStep p (tls_timer_ends thrown p)
      goes_on :
          (c : P) (r : Option P) (p : TlsPeer P)
          → p.stage ≡ secured c
          → PeerStep c r
          → TlsStep p (in_stage p r)

    module _ (I : P → Type 0) where
      pub TlsAccepted-IsResult : (p : Option (TlsPeer P)) → TlsAccepted p → IsResult (IsTls I) p
      TlsAccepted-IsResult _ (option_fails o) = tt
      TlsAccepted-IsResult _ (made p e) = subst (IsTls I) (sym e) tt

      in_stage-IsResult :
          (p : TlsPeer P) (r : Option P)
          → p.timer ≢ waiting
          → IsResult I r
          → IsResult (IsTls I) (in_stage p r)
      in_stage-IsResult p none n i = tt
      in_stage-IsResult p (some d) n i = (n, i)

      timer_ends-IsResult :
          (thrown : Bool) (p : TlsPeer P) → IsTls I p → IsResult (IsTls I) (tls_timer_ends thrown p)
      unfolding tls_timer_ends
      timer_ends-IsResult true p i = tt
      timer_ends-IsResult false p i = IsStage-off I p.stage p.timer i

      -- While a peer is not secured, no handler of the connection runs: what holds of connections
      -- holds of those that a handshake has secured, and the timer does not wait behind it.
      pub TlsStep-IsResult :
          ((c : P) → First c → I c)
          → ((c : P) (r : Option P) → PeerStep c r → I c → IsResult I r)
          → (p : TlsPeer P) (r : Option (TlsPeer P)) → TlsStep p r
          → IsTls I p
          → IsResult (IsTls I) r
      unfolding tls_ends
      TlsStep-IsResult begins keeps _ _ (handshake_ended true first p f e) i =
          cancel-ne-waiting p.timer
      TlsStep-IsResult begins keeps _ _ (handshake_ended false first p f e) i =
          (cancel-ne-waiting p.timer, begins first f)
      TlsStep-IsResult begins keeps _ _ (time_over p e) i = IsStage-fires I p.stage p.timer e i
      TlsStep-IsResult begins keeps _ _ (timer_ended thrown p t e) i =
          timer_ends-IsResult thrown p i
      TlsStep-IsResult begins keeps _ _ (goes_on c r p e st) i =
          let (n, j) = subst (λ s. IsStage I s p.timer) e i in
          in_stage-IsResult p r n (keeps c r st j)
