-- ===== src/WebSocket/Connection/Reached.antt =====
-- How often a connection that is reached was closed, and has ended.
use boost_irc.Base.{◌≡◌, refl, subst, Bool, true, false, List, [], ◌∷◌, ◌++◌, Bytes, arith, codes}
use boost_irc.WebSocket.Connection.Closing.{
  closes, ends, closes-append, ends-append, IsPhase, OnceClosed, Kept, timer_idle_init-Kept,
  send-Kept, send_close-OnceClosed,
}
use boost_irc.WebSocket.Connection.Phases.{IsLive, reading-IsPhase, phase_live, Kept-OnceClosed}
use boost_irc.WebSocket.Connection.Lifetime.{
  connection_error-OnceClosed, read_first_bytes-OnceClosed, read_length_bytes-OnceClosed,
  read_content-OnceClosed,
}
use boost_irc.WebSocket.Connection.{
  Waiting, handshake, first_bytes, nothing, undefined, extended, content, stopped, onopen,
  Connection, Endpoint, timer_idle_init, connection_open, await, when, Action, read_by, read_ends,
  handshake_ends, timer_expires, IsReading, Step, handshake_written, received, expired, sends,
  closes_with, Reach, here, next,
}

module _ (e : Endpoint) where
  read_by-OnceClosed :
      (w : Waiting) (bytes : Bytes) (c : Connection)
      → w ≡ c.wait
      → IsReading c.wait
      → OnceClosed c
      → OnceClosed (read_by e w bytes c)
  unfolding read_by
  read_by-OnceClosed first_bytes [] c w r i = i
  read_by-OnceClosed first_bytes (x ∷ more) c w r i =
      read_first_bytes-OnceClosed e (c.read_buffer ++ (x ∷ more)) c r i
  read_by-OnceClosed (extended n fin) bytes c w r i =
      read_length_bytes-OnceClosed e n fin (c.read_buffer ++ bytes) c r i
  read_by-OnceClosed (content n fin) bytes c w r i =
      read_content-OnceClosed e n fin (c.read_buffer ++ bytes) c r i
  read_by-OnceClosed handshake bytes c w r i = i
  read_by-OnceClosed nothing bytes c w r i = i
  read_by-OnceClosed undefined bytes c w r i = i

  read_ends-OnceClosed :
      (ec : Bool) (bytes : Bytes) (c : Connection)
      → IsReading c.wait
      → OnceClosed c
      → OnceClosed (read_ends e ec bytes c)
  unfolding read_ends
  read_ends-OnceClosed true bytes c r i =
      connection_error-OnceClosed e (record c { read_buffer = c.read_buffer ++ bytes })
        (phase_live c.wait (ends c.actions) c.member r i.phase).0
        (record { closing = i.closing; phase = i.phase })
  read_ends-OnceClosed false bytes c r i = read_by-OnceClosed c.wait bytes c refl r i

  -- The connection enters the set.
  opened-OnceClosed :
      (c d : Connection) (s : List Action)
      → Kept c d
      → closes s ≡ 0
      → ends s ≡ 0
      → IsLive c
      → OnceClosed c
      → OnceClosed (await first_bytes (record d { member = true; actions = d.actions ++ s }))
  opened-OnceClosed c d s k h l live i = record {
    closing = omega (arith, (Kept-OnceClosed c d k i).closing, closes-append d.actions s, h);
    phase =
        reading-IsPhase d.wait (ends (d.actions ++ s)) true
          (omega (arith, ends-append d.actions s, k.ends_kept, live, l)) refl;
  }

  when-nil : (b : Bool) → (closes (when b onopen) ≡ 0) × (ends (when b onopen) ≡ 0)
  when-nil true = (refl, refl)
  when-nil false = (refl, refl)

  handshake-IsLive : (c : Connection) → c.wait ≡ handshake → OnceClosed c → IsLive c
  handshake-IsLive c h i = (subst (λ w. IsPhase w (ends c.actions) c.member) h i.phase).0

  handshake_ends-OnceClosed :
      (ec : Bool) (c : Connection)
      → c.wait ≡ handshake
      → OnceClosed c
      → OnceClosed (handshake_ends e ec c)
  unfolding handshake_ends connection_open
  handshake_ends-OnceClosed true c h i = connection_error-OnceClosed e c (handshake-IsLive c h i) i
  handshake_ends-OnceClosed false c h i =
      let (k, l) = when-nil e.has_onopen in
      opened-OnceClosed c (timer_idle_init e c) (when e.has_onopen onopen)
        (timer_idle_init-Kept e c) k l (handshake-IsLive c h i) i

  timer_expires-OnceClosed : (c : Connection) → OnceClosed c → OnceClosed (timer_expires e c)
  unfolding timer_expires
  timer_expires-OnceClosed c i =
      send_close-OnceClosed e 1000 (codes "idle timeout") (record c { timer_idle = stopped })
        (record { closing = i.closing; phase = i.phase })

  pub Step-OnceClosed : (c d : Connection) → Step e c d → OnceClosed c → OnceClosed d
  Step-OnceClosed _ _ (handshake_written ec c h) i = handshake_ends-OnceClosed ec c h i
  Step-OnceClosed _ _ (received ec bytes c r) i = read_ends-OnceClosed ec bytes c r i
  Step-OnceClosed _ _ (expired c t o) i = timer_expires-OnceClosed c i
  Step-OnceClosed _ _ (sends message c o) i = Kept-OnceClosed c _ (send-Kept e message 129 c refl) i
  Step-OnceClosed _ _ (closes_with status reason c o) i = send_close-OnceClosed e status reason c i

  -- In every state that a connection reaches, where the program sends messages with the first byte
  -- 129: one close frame is posted if it is marked as closed,
  -- and none if not; and while it reads, it is in the endpoint's set and the endpoint was not told
  -- of its end, while, when it waits for nothing more, it is out of the set and the endpoint was
  -- told of an end or an error at most once.
  pub Reach-OnceClosed : (c : Connection) → Reach e c → OnceClosed c
  Reach-OnceClosed _ (here buffer) = record { closing = refl; phase = (refl, refl) }
  Reach-OnceClosed _ (next {c = c} {d = d} r s) = Step-OnceClosed c d s (Reach-OnceClosed c r)
