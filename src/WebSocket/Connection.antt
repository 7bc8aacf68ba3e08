-- ===== src/WebSocket/Connection.antt =====
-- The life of a connection in web_socket_server/server_ws.hpp: the handlers behind the handshake
-- (`read_message`, `read_message_content`, `connection_open`, `connection_close`,
-- `connection_error`), `send`, `send_close` and the idle timer. The io_service runs them one at a
-- time; what a posted send does is `WebSocket.Queue`.
pub mod Closing
pub mod Phases
pub mod Lifetime
pub mod Reached
pub mod Delivery
use boost_irc.Base.{
  ℕ, ◌+◌, ◌*◌, ◌/◌, ◌%◌, ◌==◌, leb, ltb, Bool, true, false, Option, none, some, List, [], ◌∷◌, ◌++◌,
  Bytes, codes, length, take, drop, get_elem?, if◌then◌else◌, ◌≡◌,
}
use boost_irc.WebSocket.Frame.{frame_header, read_length, unmask}

-- What the connection waits for: the end of the write of its handshake, the two first bytes of a
-- frame, the 2 or 8 bytes of its length (behind its first byte), or its mask and content (of a
-- length). `undefined`: the behaviour of the program is undefined from here on.
pub data Waiting : Type 0 where
  handshake first_bytes nothing undefined : Waiting
  extended : ℕ → ℕ → Waiting
  content : ℕ → ℕ → Waiting

-- The pointer `timer_idle`: null, to a timer with a wait, or to one without.
pub data Timer : Type 0 where
  absent waiting stopped : Timer

pub data Action : Type 0 where
  -- a frame, its header and its message, is posted to the queue
  post : Bytes → Bytes → Action
  -- async_wait and cancel of the idle timer
  start_timer cancel_timer : Action
  -- the functions of the endpoint
  onopen onerror : Action
  onmessage : ℕ → Bytes → Action
  onclose : ℕ → Bytes → Action

pub record Connection : Type 0 where
  pub wait : Waiting
  pub read_buffer : Bytes
  pub closed : Bool
  pub timer_idle : Timer
  -- whether it is in the endpoint's `connections`
  pub member : Bool
  pub actions : List Action

-- Which functions of an endpoint are set, and the server's idle timeout.
pub record Endpoint : Type 0 where
  pub has_onopen : Bool
  pub has_onmessage : Bool
  pub has_onerror : Bool
  pub has_onclose : Bool
  pub timeout_idle : ℕ

abbrev pub act : List Action → Connection → Connection
act done c = record c { actions = c.actions ++ done }

abbrev pub when : Bool → Action → List Action
when true a = a ∷ []
when false a = []

-- A member function is called on the pointer `timer_idle`, which starts or stops a wait.
abbrev pub timer_call : Timer → (Connection → Connection) → Connection → Connection
timer_call absent f c = record c { wait = undefined }
timer_call waiting f c = f c
timer_call stopped f c = f c

-- The wait is renewed if there is one.
abbrev pub renew : Timer → Connection → Connection
renew absent c = record c { wait = undefined }
renew waiting c = act (start_timer ∷ []) c
renew stopped c = c

-- What the connection waits for next.
abbrev pub next_wait : Waiting → Waiting → Waiting
next_wait undefined w = undefined
next_wait _ w = w

abbrev pub await : Waiting → Connection → Connection
await w c = record c { wait = next_wait c.wait w }

-- The status and the reason of a close frame.
abbrev pub close_parts : Bytes → ℕ × Bytes
close_parts (a ∷ b ∷ reason) = (a * 256 + b, reason)
close_parts short = (0, short)

abbrev pub byte_at : ℕ → Bytes → ℕ
byte_at i buffer = elim (get_elem? buffer i) [ none ↦ 0 | some b ↦ b ]

abbrev pub after_length : ℕ → ℕ → Waiting
after_length fin_rsv_opcode n =
    if n == 126
    then extended 2 fin_rsv_opcode
    else if n == 127
    then extended 8 fin_rsv_opcode
    else content n fin_rsv_opcode

abbrev pub not_masked : Bytes
not_masked = codes "message from client not masked"

module _ (e : Endpoint) where
  unfoldable pub timer_idle_init : Connection → Connection
  timer_idle_init c =
      if ltb 0 e.timeout_idle then act (start_timer ∷ []) (record c { timer_idle = waiting }) else c

  unfoldable pub timer_idle_reset : Connection → Connection
  timer_idle_reset c = if ltb 0 e.timeout_idle then renew c.timer_idle c else c

  unfoldable pub timer_idle_cancel : Connection → Connection
  timer_idle_cancel c =
      if ltb 0 e.timeout_idle
      then timer_call c.timer_idle
          (λ d. act (cancel_timer ∷ []) (record d { timer_idle = stopped })) c
      else c

  unfoldable pub send : Bytes → ℕ → Connection → Connection
  unfolding timer_idle_reset frame_header
  send message fin_rsv_opcode c =
      act (post (frame_header fin_rsv_opcode (length message)) message ∷ [])
        (if fin_rsv_opcode == 136 then c else timer_idle_reset c)

  -- "Send close only once"
  unfoldable pub send_close : ℕ → Bytes → Connection → Connection
  unfolding send
  send_close status reason c =
      if c.closed
      then c
      else send ((status / 256) % 256 ∷ status % 256 ∷ reason) 136 (record c { closed = true })

  unfoldable pub connection_open : Connection → Connection
  unfolding timer_idle_init
  connection_open c =
      let opened = timer_idle_init c in
      record opened { member = true; actions = opened.actions ++ when e.has_onopen onopen }

  unfoldable pub connection_close : ℕ → Bytes → Connection → Connection
  unfolding timer_idle_cancel
  connection_close status reason c =
      let cancelled = timer_idle_cancel c in
      record cancelled {
        member = false;
        actions = cancelled.actions ++ when e.has_onclose (onclose status reason);
      }

  unfoldable pub connection_error : Connection → Connection
  unfolding timer_idle_cancel
  connection_error c =
      let cancelled = timer_idle_cancel c in
      record cancelled { member = false; actions = cancelled.actions ++ when e.has_onerror onerror }

  abbrev pub end_with : ℕ → Bytes → Connection → Connection
  end_with status reason c =
      await nothing (connection_close status reason (send_close status reason c))

  -- What `read_message_content` does with a message.
  unfoldable pub message_ends : ℕ → Bytes → Connection → Connection
  unfolding send send_close connection_close timer_idle_reset
  message_ends fin_rsv_opcode message c =
      let (status, reason) = close_parts message in
      if fin_rsv_opcode % 16 == 8
      then end_with status reason c
      else if fin_rsv_opcode % 16 == 9
      then await first_bytes (send [] ((fin_rsv_opcode + 1) % 256) c)
      else if e.has_onmessage
      then await first_bytes (act (onmessage fin_rsv_opcode message ∷ []) (timer_idle_reset c))
      else await first_bytes c

  -- The handlers of the reads, on the bytes in the buffer; a read that succeeds has put into it as
  -- many as it was asked for.
  unfoldable pub read_content : ℕ → ℕ → Bytes → Connection → Connection
  unfolding message_ends unmask
  read_content n fin_rsv_opcode buffer c =
      message_ends fin_rsv_opcode (unmask (take 4 buffer) 0 (take n (drop 4 buffer)))
        (record c { read_buffer = drop (4 + n) buffer })

  unfoldable pub read_length_bytes : ℕ → ℕ → Bytes → Connection → Connection
  unfolding read_length
  read_length_bytes num_bytes fin_rsv_opcode buffer c = record c {
    read_buffer = drop num_bytes buffer;
    wait = elim (read_length (take num_bytes buffer)) [
      | none ↦ undefined
      | some n ↦ content n fin_rsv_opcode
    ];
  }

  unfoldable pub read_first_bytes : Bytes → Connection → Connection
  unfolding send_close connection_close
  read_first_bytes buffer c =
      let rest = record c { read_buffer = drop 2 buffer } in
      if ltb (byte_at 1 buffer) 128
      then end_with 1002 not_masked rest
      else record rest { wait = after_length (byte_at 0 buffer) (byte_at 1 buffer % 128) }

  -- A read of the first two bytes that has received nothing is started again.
  unfoldable pub read_by : Waiting → Bytes → Connection → Connection
  unfolding read_first_bytes read_length_bytes read_content
  read_by first_bytes [] c = c
  read_by first_bytes (x ∷ more) c = read_first_bytes (c.read_buffer ++ (x ∷ more)) c
  read_by (extended num_bytes fin) received c =
      read_length_bytes num_bytes fin (c.read_buffer ++ received) c
  read_by (content n fin) received c = read_content n fin (c.read_buffer ++ received) c
  read_by handshake received c = c
  read_by nothing received c = c
  read_by undefined received c = c

  -- A read ended: with an error, or with bytes received.
  unfoldable pub read_ends : Bool → Bytes → Connection → Connection
  unfolding connection_error read_by
  read_ends true received c =
      await nothing (connection_error (record c { read_buffer = c.read_buffer ++ received }))
  read_ends false received c = read_by c.wait received c

  -- The handler of the write of the handshake.
  unfoldable pub handshake_ends : Bool → Connection → Connection
  unfolding connection_open connection_error
  handshake_ends true c = await nothing (connection_error c)
  handshake_ends false c = await first_bytes (connection_open c)

  -- The handler of the idle timer's wait.
  unfoldable pub timer_expires : Connection → Connection
  unfolding send_close
  timer_expires c = send_close 1000 (codes "idle timeout") (record c { timer_idle = stopped })

-- The connection when its handshake is being written.
abbrev pub opening : Bytes → Connection
opening buffer = record {
  wait = handshake;
  read_buffer = buffer;
  closed = false;
  timer_idle = absent;
  member = false;
  actions = [];
}

abbrev pub IsReading : Waiting → Type 0
IsReading first_bytes = Unit {0}
IsReading (extended n f) = Unit {0}
IsReading (content n f) = Unit {0}
IsReading _ = ⊥

abbrev pub IsOpen : Waiting → Type 0
IsOpen handshake = ⊥
IsOpen undefined = ⊥
IsOpen _ = Unit {0}

-- The steps of a connection: its handlers, and what the program does with it from the time it is
-- given to `onopen` on.
pub data Step (e : Endpoint) : Connection → Connection → Type 0 where
  handshake_written :
      (ec : Bool) (c : Connection) → c.wait ≡ handshake → Step e c (handshake_ends e ec c)
  received :
      (ec : Bool) (bytes : Bytes) (c : Connection)
      → IsReading c.wait
      → Step e c (read_ends e ec bytes c)
  expired : (c : Connection) → c.timer_idle ≡ waiting → IsOpen c.wait → Step e c (timer_expires e c)
  sends : (message : Bytes) (c : Connection) → IsOpen c.wait → Step e c (send e message 129 c)
  closes_with :
      (status : ℕ) (reason : Bytes) (c : Connection)
      → IsOpen c.wait
      → Step e c (send_close e status reason c)

pub data Reach (e : Endpoint) : Connection → Type 0 where
  here : (buffer : Bytes) → Reach e (opening buffer)
  next : {c d : Connection} → Reach e c → Step e c d → Reach e d
