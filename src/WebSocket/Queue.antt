-- ===== src/WebSocket/Queue.antt =====
-- The queue of what a connection sends: `SendData`, the posted part of `send` and
-- `send_from_queue` of web_socket_server/server_ws.hpp. Its handlers run on the connection's
-- strand, one at a time.
pub mod Order
pub mod Draining
pub mod Failing
use boost_irc.Base.{
  ℕ, suc, ◌==◌, Bool, true, false, Option, none, some, List, [], ◌∷◌, ◌++◌, Bytes, length,
  if◌then◌else◌, ◌≡◌,
}

pub record SendData : Type 0 where
  pub header_stream : Bytes
  pub message_stream : Bytes
  -- the callback, by a number; none where it is null
  pub callback : Option ℕ

-- What the strand waits for: nothing, the posted start of a write, or the end of the write of a
-- header or of a message.
pub data Writing : Type 0 where
  idle posted header message : Writing

pub record Queue : Type 0 where
  pub send_queue : List SendData
  pub writing : Writing
  -- what the writes that succeeded have put on the socket
  pub written : Bytes
  -- the callbacks that were called, with the error
  pub called : List (ℕ × Bool)

abbrev pub no_data : Queue
no_data = record { send_queue = []; writing = idle; written = []; called = [] }

-- `if(send_queued->callback) send_queued->callback(ec);`
abbrev pub call : SendData → Bool → List (ℕ × Bool)
call d ec = elim d.callback [ none ↦ [] | some i ↦ (i, ec) ∷ [] ]

-- What `send` posts to the strand.
unfoldable pub enqueue : SendData → Queue → Queue
enqueue d q =
    let more = q.send_queue ++ (d ∷ []) in
    record q { send_queue = more; writing = if length more == 1 then posted else q.writing }

-- What `send_from_queue` posts to the strand.
unfoldable pub begin_write : Queue → Queue
begin_write q = record q { writing = header }

-- An error: the callback of the first is called, and the queue is cleared.
abbrev pub clear : SendData → Queue → Queue
clear d q = record q { send_queue = []; writing = idle; called = q.called ++ call d true }

-- The handler of the write of a header, on the first of the queue.
abbrev pub after_header : Bool → List SendData → Queue → Queue
after_header ec [] q = q
after_header true (d ∷ ds) q = clear d q
after_header false (d ∷ ds) q = record q {
  writing = message;
  written = q.written ++ d.header_stream;
}

unfoldable pub header_ends : Bool → Queue → Queue
header_ends ec q = after_header ec q.send_queue q

-- `if(send_queue.size()>0) send_from_queue(connection);`
abbrev pub next_write : List SendData → Writing
next_write [] = idle
next_write (d ∷ ds) = posted

-- The handler of the write of a message.
abbrev pub after_message : Bool → List SendData → Queue → Queue
after_message ec [] q = q
after_message true (d ∷ ds) q = clear d q
after_message false (d ∷ ds) q = record q {
  send_queue = ds;
  writing = next_write ds;
  written = q.written ++ d.message_stream;
  called = q.called ++ call d false;
}

unfoldable pub message_ends : Bool → Queue → Queue
message_ends ec q = after_message ec q.send_queue q

-- The states that the queue reaches, with what was sent to it, as long as no write fails.
pub data Reach : List SendData → Queue → Type 0 where
  empty : Reach [] no_data
  sends :
      {ds : List SendData} {q : Queue} (d : SendData)
      → Reach ds q
      → Reach (ds ++ (d ∷ [])) (enqueue d q)
  begins :
      {ds : List SendData} {q : Queue} → Reach ds q → q.writing ≡ posted → Reach ds (begin_write q)
  header_written :
      {ds : List SendData} {q : Queue}
      → Reach ds q
      → q.writing ≡ header
      → Reach ds (header_ends false q)
  message_written :
      {ds : List SendData} {q : Queue}
      → Reach ds q
      → q.writing ≡ message
      → Reach ds (message_ends false q)
