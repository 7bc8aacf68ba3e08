-- ===== src/Tests/WebSocket.antt =====
-- Frames, the queue and a connection of the WebSocket server, on concrete inputs.
use boost_irc.Base.{
  ℕ, zero, suc, ◌≡◌, refl, some, true, false, [], ◌∷◌, ◌++◌, Bytes, codes, length, arith,
}
use boost_irc.WebSocket.Frame.{frame_header}
use boost_irc.WebSocket.Frame.RoundTrip.{read_frame, read_frame-frame_header}
use boost_irc.WebSocket.Queue as SendQueue
use boost_irc.WebSocket.Queue.Order.{InOrder, Reach-InOrder}
use boost_irc.WebSocket.Connection.{
  Connection, Endpoint, first_bytes, content, undefined, message_ends, opening, here, next,
  handshake_written, closes_with, handshake_ends, send_close, connection_open, timer_idle_init,
}
use boost_irc.WebSocket.Connection.Closing.{OnceClosed}
use boost_irc.WebSocket.Connection.Reached.{Reach-OnceClosed}
use boost_irc.WebSocket.Connection.Delivery.{reads, frame_reads, reads-message, reads-undefined}

read_frame-frame_header_example :
    read_frame (frame_header 129 2 ++ (codes "hi" ++ codes "x")) ≡ some (129, codes "hi", codes "x")
read_frame-frame_header_example = read_frame-frame_header 129 (codes "hi") (codes "x") (omega arith)

abbrev greeting : SendQueue.SendData
greeting = record { header_stream = 129 ∷ 2 ∷ []; message_stream = codes "hi"; callback = some 1 }

Reach-InOrder_example : InOrder (greeting ∷ greeting ∷ []) (
    SendQueue.header_ends false (
      SendQueue.begin_write
        (SendQueue.enqueue greeting (SendQueue.enqueue greeting SendQueue.no_data))))
unfolding SendQueue.enqueue SendQueue.begin_write
Reach-InOrder_example =
    Reach-InOrder (greeting ∷ greeting ∷ [])
      (SendQueue.header_ends false (
        SendQueue.begin_write
          (SendQueue.enqueue greeting (SendQueue.enqueue greeting SendQueue.no_data))))
      (SendQueue.header_written
        (SendQueue.begins (SendQueue.sends greeting (SendQueue.sends greeting SendQueue.empty))
          refl)
        refl)

-- The endpoint of a channel, with no idle timeout.
abbrev channel : Endpoint
channel = record {
  has_onopen = true;
  has_onmessage = true;
  has_onerror = true;
  has_onclose = true;
  timeout_idle = 0;
}

Reach-OnceClosed_example :
    OnceClosed (send_close channel 1000 (codes "bye") (handshake_ends channel false (opening [])))
unfolding handshake_ends connection_open timer_idle_init
Reach-OnceClosed_example =
    Reach-OnceClosed channel
      (send_close channel 1000 (codes "bye") (handshake_ends channel false (opening [])))
      (next (next (here []) (handshake_written false (opening []) refl))
        (closes_with 1000 (codes "bye") (handshake_ends channel false (opening [])) tt))

abbrev reading : Connection
reading = record (opening []) { wait = first_bytes; member = true }

abbrev mask : Bytes
mask = 55 ∷ 250 ∷ 33 ∷ 61 ∷ []

reads-message_example :
    reads channel (frame_reads 129 mask (codes "hi")) reading
    ≡ message_ends channel 129
        (codes "hi")
        (record reading { wait = content 2 129; read_buffer = [] })
reads-message_example =
    reads-message channel 129 mask (codes "hi") reading refl refl refl
      (omega arith, (omega arith, tt)) (omega arith)

zeros : ℕ → Bytes
zeros zero = []
zeros (suc n) = 0 ∷ zeros n

length-zeros : (n : ℕ) → length (zeros n) ≡ n
unfolding zeros
length-zeros zero = refl
length-zeros (suc n) = omega (arith, length-zeros n)

reads-undefined_example :
    (reads channel (frame_reads 130 mask (zeros 65536)) reading).wait ≡ undefined
reads-undefined_example =
    reads-undefined channel 130 mask (zeros 65536) reading refl refl
      (omega (arith, length-zeros 65536))
