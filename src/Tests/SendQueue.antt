-- ===== src/Tests/SendQueue.antt =====
-- The queue and the header of what a connection of the WebSocket server sends, on concrete inputs.
use boost_irc.Base.{refl, some, true, [], ◌∷◌, codes, arith}
use boost_irc.WebSocket.Frame.{frame_header}
use boost_irc.WebSocket.Frame.Bounds.{IsHeader, frame_header-IsHeader}
use boost_irc.WebSocket.Queue.{
  SendData, Queue, Reach, no_data, enqueue, begin_write, header_ends, empty, sends, begins,
}
use boost_irc.WebSocket.Queue.Draining.{Drained, after, Reach-Drained}
use boost_irc.WebSocket.Queue.Failing as Failing
use boost_irc.WebSocket.Queue.Failing.{Accounted, AnyReach, AnyReach-Accounted}

frame_header-IsHeader_example : IsHeader 300 (frame_header 129 300)
frame_header-IsHeader_example = frame_header-IsHeader 129 300 (omega arith)

abbrev hello : SendData
hello = record { header_stream = 129 ∷ 2 ∷ []; message_stream = codes "hi"; callback = some 1 }

abbrev bye : SendData
bye = record { header_stream = 136 ∷ 0 ∷ []; message_stream = []; callback = some 2 }

-- The write of the first of two has begun.
abbrev begun : Queue
begun = begin_write (enqueue bye (enqueue hello no_data))

begun-Reach : Reach (hello ∷ bye ∷ []) begun
unfolding enqueue
begun-Reach = begins (sends bye (sends hello empty)) refl

Reach-Drained_example : Drained (hello ∷ bye ∷ []) (after 6 begun)
unfolding enqueue begin_write
Reach-Drained_example = Reach-Drained (hello ∷ bye ∷ []) begun begun-Reach

-- Its header is not written.
AnyReach-Accounted_example : Accounted (hello ∷ bye ∷ []) (header_ends true begun)
unfolding enqueue begin_write
AnyReach-Accounted_example = AnyReach-Accounted (hello ∷ bye ∷ []) (header_ends true begun) (
    Failing.header_written true
      (Failing.begins (Failing.sends bye (Failing.sends hello Failing.empty)) refl) refl)
