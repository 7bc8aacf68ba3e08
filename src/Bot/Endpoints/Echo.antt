-- ===== src/Bot/Endpoints/Echo.antt =====
-- What the echo endpoint answers to a masked text frame of a message below 2^16 bytes.
use boost_irc.Base.{
  ℕ, ◌<◌, ◌≡◌, refl, sym, ap, ◌∙◌, subst, some, [], ◌∷◌, ◌++◌, Bytes, length, All, arith,
  append_assoc,
}
use boost_irc.WebSocket.Frame.{frame_header}
use boost_irc.WebSocket.Frame.RoundTrip.{read_frame, read_frame-frame_header}
use boost_irc.WebSocket.Connection.{
  Connection, post, onmessage, first_bytes, content, message_ends, send,
}
use boost_irc.WebSocket.Connection.Delivery.{reads, frame_reads, reads-message}
use boost_irc.Bot.Endpoints.{echo, echo_onmessage, no_timeout, run_effects}

-- A connection of the echo endpoint after a frame and its function.
abbrev pub echoed : ℕ → Bytes → Bytes → Connection → Connection
echoed id mask m c = run_effects (echo.onmessage id m) (reads no_timeout (frame_reads 129 mask m) c)

-- The endpoint was told of the message, and a frame that holds it was posted.
pub record IsEcho (m : Bytes) (c d : Connection) : Type 0 where
  pub header : Bytes
  pub acts : d.actions ≡ c.actions ++ (onmessage 129 m ∷ post header m ∷ [])
  pub frame : (rest : Bytes) → read_frame (header ++ (m ++ rest)) ≡ some (129, m, rest)
  pub reads_on : d.wait ≡ first_bytes

text_ends :
    (m : Bytes) (c : Connection)
    → message_ends no_timeout 129 m (record c { wait = content (length m) 129; read_buffer = [] })
      ≡ record c {
        wait = first_bytes;
        read_buffer = [];
        actions = c.actions ++ (onmessage 129 m ∷ []);
      }
unfolding message_ends
text_ends m c = refl

echo_sends :
    (id : ℕ) (m : Bytes) (c : Connection)
    → run_effects (echo.onmessage id m) c
      ≡ record c { actions = c.actions ++ (post (frame_header 129 (length m)) m ∷ []) }
unfolding run_effects echo_onmessage send
echo_sends id m c = refl

-- A page of the echo endpoint that sends a message below 2^16 bytes in a masked text frame is
-- answered: its connection tells the endpoint of the message, posts one frame, which RFC 6455 reads
-- as that message, and reads on.
pub echoed-IsEcho :
    (id : ℕ) (mask m : Bytes) (c : Connection)
    → c.wait ≡ first_bytes
    → c.read_buffer ≡ []
    → length mask ≡ 4
    → All (λ b. b < 256) m
    → length m < 65536
    → IsEcho m c (echoed id mask m c)
echoed-IsEcho id mask m c w b k a l =
    let told = record c {
      wait = first_bytes;
      read_buffer = [];
      actions = c.actions ++ (onmessage 129 m ∷ []);
    } in
    let read : reads no_timeout (frame_reads 129 mask m) c ≡ told =
      reads-message no_timeout 129 mask m c w b k a l ∙ text_ends m c in
    subst (IsEcho m c) (sym (ap (run_effects (echo.onmessage id m)) read ∙ echo_sends id m told))
      (record {
        header = frame_header 129 (length m);
        acts =
            append_assoc c.actions (onmessage 129 m ∷ [])
              (post (frame_header 129 (length m)) m ∷ []);
        frame = λ rest. read_frame-frame_header 129 m rest (omega (arith, l));
        reads_on = refl;
      })
