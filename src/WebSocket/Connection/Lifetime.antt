-- ===== src/WebSocket/Connection/Lifetime.antt =====
-- What the handlers of a connection keep.
use boost_irc.Base.{
  ℕ, ◌+◌, ◌%◌, ◌==◌, ltb, ◌≡◌, refl, sym, subst, inl, inr, Bool, true, false, [], ◌∷◌, Bytes, arith,
  Bool-cases, if◌then◌else◌, none, some, drop, take, Option, ==_iff, ==_ne,
}
use boost_irc.WebSocket.Frame.{read_length, unmask}
use boost_irc.WebSocket.Connection.Closing.{
  ends, IsPhase, OnceClosed, Kept-refl, act-Kept, Kept-trans, timer_idle_reset-Kept,
  timer_idle_cancel-Kept, send-Kept, send_close-OnceClosed, send_close-wait,
}
use boost_irc.WebSocket.Connection.{
  Waiting, first_bytes, nothing, undefined, content, onerror, onmessage, onclose, Connection,
  Endpoint, act, timer_idle_reset, timer_idle_cancel, send, send_close, connection_close,
  connection_error, await, when, end_with, message_ends, read_content, read_length_bytes,
  read_first_bytes, after_length, byte_at, close_parts, IsReading, not_masked,
}
use boost_irc.WebSocket.Connection.Phases.{
  IsLive, phase_live, await-OnceClosed, ending-OnceClosed, when-ends, when-closes,
}

module _ (e : Endpoint) where
  pub connection_error-OnceClosed :
      (c : Connection) → IsLive c → OnceClosed c → OnceClosed (await nothing (connection_error e c))
  unfolding connection_error
  connection_error-OnceClosed c live i =
      ending-OnceClosed c (timer_idle_cancel e c) (when e.has_onerror onerror)
        (timer_idle_cancel-Kept e c) (when-closes e.has_onerror onerror refl)
        (when-ends e.has_onerror onerror (omega arith)) live i

  connection_close-OnceClosed :
      (status : ℕ) (reason : Bytes) (c : Connection)
      → IsLive c
      → OnceClosed c
      → OnceClosed (await nothing (connection_close e status reason c))
  unfolding connection_close
  connection_close-OnceClosed status reason c live i =
      ending-OnceClosed c (timer_idle_cancel e c) (when e.has_onclose (onclose status reason))
        (timer_idle_cancel-Kept e c) (when-closes e.has_onclose (onclose status reason) refl)
        (when-ends e.has_onclose (onclose status reason) (omega arith)) live i

  -- A close frame, sent or answered, and the end of the connection.
  end_with-OnceClosed :
      (status : ℕ) (reason : Bytes) (c : Connection)
      → IsReading c.wait
      → OnceClosed c
      → OnceClosed (end_with e status reason c)
  end_with-OnceClosed status reason c r i =
      let d = send_close e status reason c in
      let j = send_close-OnceClosed e status reason c i in
      let live =
        phase_live d.wait (ends d.actions) d.member
          (subst IsReading (sym (send_close-wait e status reason c)) r) j.phase in
      connection_close-OnceClosed status reason d live.0 j

  pong_opcode : (fin : ℕ) → (fin % 16 == 9) ≡ true → ((fin + 1) % 256 == 136) ≡ false
  pong_opcode fin h =
      let nine = (==_iff (fin % 16) 9).0 h in
      ==_ne ((fin + 1) % 256) 136 (λ q. absurd (omega arith))

  OnceClosed-if :
      (b : Bool) (c d : Connection)
      → (b ≡ true → OnceClosed c)
      → (b ≡ false → OnceClosed d)
      → OnceClosed (if b then c else d)
  OnceClosed-if true c d h k = h refl
  OnceClosed-if false c d h k = k refl

  message_ends-OnceClosed :
      (fin : ℕ) (message : Bytes) (c : Connection)
      → IsReading c.wait
      → OnceClosed c
      → OnceClosed (message_ends e fin message c)
  unfolding message_ends
  message_ends-OnceClosed fin message c r i =
      OnceClosed-if (fin % 16 == 8) (end_with e (close_parts message).0 (close_parts message).1 c)
        (if fin % 16 == 9
          then await first_bytes (send e [] ((fin + 1) % 256) c)
          else if e.has_onmessage
          then await first_bytes (act (onmessage fin message ∷ []) (timer_idle_reset e c))
          else await first_bytes c)
        (λ q. end_with-OnceClosed (close_parts message).0 (close_parts message).1 c r i)
        (λ q.
          OnceClosed-if (fin % 16 == 9) (await first_bytes (send e [] ((fin + 1) % 256) c))
            (if e.has_onmessage
              then await first_bytes (act (onmessage fin message ∷ []) (timer_idle_reset e c))
              else await first_bytes c)
            (λ n.
              await-OnceClosed c (send e [] ((fin + 1) % 256) c)
                (send-Kept e [] ((fin + 1) % 256) c (pong_opcode fin n)) r i)
            (λ n.
              OnceClosed-if e.has_onmessage
                (await first_bytes (act (onmessage fin message ∷ []) (timer_idle_reset e c)))
                (await first_bytes c)
                (λ m.
                  await-OnceClosed c (act (onmessage fin message ∷ []) (timer_idle_reset e c))
                    (Kept-trans c (timer_idle_reset e c) _ (timer_idle_reset-Kept e c)
                      (act-Kept (timer_idle_reset e c) (onmessage fin message ∷ []) refl refl))
                    r i)
                (λ m. await-OnceClosed c c (Kept-refl c) r i)))

  -- What was read of a frame's beginning only changes what is awaited.
  waiting-OnceClosed :
      (c : Connection) (w : Waiting) (buffer : Bytes)
      → IsPhase w 0 true
      → IsReading c.wait
      → OnceClosed c
      → OnceClosed (record c { wait = w; read_buffer = buffer })
  waiting-OnceClosed c w buffer p r i =
      let (n, m) = phase_live c.wait (ends c.actions) c.member r i.phase in
      record {
        closing = i.closing;
        phase = subst (λ k. IsPhase w k c.member) (sym n) (subst (λ k. IsPhase w 0 k) (sym m) p);
      }

  after_length-IsPhase : (fin n : ℕ) → IsPhase (after_length fin n) 0 true
  after_length-IsPhase fin n = elim (Bool-cases (n == 126)) [
    | inl h ↦ rw h (refl, refl)
    | inr h ↦ elim (Bool-cases (n == 127)) [
      | inl k ↦ rw h (rw k (refl, refl))
      | inr k ↦ rw h (rw k (refl, refl))
    ]
  ]

  pub read_first_bytes-OnceClosed :
      (buffer : Bytes) (c : Connection)
      → IsReading c.wait
      → OnceClosed c
      → OnceClosed (read_first_bytes e buffer c)
  unfolding read_first_bytes
  read_first_bytes-OnceClosed buffer c r i =
      let rest = record c { read_buffer = drop 2 buffer } in
      let w = after_length (byte_at 0 buffer) (byte_at 1 buffer % 128) in
      OnceClosed-if (ltb (byte_at 1 buffer) 128) (end_with e 1002 not_masked rest)
        (record rest { wait = w })
        (λ q.
          end_with-OnceClosed 1002 not_masked rest r
            (record { closing = i.closing; phase = i.phase }))
        (λ q.
          waiting-OnceClosed c w (drop 2 buffer)
            (after_length-IsPhase (byte_at 0 buffer) (byte_at 1 buffer % 128)) r i)

  length_wait-IsPhase :
      (fin : ℕ) (o : Option ℕ)
      → IsPhase (elim o [ none ↦ undefined | some n ↦ content n fin ]) 0 true
  length_wait-IsPhase fin none = tt
  length_wait-IsPhase fin (some n) = (refl, refl)

  pub read_length_bytes-OnceClosed :
      (num_bytes fin : ℕ) (buffer : Bytes) (c : Connection)
      → IsReading c.wait
      → OnceClosed c
      → OnceClosed (read_length_bytes e num_bytes fin buffer c)
  unfolding read_length_bytes
  read_length_bytes-OnceClosed num_bytes fin buffer c r i =
      waiting-OnceClosed c _ (drop num_bytes buffer)
        (length_wait-IsPhase fin (read_length (take num_bytes buffer))) r i

  pub read_content-OnceClosed :
      (n fin : ℕ) (buffer : Bytes) (c : Connection)
      → IsReading c.wait
      → OnceClosed c
      → OnceClosed (read_content e n fin buffer c)
  unfolding read_content
  read_content-OnceClosed n fin buffer c r i =
      message_ends-OnceClosed fin (unmask (take 4 buffer) 0 (take n (drop 4 buffer)))
        (record c { read_buffer = drop (4 + n) buffer }) r
        (record { closing = i.closing; phase = i.phase })
