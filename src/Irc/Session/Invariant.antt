-- ===== src/Irc/Session/Invariant.antt =====
-- What holds in every state that a session reaches.
use boost_irc.Base.{
  ℕ, ◌≡◌, sym, subst, ◌⊎◌, inl, inr, append-nil, Bool, true, false, List, [], ◌∷◌, ◌++◌, Bytes,
  length, codes, crlf, append_assoc, arith,
}
use boost_irc.Boost.{StringAlgo}
use boost_irc.Boost.Regex.{RegexSearch}
use boost_irc.Irc.Message.{Message}
use boost_irc.Irc.Message.Pattern.{message_regex}
use boost_irc.Irc.Stoi.{ℤ}
use boost_irc.Irc.Commands.Lines.{perform-pass, perform-nick}
use boost_irc.Irc.Dispatch.{Overrides, read_line}
use boost_irc.Irc.Dispatch.Failures.{read_line-FailsBy}
use boost_irc.Irc.Reader.{read_lines}
use boost_irc.Irc.Reader.Lines.{lines, read_lines-eq-for_each}
use boost_irc.Irc.Effects.{
  Event, start_read, close_socket, write, print, ws_send, fetch, Run, done, failed,
}
use boost_irc.Irc.Effects.Failures.{
  FailsBy, returns, fails, escaping, FailsBy-bind, FailsBy-for_each,
}
use boost_irc.Irc.Session.{
  Phase, connecting, reading, idle, closed, destroyed, terminated, IsRunning, Session, finish,
  connected, on_connect, on_read, Step, connect_ends, read_ends, write_ends, close_posted, deleted,
  on_written, on_close, destroy, Reach, here, next,
}

-- The first things that a connected client does: it reads, and sends its password and its nickname.
abbrev pub greeting : Bytes → Bytes → List Event
greeting m_nick m_pass =
    start_read
    ∷ write ((codes "PASS " ++ m_pass) ++ crlf)
    ∷ write ((codes "NICK " ++ m_nick) ++ crlf)
    ∷ []

-- Nothing but closings of the socket.
abbrev pub AreCloses : List Event → Type 0
AreCloses [] = Unit
AreCloses (close_socket ∷ es) = AreCloses es
AreCloses _ = ⊥

-- Behind such, the first things of a connected client.
abbrev pub Begins : Bytes → Bytes → List Event → Type 0
Begins m_nick m_pass trace =
    (cs : List Event) × AreCloses cs
    × (r : List Event) × (trace ≡ (cs ++ greeting m_nick m_pass) ++ r)

-- The trace that belongs to a phase, and the failures that can end the thread.
abbrev pub PhaseInv : Bytes → Bytes → Phase → List Event → Type 0
PhaseInv m_nick m_pass connecting trace = AreCloses trace
PhaseInv m_nick m_pass idle trace = AreCloses trace
PhaseInv m_nick m_pass destroyed trace = AreCloses trace ⊎ Begins m_nick m_pass trace
PhaseInv m_nick m_pass (terminated x) trace = (escaping x ≡ true) × Begins m_nick m_pass trace
PhaseInv m_nick m_pass _ trace = Begins m_nick m_pass trace

no_write : (before behind : List Event) (msg : Bytes) → ¬ AreCloses (before ++ (write msg ∷ behind))
no_write [] behind msg h = h
no_write (close_socket ∷ before) behind msg h = no_write before behind msg h
no_write (write m ∷ before) behind msg h = h
no_write (start_read ∷ before) behind msg h = h
no_write (print m ∷ before) behind msg h = h
no_write (ws_send m ∷ before) behind msg h = h
no_write (fetch m n ∷ before) behind msg h = h

AreCloses-append : (es : List Event) → AreCloses es → AreCloses (es ++ (close_socket ∷ []))
AreCloses-append [] h = tt
AreCloses-append (close_socket ∷ es) h = AreCloses-append es h
AreCloses-append (write m ∷ es) h = h
AreCloses-append (start_read ∷ es) h = h
AreCloses-append (print m ∷ es) h = h
AreCloses-append (ws_send m ∷ es) h = h
AreCloses-append (fetch m n ∷ es) h = h

module _ (m_nick m_pass : Bytes) where
  -- Further events do not change what a trace begins with.
  Begins-append :
      (trace es : List Event) → Begins m_nick m_pass trace → Begins m_nick m_pass (trace ++ es)
  Begins-append trace es (cs, a, r, e) =
      (cs, a, r ++ es, rw e (append_assoc (cs ++ greeting m_nick m_pass) r es))

  written-PhaseInv :
      (msg : Bytes) (p : Phase) (trace before behind es : List Event)
      → trace ≡ before ++ (write msg ∷ behind)
      → IsRunning p
      → PhaseInv m_nick m_pass p trace
      → PhaseInv m_nick m_pass p (trace ++ es)
  written-PhaseInv msg connecting trace before behind es h run inv =
      absurd (no_write before behind msg (subst AreCloses h inv))
  written-PhaseInv msg idle trace before behind es h run inv =
      absurd (no_write before behind msg (subst AreCloses h inv))
  written-PhaseInv msg reading trace before behind es h run inv = Begins-append trace es inv
  written-PhaseInv msg closed trace before behind es h run inv = Begins-append trace es inv
  written-PhaseInv msg destroyed trace before behind es h run inv = absurd run
  written-PhaseInv msg (terminated x) trace before behind es h run inv = absurd run

  closed-PhaseInv :
      (p : Phase) (trace : List Event)
      → IsRunning p
      → PhaseInv m_nick m_pass p trace
      → PhaseInv m_nick m_pass p (trace ++ (close_socket ∷ []))
  closed-PhaseInv connecting trace run inv = AreCloses-append trace inv
  closed-PhaseInv idle trace run inv = AreCloses-append trace inv
  closed-PhaseInv reading trace run inv = Begins-append trace (close_socket ∷ []) inv
  closed-PhaseInv closed trace run inv = Begins-append trace (close_socket ∷ []) inv
  closed-PhaseInv destroyed trace run inv = absurd run
  closed-PhaseInv (terminated x) trace run inv = absurd run

  destroyed-PhaseInv :
      (p : Phase) (trace : List Event)
      → IsRunning p
      → PhaseInv m_nick m_pass p trace
      → PhaseInv m_nick m_pass destroyed (trace ++ (close_socket ∷ []))
  destroyed-PhaseInv connecting trace run inv = inl (AreCloses-append trace inv)
  destroyed-PhaseInv idle trace run inv = inl (AreCloses-append trace inv)
  destroyed-PhaseInv reading trace run inv = inr (Begins-append trace (close_socket ∷ []) inv)
  destroyed-PhaseInv closed trace run inv = inr (Begins-append trace (close_socket ∷ []) inv)
  destroyed-PhaseInv destroyed trace run inv = absurd run
  destroyed-PhaseInv (terminated x) trace run inv = absurd run

module _ (algo : StringAlgo) (regex : RegexSearch message_regex) (self : Overrides)
    (m_nick m_pass : Bytes) where
  pub connected_lem :
      connected algo regex self m_nick m_pass
      ≡ done tt (
          write ((codes "PASS " ++ m_pass) ++ crlf)
          ∷ write ((codes "NICK " ++ m_nick) ++ crlf)
          ∷ [])
  unfolding connected
  connected_lem = rw (connected, perform-pass algo m_pass, perform-nick algo m_nick)

  module _ (reply_fails : (msg : Message) (code : ℤ) → FailsBy escaping (self.reply msg code))
      (privmsg_fails : (msg : Message) (t x : Bytes)
        → FailsBy escaping (self.privmsg msg t x)) where
    -- The rounds of the loop: as many as the buffer needs.
    read_lines-FailsBy :
        (c : ℕ) (s : Bytes)
        → FailsBy escaping (read_lines (read_line algo self regex) (length (c ∷ s)) (c ∷ s))
    read_lines-FailsBy c s =
        rw (read_lines-eq-for_each (read_line algo self regex) (length (c ∷ s)) c s (omega arith)) (
          FailsBy-for_each escaping (read_line algo self regex) (lines (c ∷ s))
            (read_line-FailsBy algo self reply_fails privmsg_fails regex))

    read_buffer-FailsBy :
        (a : Bytes) (c : ℕ) (s : Bytes)
        → FailsBy escaping
            (read_lines (read_line algo self regex) (length (a ++ (c ∷ s))) (a ++ (c ∷ s)))
    read_buffer-FailsBy [] c s = read_lines-FailsBy c s
    read_buffer-FailsBy (d ∷ a) c s = read_lines-FailsBy d (a ++ (c ∷ s))

    finish-PhaseInv :
        (s : Session) (m : Run (Unit {0}))
        → Begins m_nick m_pass s.trace
        → FailsBy escaping m
        → PhaseInv m_nick m_pass (finish s reading m).phase (finish s reading m).trace
    finish-PhaseInv s (done a es) b h = Begins-append m_nick m_pass s.trace es b
    finish-PhaseInv s (failed x es) b (fails p) = (p, Begins-append m_nick m_pass s.trace es b)

    on_connect-PhaseInv :
        (ec : Bool) (s : Session)
        → AreCloses s.trace
        → PhaseInv m_nick m_pass
            (on_connect algo regex self m_nick m_pass ec s).phase
            (on_connect algo regex self m_nick m_pass ec s).trace
    unfolding on_connect
    on_connect-PhaseInv true s a = a
    on_connect-PhaseInv false s a =
        rw connected_lem (s.trace, a, [], sym (append-nil (s.trace ++ greeting m_nick m_pass)))

    on_read-PhaseInv :
        (ec : Bool) (c : ℕ) (received : Bytes) (s : Session)
        → PhaseInv m_nick m_pass reading s.trace
        → PhaseInv m_nick m_pass
            (on_read algo regex self m_nick m_pass ec (c ∷ received) s).phase
            (on_read algo regex self m_nick m_pass ec (c ∷ received) s).trace
    unfolding on_read
    on_read-PhaseInv true c received s b = Begins-append m_nick m_pass s.trace (close_socket ∷ []) b
    on_read-PhaseInv false c received s b =
        finish-PhaseInv s _ b
          (FailsBy-bind escaping _ _ (read_buffer-FailsBy s.response c received) (λ _. returns))

    Step-PhaseInv :
        {s t : Session}
        → Step algo regex self m_nick m_pass s t
        → PhaseInv m_nick m_pass s.phase s.trace
        → PhaseInv m_nick m_pass t.phase t.trace
    unfolding on_written on_close destroy
    Step-PhaseInv (connect_ends ec s p) inv = on_connect-PhaseInv ec s (rw p at inv)
    Step-PhaseInv (read_ends ec c received s p) inv = on_read-PhaseInv ec c received s (rw p at inv)
    Step-PhaseInv (write_ends msg before behind s h run) inv =
        written-PhaseInv m_nick m_pass msg s.phase s.trace before behind
          (print (codes "< " ++ msg) ∷ []) h run inv
    Step-PhaseInv (close_posted s run) inv = closed-PhaseInv m_nick m_pass s.phase s.trace run inv
    Step-PhaseInv (deleted s run) inv = destroyed-PhaseInv m_nick m_pass s.phase s.trace run inv

    -- In every state that a session reaches, for a class whose overriding functions throw nothing
    -- but std::out_of_range: before the connection nothing was done but that close() closes the
    -- socket; after it the trace goes on with a read, PASS and NICK, in this order; and the thread
    -- can have ended only by std::out_of_range or a read out of bounds, since each round of the
    -- read loop gets its line.
    pub Reach-PhaseInv :
        {s : Session}
        → Reach algo regex self m_nick m_pass s
        → PhaseInv m_nick m_pass s.phase s.trace
    Reach-PhaseInv here = tt
    Reach-PhaseInv (next r st) = Step-PhaseInv st (Reach-PhaseInv r)
