-- ===== src/Irc/Session.antt =====
-- A client's connection over time: the constructor, the handlers of `connect`, `read()` and
-- `send(raw)`, `connected`, `close` and the destructor of irc/irc_client.cpp, run by the one thread of the client's
-- io_service.
pub mod Invariant
use boost_irc.Base.{
  ℕ, Bool, true, false, List, [], ◌∷◌, ◌++◌, Bytes, codes, length, ◌≡◌, ◌≢◌, if◌then◌else◌,
}
use boost_irc.Boost.{StringAlgo}
use boost_irc.Boost.Regex.{RegexSearch}
use boost_irc.Irc.Message.Pattern.{message_regex}
use boost_irc.Irc.Commands.{perform, pass, nick}
use boost_irc.Irc.Dispatch.{Overrides, read_line}
use boost_irc.Irc.Reader.{read_lines}
use boost_irc.Irc.Effects.{
  Failure, Event, write, print, start_read, close_socket, Run, done, failed, ◌>>=◌, ◌>>◌, emit,
}

-- What the io_service waits for. `idle`: nothing, since the connection failed; `terminated`: an
-- exception left a handler, so the thread, and with it the program, has ended.
-- `destroyed`: the client was deleted.
pub data Phase : Type 0 where
  connecting reading idle closed destroyed : Phase
  terminated : Failure → Phase

pub record Session : Type 0 where
  pub phase : Phase
  -- the stream buffer `response`
  pub response : Bytes
  pub trace : List Event

-- The constructor: it has asked for the connection.
abbrev pub start : Session
start = record { phase = connecting; response = []; trace = [] }

-- A handler ran in a session: its events, and the phase after it if it returned.
abbrev pub finish : Session → Phase → Run (Unit {0}) → Session
finish s p (done a es) = record { phase = p; response = []; trace = s.trace ++ es }
finish s p (failed x es) = record { phase = terminated x; response = []; trace = s.trace ++ es }

-- The handler of async_write, on the line that was sent: it is printed, also on an error.
unfoldable pub on_written : Bytes → Session → Session
on_written msg s = record s { trace = s.trace ++ (print (codes "< " ++ msg) ∷ []) }

-- What `close()` posts.
unfoldable pub on_close : Session → Session
on_close s = record s { trace = s.trace ++ (close_socket ∷ []) }

-- The destructor: the io_service runs no handler any more.
unfoldable pub destroy : Session → Session
destroy s = record s { phase = destroyed; trace = s.trace ++ (close_socket ∷ []) }

-- The io_service still runs handlers.
abbrev pub IsRunning : Phase → Type 0
IsRunning (terminated x) = ⊥
IsRunning destroyed = ⊥
IsRunning _ = Unit {0}

module _ (algo : StringAlgo) (regex : RegexSearch message_regex) (self : Overrides)
    (m_nick m_pass : Bytes) where
  -- `connected()`
  unfoldable pub connected : Run (Unit {0})
  connected = do perform algo (pass m_pass); perform algo (nick m_nick)

  -- The handler of async_connect; the flag is the error code.
  unfoldable pub on_connect : Bool → Session → Session
  on_connect true s = record s { phase = idle }
  on_connect false s = finish s reading (do emit start_read; connected)

  -- The handler of async_read_until; `received` is what the read has put into the buffer.
  unfoldable pub on_read : Bool → Bytes → Session → Session
  on_read true received s = record s {
    phase = closed;
    response = s.response ++ received;
    trace = s.trace ++ (close_socket ∷ []);
  }
  on_read false received s =
      let buffer = s.response ++ received in
      finish s reading
        (do read_lines (read_line algo self regex) (length buffer) buffer; emit start_read)

  -- A handler is called when its operation ends. A read that succeeds has found "\r\n", so it has
  -- received something.
  pub data Step : Session → Session → Type 0 where
    connect_ends : (ec : Bool) (s : Session) → s.phase ≡ connecting → Step s (on_connect ec s)
    read_ends :
        (ec : Bool) (c : ℕ) (received : Bytes) (s : Session)
        → s.phase ≡ reading
        → Step s (on_read ec (c ∷ received) s)
    -- The line was sent before.
    write_ends :
        (msg : Bytes) (before behind : List Event) (s : Session)
        → s.trace ≡ before ++ (write msg ∷ behind)
        → IsRunning s.phase
        → Step s (on_written msg s)
    close_posted : (s : Session) → IsRunning s.phase → Step s (on_close s)
    deleted : (s : Session) → IsRunning s.phase → Step s (destroy s)

  pub data Reach : Session → Type 0 where
    here : Reach start
    next : {s t : Session} → Reach s → Step s t → Reach t
