-- ===== src/Serving/Timer.antt =====
-- A deadline timer that closes the socket of a peer: `set_timeout_on_socket` of
-- web_server/server_http.hpp, `set_timeout_on_connection` of web_socket_server/server_ws.hpp.
use boost_irc.Base.{ℕ, ltb, ◌≢◌, if◌then◌else◌}

-- `due`: the time is over, and the handler will be run; it is too late to cancel.
pub data Timer : Type 0 where
  off waiting due : Timer

-- `if(timeout>0) timer=set_timeout(…);`
abbrev pub set : ℕ → Timer
set timeout = if ltb 0 timeout then waiting else off

-- `timer->cancel()`
abbrev pub cancel : Timer → Timer
cancel off = off
cancel waiting = off
cancel due = due

-- The time is over.
abbrev pub fires : Timer → Timer
fires off = off
fires waiting = due
fires due = due

pub cancel-ne-waiting : (t : Timer) → cancel t ≢ waiting
cancel-ne-waiting off e = cc
cancel-ne-waiting waiting e = cc
cancel-ne-waiting due e = cc
