-- ===== src/HttpServer/Connection/Cycle.antt =====
-- What a connection does for its requests, in order.
use boost_irc.Base.{
  ℕ, suc, ◌+◌, ltb, ◌≡◌, ◌⊎◌, inl, refl, sym, ap, ◌∙◌, subst, Bool, true, false, Option, none, some,
  List, [], ◌∷◌, ◌++◌, Bytes, if◌then◌else◌, arith,
}
use boost_irc.Boost.Regex.{Groups}
use boost_irc.HttpServer.Request.{Request}
use boost_irc.HttpServer.Resources.{find_resource}
use boost_irc.HttpServer.Connection.{
  Waiting, header, nothing, looping, content, response, written, Action, start_timer, cancel_timer,
  close_socket, read_header, read_content, call, write, finish, Connection, Server, act, await,
  set_timer, cancel, read_request_and_content, write_response, serve,
}

-- Whose turn it is: a request was asked for, it was given to a function, or its response is ended.
pub data Turn : Type 0 where
  asked given ended : Turn

-- By what is awaited, for the turn, if all came in turn.
abbrev pub IsTurn : Waiting → Option Turn → Type 0
IsTurn header o = o ≡ some asked
IsTurn (content r b) o = o ≡ some asked
IsTurn looping o = o ≡ some asked
IsTurn (response r n) o = o ≡ some given
IsTurn (written r) o = o ≡ some ended
IsTurn nothing o = (o ≡ some asked) ⊎ (o ≡ some ended)

module _ {H : Type 0} where
  -- The turn behind an action; none where the action is out of turn. A request is read when the
  -- response before it is ended, its content and then the function have their turn behind it, and
  -- parts of a response are written up to the last while the function has the request.
  abbrev pub turn : Action H → Turn → Option Turn
  turn start_timer p = some p
  turn cancel_timer p = some p
  turn close_socket p = some p
  turn read_header asked = none
  turn read_header given = none
  turn read_header ended = some asked
  turn (read_content n) asked = some asked
  turn (read_content n) given = none
  turn (read_content n) ended = none
  turn (call f g r b) asked = some given
  turn (call f g r b) given = none
  turn (call f g r b) ended = none
  turn (write t) asked = none
  turn (write t) given = some given
  turn (write t) ended = none
  turn (finish t) asked = none
  turn (finish t) given = some ended
  turn (finish t) ended = none

  abbrev pub then_turn : Action H → Option Turn → Option Turn
  then_turn a none = none
  then_turn a (some p) = turn a p

  -- All actions, in order.
  abbrev pub turns : List (Action H) → Option Turn → Option Turn
  turns [] o = o
  turns (a ∷ s) o = turns s (then_turn a o)

  turns-append : (s t : List (Action H)) (o : Option Turn) → turns (s ++ t) o ≡ turns t (turns s o)
  turns-append [] t o = refl
  turns-append (a ∷ s) t o = turns-append s t (then_turn a o)

  -- The calls of functions.
  abbrev pub called : List (Action H) → ℕ
  called [] = 0
  called (call f g r b ∷ s) = suc (called s)
  called (_ ∷ s) = called s

  pub called-append : (s t : List (Action H)) → called (s ++ t) ≡ called s + called t
  called-append [] t = omega arith
  called-append (start_timer ∷ s) t = called-append s t
  called-append (cancel_timer ∷ s) t = called-append s t
  called-append (close_socket ∷ s) t = called-append s t
  called-append (read_header ∷ s) t = called-append s t
  called-append (read_content n ∷ s) t = called-append s t
  called-append (call f g r b ∷ s) t = omega (arith, called-append s t)
  called-append (write x ∷ s) t = called-append s t
  called-append (finish x ∷ s) t = called-append s t

  -- The turn of a connection, which waits for something else.
  abbrev pub At : Waiting → Connection H → Type 0
  At w c = IsTurn w (turns c.actions (some ended))

  -- All that was done came in turn, and the turn is that of what is awaited.
  abbrev pub InTurn : Connection H → Type 0
  InTurn c = At c.wait c

  -- An action that is in turn.
  pub act-turn :
      (c : Connection H) (a : Action H) (p : Turn) (o : Option Turn)
      → turns c.actions (some ended) ≡ some p
      → turn a p ≡ o
      → turns (act (a ∷ []) c).actions (some ended) ≡ o
  act-turn c a p o h e = turns-append c.actions (a ∷ []) (some ended) ∙ ap (then_turn a) h ∙ e

  then_turn-quiet :
      (a : Action H) → ((p : Turn) → turn a p ≡ some p) → (o : Option Turn) → then_turn a o ≡ o
  then_turn-quiet a h none = refl
  then_turn-quiet a h (some p) = h p

  -- One that leaves the turn as it is.
  pub act-At :
      (w : Waiting) (c : Connection H) (a : Action H)
      → ((p : Turn) → turn a p ≡ some p)
      → At w c
      → At w (act (a ∷ []) c)
  act-At w c a quiet h =
      subst (IsTurn w)
        (sym (
          turns-append c.actions (a ∷ []) (some ended)
          ∙ then_turn-quiet a quiet (turns c.actions (some ended))))
        h

  At-if :
      (b : Bool) (w : Waiting) (c d : Connection H) → At w c → At w d → At w (if b then c else d)
  At-if true w c d h k = h
  At-if false w c d h k = k

  pub set_timer-At :
      (timeout : ℕ) (w : Waiting) (c : Connection H) → At w c → At w (set_timer timeout c)
  set_timer-At timeout w c h =
      At-if (ltb 0 timeout) w (act (start_timer ∷ []) (record c { timer = true })) c
        (act-At w c start_timer (λ p. refl) h) h

  pub cancel-At : (timeout : ℕ) (w : Waiting) (c : Connection H) → At w c → At w (cancel timeout c)
  cancel-At timeout w c h =
      At-if (ltb 0 timeout) w (act (cancel_timer ∷ []) (record c { timer = false })) c
        (act-At w c cancel_timer (λ p. refl) h) h

  module _ (server : Server H) where
    -- A turn ends, and the next begins.
    pub read_request_and_content-InTurn :
        (c : Connection H) (r : Request)
        → At (written r) c
        → InTurn (read_request_and_content server c)
    unfolding read_request_and_content
    read_request_and_content-InTurn c r h =
        act-turn (set_timer server.timeout_request c) read_header ended (some asked)
          (set_timer-At server.timeout_request (written r) c h) refl

    pub write_response-InTurn :
        (f : H) (groups : Groups) (r : Request) (bytes : Bytes) (c : Connection H)
        → At header c
        → InTurn (write_response server f groups r bytes c)
    unfolding write_response
    write_response-InTurn f groups r bytes c h =
        act-turn (set_timer server.timeout_content c) (call f groups r bytes) asked (some given)
          (set_timer-At server.timeout_content header c h) refl

    pub serve-InTurn :
        (r : Request) (bytes : Bytes) (c : Connection H)
        → At header c
        → InTurn (serve server r bytes c)
    unfolding serve
    serve-InTurn r bytes c h = found (
        find_resource server.regex_match server.opt_resource server.default_resource r.method
          r.path)
      where
        found :
            (o : Option (Groups × H))
            → InTurn (elim o [
              | none ↦ await nothing c
              | some (groups, f) ↦ write_response server f groups r bytes c
            ])
        found none = inl h
        found (some (groups, f)) = write_response-InTurn f groups r bytes c h
