-- ===== src/HttpServer/Connection/Reached.antt =====
-- Requests and responses take turns in every connection that is reached.
use boost_irc.Base.{
  ℕ, suc, inl, inr, ◌-◌, ltb, ◌≡◌, refl, subst, Bool, true, false, Option, none, some, [], ◌∷◌,
  ◌++◌, Bytes, codes, length, if◌then◌else◌,
}
use boost_irc.Std.Find.{size_sub}
use boost_irc.HttpServer.Request.{Request, Parsed, parse_request, stream_of, new_request}
use boost_irc.HttpServer.Number.{stoull, is_above}
use boost_irc.HttpServer.Connection.{
  Waiting, header, nothing, content, response, written, close_socket, read_content, write, finish,
  Connection, Server, values, some_equals, act, await, set_timer, cancel, read_request_and_content,
  serve, read_rest, with_length, request_read, parsed, header_ends, content_ends, response_dropped,
  part_sent, part_written, part_sends, part_ends, after_version, response_sent, timer_expires,
  accepted, Step, header_ended, content_ended, dropped, sent, expired, Reach, here, next,
}
use boost_irc.HttpServer.Connection.Cycle.{
  asked, given, ended, turns, act-turn, IsTurn, InTurn, At, act-At, set_timer-At, cancel-At,
  read_request_and_content-InTurn, serve-InTurn,
}

module _ {H : Type 0} (server : Server H) where
  InTurn-if : (b : Bool) (c d : Connection H) → InTurn c → InTurn d → InTurn (if b then c else d)
  InTurn-if true c d h k = h
  InTurn-if false c d h k = k

  read_rest-InTurn :
      (r : Request) (bytes : Bytes) (m n : ℕ) (c : Connection H)
      → At header c
      → InTurn (read_rest server r bytes m n c)
  unfolding read_rest
  read_rest-InTurn r bytes m n c h =
      InTurn-if (ltb m n) (await (content r bytes) (act (read_content (n - m) ∷ []) c))
        (serve server r bytes (cancel server.timeout_content c))
        (act-turn c (read_content (n - m)) asked (some asked) h refl)
        (serve-InTurn server r bytes (cancel server.timeout_content c)
          (cancel-At server.timeout_content header c h))

  with_length-InTurn :
      (r : Request) (bytes : Bytes) (m : ℕ) (o : Option ℕ) (c : Connection H)
      → At header c
      → InTurn (with_length server r bytes m o c)
  with_length-InTurn r bytes m none c h = inl h
  with_length-InTurn r bytes m (some n) c h = read_rest-InTurn r bytes m n c h

  request_read-InTurn :
      (r : Request) (bytes : Bytes) (m : ℕ) (c : Connection H)
      → At header c
      → InTurn (request_read server r bytes m c)
  unfolding request_read
  request_read-InTurn r bytes m c h = found (server.find (codes "Content-Length") r.header)
    where
      found :
          (o : Option Bytes)
          → InTurn (elim o [
            | none ↦ serve server r bytes c
            | some value ↦
                with_length server r bytes m (stoull value) (set_timer server.timeout_content c)
          ])
      found none = serve-InTurn server r bytes c h
      found (some value) =
          with_length-InTurn r bytes m (stoull value) (set_timer server.timeout_content c)
            (set_timer-At server.timeout_content header c h)

  parsed-InTurn :
      (p : Parsed) (m : ℕ) (c : Connection H) → At header c → InTurn (parsed server p m c)
  parsed-InTurn none m c h = h
  parsed-InTurn (some (false, r, stream)) m c h = inl h
  parsed-InTurn (some (true, r, stream)) m c h = request_read-InTurn r stream.text m c h

  header_ends-InTurn :
      (ec : Bool) (text : Bytes) (m : ℕ) (c : Connection H)
      → At header c
      → InTurn (header_ends server ec text m c)
  unfolding header_ends
  header_ends-InTurn true text m c h = inl (cancel-At server.timeout_request header c h)
  header_ends-InTurn false text m c h =
      parsed-InTurn (parse_request (length text) (stream_of text)) (size_sub (length text) m)
        (cancel server.timeout_request c) (cancel-At server.timeout_request header c h)

  content_ends-InTurn :
      (ec : Bool) (received : Bytes) (r : Request) (bytes : Bytes) (c : Connection H)
      → At header c
      → InTurn (content_ends server ec received r bytes c)
  unfolding content_ends
  content_ends-InTurn true received r bytes c h = inl (cancel-At server.timeout_content header c h)
  content_ends-InTurn false received r bytes c h =
      serve-InTurn server r (bytes ++ received) (cancel server.timeout_content c)
        (cancel-At server.timeout_content header c h)

  part_sent-InTurn :
      (text : Bytes) (r : Request) (sends : ℕ) (c : Connection H)
      → At (response r sends) c
      → InTurn (part_sent server text r sends c)
  unfolding part_sent
  part_sent-InTurn text r sends c h = act-turn c (write text) given (some given) h refl

  response_dropped-InTurn :
      (text : Bytes) (r : Request) (c : Connection H)
      → At (response r 0) c
      → InTurn (response_dropped server text r c)
  unfolding response_dropped
  response_dropped-InTurn text r c h = act-turn c (finish text) given (some ended) h refl

  after_version-InTurn :
      (r : Request) (o : Option Bool) (c : Connection H)
      → At (written r) c
      → InTurn (after_version server r o c)
  after_version-InTurn r none c h = inr h
  after_version-InTurn r (some keeps) c h =
      InTurn-if
        (some_equals server.iequals (codes "close")
          (values server.iequals (codes "Connection") r.header))
        (await nothing c) (if keeps then read_request_and_content server c else await nothing c)
        (inr h)
        (InTurn-if keeps (read_request_and_content server c) (await nothing c)
          (read_request_and_content-InTurn server c r h) (inr h))

  response_sent-InTurn :
      (ec : Bool) (r : Request) (c : Connection H)
      → At (written r) c
      → InTurn (response_sent server ec r c)
  unfolding response_sent
  response_sent-InTurn true r c h = inr h
  response_sent-InTurn false r c h =
      after_version-InTurn r (is_above r.http_version) (cancel server.timeout_content c)
        (cancel-At server.timeout_content (written r) c h)

  -- What is awaited, put in.
  wait_is : (c : Connection H) (w : Waiting) → c.wait ≡ w → InTurn c → At w c
  wait_is c w e h = subst (λ v. IsTurn v (turns c.actions (some ended))) e h

  pub Step-InTurn : (c d : Connection H) → Step server c d → InTurn c → InTurn d
  unfolding timer_expires part_written
  Step-InTurn _ _ (header_ended ec text m c e) h =
      header_ends-InTurn ec text m c (wait_is c header e h)
  Step-InTurn _ _ (content_ended ec received r bytes c e) h =
      content_ends-InTurn ec received r bytes c (wait_is c (content r bytes) e h)
  Step-InTurn _ _ (part_sends text r sends c e) h =
      part_sent-InTurn text r sends c (wait_is c (response r sends) e h)
  Step-InTurn _ _ (part_ends r sends c e) h = wait_is c (response r (suc sends)) e h
  Step-InTurn _ _ (dropped text r c e) h =
      response_dropped-InTurn text r c (wait_is c (response r 0) e h)
  Step-InTurn _ _ (sent ec r c e) h = response_sent-InTurn ec r c (wait_is c (written r) e h)
  Step-InTurn _ _ (expired c e) h = act-At c.wait c close_socket (λ p. refl) h

  -- Requests and responses take turns in every state that a connection reaches: a request is read
  -- only where there was none before or the response to the one before was ended, a function is
  -- called with it, parts of the response are written while the function has it, and a last part
  -- ends it.
  pub Reach-InTurn : (c : Connection H) → Reach server c → InTurn c
  unfolding accepted
  Reach-InTurn _ here =
      read_request_and_content-InTurn server
        (record { wait = nothing; timer = false; actions = [] }) new_request refl
  Reach-InTurn _ (next {c = c} {d = d} r s) = Step-InTurn c d s (Reach-InTurn c r)
