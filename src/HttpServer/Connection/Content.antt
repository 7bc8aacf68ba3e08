-- ===== src/HttpServer/Connection/Content.antt =====
-- Which request and which content a function gets.
use boost_irc.Base.{
  ℕ, inl, inr, Option-cases, ltb, ◌≡◌, refl, ap, ◌∙◌, subst, Bool, true, false, none, some, List,
  [], ◌∷◌, ◌++◌, Bytes, codes, length, if◌then◌else◌, arith,
}
use boost_irc.Boost.Regex.{Groups}
use boost_irc.Std.Find.{size_sub}
use boost_irc.HttpServer.Header.{Fields}
use boost_irc.HttpServer.Request.{Request}
use boost_irc.HttpServer.Request.Size.{request_text_bound, size_behind}
use boost_irc.HttpServer.Request.RoundTrip.{IsRequest, request_text, parse_request-request_text}
use boost_irc.HttpServer.Resources.{find_resource}
use boost_irc.HttpServer.Number.{stoull}
use boost_irc.HttpServer.Connection.{
  response, Action, call, start_timer, cancel_timer, Connection, Server, values, IsOneOf, act,
  set_timer, cancel, write_response, serve, request_read, parsed, header_ends, content_ends,
}
use boost_irc.HttpServer.Connection.Cycle.{called, called-append}

module _ {H : Type 0} where
  -- In between, the function was called, once, with the request and its content.
  pub record Calls (f : H) (groups : Groups) (r : Request) (bytes : Bytes) (c d : Connection H)
      : Type 0 where
    pub before : List (Action H)
    pub calls : d.actions ≡ before ++ (call f groups r bytes ∷ [])
    pub no_other : called before ≡ called c.actions
    pub waits : d.wait ≡ response r 0

  IsQuiet : Connection H → Connection H → Type 0
  IsQuiet c d = called d.actions ≡ called c.actions

  act-IsQuiet : (c : Connection H) (s : List (Action H)) → called s ≡ 0 → IsQuiet c (act s c)
  unfolding IsQuiet
  act-IsQuiet c s h = omega (arith, called-append c.actions s, h)

  IsQuiet-if :
      (b : Bool) (c d e : Connection H) → IsQuiet c d → IsQuiet c e → IsQuiet c (if b then d else e)
  IsQuiet-if true c d e h k = h
  IsQuiet-if false c d e h k = k

  set_timer-IsQuiet : (t : ℕ) (c : Connection H) → IsQuiet c (set_timer t c)
  unfolding IsQuiet
  set_timer-IsQuiet t c =
      IsQuiet-if (ltb 0 t) c (act (start_timer ∷ []) (record c { timer = true })) c
        (act-IsQuiet c (start_timer ∷ []) refl) refl

  cancel-IsQuiet : (t : ℕ) (c : Connection H) → IsQuiet c (cancel t c)
  unfolding IsQuiet
  cancel-IsQuiet t c =
      IsQuiet-if (ltb 0 t) c (act (cancel_timer ∷ []) (record c { timer = false })) c
        (act-IsQuiet c (cancel_timer ∷ []) refl) refl

  module _ (server : Server H) (r : Request) where
    -- A request with a content in two parts: what was read along with the header, and what is read
    -- behind it, if anything.
    abbrev pub in_parts : Bytes → Bytes → Connection H → Connection H
    in_parts first [] c =
        header_ends server false (request_text r first) (length (request_text r [])) c
    in_parts first (x ∷ second) c =
        content_ends server false (x ∷ second) r first
          (header_ends server false (request_text r first) (length (request_text r [])) c)

  -- Where no field has the name, none is found.
  find-none :
      (server : Server H) (name : Bytes) (header : Fields)
      → values server.iequals name header ≡ []
      → server.find name header ≡ none
  find-none server name header e = elim (Option-cases (server.find name header)) [
    | inl h ↦ h
    | inr (v, h) ↦ absurd (subst (IsOneOf v) e (server.find_some name header v h))
  ]

  module _ (server : Server H) (f : H) (groups : Groups) (r : Request) where
    write_response-Calls :
        (bytes : Bytes) (c d : Connection H)
        → IsQuiet c d
        → Calls f groups r bytes c (write_response server f groups r bytes d)
    unfolding write_response IsQuiet
    write_response-Calls bytes c d q = record {
      before = (set_timer server.timeout_content d).actions;
      calls = refl;
      no_other = set_timer-IsQuiet server.timeout_content d ∙ q;
      waits = refl;
    }

    module _
        (found : find_resource server.regex_match server.opt_resource server.default_resource
            r.method r.path
          ≡ some (groups, f)) where
      serve-Calls :
          (bytes : Bytes) (c d : Connection H)
          → IsQuiet c d
          → Calls f groups r bytes c (serve server r bytes d)
      unfolding serve
      serve-Calls bytes c d q = rw (found, serve) (write_response-Calls bytes c d q)

      module _ (h : IsRequest r) where
        -- A request, and some of what is behind it, are parsed.
        header_ends-parsed :
            (behind : Bytes) (c : Connection H)
            → header_ends server false (request_text r behind) (length (request_text r [])) c
              ≡ request_read server r behind (length behind) (cancel server.timeout_request c)
        unfolding header_ends
        header_ends-parsed behind c =
            let text = request_text r behind in
            ap
              (λ p.
                parsed server p (size_sub (length text) (length (request_text r [])))
                  (cancel server.timeout_request c))
              (parse_request-request_text r h (length text) behind (request_text_bound r behind))
            ∙ ap (λ m. request_read server r behind m (cancel server.timeout_request c))
                (size_behind r behind)

        -- Without a Content-Length, all that was read behind the header is the content, also where it
        -- is a further request.
        pub header_ends-Calls :
            (behind : Bytes) (c : Connection H)
            → values server.iequals (codes "Content-Length") r.header ≡ []
            → Calls f groups r behind c
                (header_ends server false (request_text r behind) (length (request_text r [])) c)
        unfolding request_read
        header_ends-Calls behind c n = rw (header_ends-parsed behind c) (
            rw (find-none server (codes "Content-Length") r.header n, request_read)
              (serve-Calls behind c (cancel server.timeout_request c)
                (cancel-IsQuiet server.timeout_request c)))

        module _ (value : Bytes) (n : ℕ)
            (field : server.find (codes "Content-Length") r.header ≡ some value)
            (size : stoull value ≡ some n) where
          -- The timers of a request with a content.
          timed : Connection H → Connection H
          timed c = set_timer server.timeout_content (cancel server.timeout_request c)
