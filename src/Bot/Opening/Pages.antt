-- ===== src/Bot/Opening/Pages.antt =====
-- Which pages the bot serves over a WebSocket.
use boost_irc.Base.{ℕ, ◌≡◌, refl, ap, ◌∙◌, Option, none, some, List, [], ◌∷◌, Bytes, codes}
use boost_irc.Boost.Regex.{Groups}
use boost_irc.HttpServer.Request.{Request}
use boost_irc.HttpServer.Request.RoundTrip.{IsRequest, request_text}
use boost_irc.WebSocket.Handshake.{Handshaker, find_field}
use boost_irc.WebSocket.Handshake.Answering.{answered, first_endpoint, handshake_read-request_text}
use boost_irc.Bot.Endpoints.{Effect, Functions, new_client, echo_onopen, echo, channel, bot_program}
use boost_irc.Bot.Opening.{copy_endpoints, with_answer, opens}

-- What the two endpoints do, by whether their expressions match.
abbrev pub by_path :
    List Effect → List Effect → Option Groups → Option Groups → Option (List Effect)
by_path to_channel to_echo (some path_match) of_echo = some to_channel
by_path to_channel to_echo none (some path_match) = some to_echo
by_path to_channel to_echo none none = none

module _ (h : Handshaker) where
  two_endpoints :
      (x y path : Bytes) (f g : Functions) (key : Bytes) (connection : ℕ) (a b : Option Groups)
      → h.regex_match x path ≡ a
      → h.regex_match y path ≡ b
      → with_answer ((x, f) ∷ (y, g) ∷ []) connection (
          answered
            (record h { opt_endpoint = (x, 0) ∷ (y, 1) ∷ [] })
            (first_endpoint h.regex_match path ((x, 0) ∷ (y, 1) ∷ []))
            (some key))
        ≡ by_path (f.onopen connection) (g.onopen connection) a b
  two_endpoints x y path f g key connection (some m) b e d = rw (first_endpoint, e) refl
  two_endpoints x y path f g key connection none (some m) e d = rw (first_endpoint, e, d) refl
  two_endpoints x y path f g key connection none none e d = rw (first_endpoint, e, d) refl

  opens-answered :
      (endpoint : List (Bytes × Functions)) (r : Request) (behind key : Bytes) (connection : ℕ)
      → IsRequest r
      → find_field (codes "sec-websocket-key") r.header ≡ some key
      → opens h endpoint connection (request_text r behind)
        ≡ with_answer endpoint connection (
            answered
              (record h { opt_endpoint = copy_endpoints 0 endpoint })
              (first_endpoint h.regex_match r.path (copy_endpoints 0 endpoint))
              (some key))
  unfolding opens
  opens-answered endpoint r behind key connection q k =
      let hs = record h { opt_endpoint = copy_endpoints 0 endpoint } in
      ap (with_answer endpoint connection) (
        handshake_read-request_text hs r q behind
        ∙ ap (answered hs (first_endpoint h.regex_match r.path hs.opt_endpoint)) k)

  -- The bot that is started with a username and a password, on a handshake that is written as HTTP
  -- has it and has a field named sec-websocket-key, in lower case, and that is answered without an
  -- error: where the path matches the expression of the channels, a client with this username and
  -- this password is made for the connection; where only that of the echo matches, the opening is
  -- printed; and otherwise nothing is done.
  pub opens-bot_program :
      (username password : Bytes) (r : Request) (behind key : Bytes) (connection : ℕ)
      → IsRequest r
      → find_field (codes "sec-websocket-key") r.header ≡ some key
      → opens h (bot_program username password).endpoint connection (request_text r behind)
        ≡ by_path
            (new_client username password ∷ [])
            (echo_onopen connection)
            (h.regex_match (codes "^/channel/([a-z0-9]+)/?$") r.path)
            (h.regex_match (codes "^/echo/?$") r.path)
  unfolding copy_endpoints
  opens-bot_program username password r behind key connection q k =
      opens-answered (bot_program username password).endpoint r behind key connection q k
      ∙ two_endpoints (codes "^/channel/([a-z0-9]+)/?$") (codes "^/echo/?$") r.path
          (channel username password) echo key connection _ _ refl refl
