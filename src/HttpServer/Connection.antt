-- ===== src/HttpServer/Connection.antt =====
-- The life of a connection in web_server/server_http.hpp: `read_request_and_content`,
-- `find_resource`, `write_response` and `send`, as the handlers of the operations that the
-- io_service runs one at a time.
pub mod Cycle
pub mod Reached
pub mod Content
use boost_irc.Base.{
  ℕ, suc, ◌⊎◌, ◌-◌, ltb, Bool, true, false, Option, none, some, List, [], ◌∷◌, ◌++◌, Bytes, codes,
  length, if◌then◌else◌, ◌≡◌,
}
use boost_irc.Boost.Regex.{Groups}
use boost_irc.Std.Find.{size_sub}
use boost_irc.Std.Stream.{Stream}
use boost_irc.HttpServer.Header.{Fields}
use boost_irc.HttpServer.Request.{Request, Parsed, parse_request, stream_of}
use boost_irc.HttpServer.Resources.{OptResource, find_resource}
use boost_irc.HttpServer.Number.{stoull, is_above}

-- What the connection waits for: a header, the rest of a content (behind what of it was read), the
-- function of a resource (until it has dropped the response), with so many of its sends that have
-- not ended, the end of the last write. `nothing`: no handler holds the socket but a timer's.
-- `looping`: parse_request does not return.
pub data Waiting : Type 0 where
  header nothing looping : Waiting
  content : Request → Bytes → Waiting
  response : Request → ℕ → Waiting
  written : Request → Waiting

pub data Action (H : Type 0) : Type 0 where
  -- set_timeout_on_socket, timer->cancel()
  start_timer cancel_timer : Action H
  -- shutdown and close of the socket
  close_socket : Action H
  -- async_read_until of a blank line, async_read of so many bytes
  read_header : Action H
  read_content : ℕ → Action H
  -- resource_function(response, request), with path_match and the content
  call : H → Groups → Request → Bytes → Action H
  -- async_write of a part of a response, which the function sends, and of what is left of it when
  -- it is dropped
  write : Bytes → Action H
  finish : Bytes → Action H

pub record Connection (H : Type 0) : Type 0 where
  pub wait : Waiting
  -- the wait of the timer that was set last
  pub timer : Bool
  pub actions : List (Action H)

-- The values of the fields with a name: `equal_range`.
abbrev pub values : (Bytes → Bytes → Bool) → Bytes → Fields → List Bytes
values iequals name [] = []
values iequals name ((k, v) ∷ fields) =
    if iequals k name then v ∷ values iequals name fields else values iequals name fields

abbrev pub IsOneOf : Bytes → List Bytes → Type 0
IsOneOf v [] = ⊥
IsOneOf v (x ∷ xs) = (x ≡ v) ⊎ IsOneOf v xs

-- What the server is made of: `config`'s timeouts, and the resources.
pub record Server (H : Type 0) : Type 0 where
  pub timeout_request : ℕ
  pub timeout_content : ℕ
  pub opt_resource : OptResource H
  pub default_resource : List (Bytes × H)
  -- boost::regex_match, and boost::algorithm::iequals
  pub regex_match : Bytes → Bytes → Option Groups
  pub iequals : Bytes → Bytes → Bool
  -- `header.find(name)` of an unordered multimap: the value of a field with the name, where there is
  -- one; of several it is not specified which
  pub find : Bytes → Fields → Option Bytes
  pub find_none :
      (name : Bytes) (header : Fields) → find name header ≡ none → values iequals name header ≡ []
  pub find_some :
      (name : Bytes) (header : Fields) (value : Bytes)
      → find name header ≡ some value
      → IsOneOf value (values iequals name header)

abbrev pub some_equals : (Bytes → Bytes → Bool) → Bytes → List Bytes → Bool
some_equals iequals value [] = false
some_equals iequals value (v ∷ vs) = if iequals v value then true else some_equals iequals value vs

module _ {H : Type 0} where
  abbrev pub act : List (Action H) → Connection H → Connection H
  act done c = record c { actions = c.actions ++ done }

  abbrev pub await : Waiting → Connection H → Connection H
  await w c = record c { wait = w }

  -- `if(timeout>0) timer=set_timeout_on_socket(socket, timeout);`
  abbrev pub set_timer : ℕ → Connection H → Connection H
  set_timer timeout c =
      if ltb 0 timeout then act (start_timer ∷ []) (record c { timer = true }) else c

  -- `if(timeout>0) timer->cancel();`
  abbrev pub cancel : ℕ → Connection H → Connection H
  cancel timeout c =
      if ltb 0 timeout then act (cancel_timer ∷ []) (record c { timer = false }) else c

  module _ (server : Server H) where
    -- A new request, with a new buffer.
    unfoldable pub read_request_and_content : Connection H → Connection H
    read_request_and_content c =
        await header (act (read_header ∷ []) (set_timer server.timeout_request c))

    -- The response is a new one; its deleter sends it.
    unfoldable pub write_response : H → Groups → Request → Bytes → Connection H → Connection H
    write_response f groups r bytes c =
        await (response r 0) (act (call f groups r bytes ∷ []) (set_timer server.timeout_content c))

    -- `find_resource`, and the call in it.
    unfoldable pub serve : Request → Bytes → Connection H → Connection H
    unfolding find_resource write_response
    serve r bytes c =
        elim (find_resource server.regex_match server.opt_resource server.default_resource r.method
          r.path) [ none ↦ await nothing c | some (groups, f) ↦ write_response f groups r bytes c ]

    -- The content of so many bytes, where some bytes behind the header were read along with it.
    unfoldable pub read_rest : Request → Bytes → ℕ → ℕ → Connection H → Connection H
    unfolding serve
    read_rest r bytes num_additional_bytes content_length c =
        if ltb num_additional_bytes content_length
        then await (content r bytes)
            (act (read_content (content_length - num_additional_bytes) ∷ []) c)
        else serve r bytes (cancel server.timeout_content c)

    abbrev pub with_length : Request → Bytes → ℕ → Option ℕ → Connection H → Connection H
    with_length r bytes num_additional_bytes none c = await nothing c
    with_length r bytes num_additional_bytes (some content_length) c =
        read_rest r bytes num_additional_bytes content_length c

    -- A parsed request: its header tells whether there is a content.
    unfoldable pub request_read : Request → Bytes → ℕ → Connection H → Connection H
    unfolding stoull read_rest
    request_read r bytes num_additional_bytes c =
        elim (server.find (codes "Content-Length") r.header) [
          | none ↦ serve r bytes c
          | some value ↦
              with_length r bytes num_additional_bytes (stoull value)
                (set_timer server.timeout_content c)
        ]

    abbrev pub parsed : Parsed → ℕ → Connection H → Connection H
    parsed none num_additional_bytes c = await looping c
    parsed (some (false, r, stream)) num_additional_bytes c = await nothing c
    parsed (some (true, r, stream)) num_additional_bytes c =
        request_read r stream.text num_additional_bytes c

    -- The handler of async_read_until, with what was read and how many bytes of it are up to the
    -- blank line.
    unfoldable pub header_ends : Bool → Bytes → ℕ → Connection H → Connection H
    unfolding parse_request request_read size_sub
    header_ends true text bytes_transferred c = await nothing (cancel server.timeout_request c)
    header_ends false text bytes_transferred c =
        parsed (parse_request (length text) (stream_of text))
          (size_sub (length text) bytes_transferred) (cancel server.timeout_request c)

    -- The handler of async_read.
    unfoldable pub content_ends : Bool → Bytes → Request → Bytes → Connection H → Connection H
    unfolding serve
    content_ends true received r bytes c = await nothing (cancel server.timeout_content c)
    content_ends false received r bytes c =
        serve r (bytes ++ received) (cancel server.timeout_content c)

    -- `send(response, callback)`, called by the function with what is in the response, where so many
    -- of its sends have not ended. The send holds the response until its callback has run.
    unfoldable pub part_sent : Bytes → Request → ℕ → Connection H → Connection H
    part_sent text r sends c = await (response r (suc sends)) (act (write text ∷ []) c)

    -- The callback of the function has run.
    unfoldable pub part_written : Request → ℕ → Connection H → Connection H
    part_written r sends c = await (response r sends) c

    -- The last pointer to the response is dropped: its deleter sends what is in it.
    unfoldable pub response_dropped : Bytes → Request → Connection H → Connection H
    response_dropped text r c = await (written r) (act (finish text ∷ []) c)

    abbrev pub after_version : Request → Option Bool → Connection H → Connection H
    after_version r none c = await nothing c
    after_version r (some keeps) c =
        if some_equals server.iequals (codes "close")
          (values server.iequals (codes "Connection") r.header)
        then await nothing c
        else if keeps
        then read_request_and_content c
        else await nothing c

    -- The callback of the send.
    unfoldable pub response_sent : Bool → Request → Connection H → Connection H
    unfolding is_above read_request_and_content
    response_sent true r c = await nothing c
    response_sent false r c =
        after_version r (is_above r.http_version) (cancel server.timeout_content c)

    unfoldable pub timer_expires : Connection H → Connection H
    timer_expires c = act (close_socket ∷ []) (record c { timer = false })

    -- The handler of async_accept, without an error.
    unfoldable pub accepted : Connection H
    unfolding read_request_and_content
    accepted = read_request_and_content (record { wait = nothing; timer = false; actions = [] })

    -- The steps of a connection. A read of a header that succeeds ends behind its first blank line.
    -- The function may send parts of the response, also from the callbacks of its sends, as long as
    -- it holds the response; the response is dropped only when none of its sends is left.
    pub data Step : Connection H → Connection H → Type 0 where
      header_ended :
          (ec : Bool) (text : Bytes) (bytes_transferred : ℕ) (c : Connection H)
          → c.wait ≡ header
          → Step c (header_ends ec text bytes_transferred c)
      content_ended :
          (ec : Bool) (received : Bytes) (r : Request) (bytes : Bytes) (c : Connection H)
          → c.wait ≡ content r bytes
          → Step c (content_ends ec received r bytes c)
      part_sends :
          (text : Bytes) (r : Request) (sends : ℕ) (c : Connection H)
          → c.wait ≡ response r sends
          → Step c (part_sent text r sends c)
      part_ends :
          (r : Request) (sends : ℕ) (c : Connection H)
          → c.wait ≡ response r (suc sends)
          → Step c (part_written r sends c)
      dropped :
          (text : Bytes) (r : Request) (c : Connection H)
          → c.wait ≡ response r 0
          → Step c (response_dropped text r c)
      sent :
          (ec : Bool) (r : Request) (c : Connection H)
          → c.wait ≡ written r
          → Step c (response_sent ec r c)
      expired : (c : Connection H) → c.timer ≡ true → Step c (timer_expires c)

    pub data Reach : Connection H → Type 0 where
      here : Reach accepted
      next : {c d : Connection H} → Reach c → Step c d → Reach d
