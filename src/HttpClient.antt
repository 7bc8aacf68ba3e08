-- ===== src/HttpClient.antt =====
-- http_client/http_client.cpp: one GET request, as the chain of its handlers. A handler runs when
-- the operation that the client waits for ends, and starts the next one.
pub mod Status
pub mod Body
pub mod Once
pub mod Retry
use boost_irc.Base.{
  ℕ, zero, suc, ◌==◌, Bool, true, false, not, ◌&&◌, ◌||◌, Option, none, some, List, [], ◌∷◌, ◌++◌,
  Bytes, codes, crlf, equal, take, length, if◌then◌else◌,
}
use boost_irc.Irc.Reader.{getline}
use boost_irc.HttpClient.Status.{read_status}

-- How an operation ends. `refused` stands for every error code but end of file.
pub data Outcome : Type 0 where
  success eof refused : Outcome

-- What the client waits for; a connection keeps the endpoints that were not tried.
pub data Pending : Type 0 where
  resolve write_request status_line headers content nothing : Pending
  connect : List ℕ → Pending

pub data Action : Type 0 where
  -- async_connect to an endpoint, socket_.close()
  connect_to : ℕ → Action
  close_socket : Action
  -- async_write of the request
  send_request : Bytes → Action
  -- std::cout, on an error
  print_error : Action
  -- http_cb_(res_), and the socket's closing behind it
  call_back : Bytes → Action

pub record Client : Type 0 where
  pub pending : Pending
  -- the buffers `request_`, `response_` and `res_`
  pub request : Bytes
  pub response : Bytes
  pub res : Bytes
  pub actions : List Action

-- The end of an operation: its result, the endpoints that a resolver found, and the bytes that a
-- read has put into `response_`.
pub record Completion : Type 0 where
  pub outcome : Outcome
  pub endpoints : List ℕ
  pub received : Bytes

unfoldable pub request_text : Bytes → Bytes → Bytes
request_text server path =
    codes "GET "
    ++ (path
        ++ (codes " HTTP/1.0\r\nHost: "
            ++ (server ++ codes "\r\nAccept: */*\r\nConnection: close\r\n\r\n")))

-- The constructor.
unfoldable pub create : Bytes → Bytes → Client
create server path = record {
  pending = resolve;
  request = request_text server path;
  response = [];
  res = [];
  actions = [];
}

abbrev act : Client → List Action → Pending → Client
act c done p = record c { actions = c.actions ++ done; pending = p }

-- The first of the endpoints is tried, and the others are kept. A resolver that succeeds has found
-- one at least.
abbrev pub try_first : List Action → Client → List ℕ → Client
try_first before c [] = act c before nothing
try_first before c (e ∷ es) = act c (before ++ (connect_to e ∷ [])) (connect es)

unfoldable pub handle_resolve : Outcome → List ℕ → Client → Client
handle_resolve success es c = try_first [] c es
handle_resolve eof es c = act c (print_error ∷ []) nothing
handle_resolve refused es c = act c (print_error ∷ []) nothing

abbrev next_endpoint : List ℕ → Client → Client
next_endpoint [] c = act c (print_error ∷ []) nothing
next_endpoint (e ∷ es) c = try_first (close_socket ∷ []) c (e ∷ es)

unfoldable pub handle_connect : Outcome → List ℕ → Client → Client
handle_connect success es c = act c (send_request c.request ∷ []) write_request
handle_connect eof es c = next_endpoint es c
handle_connect refused es c = next_endpoint es c

-- The write has taken the request out of its buffer.
unfoldable pub handle_write_request : Outcome → Client → Client
handle_write_request success c = record c { request = []; pending = status_line }
handle_write_request eof c = act c (print_error ∷ []) nothing
handle_write_request refused c = act c (print_error ∷ []) nothing

-- The response is used if its first line was read, starts with HTTP/ and has the code 200.
unfoldable pub handle_read_status_line : Outcome → Client → Client
handle_read_status_line success c =
    let (line, rest) = read_status c.response in
    record c {
      response = rest;
      pending = elim line [
        | none ↦ nothing
        | some (version, code) ↦
            if not (equal (take 5 version) (codes "HTTP/"))
            then nothing
            else if not (code == 200)
            then nothing
            else headers
      ];
    }
handle_read_status_line eof c = act c (print_error ∷ []) nothing
handle_read_status_line refused c = act c (print_error ∷ []) nothing

-- `while (std::getline(response_stream, header) && header != "\r");`, in as many rounds as the
-- buffer has bytes.
unfoldable pub skip_headers : ℕ → Bytes → Bytes
skip_headers fuel [] = []
skip_headers zero (c ∷ s) = []
skip_headers (suc fuel) (c ∷ s) =
    let later = skip_headers fuel (getline (c ∷ s)).1 in
    if equal (getline (c ∷ s)).0 (codes "\r") then (getline (c ∷ s)).1 else later

unfoldable pub handle_read_headers : Outcome → Client → Client
handle_read_headers success c = record c {
  res = c.res ++ skip_headers (length c.response) c.response;
  response = [];
  pending = content;
}
handle_read_headers eof c = act c (print_error ∷ []) nothing
handle_read_headers refused c = act c (print_error ∷ []) nothing

unfoldable pub handle_read_content : Outcome → Client → Client
handle_read_content success c = record c {
  res = c.res ++ c.response;
  response = [];
  pending = content;
}
handle_read_content refused c = act c (print_error ∷ []) nothing
handle_read_content eof c = act c (call_back c.res ∷ close_socket ∷ []) nothing

-- The handler of what the client waits for.
unfoldable pub handle : Pending → Completion → Client → Client
unfolding handle_resolve handle_connect handle_write_request handle_read_status_line
handle resolve e c = handle_resolve e.outcome e.endpoints c
handle (connect es) e c = handle_connect e.outcome es c
handle write_request e c = handle_write_request e.outcome c
handle status_line e c = handle_read_status_line e.outcome c
handle headers e c = handle_read_headers e.outcome c
handle content e c = handle_read_content e.outcome c
handle nothing e c = c

abbrev pub begins : Bytes → Bytes → Bool
begins text s = equal (take (length text) s) text

-- Whether a text stands somewhere in another.
unfoldable pub contains : Bytes → Bytes → Bool
unfolding equal
contains text [] = begins text []
contains text (c ∷ s) = begins text (c ∷ s) || contains text s

abbrev pub is_empty : Bytes → Bool
is_empty [] = true
is_empty (c ∷ s) = false

-- Whether `async_read_until` of Boost.Asio can succeed, as it is documented: with nothing read where the delimiter is in the buffer
-- already, and else with a text that brings it.
unfoldable pub until : Bytes → Bytes → Bytes → Bool
unfolding contains
until delimiter buffer received =
    if contains delimiter buffer then is_empty received else contains delimiter (buffer ++ received)

-- Whether the operation that is awaited ends with a completion, or reads on.
unfoldable pub completes : Pending → Outcome → Bytes → Bytes → Bool
unfolding until
completes status_line success buffer received = until (codes "\r\n") buffer received
completes headers success buffer received = until (codes "\r\n\r\n") buffer received
completes p o buffer received = true

-- What an operation has read is in the buffer, and where it has ended its handler runs.
unfoldable pub step : Client → Completion → Client
unfolding completes handle
step c e =
    let d = record c { response = c.response ++ e.received } in
    if completes c.pending e.outcome c.response e.received then handle c.pending e d else d

unfoldable pub run : Client → List Completion → Client
run c [] = c
run c (e ∷ es) = run (step c e) es
