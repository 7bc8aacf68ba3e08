-- ===== src/Tests/HttpClient.antt =====
-- The HTTP client on one request.
use boost_irc.Base.{ℕ, get_elem?, ◌≡◌, refl, some, none, [], ◌∷◌, ◌++◌, codes, equal}
use boost_irc.HttpClient.{
  Client, status_line, write_request, until, contains, completes, step, handle,
  handle_read_status_line, headers, create, run, request_text, connect_to, send_request,
}
use boost_irc.HttpClient.Status.{read_status}
use boost_irc.HttpClient.Body.{IsDelivered, received, chunks_read, end_of_file, run-response}
use boost_irc.HttpClient.Once.{IsOnce, run-create-IsOnce}
use boost_irc.HttpClient.Retry.{resolved, refusal, accepted, retries, run-accepted}
use boost_irc.Irc.Stoi.{pos}
use boost_irc.Bot.{decimal}
use boost_irc.JsonClient.{Trees, printed, create_json, outcomes, read_body, show_chatters}
use boost_irc.JsonClient.Response.{run-create_json}

read_status_runs :
    (read_status (codes "HTTP/1.0 200 OK\r\nA: b\r\n")
      ≡ (some (codes "HTTP/1.0", 200), codes "A: b\r\n"))
    × ((read_status (codes "HTTP/1.0 x\r\n")).0 ≡ none)
unfolding read_status
read_status_runs = (refl, refl)

-- The client when its request was written.
abbrev waiting : Client
waiting = record {
  pending = status_line;
  request = request_text (codes "tmi.twitch.tv") (codes "/");
  response = [];
  res = [];
  actions = [];
}

run-response_example : IsDelivered waiting (codes "hello you") (
    run waiting (
      received (codes "HTTP/1.0 200 OK\r\nA")
      ∷ received (codes ": b\r\n\r\nhel")
      ∷ chunks_read (codes "lo " ∷ codes "you" ∷ [])))
unfolding read_status equal until contains
run-response_example =
    run-response waiting (codes "HTTP/1.0 200 OK\r\nA") (codes "1.0") (codes "A")
      (codes ": b\r\n\r\nhel") (codes "hel") (codes "A: b\r" ∷ []) (codes "lo " ∷ codes "you" ∷ [])
      refl refl refl refl refl refl ((refl, refl), tt) refl

run-create-IsOnce_example :
    IsOnce
      (run
        (create (codes "h") (codes "/"))
        (resolved (1 ∷ []) ∷ accepted ∷ accepted ∷ end_of_file ∷ [])).pending
      (run
        (create (codes "h") (codes "/"))
        (resolved (1 ∷ []) ∷ accepted ∷ accepted ∷ end_of_file ∷ [])).actions
run-create-IsOnce_example =
    run-create-IsOnce (codes "h") (codes "/")
      (resolved (1 ∷ []) ∷ accepted ∷ accepted ∷ end_of_file ∷ [])

run-accepted_example :
    ((run
        (create (codes "h") (codes "/"))
        (resolved (1 ∷ 2 ∷ 3 ∷ []) ∷ refusal ∷ accepted ∷ [])).actions
      ≡ connect_to 1
        ∷ (retries (2 ∷ []) ++ (send_request (request_text (codes "h") (codes "/")) ∷ [])))
    × ((run
          (create (codes "h") (codes "/"))
          (resolved (1 ∷ 2 ∷ 3 ∷ []) ∷ refusal ∷ accepted ∷ [])).pending
        ≡ write_request)
run-accepted_example = run-accepted (codes "h") (codes "/") 1 (2 ∷ []) (3 ∷ [])

-- Trees that are numbers, of which the text is one byte.
abbrev numbers : Trees ℕ
numbers = record {
  read_json = λ s. get_elem? s 0;
  get_child = λ name n. some n;
  get_int = λ n. some (pos n);
}

run-create_json_example :
    outcomes numbers
      (show_chatters numbers)
      (run (create_json (codes "h") (codes "/")) (
        resolved (1 ∷ [])
        ∷ accepted
        ∷ accepted
        ∷ received (codes "HTTP/1.0 200 OK\r\n")
        ∷ received (codes "A: b\r\n\r\n7")
        ∷ chunks_read (codes " " ∷ []))).actions
    ≡ printed (codes "55\n") ∷ []
unfolding read_body show_chatters decimal read_status equal until contains
run-create_json_example =
    run-create_json numbers (show_chatters numbers) (codes "h") (codes "/") 1 []
      (codes "HTTP/1.0 200 OK\r\n") (codes "1.0") [] (codes "A: b\r\n\r\n7") (codes "7")
      (codes "A: b\r" ∷ []) (codes " " ∷ []) refl refl refl ((refl, refl), tt) refl

-- Without a header line there is no line end with a blank line behind it, so the client waits on.
no_headers_runs :
    (run waiting (received (codes "HTTP/1.0 200 OK\r\n\r\nhello") ∷ received [] ∷ [])).pending
    ≡ headers
unfolding read_status equal until contains run step completes handle handle_read_status_line
no_headers_runs = refl
