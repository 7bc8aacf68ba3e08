-- ===== src/JsonClient/Response.antt =====
-- The response to a request for JSON.
use boost_irc.Base.{true, ℕ, ◌≡◌, refl, ap, ◌∙◌, some, List, [], ◌∷◌, ◌++◌, Bytes, codes, concat}
use boost_irc.HttpClient.{
  connect_to, close_socket, send_request, call_back, Client, Completion, status_line, create, run,
  completes, until, step, handle, handle_resolve, handle_connect, handle_write_request,
  request_text,
}
use boost_irc.HttpClient.Status.{read_status}
use boost_irc.HttpClient.Body.{AreHeaders, header_text, received, chunks_read, run-response}
use boost_irc.HttpClient.Retry.{resolved, accepted}
use boost_irc.JsonClient.{
  Trees, Outcome, printed, thrown, read_body, outcomes_behind, outcomes, create_json,
}

-- The client when the first endpoint has accepted and the request was written.
abbrev asked : Bytes → Bytes → ℕ → Client
asked server path e = record {
  pending = status_line;
  request = [];
  response = [];
  res = [];
  actions = connect_to e ∷ send_request (request_text server path) ∷ [];
}

create-asked :
    (server path : Bytes) (e : ℕ) (es : List ℕ) (cs : List Completion)
    → run (create_json server path) (resolved (e ∷ es) ∷ accepted ∷ accepted ∷ cs)
      ≡ run (asked server path e) cs
unfolding run create step completes handle handle_resolve handle_connect handle_write_request
create-asked server path e es cs = refl

module _ {Tree : Type 0} (trees : Trees Tree) (json_cb : Tree → Outcome) where
  outcomes-one : (o : Outcome) → outcomes_behind o [] ≡ o ∷ []
  outcomes-one (printed text) = refl
  outcomes-one thrown = refl

  outcomes-asked :
      (server path : Bytes) (e : ℕ) (body : Bytes)
      → outcomes trees json_cb
          ((asked server path e).actions ++ (call_back body ∷ close_socket ∷ []))
        ≡ read_body trees json_cb body ∷ []
  unfolding outcomes
  outcomes-asked server path e body = outcomes-one (read_body trees json_cb body)

  -- A request for JSON whose first endpoint accepts, and whose response has HTTP/ and 200 in its
  -- status line, header lines and a blank line, has one outcome, when the file ends: that of the
  -- callback on the tree that is read from all that is behind the blank line, in however many
  -- reads it comes; or, where no tree can be read from it, an exception. The reads of the status
  -- line and of the headers bring what async_read_until waits for: a line end, and a line end with
  -- a blank line behind it.
  pub run-create_json :
      (server path : Bytes) (e : ℕ) (es : List ℕ) (r version rest t body : Bytes)
      (ls ts : List Bytes)
      → until (codes "\r\n") [] r ≡ true
      → read_status r ≡ (some (codes "HTTP/" ++ version, 200), rest)
      → until (codes "\r\n\r\n") rest t ≡ true
      → AreHeaders ls
      → rest ++ t ≡ header_text ls ++ body
      → outcomes trees json_cb
          (run (create_json server path) (
            resolved (e ∷ es)
            ∷ accepted
            ∷ accepted
            ∷ received r
            ∷ received t
            ∷ chunks_read ts)).actions
        ≡ read_body trees json_cb (body ++ concat ts) ∷ []
  run-create_json server path e es r version rest t body ls ts u h v hs split =
      let cs = received r ∷ received t ∷ chunks_read ts in
      let delivered =
        run-response (asked server path e) r version rest t body ls ts refl refl refl u h v hs
          split in
      ap (λ d. outcomes trees json_cb (d.actions)) (create-asked server path e es cs)
      ∙ ap (outcomes trees json_cb) delivered.1
      ∙ outcomes-asked server path e (body ++ concat ts)
