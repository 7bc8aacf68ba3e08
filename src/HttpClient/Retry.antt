-- ===== src/HttpClient/Retry.antt =====
-- The endpoints of the server are tried one after the other.
use boost_irc.Base.{
  ℕ, ◌≡◌, refl, ap, ◌∙◌, List, [], ◌∷◌, ◌++◌, Bytes, append_assoc, append-nil, arith,
}
use boost_irc.HttpClient.{
  Action, connect_to, close_socket, send_request, print_error, Client, Completion, success, refused,
  nothing, connect, write_request, completes, step, run, handle, handle_resolve, handle_connect,
  create, request_text,
}

abbrev pub refusal : Completion
refusal = record { outcome = refused; endpoints = []; received = [] }

abbrev pub accepted : Completion
accepted = record { outcome = success; endpoints = []; received = [] }

abbrev pub resolved : List ℕ → Completion
resolved es = record { outcome = success; endpoints = es; received = [] }

-- The first endpoints refuse, one after the other.
abbrev pub refusals : List ℕ → List Completion
refusals [] = []
refusals (e ∷ es) = refusal ∷ refusals es

-- Each further endpoint: the socket is closed and connected anew.
abbrev pub retries : List ℕ → List Action
retries [] = []
retries (e ∷ es) = close_socket ∷ connect_to e ∷ retries es

refused_step :
    (c : Client) (e : ℕ) (es : List ℕ)
    → c.pending ≡ connect (e ∷ es)
    → c.response ≡ []
    → step c refusal ≡ record c {
      pending = connect es;
      actions = c.actions ++ (close_socket ∷ connect_to e ∷ []);
      response = [];
    }
unfolding step completes handle handle_connect
refused_step c e es p r = ground arith

-- The client after the endpoints `es` were tried, with `later` left.
tried : Client → List ℕ → List ℕ → Client
tried c es later = record c {
  pending = connect later;
  actions = c.actions ++ retries es;
  response = [];
}

tried_none :
    (c : Client) (later : List ℕ)
    → c.pending ≡ connect later
    → c.response ≡ []
    → c ≡ tried c [] later
unfolding tried
tried_none c later p r = ground (arith, append-nil c.actions)

run_retries :
    (c : Client) (es later : List ℕ) (more : List Completion)
    → c.pending ≡ connect (es ++ later)
    → c.response ≡ []
    → run c (refusals es ++ more) ≡ run (tried c es later) more
unfolding run tried
run_retries c [] later more p r = ap (λ d. run d more) (tried_none c later p r)
run_retries c (e ∷ es) later more p r =
    ap (λ d. run d (refusals es ++ more)) (refused_step c e (es ++ later) p r)
    ∙ run_retries
        (record c {
          pending = connect (es ++ later);
          actions = c.actions ++ (close_socket ∷ connect_to e ∷ []);
          response = [];
        })
        es later more refl refl
    ∙ ap (λ x. run (record c { pending = connect later; actions = x; response = [] }) more)
        (append_assoc c.actions _ (retries es))

module _ (server path : Bytes) (e : ℕ) (es : List ℕ) where
  -- The client when the resolver has found endpoints.
  abbrev found : List ℕ → Client
  found later = record (create server path) {
    pending = connect (es ++ later);
    actions = connect_to e ∷ [];
    response = [];
  }

  step-resolved :
      (later : List ℕ) → step (create server path) (resolved (e ∷ (es ++ later))) ≡ found later
  unfolding step completes handle handle_resolve create
  step-resolved later = refl

  after_refusals :
      (later : List ℕ) (more : List Completion)
      → run (create server path) (resolved (e ∷ (es ++ later)) ∷ (refusals es ++ more))
        ≡ run (tried (found later) es later) more
  unfolding run
  after_refusals later more =
      ap (λ c. run c (refusals es ++ more)) (step-resolved later)
      ∙ run_retries (found later) es later more refl refl

  -- The endpoints are tried in their order, each once and with the socket closed in between; the
  -- first that accepts gets the request, and the others are not tried.
  pub run-accepted :
      (later : List ℕ)
      → ((run
            (create server path)
            (resolved (e ∷ (es ++ later)) ∷ (refusals es ++ (accepted ∷ [])))).actions
          ≡ connect_to e ∷ (retries es ++ (send_request (request_text server path) ∷ [])))
        × ((run
              (create server path)
              (resolved (e ∷ (es ++ later)) ∷ (refusals es ++ (accepted ∷ [])))).pending
            ≡ write_request)
  unfolding run step handle handle_connect create tried
  run-accepted later = (
    ap (λ c. c.actions) (after_refusals later (accepted ∷ [])),
    ap (λ c. c.pending) (after_refusals later (accepted ∷ [])),
  )

  -- Where every endpoint refuses, each was tried once, the error is printed, and the client stops.
  pub run-refused :
      ((run
          (create server path)
          (resolved (e ∷ (es ++ [])) ∷ (refusals es ++ (refusal ∷ [])))).actions
        ≡ connect_to e ∷ (retries es ++ (print_error ∷ [])))
      × ((run
            (create server path)
            (resolved (e ∷ (es ++ [])) ∷ (refusals es ++ (refusal ∷ [])))).pending
          ≡ nothing)
  unfolding run step handle handle_connect create tried
  run-refused = (
    ap (λ c. c.actions) (after_refusals [] (refusal ∷ [])),
    ap (λ c. c.pending) (after_refusals [] (refusal ∷ [])),
  )
