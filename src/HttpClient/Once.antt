-- ===== src/HttpClient/Once.antt =====
-- The callback is called once at most.
use boost_irc.Base.{
  Bool-cases, inl, inr, ℕ, suc, ◌+◌, ◌≤◌, ◌≡◌, refl, List, [], ◌∷◌, ◌++◌, Bytes, arith,
}
use boost_irc.HttpClient.{
  Action, connect_to, close_socket, send_request, print_error, call_back, Client, Completion,
  Pending, Outcome, success, eof, refused, resolve, write_request, status_line, headers, content,
  nothing, connect, create, completes, try_first, next_endpoint, step, run, handle, handle_resolve,
  handle_connect, handle_write_request, handle_read_status_line, handle_read_headers,
  handle_read_content,
}

abbrev pub callbacks : List Action → ℕ
callbacks [] = 0
callbacks (call_back b ∷ s) = suc (callbacks s)
callbacks (connect_to e ∷ s) = callbacks s
callbacks (close_socket ∷ s) = callbacks s
callbacks (send_request b ∷ s) = callbacks s
callbacks (print_error ∷ s) = callbacks s

callbacks-append : (s t : List Action) → callbacks (s ++ t) ≡ callbacks s + callbacks t
callbacks-append [] t = omega arith
callbacks-append (call_back b ∷ s) t = omega (arith, callbacks-append s t)
callbacks-append (connect_to e ∷ s) t = callbacks-append s t
callbacks-append (close_socket ∷ s) t = callbacks-append s t
callbacks-append (send_request b ∷ s) t = callbacks-append s t
callbacks-append (print_error ∷ s) t = callbacks-append s t

-- The callback was not called yet, or it was called once and nothing is awaited.
abbrev pub IsOnce : Pending → List Action → Type 0
IsOnce nothing acts = callbacks acts ≤ 1
IsOnce _ acts = callbacks acts ≡ 0

module _ (c : Client) where
  try_first-IsOnce :
      (before : List Action) (es : List ℕ)
      → callbacks before ≡ 0
      → callbacks c.actions ≡ 0
      → IsOnce (try_first before c es).pending (try_first before c es).actions
  try_first-IsOnce before [] b h = omega (arith, callbacks-append c.actions before)
  try_first-IsOnce before (e ∷ es) b h = omega (
    arith,
    callbacks-append c.actions (before ++ (connect_to e ∷ [])),
    callbacks-append before (connect_to e ∷ []),
  )

  failing-IsOnce : callbacks c.actions ≡ 0 → callbacks (c.actions ++ (print_error ∷ [])) ≤ 1
  failing-IsOnce h = omega (arith, callbacks-append c.actions (print_error ∷ []))

  abbrev AfterIsOnce : Client → Type 0
  AfterIsOnce d = callbacks c.actions ≡ 0 → IsOnce d.pending d.actions

  handle_resolve-IsOnce : (o : Outcome) (es : List ℕ) → AfterIsOnce (handle_resolve o es c)
  unfolding handle_resolve
  handle_resolve-IsOnce success es h = try_first-IsOnce [] es refl h
  handle_resolve-IsOnce eof es h = failing-IsOnce h
  handle_resolve-IsOnce refused es h = failing-IsOnce h

  next_endpoint-IsOnce : (es : List ℕ) → AfterIsOnce (next_endpoint es c)
  next_endpoint-IsOnce [] h = failing-IsOnce h
  next_endpoint-IsOnce (e ∷ es) h = try_first-IsOnce (close_socket ∷ []) (e ∷ es) refl h

  handle_connect-IsOnce : (o : Outcome) (es : List ℕ) → AfterIsOnce (handle_connect o es c)
  unfolding handle_connect
  handle_connect-IsOnce success es h =
      omega (arith, callbacks-append c.actions (send_request c.request ∷ []))
  handle_connect-IsOnce eof es h = next_endpoint-IsOnce es h
  handle_connect-IsOnce refused es h = next_endpoint-IsOnce es h

  handle_write_request-IsOnce : (o : Outcome) → AfterIsOnce (handle_write_request o c)
  unfolding handle_write_request
  handle_write_request-IsOnce success h = h
  handle_write_request-IsOnce eof h = failing-IsOnce h
  handle_write_request-IsOnce refused h = failing-IsOnce h

  handle_read_status_line-IsOnce : (o : Outcome) → AfterIsOnce (handle_read_status_line o c)
  unfolding handle_read_status_line
  handle_read_status_line-IsOnce success h = ground arith
  handle_read_status_line-IsOnce eof h = failing-IsOnce h
  handle_read_status_line-IsOnce refused h = failing-IsOnce h

  handle_read_headers-IsOnce : (o : Outcome) → AfterIsOnce (handle_read_headers o c)
  unfolding handle_read_headers
  handle_read_headers-IsOnce success h = h
  handle_read_headers-IsOnce eof h = failing-IsOnce h
  handle_read_headers-IsOnce refused h = failing-IsOnce h

  handle_read_content-IsOnce : (o : Outcome) → AfterIsOnce (handle_read_content o c)
  unfolding handle_read_content
  handle_read_content-IsOnce success h = h
  handle_read_content-IsOnce eof h =
      omega (arith, callbacks-append c.actions (call_back c.res ∷ close_socket ∷ []))
  handle_read_content-IsOnce refused h = failing-IsOnce h

handle-IsOnce :
    (c : Client) (p : Pending) (e : Completion)
    → p ≡ c.pending
    → IsOnce p c.actions
    → IsOnce (handle p e c).pending (handle p e c).actions
unfolding handle
handle-IsOnce c resolve e p h = handle_resolve-IsOnce c e.outcome e.endpoints h
handle-IsOnce c (connect es) e p h = handle_connect-IsOnce c e.outcome es h
handle-IsOnce c write_request e p h = handle_write_request-IsOnce c e.outcome h
handle-IsOnce c status_line e p h = handle_read_status_line-IsOnce c e.outcome h
handle-IsOnce c headers e p h = handle_read_headers-IsOnce c e.outcome h
handle-IsOnce c content e p h = handle_read_content-IsOnce c e.outcome h
handle-IsOnce c nothing e p h = rw (← p) h

step-IsOnce :
    (c : Client) (e : Completion)
    → IsOnce c.pending c.actions
    → IsOnce (step c e).pending (step c e).actions
unfolding step
step-IsOnce c e h =
    let d = record c { response = c.response ++ e.received } in
    elim (Bool-cases (completes c.pending e.outcome c.response e.received)) [
      | inl y ↦ rw (y, step) (handle-IsOnce d c.pending e refl h)
      | inr n ↦ rw (n, step) h
    ]

run-IsOnce :
    (c : Client) (es : List Completion)
    → IsOnce c.pending c.actions
    → IsOnce (run c es).pending (run c es).actions
unfolding run
run-IsOnce c [] h = h
run-IsOnce c (e ∷ es) h = run-IsOnce (step c e) es (step-IsOnce c e h)

-- However the operations of a request end, in any number: the callback is called at most once, and
-- after it the client waits for nothing more.
pub run-create-IsOnce :
    (server path : Bytes) (es : List Completion)
    → IsOnce (run (create server path) es).pending (run (create server path) es).actions
unfolding create
run-create-IsOnce server path es = run-IsOnce (create server path) es refl
