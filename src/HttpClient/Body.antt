-- ===== src/HttpClient/Body.antt =====
-- What the callback gets of a response with the status 200 and headers.
use boost_irc.Base.{
  ℕ, zero, suc, ◌≤◌, ◌≡◌, refl, sym, subst, ap, ◌∙◌, true, false, List, [], ◌∷◌, ◌++◌, Bytes, codes,
  length, lacks, equal, length-append, append_assoc, append-nil, arith, if◌then◌else◌, some, concat,
}
use boost_irc.Irc.Reader.{getline}
use boost_irc.HttpClient.Status.{read_status}
use boost_irc.HttpClient.{
  Client, Completion, success, eof, call_back, close_socket, nothing, content, headers, status_line,
  step, run, handle, until, completes, skip_headers, handle_read_status_line, handle_read_headers,
  handle_read_content,
}

pub getline-line :
    (line rest : Bytes) → lacks b'\n' line ≡ true → getline (line ++ (b'\n' ∷ rest)) ≡ (line, rest)
unfolding getline
getline-line [] rest h = refl
getline-line (c ∷ line) rest h = ground (arith, getline-line line rest)

-- A header line: no line feed in it, and not the blank one.
abbrev pub IsHeader : Bytes → Type 0
IsHeader line = (lacks b'\n' line ≡ true) × (equal line (codes "\r") ≡ false)

abbrev pub AreHeaders : List Bytes → Type 0
AreHeaders [] = Unit
AreHeaders (line ∷ ls) = IsHeader line × AreHeaders ls

-- The header lines, each with its line feed, and the blank line.
abbrev pub header_text : List Bytes → Bytes
header_text [] = codes "\r\n"
header_text (line ∷ ls) = line ++ (b'\n' ∷ header_text ls)

-- One round of the loop.
skip_headers_step :
    (fuel : ℕ) (line rest : Bytes)
    → lacks b'\n' line ≡ true
    → skip_headers (suc fuel) (line ++ (b'\n' ∷ rest))
      ≡ (if equal line (codes "\r") then rest else skip_headers fuel rest)
unfolding skip_headers
skip_headers_step fuel [] rest h = rw (getline-line [] rest refl)
skip_headers_step fuel (c ∷ line) rest h = rw (getline-line (c ∷ line) rest h)

-- The loop ends behind the blank line: what stays in the buffer is the body.
pub skip_headers-header_text :
    (ls : List Bytes) (body : Bytes) (fuel : ℕ)
    → AreHeaders ls
    → length (header_text ls) ≤ fuel
    → skip_headers fuel (header_text ls ++ body) ≡ body
unfolding equal
skip_headers-header_text [] body zero h l = absurd (omega arith)
skip_headers-header_text [] body (suc fuel) h l = skip_headers_step fuel (codes "\r") body refl
skip_headers-header_text (line ∷ ls) body zero h l =
    absurd (omega (arith, length-append line (b'\n' ∷ header_text ls)))
skip_headers-header_text (line ∷ ls) body (suc fuel) h l =
    rw (append_assoc line (b'\n' ∷ header_text ls) body) (
      skip_headers_step fuel line (header_text ls ++ body) h.0.0
      ∙ rw h.0.1 (
          skip_headers-header_text ls body fuel h.1
            (omega (arith, length-append line (b'\n' ∷ header_text ls)))))

-- A read that succeeds with a text, and the end of the file.
abbrev pub received : Bytes → Completion
received t = record { outcome = success; endpoints = []; received = t }

abbrev pub end_of_file : Completion
end_of_file = record { outcome = eof; endpoints = []; received = [] }

abbrev pub chunks_read : List Bytes → List Completion
chunks_read [] = end_of_file ∷ []
chunks_read (t ∷ ts) = received t ∷ chunks_read ts

-- The client has called back with the body and is done.
abbrev pub IsDelivered : Client → Bytes → Client → Type 0
IsDelivered c body d =
    (d.pending ≡ nothing) × (d.actions ≡ c.actions ++ (call_back body ∷ close_socket ∷ []))

content_step :
    (c : Client) (t : Bytes)
    → c.pending ≡ content
    → c.response ≡ []
    → step c (received t) ≡ record c { pending = content; response = []; res = c.res ++ t }
unfolding step completes handle handle_read_content
content_step c t p r = ground arith

content_ends : (c : Client) → c.pending ≡ content → IsDelivered c c.res (step c end_of_file)
unfolding step completes handle handle_read_content
content_ends c p = ground arith

-- A run, after a step that is known.
after_step :
    (c d : Client) (e : Completion) (es : List Completion) (x : Client) (body : Bytes)
    → step c e ≡ d
    → IsDelivered x body (run d es)
    → IsDelivered x body (run c (e ∷ es))
unfolding run
after_step c d e es x body q h = subst (λ y. IsDelivered x body (run y es)) (sym q) h

-- Every chunk that is read is handed over, in order, when the file ends.
run-chunks :
    (ts : List Bytes) (c : Client)
    → c.pending ≡ content
    → c.response ≡ []
    → IsDelivered c (c.res ++ concat ts) (run c (chunks_read ts))
unfolding run
run-chunks [] c p r = rw (append-nil c.res) (content_ends c p)
run-chunks (t ∷ ts) c p r =
    let d = record c { pending = content; response = []; res = c.res ++ t } in
    after_step c d (received t) (chunks_read ts) c (c.res ++ (t ++ concat ts))
      (content_step c t p r)
      (subst (λ b. IsDelivered d b (run d (chunks_read ts))) (append_assoc c.res t (concat ts))
        (run-chunks ts d refl refl))

status_step :
    (c : Client) (r version rest : Bytes)
    → c.pending ≡ status_line
    → c.response ≡ []
    → until (codes "\r\n") [] r ≡ true
    → read_status r ≡ (some (codes "HTTP/" ++ version, 200), rest)
    → step c (received r) ≡ record c { pending = headers; response = rest }
unfolding step completes handle handle_read_status_line equal
status_step c r version rest p e u h = ground arith

headers_step :
    (c : Client) (t body : Bytes) (ls : List Bytes)
    → c.pending ≡ headers
    → until (codes "\r\n\r\n") c.response t ≡ true
    → AreHeaders ls
    → c.response ++ t ≡ header_text ls ++ body
    → step c (received t) ≡ record c { pending = content; response = []; res = c.res ++ body }
unfolding step completes handle handle_read_headers
headers_step c t body ls p u h e = ground (
  arith,
  skip_headers-header_text ls body (length (header_text ls ++ body)) h
      (omega (arith, length-append (header_text ls) body)),
)

-- A response with the status 200 and headers reaches the callback: what follows the blank line, in
-- however many reads it comes, once the file ends; and nothing else is done. The read of the status
-- line brings its line end, and that of the headers a line end with a blank line behind it, as
-- async_read_until has it: such a read succeeds with nothing where its delimiter was in the buffer
-- before, and else with a text that brings the delimiter.
pub run-response :
    (c : Client) (r version rest t body : Bytes) (ls ts : List Bytes)
    → c.pending ≡ status_line
    → c.response ≡ []
    → c.res ≡ []
    → until (codes "\r\n") [] r ≡ true
    → read_status r ≡ (some (codes "HTTP/" ++ version, 200), rest)
    → until (codes "\r\n\r\n") rest t ≡ true
    → AreHeaders ls
    → rest ++ t ≡ header_text ls ++ body
    → IsDelivered c (body ++ concat ts) (run c (received r ∷ received t ∷ chunks_read ts))
unfolding run
run-response c r version rest t body ls ts p e z u h v hs split =
    let c1 = record c { pending = headers; response = rest } in
    let c2 = record c1 { pending = content; response = []; res = c.res ++ body } in
    after_step c c1 (received r) (received t ∷ chunks_read ts) c (body ++ concat ts)
      (status_step c r version rest p e u h)
      (after_step c1 c2 (received t) (chunks_read ts) c (body ++ concat ts)
        (headers_step c1 t body ls refl v hs split)
        (subst (λ b. IsDelivered c2 b (run c2 (chunks_read ts)))
          (ap (λ z. (z ++ body) ++ concat ts) z) (run-chunks ts c2 refl refl)))
