-- ===== src/Serving/Tls/Context.antt =====
-- The TLS context that the constructors in web_server/server_https.hpp and
-- web_socket_server/server_wss.hpp set up; each call throws where its file cannot be used.
use boost_irc.Base.{
  ltb, Bool, true, false, List, [], ◌∷◌, Bytes, length, if◌then◌else◌, ◌≡◌, ◌↔◌, arith, Bool-cases,
}

pub data ContextCall : Type 0 where
  use_certificate_chain_file use_private_key_file load_verify_file : Bytes → ContextCall

-- The calls of the constructor, if none throws.
unfoldable pub context_calls : Bytes → Bytes → Bytes → List ContextCall
context_calls cert_file private_key_file verify_file =
    use_certificate_chain_file cert_file
    ∷ use_private_key_file private_key_file
    ∷ (if ltb 0 (length verify_file) then load_verify_file verify_file ∷ [] else [])

-- Whether a server is made, where `throws` tells which of the calls throw.
unfoldable pub is_made : (ContextCall → Bool) → List ContextCall → Bool
is_made throws [] = true
is_made throws (call ∷ calls) = if throws call then false else is_made throws calls

-- A server is made only with a certificate and a key that can be used, and with a file to verify
-- by only if one is named, which then can be used.
pub made-files :
    (throws : ContextCall → Bool) (cert_file private_key_file verify_file : Bytes)
    → (is_made throws (context_calls cert_file private_key_file verify_file) ≡ true) ↔ (
        (throws (use_certificate_chain_file cert_file) ≡ false)
        × (throws (use_private_key_file private_key_file) ≡ false)
        × (ltb 0 (length verify_file) ≡ true → throws (load_verify_file verify_file) ≡ false))
unfolding context_calls is_made
made-files throws cert_file private_key_file verify_file = ground (
  arith,
  Bool-cases (throws (use_certificate_chain_file cert_file)),
  Bool-cases (throws (use_private_key_file private_key_file)),
  Bool-cases (throws (load_verify_file verify_file)),
  Bool-cases (ltb 0 (length verify_file)),
)
