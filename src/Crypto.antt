-- ===== src/Crypto.antt =====
-- `Crypto::Base64` of web_socket_server/crypto.hpp, of which web_server/crypto.hpp is a copy. The
-- filter of OpenSSL is a parameter.
pub mod Sizes
pub mod Digest
use boost_irc.Base.{
  ℕ, zero, suc, ◌+◌, ◌*◌, ◌/◌, ◌≡◌, ◌<◌, All, Option, none, some, [], ◌∷◌, ◌++◌, Bytes, length,
  take, drop,
}

-- BIO_f_base64 without line feeds: what BIO_write and BIO_flush put out for a text, and what a text
-- is read as; none where BIO_read fails.
pub record Base64Filter : Type 0 where
  pub write : Bytes → Bytes
  pub read : Bytes → Option Bytes
  -- four characters for each three bytes, the last of them filled up
  pub length-write : (s : Bytes) → length (write s) ≡ 4 * ((length s + 2) / 3)
  pub read-write : (s : Bytes) → All (λ b. b < 256) s → read (write s) ≡ some s

-- `text.resize(n)` on an empty text
abbrev pub zeros : ℕ → Bytes
zeros zero = []
zeros (suc n) = 0 ∷ zeros n

-- `round(4*ceil((double)ascii.size()/3.0))`
abbrev pub base64_length : Bytes → ℕ
base64_length ascii = 4 * ((length ascii + 2) / 3)

-- A text is written to the front of a buffer.
abbrev pub overwrite : Bytes → Bytes → Bytes
overwrite buffer text = take (length buffer) text ++ drop (length text) buffer

-- `Base64::encode`
unfoldable pub encode : Base64Filter → Bytes → Bytes
encode filter ascii = overwrite (zeros (base64_length ascii)) (filter.write ascii)

-- `Base64::decode`: at most as many bytes are read as ascii has room for, and it is cut to them;
-- none where it is resized to -1, which throws.
unfoldable pub decode : Base64Filter → Bytes → Option Bytes
decode filter base64 = elim (filter.read base64) [
  | none ↦ none
  | some ascii ↦ some (take (6 * length base64 / 8) ascii)
]
