-- ===== src/Crypto/Digest.antt =====
-- The digests of web_socket_server/crypto.hpp; OpenSSL's functions are a parameter.
use boost_irc.Base.{ℕ, ◌/◌, ◌≡◌, ◌∙◌, Bytes, length, sym}
use boost_irc.Crypto.{zeros, overwrite}
use boost_irc.Crypto.Sizes.{length-zeros, overwrite_fits}

pub data Algorithm : Type 0 where
  md5 sha1 sha256 sha512 : Algorithm

-- The bits of a digest.
abbrev pub bits : Algorithm → ℕ
bits md5 = 128
bits sha1 = 160
bits sha256 = 256
bits sha512 = 512

-- What Init, Update and Final give for a text.
pub record Digests : Type 0 where
  pub final : Algorithm → Bytes → Bytes
  pub length-final : (a : Algorithm) (input : Bytes) → length (final a input) ≡ bits a / 8

-- `MD5`, `SHA1`, `SHA256`, `SHA512`: the digest is written to a text of its size.
unfoldable pub hash : Digests → Algorithm → Bytes → Bytes
hash digests a input = overwrite (zeros (bits a / 8)) (digests.final a input)

-- All of the digest is in the text, and nothing else.
pub hash-eq-final :
    (digests : Digests) (a : Algorithm) (input : Bytes)
    → hash digests a input ≡ digests.final a input
unfolding hash
hash-eq-final digests a input =
    overwrite_fits (zeros (bits a / 8)) (digests.final a input)
      (length-zeros (bits a / 8) ∙ sym (digests.length-final a input))
