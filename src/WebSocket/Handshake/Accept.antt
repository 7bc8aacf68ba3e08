-- ===== src/WebSocket/Handshake/Accept.antt =====
-- The value of Sec-WebSocket-Accept, beside that of RFC 6455.
use boost_irc.Base.{
  ℕ, zero, suc, ◌+◌, ◌-◌, ◌/◌, ◌%◌, ◌^◌, ◌≤◌, ◌<◌, ◌≡◌, ◌≢◌, refl, ap, ltb, ltb-eq-false,
  Bool-cases, inl, inr, List, [], ◌∷◌, ◌++◌, Bytes, length, length-append, arith,
}
use boost_irc.Crypto.{encode}
use boost_irc.Crypto.Sizes.{length-encode}
use boost_irc.WebSocket.Handshake.{
  hex_digit, hex_from, hex, hex_all, hex_words, pad, Handshaker, accept_value, ws_magic_string,
}

length_kept : (k n : ℕ) (text : Bytes) → length text ≤ length (hex_from k n text)
unfolding hex_from
length_kept zero n text = omega arith
length_kept (suc k) n text = elim (Bool-cases (ltb n 16)) [
  | inl h ↦ rw h (omega arith)
  | inr h ↦ rw h (omega (arith, length_kept k (n / 16) (hex_digit (n % 16) ∷ text)))
]

more_digits :
    (k n : ℕ) (text : Bytes)
    → 16 ≤ n
    → hex_from (suc k) n text ≡ hex_from k (n / 16) (hex_digit (n % 16) ∷ text)
unfolding hex_from
more_digits k n text h = rw (ltb-eq-false n 16 h) refl

power_positive : (j : ℕ) → 0 < 16 ^ j
power_positive zero = omega arith
power_positive (suc j) = omega (arith, power_positive j)

quotient_bound : (j n : ℕ) → 16 ^ suc j ≤ n → 16 ^ j ≤ n / 16
quotient_bound j n h = omega (arith, h)

-- A number has more hexadecimal digits than the exponent of a power of 16 that it reaches.
digits_bound :
    (j k n : ℕ) (text : Bytes)
    → 16 ^ j ≤ n
    → j < k
    → suc j + length text ≤ length (hex_from k n text)
unfolding hex_from
digits_bound j zero n text h l = absurd (omega (arith, l))
digits_bound zero (suc k) n text h l = elim (Bool-cases (ltb n 16)) [
  | inl e ↦ rw e (omega arith)
  | inr e ↦ rw e (omega (arith, length_kept k (n / 16) (hex_digit (n % 16) ∷ text)))
]
digits_bound (suc j) (suc k) n text h l =
    rw (more_digits k n text (omega (arith, h, power_positive j))) (
      omega (
        arith,
        digits_bound j k (n / 16) (hex_digit (n % 16) ∷ text) (quotient_bound j n h)
            (omega (arith, l)),
      ))

-- The five words of a digest, of which the last four have six digits or more.
pub record IsLong (digest : List ℕ) : Type 0 where
  pub a : ℕ
  pub b : ℕ
  pub c : ℕ
  pub d : ℕ
  pub e : ℕ
  pub words : digest ≡ a ∷ b ∷ c ∷ d ∷ e ∷ []
  pub long : (2 ^ 20 ≤ b) × (2 ^ 20 ≤ c) × (2 ^ 20 ≤ d) × (2 ^ 20 ≤ e)

long_hex : (n : ℕ) → 2 ^ 20 ≤ n → 6 ≤ length (hex n)
unfolding hex
long_hex n h = omega (arith, digits_bound 5 8 n [] (omega (arith, h)) (omega arith))

hex_words-IsLong : (digest : List ℕ) → IsLong digest → 24 ≤ length (hex_words digest)
unfolding hex_words
hex_words-IsLong digest l = rw l.words (
    omega (
      arith,
      length-append (pad (8 - length (hex l.a)) (hex l.a)) (hex_all (l.b ∷ l.c ∷ l.d ∷ l.e ∷ [])),
      length-append (hex l.b) (hex_all (l.c ∷ l.d ∷ l.e ∷ [])),
      length-append (hex l.c) (hex_all (l.d ∷ l.e ∷ [])),
      length-append (hex l.d) (hex_all (l.e ∷ [])),
      length-append (hex l.e) [],
      long_hex l.b l.long.0,
      long_hex l.c l.long.1,
      long_hex l.d l.long.2,
      long_hex l.e l.long.3,
    ))

-- RFC 6455 asks for the base64 of the digest, which has twenty bytes. The server encodes its
-- hexadecimal digits, and so sends another value, wherever the last four words of the digest have
-- six digits or more.
pub accept_value-ne-base64 :
    (h : Handshaker) (key raw : Bytes)
    → IsLong (h.sha1 (key ++ ws_magic_string))
    → length raw ≡ 20
    → accept_value h key ≢ encode h.filter raw
unfolding accept_value
accept_value-ne-base64 h key raw l twenty e = omega (
  arith,
  ap length e,
  length-encode h.filter raw,
  length-encode h.filter (hex_words (h.sha1 (key ++ ws_magic_string))),
  hex_words-IsLong (h.sha1 (key ++ ws_magic_string)) l,
  twenty,
)
