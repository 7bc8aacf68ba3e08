-- ===== src/Crypto/Sizes.antt =====
-- The sizes that `Base64::encode` and `Base64::decode` give their buffers fit.
use boost_irc.Base.{
  ℕ, zero, suc, ◌+◌, ◌*◌, ◌/◌, ◌≤◌, ◌≡◌, refl, ap, ◌∙◌, some, [], ◌∷◌, ◌++◌, Bytes, length, take,
  drop, length-take, length-drop, length-append, append-nil, arith, sym, ◌<◌, All,
}
use boost_irc.Crypto.{Base64Filter, zeros, base64_length, overwrite, encode, decode}

pub length-zeros : (n : ℕ) → length (zeros n) ≡ n
length-zeros zero = refl
length-zeros (suc n) = omega (arith, length-zeros n)

take_all : (n : ℕ) (s : Bytes) → length s ≤ n → take n s ≡ s
take_all zero [] l = refl
take_all (suc n) [] l = refl
take_all zero (c ∷ s) l = absurd (omega (arith, l))
take_all (suc n) (c ∷ s) l = ap (c ∷◌) (take_all n s (omega (arith, l)))

drop_all : (n : ℕ) (s : Bytes) → length s ≤ n → drop n s ≡ []
drop_all zero [] l = refl
drop_all (suc n) [] l = refl
drop_all zero (c ∷ s) l = absurd (omega (arith, l))
drop_all (suc n) (c ∷ s) l = drop_all n s (omega (arith, l))

length-overwrite : (buffer text : Bytes) → length (overwrite buffer text) ≡ length buffer
length-overwrite buffer text = omega (
  arith,
  length-append (take (length buffer) text) (drop (length text) buffer),
  length-take (length buffer) text,
  length-drop (length text) buffer,
)

pub length-encode :
    (filter : Base64Filter) (s : Bytes) → length (encode filter s) ≡ 4 * ((length s + 2) / 3)
unfolding encode
length-encode filter s =
    length-overwrite (zeros (base64_length s)) (filter.write s) ∙ length-zeros (base64_length s)

pub overwrite_fits :
    (buffer text : Bytes) → length buffer ≡ length text → overwrite buffer text ≡ text
overwrite_fits buffer text fits =
    ap (◌++ drop (length text) buffer) (take_all (length buffer) text (omega (arith, fits)))
    ∙ ap (text ++◌) (drop_all (length text) buffer (omega (arith, fits)))
    ∙ append-nil text

encode_fits : (filter : Base64Filter) (s : Bytes) → encode filter s ≡ filter.write s
unfolding encode
encode_fits filter s =
    overwrite_fits (zeros (base64_length s)) (filter.write s)
      (length-zeros (base64_length s) ∙ sym (filter.length-write s))

decode_step :
    (filter : Base64Filter) (s t : Bytes)
    → filter.read t ≡ some s
    → decode filter t ≡ some (take (6 * length t / 8) s)
unfolding decode
decode_step filter s t e = rw (e, decode) refl

-- A text of bytes that is encoded is decoded to itself: nothing of it is cut off, and nothing is
-- behind it.
pub decode-encode :
    (filter : Base64Filter) (s : Bytes)
    → All (λ b. b < 256) s
    → decode filter (encode filter s) ≡ some s
decode-encode filter s bytes =
    decode_step filter s (encode filter s)
      (ap filter.read (encode_fits filter s) ∙ filter.read-write s bytes)
    ∙ ap some
        (take_all (6 * length (encode filter s) / 8) s (omega (arith, length-encode filter s)))
