-- ===== src/Tests/Crypto.antt =====
-- Encoding and decoding, with a filter that has the size of base64.
use boost_irc.Base.{
  ◌+◌, ◌-◌, ◌*◌, ◌/◌, ◌≡◌, refl, ap, Option, some, [], ◌∷◌, ◌++◌, Bytes, length, length-append,
  take, arith,
}
use boost_irc.Std.Find.{take-length}
use boost_irc.Crypto.{Base64Filter, zeros}
use boost_irc.Crypto.Sizes.{length-zeros}

-- The length of the text, the text, and zeros.
abbrev write : Bytes → Bytes
write [] = []
write (c ∷ s) =
    length (c ∷ s) ∷ ((c ∷ s) ++ zeros (4 * ((length (c ∷ s) + 2) / 3) - length (c ∷ s) - 1))

abbrev read : Bytes → Option Bytes
read [] = some []
read (n ∷ s) = some (take n s)

pub length-write : (s : Bytes) → length (write s) ≡ 4 * ((length s + 2) / 3)
length-write [] = refl
length-write (c ∷ s) =
    let rest = 4 * ((length (c ∷ s) + 2) / 3) - length (c ∷ s) - 1 in
    omega (arith, length-append (c ∷ s) (zeros rest), length-zeros rest)

pub read-write : (s : Bytes) → read (write s) ≡ some s
read-write [] = refl
read-write (c ∷ s) = ap some (take-length (c ∷ s) _)

abbrev pub padded : Base64Filter
padded = record {
  write = write;
  read = read;
  length-write = length-write;
  read-write = λ s bytes. read-write s;
}
