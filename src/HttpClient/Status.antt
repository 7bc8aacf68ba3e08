-- ===== src/HttpClient/Status.antt =====
-- The status line, as `handle_read_status_line` takes it from the stream with `>>` and getline.
use boost_irc.Base.{
  ℕ, ◌-◌, ◌^◌, ◌==◌, ltb, Bool, true, false, ◌&&◌, Option, none, some, [], ◌∷◌, Bytes,
  if◌then◌else◌,
}
use boost_irc.Irc.Reader.{getline}
use boost_irc.Irc.Stoi.{is_space, is_digit, skip_spaces, leading_digits, number}

-- `stream >> word` on a text: up to the next white space.
unfoldable pub word : Bytes → Bytes × Bytes
word [] = ([], [])
word (c ∷ s) = let (w, rest) = word s in if is_space c then ([], c ∷ s) else (c ∷ w, rest)

abbrev after_digits : Bytes → Bytes
after_digits [] = []
after_digits (c ∷ s) = if is_digit c then after_digits s else c ∷ s

-- `stream >> status_code`: a sign and digits, taken modulo 2^32 behind a minus sign; none, and the
-- stream fails, without a digit or beyond 32 bits.
to_unsigned : Bool → Bytes → Option ℕ
to_unsigned negative [] = none
to_unsigned negative (c ∷ s) =
    let n = number 0 (c ∷ s) in
    if ltb n (2 ^ 32) then some (if negative && ltb 0 n then 2 ^ 32 - n else n) else none

abbrev sign : Bytes → Bool × Bytes
sign [] = (false, [])
sign (c ∷ s) = if c == b'-' then (true, s) else if c == b'+' then (false, s) else (false, c ∷ s)

-- The version and the code, if the stream did not fail, and what stays in the buffer behind the
-- line. A failed `>>` leaves nothing for getline.
abbrev status_of : Bytes → Option ℕ → Bytes → Option (Bytes × ℕ) × Bytes
status_of [] code rest = (none, rest)
status_of (v ∷ version) none rest = (none, rest)
status_of (v ∷ version) (some code) [] = (none, [])
status_of (v ∷ version) (some code) (c ∷ s) = (some (v ∷ version, code), (getline (c ∷ s)).1)

unfoldable pub read_status : Bytes → Option (Bytes × ℕ) × Bytes
unfolding word to_unsigned skip_spaces leading_digits number getline
read_status s =
    let (version, behind) = word (skip_spaces s) in
    let (negative, digits) = sign (skip_spaces behind) in
    status_of version (to_unsigned negative (leading_digits digits)) (after_digits digits)
