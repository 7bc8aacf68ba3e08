-- ===== src/HttpServer/Number.antt =====
-- The numbers that web_server/server_http.hpp reads from a request: `stoull` of Content-Length, and
-- whether `stof` of the version is above 1.05.
use boost_irc.Base.{
  ℕ, ◌+◌, ◌-◌, ◌*◌, ◌^◌, ◌==◌, ltb, leb, Bool, true, false, not, ◌&&◌, Option, none, some, [], ◌∷◌,
  ◌++◌, Bytes, length, if◌then◌else◌, drop, take, ◌||◌, equal, codes, map,
}
use boost_irc.Irc.Stoi.{skip_spaces, leading_digits, number}

abbrev pub sign : Bytes → Bool × Bytes
sign [] = (false, [])
sign (c ∷ s) = if c == b'-' then (true, s) else if c == b'+' then (false, s) else (false, c ∷ s)

-- The number of some digits: negated modulo 2^64 behind a minus sign, and out of range from 2^64 on.
abbrev pub to_size : Bool → Bytes → Option ℕ
to_size negative [] = none
to_size negative (d ∷ ds) =
    let n = number 0 (d ∷ ds) in
    if ltb n (2 ^ 64) then some (if negative && ltb 0 n then 2 ^ 64 - n else n) else none

-- `std::stoull(text)`; none where it throws.
unfoldable pub stoull : Bytes → Option ℕ
unfolding skip_spaces leading_digits number
stoull s = let (negative, t) = sign (skip_spaces s) in to_size negative (leading_digits t)

-- The digits behind a point, if there is one, and what is behind them.
abbrev pub fraction : Bytes → Bytes × Bytes
fraction [] = ([], [])
fraction (c ∷ s) =
    if c == b'.' then (leading_digits s, drop (length (leading_digits s)) s) else ([], c ∷ s)

-- An exponent, if there is one: whether it is negative, and its digits.
abbrev pub exponent : Bytes → Bool × ℕ
exponent [] = (false, 0)
exponent (c ∷ s) =
    let (negative, t) = sign s in
    if c == b'e' || c == b'E' then (negative, number 0 (leading_digits t)) else (false, 0)

-- Whether the float that is nearest to n / 10^k is above 1.05: the last float below 1.05 is
-- 8808038 / 2^23, and what lies at most half way to the next one is rounded to it. None where the
-- number is beyond the floats.
abbrev pub above : ℕ → ℕ → Option Bool
above n k =
    if leb ((2 ^ 128 - 2 ^ 103) * 10 ^ k) n
    then none
    else some (ltb (17616077 * 10 ^ k) (n * 2 ^ 24))

abbrev pub scaled : ℕ → ℕ → Bool × ℕ → Option Bool
scaled n k (negative, e) = if negative then above n (k + e) else above (n * 10 ^ e) k

abbrev pub negated : Bool → Option Bool → Option Bool
negated negative none = none
negated negative (some b) = some (not negative && b)

abbrev pub above_digits : Bool → Bytes → Bytes → Bytes → Option Bool
above_digits negative [] [] rest = none
above_digits negative whole part rest =
    negated negative (scaled (number 0 (whole ++ part)) (length part) (exponent rest))

abbrev pub lower : ℕ → ℕ
lower c = if leb b'A' c && leb c b'Z' then c + 32 else c

-- A text behind its sign: a decimal number, infinity, or not a number.
abbrev pub above_unsigned : Bool → Bytes → Option Bool
above_unsigned negative t =
    let word = map lower (take 3 t) in
    let whole = leading_digits t in
    let (part, rest) = fraction (drop (length whole) t) in
    if equal word (codes "inf")
    then some (not negative)
    else if equal word (codes "nan")
    then some false
    else above_digits negative whole part rest

-- `http_version=std::stof(text)` and `http_version>1.05`; none where stof throws. Of a hexadecimal
-- number only its 0 is read here, and a number below the floats is not above.
unfoldable pub is_above : Bytes → Option Bool
unfolding skip_spaces leading_digits number equal
is_above s = let (negative, t) = sign (skip_spaces s) in above_unsigned negative t
