-- ===== src/Irc/Stoi.antt =====
-- `std::stoi(text)` of the standard library, base 10: white space, a sign, the longest run of
-- digits; std::invalid_argument with no digit, std::out_of_range beyond an int.
use boost_irc.Base.{
  ℕ, ◌+◌, ◌-◌, ◌*◌, ◌^◌, ◌≤◌, ◌<◌, ◌≡◌, refl, Bool, true, false, ◌&&◌, ◌||◌, ◌==◌, leb, ltb, [],
  ◌∷◌, Bytes, arith, all, if◌then◌else◌,
}
use boost_irc.Irc.Effects.{Run, return, raise, invalid_argument, out_of_range}

-- An int: `negsuc n` is -(n + 1).
pub data ℤ : Type 0 where
  pos negsuc : ℕ → ℤ

abbrev pub is_space : ℕ → Bool
is_space c = c == 32 || (leb 9 c && leb c 13)

abbrev pub is_digit : ℕ → Bool
is_digit c = leb b'0' c && leb c b'9'

unfoldable pub skip_spaces : Bytes → Bytes
skip_spaces [] = []
skip_spaces (c ∷ s) = if is_space c then skip_spaces s else c ∷ s

unfoldable pub leading_digits : Bytes → Bytes
leading_digits [] = []
leading_digits (c ∷ s) = if is_digit c then c ∷ leading_digits s else []

unfoldable pub number : ℕ → Bytes → ℕ
number n [] = n
number n (c ∷ s) = number (n * 10 + (c - b'0')) s

pub to_int : Bool → Bytes → Run ℤ
unfolding number
to_int negative [] = raise invalid_argument
to_int negative (c ∷ s) =
    let n = number 0 (c ∷ s) in
    if negative
    then (if n == 0
        then return (pos 0)
        else if leb n (2 ^ 31)
        then return (negsuc (n - 1))
        else raise out_of_range)
    else (if ltb n (2 ^ 31) then return (pos n) else raise out_of_range)

abbrev signed : Bytes → Run ℤ
signed [] = to_int false []
signed (c ∷ s) =
    if c == b'-'
    then to_int true (leading_digits s)
    else if c == b'+'
    then to_int false (leading_digits s)
    else to_int false (leading_digits (c ∷ s))

unfoldable pub stoi : Bytes → Run ℤ
unfolding skip_spaces leading_digits to_int
stoi s = signed (skip_spaces s)

-- A text that starts with none of white space, sign and digit is no number.
pub stoi_word :
    (c : ℕ) (s : Bytes)
    → is_space c ≡ false
    → is_digit c ≡ false
    → c == b'-' ≡ false
    → c == b'+' ≡ false
    → stoi (c ∷ s) ≡ raise invalid_argument
unfolding stoi
stoi_word c s sp d m p = ground arith

-- Three digits, and then no further digit: a numeric reply of the protocol.
pub stoi_numeric :
    (a b c : ℕ) (s : Bytes)
    → a < 10
    → b < 10
    → c < 10
    → leading_digits s ≡ []
    → stoi ((48 + a) ∷ (48 + b) ∷ (48 + c) ∷ s) ≡ return (pos (a * 100 + b * 10 + c))
unfolding stoi
stoi_numeric a b c s ha hb hc hs = ground arith

leading_digits-all : (s : Bytes) → all is_digit s ≡ true → leading_digits s ≡ s
unfolding leading_digits
leading_digits-all [] h = refl
leading_digits-all (c ∷ s) h = ground (arith, leading_digits-all s)

-- A text of digits alone whose number is no int.
pub stoi_large :
    (c : ℕ) (s : Bytes)
    → all is_digit (c ∷ s) ≡ true
    → 2 ^ 31 ≤ number 0 (c ∷ s)
    → stoi (c ∷ s) ≡ raise out_of_range
unfolding stoi number
stoi_large c s h big = ground (arith, leading_digits-all (c ∷ s) h, leading_digits-all s)
