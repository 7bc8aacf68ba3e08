-- ===== src/Boost.antt =====
-- The Boost functions that the program calls, which are not part of the repository: the string
-- algorithms `join` and `split`, `boost::format`, and `boost::regex_search`. Each is an operation
-- of an interface, with the documented behaviour that the program relies on as a law.
pub mod Regex
pub mod Split
use boost_irc.Base.{ℕ, zero, suc, ◌≡◌, true, Option, none, some, List, [], ◌∷◌, ◌++◌, Bytes, lacks}

-- A format string, read: literal text and the place of an argument (`%1%` is `arg 0`).
pub data Piece : Type 0 where
  text : Bytes → Piece
  arg : ℕ → Piece

abbrev pub nth_or_nil : List Bytes → ℕ → Bytes
nth_or_nil [] n = []
nth_or_nil (x ∷ xs) zero = x
nth_or_nil (x ∷ xs) (suc n) = nth_or_nil xs n

-- What the manual says a format string yields: its text, each place replaced by its argument.
abbrev pub fill : List Piece → List Bytes → Bytes
fill [] args = []
fill (text t ∷ ps) args = t ++ fill ps args
fill (arg n ∷ ps) args = nth_or_nil args n ++ fill ps args

pub record StringAlgo : Type 0 where
  -- boost::algorithm::join(parts, separator)
  pub join : List Bytes → Bytes → Bytes
  pub join_nil : (sep : Bytes) → join [] sep ≡ []
  pub join_one : (x sep : Bytes) → join (x ∷ []) sep ≡ x
  pub join_more :
      (x y : Bytes) (r : List Bytes) (sep : Bytes)
      → join (x ∷ y ∷ r) sep ≡ x ++ (sep ++ join (y ∷ r) sep)
  -- boost::split(result, text, boost::is_any_of("c")), every separator ends a token
  pub split : Bytes → ℕ → List Bytes
  pub split_last : (s : Bytes) (c : ℕ) → lacks c s ≡ true → split s c ≡ s ∷ []
  pub split_more : (s r : Bytes) (c : ℕ) → lacks c s ≡ true → split (s ++ (c ∷ r)) c ≡ s ∷ split r c
  -- str(boost::format(pieces) % args…)
  pub format : List Piece → List Bytes → Bytes
  pub format_lem : (ps : List Piece) (args : List Bytes) → format ps args ≡ fill ps args
