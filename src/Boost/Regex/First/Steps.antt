-- ===== src/Boost/Regex/First/Steps.antt =====
-- How the first match goes on over the parts of a text.
use boost_irc.Base.{
  ℕ, zero, suc, ◌≤◌, ◌≡◌, refl, not, Bool, true, false, Option, none, some, [], ◌∷◌, ◌++◌, Bytes,
  length, all, arith, append_assoc, append-nil,
}
use boost_irc.Boost.Regex.{Groups}
use boost_irc.Boost.Regex.First.{Next, or_next, begins_with, rounds, lazy_rounds, one_byte}

pub or_next-first : (a b : Option Groups) (out : Groups) → a ≡ some out → or_next a b ≡ some out
or_next-first a b out e = rw e refl

pub or_next-second :
    (a b : Option Groups) (out : Groups) → a ≡ none → b ≡ some out → or_next a b ≡ some out
or_next-second a b out e f = rw e f

pub one_byte-none :
    (p : ℕ → Bool) (before rest : Bytes) (gs : Groups) (next : Next)
    → begins_with p rest ≡ false
    → one_byte p before rest gs next ≡ none
one_byte-none p before [] gs next h = refl
one_byte-none p before (c ∷ rest) gs next h = rw h refl

module _ (p : ℕ → Bool) (out : Groups) where
  pub one_byte_step :
      (next : Next) (before rest : Bytes) (c : ℕ) (gs : Groups)
      → p c ≡ true
      → next (before ++ (c ∷ [])) rest gs ≡ some out
      → one_byte p before (c ∷ rest) gs next ≡ some out
  one_byte_step next before rest c gs h e = rw h e

  -- A greedy run over a class takes all bytes of the class.
  pub rounds_full :
      (next : Next) (n : ℕ) (before xs rest : Bytes) (gs : Groups)
      → all p xs ≡ true
      → length xs ≤ n
      → begins_with p rest ≡ false
      → next (before ++ xs) rest gs ≡ some out
      → rounds (one_byte p) n before (xs ++ rest) gs next ≡ some out
  unfolding rounds
  rounds_full next zero before [] rest gs a l h e = rw (append-nil before) at e
  rounds_full next zero before (c ∷ xs) rest gs a l h e = absurd (omega (arith, l))
  rounds_full next (suc n) before [] rest gs a l h e =
      or_next-second (one_byte p before rest gs (λ b r g. rounds (one_byte p) n b r g next)) _ out
        (one_byte-none p before rest gs _ h) (rw (append-nil before) at e)
  rounds_full next (suc n) before (c ∷ xs) rest gs a l h e =
      let head : p c ≡ true = ground (arith, a) in
      or_next-first
        (one_byte p before (c ∷ (xs ++ rest)) gs (λ b r g. rounds (one_byte p) n b r g next))
        (next before (c ∷ (xs ++ rest)) gs) out
        (one_byte_step (λ b r g. rounds (one_byte p) n b r g next) before (xs ++ rest) c gs head
          (rounds_full next n (before ++ (c ∷ [])) xs rest gs (ground (arith, a)) (omega (arith, l))
            h (rw (append_assoc before (c ∷ []) xs) e)))

  -- A lazy run over a text is as long as nothing goes on within the text.
  pub lazy_rounds_full :
      (next : Next) (q : ℕ → Bool)
      → ((b r : Bytes) (g : Groups) → begins_with q r ≡ false → next b r g ≡ none)
      → (n : ℕ) (before xs rest : Bytes) (gs : Groups) → all (λ c. not (q c)) xs ≡ true
      → all p xs ≡ true
      → length xs ≤ n
      → next (before ++ xs) rest gs ≡ some out
      → lazy_rounds (one_byte p) n before (xs ++ rest) gs next ≡ some out
  unfolding lazy_rounds
  lazy_rounds_full next q stuck zero before [] rest gs b a l e = rw (append-nil before) at e
  lazy_rounds_full next q stuck zero before (c ∷ xs) rest gs b a l e = absurd (omega (arith, l))
  lazy_rounds_full next q stuck (suc n) before [] rest gs b a l e =
      or_next-first _ _ out (rw (append-nil before) at e)
  lazy_rounds_full next q stuck (suc n) before (c ∷ xs) rest gs b a l e =
      let head : p c ≡ true = ground (arith, a) in
      or_next-second (next before (c ∷ (xs ++ rest)) gs)
        (one_byte p before (c ∷ (xs ++ rest)) gs (λ b r g. lazy_rounds (one_byte p) n b r g next))
        out (stuck before (c ∷ (xs ++ rest)) gs (ground (arith, b)))
        (one_byte_step (λ b r g. lazy_rounds (one_byte p) n b r g next) before (xs ++ rest) c gs
          head
          (lazy_rounds_full next q stuck n (before ++ (c ∷ [])) xs rest gs (ground (arith, b))
            (ground (arith, a)) (omega (arith, l)) (rw (append_assoc before (c ∷ []) xs) e)))
