-- ===== src/Boost/Regex/First/Goes.antt =====
-- Parts that are sound: what goes on behind them goes on behind a match.
use boost_irc.Base.{
  ℕ, zero, suc, ◌≤◌, ◌≡◌, ◌⊎◌, inl, inr, refl, sym, ap, ◌∙◌, subst, Option, none, some, [], ◌++◌,
  Bytes, arith, append_assoc, append-nil,
}
use boost_irc.Boost.Regex.{Groups, Match, Then, Times}
use boost_irc.Boost.Regex.First.{Next, or_next, rounds, lazy_rounds}

abbrev pub Part : Type 0
Part = Bytes → Bytes → Groups → Next → Option Groups

-- A match of a part and what goes on behind it.
pub record Goes (m : Match) (before rest : Bytes) (gs : Groups) (next : Next) (out : Groups)
    : Type 0 where
  pub text : Bytes
  pub left : Bytes
  pub own : Groups
  pub splits : rest ≡ text ++ left
  pub matches : m before text left own
  pub goes_on : next (before ++ text) left (gs ++ own) ≡ some out

abbrev pub IsSound : Part → Match → Type 0
IsSound part m =
    (before rest : Bytes) (gs : Groups) (next : Next) (out : Groups)
    → part before rest gs next ≡ some out
    → Goes m before rest gs next out

pub or_next-some :
    (a b : Option Groups) (out : Groups) → or_next a b ≡ some out → (a ≡ some out) ⊎ (b ≡ some out)
or_next-some none b out e = inr e
or_next-some (some gs) b out e = inl e

-- Nothing is matched.
pub Goes-nil :
    (m : Match) (before rest : Bytes) (gs : Groups) (next : Next) (out : Groups)
    → m before [] rest []
    → next before rest gs ≡ some out
    → Goes m before rest gs next out
Goes-nil m before rest gs next out h e = record {
  text = [];
  left = rest;
  own = [];
  splits = refl;
  matches = h;
  goes_on = rw (append-nil before, append-nil gs) e;
}

-- One part behind another.
pub Goes-Then :
    (m n : Match) (before rest : Bytes) (gs : Groups) (next : Next) (out : Groups)
    (a : (t : Bytes) × (u : Bytes) × (g : Groups) × (rest ≡ t ++ u)
      × m before t u g
      × Goes n (before ++ t) u (gs ++ g) next out)
    → Goes (Then m n) before rest gs next out
Goes-Then m n before rest gs next out (t, u, g, e, h, i) = record {
  text = t ++ i.text;
  left = i.left;
  own = g ++ i.own;
  splits = e ∙ ap (t ++◌) i.splits ∙ sym (append_assoc t i.text i.left);
  matches = (t, i.text, g, i.own, refl, refl, subst (λ v. m before t v g) i.splits h, i.matches);
  goes_on = rw (← append_assoc before t i.text, ← append_assoc gs g i.own) i.goes_on;
}

pub Goes-map :
    (m n : Match) (before rest : Bytes) (gs : Groups) (next : Next) (out : Groups)
    → ((text after : Bytes) (g : Groups) → m before text after g → n before text after g)
    → Goes m before rest gs next out
    → Goes n before rest gs next out
Goes-map m n before rest gs next out f i = record {
  text = i.text;
  left = i.left;
  own = i.own;
  splits = i.splits;
  matches = f i.text i.left i.own i.matches;
  goes_on = i.goes_on;
}

-- What goes on is a part itself.
pub Goes-chain :
    (m n : Match) (part : Part) (before rest : Bytes) (gs : Groups) (next : Next) (out : Groups)
    → IsSound part n
    → Goes m before rest gs (λ b t g. part b t g next) out
    → Goes (Then m n) before rest gs next out
Goes-chain m n part before rest gs next out sound i =
    Goes-Then m n before rest gs next out
      (i.text, i.left, i.own, i.splits, i.matches, sound _ _ _ next out i.goes_on)

-- At most so many matches in a row.
abbrev pub AtMost : ℕ → Match → Match
AtMost n m before text after gs = (j : ℕ) × (j ≤ n) × Times j m before text after gs

module _ (part : Part) (m : Match) (sound : IsSound part m) where
  AtMost-suc :
      (n : ℕ) (before rest : Bytes) (gs : Groups) (next : Next) (out : Groups)
      → Goes (Then m (AtMost n m)) before rest gs next out
      → Goes (AtMost (suc n) m) before rest gs next out
  AtMost-suc n before rest gs next out =
      Goes-map (Then m (AtMost n m)) (AtMost (suc n) m) before rest gs next out
        (λ text after g (t, u, x, y, e, f, h, (j, l, k)).
          (suc j, omega (arith, l), (t, u, x, y, e, f, h, k)))

  pub rounds-IsSound : (n : ℕ) → IsSound (rounds part n) (AtMost n m)
  unfolding rounds
  rounds-IsSound zero before rest gs next out e =
      Goes-nil (AtMost zero m) before rest gs next out (zero, omega arith, (refl, refl)) e
  rounds-IsSound (suc n) before rest gs next out e =
      elim (or_next-some (part before rest gs (λ b r g. rounds part n b r g next))
        (next before rest gs) out e) [
          | inl h ↦ AtMost-suc n before rest gs next out (
              Goes-chain m (AtMost n m) (rounds part n) before rest gs next out (rounds-IsSound n)
                (sound before rest gs _ out h))
          | inr h ↦
              Goes-nil (AtMost (suc n) m) before rest gs next out (zero, omega arith, (refl, refl))
                h
        ]

  pub lazy_rounds-IsSound : (n : ℕ) → IsSound (lazy_rounds part n) (AtMost n m)
  unfolding lazy_rounds
  lazy_rounds-IsSound zero before rest gs next out e =
      Goes-nil (AtMost zero m) before rest gs next out (zero, omega arith, (refl, refl)) e
  lazy_rounds-IsSound (suc n) before rest gs next out e =
      elim (or_next-some (next before rest gs)
        (part before rest gs (λ b r g. lazy_rounds part n b r g next)) out e) [
          | inl h ↦
              Goes-nil (AtMost (suc n) m) before rest gs next out (zero, omega arith, (refl, refl))
                h
          | inr h ↦ AtMost-suc n before rest gs next out (
              Goes-chain m (AtMost n m) (lazy_rounds part n) before rest gs next out
                (lazy_rounds-IsSound n) (sound before rest gs _ out h))
        ]
