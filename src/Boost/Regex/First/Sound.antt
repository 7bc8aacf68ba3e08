-- ===== src/Boost/Regex/First/Sound.antt =====
-- The match that is found first is a match.
use boost_irc.Base.{
  ℕ, ◌≡◌, inl, inr, refl, ap, subst, Bool, true, Bool-cases, none, some, [], ◌∷◌, ◌++◌, Bytes,
  length, drop, if◌then◌else◌, arith, append_assoc, append-nil,
}
use boost_irc.Boost.Regex.{
  Regex, one_of, seq, opt, star, lazy_star, plus, up_to, group, line_start, line_end, Groups, Then,
  Matches, StartsLine, EndsLine, is_separator, IsFound,
}
use boost_irc.Boost.Regex.First.{
  ends_with, starts_line, ends_line, rounds, one_byte, first_from, found, search_from, search_first,
}
use boost_irc.Boost.Regex.First.Goes.{
  IsSound, or_next-some, Goes-nil, Goes-map, Goes-chain, AtMost, rounds-IsSound,
  lazy_rounds-IsSound,
}

one_byte-IsSound : (p : ℕ → Bool) → IsSound (one_byte p) (Matches (one_of p))
one_byte-IsSound p before [] gs next out e = absurd cc
one_byte-IsSound p before (c ∷ rest) gs next out e = elim (Bool-cases (p c)) [
  | inl h ↦ record {
    text = c ∷ [];
    left = rest;
    own = [];
    splits = refl;
    matches = (c, refl, h, refl);
    goes_on = rw (append-nil gs) (rw h at e);
  }
  | inr h ↦ absurd ground (arith, h, e)
]

StartsLine-snoc :
    (c : ℕ) (s : Bytes)
    → ends_with is_separator (c ∷ s) ≡ true
    → (line : Bytes) × (d : ℕ) × (c ∷ s ≡ line ++ (d ∷ [])) × (is_separator d ≡ true)
StartsLine-snoc c [] e = ([], c, refl, e)
StartsLine-snoc c (d ∷ s) e =
    let (line, x, f, g) = StartsLine-snoc d s e in (c ∷ line, x, ap (c ∷◌) f, g)

starts_line-StartsLine : (before rest : Bytes) → starts_line before rest ≡ true → StartsLine before
starts_line-StartsLine [] rest e = inl refl
starts_line-StartsLine (c ∷ s) rest e = inr (StartsLine-snoc c s ground (arith, e))

ends_line-EndsLine : (before rest : Bytes) → ends_line before rest ≡ true → EndsLine rest
ends_line-EndsLine before [] e = inl refl
ends_line-EndsLine before (c ∷ s) e = inr (c, s, refl, ground (arith, e))

pub drop-append : (xs ys : Bytes) → drop (length xs) (xs ++ ys) ≡ ys
drop-append [] ys = refl
drop-append (x ∷ xs) ys = drop-append xs ys

-- Where a test of the text passes, nothing is matched.
test-IsSound :
    (test : Bytes → Bytes → Bool) (r : Regex)
    → ((before rest : Bytes) → test before rest ≡ true → Matches r before [] rest [])
    → IsSound
        (λ before rest gs next. if test before rest then next before rest gs else none)
        (Matches r)
test-IsSound test r sound before rest gs next out e = elim (Bool-cases (test before rest)) [
  | inl h ↦ Goes-nil (Matches r) before rest gs next out (sound before rest h) (rw h at e)
  | inr h ↦ absurd ground (arith, h, e)
]

first_from-IsSound : (r : Regex) → IsSound (first_from r) (Matches r)
unfolding first_from
first_from-IsSound (one_of p) before rest gs next out e =
    one_byte-IsSound p before rest gs next out e
first_from-IsSound (seq r s) before rest gs next out e =
    Goes-chain (Matches r) (Matches s) (first_from s) before rest gs next out (first_from-IsSound s)
      (first_from-IsSound r before rest gs _ out e)
first_from-IsSound (opt r) before rest gs next out e =
    elim (or_next-some (first_from r before rest gs next) (next before rest gs) out e) [
      | inl h ↦
          Goes-map (Matches r) (Matches (opt r)) before rest gs next out (λ text after g m. inr m)
            (first_from-IsSound r before rest gs next out h)
      | inr h ↦ Goes-nil (Matches (opt r)) before rest gs next out (inl (refl, refl)) h
    ]
first_from-IsSound (star r) before rest gs next out e =
    Goes-map (AtMost (length rest) (Matches r)) (Matches (star r)) before rest gs next out
      (λ text after g (j, l, m). (j, m))
      (rounds-IsSound (first_from r) (Matches r) (first_from-IsSound r) (length rest) before rest gs
        next out e)
first_from-IsSound (lazy_star r) before rest gs next out e =
    Goes-map (AtMost (length rest) (Matches r)) (Matches (lazy_star r)) before rest gs next out
      (λ text after g (j, l, m). (j, m))
      (lazy_rounds-IsSound (first_from r) (Matches r) (first_from-IsSound r) (length rest) before
        rest gs next out e)
first_from-IsSound (plus r) before rest gs next out e =
    let many : IsSound (λ b t g n. rounds (first_from r) (length t) b t g n) (Matches (star r)) =
      λ b t g n o h.
        Goes-map (AtMost (length t) (Matches r)) (Matches (star r)) b t g n o
          (λ text after x (j, l, m). (j, m))
          (rounds-IsSound (first_from r) (Matches r) (first_from-IsSound r) (length t) b t g n o
            h) in
    Goes-map (Then (Matches r) (Matches (star r))) (Matches (plus r)) before rest gs next out
      (λ text after g (t, u, x, y, f, h, m, (j, k)). (j, (t, u, x, y, f, h, m, k)))
      (Goes-chain (Matches r) (Matches (star r))
        (λ b t g n. rounds (first_from r) (length t) b t g n) before rest gs next out many
        (first_from-IsSound r before rest gs _ out e))
first_from-IsSound (up_to n r) before rest gs next out e =
    Goes-map (AtMost n (Matches r)) (Matches (up_to n r)) before rest gs next out
      (λ text after g x. x)
      (rounds-IsSound (first_from r) (Matches r) (first_from-IsSound r) n before rest gs next out e)
first_from-IsSound (group k r) before rest gs next out e =
    let i = first_from-IsSound r before rest gs _ out e in
    record {
      text = i.text;
      left = i.left;
      own = i.own ++ ((k, i.text) ∷ []);
      splits = i.splits;
      matches = (i.own, refl, i.matches);
      goes_on =
          rw (drop-append before i.text, append_assoc gs i.own ((k, i.text) ∷ [])) at i.goes_on;
    }
first_from-IsSound line_start before rest gs next out e =
    test-IsSound starts_line line_start (λ b r h. (refl, refl, starts_line-StartsLine b r h)) before
      rest gs next out e
first_from-IsSound line_end before rest gs next out e =
    test-IsSound ends_line line_end (λ b r h. (refl, refl, ends_line-EndsLine b r h)) before rest gs
      next out e

found_from-IsFound :
    (r : Regex) (before rest : Bytes) (gs : Groups)
    → first_from r before rest [] found ≡ some gs
    → IsFound r (before ++ rest) gs
found_from-IsFound r before rest gs e =
    let i = first_from-IsSound r before rest [] found gs e in
    let same : i.own ≡ gs = cc in
    record {
      before = before;
      matched = i.text;
      after = i.left;
      splits = ap (before ++◌) i.splits;
      matches = subst (Matches r before i.text i.left) same i.matches;
    }

search_from-IsFound :
    (r : Regex) (before rest : Bytes) (gs : Groups)
    → search_from r before rest ≡ some gs
    → IsFound r (before ++ rest) gs
unfolding search_from
search_from-IsFound r before [] gs e = found_from-IsFound r before [] gs e
search_from-IsFound r before (c ∷ rest) gs e =
    elim (or_next-some (first_from r before (c ∷ rest) [] found)
      (search_from r (before ++ (c ∷ [])) rest) gs e) [
        | inl h ↦ found_from-IsFound r before (c ∷ rest) gs h
        | inr h ↦
            subst (λ s. IsFound r s gs) (append_assoc before (c ∷ []) rest)
              (search_from-IsFound r (before ++ (c ∷ [])) rest gs h)
      ]

-- A search that reports the first match reports matches only.
pub search_first-IsFound :
    (r : Regex) (s : Bytes) (gs : Groups) → search_first r s ≡ some gs → IsFound r s gs
unfolding search_first
search_first-IsFound r s gs e = search_from-IsFound r [] s gs e
