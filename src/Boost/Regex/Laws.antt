-- ===== src/Boost/Regex/Laws.antt =====
-- Matches of expressions: groups that an expression does not declare are absent from its matches,
-- and a run of one-byte matches is a text over the class.
use boost_irc.Base.{
  ℕ, zero, suc, ◌≡◌, inl, inr, refl, Bool, true, false, none, [], ◌∷◌, Bytes, arith, all, ◌∙◌,
}
use boost_irc.Boost.Regex.{
  Regex, one_of, seq, opt, star, lazy_star, plus, up_to, group, line_start, line_end, Groups, Match,
  Then, Times, Matches, find, declares, find-append,
}

abbrev LeavesOut : ℕ → Match → Type 0
LeavesOut k m =
    (before text after : Bytes) (gs : Groups) → m before text after gs → find k gs ≡ none

Then-LeavesOut : (k : ℕ) (m n : Match) → LeavesOut k m → LeavesOut k n → LeavesOut k (Then m n)
Then-LeavesOut k m n hm hn before text after gs (t, u, g, h, et, eg, p, q) =
    rw eg (find-append k g h (hn _ _ _ _ q) ∙ hm _ _ _ _ p)

Times-LeavesOut : (k : ℕ) (m : Match) → LeavesOut k m → (n : ℕ) → LeavesOut k (Times n m)
Times-LeavesOut k m hm zero before text after gs (et, eg) = rw eg refl
Times-LeavesOut k m hm (suc n) before text after gs x =
    Then-LeavesOut k m (Times n m) hm (Times-LeavesOut k m hm n) before text after gs x

-- A group that the expression does not declare takes no part in a match of it.
pub find-undeclared : (k : ℕ) (r : Regex) → declares k r ≡ false → LeavesOut k (Matches r)
find-undeclared k (one_of p) d before text after gs (c, et, ec, eg) = rw eg refl
find-undeclared k (seq r s) d before text after gs m =
    Then-LeavesOut k (Matches r) (Matches s) (find-undeclared k r (ground arith))
      (find-undeclared k s (ground arith)) before text after gs m
find-undeclared k (opt r) d before text after gs (inl (et, eg)) = rw eg refl
find-undeclared k (opt r) d before text after gs (inr m) =
    find-undeclared k r d before text after gs m
find-undeclared k (star r) d before text after gs (n, m) =
    Times-LeavesOut k (Matches r) (find-undeclared k r d) n before text after gs m
find-undeclared k (lazy_star r) d before text after gs (n, m) =
    Times-LeavesOut k (Matches r) (find-undeclared k r d) n before text after gs m
find-undeclared k (plus r) d before text after gs (n, m) =
    Times-LeavesOut k (Matches r) (find-undeclared k r d) (suc n) before text after gs m
find-undeclared k (up_to b r) d before text after gs (n, h, m) =
    Times-LeavesOut k (Matches r) (find-undeclared k r d) n before text after gs m
find-undeclared k (group j r) d before text after gs (g, eg, m) = rw eg (
    find-append k g ((j, text) ∷ []) (ground arith)
    ∙ find-undeclared k r (ground arith) before text after g m)
find-undeclared k line_start d before text after gs (et, eg, s) = rw eg refl
find-undeclared k line_end d before text after gs (et, eg, s) = rw eg refl

-- One byte of the class, many times: a text over the class, with no group.
pub Times-one_of :
    (p : ℕ → Bool) (n : ℕ) (before text after : Bytes) (gs : Groups)
    → Times n (Matches (one_of p)) before text after gs
    → all p text ≡ true
Times-one_of p zero before text after gs (et, eg) = rw et refl
Times-one_of p (suc n) before text after gs (t, u, g, h, et, eg, (c, ec, hc, e), q) =
    rw (et, ec, hc) (Times-one_of p n _ u after h q)
