-- ===== src/Boost/Regex/First/Parts.antt =====
-- The first match as a derivation, part by part: what is still to be matched, where each part
-- finds its text, and the match that is reported.
use boost_irc.Base.{
  ℕ, zero, suc, ◌≤◌, ◌≡◌, refl, not, Bool, true, false, none, some, List, [], ◌∷◌, ◌++◌, Bytes,
  length, drop, all, arith, append_assoc,
}
use boost_irc.Boost.Regex.{
  Regex, Groups, one_of, seq, opt, star, lazy_star, plus, up_to, group, line_start, line_end,
}
use boost_irc.Boost.Regex.First.{
  Next, begins_with, rounds, one_byte, first_from, found, search_from, search_first,
}
use boost_irc.Boost.Regex.First.Steps.{
  or_next-first, or_next-second, one_byte_step, rounds_full, lazy_rounds_full,
}

-- A part; a repeated part, in as many rounds; the end of a group that began behind so many bytes.
pub data Todo : Type 0 where
  part : Regex → Todo
  again : ℕ → Regex → Todo
  close : ℕ → ℕ → Todo

unfoldable pub run_all : List Todo → Next
run_all [] before rest gs = found before rest gs
run_all (part r ∷ todo) before rest gs = first_from r before rest gs (run_all todo)
run_all (again n r ∷ todo) before rest gs = rounds (first_from r) n before rest gs (run_all todo)
run_all (close k n ∷ todo) before rest gs =
    run_all todo before rest (gs ++ ((k, drop n before) ∷ []))

-- Each part is where it is tried first, or what is tried before it fails.
pub data Takes : List Todo → Bytes → Bytes → Groups → Groups → Type 0 where
  finish : {before rest : Bytes} {gs : Groups} → Takes [] before rest gs gs
  byte :
      {todo : List Todo} {before rest : Bytes} {gs out : Groups} {p : ℕ → Bool} {c : ℕ}
      → p c ≡ true
      → Takes todo (before ++ (c ∷ [])) rest gs out
      → Takes (part (one_of p) ∷ todo) before (c ∷ rest) gs out
  both :
      {todo : List Todo} {before rest : Bytes} {gs out : Groups} {r s : Regex}
      → Takes (part r ∷ part s ∷ todo) before rest gs out
      → Takes (part (seq r s) ∷ todo) before rest gs out
  taken :
      {todo : List Todo} {before rest : Bytes} {gs out : Groups} {r : Regex}
      → Takes (part r ∷ todo) before rest gs out
      → Takes (part (opt r) ∷ todo) before rest gs out
  skipped :
      {todo : List Todo} {before rest : Bytes} {gs out : Groups} {r : Regex}
      → first_from r before rest gs (run_all todo) ≡ none
      → Takes todo before rest gs out
      → Takes (part (opt r) ∷ todo) before rest gs out
  run :
      {todo : List Todo} {before rest : Bytes} {gs out : Groups} {p : ℕ → Bool} (xs : Bytes)
      → all p xs ≡ true
      → begins_with p rest ≡ false
      → Takes todo (before ++ xs) rest gs out
      → Takes (part (star (one_of p)) ∷ todo) before (xs ++ rest) gs out
  run_lazy :
      {todo : List Todo} {before rest : Bytes} {gs out : Groups} {p : ℕ → Bool} (xs : Bytes)
      (q : ℕ → Bool)
      → ((b r : Bytes) (g : Groups) → begins_with q r ≡ false → run_all todo b r g ≡ none)
      → all (λ c. not (q c)) xs ≡ true
      → all p xs ≡ true
      → Takes todo (before ++ xs) rest gs out
      → Takes (part (lazy_star (one_of p)) ∷ todo) before (xs ++ rest) gs out
  run_some :
      {todo : List Todo} {before rest : Bytes} {gs out : Groups} {p : ℕ → Bool} (c : ℕ) (xs : Bytes)
      → p c ≡ true
      → all p xs ≡ true
      → begins_with p rest ≡ false
      → Takes todo (before ++ (c ∷ xs)) rest gs out
      → Takes (part (plus (one_of p)) ∷ todo) before (c ∷ (xs ++ rest)) gs out
  counted :
      {todo : List Todo} {before rest : Bytes} {gs out : Groups} {n : ℕ} {r : Regex}
      → Takes (again n r ∷ todo) before rest gs out
      → Takes (part (up_to n r) ∷ todo) before rest gs out
  once_more :
      {todo : List Todo} {before rest : Bytes} {gs out : Groups} {n : ℕ} {r : Regex}
      → Takes (part r ∷ again n r ∷ todo) before rest gs out
      → Takes (again (suc n) r ∷ todo) before rest gs out
  no_more :
      {todo : List Todo} {before rest : Bytes} {gs out : Groups} {n : ℕ} {r : Regex}
      → ((next : Next) → first_from r before rest gs next ≡ none)
      → Takes todo before rest gs out
      → Takes (again n r ∷ todo) before rest gs out
  grouped :
      {todo : List Todo} {before rest : Bytes} {gs out : Groups} {k : ℕ} {r : Regex}
      → Takes (part r ∷ close k (length before) ∷ todo) before rest gs out
      → Takes (part (group k r) ∷ todo) before rest gs out
  closed :
      {todo : List Todo} {before rest : Bytes} {gs out : Groups} {k n : ℕ} (text : Bytes)
      → drop n before ≡ text
      → Takes todo before rest (gs ++ ((k, text) ∷ [])) out
      → Takes (close k n ∷ todo) before rest gs out
  at_start :
      {todo : List Todo} {rest : Bytes} {gs out : Groups}
      → Takes todo [] rest gs out
      → Takes (part line_start ∷ todo) [] rest gs out
  at_end :
      {todo : List Todo} {before : Bytes} {gs out : Groups}
      → Takes todo before [] gs out
      → Takes (part line_end ∷ todo) before [] gs out

length-append_le : (xs ys : Bytes) → length xs ≤ length (xs ++ ys)
length-append_le [] ys = omega arith
length-append_le (x ∷ xs) ys = omega (arith, length-append_le xs ys)

-- A derivation gives what the matcher reports.
pub Takes-some :
    {todo : List Todo} {before rest : Bytes} {gs out : Groups}
    → Takes todo before rest gs out
    → run_all todo before rest gs ≡ some out
unfolding run_all first_from rounds
Takes-some finish = refl
Takes-some (byte {todo} {before} {rest} {gs} {out} {p} {c} h d) =
    one_byte_step p out (run_all todo) before rest c gs h (Takes-some d)
Takes-some (both d) = Takes-some d
Takes-some (taken {todo} {before} {rest} {gs} {out} {r} d) =
    or_next-first (first_from r before rest gs (run_all todo)) (run_all todo before rest gs) out
      (Takes-some d)
Takes-some (skipped {todo} {before} {rest} {gs} {out} {r} h d) =
    or_next-second (first_from r before rest gs (run_all todo)) (run_all todo before rest gs) out h
      (Takes-some d)
Takes-some (run {todo} {before} {rest} {gs} {out} {p} xs a h d) =
    rounds_full p out (run_all todo) (length (xs ++ rest)) before xs rest gs a
      (length-append_le xs rest) h (Takes-some d)
Takes-some (run_lazy {todo} {before} {rest} {gs} {out} {p} xs q stuck b a d) =
    lazy_rounds_full p out (run_all todo) q stuck (length (xs ++ rest)) before xs rest gs b a
      (length-append_le xs rest) (Takes-some d)
Takes-some (run_some {todo} {before} {rest} {gs} {out} {p} c xs f a h d) =
    one_byte_step p out (λ b t g. rounds (one_byte p) (length t) b t g (run_all todo)) before
      (xs ++ rest) c gs f
      (rounds_full p out (run_all todo) (length (xs ++ rest)) (before ++ (c ∷ [])) xs rest gs a
        (length-append_le xs rest) h (rw (append_assoc before (c ∷ []) xs) (Takes-some d)))
Takes-some (counted d) = Takes-some d
Takes-some (once_more {todo} {before} {rest} {gs} {out} {n} {r} d) =
    or_next-first (first_from r before rest gs (run_all (again n r ∷ todo)))
      (run_all todo before rest gs) out (Takes-some d)
Takes-some (no_more {n = zero} h d) = Takes-some d
Takes-some (no_more {todo} {before} {rest} {gs} {out} {n = suc n} {r} h d) =
    or_next-second (first_from r before rest gs (run_all (again n r ∷ todo)))
      (run_all todo before rest gs) out (h _) (Takes-some d)
Takes-some (grouped d) = Takes-some d
Takes-some (closed text e d) = rw e (Takes-some d)
Takes-some (at_start d) = Takes-some d
Takes-some (at_end d) = Takes-some d

-- A match at the start of the text is the one that a search reports.
pub Takes-search_first :
    (r : Regex) (s : Bytes) (out : Groups)
    → Takes (part r ∷ []) [] s [] out
    → search_first r s ≡ some out
unfolding search_first search_from run_all
Takes-search_first r [] out d = Takes-some d
Takes-search_first r (c ∷ s) out d =
    or_next-first (first_from r [] (c ∷ s) [] found) (search_from r (c ∷ []) s) out (Takes-some d)
