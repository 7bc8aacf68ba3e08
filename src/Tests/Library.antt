-- ===== src/Tests/Library.antt =====
-- Concrete functions that behave as the interfaces of Boost ask, for the tests.
use boost_irc.Base.{
  ℕ, ◌≡◌, refl, true, ◌==◌, List, [], ◌∷◌, ◌++◌, Bytes, lacks, arith, if◌then◌else◌,
}
use boost_irc.Boost.{StringAlgo, fill}

abbrev join : List Bytes → Bytes → Bytes
join [] sep = []
join (x ∷ []) sep = x
join (x ∷ y ∷ r) sep = x ++ (sep ++ join (y ∷ r) sep)

abbrev onto_first : ℕ → List Bytes → List Bytes
onto_first c [] = (c ∷ []) ∷ []
onto_first c (t ∷ ts) = (c ∷ t) ∷ ts

abbrev split : Bytes → ℕ → List Bytes
split [] c = [] ∷ []
split (x ∷ s) c = if x == c then [] ∷ split s c else onto_first x (split s c)

pub split_last : (s : Bytes) (c : ℕ) → lacks c s ≡ true → split s c ≡ s ∷ []
split_last [] c h = refl
split_last (x ∷ s) c h = ground (arith, split_last s c)

pub split_more : (s r : Bytes) (c : ℕ) → lacks c s ≡ true → split (s ++ (c ∷ r)) c ≡ s ∷ split r c
split_more [] r c h = ground arith
split_more (x ∷ s) r c h = ground (arith, split_more s r c)

abbrev pub algo : StringAlgo
algo = record {
  join = join;
  join_nil = λ sep. refl;
  join_one = λ x sep. refl;
  join_more = λ x y r sep. refl;
  split = split;
  split_last = split_last;
  split_more = split_more;
  format = fill;
  format_lem = λ ps args. refl;
}
