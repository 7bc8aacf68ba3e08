-- ===== src/Std/Find.antt =====
-- `find` and `substr` of std::string, and the subtraction of sizes.
use boost_irc.Base.{
  ℕ, ◌+◌, ◌-◌, ◌^◌, ◌≤◌, ◌≡◌, refl, ap, subst, ◌==◌, leb, if◌then◌else◌, true, Option, none, some,
  [], ◌∷◌, ◌++◌, Bytes, lacks, take, drop, length, arith,
}

abbrev pub shift_by : ℕ → Option ℕ → Option ℕ
shift_by n none = none
shift_by n (some i) = some (n + i)

-- `s.find(c)`; none for npos.
unfoldable pub index_of : ℕ → Bytes → Option ℕ
index_of c [] = none
index_of c (x ∷ s) = if x == c then some 0 else shift_by 1 (index_of c s)

-- `s.find(c, start)`
unfoldable pub index_from : ℕ → ℕ → Bytes → Option ℕ
unfolding index_of
index_from c start s = shift_by start (index_of c (drop start s))

-- `s.substr(start, n)`, with a start that is not beyond the end.
abbrev pub substr : ℕ → ℕ → Bytes → Bytes
substr start n s = take n (drop start s)

-- `a - b` on size_t, which wraps.
unfoldable pub size_sub : ℕ → ℕ → ℕ
size_sub a b = if leb b a then a - b else a + 2 ^ 64 - b

pub size_sub_le : (a b : ℕ) → b ≤ a → size_sub a b ≡ a - b
unfolding size_sub
size_sub_le a b h = ground arith

pub index_of-none : (c : ℕ) (s : Bytes) → lacks c s ≡ true → index_of c s ≡ none
unfolding index_of
index_of-none c [] h = refl
index_of-none c (x ∷ s) h = ground (arith, index_of-none c s)

pub index_of-append :
    (c : ℕ) (s t : Bytes) → lacks c s ≡ true → index_of c (s ++ (c ∷ t)) ≡ some (length s)
unfolding index_of
index_of-append c [] t h = ground arith
index_of-append c (x ∷ s) t h = ground (arith, index_of-append c s t)

pub take-length : (a b : Bytes) → take (length a) (a ++ b) ≡ a
take-length [] b = refl
take-length (x ∷ a) b = ap (◌∷◌ x) (take-length a b)

pub drop-length : (a b : Bytes) → drop (length a) (a ++ b) ≡ b
drop-length [] b = refl
drop-length (x ∷ a) b = drop-length a b

pub take_first : (n : ℕ) (a b : Bytes) → length a ≡ n → take n (a ++ b) ≡ a
take_first n a b h = subst (λ k. take k (a ++ b) ≡ a) h (take-length a b)

pub drop_first : (n : ℕ) (a b : Bytes) → length a ≡ n → drop n (a ++ b) ≡ b
drop_first n a b h = subst (λ k. drop k (a ++ b) ≡ b) h (drop-length a b)

-- Behind a prefix.
pub index_from-append :
    (c n : ℕ) (a s t : Bytes)
    → length a ≡ n
    → lacks c s ≡ true
    → index_from c n (a ++ (s ++ (c ∷ t))) ≡ some (n + length s)
unfolding index_from
index_from-append c n a s t l h =
    rw (drop_first n a (s ++ (c ∷ t)) l) (rw (index_of-append c s t h) refl)

pub substr-append :
    (n m : ℕ) (a s t : Bytes) → length a ≡ n → length s ≡ m → substr n m (a ++ (s ++ t)) ≡ s
substr-append n m a s t l k = rw (drop_first n a (s ++ t) l) (take_first m s t k)
