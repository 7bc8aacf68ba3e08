-- ===== src/Boost/Regex.antt =====
-- Regular expressions as the program writes them, and when one matches a part of a text. This is
-- the documented meaning of Boost's Perl syntax but for priorities: which of several matches
-- `regex_search` reports is left open.
pub mod Laws
pub mod First
use boost_irc.Base.{
  ℕ, zero, suc, ◌≤◌, ◌≡◌, ◌⊎◌, ◌==◌, ◌&&◌, ◌||◌, not, inl, inr, refl, Bool, true, false, Option,
  none, some, List, [], ◌∷◌, ◌++◌, Bytes, if◌then◌else◌, arith, Bool-cases, ◌∙◌, ap,
}

pub data Regex : Type 0 where
  one_of : (ℕ → Bool) → Regex
  seq : Regex → Regex → Regex
  opt : Regex → Regex
  -- `*` and `*?` differ in priority alone
  star lazy_star : Regex → Regex
  plus : Regex → Regex
  -- `{0,n}`
  up_to : ℕ → Regex → Regex
  group : ℕ → Regex → Regex
  line_start line_end : Regex

-- The groups that took part in a match, in the order of their closing brackets.
abbrev pub Groups : Type 0
Groups = List (ℕ × Bytes)

-- `\n`, `\f` and `\r` end a line for `^` and `$`.
abbrev pub is_separator : ℕ → Bool
is_separator c = c == 10 || c == 12 || c == 13

abbrev pub StartsLine : Bytes → Type 0
StartsLine before =
    (before ≡ [])
    ⊎ ((line : Bytes) × (c : ℕ) × (before ≡ line ++ (c ∷ [])) × (is_separator c ≡ true))

abbrev pub EndsLine : Bytes → Type 0
EndsLine after = (after ≡ []) ⊎ ((c : ℕ) × (r : Bytes) × (after ≡ c ∷ r) × (is_separator c ≡ true))

abbrev pub Match : Type 1
Match = Bytes → Bytes → Bytes → Groups → Type 0

-- Two matches, one behind the other.
abbrev pub Then : Match → Match → Match
Then m n before text after gs =
    (t : Bytes) × (u : Bytes) × (g : Groups) × (h : Groups) × (text ≡ t ++ u)
    × (gs ≡ g ++ h)
    × m before t (u ++ after) g
    × n (before ++ t) u after h

-- Exactly `n` matches in a row.
abbrev pub Times : ℕ → Match → Match
Times zero m before text after gs = (text ≡ []) × (gs ≡ [])
Times (suc n) m before text after gs = Then m (Times n m) before text after gs

-- `text`, between `before` and `after`, is matched with the groups `gs`.
abbrev pub Matches : Regex → Match
Matches (one_of p) before text after gs = (c : ℕ) × (text ≡ c ∷ []) × (p c ≡ true) × (gs ≡ [])
Matches (seq r s) before text after gs = Then (Matches r) (Matches s) before text after gs
Matches (opt r) before text after gs = ((text ≡ []) × (gs ≡ [])) ⊎ Matches r before text after gs
Matches (star r) before text after gs = (n : ℕ) × Times n (Matches r) before text after gs
Matches (lazy_star r) before text after gs = (n : ℕ) × Times n (Matches r) before text after gs
Matches (plus r) before text after gs = (n : ℕ) × Times (suc n) (Matches r) before text after gs
Matches (up_to k r) before text after gs =
    (n : ℕ) × (n ≤ k) × Times n (Matches r) before text after gs
Matches (group k r) before text after gs =
    (g : Groups) × (gs ≡ g ++ ((k, text) ∷ [])) × Matches r before text after g
Matches line_start before text after gs = (text ≡ []) × (gs ≡ []) × StartsLine before
Matches line_end before text after gs = (text ≡ []) × (gs ≡ []) × EndsLine after

-- The text of a group: that of its last match, if it took part in one.
abbrev pub find : ℕ → Groups → Option Bytes
find k [] = none
find k ((j, t) ∷ gs) = elim (find k gs) [ some u ↦ some u | none ↦ if j == k then some t else none ]

abbrev pub text_of : Option Bytes → Bytes
text_of none = []
text_of (some t) = t

-- `std::string(what[k])`: a group that took no part is the empty string.
abbrev pub capture : ℕ → Groups → Bytes
capture k gs = text_of (find k gs)

-- `what` is some match of the expression in the text.
pub record IsFound (r : Regex) (s : Bytes) (gs : Groups) : Type 0 where
  pub before : Bytes
  pub matched : Bytes
  pub after : Bytes
  pub splits : s ≡ before ++ (matched ++ after)
  pub matches : Matches r before matched after gs

-- boost::regex_search(text, what, expression): if it reports a match, that is a match.
pub record RegexSearch (r : Regex) : Type 0 where
  pub search : Bytes → Option Groups
  pub search_sound : (s : Bytes) (gs : Groups) → search s ≡ some gs → IsFound r s gs

-- The groups that an expression declares.
abbrev pub declares : ℕ → Regex → Bool
declares k (one_of p) = false
declares k (seq r s) = declares k r || declares k s
declares k (opt r) = declares k r
declares k (star r) = declares k r
declares k (lazy_star r) = declares k r
declares k (plus r) = declares k r
declares k (up_to n r) = declares k r
declares k (group j r) = j == k || declares k r
declares k line_start = false
declares k line_end = false

pub find-append : (k : ℕ) (g h : Groups) → find k h ≡ none → find k (g ++ h) ≡ find k g
find-append k [] h e = e
find-append k ((j, t) ∷ g) h e = rw (find-append k g h e)

pub find-append_some :
    (k : ℕ) (g h : Groups) {t : Bytes} → find k h ≡ some t → find k (g ++ h) ≡ some t
find-append_some k [] h e = e
find-append_some k ((j, t) ∷ g) h e = rw (find-append_some k g h e)

pub find-append_right : (k : ℕ) (g h : Groups) → find k g ≡ none → find k (g ++ h) ≡ find k h
find-append_right k [] h e = refl
find-append_right k ((j, t) ∷ g) h e = ground (arith, find-append_right k g h)
