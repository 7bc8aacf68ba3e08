-- ===== src/Boost/Regex/First.antt =====
-- The match that Boost's documentation says is reported: in Perl's syntax the alternatives of a
-- part are tried in their order (greedy ones with the part first), at each position of the text
-- from the first on, and the first match that is found is taken.
pub mod Goes
pub mod Sound
pub mod Steps
pub mod Parts
use boost_irc.Base.{
  ℕ, zero, suc, ◌==◌, ◌&&◌, not, Bool, true, false, Option, none, some, List, [], ◌∷◌, ◌++◌, Bytes,
  length, drop, if◌then◌else◌,
}
use boost_irc.Boost.Regex.{
  Regex, one_of, seq, opt, star, lazy_star, plus, up_to, group, line_start, line_end, Groups,
  is_separator,
}

-- What goes on behind a part: with the text before, the rest, and the groups.
abbrev pub Next : Type 0
Next = Bytes → Bytes → Groups → Option Groups

abbrev pub or_next : Option Groups → Option Groups → Option Groups
or_next (some gs) other = some gs
or_next none other = other

abbrev pub ends_with : (ℕ → Bool) → Bytes → Bool
ends_with p [] = false
ends_with p (c ∷ []) = p c
ends_with p (c ∷ d ∷ s) = ends_with p (d ∷ s)

abbrev pub begins_with : (ℕ → Bool) → Bytes → Bool
begins_with p [] = false
begins_with p (c ∷ s) = p c

abbrev pub is_empty : Bytes → Bool
is_empty [] = true
is_empty (c ∷ s) = false

-- Between a carriage return and a line feed no line starts or ends.
abbrev pub inside_crlf : Bytes → Bytes → Bool
inside_crlf before rest = ends_with (λ c. c == 13) before && begins_with (λ c. c == 10) rest

abbrev pub starts_line : Bytes → Bytes → Bool
starts_line before rest =
    if is_empty before then true else ends_with is_separator before && not (inside_crlf before rest)

abbrev pub ends_line : Bytes → Bytes → Bool
ends_line before rest =
    if is_empty rest then true else begins_with is_separator rest && not (inside_crlf before rest)

-- Up to so many rounds of a part: as many as possible first, or as few.
unfoldable pub rounds :
    (Bytes → Bytes → Groups → Next → Option Groups)
    → ℕ
    → Bytes
    → Bytes
    → Groups
    → Next
    → Option Groups
rounds part zero before rest gs next = next before rest gs
rounds part (suc n) before rest gs next =
    or_next (part before rest gs (λ b r g. rounds part n b r g next)) (next before rest gs)

unfoldable pub lazy_rounds :
    (Bytes → Bytes → Groups → Next → Option Groups)
    → ℕ
    → Bytes
    → Bytes
    → Groups
    → Next
    → Option Groups
lazy_rounds part zero before rest gs next = next before rest gs
lazy_rounds part (suc n) before rest gs next =
    or_next (next before rest gs) (part before rest gs (λ b r g. lazy_rounds part n b r g next))

abbrev pub one_byte : (ℕ → Bool) → Bytes → Bytes → Groups → Next → Option Groups
one_byte p before [] gs next = none
one_byte p before (c ∷ rest) gs next = if p c then next (before ++ (c ∷ [])) rest gs else none

-- The first match of an expression with what follows it; a repeated part takes a byte in each
-- round at least.
unfoldable pub first_from : Regex → Bytes → Bytes → Groups → Next → Option Groups
unfolding rounds lazy_rounds
first_from (one_of p) before rest gs next = one_byte p before rest gs next
first_from (seq r s) before rest gs next =
    first_from r before rest gs (λ b t g. first_from s b t g next)
first_from (opt r) before rest gs next =
    or_next (first_from r before rest gs next) (next before rest gs)
first_from (star r) before rest gs next = rounds (first_from r) (length rest) before rest gs next
first_from (lazy_star r) before rest gs next =
    lazy_rounds (first_from r) (length rest) before rest gs next
first_from (plus r) before rest gs next =
    first_from r before rest gs (λ b t g. rounds (first_from r) (length t) b t g next)
first_from (up_to n r) before rest gs next = rounds (first_from r) n before rest gs next
first_from (group k r) before rest gs next =
    first_from r before rest gs (λ b t g. next b t (g ++ ((k, drop (length before) b) ∷ [])))
first_from line_start before rest gs next =
    if starts_line before rest then next before rest gs else none
first_from line_end before rest gs next =
    if ends_line before rest then next before rest gs else none

abbrev pub found : Next
found before rest gs = some gs

-- From each position on.
unfoldable pub search_from : Regex → Bytes → Bytes → Option Groups
unfolding first_from
search_from r before [] = first_from r before [] [] found
search_from r before (c ∷ rest) =
    or_next (first_from r before (c ∷ rest) [] found) (search_from r (before ++ (c ∷ [])) rest)

unfoldable pub search_first : Regex → Bytes → Option Groups
unfolding search_from
search_first r s = search_from r [] s
