-- ===== src/Std/Stream.antt =====
-- `getline` on an input stream, with the stream's state.
use boost_irc.Base.{
  ◌≡◌, refl, ◌==◌, if◌then◌else◌, Bool, true, false, [], ◌∷◌, ◌++◌, Bytes, lacks, arith,
}

-- The bytes that are left, and whether no flag of the state is set.
pub record Stream : Type 0 where
  pub text : Bytes
  pub good : Bool

-- Up to a line feed, if there is one: the line, and what is left.
unfoldable pub cut_line : Bytes → Bytes × Stream
cut_line [] = ([], record { text = []; good = false })
cut_line (c ∷ s) =
    let (line, rest) = cut_line s in
    if c == b'\n' then ([], record { text = s; good = true }) else (c ∷ line, rest)

-- `getline(stream, line)`: a stream that is not good leaves the line as it was, and one that ends
-- before a line feed is not good any more.
unfoldable pub getline : Stream → Bytes → Bytes × Stream
unfolding cut_line
getline s line = if s.good then cut_line s.text else (line, s)

pub cut_line-append :
    (line rest : Bytes)
    → lacks b'\n' line ≡ true
    → cut_line (line ++ (b'\n' ∷ rest)) ≡ (line, record { text = rest; good = true })
unfolding cut_line
cut_line-append [] rest h = refl
cut_line-append (c ∷ line) rest h = ground (arith, cut_line-append line rest)

pub getline-append :
    (line rest old : Bytes)
    → lacks b'\n' line ≡ true
    → getline (record { text = line ++ (b'\n' ∷ rest); good = true }) old
      ≡ (line, record { text = rest; good = true })
unfolding getline
getline-append line rest old h = cut_line-append line rest h
