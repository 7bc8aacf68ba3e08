-- ===== src/HttpServer/Header/Ending.antt =====
-- The loop over the header ends on every text that async_read_until can have read: one in which a
-- blank line stands.
use boost_irc.Base.{
  ℕ, zero, suc, ◌+◌, ◌<◌, ◌≡◌, refl, ap, ◌∙◌, inl, inr, true, ◌==◌, ==_iff, Bool-cases,
  Option-cases, Option, some, List, [], ◌∷◌, ◌++◌, Bytes, codes, length, length-append, lacks,
  arith, All,
}
use boost_irc.Std.Find.{index_of, index_of-none}
use boost_irc.Std.Stream.{Stream, getline-append}
use boost_irc.HttpServer.Header.{Fields, insert_line, read_header}
use boost_irc.HttpServer.Header.Reading.{read_header_step, read_header_end}

-- Lines, a blank one, and what follows.
abbrev pub ended : List Bytes → Bytes → Bytes
ended [] behind = codes "\r" ++ (b'\n' ∷ behind)
ended (l ∷ ls) behind = l ++ (b'\n' ∷ ended ls behind)

abbrev pub AreLines : List Bytes → Type 0
AreLines = All (λ l. lacks b'\n' l ≡ true)

abbrev pub good : Bytes → Stream
good text = record { text = text; good = true }

-- The lines of a text with two line ends in a row.
pub lines_of :
    (a behind : Bytes)
    → (l : Bytes) × (ls : List Bytes) × AreLines (l ∷ ls)
      × (a ++ (codes "\r\n\r\n" ++ behind) ≡ ended (l ∷ ls) behind)
lines_of [] behind = (codes "\r", [], (refl, tt), refl)
lines_of (c ∷ a) behind =
    let (l, ls, h, e) = lines_of a behind in
    elim (Bool-cases (c == b'\n')) [
      | inl n ↦ ([], l ∷ ls, (refl, h), rw ((==_iff c b'\n').0 n) (ap (b'\n' ∷◌) e))
      | inr n ↦ (c ∷ l, ls, ((rw n h.0), h.1), ap (c ∷◌) e)
    ]

pub length-ended : (ls : List Bytes) (behind : Bytes) → length ls < length (ended ls behind)
length-ended [] behind = omega arith
length-ended (l ∷ ls) behind =
    omega (arith, length-ended ls behind, length-append l (b'\n' ∷ ended ls behind))

module _ (insert : Bytes × Bytes → Fields → Fields) where
  abbrev pub Ends : Option (Fields × Stream) → Type 0
  Ends o = (r : Fields × Stream) × (o ≡ some r)

  -- One round on a line with a colon, where the next line is known.
  next_line :
      (fuel n : ℕ) (line next rest : Bytes) (header : Fields)
      → index_of b':' line ≡ some n
      → lacks b'\n' next ≡ true
      → read_header insert (suc fuel) line (good (next ++ (b'\n' ∷ rest))) header
        ≡ read_header insert fuel next (good rest) (insert_line insert line n header)
  next_line fuel n line next rest header e h =
      read_header_step insert fuel n line (good (next ++ (b'\n' ∷ rest))) header e
      ∙ ap (λ g. read_header insert fuel g.0 g.1 (insert_line insert line n header))
          (getline-append next rest line h)

  pub read_header-Ends :
      (ls : List Bytes) (behind line : Bytes) (fuel : ℕ) (header : Fields)
      → AreLines ls
      → length ls + 1 < fuel
      → Ends (read_header insert fuel line (good (ended ls behind)) header)
  read_header-Ends ls behind line zero header h l = absurd (omega (arith, l))
  read_header-Ends ls behind line (suc zero) header h l = absurd (omega (arith, l))
  read_header-Ends [] behind line (suc (suc fuel)) header h l =
      elim (Option-cases (index_of b':' line)) [
        | inl n ↦ (
          (header, good (ended [] behind)),
          read_header_end insert (suc fuel) line (good (ended [] behind)) header n,
        )
        | inr (n, e) ↦ (
          (insert_line insert line n header, good behind),
          next_line (suc fuel) n line (codes "\r") behind header e refl
              ∙ read_header_end insert fuel (codes "\r") (good behind)
                  (insert_line insert line n header) (index_of-none b':' (codes "\r") refl),
        )
      ]
  read_header-Ends (m ∷ ls) behind line (suc (suc fuel)) header h l =
      elim (Option-cases (index_of b':' line)) [
        | inl n ↦ (
          (header, good (ended (m ∷ ls) behind)),
          read_header_end insert (suc fuel) line (good (ended (m ∷ ls) behind)) header n,
        )
        | inr (n, e) ↦
            let (r, q) =
              read_header-Ends ls behind m (suc fuel) (insert_line insert line n header) h.1
                (omega (arith, l)) in
            (r, next_line (suc fuel) n line m (ended ls behind) header e h.0 ∙ q)
      ]
