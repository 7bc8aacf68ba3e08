-- ===== src/HttpServer/Header/Reading.antt =====
-- Fields that are written as `name: value` are read as they were written.
use boost_irc.Base.{
  ℕ, zero, suc, ◌+◌, ◌-◌, ◌<◌, ◌≡◌, refl, sym, ap, ◌∙◌, ltb-eq-true, true, false, none, some, [],
  ◌∷◌, ◌++◌, Bytes, codes, length, length-append, get_elem?, ◌==◌, lacks, lacks-append,
  append_assoc, arith, All,
}
use boost_irc.Std.Find.{
  index_of, index_of-append, index_of-none, substr, substr-append, size_sub, size_sub_le,
  take-length,
}
use boost_irc.Std.Stream.{Stream, getline, getline-append}
use boost_irc.HttpServer.Header.{Fields, insert_line, read_header, is_space_at}

-- A line without its line feed.
abbrev pub field_line : Bytes × Bytes → Bytes
field_line f = f.0 ++ ((b':' ∷ b' ' ∷ []) ++ (f.1 ++ codes "\r"))

abbrev pub IsField : Bytes × Bytes → Type 0
IsField f = (lacks b':' f.0 ≡ true) × (lacks b'\n' f.0 ≡ true) × (lacks b'\n' f.1 ≡ true)

-- The lines of some fields, and the blank one.
abbrev pub header_text : Fields → Bytes → Bytes
header_text [] body = codes "\r" ++ (b'\n' ∷ body)
header_text (f ∷ fs) body = field_line f ++ (b'\n' ∷ header_text fs body)

field_line-lacks : (f : Bytes × Bytes) → IsField f → lacks b'\n' (field_line f) ≡ true
field_line-lacks f h =
    lacks-append b'\n' f.0 ((b':' ∷ b' ' ∷ []) ++ (f.1 ++ codes "\r")) h.1
      (lacks-append b'\n' f.1 (codes "\r") h.2 refl)

get_elem?-append : (a s : Bytes) (c n : ℕ) → length a ≡ n → get_elem? (a ++ (c ∷ s)) n ≡ some c
get_elem?-append [] s c zero h = refl
get_elem?-append [] s c (suc n) h = absurd (omega arith)
get_elem?-append (x ∷ a) s c zero h = absurd (omega arith)
get_elem?-append (x ∷ a) s c (suc n) h = get_elem?-append a s c n (omega arith)

length-field_line : (f : Bytes × Bytes) → length (field_line f) ≡ length f.0 + 3 + length f.1
length-field_line f = omega (
  arith,
  length-append f.0 ((b':' ∷ b' ' ∷ []) ++ (f.1 ++ codes "\r")),
  length-append f.1 (codes "\r"),
)

two_more : (n : ℕ) → n + 1 + 1 ≡ n + 2
two_more n = omega arith

module _ (insert : Bytes × Bytes → Fields → Fields) where
  abbrev pub inserted : Fields → Fields → Fields
  inserted header [] = header
  inserted header (f ∷ fs) = inserted (insert f header) fs

  -- A line with a space behind the colon.
  insert_line_space :
      (line : Bytes) (n : ℕ) (header : Fields)
      → is_space_at (n + 1) line ≡ true
      → n + 2 < length line
      → insert_line insert line n header
        ≡ insert
            (substr 0 n line, substr (n + 2) (size_sub (size_sub (length line) (n + 2)) 1) line)
            header
  unfolding insert_line
  insert_line_space line n header s l =
      rw (ltb-eq-true (n + 1) (length line) (omega (arith, l)))
        (rw s (rw (two_more n) (rw (ltb-eq-true (n + 2) (length line) l) refl)))

  space_behind : (f : Bytes × Bytes) → is_space_at (length f.0 + 1) (field_line f) ≡ true
  space_behind f =
      ap (λ o. elim o [ none ↦ false | some c ↦ c == b' ' ])
        (ap (λ line. get_elem? line (length f.0 + 1))
            (sym (append_assoc f.0 (b':' ∷ []) (b' ' ∷ (f.1 ++ codes "\r"))))
          ∙ get_elem?-append (f.0 ++ (b':' ∷ [])) (f.1 ++ codes "\r") b' ' (length f.0 + 1)
              (length-append f.0 (b':' ∷ [])))

  value_size :
      (f : Bytes × Bytes)
      → size_sub (size_sub (length (field_line f)) (length f.0 + 2)) 1 ≡ length f.1
  value_size f =
      rw (size_sub_le (length (field_line f)) (length f.0 + 2) (omega (arith, length-field_line f)))
        (size_sub_le (length (field_line f) - (length f.0 + 2)) 1
            (omega (arith, length-field_line f))
          ∙ omega (arith, length-field_line f))

  field_parts :
      (f : Bytes × Bytes)
      → (substr 0 (length f.0) (field_line f) ≡ f.0)
        × (substr (length f.0 + 2) (length f.1) (field_line f) ≡ f.1)
  field_parts f = (
    take-length f.0 ((b':' ∷ b' ' ∷ []) ++ (f.1 ++ codes "\r")),
    ap (substr (length f.0 + 2) (length f.1))
          (sym (append_assoc f.0 (b':' ∷ b' ' ∷ []) (f.1 ++ codes "\r")))
        ∙ substr-append (length f.0 + 2) (length f.1) (f.0 ++ (b':' ∷ b' ' ∷ [])) f.1 (codes "\r")
            (length-append f.0 (b':' ∷ b' ' ∷ [])) refl,
  )

  insert_line-field_line :
      (f : Bytes × Bytes) (header : Fields)
      → insert_line insert (field_line f) (length f.0) header ≡ insert f header
  insert_line-field_line f header =
      insert_line_space (field_line f) (length f.0) header (space_behind f)
        (omega (arith, length-field_line f))
      ∙ ap
          (λ n.
            insert (substr 0 (length f.0) (field_line f), substr (length f.0 + 2) n (field_line f))
              header)
          (value_size f)
      ∙ ap (λ k. insert (k, substr (length f.0 + 2) (length f.1) (field_line f)) header)
          (field_parts f).0
      ∙ ap (λ v. insert (f.0, v) header) (field_parts f).1

  pub read_header_step :
      (fuel n : ℕ) (line : Bytes) (stream : Stream) (header : Fields)
      → index_of b':' line ≡ some n
      → read_header insert (suc fuel) line stream header
        ≡ read_header insert fuel
            (getline stream line).0
            (getline stream line).1
            (insert_line insert line n header)
  unfolding read_header
  read_header_step fuel n line stream header h = rw (h, read_header) refl

  pub read_header_end :
      (fuel : ℕ) (line : Bytes) (stream : Stream) (header : Fields)
      → index_of b':' line ≡ none
      → read_header insert (suc fuel) line stream header ≡ some (header, stream)
  unfolding read_header
  read_header_end fuel line stream header h = rw (h, read_header) refl

  -- The fields, with the first line read, and a body behind them.
  pub read_header-header_text :
      (fs : Fields) (fuel : ℕ) (body old : Bytes) (header : Fields)
      → All IsField fs
      → length fs < fuel
      → let first = getline (record { text = header_text fs body; good = true }) old in
        read_header insert fuel first.0 first.1 header
        ≡ some (inserted header fs, record { text = body; good = true })
  read_header-header_text fs zero body old header h l = absurd (omega (arith, l))
  read_header-header_text [] (suc fuel) body old header h l =
      rw (getline-append (codes "\r") body old refl) (
        read_header_end fuel (codes "\r") (record { text = body; good = true }) header
          (index_of-none b':' (codes "\r") refl))
  read_header-header_text (f ∷ fs) (suc fuel) body old header h l =
      rw (getline-append (field_line f) (header_text fs body) old (field_line-lacks f h.0)) (
        read_header_step fuel (length f.0) (field_line f)
          (record { text = header_text fs body; good = true }) header
          (index_of-append b':' f.0 (b' ' ∷ (f.1 ++ codes "\r")) h.0.0)
        ∙ rw (insert_line-field_line f header) (
            read_header-header_text fs fuel body (field_line f) (insert f header) h.1
              (omega (arith, l))))
