-- ===== src/Irc/Reader/Lines.antt =====
-- The loop hands over the lines of the buffer, in order, and takes one round for each.
use boost_irc.Base.{
  ℕ, zero, suc, ◌≤◌, ◌<◌, ◌≡◌, refl, ap, ◌∙◌, sym, true, ◌==◌, List, [], ◌∷◌, ◌++◌, Bytes, length,
  lacks, lacks-append, newline, if◌then◌else◌, arith, append-nil, append_assoc,
}
use boost_irc.Irc.Effects.{Run, ◌>>◌, return, for_each, for_each-append}
use boost_irc.Irc.Reader.{getline, read_lines}

-- The texts between the line feeds; what follows the last one is a line unless it is empty.
abbrev pub lines_from : Bytes → Bytes → List Bytes
lines_from line [] = line ∷ []
lines_from line (c ∷ []) = if c == b'\n' then line ∷ [] else (line ++ (c ∷ [])) ∷ []
lines_from line (c ∷ d ∷ s) =
    if c == b'\n' then line ∷ lines_from [] (d ∷ s) else lines_from (line ++ (c ∷ [])) (d ∷ s)

abbrev pub lines : Bytes → List Bytes
lines = lines_from []

length-getline : (c : ℕ) (s : Bytes) → length (getline (c ∷ s)).1 ≤ length s
unfolding getline
length-getline c [] = ground arith
length-getline c (d ∷ s) = ground (arith, length-getline d s)

abbrev lines_rest : Bytes → List Bytes
lines_rest [] = []
lines_rest (c ∷ s) = lines (c ∷ s)

-- The first line is that of `getline`.
lines-getline :
    (before : Bytes) (c : ℕ) (s : Bytes)
    → lines_from before (c ∷ s) ≡ (before ++ (getline (c ∷ s)).0) ∷ lines_rest (getline (c ∷ s)).1
unfolding getline
lines-getline before c [] = ground (arith, append-nil before)
lines-getline before c (d ∷ s) = ground (
  arith,
  append-nil before,
  append_assoc before (c ∷ []) (getline (d ∷ s)).0,
  lines-getline (before ++ (c ∷ [])) d s,
)

module _ (read : Bytes → Run (Unit {0})) where
  next_rounds :
      (fuel : ℕ) (r : Bytes)
      → ((c : ℕ) (s : Bytes)
          → length s < fuel
          → read_lines read fuel (c ∷ s) ≡ for_each read (lines (c ∷ s)))
      → length r ≤ fuel
      → elim r [ [] ↦ return tt | c ∷ s ↦ read_lines read fuel (c ∷ s) ]
        ≡ for_each read (lines_rest r)
  next_rounds fuel [] ih h = refl
  next_rounds fuel (c ∷ s) ih h = ih c s (omega arith)

  -- The loop ends within as many rounds as the buffer has bytes, and hands the lines of the buffer
  -- to `read`, in order, up to the first call that throws.
  pub read_lines-eq-for_each :
      (fuel c : ℕ) (s : Bytes)
      → length s < fuel
      → read_lines read fuel (c ∷ s) ≡ for_each read (lines (c ∷ s))
  unfolding read_lines
  read_lines-eq-for_each zero c s h = absurd (omega arith)
  read_lines-eq-for_each (suc fuel) c s h = rw (lines-getline [] c s) (
      ap (λ k. read (getline (c ∷ s)).0 >> k)
        (next_rounds fuel (getline (c ∷ s)).1 (read_lines-eq-for_each fuel)
          (omega (arith, length-getline c s))))

-- Where a line feed stands between two parts, the parts' lines are those of the whole.
pub lines-append :
    (before x : Bytes) (c : ℕ) (s : Bytes)
    → lines_from before (x ++ (b'\n' ∷ c ∷ s)) ≡ lines_from before (x ++ newline) ++ lines (c ∷ s)
lines-append before [] c s = refl
lines-append before (d ∷ []) c s = ground arith
lines-append before (d ∷ e ∷ x) c s =
    ground (arith, lines-append [] (e ∷ x) c s, lines-append (before ++ (d ∷ [])) (e ∷ x) c s)

pub lines-lacks :
    (before : Bytes) (c : ℕ) (s : Bytes)
    → lacks b'\n' (c ∷ s) ≡ true
    → (lines_from before (c ∷ s) ≡ (before ++ (c ∷ s)) ∷ [])
      × (lines_from before ((c ∷ s) ++ newline) ≡ (before ++ (c ∷ s)) ∷ [])
lines-lacks before c [] h = (ground arith, ground arith)
lines-lacks before c (d ∷ s) h =
    let ih = lines-lacks (before ++ (c ∷ [])) d s (ground arith) in
    (
      ground (arith, ih.0, append_assoc before (c ∷ []) (d ∷ s)),
      ground (arith, ih.1, append_assoc before (c ∷ []) (d ∷ s)),
    )

lines_halves :
    (x : Bytes) (c : ℕ) (y : Bytes) (d : ℕ) (z : Bytes)
    → lacks b'\n' (c ∷ y) ≡ true
    → lacks b'\n' (d ∷ z) ≡ true
    → lines (x ++ (b'\n' ∷ c ∷ y)) ++ lines ((d ∷ z) ++ newline)
      ≡ lines (x ++ newline) ++ ((c ∷ y) ∷ (d ∷ z) ∷ [])
lines_halves x c y d z hy hz =
    rw (lines-append [] x c y, (lines-lacks [] c y hy).0, (lines-lacks [] d z hz).1)
      (simp append_assoc)

lines_whole :
    (x : Bytes) (c : ℕ) (y : Bytes) (d : ℕ) (z : Bytes)
    → lacks b'\n' (c ∷ y) ≡ true
    → lacks b'\n' (d ∷ z) ≡ true
    → lines (x ++ (b'\n' ∷ c ∷ (y ++ ((d ∷ z) ++ newline))))
      ≡ lines (x ++ newline) ++ (((c ∷ y) ++ (d ∷ z)) ∷ [])
lines_whole x c y d z hy hz = rw (lines-append [] x c (y ++ ((d ∷ z) ++ newline))) (
    ap (λ l. lines (x ++ newline) ++ l)
      (rw (append_assoc y (d ∷ z) newline) at
        (lines-lacks [] c (y ++ (d ∷ z)) (lacks-append b'\n' (c ∷ y) (d ∷ z) hy hz)).1))

module _ (read : Bytes → Run (Unit {0})) where
  -- The loop on a buffer that is not empty, with the fuel that its handler gives it.
  pub run_buffer :
      (x : Bytes) (c : ℕ) (s : Bytes)
      → read_lines read (length (x ++ (c ∷ s))) (x ++ (c ∷ s))
        ≡ for_each read (lines (x ++ (c ∷ s)))
  run_buffer [] c s = read_lines-eq-for_each read (length (c ∷ s)) c s (omega arith)
  run_buffer (d ∷ x) c s =
      read_lines-eq-for_each read (length (d ∷ (x ++ (c ∷ s)))) d (x ++ (c ∷ s)) (omega arith)

  -- A text that comes in two reads is handled as in one, where the first ends with a line.
  pub read_lines-append :
      (x : Bytes) (c : ℕ) (s : Bytes)
      → (read_lines read (length (x ++ newline)) (x ++ newline)
          >> read_lines read (length (c ∷ s)) (c ∷ s))
        ≡ read_lines read (length (x ++ (b'\n' ∷ c ∷ s))) (x ++ (b'\n' ∷ c ∷ s))
  read_lines-append x c s =
      rw
        (
          run_buffer x b'\n' [],
          run_buffer x b'\n' (c ∷ s),
          run_buffer [] c s,
          lines-append [] x c s,
        )
        (sym (for_each-append read (lines (x ++ newline)) (lines (c ∷ s))))

  -- Where a read ends inside a line, the two halves of the line are handled as two lines, though
  -- the whole text has one line there.
  pub read_lines_torn :
      (x : Bytes) (c : ℕ) (y : Bytes) (d : ℕ) (z : Bytes)
      → lacks b'\n' (c ∷ y) ≡ true
      → lacks b'\n' (d ∷ z) ≡ true
      → ((read_lines read (length (x ++ (b'\n' ∷ c ∷ y))) (x ++ (b'\n' ∷ c ∷ y))
            >> read_lines read (length ((d ∷ z) ++ newline)) ((d ∷ z) ++ newline))
          ≡ for_each read (lines (x ++ newline) ++ ((c ∷ y) ∷ (d ∷ z) ∷ [])))
        × (read_lines read
              (length (x ++ (b'\n' ∷ c ∷ (y ++ ((d ∷ z) ++ newline)))))
              (x ++ (b'\n' ∷ c ∷ (y ++ ((d ∷ z) ++ newline))))
            ≡ for_each read (lines (x ++ newline) ++ (((c ∷ y) ++ (d ∷ z)) ∷ [])))
  read_lines_torn x c y d z hy hz = (
    rw (run_buffer x b'\n' (c ∷ y), run_buffer (d ∷ z) b'\n' [])
        (sym (for_each-append read (lines (x ++ (b'\n' ∷ c ∷ y))) (lines ((d ∷ z) ++ newline)))
          ∙ ap (for_each read) (lines_halves x c y d z hy hz)),
    run_buffer x b'\n' (c ∷ (y ++ ((d ∷ z) ++ newline)))
        ∙ ap (for_each read) (lines_whole x c y d z hy hz),
  )
