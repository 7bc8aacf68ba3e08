-- ===== src/Irc/Reader.antt =====
-- The read loop of `irc_client::read()`: the lines of the buffer that a read has filled.
pub mod Lines
use boost_irc.Base.{ℕ, zero, suc, ◌==◌, List, [], ◌∷◌, Bytes, if◌then◌else◌}
use boost_irc.Irc.Effects.{Run, ◌>>=◌, ◌>>◌, return, raise, out_of_fuel}

-- `getline(response_stream, line)`: the line, and what stays in the buffer.
unfoldable pub getline : Bytes → Bytes × Bytes
getline [] = ([], [])
getline (c ∷ s) = let (line, rest) = getline s in if c == b'\n' then ([], s) else (c ∷ line, rest)

-- `do { getline(response_stream, line); read(line); } while(response.size() > 0);`
unfoldable pub read_lines : (Bytes → Run (Unit {0})) → ℕ → Bytes → Run (Unit {0})
read_lines read zero buffer = raise out_of_fuel
read_lines read (suc fuel) buffer =
    let (line, rest) = getline buffer in
    do read line; elim rest [ [] ↦ return tt | c ∷ s ↦ read_lines read fuel (c ∷ s) ]
