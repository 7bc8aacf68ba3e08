-- ===== src/HttpServer/Header.antt =====
-- The header lines of a request, as `parse_request` of web_server/server_http.hpp and
-- `parse_handshake` of web_socket_server/server_ws.hpp read them; they differ in how a field is
-- inserted.
pub mod Reading
pub mod Ending
use boost_irc.Base.{
  ℕ, zero, suc, ◌+◌, ◌==◌, ltb, Bool, true, false, Option, none, some, List, [], ◌∷◌, ◌++◌, Bytes,
  length, get_elem?, if◌then◌else◌,
}
use boost_irc.Std.Find.{index_of, substr, size_sub}
use boost_irc.Std.Stream.{Stream, getline}

abbrev pub Fields : Type 0
Fields = List (Bytes × Bytes)

abbrev pub is_space_at : ℕ → Bytes → Bool
is_space_at i line = elim (get_elem? line i) [ none ↦ false | some c ↦ c == b' ' ]

module _ (insert : Bytes × Bytes → Fields → Fields) where
  -- `header.insert(make_pair(line.substr(0, param_end), line.substr(value_start, …)))`, on a line
  -- that ends with a carriage return.
  abbrev pub insert_value : Bytes → ℕ → ℕ → Fields → Fields
  insert_value line param_end value_start header =
      if ltb value_start (length line)
      then insert
          (
            substr 0 param_end line,
            substr value_start (size_sub (size_sub (length line) value_start) 1) line,
          )
          header
      else header

  -- The body of the loop but for the next getline; one space behind the colon is skipped.
  unfoldable pub insert_line : Bytes → ℕ → Fields → Fields
  unfolding size_sub
  insert_line line param_end header =
      let value_start = param_end + 1 in
      if ltb value_start (length line)
      then insert_value line param_end
          (if is_space_at value_start line then value_start + 1 else value_start) header
      else header

  -- `while((param_end=line.find(':'))!=npos)`, on the line that was read last: none where the
  -- rounds do not suffice.
  unfoldable pub read_header : ℕ → Bytes → Stream → Fields → Option (Fields × Stream)
  unfolding index_of insert_line getline
  read_header zero line stream header = none
  read_header (suc fuel) line stream header = elim (index_of b':' line) [
    | none ↦ some (header, stream)
    | some param_end ↦
        read_header fuel (getline stream line).0 (getline stream line).1
          (insert_line line param_end header)
  ]
