-- ===== src/Twitch/Database.antt =====
-- The constructor's use of SQLite and the callback of its query. SQLite's results are parameters.
use boost_irc.Base.{
  ℕ, suc, all, all-append, append-nil, not, ◌&&◌, if◌then◌else◌, sym, ap, ◌≡◌, refl, Bool, true,
  false, Option, none, some, List, [], ◌∷◌, ◌++◌, Bytes, codes, newline, append_assoc,
}

-- The calls of SQLite, and what is printed.
pub data Call : Type 0 where
  open_db close_db free_message : Call
  exec stderr stdout : Bytes → Call

-- One row of a result: names of columns and values, none for a null pointer.
abbrev pub Row : Type 0
Row = List (Bytes × Option Bytes)

abbrev value_or_null : Option Bytes → Bytes
value_or_null none = codes "NULL"
value_or_null (some v) = v

-- The loop of `callback`.
columns : Row → List Call
columns [] = []
columns ((name, value) ∷ row) =
    stdout (name ++ (codes " = " ++ (value_or_null value ++ newline))) ∷ columns row

-- `callback`: it always answers 0, so the query goes on.
unfoldable pub callback : Row → List Call
unfolding columns
callback row = columns row ++ (stdout newline ∷ [])

-- The rows that the query yields.
unfoldable pub print_rows : List Row → List Call
unfolding callback
print_rows [] = []
print_rows (row ∷ rows) = callback row ++ print_rows rows

abbrev persons : Bytes
persons = codes "select * from persons"

-- The constructor's body: whether sqlite3_open and sqlite3_exec fail, their messages, and the rows.
unfoldable pub query_persons : Bool → Bytes → Bool → Bytes → List Row → List Call
unfolding print_rows
query_persons true open_message query_fails query_message rows =
    open_db ∷ stderr (codes "Can't open database: " ++ (open_message ++ newline)) ∷ close_db ∷ []
query_persons false open_message false query_message rows =
    open_db ∷ exec persons ∷ (print_rows rows ++ (close_db ∷ []))
query_persons false open_message true query_message rows =
    open_db
    ∷ exec persons
    ∷ (print_rows rows
        ++ (stderr (codes "SQL error: " ++ (query_message ++ newline))
            ∷ free_message
            ∷ close_db
            ∷ []))

-- Calls that leave the handle as it is.
abbrev pub keeps_handle : Call → Bool
keeps_handle open_db = false
keeps_handle close_db = false
keeps_handle _ = true

-- The queries among some calls, and how often a message of an error was freed.
abbrev pub queries : List Call → List Bytes
queries [] = []
queries (exec sql ∷ cs) = sql ∷ queries cs
queries (open_db ∷ cs) = queries cs
queries (close_db ∷ cs) = queries cs
queries (free_message ∷ cs) = queries cs
queries (stderr t ∷ cs) = queries cs
queries (stdout t ∷ cs) = queries cs

abbrev pub frees : List Call → ℕ
frees [] = 0
frees (free_message ∷ cs) = suc (frees cs)
frees (exec sql ∷ cs) = frees cs
frees (open_db ∷ cs) = frees cs
frees (close_db ∷ cs) = frees cs
frees (stderr t ∷ cs) = frees cs
frees (stdout t ∷ cs) = frees cs

-- The handle is opened first and closed last, and once each; in between there is one query if it
-- was opened, and the message of an error is freed once if the query fails.
pub record IsHandled (open_fails query_fails : Bool) (cs : List Call) : Type 0 where
  pub middle : List Call
  pub handled : cs ≡ open_db ∷ (middle ++ (close_db ∷ []))
  pub others : all keeps_handle middle ≡ true
  pub queries_are : queries middle ≡ (if open_fails then [] else persons ∷ [])
  pub frees_are : frees middle ≡ (if not open_fails && query_fails then 1 else 0)

-- Calls that only print.
abbrev prints : Call → Bool
prints (stderr t) = true
prints (stdout t) = true
prints _ = false

columns-prints : (row : Row) → all prints (columns row) ≡ true
unfolding columns
columns-prints [] = refl
columns-prints ((name, value) ∷ row) = columns-prints row

print_rows-prints : (rows : List Row) → all prints (print_rows rows) ≡ true
unfolding print_rows callback
print_rows-prints [] = refl
print_rows-prints (row ∷ rows) =
    all-append prints (columns row ++ (stdout newline ∷ [])) (print_rows rows)
      (all-append prints (columns row) (stdout newline ∷ []) (columns-prints row) refl)
      (print_rows-prints rows)

-- What is behind calls that only print.
record Passes (ps cs : List Call) : Type 0 where
  others_are : all keeps_handle (ps ++ cs) ≡ all keeps_handle cs
  queries_pass : queries (ps ++ cs) ≡ queries cs
  frees_pass : frees (ps ++ cs) ≡ frees cs

prints-Passes : (ps cs : List Call) → all prints ps ≡ true → Passes ps cs
prints-Passes [] cs h = record { others_are = refl; queries_pass = refl; frees_pass = refl }
prints-Passes (stdout t ∷ ps) cs h =
    let i = prints-Passes ps cs h in
    record { others_are = i.others_are; queries_pass = i.queries_pass; frees_pass = i.frees_pass }
prints-Passes (stderr t ∷ ps) cs h =
    let i = prints-Passes ps cs h in
    record { others_are = i.others_are; queries_pass = i.queries_pass; frees_pass = i.frees_pass }
prints-Passes (open_db ∷ ps) cs h = absurd cc
prints-Passes (close_db ∷ ps) cs h = absurd cc
prints-Passes (free_message ∷ ps) cs h = absurd cc
prints-Passes (exec sql ∷ ps) cs h = absurd cc

-- On every path, whatever the query yields: the constructor opens a handle first and closes it
-- last, once each; in between it makes its query once if the handle was opened, and not if not; and
-- it frees the message of an error once if the query fails, and else never.
pub query_persons-IsHandled :
    (open_fails : Bool) (open_message : Bytes) (query_fails : Bool) (query_message : Bytes)
    (rows : List Row)
    → IsHandled open_fails query_fails
        (query_persons open_fails open_message query_fails query_message rows)
unfolding query_persons
query_persons-IsHandled true a q d rows = record {
  middle = stderr (codes "Can't open database: " ++ (a ++ newline)) ∷ [];
  handled = refl;
  others = refl;
  queries_are = refl;
  frees_are = refl;
}
query_persons-IsHandled false a false d rows =
    let i = prints-Passes (print_rows rows) [] (print_rows-prints rows) in
    record {
      middle = exec persons ∷ (print_rows rows ++ []);
      handled = rw (append-nil (print_rows rows)) refl;
      others = i.others_are;
      queries_are = ap (persons ∷◌) i.queries_pass;
      frees_are = i.frees_pass;
    }
query_persons-IsHandled false a true d rows =
    let behind = stderr (codes "SQL error: " ++ (d ++ newline)) ∷ free_message ∷ [] in
    let i = prints-Passes (print_rows rows) behind (print_rows-prints rows) in
    record {
      middle = exec persons ∷ (print_rows rows ++ behind);
      handled =
          ap (λ cs. open_db ∷ exec persons ∷ cs)
            (sym (append_assoc (print_rows rows) behind (close_db ∷ [])));
      others = i.others_are;
      queries_are = ap (persons ∷◌) i.queries_pass;
      frees_are = i.frees_pass;
    }
