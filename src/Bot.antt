-- ===== src/Bot.antt =====
-- src/bot.cpp: the handler of the pages' files, and the sending of a file in parts. The file
-- system, with Boost's functions on it, is a parameter.
pub mod Root
pub mod Sending
pub mod Endpoints
pub mod Opening
pub mod Channel
use boost_irc.Base.{
  ℕ, zero, suc, ◌+◌, ◌/◌, ◌%◌, ◌==◌, leb, ltb, Bool, true, false, not, ◌&&◌, Option, none, some,
  List, [], ◌∷◌, ◌++◌, Bytes, codes, equal, take, drop, length, if◌then◌else◌,
}

-- A path as the sequence of its components, which is what its iterators run over.
abbrev pub FilePath : Type 0
FilePath = List Bytes

pub record FileSystem : Type 0 where
  -- boost::filesystem::canonical; none where it throws
  pub canonical : FilePath → Option FilePath
  pub exists : FilePath → Bool
  pub is_directory : FilePath → Bool
  pub is_regular_file : FilePath → Bool
  -- `path /= text`
  pub append : FilePath → Bytes → FilePath
  -- The bytes of a file that can be opened.
  pub open_file : FilePath → Option Bytes

-- `out << n` for a number: its decimal digits.
decimal_from : ℕ → ℕ → Bytes → Bytes
decimal_from zero n digits = digits
decimal_from (suc fuel) n digits =
    let more = decimal_from fuel (n / 10) ((48 + n % 10) ∷ digits) in
    if ltb n 10 then (48 + n % 10) ∷ digits else more

unfoldable pub decimal : ℕ → Bytes
unfolding decimal_from
decimal n = decimal_from (suc n) n []

-- `equal(root.begin(), root.end(), path.begin())`, on a path with as many components.
abbrev pub equal_range : FilePath → FilePath → Bool
equal_range [] path = true
equal_range (x ∷ root) [] = false
equal_range (x ∷ root) (y ∷ path) = equal x y && equal_range root path

-- "Check if path is within web_root_path"
unfoldable pub within : FilePath → FilePath → Bool
within root path = leb (length root) (length path) && equal_range root path

-- What the handler answers with: a file, from its path, or the text of a bad request.
pub data Answer : Type 0 where
  file : FilePath → Bytes → Answer
  bad_request : Bytes → Answer
  -- the handler threw, which `write_response` catches
  thrown : Answer

unfoldable pub not_opened : Bytes → Answer
not_opened request_path = bad_request (codes "Could not open path " ++ request_path)

module _ (fs : FileSystem) where
  -- The innermost block, on the path of a file in the root.
  unfoldable pub answer_file : Bytes → FilePath → Answer
  unfolding not_opened
  answer_file request_path path =
      if fs.exists path && fs.is_regular_file path
      then elim (fs.open_file path) [
        | some content ↦ file path content
        | none ↦ not_opened request_path
      ]
      else not_opened request_path

  -- The block that checks the root, on the canonical path.
  unfoldable pub answer_in_root : Bytes → FilePath → FilePath → Answer
  unfolding answer_file within
  answer_in_root request_path root path =
      if within root path
      then answer_file request_path
          (if fs.is_directory path then fs.append path (codes "index.html") else path)
      else not_opened request_path

  -- `default_resource["GET"]`
  unfoldable pub answer : Bytes → Answer
  unfolding answer_in_root
  answer request_path = elim (fs.canonical (codes "web" ∷ [])) [
    | none ↦ thrown
    | some root ↦
        if fs.exists (fs.append root request_path)
        then elim (fs.canonical (fs.append root request_path)) [
          | none ↦ thrown
          | some path ↦ answer_in_root request_path root path
        ]
        else not_opened request_path
  ]

-- The head of a response, with the length of what follows.
unfoldable pub head : Bytes → Bytes → Bytes
unfolding decimal
head status content =
    codes "HTTP/1.1 "
    ++ (status ++ (codes "\r\nContent-Length: " ++ (decimal (length content) ++ codes "\r\n\r\n")))

-- What a send of the response meets: an error ends the sending.
pub record Sent : Type 0 where
  pub writes : List Bytes
  pub interrupted : Bool

abbrev write_first : Bytes → Sent → Sent
write_first b s = record s { writes = b ∷ s.writes }

abbrev pub next_error : List Bool → Bool × List Bool
next_error [] = (false, [])
next_error (e ∷ es) = (e, es)

-- `default_resource_send`: the bytes left in the file, those in the response, the errors of the
-- sends to come. A part that fills the buffer is sent, and the next read follows its callback;
-- what is in the response at the end is sent by the deleter of the response.
unfoldable pub default_resource_send : ℕ → ℕ → List Bool → Bytes → Bytes → Option Sent
default_resource_send size zero errors left response = none
default_resource_send size (suc fuel) errors left response =
    let later = default_resource_send size fuel (next_error errors).1 (drop size left) [] in
    if length (take size left) == 0
    then some (record { writes = response ∷ []; interrupted = false })
    else if length (take size left) == size
    then (if (next_error errors).0
        then some (record { writes = (response ++ take size left) ∷ []; interrupted = true })
        else elim later [
          | none ↦ none
          | some s ↦ some (write_first (response ++ take size left) s)
        ])
    else some (record { writes = (response ++ take size left) ∷ []; interrupted = false })

-- "read and send 128 KB at a time"
abbrev pub buffer_size : ℕ
buffer_size = 131072

-- The bytes that an answer sends, and whether a send failed.
unfoldable pub respond : List Bool → Answer → Option Sent
respond errors (file path content) =
    default_resource_send buffer_size (suc (length content)) errors content
      (head (codes "200 OK") content)
respond errors (bad_request text) =
    some
      (record { writes = (head (codes "400 Bad Request") text ++ text) ∷ []; interrupted = false })
respond errors thrown = some (record { writes = [] ∷ []; interrupted = false })
