-- ===== src/Tests/Bot.antt =====
-- The handler of files, on a file system with one directory.
use boost_irc.Base.{
  ◌≡◌, refl, some, Bool, true, false, not, [], ◌∷◌, ◌++◌, Bytes, codes, length, ◌==◌, equal,
}
use boost_irc.Bot.{FileSystem, FilePath, answer, file, bad_request, decimal, respond, head}
use boost_irc.Bot.Root.{IsServed, answer-IsServed}
use boost_irc.Bot.Sending.{IsSending, respond-IsSending}

abbrev above : Bool → Bytes → Bytes → FilePath
above true a b = codes "home" ∷ []
above false a b = a ∷ b ∷ []

abbrev two_dots : FilePath → FilePath
two_dots (a ∷ b ∷ []) = above (equal b (codes "..")) a b
two_dots path = path

-- The root, with an index.html and a page, and a directory above it.
abbrev site : FileSystem
site = record {
  canonical = λ path. some (two_dots path);
  exists = λ path. true;
  is_directory = λ path. length path == 1;
  is_regular_file = λ path. not (length path == 1);
  append = λ path text. path ++ (text ∷ []);
  open_file = λ path. some (codes "hi");
}

decimal_runs : decimal 2048 ≡ codes "2048"
unfolding decimal
decimal_runs = refl

answer-outside : answer site (codes "..") ≡ bad_request (codes "Could not open path ..")
unfolding answer equal
answer-outside = refl

answer-IsServed_example :
    IsServed site (codes "page") (codes "web" ∷ codes "page" ∷ []) (codes "hi")
unfolding answer equal
answer-IsServed_example =
    answer-IsServed site (codes "page") (codes "web" ∷ codes "page" ∷ []) (codes "hi") refl

respond-IsSending_example :
    IsSending
      (head (codes "200 OK") (codes "hi") ++ codes "hi")
      (true ∷ [])
      (respond (true ∷ []) (file (codes "page" ∷ []) (codes "hi")))
respond-IsSending_example = respond-IsSending (true ∷ []) (codes "page" ∷ []) (codes "hi")
