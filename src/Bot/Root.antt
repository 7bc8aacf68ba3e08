-- ===== src/Bot/Root.antt =====
-- Which files are served, and at which paths.
use boost_irc.Base.{
  ◌≡◌, refl, ap, ◌⊎◌, inl, inr, true, some, [], ◌∷◌, ◌++◌, Bytes, codes, equal_iff, arith,
  Bool-cases, Option-cases, ◌≢◌, length, leb, if◌then◌else◌, ◌∙◌, subst,
}
use boost_irc.Bot.{
  FilePath, FileSystem, equal_range, within, file, thrown, not_opened, answer_file, answer_in_root,
  answer,
}

equal_range-append :
    (root path : FilePath) → equal_range root path ≡ true → (r : FilePath) × (path ≡ root ++ r)
equal_range-append [] path h = (path, refl)
equal_range-append (x ∷ root) [] h = cc
equal_range-append (x ∷ root) (y ∷ path) h =
    let (r, e) = equal_range-append root path (ground arith) in
    (r, ground (arith, equal_iff x y, e))

-- Where a file is served, its canonical path lies in the root: it is the path that is opened, or
-- the directory of the index.html that is opened.
pub record IsServed (fs : FileSystem) (request_path : Bytes) (path : FilePath) (content : Bytes)
    : Type 0 where
  pub root : FilePath
  pub below : FilePath
  pub root_is : fs.canonical (codes "web" ∷ []) ≡ some root
  pub canonical_is : fs.canonical (fs.append root request_path) ≡ some (root ++ below)
  pub opened : fs.open_file path ≡ some content
  pub regular : fs.is_regular_file path ≡ true
  pub path_is :
      (path ≡ root ++ below)
      ⊎ ((fs.is_directory (root ++ below) ≡ true)
          × (path ≡ fs.append (root ++ below) (codes "index.html")))

module _ (fs : FileSystem) (request_path : Bytes) where
  not_opened-ne-file :
      (path : FilePath) (content : Bytes) → not_opened request_path ≢ file path content
  unfolding not_opened
  not_opened-ne-file path content h = cc

  answer_file-opened :
      (p path : FilePath) (content : Bytes)
      → answer_file fs request_path p ≡ file path content
      → (p ≡ path) × (fs.is_regular_file path ≡ true) × (fs.open_file path ≡ some content)
  unfolding answer_file
  answer_file-opened p path content h = ground (
    arith,
    Bool-cases (fs.exists p),
    Bool-cases (fs.is_regular_file p),
    Option-cases (fs.open_file p),
    not_opened-ne-file path content,
  )

  file_in :
      (root below path : FilePath) (content : Bytes)
      → fs.canonical (codes "web" ∷ []) ≡ some root
      → fs.canonical (fs.append root request_path) ≡ some (root ++ below)
      → answer_file fs request_path (
          if fs.is_directory (root ++ below)
          then fs.append (root ++ below) (codes "index.html")
          else (root ++ below))
        ≡ file path content
      → IsServed fs request_path path content
  file_in root below path content r c h =
      let (p, regular, opened) = answer_file-opened _ path content h in
      record {
        root = root;
        below = below;
        root_is = r;
        canonical_is = c;
        opened = opened;
        regular = regular;
        path_is = elim (Bool-cases (fs.is_directory (root ++ below))) [
          | inl d ↦ inr (d, ground (arith, p, d))
          | inr d ↦ inl (ground (arith, p, d))
        ];
      }

  -- The check of the root.
  answer_in_root-within :
      (root p path : FilePath) (content : Bytes)
      → answer_in_root fs request_path root p ≡ file path content
      → (equal_range root p ≡ true)
        × (answer_file fs request_path
              (if fs.is_directory p then fs.append p (codes "index.html") else p)
            ≡ file path content)
  unfolding answer_in_root within
  answer_in_root-within root p path content h = ground (
    arith,
    Bool-cases (equal_range root p),
    Bool-cases (leb (length root) (length p)),
    not_opened-ne-file path content,
  )

  -- The served file, on the paths that were found.
  within_file :
      (root p path : FilePath) (content : Bytes)
      → fs.canonical (codes "web" ∷ []) ≡ some root
      → fs.canonical (fs.append root request_path) ≡ some p
      → answer_in_root fs request_path root p ≡ file path content
      → IsServed fs request_path path content
  within_file root p path content r c h =
      let (w, h') = answer_in_root-within root p path content h in
      let (below, e) = equal_range-append root p w in
      file_in root below path content r (c ∙ ap some e) (
        subst
          (λ q.
            answer_file fs request_path
              (if fs.is_directory q then fs.append q (codes "index.html") else q)
            ≡ file path content)
          e h')

  thrown-ne-file : (path : FilePath) (content : Bytes) → thrown ≢ file path content
  thrown-ne-file path content h = cc

  -- The canonical path of the request, where a file is served.
  answer-canonical :
      (path : FilePath) (content : Bytes)
      → answer fs request_path ≡ file path content
      → (root : FilePath) × (p : FilePath) × (fs.canonical (codes "web" ∷ []) ≡ some root)
        × (fs.canonical (fs.append root request_path) ≡ some p)
        × (answer_in_root fs request_path root p ≡ file path content)
  unfolding answer
  answer-canonical path content h = elim (Option-cases (fs.canonical (codes "web" ∷ []))) [
    | inl n ↦ absurd (thrown-ne-file path content (ground (arith, n, h)))
    | inr (root, r) ↦ elim (Option-cases (fs.canonical (fs.append root request_path))) [
      | inl n ↦ absurd (
          ground (
            arith,
            n,
            r,
            h,
            Bool-cases (fs.exists (fs.append root request_path)),
            thrown-ne-file path content,
            not_opened-ne-file path content,
          ))
      | inr (p, c) ↦ (
        root,
        p,
        r,
        c,
        ground (
          arith,
          c,
          r,
          h,
          Bool-cases (fs.exists (fs.append root request_path)),
          not_opened-ne-file path content,
        ),
      )
    ]
  ]

  -- A file is answered only if it lies in the root: it is a regular file, with its bytes, at the
  -- canonical path of the request, whose components start with those of the root's canonical
  -- path, or at the index.html of the directory that this path names.
  pub answer-IsServed :
      (path : FilePath) (content : Bytes)
      → answer fs request_path ≡ file path content
      → IsServed fs request_path path content
  answer-IsServed path content h =
      let (root, p, r, c, a) = answer-canonical path content h in
      within_file root p path content r c a
