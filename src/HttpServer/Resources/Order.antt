-- ===== src/HttpServer/Resources/Order.antt =====
-- `resource` and its methods are unordered maps, whose order of iteration is not specified.
use mathlib.Core.List.{Permᴰ}
use boost_irc.Base.{
  ℕ, suc, ◌+◌, ◌≤◌, ◌≡◌, refl, sym, ap, ◌∙◌, ◌⊎◌, zero, inl, inr, Option, none, some, Option-cases,
  List, [], ◌∷◌, ◌++◌, Bytes, arith,
}
use boost_irc.Boost.Regex.{Groups}
use boost_irc.HttpServer.Resources.{
  OptResource, add_resources, find_default, find_path, find_resource,
}
use boost_irc.HttpServer.Resources.Grouping.{
  for_method, of_method, or_else, find_path-append, find_resource-first,
}

zero-cases : (n : ℕ) → (n ≡ 0) ⊎ (1 ≤ n)
zero-cases zero = inl refl
zero-cases (suc n) = inr (omega arith)

abbrev matched : Option Groups → ℕ
matched none = 0
matched (some m) = 1

module _ {H : Type 0} (regex_match : Bytes → Bytes → Option Groups) (path : Bytes) where
  -- How many of the expressions match the path.
  abbrev pub matches : List (Bytes × H) → ℕ
  matches [] = 0
  matches ((expression, f) ∷ entries) = matched (regex_match expression path) + matches entries

  matches-append : (es fs : List (Bytes × H)) → matches (es ++ fs) ≡ matches es + matches fs
  matches-append [] fs = omega arith
  matches-append ((expression, f) ∷ es) fs = omega (arith, matches-append es fs)

  find_path-none : (es : List (Bytes × H)) → matches es ≡ 0 → find_path regex_match path es ≡ none
  unfolding find_path
  find_path-none [] h = refl
  find_path-none ((expression, f) ∷ es) h =
      ground (arith, Option-cases (regex_match expression path), find_path-none es)

  -- How many have a function for a method.
  abbrev pub fitting : Bytes → OptResource H → ℕ
  fitting method resource = matches (of_method method resource)

  -- The entries of one resource.
  abbrev own : Bytes → Bytes × List (Bytes × H) → List (Bytes × H)
  own method (expression, methods) = for_method method expression methods

  fitting-cons :
      (method : Bytes) (a : Bytes × List (Bytes × H)) (l : OptResource H)
      → fitting method (a ∷ l) ≡ matches (own method a) + fitting method l
  fitting-cons method a l = matches-append (own method a) (of_method method l)

  fitting-swap :
      (method : Bytes) (a b : Bytes × List (Bytes × H)) (l : OptResource H)
      → fitting method (a ∷ b ∷ l) ≡ fitting method (b ∷ a ∷ l)
  fitting-swap method a b l = omega (
    arith,
    fitting-cons method a (b ∷ l),
    fitting-cons method b l,
    fitting-cons method b (a ∷ l),
    fitting-cons method a l,
  )

  fitting-perm :
      (method : Bytes) {xs ys : OptResource H} → Permᴰ xs ys → fitting method xs ≡ fitting method ys
  fitting-perm method Permᴰ.nil = refl
  fitting-perm method (Permᴰ.cons {a} {b} {l₁} {l₂} e p) =
      ap (λ x. fitting method (x ∷ l₁)) e
      ∙ omega (arith, fitting-cons method b l₁, fitting-cons method b l₂, fitting-perm method p)
  fitting-perm method (Permᴰ.swap {a} {b} {a'} {b'} {l} e f) =
      fitting-swap method a b l
      ∙ ap (λ x. fitting method (x ∷ a ∷ l)) f
      ∙ ap (λ x. fitting method (a' ∷ x ∷ l)) e
  fitting-perm method (Permᴰ.trans p q) = fitting-perm method p ∙ fitting-perm method q

  -- What is found among the entries of some resources.
  abbrev found : Bytes → OptResource H → Option (Groups × H)
  found method resource = find_path regex_match path (of_method method resource)

  found-cons :
      (method : Bytes) (a : Bytes × List (Bytes × H)) (l : OptResource H)
      → found method (a ∷ l) ≡ or_else (find_path regex_match path (own method a)) (found method l)
  found-cons method a l = find_path-append regex_match path (own method a) (of_method method l)

  or_else_swap :
      (a b c : Option (Groups × H))
      → (a ≡ none) ⊎ (b ≡ none)
      → or_else a (or_else b c) ≡ or_else b (or_else a c)
  or_else_swap a b c (inl e) = rw e refl
  or_else_swap a b c (inr e) = rw e refl

  -- Of two resources at most one fits.
  found-swap :
      (method : Bytes) (a b : Bytes × List (Bytes × H)) (l : OptResource H)
      → fitting method (a ∷ b ∷ l) ≤ 1
      → found method (a ∷ b ∷ l) ≡ found method (b ∷ a ∷ l)
  found-swap method a b l u =
      found-cons method a (b ∷ l)
      ∙ ap (or_else (find_path regex_match path (own method a))) (found-cons method b l)
      ∙ or_else_swap (find_path regex_match path (own method a))
          (find_path regex_match path (own method b)) (found method l)
          (elim (zero-cases (matches (own method a))) [
            | inl z ↦ inl (find_path-none (own method a) z)
            | inr p ↦ inr (
                find_path-none (own method b)
                  (omega (arith, p, u, fitting-cons method a (b ∷ l), fitting-cons method b l)))
          ])
      ∙ ap (or_else (find_path regex_match path (own method b))) (sym (found-cons method a l))
      ∙ sym (found-cons method b (a ∷ l))

  found-perm :
      (method : Bytes) {xs ys : OptResource H}
      → Permᴰ xs ys
      → fitting method xs ≤ 1
      → found method xs ≡ found method ys
  found-perm method Permᴰ.nil u = refl
  found-perm method (Permᴰ.cons {a} {b} {l₁} {l₂} e p) u =
      ap (λ x. found method (x ∷ l₁)) e
      ∙ found-cons method b l₁
      ∙ ap (or_else (find_path regex_match path (own method b)))
          (found-perm method p (omega (arith, fitting-cons method a l₁, u)))
      ∙ sym (found-cons method b l₂)
  found-perm method (Permᴰ.swap {a} {b} {a'} {b'} {l} e f) u =
      found-swap method a b l u
      ∙ ap (λ x. found method (x ∷ a ∷ l)) f
      ∙ ap (λ x. found method (a' ∷ x ∷ l)) e
  found-perm method (Permᴰ.trans {l₂} p q) u =
      found-perm method p u ∙ found-perm method q (omega (arith, fitting-perm method p, u))

  -- Where at most one of the expressions that have a function for the method matches the path, the
  -- function that is called does not depend on the order in which the resources are listed.
  pub find_resource-perm :
      (method : Bytes) (resource other : OptResource H) (default_resource : List (Bytes × H))
      → Permᴰ resource other
      → fitting method resource ≤ 1
      → find_resource regex_match (add_resources resource []) default_resource method path
        ≡ find_resource regex_match (add_resources other []) default_resource method path
  find_resource-perm method resource other default_resource p u =
      find_resource-first regex_match path method resource default_resource
      ∙ ap (λ o. or_else o (find_default method default_resource)) (found-perm method p u)
      ∙ sym (find_resource-first regex_match path method other default_resource)
