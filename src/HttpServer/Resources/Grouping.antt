-- ===== src/HttpServer/Resources/Grouping.antt =====
-- The grouping changes nothing: the function is the first whose method and expression fit.
use boost_irc.Base.{
  ◌≡◌, refl, sym, ap, ◌∙◌, subst, inl, inr, true, false, Option, none, some, List, [], ◌∷◌, ◌++◌,
  Bytes, equal, equal_iff, if◌then◌else◌, Bool-cases, Option-cases, append-nil, append_assoc, All,
  arith,
}
use boost_irc.Boost.Regex.{Groups}
use boost_irc.HttpServer.Resources.{
  OptResource, add_resource, add_methods, add_resources, find_default, find_path, find_method,
  find_resource,
}

equal_sym : (a b : Bytes) → equal a b ≡ false → equal b a ≡ false
equal_sym a b h = ground (arith, equal_iff a b, equal_iff b a, h)

module _ {H : Type 0} where
  -- The expressions with a function for the method, in the order of the resources.
  abbrev pub for_method : Bytes → Bytes → List (Bytes × H) → List (Bytes × H)
  for_method method expression [] = []
  for_method method expression ((m, f) ∷ methods) =
      if equal method m
      then (expression, f) ∷ for_method method expression methods
      else for_method method expression methods

  abbrev pub of_method : Bytes → List (Bytes × List (Bytes × H)) → List (Bytes × H)
  of_method method [] = []
  of_method method ((expression, methods) ∷ resource) =
      for_method method expression methods ++ of_method method resource

  -- Those in the groups.
  abbrev grouped : Bytes → List (Bytes × List (Bytes × H)) → List (Bytes × H)
  grouped method [] = []
  grouped method ((m, entries) ∷ opt) =
      if equal method m then entries ++ grouped method opt else grouped method opt

  -- Each method has one group.
  abbrev IsOther : Bytes → List (Bytes × List (Bytes × H)) → Type 0
  IsOther method = All (λ g. equal method g.0 ≡ false)

  abbrev IsDistinct : List (Bytes × List (Bytes × H)) → Type 0
  IsDistinct [] = Unit
  IsDistinct ((m, entries) ∷ opt) = IsOther m opt × IsDistinct opt

  grouped-IsOther :
      (method : Bytes) (opt : OptResource H) → IsOther method opt → grouped method opt ≡ []
  grouped-IsOther method [] h = refl
  grouped-IsOther method ((m, entries) ∷ opt) h = rw h.0 (grouped-IsOther method opt h.1)

  add_resource-IsOther :
      (k method : Bytes) (e : Bytes × H) (opt : OptResource H)
      → equal k method ≡ false
      → IsOther k opt
      → IsOther k (add_resource method e opt)
  unfolding add_resource
  add_resource-IsOther k method e [] n h = (n, tt)
  add_resource-IsOther k method e ((m, entries) ∷ opt) n h = elim (Bool-cases (equal method m)) [
    | inl q ↦ rw q h
    | inr q ↦ rw q (h.0, add_resource-IsOther k method e opt n h.1)
  ]

  add_resource-IsDistinct :
      (method : Bytes) (e : Bytes × H) (opt : OptResource H)
      → IsDistinct opt
      → IsDistinct (add_resource method e opt)
  unfolding add_resource
  add_resource-IsDistinct method e [] h = (tt, tt)
  add_resource-IsDistinct method e ((m, entries) ∷ opt) h = elim (Bool-cases (equal method m)) [
    | inl q ↦ rw q h
    | inr q ↦ rw q (
      add_resource-IsOther m method e opt (equal_sym method m q) h.0,
      add_resource-IsDistinct method e opt h.1,
    )
  ]

  same_group :
      (k method m : Bytes) (e : Bytes × H) (entries : List (Bytes × H)) (opt : OptResource H)
      → equal method m ≡ true
      → IsOther m opt
      → (if equal k m then (entries ++ (e ∷ [])) ++ grouped k opt else grouped k opt)
        ≡ (if equal k m then entries ++ grouped k opt else grouped k opt)
          ++ (if equal k method then e ∷ [] else [])
  same_group k method m e entries opt q h =
      let same : method ≡ m = (equal_iff method m).0 q in
      elim (Bool-cases (equal k m)) [
        | inl n ↦
            let none_left : grouped k opt ≡ [] =
              grouped-IsOther k opt (subst (λ x. IsOther x opt) (sym ((equal_iff k m).0 n)) h) in
            rw n (
              rw same (
                rw n (
                  rw none_left (
                    append-nil (entries ++ (e ∷ []))
                    ∙ ap (◌++ (e ∷ [])) (sym (append-nil entries))))))
        | inr n ↦ rw n (rw same (rw n (sym (append-nil (grouped k opt)))))
      ]

  added-for_method :
      (k expression m : Bytes) (f : H) (methods : List (Bytes × H))
      → (if equal k m then (expression, f) ∷ [] else []) ++ for_method k expression methods
        ≡ for_method k expression ((m, f) ∷ methods)
  added-for_method k expression m f methods = elim (Bool-cases (equal k m)) [
    | inl q ↦ rw q refl
    | inr q ↦ rw q refl
  ]

  grouped-add_resource :
      (k method : Bytes) (e : Bytes × H) (opt : OptResource H)
      → IsDistinct opt
      → grouped k (add_resource method e opt)
        ≡ grouped k opt ++ (if equal k method then e ∷ [] else [])
  unfolding add_resource
  grouped-add_resource k method e [] h = elim (Bool-cases (equal k method)) [
    | inl q ↦ rw q refl
    | inr q ↦ rw q refl
  ]
  grouped-add_resource k method e ((m, entries) ∷ opt) h = elim (Bool-cases (equal method m)) [
    | inl q ↦ rw q (same_group k method m e entries opt q h.0)
    | inr q ↦ rw q (elim (Bool-cases (equal k m)) [
      | inl n ↦ rw n (
          ap (entries ++◌) (grouped-add_resource k method e opt h.1)
          ∙ sym (append_assoc entries (grouped k opt) _))
      | inr n ↦ rw n (grouped-add_resource k method e opt h.1)
    ])
  ]

  abbrev added : Bytes → Bytes → Bytes × H → List (Bytes × H)
  added k method e = if equal k method then e ∷ [] else []

  grouped-add_methods :
      (k expression : Bytes) (methods : List (Bytes × H)) (opt : OptResource H)
      → IsDistinct opt
      → (grouped k (add_methods expression methods opt)
          ≡ grouped k opt ++ for_method k expression methods)
        × IsDistinct (add_methods expression methods opt)
  unfolding add_methods
  grouped-add_methods k expression [] opt h = (sym (append-nil (grouped k opt)), h)
  grouped-add_methods k expression ((m, f) ∷ methods) opt h =
      let (e, d) =
        grouped-add_methods k expression methods (add_resource m (expression, f) opt)
          (add_resource-IsDistinct m (expression, f) opt h) in
      (
        e
            ∙ ap (◌++ for_method k expression methods)
                (grouped-add_resource k m (expression, f) opt h)
            ∙ append_assoc (grouped k opt) (added k m (expression, f))
                (for_method k expression methods)
            ∙ ap (grouped k opt ++◌) (added-for_method k expression m f methods),
        d,
      )

  grouped-add_resources :
      (k : Bytes) (resource opt : OptResource H)
      → IsDistinct opt
      → (grouped k (add_resources resource opt) ≡ grouped k opt ++ of_method k resource)
        × IsDistinct (add_resources resource opt)
  unfolding add_resources
  grouped-add_resources k [] opt h = (sym (append-nil (grouped k opt)), h)
  grouped-add_resources k ((expression, methods) ∷ resource) opt h =
      let (e, d) = grouped-add_methods k expression methods opt h in
      let (e', d') = grouped-add_resources k resource (add_methods expression methods opt) d in
      (
        e'
            ∙ ap (◌++ of_method k resource) e
            ∙ append_assoc (grouped k opt) (for_method k expression methods) (of_method k resource),
        d',
      )

  abbrev pub or_else : Option (Groups × H) → Option (Groups × H) → Option (Groups × H)
  or_else (some found) later = some found
  or_else none later = later

  module _ (regex_match : Bytes → Bytes → Option Groups) (path : Bytes) where
    pub find_path-append :
        (es fs : List (Bytes × H))
        → find_path regex_match path (es ++ fs)
          ≡ or_else (find_path regex_match path es) (find_path regex_match path fs)
    unfolding find_path
    find_path-append [] fs = refl
    find_path-append ((expression, f) ∷ es) fs =
        ground (arith, Option-cases (regex_match expression path), find_path-append es fs)

    find_method-grouped :
        (method : Bytes) (opt : OptResource H)
        → find_method regex_match method path opt ≡ find_path regex_match path (grouped method opt)
    unfolding find_method
    find_method-grouped method [] = refl
    find_method-grouped method ((m, entries) ∷ opt) = ground (
      arith,
      Bool-cases (equal method m),
      Option-cases (find_path regex_match path entries),
      find_method-grouped method opt,
      find_path-append entries (grouped method opt),
    )

    -- Whatever the order of the resources: the function that is called is that of the first
    -- expression, in that order, that has one for the method and matches the path; without one it
    -- is the default function of the method, if there is one.
    pub find_resource-first :
        (method : Bytes) (resource : OptResource H) (default_resource : List (Bytes × H))
        → find_resource regex_match (add_resources resource []) default_resource method path
          ≡ or_else
              (find_path regex_match path (of_method method resource))
              (find_default method default_resource)
    unfolding find_resource
    find_resource-first method resource default_resource = ground (
      arith,
      find_method-grouped method (add_resources resource []),
      ap (find_path regex_match path) (grouped-add_resources method resource [] tt).0,
    )
