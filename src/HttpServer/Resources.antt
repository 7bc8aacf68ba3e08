-- ===== src/HttpServer/Resources.antt =====
-- The resources of web_server/server_http.hpp: how `start` groups them by method, and
-- `find_resource`. Maps are lists in the order of their iteration; boost::regex_match is a
-- parameter.
pub mod Grouping
pub mod Order
use boost_irc.Base.{
  ℕ, Bool, true, false, Option, none, some, List, [], ◌∷◌, ◌++◌, Bytes, equal, if◌then◌else◌,
}
use boost_irc.Boost.Regex.{Groups}

-- `opt_resource`: for each method, the expressions with their functions.
abbrev pub OptResource : Type 0 → Type 0
OptResource H = List (Bytes × List (Bytes × H))

module _ {H : Type 0} where
  -- The place of the method is searched, and made at the end if there is none.
  unfoldable pub add_resource : Bytes → Bytes × H → OptResource H → OptResource H
  add_resource method entry [] = (method, entry ∷ []) ∷ []
  add_resource method entry ((m, entries) ∷ opt) =
      if equal method m
      then (m, entries ++ (entry ∷ [])) ∷ opt
      else (m, entries) ∷ add_resource method entry opt

  -- The loops of `start` over `resource`: expressions, and the functions for their methods.
  unfoldable pub add_methods : Bytes → List (Bytes × H) → OptResource H → OptResource H
  unfolding add_resource
  add_methods expression [] opt = opt
  add_methods expression ((method, f) ∷ methods) opt =
      add_methods expression methods (add_resource method (expression, f) opt)

  unfoldable pub add_resources : List (Bytes × List (Bytes × H)) → OptResource H → OptResource H
  unfolding add_methods
  add_resources [] opt = opt
  add_resources ((expression, methods) ∷ resource) opt =
      add_resources resource (add_methods expression methods opt)

  -- `default_resource.find(method)`
  unfoldable pub find_default : Bytes → List (Bytes × H) → Option (Groups × H)
  find_default method [] = none
  find_default method ((m, f) ∷ default_resource) =
      if equal m method then some ([], f) else find_default method default_resource

  module _ (regex_match : Bytes → Bytes → Option Groups) where
    -- The inner loop of `find_resource`: the match of the path, and the function.
    unfoldable pub find_path : Bytes → List (Bytes × H) → Option (Groups × H)
    find_path path [] = none
    find_path path ((expression, f) ∷ entries) = elim (regex_match expression path) [
      | some path_match ↦ some (path_match, f)
      | none ↦ find_path path entries
    ]

    -- The outer loop.
    unfoldable pub find_method : Bytes → Bytes → OptResource H → Option (Groups × H)
    unfolding find_path
    find_method method path [] = none
    find_method method path ((m, entries) ∷ opt) =
        let later = find_method method path opt in
        if equal method m
        then elim (find_path path entries) [ some found ↦ some found | none ↦ later ]
        else later

    -- The function that `find_resource` calls, and path_match; none where it calls none.
    unfoldable pub find_resource :
        OptResource H → List (Bytes × H) → Bytes → Bytes → Option (Groups × H)
    unfolding find_method find_default
    find_resource opt default_resource method path = elim (find_method method path opt) [
      | some found ↦ some found
      | none ↦ find_default method default_resource
    ]
