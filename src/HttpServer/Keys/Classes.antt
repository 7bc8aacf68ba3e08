-- ===== src/HttpServer/Keys/Classes.antt =====
-- The names of fields up to `iequal_to`.
use std.Quotient.{◌/◌, cls, eq/, IsEquivRel, effective}
use mathlib.Core.Bool.{Bool-set}
use boost_irc.Base.{
  ℕ, ◌==◌, ltb, leb, ◌&&◌, Bool, true, Option, none, some, [], ◌∷◌, ◌++◌, Bytes, map, equal,
  equal_iff, if◌then◌else◌, ◌≡◌, refl, sym, ap, ◌∙◌, ◌↔◌, arith, Bool-cases,
}
use boost_irc.Irc.Stoi.{ℤ}
use boost_irc.HttpServer.Number.{lower}
use boost_irc.HttpServer.Header.{Fields}
use boost_irc.HttpServer.Connection.{values}
use boost_irc.HttpServer.Keys.{upper, tolower, ihash_from, ihash, IsCaseless, iequal_to}

upper-lower : (c d : ℕ) → upper c ≡ upper d → lower c ≡ lower d
upper-lower c d e = ground arith

upper-ltb : (c d : ℕ) → upper c ≡ upper d → ltb c 128 ≡ ltb d 128
upper-ltb c d e = ground arith

upper-last : (c d : ℕ) → upper c ≡ upper d → (c == 255) ≡ (d == 255)
upper-last c d e = ground arith

upper-tolower : (c d : ℕ) → upper c ≡ upper d → tolower c ≡ tolower d
upper-tolower c d e = ground (arith, upper-lower c d e, upper-ltb c d e, upper-last c d e)

module _ (hash_combine : ℕ → ℤ → ℕ) where
  abbrev then_hash : ℕ → Bytes → Option ℤ → Option ℕ
  then_hash seed k o = elim o [
    | none ↦ none
    | some i ↦ ihash_from hash_combine (hash_combine seed i) k
  ]

  then_hash-step :
      (k l : Bytes) (seed : ℕ) (o : Option ℤ)
      → ((i : ℤ)
          → ihash_from hash_combine (hash_combine seed i) k
            ≡ ihash_from hash_combine (hash_combine seed i) l)
      → then_hash seed k o ≡ then_hash seed l o
  then_hash-step k l seed none h = refl
  then_hash-step k l seed (some i) h = h i

  then_hash-none :
      (k : Bytes) (seed : ℕ) (o : Option ℤ)
      → ((i : ℤ) → ihash_from hash_combine (hash_combine seed i) k ≡ none)
      → then_hash seed k o ≡ none
  then_hash-none k seed none h = refl
  then_hash-none k seed (some i) h = h i

  ihash_step :
      (k l : Bytes) (seed : ℕ)
      → equal (map upper k) (map upper l) ≡ true
      → ihash_from hash_combine seed k ≡ ihash_from hash_combine seed l
  unfolding ihash_from equal
  ihash_step [] [] seed e = refl
  ihash_step [] (d ∷ l) seed e = absurd cc
  ihash_step (c ∷ k) [] seed e = absurd cc
  ihash_step (c ∷ k) (d ∷ l) seed e =
      let head : upper c ≡ upper d = ground (arith, e) in
      let tail : equal (map upper k) (map upper l) ≡ true = ground (arith, e) in
      ap (then_hash seed k) (upper-tolower c d head)
      ∙ then_hash-step k l seed (tolower d) (λ i. ihash_step k l (hash_combine seed i) tail)

module _ (iequals : Bytes → Bytes → Bool) (caseless : IsCaseless iequals) where
  -- Names up to iequal_to.
  abbrev pub Key : Type 0
  Key = Bytes / (λ k l. iequal_to iequals k l ≡ true)

  same_iff : (k l : Bytes) → (iequal_to iequals k l ≡ true) ↔ (map upper k ≡ map upper l)
  same_iff k l = rw (caseless k l) (equal_iff (map upper k) (map upper l))

  same-IsEquivRel : IsEquivRel (λ k l. iequal_to iequals k l ≡ true)
  same-IsEquivRel = record {
    reflexive = λ k. (same_iff k k).1 refl;
    symmetric = λ k l e. (same_iff l k).1 (sym ((same_iff k l).0 e));
    transitive = λ k l m e f. (same_iff k m).1 ((same_iff k l).0 e ∙ (same_iff l m).0 f);
  }

  -- Where iequals compares as Boost says: the keys of the map are the classes of names that
  -- iequal_to does not tell apart, it tells apart just those of different classes, and ihash is
  -- a function of the class, also where it is undefined.
  module _ (hash_combine : ℕ → ℤ → ℕ) where
    pub iequal_to-Key :
        (k l : Bytes)
        → ((iequal_to iequals k l ≡ true) ↔ ◌≡◌ {A = Key} (cls k) (cls l))
          × (◌≡◌ {A = Key} (cls k) (cls l) → ihash hash_combine k ≡ ihash hash_combine l)
    iequal_to-Key k l =
        let back : ◌≡◌ {A = Key} (cls k) (cls l) → iequal_to iequals k l ≡ true =
          effective (λ a b. Bool-set _ _) same-IsEquivRel k l in
        ((eq/ k l, back), λ e. ihash_step hash_combine k l 0 (sym (caseless k l) ∙ back e))

    -- A table that puts a field at a place that its hash gives: whether two names have one place.
    abbrev pub in_bucket : (Option ℕ → ℕ) → Bytes → Bytes → Bool
    in_bucket place k l = place (ihash hash_combine k) == place (ihash hash_combine l)

    -- The fields at the place of a name.
    abbrev pub bucket : (Option ℕ → ℕ) → Bytes → Fields → Fields
    bucket place name [] = []
    bucket place name ((k, v) ∷ fields) =
        let rest = bucket place name fields in
        if in_bucket place k name then (k, v) ∷ rest else rest

    same_bucket :
        (place : Option ℕ → ℕ) (k l : Bytes)
        → iequal_to iequals k l ≡ true
        → in_bucket place k l ≡ true
    same_bucket place k l e =
        let h : place (ihash hash_combine k) ≡ place (ihash hash_combine l) =
          ap place ((iequal_to-Key k l).1 (eq/ k l e)) in
        ground (arith, h)

    -- The fields of a name are found among those at its place: `equal_range` need not look further.
    pub values-bucket :
        (place : Option ℕ → ℕ) (name : Bytes) (fields : Fields)
        → values (iequal_to iequals) name (bucket place name fields)
          ≡ values (iequal_to iequals) name fields
    values-bucket place name [] = refl
    values-bucket place name ((k, v) ∷ fields) = ground (
      arith,
      values-bucket place name fields,
      same_bucket place k name,
      Bool-cases (iequals k name),
      Bool-cases (in_bucket place k name),
    )

-- A name with a byte that is a negative char other than EOF has no hash.
abbrev pub is_negative : ℕ → Bool
is_negative c = leb 128 c && ltb c 255

ihash_from-none :
    (hash_combine : ℕ → ℤ → ℕ) (before after : Bytes) (c seed : ℕ)
    → is_negative c ≡ true
    → ihash_from hash_combine seed (before ++ (c ∷ after)) ≡ none
unfolding ihash_from
ihash_from-none hash_combine [] after c seed n =
    let undefined : tolower c ≡ none = ground (arith, n) in
    ap (then_hash hash_combine seed after) undefined
ihash_from-none hash_combine (b ∷ before) after c seed n =
    then_hash-none hash_combine (before ++ (c ∷ after)) seed (tolower b)
      (λ i. ihash_from-none hash_combine before after c (hash_combine seed i) n)
