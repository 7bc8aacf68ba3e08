-- ===== src/Boost/Split.antt =====
-- Consequences of the documented behaviour of `split` and `join`.
use boost_irc.Base.{
  ℕ, zero, suc, ◌<◌, ◌≡◌, ◌≢◌, ◌⊎◌, inl, inr, refl, sym, ap, ◌∙◌, true, ◌==◌, List, [], ◌∷◌, ◌++◌,
  Bytes, lacks, length, arith, Bool-cases, ==_iff,
}
use boost_irc.Boost.{StringAlgo}

-- The text up to the first separator, and what stands behind that.
pub record Cut (c : ℕ) (s : Bytes) : Type 0 where
  pub head : Bytes
  pub rest : Bytes
  pub splits : s ≡ head ++ (c ∷ rest)
  pub head_lacks : lacks c head ≡ true
  pub shorter : length rest < length s

pub cut : (c : ℕ) (s : Bytes) → (lacks c s ≡ true) ⊎ Cut c s
cut c [] = inl refl
cut c (x ∷ s) = elim (Bool-cases (x == c)) [
  | inl same ↦ inr (record {
    head = [];
    rest = s;
    splits = ap (λ (y : ℕ). y ∷ s) ((==_iff x c).0 same);
    head_lacks = refl;
    shorter = omega arith;
  })
  | inr other ↦ elim (cut c s) [
    | inl none ↦ inl (ground arith)
    | inr k ↦ inr (record {
      head = x ∷ k.head;
      rest = k.rest;
      splits = ap (◌∷◌ x) k.splits;
      head_lacks = ground (arith, k.head_lacks);
      shorter = omega (arith, k.shorter);
    })
  ]
]

module _ (algo : StringAlgo) where
  pub split-ne-nil : (s : Bytes) (c : ℕ) → algo.split s c ≢ []
  split-ne-nil s c = elim (cut c s) [
    | inl h ↦ rw (algo.split_last s c h) (λ e. cc)
    | inr k ↦ rw (k.splits, algo.split_more k.head k.rest c k.head_lacks) (λ e. cc)
  ]

  join-cons :
      (x sep : Bytes) (xs : List Bytes)
      → xs ≢ []
      → algo.join (x ∷ xs) sep ≡ x ++ (sep ++ algo.join xs sep)
  join-cons x sep [] ne = absurd (ne refl)
  join-cons x sep (y ∷ r) ne = algo.join_more x y r sep

  join-split_fuel :
      (n : ℕ) (s : Bytes) (c : ℕ) → length s < n → algo.join (algo.split s c) (c ∷ []) ≡ s
  join-split_fuel zero s c h = absurd (omega arith)
  join-split_fuel (suc n) s c h = elim (cut c s) [
    | inl none ↦ rw (algo.split_last s c none) (algo.join_one s (c ∷ []))
    | inr k ↦
        let e : algo.split s c ≡ k.head ∷ algo.split k.rest c =
          ap (λ t. algo.split t c) k.splits ∙ algo.split_more k.head k.rest c k.head_lacks in
        rw (e, join-cons k.head (c ∷ []) (algo.split k.rest c) (split-ne-nil k.rest c))
          (rw (join-split_fuel n k.rest c (omega (arith, k.shorter))) (sym k.splits))
  ]

  -- Joining what was split at a byte, with that byte, gives the text back.
  pub join-split : (s : Bytes) (c : ℕ) → algo.join (algo.split s c) (c ∷ []) ≡ s
  join-split s c = join-split_fuel (suc (length s)) s c (omega arith)
