-- ===== src/Beacon/Pairs.antt =====
-- horizon/beacon.py: what the comparison of the pairs of emissions says of them.
use mathlib.Core.Path.{subst}
use mathlib.Core.Option.{some-injective}
use horizon_protocol.Prelude.{
  ◌≡◌, ◌≢◌, sym, ◌∙◌, ap, inl, inr, String, text_key, true, List, [], ◌∷◌, none, some, Bool-cases,
  same_key, elem, sorted_set, sorted_set-All, Dict, get, All, All-map, ok, bound_value, eq_iff,
  arith,
}
use horizon_protocol.Ledger.{new_ledger}
use horizon_protocol.Beacon.Names.{Plain, Pairs, All-elem, elem-sorted_set}
use horizon_protocol.Beacon.{
  Pairwise, Emissions, keys, record_all, pair_name, pairwise_spacelike_witnesses, first_related,
}
use horizon_protocol.Beacon.Stored.{
  Apart, Copied, record_all-Copied, compare_pair-Apart, compare_all-Faithful,
}

module _ (emissions : Emissions) where
  -- Every stored pair is spacelike when the first one that is not is looked for in vain.
  all_spacelike :
      (out : Dict String Pairwise) (k : String) {w : Pairwise}
      → first_related out ≡ none
      → get out k ≡ some w
      → w.spacelike ≡ true
  unfolding first_related get
  all_spacelike [] k clear h = cc
  all_spacelike ((j, v) ∷ out) k clear h = elim (Bool-cases v.spacelike) [
    | inr related ↦ absurd (ground arith)
    | inl apart ↦ elim (Bool-cases (same_key j k)) [
      | inl same ↦
          let here : v ≡ _ = some-injective _ _ (rw same at h) in
          ap (λ w. w.spacelike) (sym here) ∙ apart
      | inr other ↦ all_spacelike out k (rw apart at clear) (rw other at h)
    ]
  ]

  Copied-new : Copied emissions new_ledger
  unfolding get
  Copied-new eid e h = cc

  Pairs-map :
      {P Q : String → String → Type 0}
      → ((a b : String) → Plain a → P a b → Q a b)
      → (xs : List String) → All Plain xs
      → Pairs P xs
      → Pairs Q xs
  Pairs-map f [] plain h = tt
  Pairs-map f (x ∷ xs) (plain, plains) (row, rest) =
      (All-map (λ y. f x y plain) xs row, Pairs-map f xs plains rest)

  sorted-Apart :
      {out : Dict String Pairwise}
      → All Plain (sorted_set (keys emissions))
      → pairwise_spacelike_witnesses emissions ≡ ok out
      → first_related out ≡ none
      → Pairs (Apart emissions) (sorted_set (keys emissions))
  unfolding pairwise_spacelike_witnesses get
  sorted-Apart {out} plain h clear =
      let ids = sorted_set (keys emissions) in
      let (ledger, recorded, h1) = bound_value (record_all emissions ids new_ledger) h in
      let copied = record_all-Copied emissions ids new_ledger ledger Copied-new (sym recorded) in
      let (faithful, present, _) =
        compare_all-Faithful emissions ledger copied ids [] plain (λ a b w p found. cc) (sym h1) in
      Pairs-map
        (λ a b p (w, there).
          compare_pair-Apart emissions ledger copied a b (faithful a b w p there)
            (all_spacelike out (pair_name a b) clear there))
        ids plain present

  Apart-comm : (a b : String) → Apart emissions a b → Apart emissions b a
  Apart-comm a b (ea, eb, at_a, at_b, ab, ba) = (eb, ea, at_b, at_a, ba, ab)

  Pairs-elem :
      (a b : String) (xs : List String)
      → Pairs (Apart emissions) xs
      → elem a xs ≡ true
      → elem b xs ≡ true
      → a ≢ b
      → Apart emissions a b
  unfolding elem
  Pairs-elem a b [] h m n other = cc
  Pairs-elem a b (x ∷ xs) (row, rest) m n other = elim (Bool-cases (same_key a x)) [
    | inl at_a ↦ elim (Bool-cases (same_key b x)) [
      | inl at_b ↦ absurd (other ((eq_iff a x).0 at_a ∙ sym ((eq_iff b x).0 at_b)))
      | inr off_b ↦
          subst (λ a. Apart emissions a b) (sym ((eq_iff a x).0 at_a))
            (All-elem (Apart emissions x) b xs row (rw off_b at n))
    ]
    | inr off_a ↦ elim (Bool-cases (same_key b x)) [
      | inl at_b ↦
          subst (Apart emissions a) (sym ((eq_iff b x).0 at_b))
            (Apart-comm x a (All-elem (Apart emissions x) a xs row (rw off_a at m)))
      | inr off_b ↦ Pairs-elem a b xs rest (rw off_a at m) (rw off_b at n) other
    ]
  ]

  -- Where no name holds a bar, any two emissions are compared and are found apart.
  pub witnesses-Apart :
      {out : Dict String Pairwise} (a b : String)
      → All Plain (keys emissions)
      → pairwise_spacelike_witnesses emissions ≡ ok out
      → first_related out ≡ none
      → elem a (keys emissions) ≡ true
      → elem b (keys emissions) ≡ true
      → a ≢ b
      → Apart emissions a b
  witnesses-Apart a b plain h clear m n other =
      let ids = keys emissions in
      Pairs-elem a b (sorted_set ids) (sorted-Apart ((sorted_set-All Plain ids).1 plain) h clear)
        (elem-sorted_set a ids m) (elem-sorted_set b ids n) other
