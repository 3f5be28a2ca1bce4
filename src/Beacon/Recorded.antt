-- ===== src/Beacon/Recorded.antt =====
-- horizon/beacon.py: the comparison of the pairs runs, and finds spacelike emissions so.
use mathlib.Core.Path.{subst}
use mathlib.Core.Option.{some-injective}
use horizon_protocol.Prelude.{
  ◌≡◌, refl, sym, ◌∙◌, ap, ◌⊎◌, inl, inr, String, text_key, true, false, List, [], ◌∷◌, none, some,
  Bool-cases, same_key, same_key_self, elem, distinct, distinct-sorted_set, sorted_set, Dict, get,
  put, get-put, All, ok, eq_iff, arith,
}
use horizon_protocol.Geometry.{causally_admissible, admissibility_witness}
use horizon_protocol.Ledger.{Stamp, Ledger, new_ledger, add_event, concurrent}
use horizon_protocol.Beacon.Names.{Pairs}
use horizon_protocol.Beacon.Stored.{Apart}
use horizon_protocol.Beacon.{
  Pairwise, Emissions, keys, record_all, compare_pair, pair_name, compare_with, compare_all,
  pairwise_spacelike_witnesses, first_related,
}

module _ (emissions : Emissions) where
  -- The ledger holds the emission of a name.
  abbrev Recorded : Ledger → String → Type 0
  Recorded l eid = (e : Stamp) × (get emissions eid ≡ some e) × (get l.events eid ≡ some e)

  abbrev Fresh : Ledger → String → Type 0
  Fresh l eid = get l.events eid ≡ none

  abbrev grown : Ledger → String → Stamp → Ledger
  grown l eid e = record l { events = put l.events eid e }

  grown-Fresh :
      (l : Ledger) (eid : String) (e : Stamp) (ids : List String)
      → elem eid ids ≡ false
      → All (Fresh l) ids
      → All (Fresh (grown l eid e)) ids
  unfolding elem
  grown-Fresh l eid e [] off h = tt
  grown-Fresh l eid e (k ∷ ids) off (fresh, h) =
      let other : same_key eid k ≡ false = ground arith in
      (get-put l.events eid k e ∙ rw other fresh, grown-Fresh l eid e ids (ground arith) h)

  grown-Recorded :
      (l : Ledger) (eid k : String) (e : Stamp)
      → get emissions eid ≡ some e
      → (same_key eid k ≡ true) ⊎ Recorded l k
      → Recorded (grown l eid e) k
  grown-Recorded l eid k e there h = elim (Bool-cases (same_key eid k)) [
    | inl same ↦ (
      e,
      ap (get emissions) (sym ((eq_iff eid k).0 same)) ∙ there,
      get-put l.events eid k e ∙ rw same refl,
    )
    | inr other ↦ elim h [
      | inl same ↦ cc
      | inr (f, at_k, stored) ↦ (f, at_k, get-put l.events eid k e ∙ rw other stored)
    ]
  ]

  record_all-Recorded :
      (ids : List String) (l : Ledger)
      → distinct ids ≡ true
      → All (λ eid. (e : Stamp) × (get emissions eid ≡ some e)) ids
      → All (Fresh l) ids
      → (l' : Ledger) × (record_all emissions ids l ≡ ok l')
        × All (Recorded l') ids
        × ((k : String) → Recorded l k → Recorded l' k)
  unfolding record_all distinct add_event
  record_all-Recorded [] l once has fresh = (l, refl, tt, λ k r. r)
  record_all-Recorded (eid ∷ ids) l once ((e, there), has) (new, fresh) =
      let next = grown l eid e in
      let (l', ran, recorded, keeps) =
        record_all-Recorded ids next (ground arith) has
          (grown-Fresh l eid e ids (ground arith) fresh) in
      (
        l',
        rw (there, new) ran,
        (keeps eid (grown-Recorded l eid eid e there (inl (same_key_self eid))), recorded),
        λ k before. keeps k (grown-Recorded l eid k e there (inr before)),
      )

  abbrev AllApart : Dict String Pairwise → Type 0
  AllApart out = All (λ entry. entry.1.spacelike ≡ true) out

  put-AllApart :
      (out : Dict String Pairwise) (k : String) (w : Pairwise)
      → w.spacelike ≡ true
      → AllApart out
      → AllApart (put out k w)
  unfolding put
  put-AllApart [] k w apart h = (apart, tt)
  put-AllApart ((j, v) ∷ out) k w apart (first, rest) = elim (Bool-cases (same_key j k)) [
    | inl same ↦ rw same (apart, rest)
    | inr other ↦ rw other (first, put-AllApart out k w apart rest)
  ]

  first_related-none : (out : Dict String Pairwise) → AllApart out → first_related out ≡ none
  unfolding first_related
  first_related-none [] h = refl
  first_related-none ((j, v) ∷ out) (apart, rest) = rw apart (first_related-none out rest)

  module _ (ledger : Ledger) where
    compare_pair-Apart :
        (a b : String)
        → Recorded ledger a
        → Recorded ledger b
        → Apart emissions a b
        → (w : Pairwise) × (compare_pair emissions ledger a b ≡ ok w) × (w.spacelike ≡ true)
    unfolding compare_pair concurrent
    compare_pair-Apart a b (ea, at_a, in_a) (eb, at_b, in_b) (fa, fb, at_fa, at_fb, ab, ba) =
        let same_a : fa ≡ ea = some-injective _ _ (sym at_fa ∙ at_a) in
        let same_b : fb ≡ eb = some-injective _ _ (sym at_fb ∙ at_b) in
        let forward : causally_admissible ea.time_ns ea.pos_nm eb.time_ns eb.pos_nm ≡ false =
          subst
            (λ (e : Stamp × Stamp).
              causally_admissible e.0.time_ns e.0.pos_nm e.1.time_ns e.1.pos_nm ≡ false)
            (λ i. (same_a i, same_b i)) ab in
        let backward : causally_admissible eb.time_ns eb.pos_nm ea.time_ns ea.pos_nm ≡ false =
          subst
            (λ (e : Stamp × Stamp).
              causally_admissible e.1.time_ns e.1.pos_nm e.0.time_ns e.0.pos_nm ≡ false)
            (λ i. (same_a i, same_b i)) ba in
        (
          record {
            witness_forward = admissibility_witness ea.time_ns ea.pos_nm eb.time_ns eb.pos_nm;
            witness_backward = admissibility_witness eb.time_ns eb.pos_nm ea.time_ns ea.pos_nm;
            spacelike = true;
          },
          rw (at_a, at_b, in_a, in_b, forward, backward) refl,
          refl,
        )

    compare_with-AllApart :
        (a : String) (bs : List String) (out : Dict String Pairwise)
        → Recorded ledger a
        → All (Recorded ledger) bs
        → All (Apart emissions a) bs
        → AllApart out
        → (out' : Dict String Pairwise) × (compare_with emissions ledger a bs out ≡ ok out')
          × AllApart out'
    unfolding compare_with
    compare_with-AllApart a [] out here h k all = (out, refl, all)
    compare_with-AllApart a (b ∷ bs) out here (there, h) (apart, k) all =
        let (w, made, fine) = compare_pair-Apart a b here there apart in
        let (out', ran, all') =
          compare_with-AllApart a bs (put out (pair_name a b) w) here h k
            (put-AllApart out (pair_name a b) w fine all) in
        (out', rw made ran, all')

    compare_all-AllApart :
        (ids : List String) (out : Dict String Pairwise)
        → All (Recorded ledger) ids
        → Pairs (Apart emissions) ids
        → AllApart out
        → (out' : Dict String Pairwise) × (compare_all emissions ledger ids out ≡ ok out')
          × AllApart out'
    unfolding compare_all
    compare_all-AllApart [] out h k all = (out, refl, all)
    compare_all-AllApart (a ∷ ids) out (here, h) (row, k) all =
        let (next, made, stored) = compare_with-AllApart a ids out here h row all in
        let (out', ran, all') = compare_all-AllApart ids next h k stored in
        (out', rw made ran, all')

  Fresh-ledger : (ids : List String) → All (Fresh new_ledger) ids
  unfolding get
  Fresh-ledger [] = tt
  Fresh-ledger (eid ∷ ids) = (refl, Fresh-ledger ids)

  -- Where the sorted emissions are pairwise out of one another's light cones, the comparison runs
  -- and no pair is found related.
  pub witnesses_run :
      All (λ eid. (e : Stamp) × (get emissions eid ≡ some e)) (sorted_set (keys emissions))
      → Pairs (Apart emissions) (sorted_set (keys emissions))
      → (out : Dict String Pairwise) × (pairwise_spacelike_witnesses emissions ≡ ok out)
        × (first_related out ≡ none)
  unfolding pairwise_spacelike_witnesses
  witnesses_run has apart =
      let ids = sorted_set (keys emissions) in
      let (ledger, ran, recorded, _) =
        record_all-Recorded ids new_ledger (distinct-sorted_set (keys emissions)) has
          (Fresh-ledger ids) in
      let (out, compared, all) = compare_all-AllApart ledger ids [] recorded apart tt in
      (out, rw ran compared, first_related-none out all)
