-- ===== src/Beacon/Entries.antt =====
-- horizon/beacon.py: the comparison of the emissions of spacelike entries.
use mathlib.Core.Path.{subst}
use horizon_protocol.Prelude.{
  ◌≡◌, ◌≢◌, sym, ◌∙◌, ap, inl, inr, String, text_key, true, false, List, [], ◌∷◌, none, some,
  Bool-cases, same_key, same_key_self, elem, distinct, distinct-sorted_set, sorted_set,
  sorted_set-All, Dict, get, All, All-map, ok, eq_iff, arith,
}
use horizon_protocol.Ledger.{Stamp}
use horizon_protocol.Beacon.Names.{Pairs, elem_self}
use horizon_protocol.Beacon.Stored.{Apart}
use horizon_protocol.Beacon.Recorded.{witnesses_run}
use horizon_protocol.Beacon.Spacelike.{
  Held, stamp_of, emissions_from-Held, keys-emissions_from, Spacelike,
}
use horizon_protocol.Beacon.{
  Pairwise, pairwise_spacelike_witnesses, Entry, Emissions, keys, emissions_from, first_related,
  emitter_ids,
}

module _ (emissions : Emissions) where
  row-Apart :
      (x : Entry) (xs : List Entry) (b : String)
      → Held emissions x
      → All (Held emissions) xs
      → All (Spacelike x) xs
      → elem b (emitter_ids xs) ≡ true
      → Apart emissions x.emitter_id b
  unfolding elem
  row-Apart x [] b h hs apart m = cc
  row-Apart x (y ∷ xs) b h (k, hs) (s, apart) m = elim (Bool-cases (same_key b y.emitter_id)) [
    | inl same ↦
        subst (Apart emissions x.emitter_id) (sym ((eq_iff _ _).0 same))
          (stamp_of x, stamp_of y, h, k, s.0, s.1)
    | inr other ↦ row-Apart x xs b h hs apart (rw other at m)
  ]

  Apart-comm : (a b : String) → Apart emissions a b → Apart emissions b a
  Apart-comm a b (ea, eb, at_a, at_b, ab, ba) = (eb, ea, at_b, at_a, ba, ab)

  entries-Apart :
      (bs : List Entry) (a b : String)
      → All (Held emissions) bs
      → Pairs Spacelike bs
      → elem a (emitter_ids bs) ≡ true
      → elem b (emitter_ids bs) ≡ true
      → a ≢ b
      → Apart emissions a b
  unfolding elem
  entries-Apart [] a b hs apart m n differ = cc
  entries-Apart (x ∷ xs) a b (h, hs) (row, apart) m n differ =
      elim (Bool-cases (same_key a x.emitter_id)) [
        | inl at_a ↦ elim (Bool-cases (same_key b x.emitter_id)) [
          | inl at_b ↦ absurd (differ ((eq_iff _ _).0 at_a ∙ sym ((eq_iff _ _).0 at_b)))
          | inr off_b ↦
              subst (λ a. Apart emissions a b) (sym ((eq_iff _ _).0 at_a))
                (row-Apart x xs b h hs row (rw off_b at n))
        ]
        | inr off_a ↦ elim (Bool-cases (same_key b x.emitter_id)) [
          | inl at_b ↦
              subst (Apart emissions a) (sym ((eq_iff _ _).0 at_b))
                (Apart-comm x.emitter_id a (row-Apart x xs a h hs row (rw off_a at m)))
          | inr off_b ↦ entries-Apart xs a b hs apart (rw off_a at m) (rw off_b at n) differ
        ]
      ]

  entry_found :
      (bs : List Entry) (a : String)
      → All (Held emissions) bs
      → elem a (emitter_ids bs) ≡ true
      → (e : Stamp) × (get emissions a ≡ some e)
  unfolding elem
  entry_found [] a hs m = cc
  entry_found (x ∷ xs) a (h, hs) m = elim (Bool-cases (same_key a x.emitter_id)) [
    | inl same ↦ (stamp_of x, ap (get emissions) ((eq_iff _ _).0 same) ∙ h)
    | inr other ↦ entry_found xs a hs (rw other at m)
  ]

  module _ (bs : List Entry) (held : All (Held emissions) bs) (apart : Pairs Spacelike bs) where
    abbrev In : String → Type 0
    In eid = elem eid (emitter_ids bs) ≡ true

    names_row :
        (a : String) (ids : List String)
        → In a
        → All In ids
        → elem a ids ≡ false
        → All (Apart emissions a) ids
    unfolding elem
    names_row a [] m ms off = tt
    names_row a (b ∷ ids) m (n, ms) off =
        let differ : a ≢ b = λ same. let own = same_key_self b in cc (rw same at off) in
        (entries-Apart bs a b held apart m n differ, names_row a ids m ms (ground arith))

    names-Apart :
        (ids : List String) → distinct ids ≡ true → All In ids → Pairs (Apart emissions) ids
    unfolding distinct
    names-Apart [] once ms = tt
    names-Apart (a ∷ ids) once (m, ms) =
        (names_row a ids m ms (ground arith), names-Apart ids (ground arith) ms)

-- The comparison of the emissions of spacelike entries runs, and finds no related pair.
pub entries_run :
    (bs : List Entry)
    → distinct (emitter_ids bs) ≡ true
    → Pairs Spacelike bs
    → (out : Dict String Pairwise) × (pairwise_spacelike_witnesses (emissions_from [] bs) ≡ ok out)
      × (first_related out ≡ none)
unfolding keys
entries_run bs once apart =
    let emissions = emissions_from [] bs in
    let held = emissions_from-Held bs [] once in
    let inside =
      keys-emissions_from (λ k. elem k (emitter_ids bs) ≡ true) bs [] tt
        (elem_self (emitter_ids bs)) in
    let sorted = (sorted_set-All (λ k. elem k (emitter_ids bs) ≡ true) (keys emissions)).1 inside in
    witnesses_run emissions
      (All-map (λ k m. entry_found emissions bs k held m) (sorted_set (keys emissions)) sorted)
      (names-Apart emissions bs held apart (sorted_set (keys emissions))
        (distinct-sorted_set (keys emissions)) sorted)
