-- ===== src/Beacon/Stored.antt =====
-- horizon/beacon.py: what is stored of the pairs of emissions.
use mathlib.Core.Path.{subst}
use mathlib.Core.Option.{some-injective}
use horizon_protocol.Prelude.{
  ◌≡◌, refl, sym, ◌∙◌, ap, ◌⊎◌, inl, inr, String, text_key, true, false, List, [], ◌∷◌, Option,
  none, some, Option-cases, Bool-cases, same_key, same_key_self, Dict, get, put, get-put, All,
  All-map, ok, required, ok-injective, raise≢ok, bound_value, eq_iff, arith,
}
use horizon_protocol.Geometry.{causally_admissible}
use horizon_protocol.Ledger.{Stamp, Ledger, add_event, concurrent}
use horizon_protocol.Beacon.Names.{Plain, Pairs, pair_name-injective}
use horizon_protocol.Beacon.{
  Pairwise, Emissions, record_all, compare_pair, pair_name, compare_with, compare_all,
}

module _ (emissions : Emissions) where
  -- Two recorded emissions out of one another's light cones.
  abbrev pub Apart : String → String → Type 0
  Apart a b =
      (ea : Stamp) × (eb : Stamp) × (get emissions a ≡ some ea)
      × (get emissions b ≡ some eb)
      × (causally_admissible ea.time_ns ea.pos_nm eb.time_ns eb.pos_nm ≡ false)
      × (causally_admissible eb.time_ns eb.pos_nm ea.time_ns ea.pos_nm ≡ false)

  -- The ledger's events are emissions.
  abbrev pub Copied : Ledger → Type 0
  Copied l = (eid : String) (e : Stamp) → get l.events eid ≡ some e → get emissions eid ≡ some e

  required_ok : {A : Type 0} (o : Option A) {a : A} → ok a ≡ required o → o ≡ some a
  required_ok none h = cc
  required_ok (some b) h = cc

  add_event-Copied :
      (l l' : Ledger) (eid : String) (e : Stamp)
      → get emissions eid ≡ some e
      → Copied l
      → add_event l eid e.time_ns e.pos_nm ≡ ok l'
      → Copied l'
  unfolding add_event
  add_event-Copied l l' eid e there copied h k s found = elim (Option-cases (get l.events eid)) [
    | inr (old, taken) ↦ absurd (raise≢ok (rw taken at h))
    | inl fresh ↦
        let grown : put l.events eid e ≡ l'.events =
          ap (λ l. l.events) (ok-injective (rw fresh at h)) in
        let looked : get (put l.events eid e) k ≡ some s = rw (sym grown) at found in
        elim (Bool-cases (same_key eid k)) [
          | inl same ↦
              let here : some e ≡ some s = rw same at (sym (get-put l.events eid k e) ∙ looked) in
              rw⁻¹ ((eq_iff eid k).0 same) (there ∙ here)
          | inr other ↦ copied k s (rw other at (sym (get-put l.events eid k e) ∙ looked))
        ]
  ]

  pub record_all-Copied :
      (ids : List String) (l l' : Ledger)
      → Copied l
      → record_all emissions ids l ≡ ok l'
      → Copied l'
  unfolding record_all
  record_all-Copied [] l l' copied h = subst Copied (ok-injective h) copied
  record_all-Copied (eid ∷ ids) l l' copied h =
      let (e, there, h1) = bound_value (required (get emissions eid)) h in
      let (next, added, h2) = bound_value (add_event l eid e.time_ns e.pos_nm) (sym h1) in
      record_all-Copied ids next l'
        (add_event-Copied l next eid e (required_ok _ there) copied (sym added)) (sym h2)

  module _ (ledger : Ledger) (copied : Copied ledger) where
    pub compare_pair-Apart :
        (a b : String) {w : Pairwise}
        → compare_pair emissions ledger a b ≡ ok w
        → w.spacelike ≡ true
        → Apart a b
    unfolding compare_pair concurrent
    compare_pair-Apart a b h apart =
        let (ea, at_a, h1) = bound_value (required (get emissions a)) h in
        let (eb, at_b, h2) = bound_value (required (get emissions b)) (sym h1) in
        let (c, decided, h3) = bound_value (concurrent ledger a b) (sym h2) in
        let yes : c ≡ true = ap (λ w. w.spacelike) (ok-injective (sym h3)) ∙ apart in
        let (la, in_a, k1) = bound_value (required (get ledger.events a)) (sym decided) in
        let (lb, in_b, k2) = bound_value (required (get ledger.events b)) (sym k1) in
        let outside = ok-injective k2 in
        (
          la,
          lb,
          copied a la (required_ok _ in_a),
          copied b lb (required_ok _ in_b),
          ground (arith, outside, yes),
          ground (arith, outside, yes),
        )

    -- What is stored under a pair's name is that pair's.
    abbrev pub Faithful : Dict String Pairwise → Type 0
    Faithful out =
        (a b : String) (w : Pairwise)
        → Plain a
        → get out (pair_name a b) ≡ some w
        → compare_pair emissions ledger a b ≡ ok w

    abbrev pub Present : Dict String Pairwise → String → Type 0
    Present out k = (w : Pairwise) × (get out k ≡ some w)

    put-Faithful :
        (out : Dict String Pairwise) (a b : String) (w : Pairwise)
        → Plain a
        → compare_pair emissions ledger a b ≡ ok w
        → Faithful out
        → Faithful (put out (pair_name a b) w)
    put-Faithful out a b w plain made faithful c d v plain' found =
        elim (Bool-cases (same_key (pair_name a b) (pair_name c d))) [
          | inl same ↦
              let (p, q) = pair_name-injective a b c d plain plain' ((eq_iff _ _).0 same) in
              let here : some w ≡ some v =
                rw same at (sym (get-put out (pair_name a b) (pair_name c d) w) ∙ found) in
              rw⁻¹ (p, q) (made ∙ ap ok (some-injective _ _ here))
          | inr other ↦
              faithful c d v plain'
                (rw other at (sym (get-put out (pair_name a b) (pair_name c d) w) ∙ found))
        ]

    put-Present :
        (out : Dict String Pairwise) (k j : String) (w : Pairwise)
        → (same_key k j ≡ true) ⊎ Present out j
        → Present (put out k w) j
    put-Present out k j w h = elim (Bool-cases (same_key k j)) [
      | inl same ↦ (w, get-put out k j w ∙ rw same refl)
      | inr other ↦ elim h [
        | inl same ↦ cc
        | inr (v, there) ↦ (v, get-put out k j w ∙ rw other there)
      ]
    ]

    abbrev pub Extends : Dict String Pairwise → Dict String Pairwise → Type 0
    Extends out out' = (k : String) → Present out k → Present out' k

    compare_with-Faithful :
        (a : String) (bs : List String) (out : Dict String Pairwise) {out' : Dict String Pairwise}
        → Plain a
        → Faithful out
        → compare_with emissions ledger a bs out ≡ ok out'
        → Faithful out' × All (λ b. Present out' (pair_name a b)) bs × Extends out out'
    unfolding compare_with
    compare_with-Faithful a [] out plain faithful h =
        let same = ok-injective h in
        (subst Faithful same faithful, tt, λ k there. subst (λ o. Present o k) same there)
    compare_with-Faithful a (b ∷ bs) out {out'} plain faithful h =
        let (w, made, h1) = bound_value (compare_pair emissions ledger a b) h in
        let stored = put-Faithful out a b w plain (sym made) faithful in
        let (faithful', all, extends) =
          compare_with-Faithful a bs (put out (pair_name a b) w) plain stored (sym h1) in
        (
          faithful',
          (
            extends (pair_name a b) (
                put-Present out (pair_name a b) (pair_name a b) w
                  (inl (same_key_self (pair_name a b)))),
            all,
          ),
          λ k there. extends k (put-Present out (pair_name a b) k w (inr there)),
        )

    pub compare_all-Faithful :
        (ids : List String) (out : Dict String Pairwise) {out' : Dict String Pairwise}
        → All Plain ids
        → Faithful out
        → compare_all emissions ledger ids out ≡ ok out'
        → Faithful out' × Pairs (λ a b. Present out' (pair_name a b)) ids × Extends out out'
    unfolding compare_all
    compare_all-Faithful [] out plain faithful h =
        let same = ok-injective h in
        (subst Faithful same faithful, tt, λ k there. subst (λ o. Present o k) same there)
    compare_all-Faithful (a ∷ ids) out {out'} (plain, plains) faithful h =
        let (next, made, h1) = bound_value (compare_with emissions ledger a ids out) h in
        let (stored, row, grown) = compare_with-Faithful a ids out plain faithful (sym made) in
        let (faithful', rest, extends) = compare_all-Faithful ids next plains stored (sym h1) in
        (
          faithful',
          (All-map (λ b. extends (pair_name a b)) ids row, rest),
          λ k there. extends k (grown k there),
        )
