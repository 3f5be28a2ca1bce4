-- ===== src/Ledger/Edges.antt =====
-- What `add_edge` does with two recorded events.
use horizon_protocol.Prelude.{
  ◌≡◌, refl, ◌∙◌, String, text_key, pair_key, true, inl, inr, List, [], ◌∷◌, ◌++◌, some, elem, get,
  ok, if◌then◌else◌, arith, Bool-cases, ◌⊎◌, ◌↔◌, false, pos, ◌+ℤ◌, ◌≤ℤ◌, ◌<ℤ◌,
}
use horizon_protocol.Geometry.{min_light_time_ns}
use horizon_protocol.Geometry.Floor.{admissible-iff-min_light_time}
use horizon_protocol.EdgeClaims.{EdgeBody, EdgeClaim}
use horizon_protocol.Ledger.{
  Stamp, EdgeRecord, Ledger, strictly_after, add_edge, edge_record, claims_dependency,
  has_observed_dependency,
}
use horizon_protocol.Ledger.Invariant.{add_edge_known, with_edge, with_refusal, made_claim}

-- A claim of physical admissibility is no dependency.
claims_dependency-append :
    (digest : EdgeBody → String) (l : Ledger) (a b u v : String) (eb : Stamp) (cs : List EdgeClaim)
    → claims_dependency u v (cs ++ made_claim digest l a b eb ∷ []) ≡ claims_dependency u v cs
unfolding claims_dependency elem
claims_dependency-append digest l a b u v eb [] = ground arith
claims_dependency-append digest l a b u v eb (c ∷ cs) =
    rw (claims_dependency-append digest l a b u v eb cs)

-- The second event comes strictly later than the first, and no earlier than light from it.
abbrev pub Reached : Stamp → Stamp → Type 0
Reached ea eb =
    (ea.time_ns <ℤ eb.time_ns)
    × (ea.time_ns +ℤ pos (min_light_time_ns ea.pos_nm eb.pos_nm) ≤ℤ eb.time_ns)

strictly_after-Reached : (ea eb : Stamp) → (strictly_after ea eb ≡ true) ↔ Reached ea eb
unfolding strictly_after
strictly_after-Reached ea eb =
    let cone = admissible-iff-min_light_time ea.time_ns ea.pos_nm eb.time_ns eb.pos_nm in
    (
      λ h. (ground arith, cone.0 (ground arith)),
      λ (later, lit). let inside = cone.1 lit in ground arith,
    )

-- The edge is admitted, and recorded unless it is there.
abbrev pub Admits : Ledger → String × String → Ledger → EdgeRecord → Type 0
Admits l edge l' r =
    (r.admitted ≡ true)
    × (l'.edges ≡ (if elem edge l.edges then l.edges else l.edges ++ edge ∷ []))
    × (l'.rejections ≡ l.rejections)

-- It is refused, and the record goes to the audit log.
abbrev pub Refuses : Ledger → Ledger → EdgeRecord → Type 0
Refuses l l' r =
    (r.admitted ≡ false) × (l'.edges ≡ l.edges) × (l'.rejections ≡ l.rejections ++ r ∷ [])

-- If the second of two recorded events is strictly later than the first, and no earlier than light
-- from it, then `add_edge` admits the edge, which joins the edges unless it is among them, and the
-- audit log is as before. Else the edges are as before and the record goes to the audit log. In
-- neither case does any pair of events gain or lose an observed dependency.
pub add_edge_effect :
    (digest : EdgeBody → String) (l : Ledger) (a b : String) {ea eb : Stamp}
    → get l.events a ≡ some ea
    → get l.events b ≡ some eb
    → (l' : Ledger) × (r : EdgeRecord) × (add_edge digest l a b ≡ ok (l', r))
      × ((Reached ea eb × Admits l (a, b) l' r) ⊎ ((¬ Reached ea eb) × Refuses l l' r))
      × ((u v : String) → has_observed_dependency l' u v ≡ has_observed_dependency l u v)
unfolding has_observed_dependency
add_edge_effect digest l a b {ea} {eb} ka kb = elim (Bool-cases (strictly_after ea eb)) [
  | inl after ↦
      let reached = (strictly_after-Reached ea eb).0 after in
      elim (Bool-cases (elem (a, b) l.edges)) [
        | inl old ↦ (
          l,
          edge_record digest a b ea eb true,
          add_edge_known digest l a b ka kb ∙ rw (after, old),
          inl (reached, (refl, rw old refl, refl)),
          λ u v. refl,
        )
        | inr new ↦ (
          with_edge digest l a b eb,
          edge_record digest a b ea eb true,
          add_edge_known digest l a b ka kb ∙ rw after,
          inl (reached, (refl, rw new refl, rw new refl)),
          λ u v. rw new (claims_dependency-append digest l a b u v eb l.edge_claims),
        )
      ]
  | inr refused ↦ (
    with_refusal digest l a b ea eb,
    edge_record digest a b ea eb false,
    add_edge_known digest l a b ka kb ∙ rw refused,
    inr (λ reached. let after = (strictly_after-Reached ea eb).1 reached in cc, (refl, refl, refl)),
    λ u v. refl,
  )
]
