-- ===== src/Ledger/Invariant.antt =====
-- The invariant of a ledger: its edges are certified by the light-cone gate, its claims of
-- physical admissibility are its edges, and its index is that of its edges.
use mathlib.Core.Path.{subst}
use horizon_protocol.Prelude.{
  ◌≡◌, refl, ap, ◌∙◌, String, text_key, pair_key, true, false, not, ◌⊎◌, inl, inr, List, [], ◌∷◌,
  ◌++◌, none, some, ℤ, same_key, elem, Dict, get, put, get-put, ok, raise, key_error, ok-injective,
  raise≢ok, Option-cases, str_of_int-nonempty, if◌then◌else◌, arith, Bool-cases, elem-append,
  eq_iff,
}
use horizon_protocol.Geometry.{Position}
use horizon_protocol.EdgeClaims.{EdgeBody, EdgeClaim, edge_claim, physical_admissibility}
use horizon_protocol.Reachability.{build_adjacency}
use horizon_protocol.Ledger.{
  Stamp, Ledger, new_ledger, add_event, strictly_after, physical_body, admit_edge, edge_record,
  add_edge, indexed,
}

-- The edges that the claims of physical admissibility are about, in their order.
unfoldable pub physical_edges : List EdgeClaim → List (String × String)
physical_edges [] = []
physical_edges (c ∷ claims) =
    if same_key c.kind physical_admissibility
    then (c.from_event, c.to_event) ∷ physical_edges claims
    else physical_edges claims

-- Both ends are recorded, and the second is strictly after the first.
pub record Certified (events : Dict String Stamp) (a b : String) : Type 0 where
  pub source : Stamp
  pub target : Stamp
  pub source_known : get events a ≡ some source
  pub target_known : get events b ≡ some target
  pub after : strictly_after source target ≡ true

pub record IsCausal (l : Ledger) : Type 0 where
  pub certified : (a b : String) → elem (a, b) l.edges ≡ true → Certified l.events a b
  pub claimed : physical_edges l.edge_claims ≡ l.edges
  pub cached : indexed l ≡ build_adjacency l.edges

pub IsCausal-new : IsCausal new_ledger
unfolding elem physical_edges
IsCausal-new = record { certified = λ a b h. cc; claimed = refl; cached = refl }

pub physical_edges-append :
    (cs : List EdgeClaim) (c : EdgeClaim)
    → physical_edges (cs ++ c ∷ [])
      ≡ physical_edges cs
        ++ (if same_key c.kind physical_admissibility then (c.from_event, c.to_event) ∷ [] else [])
unfolding physical_edges
physical_edges-append [] c = refl
physical_edges-append (d ∷ cs) c = ground (arith, physical_edges-append cs c)

-- A new event leaves the stamps of the recorded ones alone.
Certified-put :
    {events : Dict String Stamp} {a b : String} (e : String) (s : Stamp)
    → get events e ≡ none
    → Certified events a b
    → Certified (put events e s) a b
Certified-put {events} {a} {b} e s fresh h = record {
  source = h.source;
  target = h.target;
  source_known = ground (arith, get-put events e a s, eq_iff e a, h.source_known);
  target_known = ground (arith, get-put events e b s, eq_iff e b, h.target_known);
  after = h.after;
}

pub add_event-IsCausal :
    (l : Ledger) (eid : String) (t : ℤ) (p : Position) {l' : Ledger}
    → IsCausal l
    → add_event l eid t p ≡ ok l'
    → IsCausal l'
unfolding add_event
add_event-IsCausal l eid t p h e = elim (Option-cases (get l.events eid)) [
  | inl fresh ↦ subst IsCausal (ok-injective (rw fresh at e)) (record {
    certified = λ a b m. Certified-put eid _ fresh (h.certified a b m);
    claimed = h.claimed;
    cached = h.cached;
  })
  | inr (s, there) ↦ absurd (raise≢ok (rw there at e))
]

module _ (digest : EdgeBody → String) (l : Ledger) (a b : String) where
  -- The claim that `add_edge` makes is well formed: it never raises.
  abbrev pub made_claim : Stamp → EdgeClaim
  made_claim eb = record {
    body = physical_body a b eb;
    evidence_refs = [];
    relation_decision_ref = none;
    edge_id = digest (physical_body a b eb);
  }

  physical_claim : (eb : Stamp) → edge_claim digest (physical_body a b eb) [] ≡ ok (made_claim eb)
  unfolding edge_claim elem
  physical_claim eb = rw (str_of_int-nonempty eb.time_ns)

  -- The ledger and the record that `add_edge` leaves for two recorded events.
  abbrev pub with_edge : Stamp → Ledger
  with_edge eb = if elem (a, b) l.edges then l else record l {
    edges = l.edges ++ (a, b) ∷ [];
    adjacency_cache = none;
    edge_claims = l.edge_claims ++ made_claim eb ∷ [];
  }

  abbrev pub with_refusal : Stamp → Stamp → Ledger
  with_refusal ea eb = record l {
    rejections = l.rejections ++ edge_record digest a b ea eb false ∷ [];
  }

  admit_edge_lem : (eb : Stamp) → admit_edge digest l a b eb ≡ ok (with_edge eb)
  unfolding admit_edge
  admit_edge_lem eb = elim (Bool-cases (elem (a, b) l.edges)) [
    | inl old ↦ rw old
    | inr new ↦ rw (new, physical_claim eb)
  ]

  pub add_edge_known :
      {ea eb : Stamp}
      → get l.events a ≡ some ea
      → get l.events b ≡ some eb
      → add_edge digest l a b
        ≡ ok (
            if strictly_after ea eb
            then (with_edge eb, edge_record digest a b ea eb true)
            else (with_refusal ea eb, edge_record digest a b ea eb false))
  unfolding add_edge
  add_edge_known {ea} {eb} ka kb = elim (Bool-cases (strictly_after ea eb)) [
    | inl after ↦ rw (ka, kb, after, admit_edge_lem eb)
    | inr not ↦ rw (ka, kb, not)
  ]

  -- An event that is not recorded raises, and the ledger is left alone.
  pub add_edge_unknown :
      (get l.events a ≡ none) ⊎ (get l.events b ≡ none) → add_edge digest l a b ≡ raise key_error
  unfolding add_edge
  add_edge_unknown (inl e) = rw e
  add_edge_unknown (inr e) = elim (Option-cases (get l.events a)) [
    | inl absent ↦ rw absent
    | inr (ea, there) ↦ rw (there, e)
  ]

  Certified-grown :
      {ea eb : Stamp}
      → get l.events a ≡ some ea
      → get l.events b ≡ some eb
      → strictly_after ea eb ≡ true
      → IsCausal l
      → (u v : String) → (elem (u, v) l.edges ≡ true) ⊎ (elem (u, v) l.edges ≡ false)
      → elem (u, v) (l.edges ++ (a, b) ∷ []) ≡ true
      → Certified l.events u v
  unfolding elem
  Certified-grown ka kb after h u v (inl old) m = h.certified u v old
  Certified-grown {ea} {eb} ka kb after h u v (inr new) m =
      let e : (u ≡ a) × (v ≡ b) =
        ground (arith, elem-append (u, v) l.edges ((a, b) ∷ []), eq_iff u a, eq_iff v b) in
      record {
        source = ea;
        target = eb;
        source_known = rw e.0 ka;
        target_known = rw e.1 kb;
        after = after;
      }

  pub with_edge-IsCausal :
      {ea eb : Stamp}
      → get l.events a ≡ some ea
      → get l.events b ≡ some eb
      → strictly_after ea eb ≡ true
      → IsCausal l
      → IsCausal (with_edge eb)
  with_edge-IsCausal {ea} {eb} ka kb after h = elim (Bool-cases (elem (a, b) l.edges)) [
    | inl old ↦ rw old h
    | inr new ↦ rw new (record {
      certified = λ u v m. Certified-grown ka kb after h u v (Bool-cases (elem (u, v) l.edges)) m;
      claimed =
          physical_edges-append l.edge_claims (made_claim eb)
          ∙ ap (λ es. es ++ (a, b) ∷ []) h.claimed;
      cached = refl;
    })
  ]
