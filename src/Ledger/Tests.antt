-- ===== src/Ledger/Tests.antt =====
-- A ledger of three events built by its methods, and the theorems at it.
use horizon_protocol.Prelude.{
  ◌⊎◌, ◌≡◌, refl, String, text_key, pair_key, true, [], ◌∷◌, ◌++◌, none, some, pos, ◌<ℤ◌, ◌-ℤ◌,
  ◌*ℤ◌, square, magnitude, elem, get, put, ok, str_of_int,
}
use horizon_protocol.Geometry.{Position, causally_admissible, admissibility_witness, dist2}
use horizon_protocol.EdgeClaims.{EdgeBody, edge_claim}
use horizon_protocol.Reachability.{build_adjacency, extend_adjacency, adj_append, precedes_edges}
use horizon_protocol.Reachability
use horizon_protocol.Reachability.Graph.{adj_get}
use horizon_protocol.Ledger.{
  Stamp, Ledger, EdgeRecord, new_ledger, add_event, strictly_after, admit_edge, physical_body,
  add_edge, precedes, precedes_fast, concurrent, has_observed_dependency,
}
use horizon_protocol.Ledger.Invariant.{IsCausal}
use horizon_protocol.Ledger.Built.{Built, fresh, event, edge, Built-IsCausal}
use horizon_protocol.Ledger.Edges.{Reached, Admits, Refuses, add_edge_effect}
use horizon_protocol.Ledger.Order.{precedes-in_cone, precedes_fast-precedes}

program : Unit {0}
unfolding add_event get put add_edge strictly_after admit_edge edge_claim elem str_of_int
    causally_admissible admissibility_witness dist2 square magnitude ◌-ℤ◌ ◌*ℤ◌ precedes
    precedes_edges precedes_fast concurrent build_adjacency extend_adjacency adj_append adj_get
    Reachability.precedes_fast
program = tt

-- The digest of a claim stands for SHA-256.
abbrev digest : EdgeBody → String
digest body = body.asserted_at

abbrev site : Position
site = record { x = pos 0; y = pos 0; z = pos 0 }

abbrev far : Position
far = record { x = pos 1000000000000; y = pos 0; z = pos 0 }

abbrev three : Ledger
three = record new_ledger {
  events =
      ("a", record { time_ns = pos 0; pos_nm = site })
      ∷ ("b", record { time_ns = pos 10; pos_nm = site })
      ∷ ("c", record { time_ns = pos 20; pos_nm = site })
      ∷ ("d", record { time_ns = pos 20; pos_nm = far })
      ∷ [];
}

three-Built : Built digest three
unfolding program
three-Built =
    event "d" (pos 20) far
      (event "c" (pos 20) site (event "b" (pos 10) site (event "a" (pos 0) site fresh refl) refl)
        refl)
      refl

abbrev with_claim : Ledger → String → String → Stamp → Ledger
with_claim l a b eb = record l {
  edges = l.edges ++ (a, b) ∷ [];
  edge_claims =
      l.edge_claims
      ++ record {
        body = physical_body a b eb;
        evidence_refs = [];
        relation_decision_ref = none;
        edge_id = digest (physical_body a b eb);
      }
        ∷ [];
}

abbrev linked : Ledger
linked =
    with_claim (with_claim three "a" "b" (record { time_ns = pos 10; pos_nm = site })) "b" "c"
      (record { time_ns = pos 20; pos_nm = site })

linked-Built : Built digest linked
unfolding program
linked-Built = edge "b" "c" (edge "a" "b" three-Built refl) refl

-- The direct edge of the two ends is not recorded, but the order knows it.
a_before_c : precedes linked "a" "c" ≡ true
unfolding program
a_before_c = refl

a_before_b : precedes linked "a" "b" ≡ true
unfolding program
a_before_b = refl

b_before_c : precedes linked "b" "c" ≡ true
unfolding program
b_before_c = refl

c_and_d : concurrent linked "c" "d" ≡ ok true
unfolding program
c_and_d = refl

a_known : get linked.events "a" ≡ some (record { time_ns = pos 0; pos_nm = site })
unfolding program
a_known = refl

d_known : get linked.events "d" ≡ some (record { time_ns = pos 20; pos_nm = far })
unfolding program
d_known = refl

Built-IsCausal_example : IsCausal linked
Built-IsCausal_example = Built-IsCausal linked-Built

precedes-in_cone_example :
    (ea : Stamp) × (eb : Stamp) × (get linked.events "a" ≡ some ea)
    × (get linked.events "c" ≡ some eb)
    × (ea.time_ns <ℤ eb.time_ns)
    × (causally_admissible ea.time_ns ea.pos_nm eb.time_ns eb.pos_nm ≡ true)
precedes-in_cone_example = precedes-in_cone "a" "c" linked-Built a_before_c

precedes_fast-precedes_example :
    ((precedes_fast linked "a" "c").1 ≡ precedes linked "a" "c")
    × ((precedes_fast linked "a" "c").0.edges ≡ linked.edges)
    × ((precedes_fast linked "a" "c").0.events ≡ linked.events)
precedes_fast-precedes_example = precedes_fast-precedes "a" "c" linked-Built

-- Light has not reached the far site: the edge is refused.
add_edge_effect_example :
    let ea : Stamp = record { time_ns = pos 0; pos_nm = site } in
    let eb : Stamp = record { time_ns = pos 20; pos_nm = far } in
    (l' : Ledger) × (r : EdgeRecord) × (add_edge digest linked "a" "d" ≡ ok (l', r))
    × ((Reached ea eb × Admits linked ("a", "d") l' r) ⊎ ((¬ Reached ea eb) × Refuses linked l' r))
    × ((u v : String) → has_observed_dependency l' u v ≡ has_observed_dependency linked u v)
add_edge_effect_example = add_edge_effect digest linked "a" "d" a_known d_known
