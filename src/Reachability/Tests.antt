-- ===== src/Reachability/Tests.antt =====
-- The two searches on a small graph.
use horizon_protocol.Prelude.{
  ◌≡◌, refl, ◌↔◌, ◌≢◌, String, text_key, true, false, List, [], ◌∷◌, elem, eq_iff,
}
use horizon_protocol.Reachability.{
  build_adjacency, extend_adjacency, adj_append, precedes_fast, precedes_edges,
}
use horizon_protocol.Reachability.Graph.{adj_get, successors, PathTo, edge, further}
use horizon_protocol.Reachability.Paths.{precedes_edges_iff}

program : Unit {0}
unfolding build_adjacency extend_adjacency adj_append precedes_fast precedes_edges adj_get elem
program = tt

abbrev edges : List (String × String)
edges = ("a", "b") ∷ ("b", "c") ∷ ("a", "d") ∷ ("d", "c") ∷ []

reaches : precedes_edges edges "a" "c" ≡ true
unfolding program
reaches = refl

reaches_fast : precedes_fast (build_adjacency edges) "a" "c" ≡ true
unfolding program
reaches_fast = refl

not_back : precedes_fast (build_adjacency edges) "c" "a" ≡ false
unfolding program
not_back = refl

a-ne-c : ◌≢◌ {A = String} "a" "c"
a-ne-c h = cc ((eq_iff "a" "c").1 h)

-- No edge leaves `c`.
nothing_after : {v : String} → PathTo edges "c" v → ⊥
unfolding successors elem
nothing_after (edge h) = cc
nothing_after (further p h) = nothing_after p

precedes_edges_iff_example : (precedes_edges edges "a" "c" ≡ true) ↔ PathTo edges "a" "c"
precedes_edges_iff_example = precedes_edges_iff edges "a" "c"
