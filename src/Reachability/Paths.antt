-- ===== src/Reachability/Paths.antt =====
-- What the two reachability queries answer.
use horizon_protocol.Prelude.{
  ◌+◌, ◌≡◌, refl, ◌↔◌, inl, inr, true, false, List, [], ◌∷◌, Key, same_key, elem, arith, Bool-cases,
  Bool-ext, iff_trans, iff_symm, ◌≢◌, length, same_key_self,
}
use horizon_protocol.Reachability.{build_adjacency, adj_size, precedes_fast, precedes_edges}
use horizon_protocol.Reachability.Graph.{PathTo}
use horizon_protocol.Reachability.Correct.{Searching-correct}
use horizon_protocol.Reachability.Fuel.{
  unseen-le-length, stack-Pending, queue-Pending, dfs_searches, bfs_searches, adj_get-build,
  size-build,
}

module _ {K : Type 0} ⦃key : Key K⦄ (edges : List (K × K)) (a b : K) where
  -- The reference search answers True exactly when a path of one edge or more leads from `a`
  -- to `b`.
  pub precedes_edges_iff : (precedes_edges edges a b ≡ true) ↔ PathTo edges a b
  unfolding precedes_edges elem
  precedes_edges_iff =
      Searching-correct edges a b stack-Pending
        (dfs_searches (length edges + 2) edges b [] (a ∷ [])
          (omega (arith, unseen-le-length edges [])))
        (record {
          outside = refl;
          closed = λ y h. elim h [
            | inl e ↦ inl (rw e (ground (arith, same_key_self a)))
            | inr none ↦ cc
          ];
        })
        (λ y m. inl ((key.same_iff y a).0 (ground arith)))

  -- Between different events the indexed search answers True exactly when there is a path.
  pub precedes_fast_iff :
      a ≢ b → (precedes_fast (build_adjacency edges) a b ≡ true) ↔ PathTo edges a b
  unfolding precedes_fast elem
  precedes_fast_iff differ =
      let distinct : same_key a b ≡ false = ground (arith, key.same_iff a b) in
      rw (distinct, precedes_fast)
        (Searching-correct edges a b queue-Pending
          (bfs_searches (adj_size (build_adjacency edges) + 2) (build_adjacency edges) edges b
            (a ∷ []) (a ∷ []) (λ x. adj_get-build x edges)
            (ground (arith, key.same_iff a b, key.same_iff b a))
            (omega (arith, size-build edges, unseen-le-length edges (a ∷ []))))
          (record {
            outside = ground (arith, key.same_iff a b, key.same_iff b a);
            closed = λ y h.
                inl (elim h [
                  | inl e ↦ rw e (ground (arith, same_key_self a))
                  | inr m ↦ ground arith
                ]);
          })
          (λ y m. inl ((key.same_iff y a).0 (ground arith))))

precedes_fast_same :
    {K : Type 0} ⦃key : Key K⦄ (a : K) (edges : List (K × K)) (b : K)
    → same_key a b ≡ true
    → precedes_fast (build_adjacency edges) a b ≡ false
unfolding precedes_fast
precedes_fast_same a edges b same = rw (same, precedes_fast)

-- The indexed search agrees with the reference search between different events, and from an
-- event to itself when no path returns to it.
pub precedes_fast-eq-precedes :
    {K : Type 0} ⦃key : Key K⦄ (edges : List (K × K)) (a b : K)
    → ¬ PathTo edges a a
    → precedes_fast (build_adjacency edges) a b ≡ precedes_edges edges a b
precedes_fast-eq-precedes ⦃key⦄ edges a b acyclic = elim (Bool-cases (same_key a b)) [
  | inl same ↦
      let e : a ≡ b = (key.same_iff a b).0 same in
      Bool-ext _ _ (
        λ h. cc (precedes_fast_same a edges b same),
        λ h. absurd (acyclic (rw (← e) at ((precedes_edges_iff edges a b).0 h))),
      )
  | inr other ↦ Bool-ext _ _ (
      iff_trans (precedes_fast_iff edges a b (λ e. cc ((key.same_iff a b).1 e)))
        (iff_symm (precedes_edges_iff edges a b)))
]
