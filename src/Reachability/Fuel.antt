-- ===== src/Reachability/Fuel.antt =====
-- The two searches as runs of `Walk`, with the measure that falls in each round: the pending
-- events and the edges to events not yet seen.
use horizon_protocol.Prelude.{
  ℕ, zero, suc, ◌+◌, ◌≤◌, ◌<◌, ◌≡◌, refl, sym, ◌∙◌, inl, inr, true, false, List, [], ◌∷◌, ◌++◌,
  length, Key, same_key, elem, if◌then◌else◌, arith, Bool-cases, same_key_self, elem-append,
  length-append,
}
use mathlib.Core.Path.{subst}
use mathlib.Core.List.{append-nil, append_assoc}
use horizon_protocol.Reachability.{
  adj_append, extend_adjacency, build_adjacency, adj_size, offer_fast, bfs, offer_scan, dfs,
}
use horizon_protocol.Reachability.Graph.{Outcome, found, going, Adjacency, adj_get, successors}
use horizon_protocol.Reachability.Walk.{
  Pending, Offering, over, old, hit, new, Searching, exhausted, hits, next, target_unseen,
}

module _ {K : Type 0} ⦃key : Key K⦄ where
  -- The edges to events that have not been seen.
  pub unseen : List (K × K) → List K → ℕ
  unseen [] s = 0
  unseen ((u, v) ∷ edges) s = (if elem v s then 0 else 1) + unseen edges s

  pub unseen-le-length : (edges : List (K × K)) (s : List K) → unseen edges s ≤ length edges
  unfolding unseen
  unseen-le-length [] s = omega arith
  unseen-le-length ((u, v) ∷ edges) s = ground (arith, unseen-le-length edges s)

  unseen-cons_le :
      (edges : List (K × K)) (w : K) (s : List K) → unseen edges (w ∷ s) ≤ unseen edges s
  unfolding unseen elem
  unseen-cons_le [] w s = omega arith
  unseen-cons_le ((u, v) ∷ edges) w s = ground (arith, unseen-cons_le edges w s)

  unseen-cons_lt :
      (edges : List (K × K)) (x w : K) (s : List K)
      → elem w (successors x edges) ≡ true
      → elem w s ≡ false
      → unseen edges (w ∷ s) < unseen edges s
  unfolding unseen elem successors
  unseen-cons_lt [] x w s m h = cc
  unseen-cons_lt ((u, v) ∷ edges) x w s m h = elim (Bool-cases (same_key v w)) [
    | inl here ↦ ground (arith, unseen-cons_le edges w s, key.same_iff v w)
    | inr there ↦ ground (
      arith,
      unseen-cons_lt edges x w s,
      unseen-cons_le edges w s,
      key.same_iff v w,
      key.same_iff w v,
    )
  ]

  module _ {push : K → List K → List K} (pend : Pending push) (b : K) where
    fewer_left :
        (edges : List (K × K)) (x : K) {vs s p s' p' : List K}
        → Offering push b vs s p (going s' p')
        → ((y : K) → elem y vs ≡ true → elem y (successors x edges) ≡ true)
        → unseen edges s' + length p' ≤ unseen edges s + length p
    unfolding elem
    fewer_left edges x over h = omega arith
    fewer_left edges x (old e o) h = fewer_left edges x o (λ y m. h y (ground arith))
    fewer_left edges x (new {v = v} {s = s} {p = p} e f o) h = omega (
      arith,
      fewer_left edges x o (λ y m. h y (ground arith)),
      unseen-cons_lt edges x v s (h v (ground (arith, same_key_self v))) e,
      pend.length-push v p,
    )

  -- The stack and the queue.
  pub stack-Pending : Pending {K = K} ◌∷◌
  unfolding elem
  stack-Pending = record { elem-push = λ y v p. refl; length-push = λ v p. refl }

  abbrev pub enqueue : K → List K → List K
  enqueue v p = p ++ v ∷ []

  pub queue-Pending : Pending {K = K} enqueue
  unfolding elem
  queue-Pending = record {
    elem-push = λ y v p. ground (arith, elem-append y p (v ∷ []));
    length-push = λ v p. omega (arith, length-append p (v ∷ []));
  }

  offer_scan-Offering :
      (b x : K) (edges : List (K × K)) (s p : List K)
      → Offering ◌∷◌ b (successors x edges) s p (offer_scan b x edges s p)
  unfolding successors offer_scan
  offer_scan-Offering b x [] s p = over
  offer_scan-Offering b x ((u, v) ∷ edges) s p = elim (Bool-cases (same_key u x)) [
    | inl leaves ↦ elim (Bool-cases (elem v s)) [
      | inl seen ↦ rw (leaves, seen) (old seen (offer_scan-Offering b x edges s p))
      | inr fresh ↦ elim (Bool-cases (same_key v b)) [
        | inl target ↦ rw (leaves, fresh, target) (hit target)
        | inr miss ↦
            rw (leaves, fresh, miss)
              (new fresh miss (offer_scan-Offering b x edges (v ∷ s) (v ∷ p)))
      ]
    ]
    | inr other ↦ rw other (offer_scan-Offering b x edges s p)
  ]

  offer_fast-Offering :
      (b : K) (vs s p : List K) → elem b s ≡ false → Offering enqueue b vs s p (offer_fast b vs s p)
  unfolding offer_fast elem
  offer_fast-Offering b [] s p h = over
  offer_fast-Offering b (v ∷ vs) s p h = elim (Bool-cases (same_key v b)) [
    | inl target ↦ rw target (hit target)
    | inr miss ↦ elim (Bool-cases (elem v s)) [
      | inl seen ↦ rw (miss, seen) (old seen (offer_fast-Offering b vs s p h))
      | inr fresh ↦
          rw (miss, fresh)
            (new fresh miss (
              offer_fast-Offering b vs (v ∷ s) (p ++ v ∷ [])
                (ground (arith, key.same_iff v b, key.same_iff b v))))
    ]
  ]

  -- One round of each search, from the outcome of its inner loop.
  pub dfs_searches :
      (fuel : ℕ) (edges : List (K × K)) (b : K) (s p : List K)
      → unseen edges s + length p < fuel
      → Searching ◌∷◌ b edges s p (dfs fuel edges b s p)
  unfolding dfs
  dfs_searches zero edges b s p h = elim h [ ]
  dfs_searches (suc fuel) edges b s [] h = exhausted
  dfs_searches (suc fuel) edges b s (x ∷ p) h =
      go (offer_scan b x edges s p) refl (offer_scan-Offering b x edges s p)
        (dfs_searches fuel edges b)
    where
      go :
          (o : Outcome K)
          → offer_scan b x edges s p ≡ o
          → Offering ◌∷◌ b (successors x edges) s p o
          → ((s' p' : List K)
              → unseen edges s' + length p' < fuel
              → Searching ◌∷◌ b edges s' p' (dfs fuel edges b s' p'))
          → Searching ◌∷◌ b edges s (x ∷ p) (dfs (suc fuel) edges b s (x ∷ p))
      go found e o rec = rw (e, dfs) (hits o)
      go (going s' p') e o rec =
          rw (e, dfs)
            (next o (rec s' p' (omega (arith, fewer_left stack-Pending b edges x o (λ y m. m)))))

  pub bfs_searches :
      (fuel : ℕ) (adj : Adjacency K) (edges : List (K × K)) (b : K) (s p : List K)
      → ((x : K) → adj_get x adj ≡ successors x edges)
      → elem b s ≡ false
      → unseen edges s + length p < fuel
      → Searching enqueue b edges s p (bfs fuel adj b s p)
  unfolding bfs
  bfs_searches zero adj edges b s p same out h = elim h [ ]
  bfs_searches (suc fuel) adj edges b s [] same out h = exhausted
  bfs_searches (suc fuel) adj edges b s (x ∷ p) same out h =
      go (offer_fast b (adj_get x adj) s p) refl
        (subst (λ vs. Offering enqueue b vs s p (offer_fast b (adj_get x adj) s p)) (same x)
          (offer_fast-Offering b (adj_get x adj) s p out))
        (λ s' p'. bfs_searches fuel adj edges b s' p' same)
    where
      go :
          (o : Outcome K)
          → offer_fast b (adj_get x adj) s p ≡ o
          → Offering enqueue b (successors x edges) s p o
          → ((s' p' : List K)
              → elem b s' ≡ false
              → unseen edges s' + length p' < fuel
              → Searching enqueue b edges s' p' (bfs fuel adj b s' p'))
          → Searching enqueue b edges s (x ∷ p) (bfs (suc fuel) adj b s (x ∷ p))
      go found e o rec = rw (e, bfs) (hits o)
      go (going s' p') e o rec =
          rw (e, bfs)
            (next o (
              rec s' p' (target_unseen queue-Pending o out)
                (omega (arith, fewer_left queue-Pending b edges x o (λ y m. m)))))

  adj_get-append :
      (u v x : K) (adj : Adjacency K)
      → adj_get x (adj_append u v adj)
        ≡ (if same_key u x then adj_get x adj ++ v ∷ [] else adj_get x adj)
  unfolding adj_get adj_append
  adj_get-append u v x [] = ground (arith, key.same_iff u x, key.same_iff x u)
  adj_get-append u v x ((w, vs) ∷ adj) =
      ground (arith, key.same_iff u w, key.same_iff u x, key.same_iff x w, adj_get-append u v x adj)

  adj_get-extend :
      (x : K) (adj : Adjacency K) (edges : List (K × K))
      → adj_get x (extend_adjacency adj edges) ≡ adj_get x adj ++ successors x edges
  unfolding extend_adjacency successors
  adj_get-extend x adj [] = sym (append-nil _)
  adj_get-extend x adj ((u, v) ∷ edges) = elim (Bool-cases (same_key u x)) [
    | inl leaves ↦ rw leaves (
        adj_get-extend x (adj_append u v adj) edges
        ∙ rw (adj_get-append, leaves) (append_assoc (adj_get x adj) (v ∷ []) (successors x edges)))
    | inr other ↦
        rw other (adj_get-extend x (adj_append u v adj) edges ∙ rw (adj_get-append, other))
  ]

  -- The index holds, for each event, the targets of the edges that leave it.
  pub adj_get-build :
      (x : K) (edges : List (K × K)) → adj_get x (build_adjacency edges) ≡ successors x edges
  unfolding build_adjacency adj_get
  adj_get-build x edges = adj_get-extend x [] edges

  size-append : (u v : K) (adj : Adjacency K) → adj_size (adj_append u v adj) ≡ adj_size adj + 1
  unfolding adj_size adj_append
  size-append u v [] = omega arith
  size-append u v ((w, vs) ∷ adj) = ground (arith, size-append u v adj, length-append vs (v ∷ []))

  size-extend :
      (adj : Adjacency K) (edges : List (K × K))
      → adj_size (extend_adjacency adj edges) ≡ adj_size adj + length edges
  unfolding extend_adjacency
  size-extend adj [] = omega arith
  size-extend adj ((u, v) ∷ edges) =
      omega (arith, size-extend (adj_append u v adj) edges, size-append u v adj)

  pub size-build : (edges : List (K × K)) → adj_size (build_adjacency edges) ≡ length edges
  unfolding build_adjacency adj_size
  size-build edges = omega (arith, size-extend [] edges)
