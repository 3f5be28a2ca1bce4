-- ===== src/Reachability.antt =====
-- Which events reach which others over admitted edges: horizon/reachability_cache.py, and the
-- reference search `CausalLedger.precedes` of horizon/ledger.py. A set of edges is a list of
-- pairs in some order of iteration.
pub mod Graph
pub mod Walk
pub mod Correct
pub mod Fuel
pub mod Paths
mod Tests
use Graph.{Outcome, found, going, Adjacency, adj_get}
use horizon_protocol.Prelude.{
  ℕ, zero, suc, ◌+◌, Bool, true, false, not, ◌&&◌, List, [], ◌∷◌, ◌++◌, length, Key, same_key, elem,
  if◌then◌else◌,
}

module _ {K : Type 0} ⦃key : Key K⦄ where
  -- `adj[u].append(v)` on a `defaultdict(list)`
  unfoldable pub adj_append : K → K → Adjacency K → Adjacency K
  adj_append u v [] = (u, v ∷ []) ∷ []
  adj_append u v ((w, vs) ∷ adj) =
      if same_key u w then (w, vs ++ v ∷ []) ∷ adj else (w, vs) ∷ adj_append u v adj

  unfoldable pub extend_adjacency : Adjacency K → List (K × K) → Adjacency K
  extend_adjacency adj [] = adj
  extend_adjacency adj ((u, v) ∷ edges) = extend_adjacency (adj_append u v adj) edges

  unfoldable pub build_adjacency : List (K × K) → Adjacency K
  build_adjacency edges = extend_adjacency [] edges

  -- The number of targets in the index: the fuel of the search.
  unfoldable pub adj_size : Adjacency K → ℕ
  adj_size [] = 0
  adj_size ((u, vs) ∷ adj) = length vs + adj_size adj

  -- The inner loop of `precedes_fast`: `for v in adj.get(x, ())`
  unfoldable pub offer_fast : K → List K → List K → List K → Outcome K
  offer_fast b [] seen queue = going seen queue
  offer_fast b (v ∷ vs) seen queue =
      let fresh = not (elem v seen) in
      let rest =
        offer_fast b vs (if fresh then v ∷ seen else seen)
          (if fresh then queue ++ v ∷ [] else queue) in
      if same_key v b then found else rest

  -- The outer loop: `while q`
  unfoldable pub bfs : ℕ → Adjacency K → K → List K → List K → Bool
  bfs zero adj b seen queue = false
  bfs (suc fuel) adj b seen [] = false
  bfs (suc fuel) adj b seen (x ∷ queue) = elim (offer_fast b (adj_get x adj) seen queue) [
    | found ↦ true
    | going seen' queue' ↦ bfs fuel adj b seen' queue'
  ]

  unfoldable pub precedes_fast : Adjacency K → K → K → Bool
  unfolding adj_size offer_fast bfs
  precedes_fast adj a b =
      if same_key a b then false else bfs (adj_size adj + 2) adj b (a ∷ []) (a ∷ [])

  -- The inner loop of `precedes`: `for (u, v) in self.edges`. The top of the stack is its head.
  unfoldable pub offer_scan : K → K → List (K × K) → List K → List K → Outcome K
  offer_scan b x [] seen stack = going seen stack
  offer_scan b x ((u, v) ∷ edges) seen stack =
      let fresh = same_key u x && not (elem v seen) in
      let rest =
        offer_scan b x edges (if fresh then v ∷ seen else seen)
          (if fresh then v ∷ stack else stack) in
      if fresh && same_key v b then found else rest

  -- The outer loop: `while stack`
  unfoldable pub dfs : ℕ → List (K × K) → K → List K → List K → Bool
  dfs zero edges b seen stack = false
  dfs (suc fuel) edges b seen [] = false
  dfs (suc fuel) edges b seen (x ∷ stack) = elim (offer_scan b x edges seen stack) [
    | found ↦ true
    | going seen' stack' ↦ dfs fuel edges b seen' stack'
  ]

  unfoldable pub precedes_edges : List (K × K) → K → K → Bool
  unfolding offer_scan dfs
  precedes_edges edges a b = dfs (length edges + 2) edges b [] (a ∷ [])
