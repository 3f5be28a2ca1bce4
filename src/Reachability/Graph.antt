-- ===== src/Reachability/Graph.antt =====
-- Adjacency indexes, the outcome of an inner loop, and paths over edges.
use horizon_protocol.Prelude.{◌≡◌, true, List, [], ◌∷◌, Key, same_key, elem, if◌then◌else◌}

-- What an inner loop does: it returns True, or goes on with the seen events and the pending ones.
pub data Outcome (K : Type 0) : Type 0 where
  found : Outcome K
  going : List K → List K → Outcome K

-- A `defaultdict(list)`, as an association list in order of insertion.
abbrev pub Adjacency : Type 0 → Type 0
Adjacency K = List (K × List K)

module _ {K : Type 0} ⦃key : Key K⦄ where
  -- `adj.get(x, ())`
  unfoldable pub adj_get : K → Adjacency K → List K
  adj_get x [] = []
  adj_get x ((u, vs) ∷ adj) = if same_key x u then vs else adj_get x adj

  -- The targets of the edges that leave `x`.
  unfoldable pub successors : K → List (K × K) → List K
  successors x [] = []
  successors x ((u, v) ∷ edges) =
      if same_key u x then v ∷ successors x edges else successors x edges

  -- A path of one edge or more.
  pub data PathTo (edges : List (K × K)) (a : K) : K → Type 0 where
    edge : {v : K} → elem v (successors a edges) ≡ true → PathTo edges a v
    further : {u v : K} → PathTo edges a u → elem v (successors u edges) ≡ true → PathTo edges a v
