-- ===== src/Ledger.antt =====
-- horizon/ledger.py: the causal ledger, a set of events and of edges that passed the light-cone
-- gate. A method returns the new ledger with its result, or raises and leaves the ledger alone.
pub mod Invariant
pub mod Built
pub mod Order
pub mod Edges
mod Tests
use horizon_protocol.Prelude.{
  ◌≡◌, String, text_key, pair_key, Bool, true, false, not, ◌&&◌, ◌||◌, List, [], ◌∷◌, ◌++◌, Option,
  none, some, ℤ, ltb_ℤ, same_key, elem, Dict, get, put, Result, ok, raise_if, required, value_error,
  key_error, ◌>>=◌, ◌>>◌, str_of_int, if◌then◌else◌,
}
use horizon_protocol.Geometry.{Position, causally_admissible, Witness, admissibility_witness}
use horizon_protocol.EdgeClaims.{
  EdgeBody, EdgeClaim, edge_claim, physical_admissibility, dependency_kinds,
}
use horizon_protocol.Reachability.{build_adjacency, precedes_edges}
use horizon_protocol.Reachability
use horizon_protocol.Reachability.Graph.{Adjacency}

-- Where and when an event happened.
pub record Stamp : Type 0 where
  pub time_ns : ℤ
  pub pos_nm : Position

-- The dictionary that `add_edge` returns, and the audit log keeps of a refusal.
pub record EdgeRecord : Type 0 where
  pub edge : String × String
  pub admitted : Bool
  pub witness : Witness
  pub strictly_later : Bool

pub record Ledger : Type 0 where
  pub events : Dict String Stamp
  pub edges : List (String × String)
  pub rejections : List EdgeRecord
  pub edge_claims : List EdgeClaim
  pub adjacency_cache : Option (Adjacency String)

abbrev pub new_ledger : Ledger
new_ledger = record {
  events = [];
  edges = [];
  rejections = [];
  edge_claims = [];
  adjacency_cache = none;
}

abbrev pub known : Option Stamp → Bool
known none = false
known (some s) = true

unfoldable pub add_event : Ledger → String → ℤ → Position → Result Ledger
add_event l eid time_ns pos_nm = do
  raise_if (known (get l.events eid)) value_error
  ok (record l { events = put l.events eid (record { time_ns = time_ns; pos_nm = pos_nm }) })

-- `eb` comes strictly later than `ea` and lies in its closed future light cone.
unfoldable pub strictly_after : Stamp → Stamp → Bool
strictly_after ea eb =
    ltb_ℤ ea.time_ns eb.time_ns && causally_admissible ea.time_ns ea.pos_nm eb.time_ns eb.pos_nm

abbrev pub physical_body : String → String → Stamp → EdgeBody
physical_body a b eb = record {
  from_event = a;
  to_event = b;
  kind = physical_admissibility;
  asserted_by = "horizon.geometry.causally_admissible";
  asserted_at = str_of_int eb.time_ns;
}

module _ (digest : EdgeBody → String) where
  -- The branch of `add_edge` that admits: a new edge is added with its claim, and the adjacency
  -- index is dropped.
  unfoldable pub admit_edge : Ledger → String → String → Stamp → Result Ledger
  admit_edge l a b eb = if elem (a, b) l.edges then ok l else do
    claim ← edge_claim digest (physical_body a b eb) []
    ok (record l {
      edges = l.edges ++ (a, b) ∷ [];
      adjacency_cache = none;
      edge_claims = l.edge_claims ++ claim ∷ [];
    })

  abbrev pub edge_record : String → String → Stamp → Stamp → Bool → EdgeRecord
  edge_record a b ea eb admitted = record {
    edge = (a, b);
    admitted = admitted;
    witness = admissibility_witness ea.time_ns ea.pos_nm eb.time_ns eb.pos_nm;
    strictly_later = ltb_ℤ ea.time_ns eb.time_ns;
  }

  unfoldable pub add_edge : Ledger → String → String → Result (Ledger × EdgeRecord)
  add_edge l a b = do
    ea ← required (get l.events a)
    eb ← required (get l.events b)
    let refusal = edge_record a b ea eb false
    if strictly_after ea eb
        then (do l' ← admit_edge l a b eb; ok (l', edge_record a b ea eb true))
        else ok (record l { rejections = l.rejections ++ refusal ∷ [] }, refusal)

  unfoldable pub add_dependency_claim :
      Ledger
      → String
      → String
      → (kind asserted_by asserted_at : String) → List String
      → Result (Ledger × EdgeClaim)
  add_dependency_claim l a b kind asserted_by asserted_at evidence_refs = do
    raise_if (not (known (get l.events a)) || not (known (get l.events b))) key_error
    raise_if (not (elem kind dependency_kinds)) value_error
    claim ←
        edge_claim digest
          (record {
            from_event = a;
            to_event = b;
            kind = kind;
            asserted_by = asserted_by;
            asserted_at = asserted_at;
          })
          evidence_refs
    ok (record l { edge_claims = l.edge_claims ++ claim ∷ [] }, claim)

-- `any(...)` over the claims
unfoldable pub claims_dependency : String → String → List EdgeClaim → Bool
claims_dependency a b [] = false
claims_dependency a b (c ∷ claims) =
    (same_key c.from_event a && same_key c.to_event b && elem c.kind dependency_kinds)
    || claims_dependency a b claims

unfoldable pub has_observed_dependency : Ledger → String → String → Bool
unfolding claims_dependency
has_observed_dependency l a b = claims_dependency a b l.edge_claims

unfoldable pub precedes : Ledger → String → String → Bool
precedes l a b = precedes_edges l.edges a b

abbrev pub indexed : Ledger → Adjacency String
indexed l = elim l.adjacency_cache [ none ↦ build_adjacency l.edges | some adj ↦ adj ]

-- The index is built on first use and kept.
unfoldable pub precedes_fast : Ledger → String → String → Ledger × Bool
precedes_fast l a b =
    (record l { adjacency_cache = some (indexed l) }, Reachability.precedes_fast (indexed l) a b)

unfoldable pub concurrent : Ledger → String → String → Result Bool
concurrent l a b = do
  ea ← required (get l.events a)
  eb ← required (get l.events b)
  let ab = causally_admissible ea.time_ns ea.pos_nm eb.time_ns eb.pos_nm
  let ba = causally_admissible eb.time_ns eb.pos_nm ea.time_ns ea.pos_nm
  ok (not ab && not ba)
