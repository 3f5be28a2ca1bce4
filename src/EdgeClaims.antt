-- ===== src/EdgeClaims.antt =====
-- horizon/edge_claims.py: typed claims about the relation between two events. SHA-256 over the
-- canonical JSON of a claim is a parameter, `digest`.
use horizon_protocol.Prelude.{
  String, text_key, not, List, [], ◌∷◌, ◌++◌, Option, none, elem, Result, ok, raise_if, value_error,
  ◌>>◌, nonempty,
}

abbrev pub declared_dependency : String
declared_dependency = "declared_dependency"

abbrev pub observed_dependency : String
observed_dependency = "observed_dependency"

abbrev pub attested_dependency : String
attested_dependency = "attested_dependency"

abbrev pub physical_admissibility : String
physical_admissibility = "physical_admissibility"

abbrev pub dependency_kinds : List String
dependency_kinds = declared_dependency ∷ observed_dependency ∷ attested_dependency ∷ []

abbrev pub all_kinds : List String
all_kinds =
    dependency_kinds
    ++ (physical_admissibility ∷ "derived_from" ∷ "supersedes" ∷ "resolves" ∷ "invalidates" ∷ [])

-- What the edge id is a hash of.
pub record EdgeBody : Type 0 where
  pub from_event : String
  pub to_event : String
  pub kind : String
  pub asserted_by : String
  pub asserted_at : String

pub record EdgeClaim : Type 0 where
  pub body : EdgeBody
  pub open body use *
  pub evidence_refs : List String
  pub relation_decision_ref : Option String
  pub edge_id : String

-- `EdgeClaim(...)` with `__post_init__`
unfoldable pub edge_claim :
    (digest : EdgeBody → String) (body : EdgeBody) (evidence_refs : List String) → Result EdgeClaim
edge_claim digest body evidence_refs = do
  raise_if (not (elem body.kind all_kinds)) value_error
  raise_if (not (nonempty body.asserted_by)) value_error
  raise_if (not (nonempty body.asserted_at)) value_error
  ok (record {
    body = body;
    evidence_refs = evidence_refs;
    relation_decision_ref = none;
    edge_id = digest body;
  })
