-- ===== src/Capture/Gates.antt =====
-- horizon/capture_verify.py: the gates on one receipt.
use horizon_protocol.Prelude.{
  ℕ, ◌≡◌, refl, ◌⊎◌, inl, inr, String, text_key, List, some, get, eq_iff, Bool-cases, Option-cases,
  same_key, Result, ok, ◌>>=◌,
}
use horizon_protocol.Geometry.{same_position}
use horizon_protocol.Geometry.Cone.{same_position_iff}
use horizon_protocol.Measure.{Classified}
use horizon_protocol.Capture.{
  Resolution, Body, Receipt, Claim, Node, Registry, node_key, verify_receipt, classify, Gate,
  signature, unknown_node, event_binding, surveyed_position, refused, judged, judge,
}

module _ (event_hash : Claim → String) (digest : String → List ℕ) (hmac : List ℕ → Body → String)
    (registry : Registry) (claim : Claim) where
  -- A registered node signed the receipt, for this claim, at its surveyed position.
  pub record Authentic (r : Receipt) (node : Node) : Type 0 where
    pub signed : hmac (node_key digest hmac r.body.node_id) r.body ≡ r.mac
    pub registered : get registry r.body.node_id ≡ some node
    pub bound : r.body.event_hash ≡ event_hash claim
    pub surveyed : r.body.node_pos_nm ≡ node.pos_nm

  module _ (num den : ℕ) where
    abbrev pub found : Receipt → Node → Result (Classified × Resolution)
    found r node =
        classify claim.t0_ns claim.p0_nm r.body.recv_time_ns node.pos_nm node.u_ns num den

    pub judge-Authentic :
        (r : Receipt) (node : Node)
        → Authentic r node
        → judge event_hash digest hmac registry claim num den r
          ≡ (found r node >>= λ x. ok (judged node.tier x.0 x.1))
    unfolding judge verify_receipt
    judge-Authentic r node a =
        let signed =
          (eq_iff (hmac (node_key digest hmac r.body.node_id) r.body) r.mac).1 a.signed in
        let bound = (eq_iff r.body.event_hash (event_hash claim)).1 a.bound in
        let surveyed = (same_position_iff r.body.node_pos_nm node.pos_nm).1 a.surveyed in
        rw (a.registered, judge, signed, bound, surveyed) refl

    pub judge_cases :
        (r : Receipt)
        → ((gate : Gate) × (judge event_hash digest hmac registry claim num den r
              ≡ ok (refused gate)))
          ⊎ ((node : Node) × Authentic r node)
    unfolding judge verify_receipt
    judge_cases r = elim (Bool-cases (verify_receipt digest hmac r)) [
      | inr forged ↦ inl (signature, rw (forged, judge) refl)
      | inl signed ↦ elim (Option-cases (get registry r.body.node_id)) [
        | inl absent ↦ inl (unknown_node, rw (signed, absent, judge) refl)
        | inr (node, known) ↦ elim (Bool-cases (same_key r.body.event_hash (event_hash claim))) [
          | inr other ↦ inl (event_binding, rw (signed, known, other, judge) refl)
          | inl bound ↦ elim (Bool-cases (same_position r.body.node_pos_nm node.pos_nm)) [
            | inr moved ↦ inl (surveyed_position, rw (signed, known, bound, moved, judge) refl)
            | inl surveyed ↦ inr (
              node,
              record {
                signed = (eq_iff _ _).0 signed;
                registered = known;
                bound = (eq_iff _ _).0 bound;
                surveyed = (same_position_iff _ _).0 surveyed;
              },
            )
          ]
        ]
      ]
    ]
