-- ===== src/Certificate.antt =====
-- horizon/certificate.py: the standalone verifier of cone certificates.
pub mod Genuine
pub mod Bound
mod Tests
use horizon_protocol.Prelude.{
  ℕ, String, Bool, true, false, List, [], ◌∷◌, ◌++◌, Option, none, some, ℤ, min_ℤ, if◌then◌else◌,
}
use horizon_protocol.Geometry.{Witness, admissibility_witness}
use horizon_protocol.Stations.{
  Event, Body, Receipt, Registry, Station, Gate, nonempty_receipts, light_cone, refused, bound,
  bind_receipt,
}

pub record Certificate : Type 0 where
  pub event : Event
  pub receipts : List Receipt

unfoldable pub build_cone_certificate : Event → List Receipt → Certificate
build_cone_certificate event receipts = record { event = event; receipts = receipts }

-- An entry of `checks`; its witness is that of the light-cone gate.
pub record Check : Type 0 where
  pub station_id : String
  pub gate : Gate
  pub passed : Bool
  pub witness : Option Witness

-- The dictionary that `verify_certificate` returns. `refusal` is its "witness": the gate with the
-- station, if it is about one.
pub record Verdict : Type 0 where
  pub pass : Bool
  pub refusal : Option (Gate × Option String)
  pub checks : List Check
  pub emit_time_upper_bound_ns : Option ℤ

-- `min(...)` over the receipts' times
unfoldable pub earliest : ℤ → List Receipt → ℤ
earliest t [] = t
earliest t (r ∷ rs) = earliest (min_ℤ t r.body.recv_time_ns) rs

unfoldable pub upper_bound : List Receipt → Option ℤ
unfolding earliest
upper_bound [] = none
upper_bound (r ∷ rs) = some (earliest r.body.recv_time_ns rs)

module _ (hmac : List ℕ → Body → String) (registry : Registry) (event : Event) where
  -- The gates on one receipt: the check that decides it.
  unfoldable pub check_receipt : Receipt → Check
  check_receipt r = elim (bind_receipt hmac registry event.payload_hash r) [
    | refused gate ↦ record {
      station_id = r.body.station_id;
      gate = gate;
      passed = false;
      witness = none;
    }
    | bound st ↦
        let w =
          admissibility_witness event.claimed_emit_time_ns event.claimed_emit_pos_nm
            r.body.recv_time_ns st.pos_nm in
        record {
          station_id = r.body.station_id;
          gate = light_cone;
          passed = w.admissible;
          witness = some w;
        }
  ]

  -- The loop over the receipts: the checks made, and the one that broke off.
  unfoldable pub check_all : List Receipt → List Check → List Check × Option Check
  check_all [] checks = (checks, none)
  check_all (r ∷ rs) checks =
      let check = check_receipt r in
      let rest = check_all rs (checks ++ check ∷ []) in
      if check.passed then rest else (checks ++ check ∷ [], some check)

unfoldable pub verdict_of : List Receipt → List Check × Option Check → Verdict
unfolding upper_bound
verdict_of receipts (checks, none) = record {
  pass = true;
  refusal = none;
  checks = checks;
  emit_time_upper_bound_ns = upper_bound receipts;
}
verdict_of receipts (checks, some c) = record {
  pass = false;
  refusal = some (c.gate, some c.station_id);
  checks = checks;
  emit_time_upper_bound_ns = none;
}

unfoldable pub verify_certificate : (List ℕ → Body → String) → Certificate → Registry → Verdict
unfolding check_receipt check_all verdict_of
verify_certificate hmac cert registry = elim cert.receipts [
  | [] ↦ record {
    pass = false;
    refusal = some (nonempty_receipts, none);
    checks = [];
    emit_time_upper_bound_ns = none;
  }
  | r ∷ rs ↦ verdict_of (r ∷ rs) (check_all hmac registry cert.event (r ∷ rs) [])
]
