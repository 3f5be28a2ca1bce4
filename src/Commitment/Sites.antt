-- ===== src/Commitment/Sites.antt =====
-- horizon/commitment.py: the gates on the two sites and the schedule.
use horizon_protocol.Prelude.{
  ltb_ℤ, ltb→lt, le_of_ltb, refl, ◌≡◌, ◌↔◌, Bool-cases, inl, inr, not, ℤ, pos, ◌+ℤ◌, ◌<ℤ◌,
  if◌then◌else◌, arith, int_laws,
}
use horizon_protocol.Geometry.{
  Position, causally_admissible, admissibility_witness, min_light_time_ns,
}
use horizon_protocol.Geometry.Floor.{admissible-iff-min_light_time}
use horizon_protocol.Commitment.{pass, apparatus_limited, isolation_gate, sustained_isolation_gate}

isolated_iff :
    (site_a site_b : Position) (window : ℤ)
    → ((if not (causally_admissible (pos 0) site_a window site_b) then pass else apparatus_limited)
        ≡ pass)
      ↔ (window <ℤ pos (min_light_time_ns site_a site_b))
isolated_iff site_a site_b window =
    let cone = admissible-iff-min_light_time (pos 0) site_a window site_b in
    elim (Bool-cases (causally_admissible (pos 0) site_a window site_b)) [
      | inl reaches ↦ (λ h. absurd (ground arith), λ h. absurd (omega (int_laws, cone.0 reaches)))
      | inr apart ↦ (
        λ h. elim (Bool-cases (ltb_ℤ window (pos (min_light_time_ns site_a site_b)))) [
          | inl short ↦ ltb→lt _ _ short
          | inr long ↦
              let reaches = cone.1 (omega (int_laws, le_of_ltb _ _ long)) in absurd (ground arith)
        ],
        λ h. rw apart refl,
      )
    ]

-- The gate on a response window passes exactly when light takes longer between the sites than the
-- window lasts, and the gate on the schedule exactly when it takes longer than a round and a
-- window together.
pub isolation_gates_iff :
    (site_a site_b : Position) (dt_round_ns dt_resp_ns : ℤ)
    → (((isolation_gate site_a site_b dt_resp_ns).verdict ≡ pass)
        ↔ (dt_resp_ns <ℤ pos (min_light_time_ns site_a site_b)))
      × (((sustained_isolation_gate site_a site_b dt_round_ns dt_resp_ns).verdict ≡ pass)
          ↔ (dt_round_ns +ℤ dt_resp_ns <ℤ pos (min_light_time_ns site_a site_b)))
unfolding isolation_gate sustained_isolation_gate admissibility_witness
isolation_gates_iff site_a site_b dt_round_ns dt_resp_ns =
    (isolated_iff site_a site_b dt_resp_ns, isolated_iff site_a site_b (dt_round_ns +ℤ dt_resp_ns))
