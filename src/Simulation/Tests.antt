-- ===== src/Simulation/Tests.antt =====
-- Sessions against the four frozen verifiers, a broadcast to one station, and the theorems at them.
use horizon_protocol.Prelude.{
  ℕ, ◌≡◌, ◌↔◌, refl, String, text_key, true, List, [], ◌∷◌, ℤ, pos, ◌+ℤ◌, ◌-ℤ◌, ◌*ℤ◌, max_ℤ, square,
  magnitude, get, put, isqrt, arith, ok, raise, value_error, key_error, Dict, All, sorted_set,
  eq_iff,
}
use horizon_protocol.LightTime.{light_search}
use horizon_protocol.Geometry.{Position, dist2, min_light_time_ns}
use horizon_protocol.Stations.{Event, Body, Receipt, Registry, receipt_body, sign_receipt}
use horizon_protocol.Certificate.{build_cone_certificate, verify_certificate}
use horizon_protocol.Distance.{
  deadline_ns, names, Multilateration, multilateration, measure_from, rtt_bound_witness, rtt_gate,
  too_fast, min_round_trip_ns,
}
use horizon_protocol.Simulation.{
  at_point, Session, respond, turn, run_turns, closer_checks, run_session, broadcast_to,
  station_names, broadcast,
}
use horizon_protocol.Simulation.Sessions.{Accepted, honest_session-Accepted}
use horizon_protocol.Simulation.Colluders.{Covered, InReach, colluders-Accepted_iff}
use horizon_protocol.Simulation.Broadcast.{Sound, broadcast_passes}

program : Unit {0}
unfolding ◌+ℤ◌ ◌-ℤ◌ ◌*ℤ◌ max_ℤ square magnitude get put isqrt sorted_set light_search dist2
    min_light_time_ns receipt_body sign_receipt deadline_ns names multilateration measure_from
    rtt_bound_witness rtt_gate too_fast min_round_trip_ns respond turn run_turns closer_checks
    run_session broadcast_to station_names broadcast
program = tt

abbrev far : ℤ
far = pos 20000000000000

abbrev verifiers : Dict String Position
verifiers =
    ("V1", at_point (pos 0) (pos 0) (pos 0))
    ∷ ("V2", at_point far (pos 0) (pos 0))
    ∷ ("V3", at_point (pos 0) far (pos 0))
    ∷ ("V4", at_point (pos 0) (pos 0) far)
    ∷ []

abbrev p_claim : Position
p_claim = at_point (pos 6000000000000) (pos 6000000000000) (pos 0)

-- The four roles: the verifiers accept the honest prover and the two colluders.
roles :
    ((s : Session) × (run_session "HONEST" (pos 25) p_claim verifiers ≡ ok s)
      × Accepted (pos 25) p_claim verifiers s)
    × ((s : Session) × (run_session "COLLUDER_PAIR" (pos 25) p_claim verifiers ≡ ok s)
        × Accepted (pos 25) p_claim verifiers s)
    × ((s : Session) × (run_session "DECOY" (pos 25) p_claim verifiers ≡ ok s)
        × (r : Multilateration) × (multilateration s.measurements (pos 25) p_claim verifiers ≡ ok r)
        × (r.failing_verifiers ≡ "V3" ∷ []))
    × (run_session "OTHER" (pos 25) p_claim verifiers ≡ raise value_error)
    × (run_session "COLLUDER_PAIR" (pos 25) p_claim (("V9", p_claim) ∷ []) ≡ raise key_error)
unfolding program
roles =
    ((_, refl, (_, refl, refl)), (_, refl, (_, refl, refl)), (_, refl, _, refl, refl), refl, refl)

honest_session-Accepted_example :
    (s : Session) × (run_session "HONEST" (pos 25) p_claim verifiers ≡ ok s)
    × Accepted (pos 25) p_claim verifiers s
honest_session-Accepted_example = honest_session-Accepted (pos 25) p_claim verifiers

covered : All (Covered (pos 25) p_claim verifiers) (names verifiers)
unfolding program
covered = ((_, _, refl, refl), ((_, _, refl, refl), ((_, _, refl, refl), ((_, _, refl, refl), tt))))

colluders-Accepted_iff_example :
    (s : Session) × (run_session "COLLUDER_PAIR" (pos 25) p_claim verifiers ≡ ok s)
    × (Accepted (pos 25) p_claim verifiers s
        ↔ All (InReach (pos 25) p_claim verifiers) (names verifiers))
colluders-Accepted_iff_example = colluders-Accepted_iff (pos 25) p_claim verifiers covered

-- It stands for HMAC-SHA256.
abbrev hmac : List ℕ → Body → String
hmac key body = body.payload_hash

abbrev registry : Registry
registry =
    ("s", record { station_id = "s"; pos_nm = p_claim; key = 1 ∷ []; proc_delay_ns = pos 3 }) ∷ []

abbrev event : Event
event = record {
  payload_hash = "ab";
  claimed_emit_time_ns = pos 0;
  claimed_emit_pos_nm = at_point (pos 0) (pos 0) (pos 0);
}

registry-Sound : Sound registry
unfolding get
registry-Sound sid st h = ground (arith, eq_iff "s" sid)

broadcast_passes_example :
    (rs : List Receipt) × (broadcast hmac registry event ≡ ok rs)
    × ((verify_certificate hmac (build_cone_certificate event rs) registry).pass ≡ true)
broadcast_passes_example = broadcast_passes hmac registry event registry-Sound (λ e. cc)
