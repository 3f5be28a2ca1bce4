-- ===== src/Distance/Tests.antt =====
-- A prover 300 light-nanoseconds from its verifier.
use horizon_protocol.Prelude.{
  ℕ, String, text_key, [], ◌∷◌, All, Dict, get, true, ok, sorted_set, ◌≡◌, refl, ◌↔◌, pos, ◌+ℤ◌,
  ◌-ℤ◌, ◌*ℤ◌, square, magnitude, isqrt,
}
use horizon_protocol.LightTime.{light_search}
use horizon_protocol.Geometry.{Position, dist2, min_light_time_ns}
use horizon_protocol.Distance.{
  min_round_trip_ns, rtt_gate, too_fast, ftl_floor, deadline, rtt_bound, trajectory_attested,
  rtt_bound_witness, Multilateration, names, measure_from, multilateration,
}
use horizon_protocol.Distance.Verifiers.{Admits, multilateration_iff}

program : Unit {0}
unfolding multilateration measure_from names rtt_bound_witness sorted_set get min_round_trip_ns
    rtt_gate too_fast trajectory_attested dist2 square magnitude ◌+ℤ◌ ◌-ℤ◌ ◌*ℤ◌ min_light_time_ns
    light_search isqrt
program = tt

abbrev verifier : Position
verifier = record { x = pos 0; y = pos 0; z = pos 0 }

abbrev claimed : Position
claimed = record { x = pos 89937737400; y = pos 0; z = pos 0 }

gates :
    (rtt_gate (pos 624) (pos 25) verifier claimed ≡ ftl_floor)
    × (rtt_gate (pos 625) (pos 25) verifier claimed ≡ rtt_bound)
    × (rtt_gate (pos 626) (pos 25) verifier claimed ≡ deadline)
unfolding program
gates = (refl, refl, refl)

abbrev at_x : ℕ → Position
at_x n = record { x = pos n; y = pos 0; z = pos 0 }

-- Two verifiers on either side.
abbrev verifiers : Dict String Position
verifiers = ("west", at_x 0) ∷ ("east", at_x 599584916) ∷ []

located :
    (r : Multilateration) × (multilateration
        (("east", pos 102) ∷ ("west", pos 102) ∷ [])
        (pos 100)
        (at_x 299792458)
        verifiers
      ≡ ok r)
    × (r.admitted ≡ true)
unfolding program
located = (_, refl, refl)

multilateration_iff_example :
    ((r : Multilateration) × (multilateration
          (("east", pos 102) ∷ ("west", pos 102) ∷ [])
          (pos 100)
          (at_x 299792458)
          verifiers
        ≡ ok r)
      × (r.admitted ≡ true))
    ↔ All
        (Admits (("east", pos 102) ∷ ("west", pos 102) ∷ []) (pos 100) (at_x 299792458) verifiers)
        (names verifiers)
multilateration_iff_example =
    multilateration_iff (("east", pos 102) ∷ ("west", pos 102) ∷ []) (pos 100) (at_x 299792458)
      verifiers
