-- ===== src/Measure/Tests.antt =====
-- A measured certificate of one receipt, and the theorems at it.
use horizon_protocol.Prelude.{
  ℕ, ◌≡◌, ◌≢◌, refl, ◌↔◌, String, text_key, List, [], ◌∷◌, none, some, pos, ◌+ℤ◌, Dict, get, ok,
  raise, zero_division_error, isqrt, ◌-ℤ◌, ◌*ℤ◌, square, magnitude, distinct, elem, put,
}
use horizon_protocol.LightTime.{light_search}
use horizon_protocol.Geometry.{Position, min_light_time_ns, dist2, same_position}
use horizon_protocol.Stations.{Body, Registry, verify_receipt, bind_receipt}
use horizon_protocol.Measure.{
  transit_ns, budget_from, Budget, min_transit_time_ns_eff, classify_measured_receipt,
  budget_witness, apparatus_limited, NodeParams, MeasuredCertificate, Measured, pass,
  verify_measured_certificate, guarded, measure_all, conclude, covers, skewed,
}
use horizon_protocol.Measure.Verdict.{Consistent, verify_measured_certificate_iff}

program : Unit {0}
unfolding transit_ns budget_from min_transit_time_ns_eff classify_measured_receipt budget_witness
    min_light_time_ns dist2 light_search isqrt square magnitude ◌+ℤ◌ ◌-ℤ◌ ◌*ℤ◌ same_position
    verify_receipt bind_receipt verify_measured_certificate guarded measure_all conclude covers
    skewed distinct elem get put
program = tt

abbrev hmac : List ℕ → Body → String
hmac key body = body.payload_hash

abbrev site : Position
site = record { x = pos 0; y = pos 0; z = pos 0 }

-- 300 light-nanoseconds away: 500 nanoseconds at the frozen speed bound.
abbrev away : Position
away = record { x = pos 89937737400; y = pos 0; z = pos 0 }

abbrev registry : Registry
registry =
    ("s1", record { station_id = "s1"; pos_nm = away; key = 1 ∷ []; proc_delay_ns = pos 0 }) ∷ []

abbrev node_params : Dict String NodeParams
node_params = ("s1", record { u_ns = pos 10; num = none; den = none }) ∷ []

abbrev cert : MeasuredCertificate
cert = record {
  event = record { payload_hash = "ab"; claimed_emit_time_ns = pos 0; claimed_emit_pos_nm = site };
  receipts =
      record {
        body = record {
          station_id = "s1";
          station_pos_nm = away;
          payload_hash = "ab";
          recv_time_ns = pos 495;
        };
        mac = "ab";
      }
      ∷ [];
  fixture_origin = some "LIVE_CAPTURE";
}

floors : (min_light_time_ns site away ≡ 300) × (min_transit_time_ns_eff site away 3 5 ≡ ok 500)
unfolding program
floors = (refl, refl)

-- A speed of 0 raises, but not where the station is at the emission.
no_speed :
    (min_transit_time_ns_eff site away 0 5 ≡ raise zero_division_error)
    × (min_transit_time_ns_eff site site 0 5 ≡ ok 0)
unfolding program
no_speed = (refl, refl)

between :
    (w : Budget) × (classify_measured_receipt (pos 0) site (pos 400) away (pos 10) 3 5
      ≡ ok (apparatus_limited, w))
unfolding program
between = (_, refl)

verify_measured_certificate_iff_example :
    ((m : Measured) × (verify_measured_certificate hmac registry node_params cert (some ("s1" ∷ []))
        ≡ ok m)
      × (m.verdict ≡ pass))
    ↔ ((cert.receipts ≢ []) × Consistent hmac registry node_params cert (some ("s1" ∷ [])))
verify_measured_certificate_iff_example =
    verify_measured_certificate_iff hmac registry node_params cert (some ("s1" ∷ []))
