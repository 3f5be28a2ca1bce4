-- ===== src/Certificate/Tests.antt =====
-- A certificate of two receipts, honest and forged, and the theorems at it.
use horizon_protocol.Prelude.{
  ℕ, ◌≡◌, ◌≢◌, refl, ◌↔◌, String, text_key, true, false, List, [], ◌∷◌, some, ℤ, pos, ◌+ℤ◌, ◌-ℤ◌,
  ◌*ℤ◌, ◌≤ℤ◌, min_ℤ, square, magnitude, All, get, isqrt, arith,
}
use horizon_protocol.LightTime.{light_search}
use horizon_protocol.Geometry.{
  causally_admissible, admissibility_witness, dist2, min_light_time_ns, same_position,
}
use horizon_protocol.Stations.{
  Event, Body, Registry, Station, receipt_body, sign_receipt, verify_receipt, bind_receipt,
}
use horizon_protocol.Certificate.{
  Certificate, build_cone_certificate, verify_certificate, upper_bound,
}
use horizon_protocol.Certificate.Genuine.{Genuine, verify_certificate_iff}
use horizon_protocol.Certificate.Bound.{emit_time_bounded, Reception}

program : Unit {0}
unfolding get causally_admissible admissibility_witness dist2 square magnitude ◌-ℤ◌ ◌*ℤ◌ ◌+ℤ◌ min_ℤ
    min_light_time_ns light_search isqrt same_position receipt_body sign_receipt verify_receipt
    bind_receipt verify_certificate upper_bound build_cone_certificate
program = tt

-- It stands for HMAC-SHA256.
abbrev hmac : List ℕ → Body → String
hmac key body = body.payload_hash

abbrev station : String → ℕ → Station
station sid x = record {
  station_id = sid;
  pos_nm = record { x = pos x; y = pos 0; z = pos 0 };
  key = 1 ∷ [];
  proc_delay_ns = pos 0;
}

abbrev registry : Registry
registry = ("s1", station "s1" 299792458) ∷ ("s2", station "s2" 599584916) ∷ []

abbrev emission : Event
emission = record {
  payload_hash = "ab12";
  claimed_emit_time_ns = pos 100;
  claimed_emit_pos_nm = record { x = pos 0; y = pos 0; z = pos 0 };
}

abbrev received : ℤ → ℤ → Certificate
received t1 t2 = record {
  event = emission;
  receipts =
      record {
        body = record {
          station_id = "s1";
          station_pos_nm = record { x = pos 299792458; y = pos 0; z = pos 0 };
          payload_hash = "ab12";
          recv_time_ns = t1;
        };
        mac = "ab12";
      }
      ∷ record {
        body = record {
          station_id = "s2";
          station_pos_nm = record { x = pos 599584916; y = pos 0; z = pos 0 };
          payload_hash = "ab12";
          recv_time_ns = t2;
        };
        mac = "ab12";
      }
      ∷ [];
}

passes : (verify_certificate hmac (received (pos 101) (pos 103)) registry).pass ≡ true
unfolding program
passes = refl

-- The second receipt comes a nanosecond before the light.
too_early : (verify_certificate hmac (received (pos 101) (pos 101)) registry).pass ≡ false
unfolding program
too_early = refl

verify_certificate_iff_example :
    let cert = received (pos 101) (pos 103) in
    ((verify_certificate hmac cert registry).pass ≡ true)
    ↔ ((cert.receipts ≢ []) × All (Genuine hmac registry cert.event) cert.receipts)
verify_certificate_iff_example = verify_certificate_iff hmac (received (pos 101) (pos 103)) registry

emit_time_bounded_example :
    let cert = received (pos 101) (pos 103) in
    (t : ℤ) × ((verify_certificate hmac cert registry).emit_time_upper_bound_ns ≡ some t)
    × All (λ r. t ≤ℤ r.body.recv_time_ns) cert.receipts
    × (cert.event.claimed_emit_time_ns ≤ℤ t)
emit_time_bounded_example = emit_time_bounded hmac (received (pos 101) (pos 103)) registry passes

light_to_s1 :
    pos 100 +ℤ pos (min_light_time_ns emission.claimed_emit_pos_nm (station "s1" 299792458).pos_nm)
    ≤ℤ pos 105
unfolding program
light_to_s1 = omega arith

s1_known : get registry "s1" ≡ some (station "s1" 299792458)
unfolding program
s1_known = refl

abbrev reception : Reception registry emission
reception = record {
  station = station "s1" 299792458;
  recv_time_ns = pos 105;
  registered = s1_known;
  after_light = light_to_s1;
}
