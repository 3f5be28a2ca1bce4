-- ===== src/DeepSpace/Tests.antt =====
-- A packet from 300 light-nanoseconds away, and the theorems at it.
use horizon_protocol.Prelude.{
  ◌<◌, ◌*◌, ◌^◌, ◌-◌, ltb→lt, overflow_error, ℕ, ◌≡◌, ◌↔◌, refl, String, text_key, true, List, [],
  ◌∷◌, none, pos, ◌+ℤ◌, ◌-ℤ◌, ◌*ℤ◌, square, magnitude, get, isqrt, arith, ok, raise, value_error,
  zero_division_error,
}
use horizon_protocol.LightTime.{light_search}
use horizon_protocol.Geometry.{Position, dist2, min_light_time_ns, same_position}
use horizon_protocol.Stations.{
  Body, Registry, Station, receipt_body, sign_receipt, verify_receipt, bind_receipt,
}
use horizon_protocol.Distance.{telemetry_consistent}
use horizon_protocol.DeepSpace.{
  fraction, power, float_limit, to_float, adversary_success_bound, Beq, beq_verdict, Link,
  BeqParams, Packet, conditional_be_q, insufficient_rounds, Telemetry, quantum_ok, aggregate_of,
  verify_telemetry_packet,
}
use horizon_protocol.DeepSpace.Rounds.{beq_verdict_enough}
use horizon_protocol.DeepSpace.Packets.{Certifiable, verify_telemetry_packet_iff}

program : Unit {0}
unfolding ◌+ℤ◌ ◌-ℤ◌ ◌*ℤ◌ square magnitude get isqrt light_search dist2 min_light_time_ns
    same_position receipt_body sign_receipt verify_receipt bind_receipt telemetry_consistent
    fraction power adversary_success_bound float_limit to_float beq_verdict quantum_ok aggregate_of
    verify_telemetry_packet
program = tt

-- It stands for HMAC-SHA256.
abbrev hmac : List ℕ → Body → String
hmac key body = body.payload_hash

abbrev place : ℕ → Position
place n = record { x = pos n; y = pos 0; z = pos 0 }

abbrev station : Station
station = record { station_id = "s"; pos_nm = place 0; key = 1 ∷ []; proc_delay_ns = pos 0 }

abbrev registry : Registry
registry = ("s", station) ∷ []

abbrev packet : Packet
packet = record {
  event = record {
    payload_hash = "ab";
    claimed_emit_time_ns = pos 0;
    claimed_emit_pos_nm = place 89937737400;
  };
  receipt = sign_receipt hmac station "ab" (pos 300);
}

abbrev link : Link
link = record { u_ns = pos 0; resolve_ns = none }

-- A gap of one half to the power of `k`.
abbrev halves : ℕ → BeqParams
halves k = record {
  k = pos k;
  gap_num = pos 1;
  gap_den = pos 2;
  target_num = none;
  target_den = none;
}

answers :
    ((t : Telemetry) × (verify_telemetry_packet hmac registry packet link
          (halves 30)
          (pos 10)
          (pos 11)
        ≡ ok t)
      × (t.aggregate ≡ conditional_be_q))
    × ((t : Telemetry) × (verify_telemetry_packet hmac registry packet link
            (halves 29)
            (pos 10)
            (pos 11)
          ≡ ok t)
        × (t.aggregate ≡ insufficient_rounds))
unfolding program
answers = ((_, refl, refl), (_, refl, refl))

errors :
    (beq_verdict (pos 9) (pos 2) (pos 2) (pos 1) (pos 5) ≡ raise value_error)
    × (beq_verdict (pos 9) (pos 1) (pos 0) (pos 1) (pos 5) ≡ raise zero_division_error)
    × (beq_verdict (pos 9) (pos 1) (pos 2) (pos (10 ^ 400)) (pos 1) ≡ raise overflow_error)
unfolding program
errors = (refl, refl, refl)

target_fits : 1 < float_limit * 1000
unfolding float_limit
target_fits = ltb→lt 1 ((2 ^ 1024 - 2 ^ 970) * 1000) refl

beq_verdict_enough_example :
    (b : Beq) × (beq_verdict (pos 2000) (pos 2) (pos 3) (pos 1) (pos 1000) ≡ ok b)
    × (b.meets_target ≡ true)
beq_verdict_enough_example =
    beq_verdict_enough 2000 2 3 1 1000 (omega arith) (omega arith) (omega arith) (omega arith)
      target_fits (omega arith)

verify_telemetry_packet_iff_example :
    ((t : Telemetry) × (verify_telemetry_packet hmac registry packet link
          (halves 30)
          (pos 10)
          (pos 11)
        ≡ ok t)
      × (t.aggregate ≡ conditional_be_q))
    ↔ Certifiable hmac registry packet link (halves 30) (pos 10) (pos 11)
verify_telemetry_packet_iff_example =
    verify_telemetry_packet_iff hmac registry packet link (halves 30) (pos 10) (pos 11)
      (omega arith)
