-- ===== src/DeepSpace/Packets.antt =====
-- horizon/deepspace_protocol.py: which packets are certified, and what a failure reports.
use horizon_protocol.Prelude.{
  ℕ, ◌≡◌, refl, sym, ◌∙◌, ap, ◌↔◌, String, Bool, true, false, List, some, ℤ, pos, ◌+ℤ◌, ◌-ℤ◌, ◌*ℤ◌,
  ◌≤ℤ◌, ◌<ℤ◌, ltb_ℤ, Result, ok, ok-injective, bound_value, ◌>>=◌, arith, int_laws, if◌then◌else◌,
}
use horizon_protocol.Geometry.{Position, min_light_time_ns}
use horizon_protocol.Stations.{
  Body, Station, Registry, Gate, Binding, refused, bound, bind_receipt, Authentic, bind_receipt_iff,
}
use horizon_protocol.Distance.{
  Latency, apparatus_limited, admitted, arrival_before_emission, too_early,
  response_before_challenge, too_fast_for_claimed_distance, too_slow_for_claimed_distance,
  telemetry_consistent,
}
use horizon_protocol.DeepSpace.{
  Beq, Link, BeqParams, Packet, rejected, conditional_be_q, Telemetry, timed, or_else, quantum_ok,
  aggregate_of, timing_of, beq_of, verify_telemetry_packet,
}
use horizon_protocol.DeepSpace.Target.{Met, beq_verdict_iff}

-- An arrival is admitted exactly when it does not precede the emission and, within the
-- uncertainty of the clock, is no earlier than light, given a resolution that is not negative.
pub telemetry_admitted :
    (t0 : ℤ) (p_src : Position) (t_recv : ℤ) (p_dst : Position) (u resolve : ℤ)
    → pos 0 ≤ℤ resolve
    → (telemetry_consistent t0 p_src t_recv p_dst u resolve ≡ admitted)
      ↔ ((t0 ≤ℤ t_recv) × (t0 +ℤ pos (min_light_time_ns p_src p_dst) ≤ℤ t_recv +ℤ u))
unfolding telemetry_consistent
telemetry_admitted t0 p_src t_recv p_dst u resolve res =
    let dt = t_recv -ℤ t0 in
    let need = pos (min_light_time_ns p_src p_dst) in
    let below : need ≤ℤ dt +ℤ u → (need -ℤ resolve) ≤ℤ dt +ℤ u = λ h. omega int_laws in
    let tests = admitted_tests dt (dt +ℤ u) need (need -ℤ resolve) below in
    (
      λ h. let (late, far) = tests.0 h in (omega int_laws, omega int_laws),
      λ (late, far). tests.1 (omega int_laws, omega int_laws),
    )
  where
    admitted_tests :
        (dt adjusted need low : ℤ)
        → (need ≤ℤ adjusted → low ≤ℤ adjusted)
        → let outcome =
            if ltb_ℤ dt (pos 0)
            then arrival_before_emission
            else if ltb_ℤ adjusted low
            then too_early
            else if ltb_ℤ adjusted need
            then apparatus_limited
            else admitted in
          (outcome ≡ admitted) ↔ ((pos 0 ≤ℤ dt) × (need ≤ℤ adjusted))
    admitted_tests dt adjusted need low below = (λ h. ground arith, λ h. ground arith)

-- Only all four parts together certify.
certifies_iff :
    (timing : Latency) (score meets : Bool)
    → (aggregate_of timing score meets ≡ conditional_be_q)
      ↔ ((timing ≡ admitted) × (score ≡ true) × (meets ≡ true))
unfolding aggregate_of
certifies_iff admitted true true = (λ _. (refl, refl, refl), λ _. refl)
certifies_iff admitted true false = (λ h. cc, λ (_, _, h). cc)
certifies_iff admitted false meets = (λ h. cc, λ (_, h, _). cc)
certifies_iff apparatus_limited true true = (λ h. cc, λ (h, _, _). cc)
certifies_iff apparatus_limited true false = (λ h. cc, λ (h, _, _). cc)
certifies_iff apparatus_limited false meets = (λ h. cc, λ (h, _, _). cc)
certifies_iff arrival_before_emission score meets = (λ h. cc, λ (h, _, _). cc)
certifies_iff too_early score meets = (λ h. cc, λ (h, _, _). cc)
certifies_iff response_before_challenge score meets = (λ h. cc, λ (h, _, _). cc)
certifies_iff too_fast_for_claimed_distance score meets = (λ h. cc, λ (h, _, _). cc)
certifies_iff too_slow_for_claimed_distance score meets = (λ h. cc, λ (h, _, _). cc)

-- The score passes with a run, more than nine tenths of it right.
score_iff :
    (correct total : ℤ)
    → (quantum_ok correct total ≡ true) ↔ ((pos 0 <ℤ total) × (total *ℤ pos 9 <ℤ correct *ℤ pos 10))
unfolding quantum_ok
score_iff correct total = ground arith

module _ (hmac : List ℕ → Body → String) (registry : Registry) (packet : Packet) (link : Link)
    (params : BeqParams) (correct total : ℤ) where
  abbrev answer : Result Telemetry
  answer = verify_telemetry_packet hmac registry packet link params correct total

  abbrev Source : Station → Type 0
  Source st = Authentic hmac registry packet.event.payload_hash packet.receipt st

  -- A registered station vouches for the arrival, which light and the clocks allow; the bound on
  -- adversaries meets its target, and the channel scores.
  pub record Certifiable : Type 0 where
    pub station : Station
    pub authentic : Source station
    pub after_emission : packet.event.claimed_emit_time_ns ≤ℤ packet.receipt.body.recv_time_ns
    pub after_light :
        packet.event.claimed_emit_time_ns
          +ℤ pos (min_light_time_ns packet.event.claimed_emit_pos_nm station.pos_nm)
        ≤ℤ packet.receipt.body.recv_time_ns +ℤ link.u_ns
    pub bounded :
        Met params.k params.gap_num params.gap_den
          (or_else params.target_num (pos 1))
          (or_else params.target_den (pos 1000000000))
    pub runs : pos 0 <ℤ total
    pub scores : total *ℤ pos 9 <ℤ correct *ℤ pos 10

  -- The answer of a packet whose receipt is authentic, from the bound on adversaries.
  abbrev weighed : Station → Beq → Telemetry
  weighed st beq =
      let timing = timing_of packet st link in
      let score = quantum_ok correct total in
      record {
        aggregate = aggregate_of timing score beq.meets_target;
        timing = timed timing;
        beq = some beq;
        quantum_score = some (correct, total, score);
      }

  module _ (st : Station)
      (e : bind_receipt hmac registry packet.event.payload_hash packet.receipt ≡ bound st)
      (fine : pos 0 ≤ℤ or_else link.resolve_ns (pos 0)) where
    in_time : (timing_of packet st link ≡ admitted) ↔ (
        (packet.event.claimed_emit_time_ns ≤ℤ packet.receipt.body.recv_time_ns)
        × (packet.event.claimed_emit_time_ns
              +ℤ pos (min_light_time_ns packet.event.claimed_emit_pos_nm st.pos_nm)
            ≤ℤ packet.receipt.body.recv_time_ns +ℤ link.u_ns))
    in_time = telemetry_admitted _ _ _ _ _ _ fine

    from_parts :
        {t : Telemetry}
        → (beq_of params >>= λ beq. ok (weighed st beq)) ≡ ok t
        → t.aggregate ≡ conditional_be_q
        → Certifiable
    from_parts ran certified =
        let (beq, found, h) = bound_value (beq_of params) ran in
        let (on_time, score, meets) =
          (certifies_iff _ _ _).0 (ap (λ t. t.aggregate) (sym (ok-injective h)) ∙ certified) in
        let (late, far) = in_time.0 on_time in
        let (runs, scores) = (score_iff correct total).0 score in
        record {
          station = st;
          authentic =
              (bind_receipt_iff hmac registry packet.event.payload_hash packet.receipt st).0 e;
          after_emission = late;
          after_light = far;
          bounded = (beq_verdict_iff _ _ _ _ _).0 (beq, sym found, meets);
          runs = runs;
          scores = scores;
        }

    to_parts :
        Certifiable
        → (t : Telemetry) × ((beq_of params >>= λ beq. ok (weighed st beq)) ≡ ok t)
          × (t.aggregate ≡ conditional_be_q)
    to_parts c =
        let same : c.station ≡ st = bound-injective (
          sym (
            (bind_receipt_iff hmac registry packet.event.payload_hash packet.receipt c.station).1
              c.authentic)
          ∙ e) in
        let on_time = in_time.1 (c.after_emission, rw same at c.after_light) in
        let score = (score_iff correct total).1 (c.runs, c.scores) in
        let (beq, found, meets) = (beq_verdict_iff _ _ _ _ _).1 c.bounded in
        (weighed st beq, rw found refl, (certifies_iff _ _ _).1 (on_time, score, meets))
      where
        bound-injective : {s t : Station} → bound s ≡ bound t → s ≡ t
        bound-injective h = cc

  -- A packet is certified, without an error, exactly when a registered station's receipt vouches
  -- for it, it arrives neither before its emission nor, within the uncertainty of the clock, before
  -- light, the gap is between 0 and 1 and its power is at most the target, a float can hold both,
  -- and more than nine tenths of a channel run that is not empty are right. The resolution of the
  -- link is not negative.
  pub verify_telemetry_packet_iff :
      pos 0 ≤ℤ or_else link.resolve_ns (pos 0)
      → ((t : Telemetry) × (answer ≡ ok t) × (t.aggregate ≡ conditional_be_q)) ↔ Certifiable
  unfolding verify_telemetry_packet
  verify_telemetry_packet_iff fine =
      decide (bind_receipt hmac registry packet.event.payload_hash packet.receipt) refl
    where
      decide :
          (b : Binding)
          → bind_receipt hmac registry packet.event.payload_hash packet.receipt ≡ b
          → ((t : Telemetry) × (answer ≡ ok t) × (t.aggregate ≡ conditional_be_q)) ↔ Certifiable
      decide (refused gate) e =
          rw (e, verify_telemetry_packet)
            (
              λ (t, ran, certified).
                  absurd (not_certified (ap (λ t. t.aggregate) (ok-injective ran) ∙ certified)),
              λ c. absurd (
                  not_bound (
                    sym e
                    ∙ (bind_receipt_iff hmac registry packet.event.payload_hash packet.receipt
                          c.station).1
                        c.authentic)),
            )
        where
          not_certified : rejected ≡ conditional_be_q → ⊥
          not_certified h = cc

          not_bound : {gate : Gate} {st : Station} → refused gate ≡ bound st → ⊥
          not_bound h = cc
      decide (bound st) e =
          rw (e, verify_telemetry_packet)
            (λ (t, ran, certified). from_parts st e fine ran certified, λ c. to_parts st e fine c)
