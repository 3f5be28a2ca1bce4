-- ===== src/DeepSpace.antt =====
-- horizon/deepspace_protocol.py and horizon/beq.py: telemetry packets, attested by a station's
-- receipt, the light time, a bound on colluding adversaries and the score of a quantum channel.
pub mod Target
pub mod Rounds
pub mod Packets
mod Tests
use horizon_protocol.Prelude.{
  ℕ, zero, suc, ◌+◌, ◌*◌, ◌^◌, String, Bool, true, false, not, ◌&&◌, List, Option, none, some, ℤ,
  pos, negsuc, ◌-ℤ◌, ◌*ℤ◌, ltb_ℤ, leb_ℤ, magnitude, Result, ok, raise_if, raise, value_error,
  zero_division_error, overflow_error, ltb, ◌-◌, ◌>>=◌, ◌>>◌, if◌then◌else◌,
}
use horizon_protocol.Stations.{
  Event, Body, Receipt, Station, Registry, Gate, refused, bound, bind_receipt,
}
use horizon_protocol.Distance.{
  Latency, arrival_before_emission, too_early, response_before_challenge,
  too_fast_for_claimed_distance, too_slow_for_claimed_distance, apparatus_limited, admitted,
  telemetry_consistent,
}

-- A fraction stands for its value: Python keeps the lowest terms, on which no decision depends.
-- The denominator is positive.
pub record Fraction : Type 0 where
  pub num : ℤ
  pub den : ℕ

unfoldable pub fraction : ℤ → ℤ → Result Fraction
fraction n (pos zero) = raise zero_division_error
fraction n (pos (suc d)) = ok (record { num = n; den = suc d })
fraction n (negsuc d) = ok (record { num = pos 0 -ℤ n; den = suc d })

-- `p < q` and `p <= q`
abbrev pub below : Fraction → Fraction → Bool
below p q = ltb_ℤ (p.num *ℤ pos q.den) (q.num *ℤ pos p.den)

abbrev pub at_most : Fraction → Fraction → Bool
at_most p q = leb_ℤ (p.num *ℤ pos q.den) (q.num *ℤ pos p.den)

-- `p ** k` for a positive fraction `p`.
unfoldable pub power : Fraction → ℤ → Fraction
power p (pos k) = record { num = pos (magnitude p.num ^ k); den = p.den ^ k }
power p (negsuc k) = record { num = pos (p.den ^ suc k); den = magnitude p.num ^ suc k }

abbrev pub whole : ℕ → Fraction
whole n = record { num = pos n; den = 1 }

unfoldable pub adversary_success_bound : (k gap_num gap_den : ℤ) → Result Fraction
unfolding fraction power
adversary_success_bound k gap_num gap_den = do
  p ← fraction gap_num gap_den
  raise_if (not (below (whole 0) p && below p (whole 1))) value_error
  ok (power p k)

-- The least number that `float` does not round to a double: halfway between the greatest double and
-- the next power of two.
unfoldable pub float_limit : ℕ
float_limit = 2 ^ 1024 - 2 ^ 970

abbrev pub fits_float : Fraction → Bool
fits_float q = ltb (magnitude q.num) (float_limit * q.den)

-- `float(q)`, whose value nothing reads.
unfoldable pub to_float : Fraction → Result (Unit {0})
to_float q = raise_if (not (fits_float q)) overflow_error

-- What `beq_verdict` decides; the values of its floats, notes and citations are left out.
pub record Beq : Type 0 where
  pub k_committed : ℤ
  pub adversary_bound : Fraction
  pub meets_target : Bool

unfoldable pub beq_verdict : (k gap_num gap_den target_num target_den : ℤ) → Result Beq
unfolding adversary_success_bound fraction to_float
beq_verdict k gap_num gap_den target_num target_den = do
  limit ← adversary_success_bound k gap_num gap_den
  target ← fraction target_num target_den
  to_float limit
  to_float target
  ok (record { k_committed = k; adversary_bound = limit; meets_target = at_most limit target })

pub record Link : Type 0 where
  pub u_ns : ℤ
  pub resolve_ns : Option ℤ

pub record BeqParams : Type 0 where
  pub k : ℤ
  pub gap_num : ℤ
  pub gap_den : ℤ
  pub target_num : Option ℤ
  pub target_den : Option ℤ

pub record Packet : Type 0 where
  pub event : Event
  pub receipt : Receipt

pub data Aggregate : Type 0 where
  rejected insufficient_rounds limited conditional_be_q : Aggregate

-- The timing part of the answer: a gate that refuses the receipt, or the gate's finding.
pub data Timing : Type 0 where
  ungated : Gate → Timing
  timed : Latency → Timing

pub record Telemetry : Type 0 where
  pub aggregate : Aggregate
  pub timing : Timing
  pub beq : Option Beq
  pub quantum_score : Option (ℤ × ℤ × Bool)

abbrev pub or_else : Option ℤ → ℤ → ℤ
or_else none d = d
or_else (some z) d = z

-- The findings that `latency_gate` reports as REJECTED.
abbrev pub is_rejection : Latency → Bool
is_rejection apparatus_limited = false
is_rejection admitted = false
is_rejection arrival_before_emission = true
is_rejection too_early = true
is_rejection response_before_challenge = true
is_rejection too_fast_for_claimed_distance = true
is_rejection too_slow_for_claimed_distance = true

abbrev pub is_limited : Latency → Bool
is_limited apparatus_limited = true
is_limited admitted = false
is_limited arrival_before_emission = false
is_limited too_early = false
is_limited response_before_challenge = false
is_limited too_fast_for_claimed_distance = false
is_limited too_slow_for_claimed_distance = false

-- More than nine in ten are right.
unfoldable pub quantum_ok : (correct total : ℤ) → Bool
quantum_ok correct total = ltb_ℤ (pos 0) total && ltb_ℤ (total *ℤ pos 9) (correct *ℤ pos 10)

unfoldable pub aggregate_of : Latency → (score meets : Bool) → Aggregate
aggregate_of timing score meets =
    if is_rejection timing
    then rejected
    else if not score
    then rejected
    else if not meets
    then insufficient_rounds
    else if is_limited timing
    then limited
    else conditional_be_q

abbrev pub timing_of : Packet → Station → Link → Latency
timing_of packet station link =
    telemetry_consistent packet.event.claimed_emit_time_ns packet.event.claimed_emit_pos_nm
      packet.receipt.body.recv_time_ns station.pos_nm link.u_ns (or_else link.resolve_ns (pos 0))

abbrev pub beq_of : BeqParams → Result Beq
beq_of params =
    beq_verdict params.k params.gap_num params.gap_den (or_else params.target_num (pos 1))
      (or_else params.target_den (pos 1000000000))

module _ (hmac : List ℕ → Body → String) (registry : Registry) where
  unfoldable pub verify_telemetry_packet :
      Packet → Link → BeqParams → (correct total : ℤ) → Result Telemetry
  unfolding aggregate_of quantum_ok
  verify_telemetry_packet packet link params correct total =
      elim (bind_receipt hmac registry packet.event.payload_hash packet.receipt) [
        | refused gate ↦ ok (record {
          aggregate = rejected;
          timing = ungated gate;
          beq = none;
          quantum_score = none;
        })
        | bound station ↦ do
          beq ← beq_of params
          let timing = timing_of packet station link
          let score = quantum_ok correct total
          ok (record {
            aggregate = aggregate_of timing score beq.meets_target;
            timing = timed timing;
            beq = some beq;
            quantum_score = some (correct, total, score);
          })
      ]
