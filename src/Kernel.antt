-- ===== src/Kernel.antt =====
-- horizon/providers/causal_kernel_provider.py: the adapter that reports the relation of two clocks
-- in the eight-value vocabulary of the causal kernel.
pub mod Geometric
pub mod Limits
pub mod Logical
mod Tests
use horizon_protocol.Prelude.{
  ℕ, ◌+◌, String, text_key, same_key, Bool, true, false, not, ◌&&◌, ◌||◌, List, [], ◌∷◌, Option,
  none, some, ℤ, pos, ◌+ℤ◌, ◌-ℤ◌, ltb, ltb_ℤ, leb_ℤ, eqb_ℤ, magnitude, if◌then◌else◌,
}
use horizon_protocol.Geometry.{min_light_time_ns, same_position}
use horizon_protocol.VectorClock.{Clock, leq}
use horizon_protocol.Causal.{GeoClock}

pub data Relation : Type 0 where
  invalid incomparable equivalent before after : Relation
  logically_concurrent spacelike apparatus_limited : Relation

pub data ClockMode : Type 0 where
  logical_clock geometric_clock : ClockMode

abbrev schema_version : String
schema_version = "2.0.0"

pub record Capabilities : Type 0 where
  pub schema_version : String
  pub supported_clock_families : List ClockMode

abbrev capabilities : Capabilities
capabilities = record {
  schema_version = schema_version;
  supported_clock_families = logical_clock ∷ geometric_clock ∷ [];
}

-- What a geometric decision reports beside the relation.
pub record Interval : Type 0 where
  pub required_light_time_ns : ℕ
  pub measured_dt_ns : ℤ
  pub uncertainty_low_ns : ℤ
  pub uncertainty_high_ns : ℤ

pub record Decision : Type 0 where
  pub schema_version : String
  pub relation : Relation
  pub clock_mode : ClockMode
  pub reason_code : String
  pub interval : Option Interval

abbrev pub decision : Relation → ClockMode → String → Option Interval → Decision
decision relation clock_mode reason_code interval = record {
  schema_version = schema_version;
  relation = relation;
  clock_mode = clock_mode;
  reason_code = reason_code;
  interval = interval;
}

-- `any(v < 0 for v in vector.values())`
unfoldable pub any_negative : Clock → Bool
any_negative [] = false
any_negative ((k, v) ∷ vector) = ltb_ℤ v (pos 0) || any_negative vector

unfoldable pub classify_logical : Clock → Clock → Decision
classify_logical a b =
    let leq_ab = leq a b in
    let leq_ba = leq b a in
    if any_negative a || any_negative b
    then decision invalid logical_clock "MALFORMED_INPUT" none
    else if leq_ab && leq_ba
    then decision equivalent logical_clock "LOGICAL_ZERO_PADDED_EQUIVALENT" none
    else if leq_ab
    then decision before logical_clock "LOGICAL_STRICT_ORDER" none
    else if leq_ba
    then decision after logical_clock "LOGICAL_STRICT_ORDER" none
    else decision logically_concurrent logical_clock "LOGICAL_DISJOINT_CONCURRENT" none

-- The interval comparisons, once the light time, the elapsed time and the uncertainty are known.
unfoldable pub compare_interval : (required : ℕ) → (dt combined_u : ℤ) → Decision
compare_interval required dt combined_u =
    let low = dt -ℤ combined_u in
    let extra = some (record {
      required_light_time_ns = required;
      measured_dt_ns = dt;
      uncertainty_low_ns = low;
      uncertainty_high_ns = dt +ℤ combined_u;
    }) in
    if ltb_ℤ (pos (magnitude dt) +ℤ combined_u) (pos required)
    then decision spacelike geometric_clock "GEOMETRIC_INTERVAL_SPACELIKE" extra
    else if leb_ℤ (pos required) low
    then decision before geometric_clock "GEOMETRIC_INTERVAL_CERTAIN_BEFORE" extra
    else if leb_ℤ (pos required) (pos 0 -ℤ dt -ℤ combined_u)
    then decision after geometric_clock "GEOMETRIC_INTERVAL_CERTAIN_AFTER" extra
    else decision apparatus_limited geometric_clock "GEOMETRIC_INTERVAL_STRADDLES_FLOOR" extra

-- The time, the position and the uncertainty of a clock are one argument, a `GeoClock`.
unfoldable pub classify_geometric : GeoClock → GeoClock → (frame_a frame_b : String) → Decision
unfolding compare_interval
classify_geometric a b frame_a frame_b =
    if ltb_ℤ a.u_ns (pos 0) || ltb_ℤ b.u_ns (pos 0)
    then decision invalid geometric_clock "GEOMETRIC_NEGATIVE_UNCERTAINTY" none
    else if not (same_key frame_a frame_b)
    then decision incomparable geometric_clock "GEOMETRIC_FRAME_MISMATCH" none
    else if eqb_ℤ a.time_ns b.time_ns && same_position a.pos_nm b.pos_nm
    then decision equivalent geometric_clock "GEOMETRIC_SAME_EVENT" none
    else compare_interval (min_light_time_ns a.pos_nm b.pos_nm) (b.time_ns -ℤ a.time_ns)
        (a.u_ns +ℤ b.u_ns)
