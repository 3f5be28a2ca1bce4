-- ===== src/Causal/Tests.antt =====
-- Three writes with uncertain clocks, and the theorems at them.
use horizon_protocol.Prelude.{
  ◌≡◌, refl, true, false, ◌↔◌, ◌⊎◌, [], ◌∷◌, get, text_key, ℕ, pos, ◌+ℤ◌, ◌-ℤ◌, ◌*ℤ◌, square,
  magnitude, arith, isqrt,
}
use horizon_protocol.LightTime.{light_search}
use horizon_protocol.Geometry.{causally_admissible, dist2, min_light_time_ns}
use horizon_protocol.VectorClock.{leq, leq_on, counter, keys}
use horizon_protocol.Causal.{
  GeoClock, HybridClock, geo_resolves, geo_before, log_before, hybrid_before,
}
use horizon_protocol.Causal.Hybrid.{Boundary, hybrid_before_both_iff}
use horizon_protocol.Causal.Laws.{Allows}

program : Unit {0}
unfolding hybrid_before log_before leq leq_on counter keys get geo_resolves geo_before
    causally_admissible dist2 square magnitude ◌+ℤ◌ ◌-ℤ◌ ◌*ℤ◌ min_light_time_ns light_search isqrt
program = tt

-- At one light-nanosecond times `x` from the origin, known within 2 nanoseconds.
abbrev clock : ℕ → ℕ → GeoClock
clock t x = record {
  time_ns = pos t;
  pos_nm = record { x = pos x; y = pos 0; z = pos 0 };
  u_ns = pos 2;
}

decided : geo_resolves (clock 0 0) (clock 10 299792458) ≡ true
unfolding program
decided = refl

first-second : geo_before (clock 0 0) (clock 10 299792458) ≡ true
unfolding program
first-second = refl

second-third : geo_before (clock 10 299792458) (clock 20 0) ≡ true
unfolding program
second-third = refl

-- Too close to tell.
undecided : geo_resolves (clock 0 0) (clock 4 299792458) ≡ false
unfolding program
undecided = refl

allowed_first : Allows (clock 0 0) (pos 2)
unfolding program
allowed_first = (omega arith, omega arith)

allowed_second : Allows (clock 10 299792458) (pos 8)
unfolding program
allowed_second = (omega arith, omega arith)

-- Clocks at one place whose vector clocks count one event more the earlier the time is.
abbrev hybrid_clock : ℕ → ℕ → HybridClock
hybrid_clock t count = record { geo = clock t 0; vc = ("n", pos count) ∷ [] }

both_ways :
    (hybrid_before (hybrid_clock 0 2) (hybrid_clock 4 1) ≡ true)
    × (hybrid_before (hybrid_clock 4 1) (hybrid_clock 0 2) ≡ true)
unfolding program
both_ways = (refl, refl)

hybrid_before_both_iff_example :
    ((hybrid_before (hybrid_clock 0 2) (hybrid_clock 4 1) ≡ true)
      × (hybrid_before (hybrid_clock 4 1) (hybrid_clock 0 2) ≡ true))
    ↔ ((Boundary (clock 0 0) (clock 4 0)
          × (log_before (("n", pos 1) ∷ []) (("n", pos 2) ∷ []) ≡ true))
        ⊎ (Boundary (clock 4 0) (clock 0 0)
            × (log_before (("n", pos 2) ∷ []) (("n", pos 1) ∷ []) ≡ true)))
hybrid_before_both_iff_example =
    hybrid_before_both_iff (hybrid_clock 0 2) (hybrid_clock 4 1) (omega arith) (omega arith)
