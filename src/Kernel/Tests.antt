-- ===== src/Kernel/Tests.antt =====
-- Two clocks a light-nanosecond apart, and the theorems at them.
use horizon_protocol.Prelude.{
  ◌≡◌, ◌⊎◌, refl, true, false, ℕ, pos, ◌+ℤ◌, ◌-ℤ◌, ◌*ℤ◌, square, magnitude, arith, isqrt,
}
use horizon_protocol.LightTime.{light_search}
use horizon_protocol.Geometry.{causally_admissible, dist2, min_light_time_ns, same_position}
use horizon_protocol.Causal.{GeoClock}
use horizon_protocol.Causal.Laws.{Allows}
use horizon_protocol.Kernel.{before, after, spacelike, apparatus_limited, classify_geometric}
use horizon_protocol.Kernel.Geometric.{Holds, classify_geometric_sound}
use horizon_protocol.Kernel.Limits.{Possible, apparatus_limited_undecided}

program : Unit {0}
unfolding classify_geometric same_position causally_admissible dist2 square magnitude ◌+ℤ◌ ◌-ℤ◌ ◌*ℤ◌
    min_light_time_ns light_search isqrt
program = tt

abbrev clock : ℕ → ℕ → GeoClock
clock t x = record {
  time_ns = pos t;
  pos_nm = record { x = pos x; y = pos 0; z = pos 0 };
  u_ns = pos 2;
}

certain : (classify_geometric (clock 0 0) (clock 10 299792458) "f" "f").relation ≡ before
unfolding program
certain = refl

reversed : (classify_geometric (clock 10 299792458) (clock 0 0) "f" "f").relation ≡ after
unfolding program
reversed = refl

apart : (classify_geometric (clock 0 0) (clock 1 2997924580) "f" "f").relation ≡ spacelike
unfolding program
apart = refl

close : (classify_geometric (clock 0 0) (clock 4 299792458) "f" "f").relation ≡ apparatus_limited
unfolding program
close = refl

allowed_first : Allows (clock 0 0) (pos 2)
unfolding program
allowed_first = (omega arith, omega arith)

allowed_second : Allows (clock 10 299792458) (pos 8)
unfolding program
allowed_second = (omega arith, omega arith)

classify_geometric_sound_example :
    Holds
      (classify_geometric (clock 0 0) (clock 10 299792458) "f" "f").relation
      (clock 0 0)
      (clock 10 299792458)
      "f"
      "f"
      (pos 2)
      (pos 8)
classify_geometric_sound_example =
    classify_geometric_sound (clock 0 0) (clock 10 299792458) "f" "f" (pos 2) (pos 8) allowed_first
      allowed_second

apparatus_limited_undecided_example :
    Possible
      (clock 0 0)
      (clock 4 299792458)
      (λ t1 t2. causally_admissible t1 (clock 0 0).pos_nm t2 (clock 4 299792458).pos_nm ≡ false)
    × Possible
        (clock 0 0)
        (clock 4 299792458)
        (λ t1 t2. causally_admissible t2 (clock 4 299792458).pos_nm t1 (clock 0 0).pos_nm ≡ false)
    × Possible (clock 0 0) (clock 4 299792458) (λ t1 t2.
      (causally_admissible t1 (clock 0 0).pos_nm t2 (clock 4 299792458).pos_nm ≡ true)
      ⊎ (causally_admissible t2 (clock 4 299792458).pos_nm t1 (clock 0 0).pos_nm ≡ true))
apparatus_limited_undecided_example =
    apparatus_limited_undecided (clock 0 0) (clock 4 299792458) "f" "f" close
