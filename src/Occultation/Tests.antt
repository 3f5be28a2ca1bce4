-- ===== src/Occultation/Tests.antt =====
-- A body that moves into the way of a link between two fixed ends.
use horizon_protocol.Prelude.{
  zero, suc, ◌≡◌, ◌↔◌, refl, true, none, some, Option, ℤ, pos, negsuc, ◌+ℤ◌, ◌-ℤ◌, ◌*ℤ◌, ◌≤ℤ◌,
  max_ℤ, magnitude, ok, arith,
}
use horizon_protocol.Worldline.{Worldline, fixed, linear, position_at, floor_div}
use horizon_protocol.Occultation.{
  sub, dot, segment_meets, is_link_down, scan, bisect_enter, bisect_exit, find_anchor, ends,
  down_interval, occultation_interval,
}
use horizon_protocol.Occultation.Interval.{Contiguous, Shows, occultation_interval_exact}

program : Unit {0}
unfolding occultation_interval down_interval ends find_anchor bisect_exit bisect_enter scan
    is_link_down segment_meets dot sub position_at floor_div ◌+ℤ◌ ◌-ℤ◌ ◌*ℤ◌ max_ℤ magnitude
program = tt

abbrev ship : Worldline
ship = fixed (record { x = pos 0; y = pos 0; z = pos 0 })

abbrev station : Worldline
station = fixed (record { x = pos 100; y = pos 0; z = pos 0 })

-- At y = 4 t - 10
abbrev moon : Worldline
moon =
    linear (record { x = pos 50; y = negsuc 9; z = pos 0 }) (pos 0)
      (record {
        vx = record { num = pos 0; den = 1 };
        vy = record { num = pos 4; den = 1 };
        vz = record { num = pos 0; den = 1 };
      })

found :
    occultation_interval (pos 0) (pos 3) ship station moon (pos 3) none 2000
    ≡ ok (some (pos 2, pos 3))
unfolding program
found = refl

missed : occultation_interval (pos 0) (pos 1) ship station moon (pos 3) none 2000 ≡ ok none
unfolding program
missed = refl

from_two_on :
    (t : ℤ)
    → pos 0 ≤ℤ t
    → t ≤ℤ pos 3
    → (is_link_down t ship station moon (pos 3) ≡ true) ↔ (pos 2 ≤ℤ t)
unfolding program
from_two_on (pos zero) ge le = (λ h. cc, λ h. absurd (omega arith))
from_two_on (pos (suc zero)) ge le = (λ h. cc, λ h. absurd (omega arith))
from_two_on (pos (suc (suc zero))) ge le = (λ h. omega arith, λ h. refl)
from_two_on (pos (suc (suc (suc zero)))) ge le = (λ h. omega arith, λ h. refl)
from_two_on (pos (suc (suc (suc (suc n))))) ge le = absurd (omega arith)
from_two_on (negsuc n) ge le = absurd (omega arith)

one_interval : Contiguous (λ t. is_link_down t ship station moon (pos 3)) (pos 0) (pos 3)
one_interval s t u ge st tu le down_s down_u =
    let from : pos 2 ≤ℤ s = (from_two_on s ge (omega arith)).0 down_s in
    (from_two_on t (omega arith) (omega arith)).1 (omega arith)

occultation_interval_exact_example :
    (result : Option (ℤ × ℤ)) × (occultation_interval
        (pos 0)
        (pos 3)
        ship
        station
        moon
        (pos 3)
        none
        2000
      ≡ ok result)
    × Shows (λ t. is_link_down t ship station moon (pos 3)) (pos 0) (pos 3) none 2000 result (pos 1)
occultation_interval_exact_example =
    occultation_interval_exact (pos 0) (pos 3) ship station moon (pos 3) none 2000 (omega arith) tt
      one_interval (pos 1) (omega arith) (omega arith)
