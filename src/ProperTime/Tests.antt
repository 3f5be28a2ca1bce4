-- ===== src/ProperTime/Tests.antt =====
-- The clock of a node that runs at two thirds of the coordinate time.
use horizon_protocol.Prelude.{
  ◌≡◌, refl, true, pos, negsuc, ◌≤ℤ◌, ◌+ℤ◌, ◌-ℤ◌, ◌*ℤ◌, arith, ok, magnitude,
}
use horizon_protocol.Worldline.{floor_div}
use horizon_protocol.ProperTime.{ProperTimeClock, proper_time_clock, tau_at, stamp_at, at_most}
use horizon_protocol.ProperTime.Rate.{stamp_at-at_most}

abbrev slow : ProperTimeClock
slow = record {
  node_id = "ship";
  rate_num = pos 2;
  rate_den = 3;
  t0_coord_ns = pos 10;
  tau0_ns = pos 0;
}

constructed : proper_time_clock "ship" (negsuc 1) (negsuc 2) (pos 10) (pos 0) ≡ ok slow
unfolding proper_time_clock ◌-ℤ◌ magnitude
constructed = refl

-- Rounded down, also before the anchor.
before_anchor : tau_at slow (pos 9) ≡ negsuc 0
unfolding tau_at floor_div ◌+ℤ◌ ◌-ℤ◌ ◌*ℤ◌
before_anchor = refl

stamp_at-at_most_example :
    (tau_at slow (pos 9) ≤ℤ tau_at slow (pos 12))
    × (at_most (stamp_at slow (pos 9)) (stamp_at slow (pos 12)) ≡ ok true)
stamp_at-at_most_example =
    stamp_at-at_most slow (pos 9) (pos 12) (omega arith) (omega arith) (omega arith)
