-- ===== src/TwoFloor/Tests.antt =====
-- A ship whose position is known within a ball, and a fixed station.
use horizon_protocol.Prelude.{
  ℕ, ◌≡◌, refl, true, false, ℤ, pos, ◌-ℤ◌, ◌*ℤ◌, square, magnitude, ok, arith,
}
use horizon_protocol.Geometry.{Position, causally_admissible, dist2}
use horizon_protocol.Worldline.{fixed, position_at, center_at, radius_after, radius_at, Envelope}
use horizon_protocol.TwoFloor.{
  definite, uncertain, resolve, TwoFloorVerdict, admitted, rejected, two_floor_verdict,
}
use horizon_protocol.TwoFloor.Sound.{Within, admitted_sound, rejected_sound}

program : Unit {0}
unfolding two_floor_verdict resolve center_at position_at radius_at radius_after dist2 square
    magnitude ◌-ℤ◌ ◌*ℤ◌
program = tt

abbrev at_x : ℕ → Position
at_x n = record { x = pos n; y = pos 0; z = pos 0 }

abbrev ship : Envelope
ship = record { nominal = fixed (at_x 0); t_c = pos 0; v_unc = 0; a_max = 0; u_measured = 1000 }

-- Two light-nanoseconds apart.
abbrev VerdictAfter : ℤ → TwoFloorVerdict → Type 0
VerdictAfter t v = two_floor_verdict (pos 0) (uncertain ship) t (definite (at_x 599584916)) ≡ ok v

late : (v : TwoFloorVerdict) × VerdictAfter (pos 3) v × (v.verdict ≡ admitted)
unfolding program
late = (_, refl, refl)

early : (v : TwoFloorVerdict) × VerdictAfter (pos 1) v × (v.verdict ≡ rejected)
unfolding program
early = (_, refl, refl)

-- The ship is really 700 nm from the centre.
ship_there : Within (pos 0) (uncertain ship) (at_x 700)
unfolding program
ship_there = (at_x 0, 1000, refl, omega arith)

station_late : Within (pos 3) (definite (at_x 599584916)) (at_x 599584916)
unfolding program
station_late = (at_x 599584916, 0, refl, omega arith)

station_early : Within (pos 1) (definite (at_x 599584916)) (at_x 599584916)
unfolding program
station_early = (at_x 599584916, 0, refl, omega arith)

admitted_sound_example : causally_admissible (pos 0) (at_x 700) (pos 3) (at_x 599584916) ≡ true
admitted_sound_example =
    admitted_sound (pos 0) (uncertain ship) (pos 3) (definite (at_x 599584916)) late.0 late.1 late.2
      (at_x 700) (at_x 599584916) ship_there station_late

rejected_sound_example : causally_admissible (pos 0) (at_x 700) (pos 1) (at_x 599584916) ≡ false
rejected_sound_example =
    rejected_sound (pos 0) (uncertain ship) (pos 1) (definite (at_x 599584916)) early.0 early.1
      early.2 (at_x 700) (at_x 599584916) ship_there station_early
