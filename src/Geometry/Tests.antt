-- ===== src/Geometry/Tests.antt =====
-- Runs of the light-cone kernel, and its theorems at concrete events.
use horizon_protocol.Prelude.{
  ◌≡◌, refl, ◌↔◌, ◌≤◌, ◌+◌, ◌*◌, true, false, pos, negsuc, ◌+ℤ◌, ◌-ℤ◌, ◌*ℤ◌, ◌≤ℤ◌, square,
  magnitude, isqrt,
}
use horizon_protocol.LightTime.{light_search}
use horizon_protocol.Geometry.{Position, c_nm_per_ns, dist2, causally_admissible, min_light_time_ns}
use horizon_protocol.Geometry.Floor.{admissible-iff-min_light_time, min_light_time_iff}
use horizon_protocol.Geometry.Cone.{min_light_time-triangle}

program : Unit {0}
unfolding causally_admissible dist2 square magnitude ◌-ℤ◌ ◌*ℤ◌ min_light_time_ns light_search isqrt
program = tt

abbrev origin : Position
origin = record { x = pos 0; y = pos 0; z = pos 0 }

-- One nanometre further than light travels in a nanosecond.
abbrev near : Position
near = record { x = pos 299792459; y = pos 0; z = pos 0 }

abbrev behind : Position
behind = record { x = pos 0; y = negsuc 299792457; z = pos 0 }

min_light_time_runs : min_light_time_ns origin behind ≡ 1
unfolding program
min_light_time_runs = refl

on_the_cone : causally_admissible (pos 0) origin (pos 1) behind ≡ true
unfolding program
on_the_cone = refl

just_outside : causally_admissible (pos 0) origin (pos 1) near ≡ false
unfolding program
just_outside = refl

onward : causally_admissible (pos 1) behind (pos 3) near ≡ true
unfolding program
onward = refl

at_once : causally_admissible (pos 5) near (pos 5) near ≡ true
unfolding program
at_once = refl

admissible-iff-min_light_time_example :
    (causally_admissible (pos 0) origin (pos 2) near ≡ true)
    ↔ (pos 0 +ℤ pos (min_light_time_ns origin near) ≤ℤ pos 2)
admissible-iff-min_light_time_example = admissible-iff-min_light_time (pos 0) origin (pos 2) near

min_light_time_iff_example :
    (dist2 origin near ≤ (c_nm_per_ns * 7) * (c_nm_per_ns * 7))
    ↔ (min_light_time_ns origin near ≤ 7)
min_light_time_iff_example = min_light_time_iff origin near 7

min_light_time-triangle_example :
    min_light_time_ns behind near ≤ min_light_time_ns behind origin + min_light_time_ns origin near
min_light_time-triangle_example = min_light_time-triangle behind origin near
