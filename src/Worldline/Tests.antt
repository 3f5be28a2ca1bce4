-- ===== src/Worldline/Tests.antt =====
-- A moving node, and the envelope of a silent one.
use horizon_protocol.Prelude.{◌≡◌, refl, pos, negsuc, ◌-ℤ◌, magnitude, ok, raise, value_error}
use horizon_protocol.Geometry.{Position}
use horizon_protocol.Worldline.{
  fixed, ratio, as_rational, floor_div, Envelope, radius_after, radius_at,
}

abbrev site : Position
site = record { x = pos 0; y = pos 0; z = pos 0 }

abbrev drift : Envelope
drift = record { nominal = fixed site; t_c = pos 100; v_unc = 2; a_max = 3; u_measured = 5 }

-- A velocity of -1/3 is rounded down.
as_rational_runs : as_rational (ratio (pos 1) (negsuc 2)) ≡ ok (record { num = negsuc 0; den = 3 })
unfolding as_rational ◌-ℤ◌ magnitude
as_rational_runs = refl

floor_div_runs : floor_div (negsuc 0) 3 ≡ negsuc 0
unfolding floor_div
floor_div_runs = refl

before_contact : radius_at drift (pos 99) ≡ raise value_error
unfolding radius_at ◌-ℤ◌
before_contact = refl

radius_at_runs : radius_at drift (pos 103) ≡ ok 25
unfolding radius_at radius_after ◌-ℤ◌ magnitude
radius_at_runs = refl
