-- ===== src/Worldline/Growth.antt =====
-- horizon/uncertainty.py: the rounding of an envelope's radius.
use native.Mathlib.Nat.{mul-le-mul, le_refl}
use horizon_protocol.Prelude.{ℕ, ◌+◌, ◌*◌, ◌≤◌, arith, square_mono}
use horizon_protocol.Worldline.{Envelope, radius_after}

-- An envelope never shrinks while no contact is made.
pub radius_grows : (e : Envelope) (s t : ℕ) → s ≤ t → radius_after e s ≤ radius_after e t
unfolding radius_after
radius_grows e s t h =
    omega (arith, mul-le-mul (le_refl e.v_unc) h, mul-le-mul (le_refl e.a_max) (square_mono s t h))

-- Twice the radius is at least twice the kinematic bound u + v dt + a dt² / 2, and exceeds it by
-- 1 at most.
pub radius_covers :
    (e : Envelope) (dt : ℕ)
    → (2 * e.u_measured + 2 * (e.v_unc * dt) + e.a_max * dt * dt ≤ 2 * radius_after e dt)
      × (2 * radius_after e dt ≤ 2 * e.u_measured + 2 * (e.v_unc * dt) + e.a_max * dt * dt + 1)
unfolding radius_after
radius_covers e dt = (omega arith, omega arith)
