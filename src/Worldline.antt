-- ===== src/Worldline.antt =====
-- horizon/worldline.py and horizon/uncertainty.py: exact trajectories, and the ball of positions
-- in which a node may be since its last contact. The source's type checks are the types here.
pub mod Growth
mod Tests
use horizon_protocol.Prelude.{
  ℕ, suc, ◌+◌, ◌*◌, ◌/◌, Bool, ℤ, pos, negsuc, ◌+ℤ◌, ◌-ℤ◌, ◌*ℤ◌, ltb_ℤ, eqb_ℤ, magnitude, Option,
  none, some, Result, ok, raise_if, value_error, ◌>>=◌, ◌>>◌, if◌then◌else◌,
}
use horizon_protocol.Geometry.{Position, causally_admissible}

-- A velocity component as the caller writes it, and normalised: the denominator is positive.
pub data Component : Type 0 where
  whole : ℤ → Component
  ratio : ℤ → ℤ → Component

pub record Rational : Type 0 where
  pub num : ℤ
  pub den : ℕ

unfoldable pub as_rational : Component → Result Rational
as_rational (whole v) = ok (record { num = v; den = 1 })
as_rational (ratio num den) = do
  raise_if (eqb_ℤ den (pos 0)) value_error
  ok (record { num = if ltb_ℤ den (pos 0) then pos 0 -ℤ num else num; den = magnitude den })

-- `num // den` for a positive denominator
unfoldable pub floor_div : ℤ → ℕ → ℤ
floor_div (pos n) den = pos (n / den)
floor_div (negsuc n) den = negsuc (n / den)

pub record Velocity : Type 0 where
  pub vx : Rational
  pub vy : Rational
  pub vz : Rational

pub data Worldline : Type 0 where
  fixed : Position → Worldline
  linear : (p0_nm : Position) (t0_ns : ℤ) (v_nm_per_ns : Velocity) → Worldline

unfoldable pub linear_worldline :
    Position → ℤ → Component → Component → Component → Result Worldline
linear_worldline p0 t0 cx cy cz = do
  vx ← as_rational cx
  vy ← as_rational cy
  vz ← as_rational cz
  ok (linear p0 t0 (record { vx = vx; vy = vy; vz = vz }))

abbrev pub advance : ℤ → Rational → ℤ → ℤ
advance p0 v dt = p0 +ℤ floor_div (v.num *ℤ dt) v.den

unfoldable pub position_at : Worldline → ℤ → Position
position_at (fixed pos_nm) t = pos_nm
position_at (linear p0 t0 v) t =
    let dt = t -ℤ t0 in
    record { x = advance p0.x v.vx dt; y = advance p0.y v.vy dt; z = advance p0.z v.vz dt }

unfoldable pub causally_admissible_wl : Worldline → ℤ → Worldline → ℤ → Bool
causally_admissible_wl a t1 b t2 = causally_admissible t1 (position_at a t1) t2 (position_at b t2)

-- A `TrajectoryEnvelope`; the constructor refuses negative magnitudes.
pub record Envelope : Type 0 where
  pub nominal : Worldline
  pub t_c : ℤ
  pub v_unc : ℕ
  pub a_max : ℕ
  pub u_measured : ℕ

unfoldable pub trajectory_envelope : Worldline → ℤ → (v_unc a_max u_measured : ℤ) → Result Envelope
trajectory_envelope nominal t_c v_unc a_max u_measured = do
  raise_if (ltb_ℤ v_unc (pos 0)) value_error
  raise_if (ltb_ℤ a_max (pos 0)) value_error
  raise_if (ltb_ℤ u_measured (pos 0)) value_error
  ok (record {
    nominal = nominal;
    t_c = t_c;
    v_unc = magnitude v_unc;
    a_max = magnitude a_max;
    u_measured = magnitude u_measured;
  })

unfoldable pub center_at : Envelope → ℤ → Position
center_at e t = position_at e.nominal t

-- `_ceil_div(a, 2)`
unfoldable pub ceil_half : ℕ → ℕ
ceil_half a = (a + 1) / 2

-- The radius some nanoseconds after the contact.
unfoldable pub radius_after : Envelope → ℕ → ℕ
unfolding ceil_half
radius_after e dt = e.u_measured + e.v_unc * dt + ceil_half (e.a_max * dt * dt)

unfoldable pub radius_at : Envelope → ℤ → Result ℕ
radius_at e t = do
  let dt = t -ℤ e.t_c
  raise_if (ltb_ℤ dt (pos 0)) value_error
  ok (radius_after e (magnitude dt))

abbrev pub or_else : Option ℤ → ℕ → ℤ
or_else none n = pos n
or_else (some z) n = z

unfoldable pub collapse :
    Envelope → ℤ → Worldline → (u_measured : ℤ) (v_unc a_max : Option ℤ) → Result Envelope
collapse e t_new nominal_after u_measured v_unc a_max =
    trajectory_envelope nominal_after t_new (or_else v_unc e.v_unc) (or_else a_max e.a_max)
      u_measured
