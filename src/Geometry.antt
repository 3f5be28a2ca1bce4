-- ===== src/Geometry.antt =====
-- horizon/geometry.py: the light-cone kernel. Positions are in nanometres, times in nanoseconds.
pub mod Floor
pub mod Cone
mod Tests
use horizon_protocol.Prelude.{
  ℕ, ◌+◌, ◌*◌, Bool, false, Option, none, some, ℤ, pos, ◌-ℤ◌, ltb_ℤ, eqb_ℤ, ◌&&◌, ◌*ℤ◌, leb, leb_ℤ,
  if◌then◌else◌, square,
}
use horizon_protocol.LightTime.{light_search}

pub record Position : Type 0 where
  pub x : ℤ
  pub y : ℤ
  pub z : ℤ

abbrev pub c_nm_per_ns : ℕ
c_nm_per_ns = 299792458

-- The sum of the squares is a natural number.
unfoldable pub dist2 : Position → Position → ℕ
dist2 p1 p2 =
    let dx = p2.x -ℤ p1.x in
    let dy = p2.y -ℤ p1.y in let dz = p2.z -ℤ p1.z in square dx + square dy + square dz

unfoldable pub causally_admissible : ℤ → Position → ℤ → Position → Bool
causally_admissible t1 p1 t2 p2 =
    let dt = t2 -ℤ t1 in
    if ltb_ℤ dt (pos 0) then false else leb (dist2 p1 p2) (square (pos c_nm_per_ns *ℤ dt))

-- The dictionary that `admissibility_witness` returns.
pub record Witness : Type 0 where
  pub dt_ns : ℤ
  pub speed : ℕ
  pub lhs_c_dt_squared : Option ℕ
  pub rhs_dist_squared_nm2 : ℕ
  pub admissible : Bool

unfoldable pub admissibility_witness : ℤ → Position → ℤ → Position → Witness
admissibility_witness t1 p1 t2 p2 =
    let dt = t2 -ℤ t1 in
    record {
      dt_ns = dt;
      speed = c_nm_per_ns;
      lhs_c_dt_squared = if leb_ℤ (pos 0) dt then some (square (pos c_nm_per_ns *ℤ dt)) else none;
      rhs_dist_squared_nm2 = dist2 p1 p2;
      admissible = causally_admissible t1 p1 t2 p2;
    }

unfoldable pub min_light_time_ns : Position → Position → ℕ
min_light_time_ns p1 p2 = light_search c_nm_per_ns (dist2 p1 p2)

-- `p == q` on tuples of coordinates
unfoldable pub same_position : Position → Position → Bool
same_position p q = eqb_ℤ p.x q.x && eqb_ℤ p.y q.y && eqb_ℤ p.z q.z
