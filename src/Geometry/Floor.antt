-- ===== src/Geometry/Floor.antt =====
-- horizon/geometry.py: the light cone in terms of light times, the form in which the gates use it.
use horizon_protocol.Prelude.{
  ℕ, ◌*◌, ◌≤◌, ◌≡◌, ◌↔◌, Bool, true, false, some, ℤ, pos, negsuc, ◌+ℤ◌, ◌-ℤ◌, ◌*ℤ◌, ◌≤ℤ◌, ltb_ℤ,
  leb, if◌then◌else◌, square, magnitude, arith, int_laws, *ℤ-pos, leb→le,
}
use horizon_protocol.LightTime.{light_search}
use horizon_protocol.LightTime.Least.{
  Covers, Before, Covers-iff, light_search-Before, light_search-Covers,
}
use horizon_protocol.Geometry.{
  Position, c_nm_per_ns, dist2, causally_admissible, admissibility_witness, min_light_time_ns,
}

-- The squared reach of light in a time that is not negative.
square-light : (n : ℕ) → square (pos c_nm_per_ns *ℤ pos n) ≡ (c_nm_per_ns * n) * (c_nm_per_ns * n)
unfolding square magnitude
square-light n = rw *ℤ-pos

-- The test of `causally_admissible`, on the elapsed time and the squared distance.
abbrev pub in_cone : ℤ → ℕ → Bool
in_cone dt d2 = if ltb_ℤ dt (pos 0) then false else leb d2 (square (pos c_nm_per_ns *ℤ dt))

pub in_cone_iff :
    (dt : ℤ) (d2 : ℕ) → (in_cone dt d2 ≡ true) ↔ (pos (light_search c_nm_per_ns d2) ≤ℤ dt)
in_cone_iff (pos n) d2 =
    let reach = Covers-iff c_nm_per_ns d2 n (omega arith) in
    rw square-light (
      λ h. omega (arith, reach.0 (leb→le _ _ (ground arith))),
      λ h. ground (arith, reach.1 (omega arith)),
    )
in_cone_iff (negsuc n) d2 = (λ h. ground arith, λ h. absurd (omega arith))

-- An event lies in the closed future light cone of another exactly when it comes at least the
-- least light time later.
pub admissible-iff-min_light_time :
    (t1 : ℤ) (p1 : Position) (t2 : ℤ) (p2 : Position)
    → (causally_admissible t1 p1 t2 p2 ≡ true) ↔ (t1 +ℤ pos (min_light_time_ns p1 p2) ≤ℤ t2)
unfolding min_light_time_ns causally_admissible
admissible-iff-min_light_time t1 p1 t2 p2 =
    let test = in_cone_iff (t2 -ℤ t1) (dist2 p1 p2) in
    (λ h. omega (int_laws, test.0 h), λ h. test.1 (omega int_laws))

-- Light covers the distance in just those numbers of nanoseconds that are at least
-- `min_light_time_ns`.
pub min_light_time_iff :
    (p1 p2 : Position) (t : ℕ)
    → (dist2 p1 p2 ≤ (c_nm_per_ns * t) * (c_nm_per_ns * t)) ↔ (min_light_time_ns p1 p2 ≤ t)
unfolding min_light_time_ns
min_light_time_iff p1 p2 t = Covers-iff c_nm_per_ns (dist2 p1 p2) t (omega arith)

-- The light time covers the distance, and no shorter time does.
pub min_light_time-least :
    (p1 p2 : Position)
    → Covers c_nm_per_ns (dist2 p1 p2) (min_light_time_ns p1 p2)
      × Before c_nm_per_ns (dist2 p1 p2) (min_light_time_ns p1 p2)
unfolding min_light_time_ns
min_light_time-least p1 p2 = (
  light_search-Covers c_nm_per_ns (dist2 p1 p2) (omega arith),
  light_search-Before c_nm_per_ns (dist2 p1 p2),
)

-- The witness shows the decision: it is admissible exactly when it holds a squared reach, which
-- it does for an elapsed time that is not negative, and that is at least the squared distance.
pub witness_decides :
    (t1 : ℤ) (p1 : Position) (t2 : ℤ) (p2 : Position)
    → ((admissibility_witness t1 p1 t2 p2).admissible ≡ true) ↔ (
        (lhs : ℕ) × ((admissibility_witness t1 p1 t2 p2).lhs_c_dt_squared ≡ some lhs)
        × ((admissibility_witness t1 p1 t2 p2).rhs_dist_squared_nm2 ≤ lhs))
unfolding admissibility_witness causally_admissible
witness_decides t1 p1 t2 p2 = (
  λ h. (square (pos c_nm_per_ns *ℤ (t2 -ℤ t1)), ground arith, ground arith),
  λ (lhs, e, le). ground arith,
)
