-- ===== src/Geometry/Cone.antt =====
-- horizon/geometry.py: the order of events by light cones, and light times as a distance.
use native.Mathlib.Nat.{le_trans}
use horizon_protocol.Prelude.{
  ℕ, ◌+◌, ◌*◌, ◌≤◌, ◌≡◌, ◌↔◌, true, ℤ, ◌-ℤ◌, square, magnitude, magnitude-sub_comm,
  magnitude-triangle, square_mono, square-cancel_le, magnitude-sub_self, eq_of_magnitude,
  add-square_le, arith, int_laws, eqb_ℤ_iff, refl,
}
use horizon_protocol.LightTime.Least.{Covers-iff}
use horizon_protocol.Geometry.{
  Position, c_nm_per_ns, dist2, causally_admissible, same_position, min_light_time_ns,
}
use horizon_protocol.Geometry.Floor.{admissible-iff-min_light_time, min_light_time-least}

pub dist2_comm : (p q : Position) → dist2 q p ≡ dist2 p q
unfolding dist2 square
dist2_comm p q =
    rw (magnitude-sub_comm p.x q.x, magnitude-sub_comm p.y q.y, magnitude-sub_comm p.z q.z)

pub min_light_time_comm : (p q : Position) → min_light_time_ns q p ≡ min_light_time_ns p q
unfolding min_light_time_ns
min_light_time_comm p q = rw (dist2_comm p q) refl

-- Two legs within reaches `m` and `n` make a way within `m + n`.
pub dist2-triangle :
    (p q r : Position) (m n : ℕ)
    → dist2 p q ≤ m * m
    → dist2 q r ≤ n * n
    → dist2 p r ≤ (m + n) * (m + n)
unfolding dist2 square
dist2-triangle p q r m n h k =
    le_trans
      (omega (
        arith,
        square_mono _ _ (magnitude-triangle p.x q.x r.x),
        square_mono _ _ (magnitude-triangle p.y q.y r.y),
        square_mono _ _ (magnitude-triangle p.z q.z r.z),
      ))
      (add-square_le (magnitude (q.x -ℤ p.x)) (magnitude (q.y -ℤ p.y)) (magnitude (q.z -ℤ p.z))
        (magnitude (r.x -ℤ q.x)) (magnitude (r.y -ℤ q.y)) (magnitude (r.z -ℤ q.z)) m n h k)

dist2_self : (p : Position) → dist2 p p ≡ 0
unfolding dist2 square
dist2_self p = rw (magnitude-sub_self p.x, magnitude-sub_self p.y, magnitude-sub_self p.z)

root_of_zero : (n : ℕ) → n * n ≤ 0 → n ≡ 0
root_of_zero n h = let le : n ≤ 0 = square-cancel_le n 0 h in omega arith

eq_of_dist2 : (p q : Position) → dist2 p q ≤ 0 → p ≡ q
unfolding dist2 square
eq_of_dist2 p q h = λ i. record {
  x = eq_of_magnitude p.x q.x (root_of_zero _ (omega arith)) i;
  y = eq_of_magnitude p.y q.y (root_of_zero _ (omega arith)) i;
  z = eq_of_magnitude p.z q.z (root_of_zero _ (omega arith)) i;
}

-- Light from `p` to `r` is never slower than by way of `q`.
pub min_light_time-triangle :
    (p q r : Position) → min_light_time_ns p r ≤ min_light_time_ns p q + min_light_time_ns q r
unfolding min_light_time_ns
min_light_time-triangle p q r =
    let whole =
      Covers-iff c_nm_per_ns (dist2 p r) (min_light_time_ns p q + min_light_time_ns q r)
        (omega arith) in
    whole.0 (
      omega
        (arith, dist2-triangle p q r _ _ (min_light_time-least p q).0 (min_light_time-least q r).0))

-- The light cone is transitive: what can influence an event can influence its influences.
pub admissible_trans :
    (t1 t2 t3 : ℤ) (p1 p2 p3 : Position)
    → causally_admissible t1 p1 t2 p2 ≡ true
    → causally_admissible t2 p2 t3 p3 ≡ true
    → causally_admissible t1 p1 t3 p3 ≡ true
admissible_trans t1 t2 t3 p1 p2 p3 h k = (admissible-iff-min_light_time t1 p1 t3 p3).1 (
    omega (
      int_laws,
      (admissible-iff-min_light_time t1 p1 t2 p2).0 h,
      (admissible-iff-min_light_time t2 p2 t3 p3).0 k,
      min_light_time-triangle p1 p2 p3,
    ))

pub admissible_refl : (t : ℤ) (p : Position) → causally_admissible t p t p ≡ true
unfolding min_light_time_ns
admissible_refl t p =
    let at_once : min_light_time_ns p p ≤ 0 =
      (Covers-iff c_nm_per_ns (dist2 p p) 0 (omega arith)).0 (omega (arith, dist2_self p)) in
    (admissible-iff-min_light_time t p t p).1 (omega (int_laws, at_once))

-- Two events within one another's light cones are the same event.
pub admissible_antisymm :
    (t1 t2 : ℤ) (p1 p2 : Position)
    → causally_admissible t1 p1 t2 p2 ≡ true
    → causally_admissible t2 p2 t1 p1 ≡ true
    → (t1 ≡ t2) × (p1 ≡ p2)
unfolding min_light_time_ns
admissible_antisymm t1 t2 p1 p2 h k =
    let after = (admissible-iff-min_light_time t1 p1 t2 p2).0 h in
    let before = (admissible-iff-min_light_time t2 p2 t1 p1).0 k in
    let at_once : min_light_time_ns p1 p2 ≤ 0 = omega (int_laws, after, before) in
    (
      omega (int_laws, after, before),
      eq_of_dist2 p1 p2 ((Covers-iff c_nm_per_ns (dist2 p1 p2) 0 (omega arith)).1 at_once),
    )

same_position_self : (p : Position) → same_position p p ≡ true
unfolding same_position
same_position_self p =
    ground
      (arith, (eqb_ℤ_iff p.x p.x).1 refl, (eqb_ℤ_iff p.y p.y).1 refl, (eqb_ℤ_iff p.z p.z).1 refl)

pub same_position_iff : (p q : Position) → (same_position p q ≡ true) ↔ (p ≡ q)
unfolding same_position
same_position_iff p q = (
  λ h. ground (arith, eqb_ℤ_iff p.x q.x, eqb_ℤ_iff p.y q.y, eqb_ℤ_iff p.z q.z),
  λ e. rw e (same_position_self q),
)
