-- ===== src/TwoFloor/Sound.antt =====
-- The verdict on two envelopes against the positions in which the two nodes really are.
use native.Mathlib.Decide.{dec_lt}
use mathlib.Core.Path.{subst}
use horizon_protocol.Prelude.{
  ℕ, ◌+◌, ◌-◌, ◌*◌, ◌≤◌, ◌<◌, ◌≡◌, ◌↔◌, ap, sym, ◌∙◌, inl, inr, true, false, Bool-cases, ℤ, pos,
  negsuc, ◌-ℤ◌, magnitude, pos_part, neg_part, ltb_ℤ, eq_false, arith, int_laws, ok, ok-injective,
  refl,
}
use horizon_protocol.LightTime.Least.{Covers-iff}
use horizon_protocol.Geometry.{Position, c_nm_per_ns, dist2, causally_admissible, min_light_time_ns}
use horizon_protocol.Geometry.Floor.{admissible-iff-min_light_time}
use horizon_protocol.Geometry.Cone.{dist2_comm, dist2-triangle}
use horizon_protocol.TwoFloor.{
  Side, resolve, admitted, rejected, Balls, TwoFloorVerdict, worst_case_admitted,
  best_case_rejected, decide_balls, two_floor_verdict,
}

-- The node on a side may be at a position: within the ball that the side stands for.
abbrev pub Within : ℤ → Side → Position → Type 0
Within t side q =
    (center : Position) × (radius : ℕ) × (resolve t side ≡ ok (center, radius))
    × (dist2 q center ≤ radius * radius)

magnitude_later : (z : ℤ) → ltb_ℤ z (pos 0) ≡ false → (pos_part z ≡ magnitude z) × (neg_part z ≡ 0)
unfolding magnitude
magnitude_later (pos n) h = (refl, refl)
magnitude_later (negsuc n) h = absurd (ground arith)

in_reach_iff :
    (t1 : ℤ) (p : Position) (t2 : ℤ) (q : Position)
    → ltb_ℤ (t2 -ℤ t1) (pos 0) ≡ false
    → (causally_admissible t1 p t2 q ≡ true)
      ↔ (dist2 p q ≤ (c_nm_per_ns * magnitude (t2 -ℤ t1)) * (c_nm_per_ns * magnitude (t2 -ℤ t1)))
unfolding min_light_time_ns
in_reach_iff t1 p t2 q later =
    let dt = magnitude_later (t2 -ℤ t1) later in
    let cone = admissible-iff-min_light_time t1 p t2 q in
    let reach = Covers-iff c_nm_per_ns (dist2 p q) (magnitude (t2 -ℤ t1)) (omega arith) in
    (
      λ h. reach.1 (omega (int_laws, dt.0, dt.1, cone.0 h)),
      λ h. cone.1 (omega (int_laws, dt.0, dt.1, reach.0 h)),
    )

-- The two tests for any two positions in the two balls.
worst_case-covers :
    (q1 q2 c1 c2 : Position) (r1 r2 lhs : ℕ)
    → dist2 q1 c1 ≤ r1 * r1
    → dist2 q2 c2 ≤ r2 * r2
    → worst_case_admitted lhs (r1 + r2) (dist2 c1 c2) ≡ true
    → dist2 q1 q2 ≤ lhs * lhs
unfolding worst_case_admitted
worst_case-covers q1 q2 c1 c2 r1 r2 lhs in1 in2 test =
    let fits : r1 + r2 ≤ lhs = ground arith in
    let centers : dist2 c1 c2 ≤ (lhs - (r1 + r2)) * (lhs - (r1 + r2)) = ground arith in
    let whole : r1 + (lhs - (r1 + r2)) + r2 ≡ lhs = omega arith in
    subst (λ reach. dist2 q1 q2 ≤ reach * reach) whole
      (dist2-triangle q1 c2 q2 (r1 + (lhs - (r1 + r2))) r2
        (dist2-triangle q1 c1 c2 r1 (lhs - (r1 + r2)) in1 centers) (rw (dist2_comm q2 c2) in2))

best_case-exceeds :
    (q1 q2 c1 c2 : Position) (r1 r2 lhs : ℕ)
    → dist2 q1 c1 ≤ r1 * r1
    → dist2 q2 c2 ≤ r2 * r2
    → best_case_rejected lhs (r1 + r2) (dist2 c1 c2) ≡ true
    → lhs * lhs < dist2 q1 q2
unfolding best_case_rejected
best_case-exceeds q1 q2 c1 c2 r1 r2 lhs in1 in2 test = elim (dec_lt (lhs * lhs) (dist2 q1 q2)) [
  | yes lt ↦ lt
  | no le ↦
      let whole : r1 + lhs + r2 ≡ lhs + (r1 + r2) = omega arith in
      let far : (lhs + (r1 + r2)) * (lhs + (r1 + r2)) < dist2 c1 c2 = ground arith in
      let near : dist2 c1 c2 ≤ (lhs + (r1 + r2)) * (lhs + (r1 + r2)) =
        subst (λ reach. dist2 c1 c2 ≤ reach * reach) whole
          (dist2-triangle c1 q2 c2 (r1 + lhs) r2
            (dist2-triangle c1 q1 q2 r1 lhs (rw (dist2_comm q1 c1) in1) (omega arith)) in2) in
      absurd (omega arith)
]

-- What the verdict is about once both sides are resolved.
abbrev balls_at : ℤ → Position → ℕ → Position → ℕ → Balls
balls_at dt c1 r1 c2 r2 = record {
  center1 = c1;
  center2 = c2;
  radius1 = r1;
  radius2 = r2;
  dist2_to_center = dist2 c1 c2;
  c_dt = c_nm_per_ns * magnitude dt;
}

resolved_verdict :
    (t1 : ℤ) (s1 : Side) (t2 : ℤ) (s2 : Side) (c1 : Position) (r1 : ℕ) (c2 : Position) (r2 : ℕ)
    → resolve t1 s1 ≡ ok (c1, r1)
    → resolve t2 s2 ≡ ok (c2, r2)
    → ltb_ℤ (t2 -ℤ t1) (pos 0) ≡ false
    → two_floor_verdict t1 s1 t2 s2 ≡ ok (decide_balls (t2 -ℤ t1) (balls_at (t2 -ℤ t1) c1 r1 c2 r2))
unfolding two_floor_verdict
resolved_verdict t1 s1 t2 s2 c1 r1 c2 r2 e1 e2 later = rw (later, e1, e2) refl

decide_balls-admitted :
    (dt : ℤ) (b : Balls)
    → (decide_balls dt b).verdict ≡ admitted
    → worst_case_admitted b.c_dt (b.radius1 + b.radius2) b.dist2_to_center ≡ true
unfolding decide_balls
decide_balls-admitted dt b h = ground arith

decide_balls-rejected :
    (dt : ℤ) (b : Balls)
    → (decide_balls dt b).verdict ≡ rejected
    → best_case_rejected b.c_dt (b.radius1 + b.radius2) b.dist2_to_center ≡ true
unfolding decide_balls
decide_balls-rejected dt b h = ground arith

-- A pair whose second event is earlier is rejected.
earlier_verdict :
    (t1 : ℤ) (s1 : Side) (t2 : ℤ) (s2 : Side) (v : TwoFloorVerdict)
    → ltb_ℤ (t2 -ℤ t1) (pos 0) ≡ true
    → two_floor_verdict t1 s1 t2 s2 ≡ ok v
    → v.verdict ≡ rejected
unfolding two_floor_verdict
earlier_verdict t1 s1 t2 s2 v early h = ground arith

never_earlier :
    (t1 : ℤ) (q1 : Position) (t2 : ℤ) (q2 : Position)
    → ltb_ℤ (t2 -ℤ t1) (pos 0) ≡ true
    → causally_admissible t1 q1 t2 q2 ≡ true
    → ⊥
unfolding causally_admissible
never_earlier t1 q1 t2 q2 early c = ground arith

-- An admitted pair is in the light cone wherever in their balls the two nodes really are.
pub admitted_sound :
    (t1 : ℤ) (s1 : Side) (t2 : ℤ) (s2 : Side) (v : TwoFloorVerdict)
    → two_floor_verdict t1 s1 t2 s2 ≡ ok v
    → v.verdict ≡ admitted
    → (q1 q2 : Position) → Within t1 s1 q1
    → Within t2 s2 q2
    → causally_admissible t1 q1 t2 q2 ≡ true
admitted_sound t1 s1 t2 s2 v h e q1 q2 (c1, r1, e1, in1) (c2, r2, e2, in2) =
    elim (Bool-cases (ltb_ℤ (t2 -ℤ t1) (pos 0))) [
      | inl early ↦ let no_way = earlier_verdict t1 s1 t2 s2 v early h in ground arith
      | inr later ↦
          let is = resolved_verdict t1 s1 t2 s2 c1 r1 c2 r2 e1 e2 later in
          (in_reach_iff t1 q1 t2 q2 later).1 (
            worst_case-covers q1 q2 c1 c2 r1 r2 _ in1 in2 (
              decide_balls-admitted (t2 -ℤ t1) (balls_at (t2 -ℤ t1) c1 r1 c2 r2)
                (ap (λ v. v.verdict) (ok-injective (sym is ∙ h)) ∙ e)))
    ]

-- A rejected pair is outside the light cone wherever in their balls the two nodes really are.
pub rejected_sound :
    (t1 : ℤ) (s1 : Side) (t2 : ℤ) (s2 : Side) (v : TwoFloorVerdict)
    → two_floor_verdict t1 s1 t2 s2 ≡ ok v
    → v.verdict ≡ rejected
    → (q1 q2 : Position) → Within t1 s1 q1
    → Within t2 s2 q2
    → causally_admissible t1 q1 t2 q2 ≡ false
rejected_sound t1 s1 t2 s2 v h e q1 q2 (c1, r1, e1, in1) (c2, r2, e2, in2) =
    elim (Bool-cases (ltb_ℤ (t2 -ℤ t1) (pos 0))) [
      | inl early ↦ eq_false _ (λ c. never_earlier t1 q1 t2 q2 early c)
      | inr later ↦
          let is = resolved_verdict t1 s1 t2 s2 c1 r1 c2 r2 e1 e2 later in
          let far = best_case-exceeds q1 q2 c1 c2 r1 r2 _ in1 in2 (
            decide_balls-rejected (t2 -ℤ t1) (balls_at (t2 -ℤ t1) c1 r1 c2 r2)
              (ap (λ v. v.verdict) (ok-injective (sym is ∙ h)) ∙ e)) in
          eq_false _ (λ c. omega (arith, (in_reach_iff t1 q1 t2 q2 later).0 c))
    ]
