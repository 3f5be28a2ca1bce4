-- ===== src/Measure/Floors.antt =====
-- The two floors, and what the classification of a receipt says of the light cone.
use native.Mathlib.Nat.{le_trans, mul-le-mul_right, le_of_mul-le-mul_left}
use horizon_protocol.Prelude.{
  ℕ, ◌*◌, ◌≤◌, ◌<◌, ◌≡◌, ◌↔◌, true, false, ℤ, pos, ◌+ℤ◌, ◌-ℤ◌, ◌≤ℤ◌, ◌<ℤ◌, ltb_ℤ, if◌then◌else◌,
  arith, int_laws, inl, inr, square_mono, eq_false, ◌⊎◌, refl, sym, ◌∙◌, ap, Bool-cases, ◌==◌,
  ==_iff, ok, ok-injective, bound_value,
}
use horizon_protocol.LightTime.{light_search}
use horizon_protocol.LightTime.Least.{Covers, Covers-iff, light_search-Covers}
use horizon_protocol.Geometry.{Position, c_nm_per_ns, dist2, min_light_time_ns, causally_admissible}
use horizon_protocol.Geometry.Floor.{admissible-iff-min_light_time}
use horizon_protocol.Measure.{
  min_transit_time_ns_eff, Classified, admitted, apparatus_limited, rejected, Budget, budget_from,
  budget_witness, transit_ns, classify_measured_receipt,
}

square_positive : (n : ℕ) → 0 < n → 0 < n * n
square_positive n h = grind arith

slower-Covers :
    (speed num den d2 t : ℕ)
    → 0 < den
    → num ≤ den
    → Covers (speed * num) ((den * den) * d2) t
    → Covers speed d2 t
slower-Covers speed num den d2 t positive slower h =
    let reach : ℕ = speed * t in
    let faster : speed * num * t ≤ den * reach =
      le_trans (omega arith) (mul-le-mul_right reach slower) in
    let scaled : (den * den) * d2 ≤ (den * den) * (reach * reach) =
      le_trans h (le_trans (square_mono _ _ faster) (omega arith)) in
    le_of_mul-le-mul_left scaled (square_positive den positive)

-- The verdict for an adjusted time between two floors.
abbrev band : ℤ → ℕ → ℕ → Classified
band adjusted vacuum typical =
    if ltb_ℤ adjusted (pos vacuum)
    then rejected
    else if ltb_ℤ adjusted (pos typical)
    then apparatus_limited
    else admitted

band_verdicts :
    (adjusted : ℤ) (vacuum typical : ℕ)
    → vacuum ≤ typical
    → ((band adjusted vacuum typical ≡ rejected) ↔ (adjusted <ℤ pos vacuum))
      × ((band adjusted vacuum typical ≡ admitted) ↔ (pos typical ≤ℤ adjusted))
      × ((band adjusted vacuum typical ≡ apparatus_limited)
          ↔ ((pos vacuum ≤ℤ adjusted) × (adjusted <ℤ pos typical)))
band_verdicts adjusted vacuum typical h = (
  (λ e. ground arith, λ e. ground arith),
  (λ e. ground arith, λ e. ground arith),
  (λ e. (ground arith, ground arith), λ (e, f). ground arith),
)

-- At a positive speed there is a transit time.
pub transit_found :
    (p1 p2 : Position) (num den : ℕ)
    → 0 < num
    → min_transit_time_ns_eff p1 p2 num den ≡ ok (transit_ns p1 p2 num den)
unfolding min_transit_time_ns_eff transit_ns light_search
transit_found p1 p2 num den positive = elim (Bool-cases (dist2 p1 p2 == 0)) [
  | inl here ↦
      let near : den * den * dist2 p1 p2 ≡ 0 = rw ((==_iff _ _).0 here) (omega arith) in
      rw (here, near) refl
  | inr away ↦ let moves : (num == 0) ≡ false = ground arith in rw (away, moves) refl
]

-- At a speed of at most light's the transit time is at least the vacuum light time.
pub vacuum-le-typical :
    (p1 p2 : Position) (num den : ℕ)
    → 0 < num
    → num ≤ den
    → (typical : ℕ) × (min_transit_time_ns_eff p1 p2 num den ≡ ok typical)
      × (min_light_time_ns p1 p2 ≤ typical)
unfolding min_light_time_ns transit_ns
vacuum-le-typical p1 p2 num den positive slower = (
  transit_ns p1 p2 num den,
  transit_found p1 p2 num den positive,
  (Covers-iff c_nm_per_ns (dist2 p1 p2) _ (omega arith)).0 (
      slower-Covers c_nm_per_ns num den (dist2 p1 p2) _ (omega arith) slower
        (light_search-Covers (c_nm_per_ns * num) ((den * den) * dist2 p1 p2) (omega arith))),
)

before_or_after : (s t : ℤ) (n : ℕ) → (s +ℤ pos n ≤ℤ t) ⊎ (t <ℤ s +ℤ pos n)
before_or_after s t n = omega arith

outside :
    (t0 : ℤ) (p0 : Position) (t_recv : ℤ) (ps : Position) (u : ℤ)
    → causally_admissible t0 p0 (t_recv +ℤ u) ps ≡ false
    → t_recv -ℤ t0 +ℤ u <ℤ pos (min_light_time_ns p0 ps)
outside t0 p0 t_recv ps u out =
    let cone = admissible-iff-min_light_time t0 p0 (t_recv +ℤ u) ps in
    elim (before_or_after t0 (t_recv +ℤ u) (min_light_time_ns p0 ps)) [
      | inl late ↦ cc (cone.1 late)
      | inr early ↦ omega int_laws
    ]

-- With a signal speed that is a positive fraction of light's, at most 1: a receipt is rejected exactly when it is in no
-- light cone of the emission even with the clock uncertainty credited, admitted exactly when the
-- slower signal explains it, and apparatus-limited in between.
pub classified :
    (t0 : ℤ) (p0 : Position) (t_recv : ℤ) (ps : Position) (u : ℤ) (num den : ℕ)
    → 0 < num
    → num ≤ den
    → (typical : ℕ) × (v : Classified) × (w : Budget) × (min_transit_time_ns_eff p0 ps num den
        ≡ ok typical)
      × (classify_measured_receipt t0 p0 t_recv ps u num den ≡ ok (v, w))
      × ((v ≡ rejected) ↔ (causally_admissible t0 p0 (t_recv +ℤ u) ps ≡ false))
      × ((v ≡ admitted) ↔ (t0 +ℤ pos typical ≤ℤ t_recv +ℤ u))
      × ((v ≡ apparatus_limited) ↔ (
          (causally_admissible t0 p0 (t_recv +ℤ u) ps ≡ true) × (t_recv +ℤ u <ℤ t0 +ℤ pos typical)))
unfolding classify_measured_receipt budget_witness budget_from
classified t0 p0 t_recv ps u num den positive slower =
    let (typical, found, least) = vacuum-le-typical p0 ps num den positive slower in
    let (below, above, between) =
      band_verdicts (t_recv -ℤ t0 +ℤ u) (min_light_time_ns p0 ps) typical least in
    let cone = admissible-iff-min_light_time t0 p0 (t_recv +ℤ u) ps in
    (
      typical,
      (budget_from t0 p0 t_recv ps u num den typical).verdict,
      budget_from t0 p0 t_recv ps u num den typical,
      found,
      rw found refl,
      (
        λ e.
            let early = below.0 e in
            eq_false _ (λ h. let late = cone.0 h in absurd (omega int_laws)),
        λ out. below.1 (outside t0 p0 t_recv ps u out),
      ),
      (λ e. let late = above.0 e in omega int_laws, λ h. above.1 (omega int_laws)),
      (
        λ e. let inside = between.0 e in (cone.1 (omega int_laws), omega int_laws),
        λ (h, early). let late = cone.0 h in between.1 (omega int_laws, omega int_laws),
      ),
    )

band_admitted :
    (adjusted : ℤ) (vacuum typical : ℕ)
    → (band adjusted vacuum typical ≡ admitted)
      ↔ ((pos vacuum ≤ℤ adjusted) × (pos typical ≤ℤ adjusted))
band_admitted adjusted vacuum typical = (λ e. (ground arith, ground arith), λ (e, f). ground arith)

-- A receipt is admitted at or above both floors.
pub admitted_iff :
    (t0 : ℤ) (p0 : Position) (t_recv : ℤ) (ps : Position) (u : ℤ) (num den : ℕ)
    → ((w : Budget) × (budget_witness t0 p0 t_recv ps u num den ≡ ok w) × (w.verdict ≡ admitted))
      ↔ ((t0 +ℤ pos (min_light_time_ns p0 ps) ≤ℤ t_recv +ℤ u)
          × ((typical : ℕ) × (min_transit_time_ns_eff p0 ps num den ≡ ok typical)
              × (t0 +ℤ pos typical ≤ℤ t_recv +ℤ u)))
unfolding budget_witness budget_from
admitted_iff t0 p0 t_recv ps u num den =
    let both = band_admitted (t_recv -ℤ t0 +ℤ u) (min_light_time_ns p0 ps) in
    (
      λ (w, ran, e).
          let (typical, found, made) = bound_value (min_transit_time_ns_eff p0 ps num den) ran in
          let (v, t) = (both typical).0 (ap (λ w. w.verdict) (sym (ok-injective made)) ∙ e) in
          (omega int_laws, (typical, sym found, omega int_laws)),
      λ (v, (typical, found, t)). (
        budget_from t0 p0 t_recv ps u num den typical,
        rw found refl,
        (both typical).1 (omega int_laws, omega int_laws),
      ),
    )
