-- ===== src/Capture/Receipts.antt =====
-- horizon/capture_verify.py: what the verdict on one receipt says.
use native.Mathlib.Decide.{dec_lt}
use horizon_protocol.Prelude.{
  ℕ, ◌≡◌, refl, ◌↔◌, ◌⊎◌, inl, inr, text_key, true, false, ℤ, pos, ◌+ℤ◌, ◌-ℤ◌, ◌*ℤ◌, ◌≤ℤ◌, ◌<ℤ◌,
  leb_ℤ, magnitude, magnitude-parts, parts_disjoint, int_laws, arith, Bool-cases, leb→le, gt_of_leb,
  eq_false, +ℤ_parts, -ℤ_parts, ◌+◌, pos_part, neg_part, sym, ap, ◌∙◌, ◌≢◌, ◌==◌, ==_iff, Result,
  ok, raise, zero_division_error, raise≢ok, ok-injective, bound_value,
}
use horizon_protocol.Geometry.{Position, dist2, min_light_time_ns, causally_admissible}
use horizon_protocol.Geometry.Floor.{admissible-iff-min_light_time}
use horizon_protocol.Measure.{transit_ns, min_transit_time_ns_eff, Classified, admitted, rejected}
use horizon_protocol.Capture.{Resolution, resolve, classify, classify_from}

module _ (eff : ℤ) (vacuum typical : ℕ) (band : ℤ) where
  -- An adjusted time farther than the band from the typical floor.
  abbrev Clear : Type 0
  Clear = (pos typical +ℤ band <ℤ eff) ⊎ (eff +ℤ band <ℤ pos typical)

  resolve-rejected : (resolve eff vacuum typical band ≡ rejected) ↔ (eff <ℤ pos vacuum)
  unfolding resolve
  resolve-rejected = ground arith

  clear_iff : (leb_ℤ (pos (magnitude (eff -ℤ pos typical))) band ≡ false) ↔ Clear
  clear_iff =
      let gap = eff -ℤ pos typical in
      let size = magnitude-parts gap in
      let sign = parts_disjoint gap in
      let split : pos_part gap + neg_part eff + typical ≡ neg_part gap + pos_part eff =
        omega (arith, -ℤ_parts eff (pos typical)) in
      let above = +ℤ_parts (pos typical) band in
      let below = +ℤ_parts eff band in
      (
        λ h. let far = gt_of_leb _ _ h in apart far,
        λ h. eq_false _ (λ near.
            let le = leb→le _ _ near in
            elim h [ inl up ↦ absurd (omega arith) | inr down ↦ absurd (omega arith) ]),
      )
    where
      apart : band <ℤ pos (magnitude (eff -ℤ pos typical)) → Clear
      apart far = elim (dec_lt (pos_part (eff -ℤ pos typical)) 1) [
        | yes no_more ↦ inr (omega (int_laws, magnitude-parts (eff -ℤ pos typical)))
        | no more ↦ inl (
            omega
              (int_laws, magnitude-parts (eff -ℤ pos typical), parts_disjoint (eff -ℤ pos typical)))
      ]

  resolve-admitted : (resolve eff vacuum typical band ≡ admitted) ↔ ((pos vacuum ≤ℤ eff) × Clear)
  unfolding resolve
  resolve-admitted =
      let far = clear_iff in
      (
        λ h. (ground arith, far.0 (ground arith)),
        λ (late, clear). let apart = far.1 clear in ground arith,
      )

-- The verdict for a given time at the declared speed.
classify_from_iff :
    (t0 : ℤ) (p0 : Position) (recv : ℤ) (p : Position) (u : ℤ) (typical : ℕ)
    → let v = (classify_from t0 p0 recv p u typical).0 in
      let expected = t0 +ℤ pos typical in
      let adjusted = recv +ℤ u in
      ((v ≡ rejected) ↔ (causally_admissible t0 p0 adjusted p ≡ false))
      × ((v ≡ admitted) ↔ (
          (t0 +ℤ pos (min_light_time_ns p0 p) ≤ℤ adjusted)
          × ((expected +ℤ pos 2 *ℤ u <ℤ adjusted) ⊎ (adjusted +ℤ pos 2 *ℤ u <ℤ expected))))
unfolding classify_from
classify_from_iff t0 p0 recv p u typical =
    let eff = recv -ℤ t0 +ℤ u in
    let vacuum = min_light_time_ns p0 p in
    let early = resolve-rejected eff vacuum typical (pos 2 *ℤ u) in
    let fine = resolve-admitted eff vacuum typical (pos 2 *ℤ u) in
    let cone = admissible-iff-min_light_time t0 p0 (recv +ℤ u) p in
    (
      (
        λ h.
            eq_false _ (λ inside.
              let late = cone.0 inside in let soon = early.0 h in absurd (omega int_laws)),
        λ h. early.1 (outside cone h),
      ),
      (
        λ h.
            let (late, clear) = fine.0 h in
            (
              omega int_laws,
              (elim clear [ inl a ↦ inl (omega int_laws) | inr b ↦ inr (omega int_laws) ]),
            ),
        λ (late, clear). fine.1 (
          omega int_laws,
          (elim clear [ inl a ↦ inl (omega int_laws) | inr b ↦ inr (omega int_laws) ]),
        ),
      ),
    )
  where
    outside :
        (causally_admissible t0 p0 (recv +ℤ u) p ≡ true)
          ↔ (t0 +ℤ pos (min_light_time_ns p0 p) ≤ℤ recv +ℤ u)
        → causally_admissible t0 p0 (recv +ℤ u) p ≡ false
        → recv -ℤ t0 +ℤ u <ℤ pos (min_light_time_ns p0 p)
    outside cone h =
        elim (dec_lt (pos_part (recv -ℤ t0 +ℤ u))
          (min_light_time_ns p0 p + neg_part (recv -ℤ t0 +ℤ u))) [
            | yes soon ↦ omega arith
            | no late ↦ cc (cone.1 (omega int_laws))
          ]

-- The time at the declared speed, if there is one.
abbrev pub Typical : Position → Position → (num den : ℕ) → ℕ → Type 0
Typical p0 p num den typical = min_transit_time_ns_eff p0 p num den ≡ ok typical

Typical-error :
    (p0 p : Position) (num den : ℕ)
    → ((num ≡ 0) × (dist2 p0 p ≢ 0))
      ⊎ ((typical : ℕ) × Typical p0 p num den typical × ¬ ((num ≡ 0) × (dist2 p0 p ≢ 0)))
unfolding min_transit_time_ns_eff
Typical-error p0 p num den = elim (Bool-cases (dist2 p0 p == 0)) [
  | inl here ↦ inr (0, rw here refl, λ (_, away). away ((==_iff _ _).0 here))
  | inr away ↦ elim (Bool-cases (num == 0)) [
    | inl still ↦ inl ((==_iff _ _).0 still, λ e. let here = (==_iff _ _).1 e in cc)
    | inr moves ↦ inr (
      transit_ns p0 p num den,
      rw (away, moves) refl,
      λ (e, _). let still = (==_iff _ _).1 e in cc,
    )
  ]
]

typical_raises :
    (p0 p : Position) (num den : ℕ)
    → num ≡ 0
    → dist2 p0 p ≢ 0
    → min_transit_time_ns_eff p0 p num den ≡ raise zero_division_error
unfolding min_transit_time_ns_eff
typical_raises p0 p num den e away =
    let far : (dist2 p0 p == 0) ≡ false = eq_false _ (λ h. away ((==_iff _ _).0 h)) in
    let still : (num == 0) ≡ true = (==_iff _ _).1 e in rw (far, still) refl

pub classify_runs :
    (t0 : ℤ) (p0 : Position) (recv : ℤ) (p : Position) (u : ℤ) (num den : ℕ) {typical : ℕ}
    → Typical p0 p num den typical
    → classify t0 p0 recv p u num den ≡ ok (classify_from t0 p0 recv p u typical)
unfolding classify
classify_runs t0 p0 recv p u num den found = rw found refl

-- `classify` gives the verdict.
abbrev pub Gives : Result (Classified × Resolution) → Classified → Type 0
Gives m v = (w : Resolution) × (m ≡ ok (v, w))

Gives-iff :
    (t0 : ℤ) (p0 : Position) (recv : ℤ) (p : Position) (u : ℤ) (num den : ℕ) (v : Classified)
    → Gives (classify t0 p0 recv p u num den) v ↔ (
        (typical : ℕ) × Typical p0 p num den typical
        × ((classify_from t0 p0 recv p u typical).0 ≡ v))
unfolding classify
Gives-iff t0 p0 recv p u num den v = (
  λ (w, ran).
      let (typical, found, made) = bound_value (min_transit_time_ns_eff p0 p num den) ran in
      (typical, sym found, ap (λ x. x.0) (sym (ok-injective made))),
  λ (typical, found, e). (
    (classify_from t0 p0 recv p u typical).1,
    rw found (ap (λ v. ok (v, (classify_from t0 p0 recv p u typical).1)) e),
  ),
)

-- The classification raises exactly when the declared speed is 0 and the receipt is from another
-- place than the emission. Else a receipt is rejected exactly when its time, with the uncertainty
-- of the clock in its favour, is out of the future light cone of the emission, and admitted exactly
-- when it is not out of it and its time so adjusted lies farther than twice the uncertainty from
-- the time at the declared speed: after it, or before it.
pub classify_iff :
    (t0 : ℤ) (p0 : Position) (recv : ℤ) (p : Position) (u : ℤ) (num den : ℕ)
    → let result = classify t0 p0 recv p u num den in
      let adjusted = recv +ℤ u in
      ((result ≡ raise zero_division_error) ↔ ((num ≡ 0) × (dist2 p0 p ≢ 0)))
      × (Gives result rejected
          ↔ ((¬ ((num ≡ 0) × (dist2 p0 p ≢ 0))) × (causally_admissible t0 p0 adjusted p ≡ false)))
      × (Gives result admitted ↔ (
          (typical : ℕ) × Typical p0 p num den typical
          × (t0 +ℤ pos (min_light_time_ns p0 p) ≤ℤ adjusted)
          × ((t0 +ℤ pos typical +ℤ pos 2 *ℤ u <ℤ adjusted)
              ⊎ (adjusted +ℤ pos 2 *ℤ u <ℤ t0 +ℤ pos typical))))
unfolding classify
classify_iff t0 p0 recv p u num den =
    let sure = λ (typical : ℕ). classify_from_iff t0 p0 recv p u typical in
    let gives = Gives-iff t0 p0 recv p u num den in
    let fails = Typical-error p0 p num den in
    let bad = typical_raises p0 p num den in
    (
      (
        λ e. elim fails [
          | inl h ↦ h
          | inr (typical, found, _) ↦
              absurd (raise≢ok (sym e ∙ classify_runs t0 p0 recv p u num den found))
        ],
        λ (still, away). rw (bad still away) refl,
      ),
      (
        λ h.
            let (typical, found, e) = (gives rejected).0 h in
            (
              λ (still, away). absurd (raise≢ok (sym (bad still away) ∙ found)),
              (sure typical).0.0 e,
            ),
        λ (moves, out). elim fails [
          | inl h ↦ absurd (moves h)
          | inr (typical, found, _) ↦ (gives rejected).1 (typical, found, (sure typical).0.1 out)
        ],
      ),
      (
        λ h.
            let (typical, found, e) = (gives admitted).0 h in
            let (late, clear) = (sure typical).1.0 e in (typical, found, late, clear),
        λ (typical, found, late, clear).
            (gives admitted).1 (typical, found, (sure typical).1.1 (late, clear)),
      ),
    )
