-- ===== src/DeepSpace/Target.antt =====
-- horizon/beq.py: when the adversary's bound meets its target.
use horizon_protocol.Prelude.{
  ◌*◌, ◌<◌, ◌≡◌, refl, sym, ◌∙◌, ap, ◌↔◌, Bool, true, false, not, ◌&&◌, ℤ, pos, ◌*ℤ◌, ◌≤ℤ◌, ◌<ℤ◌,
  magnitude, *ℤ_parts, arith, ok, raise≢ok, ok-injective, bound_value, Exception, raise_if,
  value_error, overflow_error, ltb→lt, lt→ltb,
}
use horizon_protocol.DeepSpace.{
  Fraction, fraction, below, at_most, power, whole, adversary_success_bound, float_limit, to_float,
  Beq, beq_verdict,
}

pub passed :
    (test : Bool) (why : Exception) {u : Unit {0}} → raise_if (not test) why ≡ ok u → test ≡ true
passed true why h = refl
passed false why h = absurd (raise≢ok h)

-- The gap is strictly between 0 and 1.
abbrev pub InUnit : Fraction → Type 0
InUnit p = (pos 0 <ℤ p.num) × (p.num <ℤ pos p.den)

InUnit-iff : (p : Fraction) → ((below (whole 0) p && below p (whole 1)) ≡ true) ↔ InUnit p
InUnit-iff p =
    ground
      (arith, *ℤ_parts (pos 0) (pos p.den), *ℤ_parts p.num (pos 1), *ℤ_parts (pos 1) (pos p.den))

-- The bound is the power of a gap in the unit interval.
bound_iff :
    (k gap_num gap_den : ℤ) (limit : Fraction)
    → (adversary_success_bound k gap_num gap_den ≡ ok limit) ↔ (
        (gap : Fraction) × (fraction gap_num gap_den ≡ ok gap) × InUnit gap × (power gap k ≡ limit))
unfolding adversary_success_bound
bound_iff k gap_num gap_den limit = (
  λ ran.
      let (gap, gapped, h) = bound_value (fraction gap_num gap_den) ran in
      let (u, fine, made) =
        bound_value (raise_if (not (below (whole 0) gap && below gap (whole 1))) value_error)
          (sym h) in
      (
        gap,
        sym gapped,
        (InUnit-iff gap).0 (passed _ value_error (sym fine)),
        ok-injective (sym made),
      ),
  λ (gap, gapped, inside, e). let fine = (InUnit-iff gap).1 inside in rw (gapped, fine) (ap ok e),
)

to_float_iff :
    (q : Fraction) {u : Unit {0}} → (to_float q ≡ ok u) ↔ (magnitude q.num < float_limit * q.den)
unfolding to_float
to_float_iff q =
    (λ h. ltb→lt _ _ (passed _ overflow_error h), λ h. let fits = lt→ltb _ _ h in rw fits refl)

-- The bound on adversaries is a power of a gap between 0 and 1 and is at most the target, and a
-- float can hold both.
pub record Met (k gap_num gap_den target_num target_den : ℤ) : Type 0 where
  pub gap : Fraction
  pub target : Fraction
  pub gapped : fraction gap_num gap_den ≡ ok gap
  pub in_unit : InUnit gap
  pub aimed : fraction target_num target_den ≡ ok target
  pub meets : (power gap k).num *ℤ pos target.den ≤ℤ target.num *ℤ pos (power gap k).den
  pub limit_fits : magnitude (power gap k).num < float_limit * (power gap k).den
  pub target_fits : magnitude target.num < float_limit * target.den

at_most_lem : (p q : Fraction) → (at_most p q ≡ true) ↔ (p.num *ℤ pos q.den ≤ℤ q.num *ℤ pos p.den)
at_most_lem p q = ground arith

module _ (k gap_num gap_den target_num target_den : ℤ) where
  abbrev pub Verdict : Beq → Type 0
  Verdict b = beq_verdict k gap_num gap_den target_num target_den ≡ ok b

  -- The verdict has no error and says that the target is met exactly when it is.
  pub beq_verdict_iff :
      ((b : Beq) × Verdict b × (b.meets_target ≡ true))
      ↔ Met k gap_num gap_den target_num target_den
  unfolding beq_verdict
  beq_verdict_iff = (
    λ (b, ran, met).
        let (limit, bounded, h1) = bound_value (adversary_success_bound k gap_num gap_den) ran in
        let (target, aimed, h2) = bound_value (fraction target_num target_den) (sym h1) in
        let (u, first, h3) = bound_value (to_float limit) (sym h2) in
        let (v, second, h4) = bound_value (to_float target) (sym h3) in
        let (gap, gapped, inside, e) = (bound_iff k gap_num gap_den limit).0 (sym bounded) in
        let low =
          (at_most_lem limit target).0 (ap (λ b. b.meets_target) (sym (ok-injective h4)) ∙ met) in
        record {
          gap = gap;
          target = target;
          gapped = gapped;
          in_unit = inside;
          aimed = sym aimed;
          meets = rw e low;
          limit_fits = rw e ((to_float_iff limit).0 (sym first));
          target_fits = (to_float_iff target).0 (sym second);
        },
    λ m.
        let limit : Fraction = power m.gap k in
        let bounded = (bound_iff k gap_num gap_den limit).1 (m.gap, m.gapped, m.in_unit, refl) in
        let first : to_float limit ≡ ok tt = (to_float_iff limit).1 m.limit_fits in
        let second : to_float m.target ≡ ok tt = (to_float_iff m.target).1 m.target_fits in
        (
          record {
            k_committed = k;
            adversary_bound = limit;
            meets_target = at_most limit m.target;
          },
          rw (bounded, m.aimed, first, second) refl,
          (at_most_lem limit m.target).1 m.meets,
        ),
  )
