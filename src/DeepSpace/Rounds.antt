-- ===== src/DeepSpace/Rounds.antt =====
-- horizon/beq.py: how the adversary's bound depends on the number of rounds.
use native.Mathlib.Nat.{
  pow-suc, pow-le-pow_left, le_trans, mul-le-mul, mul-le-mul_right, mul-le-mul_left,
  le_of_mul-le-mul_left,
}
use native.Mathlib.Numerals.{unary_clauses}
use horizon_protocol.Prelude.{
  ℕ, zero, suc, ◌+◌, ◌*◌, ◌^◌, ◌≤◌, ◌<◌, ◌≡◌, refl, ◌↔◌, ◌&&◌, true, pos, *ℤ-pos, magnitude, ok,
  arith, ltb→lt, lt→ltb, ◌-◌,
}
use horizon_protocol.DeepSpace.{
  Fraction, fraction, below, at_most, power, whole, float_limit, to_float, adversary_success_bound,
  Beq, beq_verdict,
}

-- Fractions of natural numbers are compared by cross multiplication.
at_most_iff :
    (a b c d : ℕ)
    → (at_most (record { num = pos a; den = b }) (record { num = pos c; den = d }) ≡ true)
      ↔ (a * d ≤ c * b)
at_most_iff a b c d = rw (*ℤ-pos a d, *ℤ-pos c b) (ground arith)

below_iff :
    (a b c d : ℕ)
    → (below (record { num = pos a; den = b }) (record { num = pos c; den = d }) ≡ true)
      ↔ (a * d < c * b)
below_iff a b c d = rw (*ℤ-pos a d, *ℤ-pos c b) (ground arith)

abbrev of_naturals : ℕ → ℕ → Fraction
of_naturals n d = record { num = pos n; den = d }

-- A gap between 0 and 1 passes the guard.
in_unit :
    (num den : ℕ)
    → 0 < num
    → num < den
    → (below (whole 0) (of_naturals num den) && below (of_naturals num den) (whole 1)) ≡ true
in_unit num den h k =
    let low = (below_iff 0 1 num den).1 (omega arith) in
    let high = (below_iff num den 1 1).1 (omega arith) in rw (low, high) refl

bound_runs :
    (k num den : ℕ)
    → 0 < num
    → num < den
    → adversary_success_bound (pos k) (pos num) (pos den) ≡ ok (of_naturals (num ^ k) (den ^ k))
unfolding adversary_success_bound fraction power magnitude
bound_runs k num zero h g = absurd (omega arith)
bound_runs k num (suc d) h g = rw (in_unit num (suc d) h g) refl

some-lt-float_limit : 1 < float_limit
unfolding float_limit
some-lt-float_limit = ltb→lt 1 (2 ^ 1024 - 2 ^ 970) refl

pow_filled : (den k : ℕ) → 0 < den → 0 < den ^ k
pow_filled den zero h = simp unary_clauses (omega arith)
pow_filled den (suc k) h =
    let more : 1 * 1 ≤ den ^ k * den = mul-le-mul (pow_filled den k h) h in
    rw (pow-suc den k) (omega (arith, more))

-- The bound is at most 1, which a float can hold.
bound_fits :
    (k num den : ℕ) → 0 < den → num < den → to_float (of_naturals (num ^ k) (den ^ k)) ≡ ok tt
unfolding to_float magnitude
bound_fits k num den h g =
    let small : num ^ k ≤ den ^ k = pow-le-pow_left (omega arith) k in
    let room : 2 * den ^ k ≤ float_limit * den ^ k =
      mul-le-mul_right (den ^ k) some-lt-float_limit in
    let filled : 0 < den ^ k = pow_filled den k h in
    let fits = lt→ltb (num ^ k) (float_limit * den ^ k) (omega arith) in rw fits refl

target_fits : (n d : ℕ) → n < float_limit * d → to_float (of_naturals n d) ≡ ok tt
unfolding to_float magnitude
target_fits n d h = let fits = lt→ltb n (float_limit * d) h in rw fits refl

-- The verdict compares powers.
pub beq_verdict_runs :
    (k num den target_num target_den : ℕ)
    → 0 < num
    → num < den
    → 0 < target_den
    → target_num < float_limit * target_den
    → (b : Beq) × (beq_verdict (pos k) (pos num) (pos den) (pos target_num) (pos target_den) ≡ ok b)
      × ((b.meets_target ≡ true) ↔ (num ^ k * target_den ≤ target_num * den ^ k))
unfolding beq_verdict fraction
beq_verdict_runs k num den tn zero p q r f = absurd (omega arith)
beq_verdict_runs k num den tn (suc td) p q r f = (
  record {
    k_committed = pos k;
    adversary_bound = of_naturals (num ^ k) (den ^ k);
    meets_target = at_most (of_naturals (num ^ k) (den ^ k)) (of_naturals tn (suc td));
  },
  rw (bound_runs k num den p q, bound_fits k num den (omega arith) q, target_fits tn (suc td) f)
      refl,
  at_most_iff (num ^ k) (den ^ k) tn (suc td),
)

-- Bernoulli's inequality: `(den / num) ^ k` grows at least as `1 + k / num`.
bernoulli : (k num den : ℕ) → num < den → num ^ k * (num + k) ≤ num * den ^ k
bernoulli zero num den h = simp unary_clauses (omega arith)
bernoulli (suc k) num den h =
    let more : num * (num + suc k) ≤ (num + k) * (num + 1) = omega arith in
    let step : num ^ k * (num * (num + suc k)) ≤ num ^ k * ((num + k) * (num + 1)) =
      mul-le-mul_left (num ^ k) more in
    let wider : num ^ k * (num + k) * (num + 1) ≤ num * den ^ k * den =
      mul-le-mul (bernoulli k num den h) (omega arith) in
    rw (pow-suc num k, pow-suc den k)
      (le_trans (omega arith)
        (le_trans step (le_trans (omega arith) (le_trans wider (omega arith)))))

enough_power : (k num den td : ℕ) → 0 < num → num < den → num * td ≤ k → num ^ k * td ≤ den ^ k
enough_power k num den td h g enough =
    let room : num ^ k * (num * td) ≤ num ^ k * (num + k) =
      mul-le-mul_left (num ^ k) (omega arith) in
    let scaled : num * (num ^ k * td) ≤ num * den ^ k =
      le_trans (omega arith) (le_trans room (bernoulli k num den g)) in
    le_of_mul-le-mul_left scaled h

-- For a gap `num / den` strictly between 0 and 1 and a positive target that a float can hold, the
-- verdict does not fail and every number of rounds from `num * target_den` on meets the target.
pub beq_verdict_enough :
    (k num den target_num target_den : ℕ)
    → 0 < num
    → num < den
    → 0 < target_num
    → 0 < target_den
    → target_num < float_limit * target_den
    → num * target_den ≤ k
    → (b : Beq) × (beq_verdict (pos k) (pos num) (pos den) (pos target_num) (pos target_den) ≡ ok b)
      × (b.meets_target ≡ true)
beq_verdict_enough k num den tn td h g t r fits enough =
    let (b, runs, meets) = beq_verdict_runs k num den tn td h g r fits in
    let power : num ^ k * td ≤ den ^ k = enough_power k num den td h g enough in
    let target : 1 * den ^ k ≤ tn * den ^ k = mul-le-mul_right (den ^ k) t in
    (b, runs, meets.1 (omega (arith, power, target)))
