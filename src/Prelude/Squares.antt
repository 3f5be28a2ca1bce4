-- ===== src/Prelude/Squares.antt =====
-- Squares of natural numbers: their order, Cauchy's inequality in three dimensions, and
-- Python's `math.isqrt`.
use Prim.Native.Nat.{ℕ, zero, suc, ◌+◌, ◌-◌, ◌*◌, ◌/◌, ◌≤◌, ◌<◌}
use mathlib.Core.Path.{◌≡◌, refl}
use mathlib.Core.Logic.{inl, inr}
use native.Mathlib.Omega.{arith}
use native.Mathlib.Decide.{dec_lt}
use native.Mathlib.Nat.{le_trans, mul-le-mul}
use horizon_protocol.Prelude.Tests.{leb, ◌==◌, if◌then◌else◌, Bool-cases, leb→le, gt_of_leb}

pub square_mono : (a b : ℕ) → a ≤ b → a * a ≤ b * b
square_mono a b h = grind arith

pub square-cancel_le : (a b : ℕ) → a * a ≤ b * b → a ≤ b
square-cancel_le a b h = elim (dec_lt b a) [
  | yes lt ↦ absurd (omega (arith, square_mono (b + 1) a (omega arith)))
  | no le ↦ omega arith
]

pub square-cancel_lt : (a b : ℕ) → a * a < b * b → a < b
square-cancel_lt a b h = elim (dec_lt a b) [
  | yes lt ↦ lt
  | no le ↦ absurd (omega (arith, square_mono b a (omega arith)))
]

twice_product_from : (x y : ℕ) → x ≤ y → 2 * (x * y) ≤ x * x + y * y
twice_product_from x y h =
    let gap : ℕ = y - x in let e : y ≡ x + gap = omega arith in rw e (omega arith)

-- 2 x y ≤ x² + y².
pub twice_product_le : (x y : ℕ) → 2 * (x * y) ≤ x * x + y * y
twice_product_le x y = elim (dec_lt x y) [
  | yes lt ↦ twice_product_from x y (omega arith)
  | no le ↦ omega (arith, twice_product_from y x (omega arith))
]

pub cauchy :
    (a b c x y z : ℕ)
    → (a * x + b * y + c * z) * (a * x + b * y + c * z)
      ≤ (a * a + b * b + c * c) * (x * x + y * y + z * z)
cauchy a b c x y z = omega (
  arith,
  twice_product_le (a * y) (b * x),
  twice_product_le (a * z) (c * x),
  twice_product_le (b * z) (c * y),
)

-- If (a, b, c) is no longer than `m` and (x, y, z) no longer than `n`, their sum is no longer
-- than `m + n`.
pub add-square_le :
    (a b c x y z m n : ℕ)
    → a * a + b * b + c * c ≤ m * m
    → x * x + y * y + z * z ≤ n * n
    → (a + x) * (a + x) + (b + y) * (b + y) + (c + z) * (c + z) ≤ (m + n) * (m + n)
add-square_le a b c x y z m n h k =
    let dot : ℕ = a * x + b * y + c * z in
    let bound : dot * dot ≤ (m * n) * (m * n) =
      le_trans (cauchy a b c x y z) (le_trans (mul-le-mul h k) (omega arith)) in
    omega (arith, square-cancel_le dot (m * n) bound)

-- `math.isqrt(n)`, digit by digit in base 2: one more digit, then all of them.
isqrt_digit : ℕ → ℕ → ℕ
isqrt_digit n root =
    let half = 2 * root in if leb ((half + 1) * (half + 1)) n then half + 1 else half

isqrt_fuel : ℕ → ℕ → ℕ
isqrt_fuel zero n = 0
isqrt_fuel (suc f) n =
    let longer = isqrt_digit n (isqrt_fuel f (n / 4)) in if n == 0 then 0 else longer

unfoldable pub isqrt : ℕ → ℕ
unfolding isqrt_fuel isqrt_digit
isqrt n = isqrt_fuel n n

abbrev IsRoot : ℕ → ℕ → Type 0
IsRoot n root = (root * root ≤ n) × (n < (root + 1) * (root + 1))

isqrt_digit-IsRoot : (n root : ℕ) → IsRoot (n / 4) root → IsRoot n (isqrt_digit n root)
unfolding isqrt_digit
isqrt_digit-IsRoot n root h = elim (Bool-cases (leb ((2 * root + 1) * (2 * root + 1)) n)) [
  | inl fits ↦ rw fits (leb→le _ _ fits, omega (arith, h.0, h.1))
  | inr not ↦ rw not (omega (arith, h.0, h.1), gt_of_leb _ _ not)
]

isqrt_fuel-IsRoot : (f n : ℕ) → n ≤ f → IsRoot n (isqrt_fuel f n)
unfolding isqrt_fuel
isqrt_fuel-IsRoot zero n h = (omega arith, omega arith)
isqrt_fuel-IsRoot (suc f) n h = elim (Bool-cases (n == 0)) [
  | inl done ↦ rw (done, isqrt_fuel) (omega arith, ground arith)
  | inr more ↦
      rw (more, isqrt_fuel)
        (isqrt_digit-IsRoot n (isqrt_fuel f (n / 4)) (isqrt_fuel-IsRoot f (n / 4) (ground arith)))
]

pub isqrt_le : (n : ℕ) → isqrt n * isqrt n ≤ n
unfolding isqrt
isqrt_le n = (isqrt_fuel-IsRoot n n (omega arith)).0

pub isqrt_lt : (n : ℕ) → n < (isqrt n + 1) * (isqrt n + 1)
unfolding isqrt
isqrt_lt n = (isqrt_fuel-IsRoot n n (omega arith)).1

isqrt_runs : isqrt 1000000000000000000000000000099 ≡ 1000000000000000
unfolding isqrt isqrt_digit
isqrt_runs = refl
