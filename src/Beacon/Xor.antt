-- ===== src/Beacon/Xor.antt =====
-- `x ^ y` of Python: facts about the native `bit_xor`, by its lowest digits.
use Prim.Native.Nat.{digits, differ, bit_xor, bit_xor-bitwise}
use horizon_protocol.Prelude.{ℕ, zero, suc, ◌+◌, ◌*◌, ◌/◌, ◌%◌, ◌^◌, ◌≤◌, ◌<◌, ◌≡◌, refl, arith}

-- What is left of the digits when there is enough fuel for the first number.
abbrev by_digits : ℕ → ℕ → ℕ → ℕ
by_digits n a b = digits (λ b. b) differ n a b

by_digits_enough : (n m a b : ℕ) → a ≤ n → a ≤ m → by_digits n a b ≡ by_digits m a b
by_digits_enough zero zero a b p q = refl
by_digits_enough zero (suc m) zero b p q = refl
by_digits_enough zero (suc m) (suc a) b p q = absurd (omega arith)
by_digits_enough (suc n) zero zero b p q = refl
by_digits_enough (suc n) zero (suc a) b p q = absurd (omega arith)
by_digits_enough (suc n) (suc m) zero b p q = refl
by_digits_enough (suc n) (suc m) (suc a) b p q =
    let rest = by_digits_enough n m (suc a / 2) (b / 2) (omega arith) (omega arith) in
    omega (arith, rest)

differ_digit : (x y : ℕ) → x < 2 → y < 2 → differ x y ≡ (x + y) % 2
differ_digit zero y p q = omega arith
differ_digit (suc zero) zero p q = refl
differ_digit (suc zero) (suc y) p q = omega arith
differ_digit (suc (suc x)) y p q = absurd (omega arith)

pub bit_xor-zero_left : (b : ℕ) → bit_xor 0 b ≡ b
bit_xor-zero_left b = bit_xor-bitwise 0 b

-- The lowest digit of the result, and the rest of it.
bit_xor_step : (a b : ℕ) → bit_xor a b ≡ bit_xor (a / 2) (b / 2) * 2 + (a % 2 + b % 2) % 2
bit_xor_step zero b = omega (arith, bit_xor-zero_left b, bit_xor-zero_left (b / 2))
bit_xor_step (suc a) b =
    let whole = bit_xor-bitwise (suc a) b in
    let rest = bit_xor-bitwise (suc a / 2) (b / 2) in
    let same = by_digits_enough a (suc a / 2) (suc a / 2) (b / 2) (omega arith) (omega arith) in
    let low = differ_digit (suc a % 2) (b % 2) (omega arith) (omega arith) in
    omega (arith, whole, rest, same, low)

-- A result and one number determine the other.
cancel_fuel : (n a b c : ℕ) → a ≤ n → b ≤ n → bit_xor a c ≡ bit_xor b c → a ≡ b
cancel_fuel zero a b c p q h = omega arith
cancel_fuel (suc n) a b c p q h =
    let upper : bit_xor (a / 2) (c / 2) ≡ bit_xor (b / 2) (c / 2) =
      omega (arith, h, bit_xor_step a c, bit_xor_step b c) in
    let same = cancel_fuel n (a / 2) (b / 2) (c / 2) (omega arith) (omega arith) upper in
    omega (arith, h, bit_xor_step a c, bit_xor_step b c, same)

pub bit_xor-cancel : (a b c : ℕ) → bit_xor a c ≡ bit_xor b c → a ≡ b
bit_xor-cancel a b c h = cancel_fuel (a + b) a b c (omega arith) (omega arith) h

comm_fuel : (n a b : ℕ) → a ≤ n → b ≤ n → bit_xor a b ≡ bit_xor b a
comm_fuel zero a b p q = let e : a ≡ b = omega arith in rw e refl
comm_fuel (suc n) a b p q = omega (
  arith,
  bit_xor_step a b,
  bit_xor_step b a,
  comm_fuel n (a / 2) (b / 2) (omega arith) (omega arith),
)

pub bit_xor_comm : (a b : ℕ) → bit_xor a b ≡ bit_xor b a
bit_xor_comm a b = comm_fuel (a + b) a b (omega arith) (omega arith)

assoc_fuel :
    (n a b c : ℕ) → a ≤ n → b ≤ n → c ≤ n → bit_xor (bit_xor a b) c ≡ bit_xor a (bit_xor b c)
assoc_fuel zero zero zero zero p q r = refl
assoc_fuel zero (suc a) b c p q r = absurd (omega arith)
assoc_fuel zero zero (suc b) c p q r = absurd (omega arith)
assoc_fuel zero zero zero (suc c) p q r = absurd (omega arith)
assoc_fuel (suc n) a b c p q r =
    let upper = assoc_fuel n (a / 2) (b / 2) (c / 2) (omega arith) (omega arith) (omega arith) in
    let left : bit_xor a b / 2 ≡ bit_xor (a / 2) (b / 2) = omega (arith, bit_xor_step a b) in
    let right : bit_xor b c / 2 ≡ bit_xor (b / 2) (c / 2) = omega (arith, bit_xor_step b c) in
    let whole = bit_xor_step (bit_xor a b) c in
    let other = bit_xor_step a (bit_xor b c) in
    omega (arith, rw left at whole, rw right at other, upper, bit_xor_step a b, bit_xor_step b c)

pub bit_xor_assoc : (a b c : ℕ) → bit_xor (bit_xor a b) c ≡ bit_xor a (bit_xor b c)
bit_xor_assoc a b c = assoc_fuel (a + b + c) a b c (omega arith) (omega arith) (omega arith)

self_fuel : (n a : ℕ) → a ≤ n → bit_xor a a ≡ 0
self_fuel zero zero p = refl
self_fuel zero (suc a) p = absurd (omega arith)
self_fuel (suc n) a p = omega (arith, bit_xor_step a a, self_fuel n (a / 2) (omega arith))

pub bit_xor_self : (a : ℕ) → bit_xor a a ≡ 0
bit_xor_self a = self_fuel a a (omega arith)

-- Numbers of `k` digits give a number of `k` digits.
pub bit_xor-lt : (k a b : ℕ) → a < 2 ^ k → b < 2 ^ k → bit_xor a b < 2 ^ k
bit_xor-lt zero zero zero p q = omega arith
bit_xor-lt zero (suc a) b p q = absurd (omega arith)
bit_xor-lt zero zero (suc b) p q = absurd (omega arith)
bit_xor-lt (suc k) a b p q =
    let step : 2 ^ suc k ≡ 2 * 2 ^ k = omega arith in
    omega (
      arith,
      step,
      bit_xor_step a b,
      bit_xor-lt k (a / 2) (b / 2) (omega (arith, step)) (omega (arith, step)),
    )
