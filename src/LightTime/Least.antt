-- ===== src/LightTime/Least.antt =====
-- The ceiling search of `min_light_time_ns`, its two loops and what they find.
use native.Mathlib.Decide.{dec_lt}
use native.Mathlib.Nat.{le_trans, mul-le-mul_left, mul-le-mul_right}
use native.Mathlib.Numerals.{add-one}
use horizon_protocol.Prelude.{
  ℕ, zero, suc, ◌+◌, ◌*◌, ◌≤◌, ◌<◌, ◌↔◌, inl, inr, arith, ltb, leb, ◌==◌, Bool-cases, square_mono,
  gt_of_leb, le_of_ltb, ltb→lt,
}
use horizon_protocol.LightTime.{walk_down, walk_up, light_search}

-- A signal of this speed covers the squared distance within `dt`.
abbrev pub Covers : ℕ → ℕ → ℕ → Type 0
Covers speed d2 dt = d2 ≤ (speed * dt) * (speed * dt)

-- No earlier time does.
abbrev pub Before : ℕ → ℕ → ℕ → Type 0
Before speed d2 dt = (s : ℕ) → s < dt → (speed * s) * (speed * s) < d2

self_le_square : (n : ℕ) → n ≤ n * n
self_le_square zero = omega arith
self_le_square (suc n) = omega arith

module _ (speed d2 : ℕ) where
  Covers-mono : (s t : ℕ) → s ≤ t → Covers speed d2 s → Covers speed d2 t
  Covers-mono s t h covered = le_trans covered (square_mono _ _ (mul-le-mul_left speed h))

  Before-suc : (dt : ℕ) → (speed * dt) * (speed * dt) < d2 → Before speed d2 (suc dt)
  Before-suc dt h s earlier =
      omega (arith, square_mono (speed * s) (speed * dt) (mul-le-mul_left speed (omega arith)))

  walk_down-Before : (dt : ℕ) → Before speed d2 (walk_down speed d2 dt)
  unfolding walk_down
  walk_down-Before zero = λ s h. elim h [ ]
  walk_down-Before (suc dt) = elim (Bool-cases (leb d2 ((speed * dt) * (speed * dt)))) [
    | inl covered ↦ rw (covered, walk_down) (walk_down-Before dt)
    | inr short ↦ rw (short, walk_down) (Before-suc dt (gt_of_leb _ _ short))
  ]

  walk_up-Before : (fuel dt : ℕ) → Before speed d2 dt → Before speed d2 (walk_up fuel speed d2 dt)
  unfolding walk_up
  walk_up-Before zero dt h = h
  walk_up-Before (suc fuel) dt h = elim (Bool-cases (ltb ((speed * dt) * (speed * dt)) d2)) [
    | inl short ↦
        rw (short, walk_up)
          (walk_up-Before fuel (dt + 1) (rw add-one (Before-suc dt (ltb→lt _ _ short))))
    | inr covered ↦ rw (covered, walk_up) h
  ]

  walk_up-Covers :
      (fuel dt : ℕ) → 0 < speed → d2 ≤ fuel + dt → Covers speed d2 (walk_up fuel speed d2 dt)
  unfolding walk_up
  walk_up-Covers zero dt positive enough =
      let further : dt ≤ speed * dt = omega (arith, mul-le-mul_right dt positive) in
      omega (arith, further, self_le_square (speed * dt))
  walk_up-Covers (suc fuel) dt positive enough =
      elim (Bool-cases (ltb ((speed * dt) * (speed * dt)) d2)) [
        | inl short ↦ rw (short, walk_up) (walk_up-Covers fuel (dt + 1) positive (omega arith))
        | inr covered ↦ rw (covered, walk_up) (le_of_ltb _ _ covered)
      ]

-- The search of a positive speed returns a time that covers the distance, and no earlier time
-- does: `d2` rounds of the last loop suffice.
pub light_search-Covers : (speed d2 : ℕ) → 0 < speed → Covers speed d2 (light_search speed d2)
unfolding light_search
light_search-Covers speed d2 positive = elim (Bool-cases (d2 == 0)) [
  | inl none ↦ rw none (ground arith)
  | inr some ↦ rw some (walk_up-Covers speed d2 d2 _ positive (omega arith))
]

pub light_search-Before : (speed d2 : ℕ) → Before speed d2 (light_search speed d2)
unfolding light_search
light_search-Before speed d2 = elim (Bool-cases (d2 == 0)) [
  | inl none ↦ rw none (λ s h. elim h [ ])
  | inr some ↦ rw some (walk_up-Before speed d2 d2 _ (walk_down-Before speed d2 _))
]

-- A time covers the distance exactly when it is at least the result of the search.
pub Covers-iff : (speed d2 dt : ℕ) → 0 < speed → Covers speed d2 dt ↔ (light_search speed d2 ≤ dt)
Covers-iff speed d2 dt positive = (
  λ covered. elim (dec_lt dt (light_search speed d2)) [
    | yes early ↦ absurd (omega (arith, light_search-Before speed d2 dt early))
    | no late ↦ omega arith
  ],
  λ late. Covers-mono speed d2 _ dt late (light_search-Covers speed d2 positive),
)
