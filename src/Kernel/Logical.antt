-- ===== src/Kernel/Logical.antt =====
-- horizon/providers/causal_kernel_provider.py: what `classify_logical` decides.
use horizon_protocol.Prelude.{
  ◌≡◌, ◌↔◌, ◌||◌, inl, inr, String, false, Bool-cases, [], ◌∷◌, All, pos, ◌≤ℤ◌, arith, refl,
}
use horizon_protocol.VectorClock.{Clock, counter, leq}
use horizon_protocol.VectorClock.Order.{leq_iff}
use horizon_protocol.Kernel.{
  Relation, invalid, incomparable, equivalent, before, after, logically_concurrent, spacelike,
  apparatus_limited, any_negative, classify_logical,
}

-- Node by node, where a node that a clock omits counts 0.
abbrev pub Below : Clock → Clock → Type 0
Below a b = (k : String) → counter a k ≤ℤ counter b k

abbrev pub NonNegative : Clock → Type 0
NonNegative = All (λ entry. pos 0 ≤ℤ entry.1)

abbrev pub LogicallyHolds : Relation → Clock → Clock → Type 0
LogicallyHolds before a b = NonNegative a × NonNegative b × Below a b × ¬ (Below b a)
LogicallyHolds after a b = NonNegative a × NonNegative b × Below b a × ¬ (Below a b)
LogicallyHolds equivalent a b = NonNegative a × NonNegative b × Below a b × Below b a
LogicallyHolds logically_concurrent a b =
    NonNegative a × NonNegative b × ¬ (Below a b) × ¬ (Below b a)
LogicallyHolds invalid a b = ¬ (NonNegative a × NonNegative b)
LogicallyHolds incomparable a b = ⊥
LogicallyHolds spacelike a b = ⊥
LogicallyHolds apparatus_limited a b = ⊥

any_negative_iff : (a : Clock) → (any_negative a ≡ false) ↔ NonNegative a
unfolding any_negative
any_negative_iff [] = (λ h. tt, λ h. refl)
any_negative_iff ((k, v) ∷ a) = (
  λ h. (ground arith, (any_negative_iff a).0 (ground arith)),
  λ (first, rest). ground (arith, (any_negative_iff a).1 rest),
)

-- Of two vector clocks `classify_logical` reports one relation, and what it asserts holds: that
-- the counters of the one are nowhere above those of the other but not the other way round, that
-- they are equal, that neither is the case, or that a counter is negative.
pub classify_logical_sound : (a b : Clock) → LogicallyHolds (classify_logical a b).relation a b
unfolding classify_logical
classify_logical_sound a b =
    let here = any_negative_iff a in
    let there = any_negative_iff b in
    let ab = leq_iff a b in
    let ba = leq_iff b a in
    elim (Bool-cases (any_negative a || any_negative b)) [
      | inl h ↦ rw h (λ (fine_a, fine_b). ground (arith, here.1 fine_a, there.1 fine_b))
      | inr h ↦
          let fine_a = here.0 (ground arith) in
          let fine_b = there.0 (ground arith) in
          elim (Bool-cases (leq a b)) [
            | inl up ↦ elim (Bool-cases (leq b a)) [
              | inl down ↦ rw (h, up, down) (fine_a, fine_b, ab.0 up, ba.0 down)
              | inr down ↦ rw (h, up, down) (fine_a, fine_b, ab.0 up, λ b. ground (arith, ba.1 b))
            ]
            | inr up ↦ elim (Bool-cases (leq b a)) [
              | inl down ↦ rw (h, up, down) (fine_a, fine_b, ba.0 down, λ u. ground (arith, ab.1 u))
              | inr down ↦
                  rw (h, up, down)
                    (fine_a, fine_b, λ u. ground (arith, ab.1 u), λ d. ground (arith, ba.1 d))
            ]
          ]
    ]
