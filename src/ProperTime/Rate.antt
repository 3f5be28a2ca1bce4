-- ===== src/ProperTime/Rate.antt =====
-- horizon/proper_time.py: clocks as they run, and stamps as they compare.
use native.Mathlib.Nat.{le-div_iff_mul-le, le_trans, le_refl, div-mul-le_self, mul-le-mul}
use horizon_protocol.Prelude.{
  eq_false, *ℤ_parts, ℕ, ◌/◌, ◌≤◌, ◌<◌, ◌≡◌, refl, sym, true, false, text_key, same_key,
  same_key_self, eq_iff, ℤ, pos, negsuc, ◌+ℤ◌, ◌-ℤ◌, ◌*ℤ◌, ◌≤ℤ◌, ok, raise, value_error, arith,
  int_laws,
}
use horizon_protocol.Worldline.{floor_div}
use horizon_protocol.ProperTime.{
  ProperTimeStamp, ProperTimeClock, guard, equals, less, at_most, greater, at_least, tau_at,
  stamp_at,
}

floor_div_mono : (a b : ℤ) (den : ℕ) → 0 < den → a ≤ℤ b → floor_div a den ≤ℤ floor_div b den
unfolding floor_div
floor_div_mono (pos a) (pos b) den h le =
    let fits : a / den ≤ b / den =
      (le-div_iff_mul-le h).1 (le_trans (div-mul-le_self a den) (omega arith)) in
    omega arith
floor_div_mono (pos a) (negsuc b) den h le = omega arith
floor_div_mono (negsuc a) (pos b) den h le = omega arith
floor_div_mono (negsuc a) (negsuc b) den h le =
    let fits : b / den ≤ a / den =
      (le-div_iff_mul-le h).1 (le_trans (div-mul-le_self b den) (omega arith)) in
    omega arith

scale_mono : (num a b : ℤ) → pos 0 ≤ℤ num → a ≤ℤ b → num *ℤ a ≤ℤ num *ℤ b
scale_mono (negsuc n) a b h le = absurd (omega arith)
scale_mono (pos n) a b h le =
    omega (arith, *ℤ_parts (pos n) a, *ℤ_parts (pos n) b, mul-le-mul (le_refl n) le)

-- A clock whose rate is not negative, over a positive denominator, never runs backwards, and its
-- own stamps compare as the coordinate times do: a later one is at least an earlier one.
pub stamp_at-at_most :
    (c : ProperTimeClock) (s t : ℤ)
    → 0 < c.rate_den
    → pos 0 ≤ℤ c.rate_num
    → s ≤ℤ t
    → (tau_at c s ≤ℤ tau_at c t) × (at_most (stamp_at c s) (stamp_at c t) ≡ ok true)
unfolding tau_at stamp_at at_most guard
stamp_at-at_most c s t den num le =
    let ahead =
      floor_div_mono (c.rate_num *ℤ (s -ℤ c.t0_coord_ns)) (c.rate_num *ℤ (t -ℤ c.t0_coord_ns))
        c.rate_den den
        (scale_mono c.rate_num (s -ℤ c.t0_coord_ns) (t -ℤ c.t0_coord_ns) num (omega int_laws)) in
    let mono : (c.tau0_ns +ℤ floor_div (c.rate_num *ℤ (s -ℤ c.t0_coord_ns)) c.rate_den)
        ≤ℤ (c.tau0_ns +ℤ floor_div (c.rate_num *ℤ (t -ℤ c.t0_coord_ns)) c.rate_den) =
      omega int_laws in
    (mono, rw (same_key_self c.node_id) (ground arith))

-- Stamps of different nodes are never compared: each of the five comparisons raises an error.
pub comparisons_guarded :
    (a b : ProperTimeStamp)
    → ¬ (a.node_id ≡ b.node_id)
    → (equals a b ≡ raise value_error)
      × (less a b ≡ raise value_error)
      × (at_most a b ≡ raise value_error)
      × (greater a b ≡ raise value_error)
      × (at_least a b ≡ raise value_error)
unfolding equals less at_most greater at_least guard
comparisons_guarded a b apart =
    let differ : same_key b.node_id a.node_id ≡ false =
      eq_false _ (λ e. apart (sym ((eq_iff b.node_id a.node_id).0 e))) in
    rw differ (refl, refl, refl, refl, refl)
