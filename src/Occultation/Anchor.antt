-- ===== src/Occultation/Anchor.antt =====
-- horizon/occultation.py: the time from which both ends of the interval are searched.
use mathlib.Core.Option.{some-injective}
use horizon_protocol.Prelude.{
  ℕ, ◌+◌, ◌==◌, ◌≡◌, ◌∙◌, refl, sym, inl, inr, Bool, Bool-cases, true, false, not, Option, none,
  some, ℤ, pos, Option-cases, ◌>>=◌, ◌-ℤ◌, ◌<◌, ◌≤ℤ◌, le-max_ℤ, magnitude, raise_if,
  zero_division_error, ok, ok-injective, bound_value, arith,
}
use horizon_protocol.Worldline.{floor_div}
use horizon_protocol.Occultation.{scan, scan_step, hinted, find_anchor}
use horizon_protocol.Occultation.Search.{scan-found}

-- A hint, if there is one, lies in the interval that is searched.
abbrev pub HintWithin : (t_lo t_hi : ℤ) → Option ℤ → Type 0
HintWithin t_lo t_hi none = Unit
HintWithin t_lo t_hi (some t) = (t_lo ≤ℤ t) × (t ≤ℤ t_hi)

pub differ : {b : Bool} → b ≡ true → b ≡ false → ⊥
differ h k = ground arith

pub not_self : (b : Bool) → b ≡ not b → ⊥
not_self true h = cc
not_self false h = cc

module _ (down : ℤ → Bool) (t_lo t_hi : ℤ) where
  abbrev pub Anchor : ℤ → Type 0
  Anchor a = (t_lo ≤ℤ a) × (a ≤ℤ t_hi) × (down a ≡ true)

  hinted-Anchor :
      (t_hint : Option ℤ) (a : ℤ)
      → HintWithin t_lo t_hi t_hint
      → hinted down t_hint ≡ some a
      → Anchor a
  hinted-Anchor none a within h = cc
  hinted-Anchor (some t) a within h = elim (Bool-cases (down t)) [
    | inl is ↦ let same : t ≡ a = ground arith in rw (sym same) (within.0, within.1, is)
    | inr not_down ↦ absurd (ground arith)
  ]

  pub from_hint :
      (t_hint : Option ℤ) (scan_steps : ℕ) (a : ℤ)
      → hinted down t_hint ≡ some a
      → find_anchor down t_lo t_hi t_hint scan_steps ≡ ok (some a)
  unfolding find_anchor
  from_hint t_hint scan_steps a e = rw (e, find_anchor) refl

  abbrev pub scanned : ℕ → Option ℤ
  scanned scan_steps =
      scan down (magnitude (t_hi -ℤ t_lo) + 1) (scan_step down t_lo t_hi scan_steps) t_hi t_lo

  pub from_scan :
      (t_hint : Option ℤ) (scan_steps : ℕ)
      → hinted down t_hint ≡ none
      → find_anchor down t_lo t_hi t_hint scan_steps
        ≡ (raise_if (scan_steps == 0) zero_division_error >>= λ _. ok (scanned scan_steps))
  unfolding find_anchor
  from_scan t_hint scan_steps e = rw (e, find_anchor) refl

  pub find_anchor-Anchor :
      (t_hint : Option ℤ) (scan_steps : ℕ) (a : ℤ)
      → HintWithin t_lo t_hi t_hint
      → find_anchor down t_lo t_hi t_hint scan_steps ≡ ok (some a)
      → Anchor a
  find_anchor-Anchor t_hint scan_steps a within h = elim (Option-cases (hinted down t_hint)) [
    | inr (b, e) ↦
        let same : b ≡ a =
          some-injective b a (ok-injective (sym (from_hint t_hint scan_steps b e) ∙ h)) in
        rw (sym same) (hinted-Anchor t_hint b within e)
    | inl e ↦
        let (go, allowed, found) =
          bound_value (raise_if (scan_steps == 0) zero_division_error)
            (sym (from_scan t_hint scan_steps e) ∙ h) in
        scan-found down (magnitude (t_hi -ℤ t_lo) + 1) (scan_step down t_lo t_hi scan_steps) t_hi
          t_lo a (omega (arith, le-max_ℤ (pos 1) (floor_div (t_hi -ℤ t_lo) scan_steps)))
          (sym (ok-injective found))
  ]

  pub find_anchor-returns :
      (t_hint : Option ℤ) (scan_steps : ℕ)
      → 0 < scan_steps
      → (anchor : Option ℤ) × (find_anchor down t_lo t_hi t_hint scan_steps ≡ ok anchor)
  find_anchor-returns t_hint scan_steps some_steps = elim (Option-cases (hinted down t_hint)) [
    | inr (a, e) ↦ (some a, from_hint t_hint scan_steps a e)
    | inl e ↦
        let many : (scan_steps == 0) ≡ false = ground arith in
        (scanned scan_steps, from_scan t_hint scan_steps e ∙ rw many refl)
  ]
