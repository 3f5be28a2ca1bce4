-- ===== src/Occultation/Interval.antt =====
-- horizon/occultation.py: the interval that the search returns.
use mathlib.Core.Path.{subst}
use horizon_protocol.Prelude.{
  ℕ, ◌+◌, ◌==◌, ◌≡◌, ◌∙◌, ◌↔◌, refl, sym, ◌⊎◌, inl, inr, Bool, Bool-cases, true, false, not, Option,
  none, some, ℤ, pos, Option-cases, ◌+ℤ◌, ◌-ℤ◌, ◌<◌, ◌≤ℤ◌, ◌<ℤ◌, ltb_ℤ, le-max_ℤ, magnitude,
  magnitude-parts, ltb→lt, le_of_ltb, raise_if, zero_division_error, ok, ok-injective, bound_value,
  arith, int_laws,
}
use horizon_protocol.Worldline.{Worldline, floor_div}
use horizon_protocol.Occultation.{
  is_link_down, scan_step, hinted, find_anchor, ends, around, down_interval, occultation_interval,
}
use horizon_protocol.Occultation.Search.{
  bisect_enter-Entry, bisect_exit-Exit, time_after, scan-none,
}
use horizon_protocol.Occultation.Anchor.{
  HintWithin, differ, not_self, Anchor, from_hint, from_scan, find_anchor-Anchor,
  find_anchor-returns,
}

module _ (down : ℤ → Bool) (t_lo t_hi : ℤ) where
  -- An end that is down, and up just outside unless it is the end of what is searched.
  abbrev Start : (a enter : ℤ) → Type 0
  Start a enter =
      (t_lo ≤ℤ enter)
      × (enter ≤ℤ a)
      × (down enter ≡ true)
      × ((enter ≡ t_lo) ⊎ (down (enter -ℤ pos 1) ≡ false))

  abbrev Stop : (a exit : ℤ) → Type 0
  Stop a exit =
      (a ≤ℤ exit)
      × (exit ≤ℤ t_hi)
      × (down exit ≡ true)
      × ((exit ≡ t_hi) ⊎ (down (exit +ℤ pos 1) ≡ false))

  -- An anchor that is down is another time than one that is up.
  apart : (s t : ℤ) → s ≤ℤ t → down s ≡ not (down t) → s <ℤ t
  apart s t le opposite = elim (Bool-cases (ltb_ℤ s t)) [
    | inl lt ↦ ltb→lt _ _ lt
    | inr ge ↦
        let same : s ≡ t = omega (int_laws, le_of_ltb _ _ ge) in
        let own : down t ≡ not (down t) = subst (λ s. down s ≡ not (down t)) same opposite in
        absurd (not_self (down t) own)
  ]

  ends-Start : (a : ℤ) → Anchor down t_lo t_hi a → Start a (ends down t_lo t_hi a).0
  unfolding ends
  ends-Start a (after, before, is) = elim (Bool-cases (down t_lo)) [
    | inl first ↦ rw first (omega arith, after, first, inl refl)
    | inr up ↦
        let (above, below, found, outside) =
          bisect_enter-Entry down (magnitude (a -ℤ t_lo)) t_lo a
            (apart t_lo a after (rw (up, is) refl)) (omega (int_laws, magnitude-parts (a -ℤ t_lo)))
            up is in
        rw up (omega arith, below, found, inr outside)
  ]

  ends-Stop : (a : ℤ) → Anchor down t_lo t_hi a → Stop a (ends down t_lo t_hi a).1
  unfolding ends
  ends-Stop a (after, before, is) = elim (Bool-cases (down t_hi)) [
    | inl last ↦ rw last (before, omega arith, last, inl refl)
    | inr up ↦
        let (above, below, found, outside) =
          bisect_exit-Exit down (magnitude (t_hi -ℤ a)) a t_hi
            (apart a t_hi before (rw (up, is) refl)) (omega (int_laws, magnitude-parts (t_hi -ℤ a)))
            is up in
        rw up (above, omega arith, found, inr outside)
  ]

  -- There is one interval of times that are down.
  abbrev pub Contiguous : Type 0
  Contiguous =
      (s t u : ℤ)
      → t_lo ≤ℤ s
      → s ≤ℤ t
      → t ≤ℤ u
      → u ≤ℤ t_hi
      → down s ≡ true
      → down u ≡ true
      → down t ≡ true

  exact :
      (a enter exit : ℤ)
      → Contiguous
      → Start a enter
      → Stop a exit
      → (t : ℤ) → t_lo ≤ℤ t
      → t ≤ℤ t_hi
      → (down t ≡ true) ↔ ((enter ≤ℤ t) × (t ≤ℤ exit))
  exact a enter exit one (lo, up_to, is_enter, before) (from, hi, is_exit, after) t ge le = (
    λ is. (
      elim before [
        | inl first ↦ rw first ge
        | inr up ↦ elim (Bool-cases (ltb_ℤ t enter)) [
          | inr low ↦ le_of_ltb _ _ low
          | inl outside ↦
              let sooner = ltb→lt _ _ outside in
              let inside =
                one t (enter -ℤ pos 1) enter ge (omega int_laws) (omega int_laws) (omega int_laws)
                  is is_enter in
              absurd (differ inside up)
        ]
      ],
      elim after [
        | inl last ↦ rw last le
        | inr up ↦ elim (Bool-cases (ltb_ℤ exit t)) [
          | inr high ↦ le_of_ltb _ _ high
          | inl outside ↦
              let later = ltb→lt _ _ outside in
              let inside =
                one exit (exit +ℤ pos 1) t (omega int_laws) (omega int_laws) (omega int_laws) le
                  is_exit is in
              absurd (differ inside up)
        ]
      ],
    ),
    λ (low, high). one enter t exit lo low high hi is_enter is_exit,
  )

  -- What a result shows of a time in what is searched: an interval holds exactly the times that
  -- are down, and without one no hint and no time of the scan is down.
  abbrev pub Shows : Option ℤ → ℕ → Option (ℤ × ℤ) → ℤ → Type 0
  Shows t_hint scan_steps (some (enter, exit)) t = (down t ≡ true) ↔ ((enter ≤ℤ t) × (t ≤ℤ exit))
  Shows t_hint scan_steps none t =
      (hinted down t_hint ≡ none)
      × ¬ (
          (i : ℕ) × (time_after i (scan_step down t_lo t_hi scan_steps) t_lo ≡ t) × (down t ≡ true))

  around-Shows :
      (t_hint : Option ℤ) (scan_steps : ℕ) (anchor : Option ℤ)
      → HintWithin t_lo t_hi t_hint
      → find_anchor down t_lo t_hi t_hint scan_steps ≡ ok anchor
      → Contiguous
      → (t : ℤ) → t_lo ≤ℤ t
      → t ≤ℤ t_hi
      → Shows t_hint scan_steps (around down t_lo t_hi anchor) t
  around-Shows t_hint scan_steps (some a) within found one t ge le =
      let is = find_anchor-Anchor down t_lo t_hi t_hint scan_steps a within found in
      exact a (ends down t_lo t_hi a).0 (ends down t_lo t_hi a).1 one (ends-Start a is)
        (ends-Stop a is) t ge le
  around-Shows t_hint scan_steps none within found one t ge le =
      elim (Option-cases (hinted down t_hint)) [
        | inr (b, e) ↦
            let clash =
              ok-injective (sym (from_hint down t_lo t_hi t_hint scan_steps b e) ∙ found) in
            absurd cc
        | inl e ↦
            let (go, allowed, missed) =
              bound_value (raise_if (scan_steps == 0) zero_division_error)
                (sym (from_scan down t_lo t_hi t_hint scan_steps e) ∙ found) in
            (
              e,
              λ (i, at, is). differ is (
                  subst (λ t. down t ≡ false) at
                    (scan-none down (magnitude (t_hi -ℤ t_lo) + 1) i
                      (scan_step down t_lo t_hi scan_steps) t_hi t_lo
                      (le-max_ℤ (pos 1) (floor_div (t_hi -ℤ t_lo) scan_steps)).0
                      (omega (int_laws, magnitude-parts (t_hi -ℤ t_lo))) (sym (ok-injective missed))
                      (rw at le))),
            )
      ]

-- With a positive number of steps the search returns. An interval that it returns is exactly the
-- set of times, in what is searched, at which the link is down; when it returns none, neither the
-- hint nor a time of the scan is down. The times that are down are taken to be one interval, and
-- a hint, when given, to lie in what is searched.
pub occultation_interval_exact :
    (t_lo t_hi : ℤ) (endpoint_a endpoint_b body : Worldline) (radius_nm : ℤ) (t_hint : Option ℤ)
    (scan_steps : ℕ)
    → 0 < scan_steps
    → HintWithin t_lo t_hi t_hint
    → Contiguous (λ t. is_link_down t endpoint_a endpoint_b body radius_nm) t_lo t_hi
    → (t : ℤ) → t_lo ≤ℤ t
    → t ≤ℤ t_hi
    → (result : Option (ℤ × ℤ)) × (occultation_interval t_lo t_hi endpoint_a endpoint_b body
          radius_nm t_hint scan_steps
        ≡ ok result)
      × Shows
          (λ t. is_link_down t endpoint_a endpoint_b body radius_nm)
          t_lo
          t_hi
          t_hint
          scan_steps
          result
          t
unfolding occultation_interval down_interval
occultation_interval_exact t_lo t_hi endpoint_a endpoint_b body radius_nm t_hint scan_steps
      some_steps within one t ge le =
    let down = λ (t : ℤ). is_link_down t endpoint_a endpoint_b body radius_nm in
    let (anchor, found) = find_anchor-returns down t_lo t_hi t_hint scan_steps some_steps in
    (
      around down t_lo t_hi anchor,
      rw found refl,
      around-Shows down t_lo t_hi t_hint scan_steps anchor within found one t ge le,
    )
