-- ===== src/Occultation/Search.antt =====
-- horizon/occultation.py: the scan for a time that is down, and the two bisections.
use horizon_protocol.Prelude.{
  ℕ, zero, suc, ◌≡◌, sym, inl, inr, Bool, Bool-cases, true, false, none, some, ℤ, pos, negsuc, ◌+ℤ◌,
  ◌-ℤ◌, ◌≤ℤ◌, ◌<ℤ◌, ltb_ℤ, leb_ℤ, leb→le, ltb→lt, le_of_ltb, arith, int_laws,
}
use horizon_protocol.Worldline.{floor_div}
use horizon_protocol.Occultation.{scan, bisect_enter, bisect_exit}

floor_half :
    (z : ℤ) → (floor_div z 2 +ℤ floor_div z 2 ≤ℤ z) × (z ≤ℤ floor_div z 2 +ℤ floor_div z 2 +ℤ pos 1)
unfolding floor_div
floor_half (pos n) = (omega int_laws, omega int_laws)
floor_half (negsuc n) = (omega int_laws, omega int_laws)

-- The middle of an interval of more than one step lies inside.
middle :
    (lo hi : ℤ)
    → lo +ℤ pos 1 <ℤ hi
    → (lo <ℤ floor_div (lo +ℤ hi) 2) × (floor_div (lo +ℤ hi) 2 <ℤ hi)
middle lo hi h =
    let half = floor_half (lo +ℤ hi) in
    (omega (int_laws, half.0, half.1), omega (int_laws, half.0, half.1))

module _ (down : ℤ → Bool) where
  -- What the search for the entry finds: a time that is down, the one before it up.
  abbrev pub Entry : (lo hi t : ℤ) → Type 0
  Entry lo hi t = (lo <ℤ t) × (t ≤ℤ hi) × (down t ≡ true) × (down (t -ℤ pos 1) ≡ false)

  pub bisect_enter-Entry :
      (fuel : ℕ) (lo hi : ℤ)
      → lo <ℤ hi
      → hi ≤ℤ lo +ℤ pos (suc fuel)
      → down lo ≡ false
      → down hi ≡ true
      → Entry lo hi (bisect_enter down fuel lo hi)
  unfolding bisect_enter
  bisect_enter-Entry zero lo hi lt near up dn =
      let last : hi -ℤ pos 1 ≡ lo = omega int_laws in (lt, omega int_laws, dn, rw last up)
  bisect_enter-Entry (suc fuel) lo hi lt near up dn = elim (Bool-cases (ltb_ℤ (pos 1) (hi -ℤ lo))) [
    | inr close ↦
        let last : hi -ℤ pos 1 ≡ lo = omega (int_laws, le_of_ltb _ _ close) in
        rw close (lt, omega int_laws, dn, rw last up)
    | inl wide ↦
        let mid = middle lo hi (omega (int_laws, ltb→lt _ _ wide)) in
        elim (Bool-cases (down (floor_div (lo +ℤ hi) 2))) [
          | inl low ↦
              let (above, below, is, before) =
                bisect_enter-Entry fuel lo (floor_div (lo +ℤ hi) 2) mid.0 (omega int_laws) up low in
              rw (wide, low) (above, omega (int_laws, mid.1), is, before)
          | inr high ↦
              let (above, below, is, before) =
                bisect_enter-Entry fuel (floor_div (lo +ℤ hi) 2) hi mid.1 (omega int_laws) high
                  dn in
              rw (wide, high) (omega (int_laws, mid.0), below, is, before)
        ]
  ]

  -- What the search for the exit finds: a time that is down, the one after it up.
  abbrev pub Exit : (lo hi t : ℤ) → Type 0
  Exit lo hi t = (lo ≤ℤ t) × (t <ℤ hi) × (down t ≡ true) × (down (t +ℤ pos 1) ≡ false)

  pub bisect_exit-Exit :
      (fuel : ℕ) (lo hi : ℤ)
      → lo <ℤ hi
      → hi ≤ℤ lo +ℤ pos (suc fuel)
      → down lo ≡ true
      → down hi ≡ false
      → Exit lo hi (bisect_exit down fuel lo hi)
  unfolding bisect_exit
  bisect_exit-Exit zero lo hi lt near dn up =
      let last : lo +ℤ pos 1 ≡ hi = omega int_laws in (omega int_laws, lt, dn, rw last up)
  bisect_exit-Exit (suc fuel) lo hi lt near dn up = elim (Bool-cases (ltb_ℤ (pos 1) (hi -ℤ lo))) [
    | inr close ↦
        let last : lo +ℤ pos 1 ≡ hi = omega (int_laws, le_of_ltb _ _ close) in
        rw close (omega int_laws, lt, dn, rw last up)
    | inl wide ↦
        let mid = middle lo hi (omega (int_laws, ltb→lt _ _ wide)) in
        elim (Bool-cases (down (floor_div (lo +ℤ hi) 2))) [
          | inl low ↦
              let (above, below, is, after) =
                bisect_exit-Exit fuel (floor_div (lo +ℤ hi) 2) hi mid.1 (omega int_laws) low up in
              rw (wide, low) (omega (int_laws, mid.0), below, is, after)
          | inr high ↦
              let (above, below, is, after) =
                bisect_exit-Exit fuel lo (floor_div (lo +ℤ hi) 2) mid.0 (omega int_laws) dn high in
              rw (wide, high) (above, omega (int_laws, mid.1), is, after)
        ]
  ]

  -- The scan finds a time of the interval that is down.
  pub scan-found :
      (fuel : ℕ) (step t_hi t a : ℤ)
      → pos 0 ≤ℤ step
      → scan down fuel step t_hi t ≡ some a
      → (t ≤ℤ a) × (a ≤ℤ t_hi) × (down a ≡ true)
  unfolding scan
  scan-found zero step t_hi t a fwd h = cc
  scan-found (suc fuel) step t_hi t a fwd h = elim (Bool-cases (leb_ℤ t t_hi)) [
    | inr past ↦ absurd (ground arith)
    | inl in_range ↦ elim (Bool-cases (down t)) [
      | inl here ↦
          let is : t ≡ a = ground arith in rw (sym is) (omega arith, leb→le _ _ in_range, here)
      | inr not_here ↦
          let (later, bounded, is) = scan-found fuel step t_hi (t +ℤ step) a fwd (ground arith) in
          (omega int_laws, bounded, is)
    ]
  ]

-- The times of the scan: `t` after some steps.
unfoldable pub time_after : ℕ → (step t : ℤ) → ℤ
time_after zero step t = t
time_after (suc i) step t = time_after i step (t +ℤ step)

time_after-le : (i : ℕ) (step t : ℤ) → pos 0 ≤ℤ step → t ≤ℤ time_after i step t
unfolding time_after
time_after-le zero step t fwd = omega arith
time_after-le (suc i) step t fwd = omega (int_laws, time_after-le i step (t +ℤ step) fwd)

-- The scan passes no time over: one that it looked at and that is down, it returns.
pub scan-none :
    (down : ℤ → Bool) (fuel i : ℕ) (step t_hi t : ℤ)
    → pos 1 ≤ℤ step
    → t_hi <ℤ t +ℤ pos fuel
    → scan down fuel step t_hi t ≡ none
    → time_after i step t ≤ℤ t_hi
    → down (time_after i step t) ≡ false
unfolding scan time_after
scan-none down zero i step t_hi t fwd enough h le =
    absurd (omega (int_laws, time_after-le i step t (omega arith)))
scan-none down (suc fuel) zero step t_hi t fwd enough h le = elim (Bool-cases (down t)) [
  | inl is ↦ absurd (ground arith)
  | inr not_here ↦ not_here
]
scan-none down (suc fuel) (suc i) step t_hi t fwd enough h le =
    let ahead = time_after-le i step (t +ℤ step) (omega arith) in
    let here : t ≤ℤ t_hi = omega int_laws in
    elim (Bool-cases (down t)) [
      | inl is ↦ absurd (ground arith)
      | inr not_here ↦
          scan-none down fuel i step t_hi (t +ℤ step) fwd (omega int_laws) (ground arith) le
    ]
