-- ===== src/Occultation.antt =====
-- horizon/occultation.py: when a body stands in the way of a link, and the interval in which it
-- does. The source's type checks are the types here, and `scan_steps` is not negative.
pub mod Search
pub mod Anchor
pub mod Interval
mod Tests
use horizon_protocol.Prelude.{
  ℕ, zero, suc, ◌+◌, ◌==◌, Bool, true, false, Option, none, some, ℤ, pos, ◌+ℤ◌, ◌-ℤ◌, ◌*ℤ◌, ltb_ℤ,
  leb_ℤ, eqb_ℤ, max_ℤ, magnitude, Result, ok, raise_if, zero_division_error, ◌>>=◌, ◌>>◌,
  if◌then◌else◌,
}
use horizon_protocol.Geometry.{Position}
use horizon_protocol.Worldline.{Worldline, position_at, floor_div}

-- `_sub` and `_dot`
unfoldable pub sub : Position → Position → Position
sub a b = record { x = a.x -ℤ b.x; y = a.y -ℤ b.y; z = a.z -ℤ b.z }

unfoldable pub dot : Position → Position → ℤ
dot a b = a.x *ℤ b.x +ℤ a.y *ℤ b.y +ℤ a.z *ℤ b.z

-- The test once the three positions are known.
unfoldable pub segment_meets : (a b c : Position) → (r2 : ℤ) → Bool
segment_meets a b c r2 =
    let ab = sub b a in
    let ac = sub c a in
    let ab2 = dot ab ab in
    let ac_ab = dot ac ab in
    if eqb_ℤ ab2 (pos 0)
    then leb_ℤ (dot ac ac) r2
    else if leb_ℤ ac_ab (pos 0)
    then leb_ℤ (dot ac ac) r2
    else if leb_ℤ ab2 ac_ab
    then leb_ℤ (dot (sub c b) (sub c b)) r2
    else leb_ℤ (dot ac ac *ℤ ab2 -ℤ ac_ab *ℤ ac_ab) (r2 *ℤ ab2)

unfoldable pub is_link_down : ℤ → (endpoint_a endpoint_b body : Worldline) → (radius_nm : ℤ) → Bool
unfolding segment_meets
is_link_down t endpoint_a endpoint_b body radius_nm =
    segment_meets (position_at endpoint_a t) (position_at endpoint_b t) (position_at body t)
      (radius_nm *ℤ radius_nm)

module _ (down : ℤ → Bool) where
  -- `while t <= t_hi`, on fuel: the first time of the scan that is down.
  unfoldable pub scan : ℕ → (step t_hi t : ℤ) → Option ℤ
  scan zero step t_hi t = none
  scan (suc fuel) step t_hi t =
      let rest = scan fuel step t_hi (t +ℤ step) in
      if leb_ℤ t t_hi then (if down t then some t else rest) else none

  abbrev pub scan_step : (t_lo t_hi : ℤ) → (scan_steps : ℕ) → ℤ
  scan_step t_lo t_hi scan_steps = max_ℤ (pos 1) (floor_div (t_hi -ℤ t_lo) scan_steps)

  -- `while hi - lo > 1`, on fuel: the two ends when it stops. The end `lo` is up and `hi` is down.
  unfoldable pub bisect_enter : ℕ → (lo hi : ℤ) → ℤ
  bisect_enter zero lo hi = hi
  bisect_enter (suc fuel) lo hi =
      let mid = floor_div (lo +ℤ hi) 2 in
      let left = bisect_enter fuel lo mid in
      let right = bisect_enter fuel mid hi in
      if ltb_ℤ (pos 1) (hi -ℤ lo) then (if down mid then left else right) else hi

  -- The same loop with `lo` down and `hi` up.
  unfoldable pub bisect_exit : ℕ → (lo hi : ℤ) → ℤ
  bisect_exit zero lo hi = lo
  bisect_exit (suc fuel) lo hi =
      let mid = floor_div (lo +ℤ hi) 2 in
      let right = bisect_exit fuel mid hi in
      let left = bisect_exit fuel lo mid in
      if ltb_ℤ (pos 1) (hi -ℤ lo) then (if down mid then right else left) else lo

  abbrev pub hinted : Option ℤ → Option ℤ
  hinted none = none
  hinted (some t_hint) = if down t_hint then some t_hint else none

  -- The time in the interval from which both ends are searched. `t_hi - t_lo` steps reach `t_hi`.
  unfoldable pub find_anchor : (t_lo t_hi : ℤ) → Option ℤ → (scan_steps : ℕ) → Result (Option ℤ)
  find_anchor t_lo t_hi t_hint scan_steps = elim (hinted t_hint) [
    | some t ↦ ok (some t)
    | none ↦ do
      raise_if (scan_steps == 0) zero_division_error
      ok (scan (magnitude (t_hi -ℤ t_lo) + 1) (scan_step t_lo t_hi scan_steps) t_hi t_lo)
  ]

  unfoldable pub ends : (t_lo t_hi anchor : ℤ) → ℤ × ℤ
  ends t_lo t_hi anchor = (
    if down t_lo then t_lo else bisect_enter (magnitude (anchor -ℤ t_lo)) t_lo anchor,
    if down t_hi then t_hi else bisect_exit (magnitude (t_hi -ℤ anchor)) anchor t_hi,
  )

  abbrev pub around : (t_lo t_hi : ℤ) → Option ℤ → Option (ℤ × ℤ)
  around t_lo t_hi none = none
  around t_lo t_hi (some anchor) = some (ends t_lo t_hi anchor)

  -- `occultation_interval` over its `down`
  unfoldable pub down_interval :
      (t_lo t_hi : ℤ) → Option ℤ → (scan_steps : ℕ) → Result (Option (ℤ × ℤ))
  down_interval t_lo t_hi t_hint scan_steps = do
    anchor ← find_anchor t_lo t_hi t_hint scan_steps
    ok (around t_lo t_hi anchor)

unfoldable pub occultation_interval :
    (t_lo t_hi : ℤ)
    → (endpoint_a endpoint_b body : Worldline) → (radius_nm : ℤ) → Option ℤ
    → (scan_steps : ℕ) → Result (Option (ℤ × ℤ))
occultation_interval t_lo t_hi endpoint_a endpoint_b body radius_nm t_hint scan_steps =
    down_interval (λ t. is_link_down t endpoint_a endpoint_b body radius_nm) t_lo t_hi t_hint
      scan_steps
