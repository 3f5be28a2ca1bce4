-- ===== src/LightTime.antt =====
-- The exact ceiling search that horizon/geometry.py, horizon/measure.py and horizon/distance.py
-- share: the least whole number of nanoseconds in which a signal of a given speed (nm per ns)
-- covers a squared distance (nm²).
pub mod Least
mod Tests
use horizon_protocol.Prelude.{
  ℕ, zero, suc, ◌+◌, ◌-◌, ◌*◌, ◌/◌, ltb, leb, ◌==◌, if◌then◌else◌, isqrt,
}

-- `r = math.isqrt(d2)` and `if r * r < d2: r += 1`
unfoldable pub ceil_sqrt : ℕ → ℕ
ceil_sqrt d2 = let r = isqrt d2 in if ltb (r * r) d2 then r + 1 else r

-- `-(-r // speed)`, for a positive speed
unfoldable pub ceil_div : ℕ → ℕ → ℕ
ceil_div r speed = (r + (speed - 1)) / speed

-- `while dt > 0 and (speed * (dt - 1)) ** 2 >= d2: dt -= 1`
unfoldable pub walk_down : ℕ → ℕ → ℕ → ℕ
walk_down speed d2 zero = zero
walk_down speed d2 (suc dt) =
    let rest = walk_down speed d2 dt in
    if leb d2 ((speed * dt) * (speed * dt)) then rest else suc dt

-- `while (speed * dt) ** 2 < d2: dt += 1`, on fuel
unfoldable pub walk_up : ℕ → ℕ → ℕ → ℕ → ℕ
walk_up zero speed d2 dt = dt
walk_up (suc fuel) speed d2 dt =
    let rest = walk_up fuel speed d2 (dt + 1) in
    if ltb ((speed * dt) * (speed * dt)) d2 then rest else dt

-- The whole search. `d2` rounds of the last loop are enough for a positive speed.
unfoldable pub light_search : ℕ → ℕ → ℕ
unfolding ceil_sqrt ceil_div walk_down walk_up
light_search speed d2 =
    if d2 == 0 then 0 else walk_up d2 speed d2 (walk_down speed d2 (ceil_div (ceil_sqrt d2) speed))
