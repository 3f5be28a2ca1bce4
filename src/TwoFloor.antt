-- ===== src/TwoFloor.antt =====
-- horizon/two_floor.py: admissibility where either position may only be known within an envelope.
pub mod Sound
mod Tests
use horizon_protocol.Prelude.{
  ℕ, ◌+◌, ◌-◌, ◌*◌, Bool, ◌&&◌, Option, none, some, ℤ, pos, ◌-ℤ◌, ◌*ℤ◌, ltb, leb, ltb_ℤ, magnitude,
  Result, ok, ◌>>=◌, if◌then◌else◌,
}
use horizon_protocol.Geometry.{Position, c_nm_per_ns, dist2}
use horizon_protocol.Worldline.{Envelope, center_at, radius_at}

-- A definite position, or an envelope.
pub data Side : Type 0 where
  definite : Position → Side
  uncertain : Envelope → Side

unfoldable pub resolve : ℤ → Side → Result (Position × ℕ)
resolve t (definite p) = ok (p, 0)
resolve t (uncertain e) = do radius ← radius_at e t; ok (center_at e t, radius)

pub data Reason : Type 0 where
  negative_dt worst_case_admissible best_case_fails straddles : Reason

pub data TwoFloorClass : Type 0 where
  admitted rejected apparatus_limited : TwoFloorClass

-- What the witness holds beside the reason, once both sides are resolved.
pub record Balls : Type 0 where
  pub center1 : Position
  pub center2 : Position
  pub radius1 : ℕ
  pub radius2 : ℕ
  pub dist2_to_center : ℕ
  pub c_dt : ℕ

pub record TwoFloorVerdict : Type 0 where
  pub verdict : TwoFloorClass
  pub dt_ns : ℤ
  pub reason : Reason
  pub balls : Option Balls

-- The two tests on the reach of light, the sum of the radii and the squared distance.
unfoldable pub worst_case_admitted : (lhs r d2 : ℕ) → Bool
worst_case_admitted lhs r d2 = leb r lhs && leb d2 ((lhs - r) * (lhs - r))

unfoldable pub best_case_rejected : (lhs r d2 : ℕ) → Bool
best_case_rejected lhs r d2 = ltb (r * r) d2 && ltb ((lhs + r) * (lhs + r)) d2

unfoldable pub decide_balls : ℤ → Balls → TwoFloorVerdict
decide_balls dt b =
    let r = b.radius1 + b.radius2 in
    if worst_case_admitted b.c_dt r b.dist2_to_center
    then record { verdict = admitted; dt_ns = dt; reason = worst_case_admissible; balls = some b }
    else if best_case_rejected b.c_dt r b.dist2_to_center
    then record { verdict = rejected; dt_ns = dt; reason = best_case_fails; balls = some b }
    else record { verdict = apparatus_limited; dt_ns = dt; reason = straddles; balls = some b }

unfoldable pub two_floor_verdict : ℤ → Side → ℤ → Side → Result TwoFloorVerdict
unfolding resolve decide_balls worst_case_admitted best_case_rejected
two_floor_verdict t1 p1 t2 p2 =
    let dt = t2 -ℤ t1 in
    let decided : Result TwoFloorVerdict = do
      (center1, r1) ← resolve t1 p1
      (center2, r2) ← resolve t2 p2
      ok (
          decide_balls dt (record {
            center1 = center1;
            center2 = center2;
            radius1 = r1;
            radius2 = r2;
            dist2_to_center = dist2 center1 center2;
            c_dt = c_nm_per_ns * magnitude dt;
          }))
    in if ltb_ℤ dt (pos 0)
      then ok (record { verdict = rejected; dt_ns = dt; reason = negative_dt; balls = none })
      else decided
