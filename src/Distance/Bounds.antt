-- ===== src/Distance/Bounds.antt =====
-- horizon/distance.py and horizon/latency_gate.py: round trips against light times.
use horizon_protocol.Prelude.{
  ℕ, ◌+◌, ◌*◌, ◌/◌, ◌≤◌, ◌≡◌, ◌↔◌, ℤ, pos, ◌+ℤ◌, ◌-ℤ◌, ◌≤ℤ◌, square_mono, arith, int_laws, ltb_ℤ,
  if◌then◌else◌, ◌||◌,
}
use horizon_protocol.LightTime.Least.{
  Covers, Before, Covers-iff, light_search-Covers, light_search-Before,
}
use horizon_protocol.Geometry.{Position, c_nm_per_ns, dist2, min_light_time_ns}
use horizon_protocol.Geometry.Floor.{min_light_time-least}
use horizon_protocol.Distance.{
  min_round_trip_ns, response_before_challenge, admitted, apparatus_limited,
  too_fast_for_claimed_distance, too_slow_for_claimed_distance, trajectory_attested,
}

-- The floor of a round trip is the least time in which light covers twice the distance, and is
-- at most twice the light time one way and at least that less 1.
pub min_round_trip-least :
    (v p : Position)
    → Covers c_nm_per_ns (4 * dist2 v p) (min_round_trip_ns v p)
      × Before c_nm_per_ns (4 * dist2 v p) (min_round_trip_ns v p)
      × (min_round_trip_ns v p ≤ 2 * min_light_time_ns v p)
      × (2 * min_light_time_ns v p ≤ min_round_trip_ns v p + 1)
unfolding min_round_trip_ns min_light_time_ns
min_round_trip-least v p = (
  light_search-Covers c_nm_per_ns (4 * dist2 v p) (omega arith),
  light_search-Before c_nm_per_ns (4 * dist2 v p),
  (Covers-iff c_nm_per_ns (4 * dist2 v p) (2 * min_light_time_ns v p) (omega arith)).0
      (omega (arith, (min_light_time-least v p).0)),
  (let half : ℕ = (min_round_trip_ns v p + 1) / 2 in
      let reach =
        square_mono (c_nm_per_ns * min_round_trip_ns v p) (c_nm_per_ns * (2 * half))
          (omega arith) in
      let covered = light_search-Covers c_nm_per_ns (4 * dist2 v p) (omega arith) in
      omega (
        arith,
        (Covers-iff c_nm_per_ns (dist2 v p) half (omega arith)).0 (omega (arith, reach, covered)),
      )),
)

-- The tests of an attestation, on the time that the answer took.
attested_tests :
    (rtt low high required resolve : ℤ)
    → pos 0 ≤ℤ resolve
    → let outcome =
        if ltb_ℤ rtt (pos 0)
        then response_before_challenge
        else if ltb_ℤ low (required -ℤ resolve)
        then too_fast_for_claimed_distance
        else if ltb_ℤ (required +ℤ resolve) high
        then too_slow_for_claimed_distance
        else if ltb_ℤ low required || ltb_ℤ required high
        then apparatus_limited
        else admitted in
      (outcome ≡ admitted) ↔ ((pos 0 ≤ℤ rtt) × (required ≤ℤ low) × (high ≤ℤ required))
attested_tests rtt low high required resolve res =
    let below : required ≤ℤ low → (required -ℤ resolve) ≤ℤ low = λ h. omega int_laws in
    let above : high ≤ℤ required → high ≤ℤ (required +ℤ resolve) = λ h. omega int_laws in
    (λ h. ground arith, λ h. ground arith)

-- With a resolution that is not negative, a claim is attested exactly when the answer comes no
-- earlier than the challenge and, corrected for processing and within the uncertainty of the
-- clocks, takes neither less than the round trip to the claimed place nor more.
pub attested_iff :
    (t_c : ℤ) (p_v : Position) (t_r : ℤ) (p : Position) (proc u resolve : ℤ)
    → pos 0 ≤ℤ resolve
    → (trajectory_attested t_c p_v t_r p proc u resolve ≡ admitted) ↔ (
        (t_c ≤ℤ t_r)
        × (t_c +ℤ proc +ℤ pos (min_round_trip_ns p_v p) ≤ℤ t_r +ℤ u)
        × (t_r ≤ℤ t_c +ℤ proc +ℤ pos (min_round_trip_ns p_v p) +ℤ u))
unfolding trajectory_attested
attested_iff t_c p_v t_r p proc u resolve res =
    let tests =
      attested_tests (t_r -ℤ t_c) ((t_r -ℤ t_c) -ℤ proc +ℤ u) ((t_r -ℤ t_c) -ℤ proc -ℤ u)
        (pos (min_round_trip_ns p_v p)) resolve res in
    (
      λ h. let (late, low, high) = tests.0 h in (omega int_laws, omega int_laws, omega int_laws),
      λ (late, low, high). tests.1 (omega int_laws, omega int_laws, omega int_laws),
    )
