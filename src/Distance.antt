-- ===== src/Distance.antt =====
-- Round trips: horizon/distance.py bounds a distance by the time of an answer, and
-- horizon/latency_gate.py does so with uncertain clocks; horizon/deepspace.py and
-- horizon/light_delay.py give the one-way times.
pub mod Bounds
pub mod Verifiers
mod Tests
use horizon_protocol.Prelude.{
  ℕ, ◌+◌, ◌*◌, ◌<◌, ◌≡◌, String, text_key, Bool, true, false, ◌||◌, List, [], ◌∷◌, ℤ, pos, negsuc,
  ◌+ℤ◌, ◌-ℤ◌, ◌*ℤ◌, ltb_ℤ, leb_ℤ, max_ℤ, ltb, square, Option, none, some, Dict, get, Result, ok,
  required, ◌>>=◌, if◌then◌else◌, refl, nonempty, sorted_set,
}
use horizon_protocol.LightTime.{light_search}
use horizon_protocol.Geometry.{Position, c_nm_per_ns, dist2, min_light_time_ns}
use horizon_protocol.Worldline.{Worldline, position_at}

unfoldable pub min_round_trip_ns : Position → Position → ℕ
min_round_trip_ns v p = light_search c_nm_per_ns (4 * dist2 v p)

unfoldable pub deadline_ns : Position → Position → ℤ → ℤ
deadline_ns v p proc_ns = pos (2 * min_light_time_ns v p) +ℤ proc_ns

pub data Gate : Type 0 where
  ftl_floor deadline rtt_bound : Gate

pub record RttWitness : Type 0 where
  pub rtt_ns : ℤ
  pub proc_ns : ℤ
  pub rtt_minus_proc_ns : ℤ
  pub lhs_c_dt_squared : Option ℕ
  pub rhs_4_dist_squared_nm2 : ℕ
  pub light_time_ns : ℕ
  pub deadline_at_ns : ℤ
  pub gate : Gate
  pub admitted : Bool

-- `dt < 0 or lhs < rhs`
unfoldable pub too_fast : ℤ → ℕ → Bool
too_fast dt rhs = ltb_ℤ dt (pos 0) || ltb (square (pos c_nm_per_ns *ℤ dt)) rhs

unfoldable pub rtt_gate : ℤ → ℤ → Position → Position → Gate
rtt_gate rtt_ns proc_ns v p =
    if too_fast (rtt_ns -ℤ proc_ns) (4 * dist2 v p)
    then ftl_floor
    else if ltb_ℤ (pos (2 * min_light_time_ns v p) +ℤ proc_ns) rtt_ns
    then deadline
    else rtt_bound

abbrev pub passes : Gate → Bool
passes ftl_floor = false
passes deadline = false
passes rtt_bound = true

unfoldable pub rtt_bound_witness : ℤ → ℤ → Position → Position → RttWitness
rtt_bound_witness rtt_ns proc_ns v p =
    let dt = rtt_ns -ℤ proc_ns in
    record {
      rtt_ns = rtt_ns;
      proc_ns = proc_ns;
      rtt_minus_proc_ns = dt;
      lhs_c_dt_squared = if leb_ℤ (pos 0) dt then some (square (pos c_nm_per_ns *ℤ dt)) else none;
      rhs_4_dist_squared_nm2 = 4 * dist2 v p;
      light_time_ns = min_light_time_ns v p;
      deadline_at_ns = pos (2 * min_light_time_ns v p) +ℤ proc_ns;
      gate = rtt_gate rtt_ns proc_ns v p;
      admitted = passes (rtt_gate rtt_ns proc_ns v p);
    }

-- `p_claim_nm`, which repeats an argument, is left out.
pub record Multilateration : Type 0 where
  pub admitted : Bool
  pub failing_verifiers : List String
  pub per_verifier : Dict String RttWitness

unfoldable pub names : Dict String Position → List String
names [] = []
names ((vid, v) ∷ verifiers) = vid ∷ names verifiers

-- The loop over the verifiers' names: the witnesses, and the names that fail.
unfoldable pub measure_from :
    Dict String ℤ
    → ℤ
    → Position
    → Dict String Position
    → List String
    → Result (Dict String RttWitness × List String)
measure_from measurements proc_ns p_claim verifiers [] = ok ([], [])
measure_from measurements proc_ns p_claim verifiers (vid ∷ vids) = do
  let further = measure_from measurements proc_ns p_claim verifiers vids
  rtt ← required (get measurements vid)
  v ← required (get verifiers vid)
  let w = rtt_bound_witness rtt proc_ns v p_claim
  (per_verifier, failing) ← further
  ok ((vid, w) ∷ per_verifier, if w.admitted then failing else vid ∷ failing)

abbrev pub none_failing : List String → Bool
none_failing [] = true
none_failing (vid ∷ vids) = false

-- `sorted(verifiers)` is `sorted_set` of the names, which a dictionary holds once each.
unfoldable pub multilateration :
    Dict String ℤ → ℤ → Position → Dict String Position → Result Multilateration
multilateration measurements proc_ns p_claim verifiers = do
  (per_verifier, failing) ←
      measure_from measurements proc_ns p_claim verifiers (sorted_set (names verifiers))
  ok (record {
    admitted = none_failing failing;
    failing_verifiers = failing;
    per_verifier = per_verifier;
  })

-- horizon/latency_gate.py. The witnesses' figures are those that the tests compare.
pub data Latency : Type 0 where
  arrival_before_emission too_early response_before_challenge : Latency
  too_fast_for_claimed_distance too_slow_for_claimed_distance : Latency
  apparatus_limited admitted : Latency

unfoldable pub telemetry_consistent : ℤ → Position → ℤ → Position → (u_ns resolve_ns : ℤ) → Latency
telemetry_consistent t0 p_src t_recv p_dst u_ns resolve_ns =
    let dt = t_recv -ℤ t0 in
    let dt_adjusted = dt +ℤ u_ns in
    let required_ns = pos (min_light_time_ns p_src p_dst) in
    if ltb_ℤ dt (pos 0)
    then arrival_before_emission
    else if ltb_ℤ dt_adjusted (required_ns -ℤ resolve_ns)
    then too_early
    else if ltb_ℤ dt_adjusted required_ns
    then apparatus_limited
    else admitted

unfoldable pub trajectory_attested :
    ℤ → Position → ℤ → Position → (proc_ns u_ns resolve_ns : ℤ) → Latency
trajectory_attested t_challenge p_verifier t_response p_claimed proc_ns u_ns resolve_ns =
    let rtt = t_response -ℤ t_challenge in
    let dt = rtt -ℤ proc_ns in
    let low = dt +ℤ u_ns in
    let high = dt -ℤ u_ns in
    let required_ns = pos (min_round_trip_ns p_verifier p_claimed) in
    if ltb_ℤ rtt (pos 0)
    then response_before_challenge
    else if ltb_ℤ low (required_ns -ℤ resolve_ns)
    then too_fast_for_claimed_distance
    else if ltb_ℤ (required_ns +ℤ resolve_ns) high
    then too_slow_for_claimed_distance
    else if ltb_ℤ low required_ns || ltb_ℤ required_ns high
    then apparatus_limited
    else admitted

-- horizon/deepspace.py
abbrev pub m_to_nm : ℕ
m_to_nm = 1000000000

unfoldable pub one_way_light_time_ns : ℤ → ℕ
one_way_light_time_ns distance_m =
    min_light_time_ns (record { x = pos 0; y = pos 0; z = pos 0 })
      (record { x = distance_m *ℤ pos m_to_nm; y = pos 0; z = pos 0 })

-- horizon/light_delay.py
unfoldable pub arrival : Worldline → Worldline → ℤ → ℤ
arrival emitter receiver t =
    t +ℤ pos (min_light_time_ns (position_at emitter t) (position_at receiver t))

unfoldable pub delivery_time_ns : ℤ → Worldline → Worldline → Option (ℤ × ℤ) → ℤ
delivery_time_ns t_emit emitter receiver none = arrival emitter receiver t_emit
delivery_time_ns t_emit emitter receiver (some (t_enter, t_exit)) =
    let naive = arrival emitter receiver t_emit in
    if leb_ℤ t_enter t_emit
    then if leb_ℤ t_emit t_exit
      then max_ℤ naive (arrival emitter receiver (t_exit +ℤ pos 1))
      else naive
    else naive
