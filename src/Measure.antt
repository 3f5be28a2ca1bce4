-- ===== src/Measure.antt =====
-- horizon/measure.py: receipts with measured times against two floors, the vacuum light time and
-- the transit time at a declared slower speed.
pub mod Floors
pub mod Passing
pub mod Verdict
mod Tests
use horizon_protocol.Prelude.{
  ℕ, ◌*◌, String, text_key, Bool, true, false, not, ◌&&◌, ◌||◌, List, [], ◌∷◌, ◌++◌, map, Option,
  none, some, ℤ, pos, ◌+ℤ◌, ◌-ℤ◌, ltb_ℤ, same_key, elem, distinct, Dict, get, put, Result, ok,
  required, raise_if, zero_division_error, ◌>>=◌, ◌>>◌, ◌==◌, if◌then◌else◌,
}
use horizon_protocol.LightTime.{light_search}
use horizon_protocol.Geometry.{Position, c_nm_per_ns, dist2, min_light_time_ns}
use horizon_protocol.Stations.{
  Event, Body, Receipt, Registry, Gate, nonempty_receipts, distinct_sources, station_coverage,
  budget, live_capture_self_check, refused, bound, bind_receipt,
}

abbrev pub c_eff_num : ℕ
c_eff_num = 3

abbrev pub c_eff_den : ℕ
c_eff_den = 5

-- The transit time where the speed is not 0.
unfoldable pub transit_ns : Position → Position → (num den : ℕ) → ℕ
transit_ns p1 p2 num den = light_search (c_nm_per_ns * num) ((den * den) * dist2 p1 p2)

-- The speed is `num / den` of the speed of light. A speed of 0 raises unless the places are one.
unfoldable pub min_transit_time_ns_eff : Position → Position → (num den : ℕ) → Result ℕ
unfolding transit_ns
min_transit_time_ns_eff p1 p2 num den =
    if dist2 p1 p2 == 0
    then ok 0
    else do raise_if (num == 0) zero_division_error; ok (transit_ns p1 p2 num den)

pub data Classified : Type 0 where
  admitted apparatus_limited rejected : Classified

pub record Budget : Type 0 where
  pub t0_ns : ℤ
  pub t_recv_ns : ℤ
  pub u_ns : ℤ
  pub raw_dt_ns : ℤ
  pub dt_adjusted_ns : ℤ
  pub num : ℕ
  pub den : ℕ
  pub vacuum_floor_ns : ℕ
  pub typical_floor_ns : ℕ
  pub margin_below_vacuum_floor_ns : ℤ
  pub margin_below_typical_floor_ns : ℤ
  pub verdict : Classified

-- The witness, from the time at the declared speed.
unfoldable pub budget_from :
    ℤ → Position → ℤ → Position → ℤ → (num den : ℕ) → (typical_floor : ℕ) → Budget
budget_from t0 p0 t_recv station_pos u num den typical_floor =
    let raw_dt = t_recv -ℤ t0 in
    let dt_adjusted = raw_dt +ℤ u in
    let vacuum_floor = min_light_time_ns p0 station_pos in
    record {
      t0_ns = t0;
      t_recv_ns = t_recv;
      u_ns = u;
      raw_dt_ns = raw_dt;
      dt_adjusted_ns = dt_adjusted;
      num = num;
      den = den;
      vacuum_floor_ns = vacuum_floor;
      typical_floor_ns = typical_floor;
      margin_below_vacuum_floor_ns = pos vacuum_floor -ℤ dt_adjusted;
      margin_below_typical_floor_ns = pos typical_floor -ℤ dt_adjusted;
      verdict =
          if ltb_ℤ dt_adjusted (pos vacuum_floor)
          then rejected
          else if ltb_ℤ dt_adjusted (pos typical_floor)
          then apparatus_limited
          else admitted;
    }

unfoldable pub budget_witness : ℤ → Position → ℤ → Position → ℤ → (num den : ℕ) → Result Budget
unfolding min_transit_time_ns_eff budget_from
budget_witness t0 p0 t_recv station_pos u num den = do
  typical_floor ← min_transit_time_ns_eff p0 station_pos num den
  ok (budget_from t0 p0 t_recv station_pos u num den typical_floor)

unfoldable pub classify_measured_receipt :
    ℤ → Position → ℤ → Position → ℤ → (num den : ℕ) → Result (Classified × Budget)
unfolding budget_witness
classify_measured_receipt t0 p0 t_recv station_pos u num den = do
  w ← budget_witness t0 p0 t_recv station_pos u num den
  ok (w.verdict, w)

-- The trusted parameters of a station; a speed bound that is left out is the frozen one.
pub record NodeParams : Type 0 where
  pub u_ns : ℤ
  pub num : Option ℕ
  pub den : Option ℕ

abbrev pub or_default : Option ℕ → ℕ → ℕ
or_default none d = d
or_default (some n) d = n

pub record MeasuredCertificate : Type 0 where
  pub event : Event
  pub receipts : List Receipt
  pub fixture_origin : Option String

-- A verdict, with the gate (and the station) that decided it where it is not PASS.
pub data Aggregate : Type 0 where
  pass : Aggregate
  limited refusal : Gate → Option String → Aggregate

pub record Measured : Type 0 where
  pub verdict : Aggregate
  pub per_node : Dict String Budget

-- The state of the loop over the receipts: stopped by a gate, or through with the witnesses and
-- the nodes that are apparatus-limited.
pub data Stage : Type 0 where
  stopped : Gate → String → Dict String Budget → Stage
  through : Dict String Budget → List String → Stage

-- Every one of `xs` is in `ys`.
unfoldable pub subset : List String → List String → Bool
subset [] ys = true
subset (x ∷ xs) ys = elem x ys && subset xs ys

abbrev pub station_ids : List Receipt → List String
station_ids rs = map (λ r. r.body.station_id) rs

-- `set(required) == set(station_ids)`, if a set is required
unfoldable pub covers : Option (List String) → List String → Bool
unfolding subset
covers none ids = true
covers (some wanted) ids = subset wanted ids && subset ids wanted

-- The first receipt with a negative raw elapsed time.
unfoldable pub negative_elapsed : ℤ → List Receipt → Option String
negative_elapsed t0 [] = none
negative_elapsed t0 (r ∷ rs) =
    if ltb_ℤ (r.body.recv_time_ns -ℤ t0) (pos 0)
    then some r.body.station_id
    else negative_elapsed t0 rs

abbrev pub is_live : Option String → Bool
is_live none = false
is_live (some origin) = same_key origin "LIVE_CAPTURE"

abbrev pub refuse : Gate → Measured
refuse gate = record { verdict = refusal gate none; per_node = [] }

-- The live-capture self-check: the receipt that shows an unresolved clock skew.
unfoldable pub skewed : MeasuredCertificate → Option String
unfolding negative_elapsed
skewed cert =
    if is_live cert.fixture_origin
    then negative_elapsed cert.event.claimed_emit_time_ns cert.receipts
    else none

-- The verdict after the loop, from the skewed receipt and the limited nodes.
abbrev pub summary : Option String → List String → Aggregate
summary (some sid) nodes = limited live_capture_self_check (some sid)
summary none [] = pass
summary none (sid ∷ more) = limited budget none

-- The rest of the loop body after the budget gate; `go_on` is the rest of the loop.
abbrev pub after_budget :
    Classified
    → String
    → Dict String Budget
    → List String
    → (Dict String Budget → List String → Result Stage)
    → Result Stage
after_budget rejected sid per_node nodes go_on = ok (stopped budget sid per_node)
after_budget apparatus_limited sid per_node nodes go_on = go_on per_node (nodes ++ sid ∷ [])
after_budget admitted sid per_node nodes go_on = go_on per_node nodes

-- `if not receipts: return ...`
abbrev pub unless_empty : List Receipt → Result Measured → Result Measured
unless_empty [] result = ok (refuse nonempty_receipts)
unless_empty (_ ∷ _) result = result

module _ (hmac : List ℕ → Body → String) (registry : Registry)
    (node_params : Dict String NodeParams) where
  abbrev pub receipt_budget : Event → Position → Receipt → NodeParams → Result Budget
  receipt_budget event station_pos r params =
      budget_witness event.claimed_emit_time_ns event.claimed_emit_pos_nm r.body.recv_time_ns
        station_pos params.u_ns (or_default params.num c_eff_num) (or_default params.den c_eff_den)

  unfoldable pub measure_all :
      Event → List Receipt → Dict String Budget → List String → Result Stage
  measure_all event [] per_node nodes = ok (through per_node nodes)
  measure_all event (r ∷ rs) per_node nodes =
      let sid = r.body.station_id in
      elim (bind_receipt hmac registry event.payload_hash r) [
        | refused gate ↦ ok (stopped gate sid per_node)
        | bound st ↦ do
          params ← required (get node_params sid)
          w ← receipt_budget event st.pos_nm r params
          let per_node' = put per_node sid w
          after_budget w.verdict sid per_node' nodes (measure_all event rs)
      ]

  -- What follows the loop: the self-check of a live capture, then the limited nodes.
  unfoldable pub conclude : MeasuredCertificate → Stage → Measured
  unfolding skewed
  conclude cert (stopped gate sid per_node) = record {
    verdict = refusal gate (some sid);
    per_node = per_node;
  }
  conclude cert (through per_node nodes) = record {
    verdict = summary (skewed cert) nodes;
    per_node = per_node;
  }

  -- The gates on the whole certificate that follow `nonempty_receipts`, and the loop.
  unfoldable pub guarded : MeasuredCertificate → Option (List String) → Result Measured
  unfolding measure_all conclude covers
  guarded cert wanted =
      let ids = station_ids cert.receipts in
      let loop = measure_all cert.event cert.receipts [] [] >>= λ stage. ok (conclude cert stage) in
      if not (distinct ids)
      then ok (refuse distinct_sources)
      else if not (covers wanted ids)
      then ok (refuse station_coverage)
      else loop

  unfoldable pub verify_measured_certificate :
      MeasuredCertificate → Option (List String) → Result Measured
  verify_measured_certificate cert wanted = unless_empty cert.receipts (guarded cert wanted)
