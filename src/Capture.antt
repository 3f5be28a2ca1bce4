-- ===== src/Capture.antt =====
-- horizon/capture_verify.py and horizon/signed_capture.py: captures of many nodes, whose signed
-- receipts are judged against the claimed emission. SHA-256 over the canonical JSON of a claim is
-- the parameter `event_hash`, HMAC-SHA256 over that of a receipt's body is `hmac`, and the hash
-- from which a node's key is derived is `digest`.
pub mod Receipts
pub mod Gates
pub mod Flags
pub mod Weighing
pub mod Verdict
pub mod Honest
mod Tests
use horizon_protocol.Prelude.{
  ℕ, ◌*◌, ◌≤◌, String, text_key, Bool, true, false, not, ◌&&◌, ◌||◌, List, [], ◌∷◌, map, Option,
  none, some, ℤ, pos, ◌+ℤ◌, ◌-ℤ◌, ◌*ℤ◌, ltb_ℤ, leb_ℤ, magnitude, same_key, elem, distinct, Dict,
  get, concat, sorted_set, Result, ok, ◌>>=◌, if◌then◌else◌,
}
use horizon_protocol.Geometry.{Position, min_light_time_ns, same_position}
use horizon_protocol.Measure.{
  c_eff_num, c_eff_den, min_transit_time_ns_eff, Classified, admitted, apparatus_limited, rejected,
  or_default, covers,
}

pub record Body : Type 0 where
  pub node_id : String
  pub node_pos_nm : Position
  pub event_hash : String
  pub recv_time_ns : ℤ
  pub tier : String
  pub measured_u_ns : Option ℤ

pub record Receipt : Type 0 where
  pub body : Body
  pub mac : String

-- What a receipt's hash binds.
pub record Claim : Type 0 where
  pub payload_hash : String
  pub t0_ns : ℤ
  pub p0_nm : Position

pub record Node : Type 0 where
  pub pos_nm : Position
  pub u_ns : ℤ
  pub tier : String

abbrev pub Registry : Type 0
Registry = Dict String Node

-- `c_eff` is provenance only.
pub record Capture : Type 0 where
  pub claim : Claim
  pub c_eff : Option (ℕ × ℕ)
  pub receipts : List Receipt

module _ (digest : String → List ℕ) (hmac : List ℕ → Body → String) where
  unfoldable pub node_key : String → List ℕ
  node_key node_id = digest (concat "HORIZON-H8-NODE-KEY::" node_id)

  unfoldable pub sign_receipt :
      String → Position → String → ℤ → (tier : String) → (measured_u_ns : Option ℤ) → Receipt
  sign_receipt node_id node_pos_nm event_hash recv_time_ns tier measured_u_ns =
      let body : Body = record {
        node_id = node_id;
        node_pos_nm = node_pos_nm;
        event_hash = event_hash;
        recv_time_ns = recv_time_ns;
        tier = tier;
        measured_u_ns = measured_u_ns;
      } in
      record { body = body; mac = hmac (node_key node_id) body }

  unfoldable pub verify_receipt : Receipt → Bool
  verify_receipt r = same_key (hmac (node_key r.body.node_id) r.body) r.mac

-- The witness of `classify`; `below_vacuum_floor` is there where it is the reason.
pub record Resolution : Type 0 where
  pub dt_ns : ℤ
  pub u_ns : ℤ
  pub dt_adjusted_ns : ℤ
  pub vacuum_floor_ns : ℕ
  pub typical_floor_ns : ℕ
  pub resolution_band_ns : ℤ
  pub margin_below_vacuum_floor_ns : ℤ
  pub margin_from_typical_floor_ns : ℤ
  pub below_vacuum_floor : Bool

-- The verdict for an adjusted time `eff`, with the band around the typical floor.
unfoldable pub resolve : ℤ → (vacuum typical : ℕ) → ℤ → Classified
resolve eff vacuum typical band =
    if ltb_ℤ eff (pos vacuum)
    then rejected
    else if leb_ℤ (pos (magnitude (eff -ℤ pos typical))) band
    then apparatus_limited
    else admitted

-- The verdict and its witness, from the time at the declared speed.
unfoldable pub classify_from :
    ℤ → Position → ℤ → Position → ℤ → (typical : ℕ) → Classified × Resolution
unfolding resolve
classify_from t0 p0 recv_time p_node u typical =
    let dt = recv_time -ℤ t0 in
    let eff = dt +ℤ u in
    let vacuum = min_light_time_ns p0 p_node in
    let band = pos 2 *ℤ u in
    (
      resolve eff vacuum typical band,
      record {
        dt_ns = dt;
        u_ns = u;
        dt_adjusted_ns = eff;
        vacuum_floor_ns = vacuum;
        typical_floor_ns = typical;
        resolution_band_ns = band;
        margin_below_vacuum_floor_ns = pos vacuum -ℤ eff;
        margin_from_typical_floor_ns = eff -ℤ pos typical;
        below_vacuum_floor = ltb_ℤ eff (pos vacuum);
      },
    )

unfoldable pub classify :
    ℤ → Position → ℤ → Position → ℤ → (num den : ℕ) → Result (Classified × Resolution)
unfolding classify_from
classify t0 p0 recv_time p_node u num den = do
  typical ← min_transit_time_ns_eff p0 p_node num den
  ok (classify_from t0 p0 recv_time p_node u typical)

pub data Gate : Type 0 where
  signature unknown_node event_binding surveyed_position : Gate

-- What is recorded of a receipt: the gate that refuses it, or the tier, verdict and witness.
pub data Finding : Type 0 where
  refused : Gate → Finding
  judged : (tier : String) → Classified → Resolution → Finding

pub data Aggregate : Type 0 where
  pass limited refusal : Aggregate

-- The gate on the whole capture that decided, or what is reported once the receipts are judged.
pub data Report : Type 0 where
  nonempty_receipts : Report
  distinct_sources : List String → Report
  node_coverage : (missing unexpected : List String) → Report
  weighed :
      (expected_event_hash : String)
      → (c_eff_declared : Option (ℕ × ℕ)) → (c_eff_trusted : ℕ × ℕ) → Report

pub record Outcome : Type 0 where
  pub aggregate : Aggregate
  pub per_receipt : List (String × Finding)
  pub report : Report

abbrev pub verdict_of : Finding → Classified
verdict_of (refused gate) = rejected
verdict_of (judged tier v w) = v

abbrev pub is_rejected : Classified → Bool
is_rejected rejected = true
is_rejected apparatus_limited = false
is_rejected admitted = false

abbrev pub is_limited : Classified → Bool
is_limited rejected = false
is_limited apparatus_limited = true
is_limited admitted = false

-- The tests `"REJECTED" in verdicts` and `"APPARATUS_LIMITED" in verdicts`.
unfoldable pub any_rejected : List (String × Finding) → Bool
any_rejected [] = false
any_rejected ((nid, f) ∷ per) = is_rejected (verdict_of f) || any_rejected per

unfoldable pub any_limited : List (String × Finding) → Bool
any_limited [] = false
any_limited ((nid, f) ∷ per) = is_limited (verdict_of f) || any_limited per

unfoldable pub aggregate_of : List (String × Finding) → Aggregate
aggregate_of per = if any_rejected per then refusal else if any_limited per then limited else pass

abbrev pub node_ids : List Receipt → List String
node_ids rs = map (λ r. r.body.node_id) rs

-- The items of a set that are not in another.
unfoldable pub difference : List String → List String → List String
difference [] ys = []
difference (x ∷ xs) ys = let rest = difference xs ys in if elem x ys then rest else x ∷ rest

abbrev pub coverage_report : Option (List String) → List String → Report
coverage_report none ids = node_coverage [] []
coverage_report (some wanted) ids =
    node_coverage (sorted_set (difference wanted ids)) (sorted_set (difference ids wanted))

module _ (event_hash : Claim → String) (digest : String → List ℕ) (hmac : List ℕ → Body → String)
    (registry : Registry) where
  -- One turn of the loop: the gates in order, then the classification with the trusted speed.
  unfoldable pub judge : Claim → (num den : ℕ) → Receipt → Result Finding
  judge claim num den r =
      if not (verify_receipt digest hmac r)
      then ok (refused signature)
      else elim (get registry r.body.node_id) [
        | none ↦ ok (refused unknown_node)
        | some node ↦
            if not (same_key r.body.event_hash (event_hash claim))
            then ok (refused event_binding)
            else if not (same_position r.body.node_pos_nm node.pos_nm)
            then ok (refused surveyed_position)
            else do
              (v, w) ←
                  classify claim.t0_ns claim.p0_nm r.body.recv_time_ns node.pos_nm node.u_ns num den
              ok (judged node.tier v w)
      ]

  unfoldable pub judge_all : Claim → (num den : ℕ) → List Receipt → Result (List (String × Finding))
  judge_all claim num den [] = ok []
  judge_all claim num den (r ∷ rs) = do
    let rest = judge_all claim num den rs
    f ← judge claim num den r
    per ← rest
    ok ((r.body.node_id, f) ∷ per)

  abbrev pub refuse : Report → Outcome
  refuse why = record { aggregate = refusal; per_receipt = []; report = why }

  -- What is reported of the judged receipts.
  abbrev pub report_of : Capture → (num den : ℕ) → List (String × Finding) → Outcome
  report_of capture num den per = record {
    aggregate = aggregate_of per;
    per_receipt = per;
    report = weighed (event_hash capture.claim) capture.c_eff (num, den);
  }

  -- What follows the gates on the whole capture.
  unfoldable pub weigh : Capture → (num den : ℕ) → Result Outcome
  unfolding judge_all aggregate_of
  weigh capture num den = do
    per ← judge_all capture.claim num den capture.receipts
    ok (report_of capture num den per)

  -- The gates on the whole capture that follow `nonempty_receipts`, and what follows them.
  unfoldable pub guarded :
      Capture → (num den : ℕ) → (wanted : Option (List String)) → Result Outcome
  unfolding weigh
  guarded capture num den wanted =
      let ids = node_ids capture.receipts in
      let weighed_up = weigh capture num den in
      if not (distinct ids)
      then ok (refuse (distinct_sources ids))
      else if not (covers wanted ids)
      then ok (refuse (coverage_report wanted ids))
      else weighed_up

  -- A speed bound that the caller leaves out is the frozen one.
  unfoldable pub verify_capture :
      Capture → (num den : Option ℕ) → (wanted : Option (List String)) → Result Outcome
  verify_capture capture num den wanted = elim capture.receipts [
    | [] ↦ ok (refuse nonempty_receipts)
    | _ ∷ _ ↦ guarded capture (or_default num c_eff_num) (or_default den c_eff_den) wanted
  ]
