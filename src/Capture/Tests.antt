-- ===== src/Capture/Tests.antt =====
-- A capture of two nodes, one at the emission and one far away, and the theorems at it.
use horizon_protocol.Prelude.{
  Option, Result, ok, raise, zero_division_error, ◌>>=◌, ℕ, ◌≡◌, ◌≢◌, refl, ◌↔◌, ◌⊎◌, String,
  text_key, true, false, List, [], ◌∷◌, none, some, pos, ◌+ℤ◌, ◌-ℤ◌, ◌*ℤ◌, ◌≤ℤ◌, ◌<ℤ◌, square,
  magnitude, All, get, isqrt, arith, concat, distinct, elem, sorted_set,
}
use horizon_protocol.LightTime.{light_search}
use horizon_protocol.Geometry.{
  Position, causally_admissible, dist2, min_light_time_ns, same_position,
}
use horizon_protocol.Measure.{
  transit_ns, Classified, min_transit_time_ns_eff, admitted, apparatus_limited, rejected, covers,
  subset, c_eff_num, c_eff_den,
}
use horizon_protocol.Capture.{
  Body, Claim, Node, Registry, Capture, node_key, sign_receipt, verify_receipt, resolve, classify,
  classify_from, Outcome, pass, limited, refusal, any_rejected, any_limited, aggregate_of,
  difference, judge, judge_all, weigh, guarded, verify_capture, node_coverage,
}
use horizon_protocol.Capture.Receipts.{classify_iff, Gives, Typical}
use horizon_protocol.Capture.Weighing.{Confirmed}
use horizon_protocol.Capture.Verdict.{Gated, verify_capture_iff}
use horizon_protocol.Capture.Honest.{Reception, capture_of, honest_capture-refusal}

program : Unit {0}
unfolding transit_ns classify_from node_key sign_receipt verify_receipt resolve classify
    any_rejected any_limited aggregate_of difference judge judge_all weigh guarded verify_capture
    covers subset distinct elem get concat same_position min_transit_time_ns_eff min_light_time_ns
    dist2 light_search isqrt square magnitude ◌+ℤ◌ ◌-ℤ◌ ◌*ℤ◌ sorted_set
program = tt

-- Stand-ins for the hashes.
abbrev event_hash : Claim → String
event_hash claim = claim.payload_hash

abbrev digest : String → List ℕ
digest s = []

abbrev hmac : List ℕ → Body → String
hmac key body = body.event_hash

abbrev site : Position
site = record { x = pos 0; y = pos 0; z = pos 0 }

-- 300 light-nanoseconds away: 500 nanoseconds at the frozen speed bound.
abbrev away : Position
away = record { x = pos 89937737400; y = pos 0; z = pos 0 }

abbrev near_node : Node
near_node = record { pos_nm = site; u_ns = pos 10; tier = "PTP" }

abbrev far_node : Node
far_node = record { pos_nm = away; u_ns = pos 10; tier = "PTP" }

abbrev registry : Registry
registry = ("near", near_node) ∷ ("far", far_node) ∷ []

abbrev claim : Claim
claim = record { payload_hash = "ab"; t0_ns = pos 0; p0_nm = site }

-- What the far node signs at a time.
abbrev far : ℕ → Capture
far t = record {
  claim = claim;
  c_eff = none;
  receipts = sign_receipt digest hmac "far" away "ab" (pos t) "PTP" none ∷ [];
}

abbrev verdict_at : ℕ → Result Classified
verdict_at t = classify (pos 0) site (pos t) away (pos 10) 3 5 >>= λ x. ok (x.0)

verdicts :
    (verdict_at 289 ≡ ok rejected)
    × (verdict_at 290 ≡ ok admitted)
    × (verdict_at 470 ≡ ok apparatus_limited)
    × (verdict_at 511 ≡ ok admitted)
unfolding program
verdicts = (refl, refl, refl, refl)

abbrev weighed_at : ℕ → Option ℕ → Option (List String) → Result Outcome
weighed_at t num wanted = verify_capture event_hash digest hmac registry (far t) num none wanted

-- The last is at a trusted speed of 0.
outcomes :
    ((weighed_at 511 none none >>= λ o. ok o.aggregate) ≡ ok pass)
    × ((weighed_at 500 none none >>= λ o. ok o.aggregate) ≡ ok limited)
    × ((weighed_at 511 none (some ("near" ∷ "far" ∷ [])) >>= λ o. ok o.report)
        ≡ ok (node_coverage ("near" ∷ []) []))
    × (weighed_at 511 (some 0) none ≡ raise zero_division_error)
unfolding program
outcomes = (refl, refl, refl, refl)

classify_iff_example :
    let num : ℕ = 3 in
    let result = classify (pos 0) site (pos 511) away (pos 10) 3 5 in
    let adjusted = pos 511 +ℤ pos 10 in
    ((result ≡ raise zero_division_error) ↔ ((num ≡ 0) × (dist2 site away ≢ 0)))
    × (Gives result rejected ↔ (
        (¬ ((num ≡ 0) × (dist2 site away ≢ 0)))
        × (causally_admissible (pos 0) site adjusted away ≡ false)))
    × (Gives result admitted ↔ (
        (typical : ℕ) × Typical site away 3 5 typical
        × (pos 0 +ℤ pos (min_light_time_ns site away) ≤ℤ adjusted)
        × ((pos 0 +ℤ pos typical +ℤ pos 2 *ℤ pos 10 <ℤ adjusted)
            ⊎ (adjusted +ℤ pos 2 *ℤ pos 10 <ℤ pos 0 +ℤ pos typical))))
classify_iff_example = classify_iff (pos 0) site (pos 511) away (pos 10) 3 5

verify_capture_iff_example :
    ((o : Outcome) × (verify_capture event_hash digest hmac registry (far 511) none none none
        ≡ ok o)
      × (o.aggregate ≡ pass))
    ↔ (Gated event_hash digest hmac registry (far 511) none none none
        × All
            (Confirmed event_hash digest hmac registry claim c_eff_num c_eff_den)
            (far 511).receipts)
verify_capture_iff_example =
    verify_capture_iff event_hash digest hmac registry (far 511) none none none

abbrev seen_near : Reception event_hash digest hmac registry claim
unfolding program
seen_near = record {
  node_id = "near";
  node = near_node;
  recv_time_ns = pos 0;
  tier = "PTP";
  measured_u_ns = some (pos 10);
  registered = refl;
  in_budget = omega arith;
}

abbrev seen_far : Reception event_hash digest hmac registry claim
unfolding program
seen_far = record {
  node_id = "far";
  node = far_node;
  recv_time_ns = pos 295;
  tier = "PTP";
  measured_u_ns = none;
  registered = refl;
  in_budget = omega arith;
}

signed_distinct :
    let ids : List String = "near" ∷ "far" ∷ [] in
    (distinct ids ≡ true) × (covers (some ids) ids ≡ true)
unfolding program
signed_distinct = (refl, refl)

honest_capture-refusal_example :
    (o : Outcome) × (verify_capture event_hash digest hmac registry
        (capture_of event_hash digest hmac registry claim (seen_near ∷ seen_far ∷ []))
        none
        none
        (some ("near" ∷ "far" ∷ []))
      ≡ ok o)
    × (o.aggregate ≢ refusal)
unfolding program
honest_capture-refusal_example =
    honest_capture-refusal event_hash digest hmac registry claim seen_near (seen_far ∷ []) none none
      (some ("near" ∷ "far" ∷ [])) (omega arith) signed_distinct.0 signed_distinct.1
