-- ===== src/Capture/Verdict.antt =====
-- horizon/capture_verify.py: the verdict on a capture.
use mathlib.Core.Path.{subst}
use horizon_protocol.Prelude.{
  ℕ, ◌<◌, ◌≡◌, ◌≢◌, refl, sym, ◌∙◌, ap, ◌↔◌, ◌⊎◌, inl, inr, String, text_key, true, List, [], ◌∷◌,
  Option, All, All-map, distinct, Bool-cases, Result, ok, ok-injective, bound_value, ◌>>=◌,
}
use horizon_protocol.Measure.{admitted, rejected, c_eff_num, c_eff_den, or_default, covers}
use horizon_protocol.Capture.{
  Body, Receipt, Claim, Registry, Finding, Capture, Report, distinct_sources, nonempty_receipts,
  coverage_report, Outcome, pass, refusal, node_ids, judge_all, refuse, report_of, weigh, guarded,
  verify_capture,
}
use horizon_protocol.Capture.Flags.{Verdicts, aggregate-refusal, aggregate-pass}
use horizon_protocol.Capture.Weighing.{
  Plausible, Confirmed, judge_all-Judged, judge_all_total, Judged-Confirmed, Judged-Plausible,
}

module _ (event_hash : Claim → String) (digest : String → List ℕ) (hmac : List ℕ → Body → String)
    (registry : Registry) where
  module _ (capture : Capture) (num den : Option ℕ) (wanted : Option (List String)) where
    abbrev speed : ℕ
    speed = or_default num c_eff_num

    abbrev per_speed : ℕ
    per_speed = or_default den c_eff_den

    abbrev outcome : Result Outcome
    outcome = verify_capture event_hash digest hmac registry capture num den wanted

    -- The gates on the whole capture: a receipt, no two of one node, and the required nodes.
    abbrev pub Gated : Type 0
    Gated =
        (capture.receipts ≢ [])
        × (distinct (node_ids capture.receipts) ≡ true)
        × (covers wanted (node_ids capture.receipts) ≡ true)

    abbrev loop : Result (List (String × Finding))
    loop = judge_all event_hash digest hmac registry capture.claim speed per_speed capture.receipts

    abbrev reported : List (String × Finding) → Outcome
    reported per = report_of event_hash digest hmac registry capture speed per_speed per

    abbrev Decision : Result Outcome → Type 0
    Decision m =
        ((why : Report) × (m ≡ ok (refuse event_hash digest hmac registry why)) × ¬ Gated)
        ⊎ ((m ≡ (loop >>= λ per. ok (reported per))) × Gated)

    guarded_or_refused :
        capture.receipts ≢ []
        → Decision (guarded event_hash digest hmac registry capture speed per_speed wanted)
    unfolding guarded weigh
    guarded_or_refused filled = elim (Bool-cases (distinct (node_ids capture.receipts))) [
      | inr repeated ↦ inl (
        distinct_sources (node_ids capture.receipts),
        rw (repeated, guarded) refl,
        λ (_, once, _). cc,
      )
      | inl once ↦ elim (Bool-cases (covers wanted (node_ids capture.receipts))) [
        | inr missing ↦ inl (
          coverage_report wanted (node_ids capture.receipts),
          rw (once, missing, guarded) refl,
          λ (_, _, all). cc,
        )
        | inl all ↦ inr (rw (once, all, guarded) refl, (filled, once, all))
      ]
    ]

    abbrev run_on : List Receipt → Result Outcome
    run_on [] = ok (refuse event_hash digest hmac registry nonempty_receipts)
    run_on (_ ∷ _) = guarded event_hash digest hmac registry capture speed per_speed wanted

    gated_or_refused : Decision outcome
    unfolding verify_capture
    gated_or_refused = decide capture.receipts refl
      where
        decide : (rs : List Receipt) → capture.receipts ≡ rs → Decision outcome
        decide [] e = inl (nonempty_receipts, ap run_on e, λ (filled, _, _). filled e)
        decide (r ∷ rs) e =
            let filled : capture.receipts ≢ [] = λ n. cc in
            subst Decision (ap run_on (sym e)) (guarded_or_refused filled)

    loop-Confirmed :
        ((per : List (String × Finding)) × (loop ≡ ok per) × Verdicts (λ v. v ≡ admitted) per)
        ↔ All
            (Confirmed event_hash digest hmac registry capture.claim speed per_speed)
            capture.receipts
    loop-Confirmed =
        let all =
          judge_all-Judged event_hash digest hmac registry capture.claim speed per_speed
            (λ v. v ≡ admitted) capture.receipts in
        let each = Judged-Confirmed event_hash digest hmac registry capture.claim speed per_speed in
        (
          λ h. All-map (λ r. (each r).0) capture.receipts (all.0 h),
          λ h. all.1 (All-map (λ r. (each r).1) capture.receipts h),
        )

    -- A capture passes, without an error, exactly when it has a receipt, no two receipts of one
    -- node and the required nodes, and each receipt is signed by a registered node at its surveyed
    -- position for this claim, is no earlier than light allows with the uncertainty of its clock in
    -- its favour, and lies farther than twice that uncertainty from the time at the trusted speed,
    -- which there is unless that speed is 0 and the node is elsewhere than the emission.
    pub verify_capture_iff : ((o : Outcome) × (outcome ≡ ok o) × (o.aggregate ≡ pass)) ↔ (
        Gated
        × All
            (Confirmed event_hash digest hmac registry capture.claim speed per_speed)
            capture.receipts)
    verify_capture_iff = elim gated_or_refused [
      | inl (why, stopped, ungated) ↦ (
        λ (o, ran, h). let refused = ap (λ o. o.aggregate) (ok-injective (sym stopped ∙ ran)) in cc,
        λ (gated, _). absurd (ungated gated),
      )
      | inr (same, gated) ↦ (
        λ (o, ran, h).
            let (per, found, made) = bound_value loop (sym same ∙ ran) in
            let passes = ap (λ o. o.aggregate) (sym (ok-injective made)) ∙ h in
            (gated, loop-Confirmed.0 (per, sym found, (aggregate-pass per).0 passes)),
        λ (_, all).
            let (per, found, verdicts) = loop-Confirmed.1 all in
            (reported per, same ∙ rw found refl, (aggregate-pass per).1 verdicts),
      )
    ]

    module _ (moves : 0 < speed) where
      loop-Plausible :
          (per : List (String × Finding))
          → loop ≡ ok per
          → Verdicts (λ v. v ≢ rejected) per
            ↔ All (Plausible event_hash digest hmac registry capture.claim) capture.receipts
      loop-Plausible per ran =
          let all =
            judge_all-Judged event_hash digest hmac registry capture.claim speed per_speed
              (λ v. v ≢ rejected) capture.receipts in
          let each =
            Judged-Plausible event_hash digest hmac registry capture.claim speed per_speed moves in
          (
            λ h. All-map (λ r. (each r).0) capture.receipts (all.0 (per, ran, h)),
            λ h.
                let (per', ran', verdicts) = all.1 (All-map (λ r. (each r).1) capture.receipts h) in
                subst (Verdicts (λ v. v ≢ rejected)) (ok-injective (sym ran' ∙ ran)) verdicts,
          )

      pub verify_capture-refusal :
          (o : Outcome) × (outcome ≡ ok o)
          × ((o.aggregate ≢ refusal) ↔ (
              Gated
              × All (Plausible event_hash digest hmac registry capture.claim) capture.receipts))
      verify_capture-refusal = elim gated_or_refused [
        | inl (why, stopped, ungated) ↦ (
          refuse event_hash digest hmac registry why,
          stopped,
          (λ h. absurd (h refl), λ (gated, _). absurd (ungated gated)),
        )
        | inr (same, gated) ↦
            let (per, ran) =
              judge_all_total event_hash digest hmac registry capture.claim speed per_speed moves
                capture.receipts in
            (
              reported per,
              same ∙ rw ran refl,
              (
                λ h. (gated, (loop-Plausible per ran).0 ((aggregate-refusal per).0 h)),
                λ (_, all). (aggregate-refusal per).1 ((loop-Plausible per ran).1 all),
              ),
            )
      ]
