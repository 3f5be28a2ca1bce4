-- ===== src/Capture/Flags.antt =====
-- horizon/capture_verify.py: the aggregate of the findings on the receipts.
use horizon_protocol.Prelude.{
  ◌≡◌, ◌≢◌, refl, ◌↔◌, inl, inr, String, text_key, Bool, true, false, ◌||◌, List, [], ◌∷◌, All,
  arith, Bool-cases, iff_trans,
}
use horizon_protocol.Measure.{Classified, admitted, apparatus_limited, rejected}
use horizon_protocol.Capture.{
  Finding, verdict_of, pass, refusal, is_rejected, is_limited, any_rejected, any_limited,
  aggregate_of,
}

is_rejected_iff : (v : Classified) → (is_rejected v ≡ false) ↔ (v ≢ rejected)
is_rejected_iff rejected = (λ h. cc, λ h. absurd (h refl))
is_rejected_iff apparatus_limited = (λ _ e. cc, λ _. refl)
is_rejected_iff admitted = (λ _ e. cc, λ _. refl)

admitted_iff :
    (v : Classified) → ((is_rejected v ≡ false) × (is_limited v ≡ false)) ↔ (v ≡ admitted)
admitted_iff rejected = (λ (h, _). cc, λ h. cc)
admitted_iff apparatus_limited = (λ (_, h). cc, λ h. cc)
admitted_iff admitted = (λ _. refl, λ _. (refl, refl))

neither : (a b : Bool) → ((a || b) ≡ false) ↔ ((a ≡ false) × (b ≡ false))
neither true b = (λ h. cc, λ (h, _). h)
neither false b = (λ h. (refl, h), λ (_, h). h)

-- The findings whose verdicts satisfy a predicate.
abbrev pub Verdicts : (Classified → Type 0) → List (String × Finding) → Type 0
Verdicts P per = All (λ x. P (verdict_of x.1)) per

any_rejected_iff :
    (per : List (String × Finding)) → (any_rejected per ≡ false) ↔ Verdicts (λ v. v ≢ rejected) per
unfolding any_rejected
any_rejected_iff [] = (λ _. tt, λ _. refl)
any_rejected_iff ((nid, f) ∷ per) =
    let split = neither (is_rejected (verdict_of f)) (any_rejected per) in
    let first = is_rejected_iff (verdict_of f) in
    let rest = any_rejected_iff per in
    (
      λ h. let (p, ps) = split.0 h in (first.0 p, rest.0 ps),
      λ (p, ps). split.1 (first.1 p, rest.1 ps),
    )

all_admitted_iff :
    (per : List (String × Finding))
    → ((any_rejected per ≡ false) × (any_limited per ≡ false)) ↔ Verdicts (λ v. v ≡ admitted) per
unfolding any_rejected any_limited
all_admitted_iff [] = (λ _. tt, λ _. (refl, refl))
all_admitted_iff ((nid, f) ∷ per) =
    let none_bad = neither (is_rejected (verdict_of f)) (any_rejected per) in
    let none_limited = neither (is_limited (verdict_of f)) (any_limited per) in
    let first = admitted_iff (verdict_of f) in
    let rest = all_admitted_iff per in
    (
      λ (h, k).
          let (p, ps) = none_bad.0 h in
          let (q, qs) = none_limited.0 k in (first.0 (p, q), rest.0 (ps, qs)),
      λ (f, fs).
          let (p, q) = first.1 f in
          let (ps, qs) = rest.1 fs in (none_bad.1 (p, ps), none_limited.1 (q, qs)),
    )

module _ (per : List (String × Finding)) where
  pub aggregate-refusal : (aggregate_of per ≢ refusal) ↔ Verdicts (λ v. v ≢ rejected) per
  unfolding aggregate_of
  aggregate-refusal = elim (Bool-cases (any_rejected per)) [
    | inl bad ↦
        rw (bad, aggregate_of)
          (λ h. absurd (h refl), λ all. let fine = (any_rejected_iff per).1 all in cc)
    | inr fine ↦ (λ _. (any_rejected_iff per).0 fine, λ _ e. ground arith)
  ]

  flags-pass : (aggregate_of per ≡ pass) ↔ ((any_rejected per ≡ false) × (any_limited per ≡ false))
  unfolding aggregate_of
  flags-pass = ground arith

  pub aggregate-pass : (aggregate_of per ≡ pass) ↔ Verdicts (λ v. v ≡ admitted) per
  aggregate-pass = iff_trans flags-pass (all_admitted_iff per)
