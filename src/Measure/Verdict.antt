-- ===== src/Measure/Verdict.antt =====
-- Which measured certificates pass: the gates on the whole certificate.
use horizon_protocol.Prelude.{
  ℕ, ◌≡◌, ◌≢◌, refl, sym, ◌∙◌, ap, ◌↔◌, String, text_key, true, inl, inr, List, [], ◌∷◌, Option,
  none, some, ℤ, pos, ◌-ℤ◌, ◌≤ℤ◌, ltb_ℤ, distinct, if◌then◌else◌, Dict, Result, ok, ok-injective,
  bound_value, ◌>>=◌, int_laws, ltb→lt, le_of_ltb, Bool-cases, All,
}
use horizon_protocol.Stations.{Body, Receipt, Registry, Gate, nonempty_receipts}
use horizon_protocol.Measure.Passing.{Passed, All-Passed, Passed-All}
use horizon_protocol.Measure.{
  Budget, NodeParams, MeasuredCertificate, pass, refusal, Measured, Stage, stopped, through,
  station_ids, covers, negative_elapsed, is_live, skewed, summary, measure_all, conclude, refuse,
  unless_empty, guarded, verify_measured_certificate,
}

-- Elapsed times that are not negative.
negative_iff :
    (t0 : ℤ) (rs : List Receipt)
    → (negative_elapsed t0 rs ≡ none) ↔ All (λ r. t0 ≤ℤ r.body.recv_time_ns) rs
unfolding negative_elapsed
negative_iff t0 [] = (λ _. tt, λ _. refl)
negative_iff t0 (r ∷ rs) = elim (Bool-cases (ltb_ℤ (r.body.recv_time_ns -ℤ t0) (pos 0))) [
  | inl skew ↦
      let early = ltb→lt _ _ skew in rw skew (λ h. cc, λ (late, _). absurd (omega int_laws))
  | inr fine ↦
      let late = le_of_ltb _ _ fine in
      let rest = negative_iff t0 rs in rw fine (λ h. (omega int_laws, rest.0 h), λ (_, h). rest.1 h)
]

-- A live capture has no receipt from before the claimed emission.
abbrev pub SelfConsistent : MeasuredCertificate → Type 0
SelfConsistent cert =
    if is_live cert.fixture_origin
    then All (λ r. cert.event.claimed_emit_time_ns ≤ℤ r.body.recv_time_ns) cert.receipts
    else Unit

skewed-none : (cert : MeasuredCertificate) → (skewed cert ≡ none) ↔ SelfConsistent cert
unfolding skewed
skewed-none cert =
    let fine = negative_iff cert.event.claimed_emit_time_ns cert.receipts in
    elim (Bool-cases (is_live cert.fixture_origin)) [
      | inl live ↦ rw (live, skewed) fine
      | inr replayed ↦ rw (replayed, skewed) (λ _. tt, λ _. refl)
    ]

summary-pass :
    (s : Option String) (nodes : List String)
    → (summary s nodes ≡ pass) ↔ ((s ≡ none) × (nodes ≡ []))
summary-pass (some sid) nodes = (λ h. cc, λ (e, _). cc)
summary-pass none [] = (λ _. (refl, refl), λ _. refl)
summary-pass none (sid ∷ more) = (λ h. cc, λ (_, e). cc)

no_nodes :
    {per per' : Dict String Budget} {nodes : List String}
    → through per nodes ≡ through per' []
    → nodes ≡ []
no_nodes e = cc

conclude-pass :
    (hmac : List ℕ → Body → String) (registry : Registry) (node_params : Dict String NodeParams)
    (cert : MeasuredCertificate) (stage : Stage)
    → ((conclude hmac registry node_params cert stage).verdict ≡ pass)
      ↔ (((per : Dict String Budget) × (stage ≡ through per [])) × SelfConsistent cert)
unfolding conclude
conclude-pass hmac registry node_params cert (stopped gate sid per) =
    (λ h. cc, λ ((per', e), _). cc)
conclude-pass hmac registry node_params cert (through per nodes) =
    let both = summary-pass (skewed cert) nodes in
    let consistent = skewed-none cert in
    (
      λ h. let (fine, clear) = both.0 h in ((per, ap (through per) clear), consistent.0 fine),
      λ ((per', e), fine). both.1 (consistent.1 fine, no_nodes e),
    )

refuse_no_pass : (gate : Gate) (m : Measured) → ok (refuse gate) ≡ ok m → m.verdict ≡ pass → ⊥
refuse_no_pass gate m e h =
    let same : refusal gate none ≡ m.verdict = ap (λ m. m.verdict) (ok-injective e) in cc

module _ (hmac : List ℕ → Body → String) (registry : Registry)
    (node_params : Dict String NodeParams) (cert : MeasuredCertificate)
    (wanted : Option (List String)) where
  -- No two receipts of one station, the required stations, only receipts that pass, and the
  -- self-check of a live capture.
  abbrev pub Consistent : Type 0
  Consistent =
      (distinct (station_ids cert.receipts) ≡ true)
      × (covers wanted (station_ids cert.receipts) ≡ true)
      × All (Passed hmac registry node_params cert.event) cert.receipts
      × SelfConsistent cert

  abbrev pub Passes : Result Measured → Type 0
  Passes result = (m : Measured) × (result ≡ ok m) × (m.verdict ≡ pass)

  loop_iff :
      Passes (
        measure_all hmac registry node_params cert.event cert.receipts [] [] >>= λ stage.
        ok (conclude hmac registry node_params cert stage))
      ↔ (All (Passed hmac registry node_params cert.event) cert.receipts × SelfConsistent cert)
  loop_iff = (
    λ (m, e, p).
        let (stage, ran, concluded) =
          bound_value (measure_all hmac registry node_params cert.event cert.receipts [] []) e in
        let ((per, through_all), fine) =
          (conclude-pass hmac registry node_params cert stage).0
            (ap (λ m. m.verdict) (ok-injective (sym concluded)) ∙ p) in
        (
          (Passed-All hmac registry node_params cert.event cert.receipts [] []
              (sym ran ∙ ap ok through_all)).1,
          fine,
        ),
    λ (all, fine).
        let (per, e) = All-Passed hmac registry node_params cert.event cert.receipts [] [] all in
        (
          conclude hmac registry node_params cert (through per []),
          rw e,
          (conclude-pass hmac registry node_params cert (through per [])).1 ((per, refl), fine),
        ),
  )

  guarded_iff : Passes (guarded hmac registry node_params cert wanted) ↔ Consistent
  unfolding guarded
  guarded_iff = elim (Bool-cases (distinct (station_ids cert.receipts))) [
    | inr repeated ↦
        rw (repeated, guarded) (λ (m, e, p). absurd (refuse_no_pass _ m e p), λ (d, _, _, _). cc)
    | inl once ↦ elim (Bool-cases (covers wanted (station_ids cert.receipts))) [
      | inr missing ↦
          rw (once, missing, guarded)
            (λ (m, e, p). absurd (refuse_no_pass _ m e p), λ (_, c, _, _). cc)
      | inl covered ↦
          rw (once, covered, guarded)
            (
              λ h. let (all, fine) = loop_iff.0 h in (refl, refl, all, fine),
              λ (_, _, all, fine). loop_iff.1 (all, fine),
            )
    ]
  ]

-- A measured certificate passes, without an error, exactly when it has a receipt, no two receipts
-- of one station, the required stations, only receipts that pass, and is self-consistent if it is
-- a live capture. The registry and the parameters of the decision are the caller's.
pub verify_measured_certificate_iff :
    (hmac : List ℕ → Body → String) (registry : Registry) (node_params : Dict String NodeParams)
    (cert : MeasuredCertificate) (wanted : Option (List String))
    → ((m : Measured) × (verify_measured_certificate hmac registry node_params cert wanted ≡ ok m)
        × (m.verdict ≡ pass))
      ↔ ((cert.receipts ≢ []) × Consistent hmac registry node_params cert wanted)
unfolding verify_measured_certificate
verify_measured_certificate_iff hmac registry node_params cert wanted = decide cert.receipts refl
  where
    unless :
        {rs : List Receipt}
        → cert.receipts ≡ rs
        → verify_measured_certificate hmac registry node_params cert wanted
          ≡ unless_empty rs (guarded hmac registry node_params cert wanted)
    unless e = ap (λ rs. unless_empty rs (guarded hmac registry node_params cert wanted)) e

    decide :
        (rs : List Receipt)
        → cert.receipts ≡ rs
        → Passes hmac registry node_params cert wanted
            (verify_measured_certificate hmac registry node_params cert wanted)
          ↔ ((cert.receipts ≢ []) × Consistent hmac registry node_params cert wanted)
    decide [] e = (
      λ (m, f, p). absurd (refuse_no_pass nonempty_receipts m (sym (unless e) ∙ f) p),
      λ (filled, _). absurd (filled e),
    )
    decide (r ∷ rs) e =
        let all = guarded_iff hmac registry node_params cert wanted in
        let same = unless e in
        (
          λ (m, f, p). (λ n. cc, all.0 (m, sym same ∙ f, p)),
          λ (_, c). let (m, f, p) = all.1 c in (m, same ∙ f, p),
        )
