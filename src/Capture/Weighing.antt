-- ===== src/Capture/Weighing.antt =====
-- horizon/capture_verify.py: which receipts count against a capture.
use mathlib.Core.Path.{subst}
use horizon_protocol.Prelude.{
  ℕ, ◌<◌, ◌≡◌, ◌≢◌, refl, sym, ◌∙◌, ◌↔◌, ◌⊎◌, ap, inl, inr, String, text_key, List, [], ◌∷◌, pos,
  ◌+ℤ◌, ◌*ℤ◌, ◌≤ℤ◌, ◌<ℤ◌, All, arith, Bool-cases, ok, ok-injective, bound_value, ◌>>=◌,
}
use horizon_protocol.Geometry.{min_light_time_ns}
use horizon_protocol.Geometry.Floor.{admissible-iff-min_light_time}
use horizon_protocol.Measure.{Classified, admitted, rejected}
use horizon_protocol.Measure.Floors.{transit_found}
use horizon_protocol.Capture.{
  Body, Receipt, Claim, Node, Registry, Finding, refused, judged, verdict_of, judge, judge_all,
}
use horizon_protocol.Capture.Receipts.{classify_iff, classify_runs, Typical, Gives}
use horizon_protocol.Capture.Gates.{Authentic, found, judge-Authentic, judge_cases}
use horizon_protocol.Capture.Flags.{Verdicts}

module _ (event_hash : Claim → String) (digest : String → List ℕ) (hmac : List ℕ → Body → String)
    (registry : Registry) where
  module _ (claim : Claim) (r : Receipt) (node : Node) where
    -- The receipt, with the uncertainty of its clock in its favour, is no earlier than light.
    abbrev pub InBudget : Type 0
    InBudget =
        claim.t0_ns +ℤ pos (min_light_time_ns claim.p0_nm node.pos_nm)
        ≤ℤ r.body.recv_time_ns +ℤ node.u_ns

    -- It lies farther than twice the uncertainty from the time at the declared speed.
    abbrev pub Resolved : (num den : ℕ) → Type 0
    Resolved num den =
        (typical : ℕ) × Typical claim.p0_nm node.pos_nm num den typical
        × ((claim.t0_ns +ℤ pos typical +ℤ pos 2 *ℤ node.u_ns <ℤ r.body.recv_time_ns +ℤ node.u_ns)
            ⊎ (r.body.recv_time_ns +ℤ node.u_ns +ℤ pos 2 *ℤ node.u_ns
                <ℤ claim.t0_ns +ℤ pos typical))

  -- A receipt that an honest node may have sent, and one that its clock also resolves.
  abbrev pub Plausible : Claim → Receipt → Type 0
  Plausible claim r =
      (node : Node) × Authentic event_hash digest hmac registry claim r node × InBudget claim r node

  abbrev pub Confirmed : Claim → (num den : ℕ) → Receipt → Type 0
  Confirmed claim num den r =
      (node : Node) × Authentic event_hash digest hmac registry claim r node
      × InBudget claim r node
      × Resolved claim r node num den

  module _ (claim : Claim) (num den : ℕ) where
    -- The loop body finishes, with a verdict that satisfies a predicate.
    abbrev pub Judged : (Classified → Type 0) → Receipt → Type 0
    Judged P r =
        (f : Finding) × (judge event_hash digest hmac registry claim num den r ≡ ok f)
        × P (verdict_of f)

    pub judge_all-Judged :
        (P : Classified → Type 0) (rs : List Receipt)
        → ((per : List (String × Finding)) × (judge_all event_hash digest hmac registry claim num
                den rs
              ≡ ok per)
            × Verdicts P per)
          ↔ All (Judged P) rs
    unfolding judge_all
    judge_all-Judged P [] = (λ _. tt, λ _. ([], refl, tt))
    judge_all-Judged P (r ∷ rs) =
        let more = judge_all-Judged P rs in
        (
          λ (per, ran, all).
              let (f, one, h) =
                bound_value (judge event_hash digest hmac registry claim num den r) ran in
              let (rest, found, made) =
                bound_value (judge_all event_hash digest hmac registry claim num den rs) (sym h) in
              let (p, ps) = subst (Verdicts P) (ok-injective made) all in
              ((f, sym one, p), more.0 (rest, sym found, ps)),
          λ ((f, one, p), others).
              let (rest, found, ps) = more.1 others in
              ((r.body.node_id, f) ∷ rest, rw (one, found) refl, (p, ps)),
        )

    -- With an authentic receipt the verdict is that of the classification.
    Judged-Authentic :
        (P : Classified → Type 0) (r : Receipt) (node : Node)
        → Authentic event_hash digest hmac registry claim r node
        → Judged P r ↔ (
            (v : Classified) × Gives (found event_hash digest hmac registry claim num den r node) v
            × P v)
    Judged-Authentic P r node a =
        let same = judge-Authentic event_hash digest hmac registry claim num den r node a in
        (
          λ (f, ran, p).
              let (x, one, made) =
                bound_value (found event_hash digest hmac registry claim num den r node)
                  (sym same ∙ ran) in
              (x.0, (x.1, sym one), subst (λ f. P (verdict_of f)) (ok-injective made) p),
          λ (v, (w, ran), p). (
            judged node.tier v w,
            same ∙ ap (λ m. m >>= λ x. ok (judged node.tier x.0 x.1)) ran,
            p,
          ),
        )

    pub Judged-Confirmed : (r : Receipt) → Judged (λ v. v ≡ admitted) r ↔ Confirmed claim num den r
    Judged-Confirmed r = (
      λ h. elim (judge_cases event_hash digest hmac registry claim num den r) [
        | inl (gate, e) ↦ let same = ap verdict_of (ok-injective (sym e ∙ h.1)) in cc (h.2)
        | inr (node, a) ↦
            let sure =
              (classify_iff claim.t0_ns claim.p0_nm r.body.recv_time_ns node.pos_nm node.u_ns num
                den).2 in
            let (v, given, e) = (Judged-Authentic (λ v. v ≡ admitted) r node a).0 h in
            let (typical, found, late, clear) = sure.0 (subst (Gives _) e given) in
            (node, a, late, (typical, found, clear))
      ],
      λ (node, a, late, (typical, found, clear)).
          let sure =
            (classify_iff claim.t0_ns claim.p0_nm r.body.recv_time_ns node.pos_nm node.u_ns num
              den).2 in
          (Judged-Authentic (λ v. v ≡ admitted) r node a).1
            (admitted, sure.1 (typical, found, late, clear), refl),
    )

    module _ (moves : 0 < num) where
      given_total :
          (r : Receipt) (node : Node)
          → (v : Classified) × Gives (found event_hash digest hmac registry claim num den r node) v
      given_total r node = (
        _,
        (_, classify_runs _ _ _ _ _ num den (transit_found claim.p0_nm node.pos_nm num den moves)),
      )

      pub judge_total :
          (r : Receipt)
          → (f : Finding) × (judge event_hash digest hmac registry claim num den r ≡ ok f)
      judge_total r = elim (judge_cases event_hash digest hmac registry claim num den r) [
        | inl (gate, e) ↦ (refused gate, e)
        | inr (node, a) ↦
            let (v, (w, ran)) = given_total r node in
            (
              judged node.tier v w,
              judge-Authentic event_hash digest hmac registry claim num den r node a
                  ∙ ap (λ m. m >>= λ x. ok (judged node.tier x.0 x.1)) ran,
            )
      ]

      pub judge_all_total :
          (rs : List Receipt)
          → (per : List (String × Finding)) × (judge_all event_hash digest hmac registry claim num
                den rs
              ≡ ok per)
      unfolding judge_all
      judge_all_total [] = ([], refl)
      judge_all_total (r ∷ rs) =
          let (f, one) = judge_total r in
          let (rest, found) = judge_all_total rs in
          ((r.body.node_id, f) ∷ rest, rw (one, found) refl)

      sure_verdict :
          (r : Receipt) (node : Node) {v : Classified}
          → Gives (found event_hash digest hmac registry claim num den r node) v
          → (v ≢ rejected) ↔ InBudget claim r node
      sure_verdict r node {v} given =
          let rejects =
            (classify_iff claim.t0_ns claim.p0_nm r.body.recv_time_ns node.pos_nm node.u_ns num
              den).1 in
          let cone =
            admissible-iff-min_light_time claim.t0_ns claim.p0_nm (r.body.recv_time_ns +ℤ node.u_ns)
              node.pos_nm in
          (
            λ fine. elim (Bool-cases _) [
              | inl inside ↦ cone.0 inside
              | inr outside ↦
                  let (w, ran) = rejects.1 (λ (still, _). absurd (omega arith), outside) in
                  absurd (fine (ap (λ x. x.0) (ok-injective (sym given.1 ∙ ran))))
            ],
            λ late e. let out = (rejects.0 (subst (Gives _) e given)).1 in cc (out, cone.1 late),
          )

      pub Judged-Plausible : (r : Receipt) → Judged (λ v. v ≢ rejected) r ↔ Plausible claim r
      Judged-Plausible r = (
        λ h. elim (judge_cases event_hash digest hmac registry claim num den r) [
          | inl (gate, e) ↦ absurd (h.2 (ap verdict_of (ok-injective (sym h.1 ∙ e))))
          | inr (node, a) ↦
              let (v, given, fine) = (Judged-Authentic (λ v. v ≢ rejected) r node a).0 h in
              (node, a, (sure_verdict r node given).0 fine)
        ],
        λ (node, a, late).
            let (v, given) = given_total r node in
            (Judged-Authentic (λ v. v ≢ rejected) r node a).1
              (v, given, (sure_verdict r node given).1 late),
      )
