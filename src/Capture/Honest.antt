-- ===== src/Capture/Honest.antt =====
-- horizon/capture_verify.py: captures that honest nodes sign.
use horizon_protocol.Prelude.{
  ℕ, ◌≡◌, ◌≢◌, refl, String, text_key, true, List, [], ◌∷◌, Option, none, some, ℤ, pos, ◌+ℤ◌, ◌≤ℤ◌,
  get, All, distinct, ◌<◌, ok,
}
use horizon_protocol.Geometry.{min_light_time_ns}
use horizon_protocol.Measure.{c_eff_num, or_default, covers}
use horizon_protocol.Capture.{
  Body, Receipt, Claim, Node, Registry, Capture, Outcome, refusal, node_ids, verify_capture,
  sign_receipt,
}
use horizon_protocol.Capture.Weighing.{Plausible}
use horizon_protocol.Capture.Verdict.{verify_capture-refusal}

module _ (event_hash : Claim → String) (digest : String → List ℕ) (hmac : List ℕ → Body → String)
    (registry : Registry) where
  -- A reception that an honest node signs: it is registered, and its clock shows a time that is at
  -- most its uncertainty before the one at which light arrives.
  pub record Reception (claim : Claim) : Type 0 where
    pub node_id : String
    pub node : Node
    pub recv_time_ns : ℤ
    pub tier : String
    pub measured_u_ns : Option ℤ
    pub registered : get registry node_id ≡ some node
    pub in_budget :
        claim.t0_ns +ℤ pos (min_light_time_ns claim.p0_nm node.pos_nm) ≤ℤ recv_time_ns +ℤ node.u_ns

  abbrev pub sign_all : (claim : Claim) → List (Reception claim) → List Receipt
  sign_all claim [] = []
  sign_all claim (x ∷ xs) =
      sign_receipt digest hmac x.node_id x.node.pos_nm (event_hash claim) x.recv_time_ns x.tier
        x.measured_u_ns
      ∷ sign_all claim xs

  abbrev pub capture_of : (claim : Claim) → List (Reception claim) → Capture
  capture_of claim xs = record { claim = claim; c_eff = none; receipts = sign_all claim xs }

  sign_all-Plausible :
      (claim : Claim) (xs : List (Reception claim))
      → All (Plausible event_hash digest hmac registry claim) (sign_all claim xs)
  unfolding sign_receipt
  sign_all-Plausible claim [] = tt
  sign_all-Plausible claim (x ∷ xs) = (
    (
      x.node,
      record { signed = refl; registered = x.registered; bound = refl; surveyed = refl },
      x.in_budget,
    ),
    sign_all-Plausible claim xs,
  )

  -- What honest nodes sign is never refused: at any trusted speed but 0, the capture of the
  -- receipts that distinct registered nodes, those required among them and no others, sign for a
  -- claim, with clocks that are off by at most their declared uncertainty, has an outcome, and is
  -- not refused.
  pub honest_capture-refusal :
      (claim : Claim) (x : Reception claim) (xs : List (Reception claim)) (num den : Option ℕ)
      (wanted : Option (List String))
      → 0 < or_default num c_eff_num
      → distinct (node_ids (sign_all claim (x ∷ xs))) ≡ true
      → covers wanted (node_ids (sign_all claim (x ∷ xs))) ≡ true
      → (o : Outcome) × (verify_capture event_hash digest hmac registry
            (capture_of claim (x ∷ xs))
            num
            den
            wanted
          ≡ ok o)
        × (o.aggregate ≢ refusal)
  honest_capture-refusal claim x xs num den wanted moves once all =
      let (o, ran, fine) =
        verify_capture-refusal event_hash digest hmac registry (capture_of claim (x ∷ xs)) num den
          wanted moves in
      (o, ran, fine.1 ((λ e. cc, once, all), sign_all-Plausible claim (x ∷ xs)))
