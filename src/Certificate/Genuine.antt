-- ===== src/Certificate/Genuine.antt =====
-- horizon/certificate.py: genuine receipts, and the verdict on a certificate.
use horizon_protocol.Prelude.{
  ℕ, ◌≡◌, ◌≢◌, refl, ◌↔◌, String, true, false, ◌⊎◌, inl, inr, List, [], ◌∷◌, Option, none, some,
  pos, ◌+ℤ◌, ◌≤ℤ◌, Bool-cases, All, text_key,
}
use horizon_protocol.Geometry.{min_light_time_ns, admissibility_witness}
use horizon_protocol.Geometry.Floor.{admissible-iff-min_light_time}
use horizon_protocol.Stations.{
  Event, Body, Receipt, Registry, Station, Gate, Binding, refused, bound, bind_receipt, Authentic,
  bind_receipt_iff,
}
use horizon_protocol.Certificate.{
  Certificate, Check, check_receipt, check_all, verdict_of, verify_certificate,
}

module _ (hmac : List ℕ → Body → String) (registry : Registry) (event : Event) where
  -- A registered station signed the receipt for this event, no earlier than light allows.
  pub record Genuine (r : Receipt) : Type 0 where
    pub station : Station
    pub authentic : Authentic hmac registry event.payload_hash r station
    pub after_light :
        event.claimed_emit_time_ns
          +ℤ pos (min_light_time_ns event.claimed_emit_pos_nm station.pos_nm)
        ≤ℤ r.body.recv_time_ns

  refusal_fails :
      (r : Receipt) (gate : Gate)
      → bind_receipt hmac registry event.payload_hash r ≡ refused gate
      → (check_receipt hmac registry event r).passed ≡ false
  unfolding check_receipt
  refusal_fails r gate e = rw (e, check_receipt)

  passed_iff : (r : Receipt) → ((check_receipt hmac registry event r).passed ≡ true) ↔ Genuine r
  unfolding check_receipt admissibility_witness
  passed_iff r = decide (bind_receipt hmac registry event.payload_hash r) refl
    where
      decide :
          (b : Binding)
          → bind_receipt hmac registry event.payload_hash r ≡ b
          → ((check_receipt hmac registry event r).passed ≡ true) ↔ Genuine r
      decide (refused gate) e = (
        λ h. cc (refusal_fails r gate e),
        λ g. cc ((bind_receipt_iff hmac registry event.payload_hash r g.station).1 g.authentic),
      )
      decide (bound st) e =
          let cone =
            admissible-iff-min_light_time event.claimed_emit_time_ns event.claimed_emit_pos_nm
              r.body.recv_time_ns st.pos_nm in
          rw (e, check_receipt)
            (
              λ h. record {
                station = st;
                authentic = (bind_receipt_iff hmac registry event.payload_hash r st).0 e;
                after_light = cone.0 h;
              },
              λ g.
                  let same : g.station ≡ st = cc (
                    (bind_receipt_iff hmac registry event.payload_hash r g.station).1
                      g.authentic) in
                  cone.1 (rw same at g.after_light),
            )

  check_all_iff :
      (rs : List Receipt) (checks : List Check)
      → ((check_all hmac registry event rs checks).1 ≡ none) ↔ All Genuine rs
  unfolding check_all
  check_all_iff [] checks = (λ _. tt, λ _. refl)
  check_all_iff (r ∷ rs) checks = elim (Bool-cases (check_receipt hmac registry event r).passed) [
    | inl passed ↦ rw passed (
      λ h. ((passed_iff r).0 passed, (check_all_iff rs _).0 h),
      λ (g, gs). (check_all_iff rs _).1 gs,
    )
    | inr failed ↦ rw failed (λ h. cc, λ (g, gs). cc ((passed_iff r).1 g))
  ]

some_check : {A : Type 0} (o : Option A) → (o ≡ none) ⊎ (o ≢ none)
some_check none = inl refl
some_check (some a) = inr (λ e. cc)

pass_of :
    (rs : List Receipt) (cs : List Check × Option Check)
    → ((verdict_of rs cs).pass ≡ true) ↔ (cs.1 ≡ none)
unfolding verdict_of
pass_of rs (cs, none) = (λ _. refl, λ _. refl)
pass_of rs (cs, some c) = (λ h. cc, λ h. cc)

-- A certificate passes exactly when it has a receipt and each of its receipts is genuine:
-- signed by a registered station at its surveyed position for the certificate's event, and
-- received no earlier than light from the claimed emission allows.
pub verify_certificate_iff :
    (hmac : List ℕ → Body → String) (cert : Certificate) (registry : Registry)
    → ((verify_certificate hmac cert registry).pass ≡ true)
      ↔ ((cert.receipts ≢ []) × All (Genuine hmac registry cert.event) cert.receipts)
unfolding verify_certificate
verify_certificate_iff hmac cert registry = decide cert.receipts refl
  where
    decide :
        (rs : List Receipt)
        → cert.receipts ≡ rs
        → ((verify_certificate hmac cert registry).pass ≡ true)
          ↔ ((cert.receipts ≢ []) × All (Genuine hmac registry cert.event) cert.receipts)
    decide [] e = rw (e, verify_certificate) (λ h. cc, λ (filled, _). absurd (filled refl))
    decide (r ∷ rs) e =
        let made = check_all hmac registry cert.event (r ∷ rs) [] in
        let passes = pass_of (r ∷ rs) made in
        let all = check_all_iff hmac registry cert.event (r ∷ rs) [] in
        rw (e, verify_certificate)
          (λ h. (λ n. cc, all.0 (passes.0 h)), λ (_, g). passes.1 (all.1 g))
