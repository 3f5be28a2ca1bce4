-- ===== src/Certificate/Bound.antt =====
-- horizon/certificate.py: the emission bound that a verdict reports, and certificates of stations
-- that sign what they receive.
use horizon_protocol.Prelude.{
  ℕ, ◌≡◌, ◌≢◌, refl, ◌∙◌, String, text_key, true, List, [], ◌∷◌, Option, none, some, ℤ, pos, ◌+ℤ◌,
  ◌≤ℤ◌, min_ℤ, min_ℤ_le, le-min_ℤ, arith, int_laws, All, get,
}
use horizon_protocol.Geometry.{min_light_time_ns}
use horizon_protocol.Stations.{
  Event, Body, Receipt, Registry, Station, sign_receipt, receipt_body, sign_receipt-Authentic,
}
use horizon_protocol.Certificate.{
  Certificate, Check, earliest, upper_bound, check_all, verdict_of, verify_certificate,
  build_cone_certificate,
}
use horizon_protocol.Certificate.Genuine.{Genuine, verify_certificate_iff}

abbrev Arrives : ℤ → Receipt → Type 0
Arrives t r = t ≤ℤ r.body.recv_time_ns

earliest_le : (t : ℤ) (rs : List Receipt) → earliest t rs ≤ℤ t
unfolding earliest
earliest_le t [] = omega arith
earliest_le t (r ∷ rs) =
    omega (arith, earliest_le (min_ℤ t r.body.recv_time_ns) rs, min_ℤ_le t r.body.recv_time_ns)

earliest-Arrives : (t : ℤ) (rs : List Receipt) → All (Arrives (earliest t rs)) rs
unfolding earliest
earliest-Arrives t [] = tt
earliest-Arrives t (r ∷ rs) = (
  omega (arith, earliest_le (min_ℤ t r.body.recv_time_ns) rs, min_ℤ_le t r.body.recv_time_ns),
  earliest-Arrives (min_ℤ t r.body.recv_time_ns) rs,
)

le-earliest : (s t : ℤ) (rs : List Receipt) → s ≤ℤ t → All (Arrives s) rs → s ≤ℤ earliest t rs
unfolding earliest
le-earliest s t [] h all = h
le-earliest s t (r ∷ rs) h all =
    le-earliest s (min_ℤ t r.body.recv_time_ns) rs (le-min_ℤ t r.body.recv_time_ns s h all.0) all.1

All-map-Genuine :
    (hmac : List ℕ → Body → String) (registry : Registry) (event : Event) (rs : List Receipt)
    → All (Genuine hmac registry event) rs
    → All (Arrives event.claimed_emit_time_ns) rs
All-map-Genuine hmac registry event [] h = tt
All-map-Genuine hmac registry event (r ∷ rs) (g, gs) =
    (omega (int_laws, g.after_light), All-map-Genuine hmac registry event rs gs)

bound_of_All :
    (rs : List Receipt) (t0 : ℤ)
    → rs ≢ []
    → All (Arrives t0) rs
    → (t : ℤ) × (upper_bound rs ≡ some t) × All (Arrives t) rs × (t0 ≤ℤ t)
unfolding upper_bound
bound_of_All [] t0 filled h = absurd (filled refl)
bound_of_All (r ∷ rs) t0 filled (first, rest) = (
  earliest r.body.recv_time_ns rs,
  refl,
  (earliest_le r.body.recv_time_ns rs, earliest-Arrives r.body.recv_time_ns rs),
  le-earliest t0 r.body.recv_time_ns rs first rest,
)

bound_of_verdict :
    (rs : List Receipt) (cs : List Check × Option Check)
    → (verdict_of rs cs).pass ≡ true
    → (verdict_of rs cs).emit_time_upper_bound_ns ≡ upper_bound rs
unfolding verdict_of
bound_of_verdict rs (cs, none) h = refl
bound_of_verdict rs (cs, some c) h = cc

upper_bound_of_pass :
    (hmac : List ℕ → Body → String) (cert : Certificate) (registry : Registry)
    → (verify_certificate hmac cert registry).pass ≡ true
    → (verify_certificate hmac cert registry).emit_time_upper_bound_ns ≡ upper_bound cert.receipts
unfolding verify_certificate
upper_bound_of_pass hmac cert registry = decide cert.receipts refl
  where
    decide :
        (rs : List Receipt)
        → cert.receipts ≡ rs
        → (verify_certificate hmac cert registry).pass ≡ true
        → (verify_certificate hmac cert registry).emit_time_upper_bound_ns
          ≡ upper_bound cert.receipts
    decide [] e = rw (e, verify_certificate) (λ h. cc)
    decide (r ∷ rs) e =
        rw (e, verify_certificate)
          (bound_of_verdict (r ∷ rs) (check_all hmac registry cert.event (r ∷ rs) []))

-- A certificate that passes reports a bound that no receipt precedes and that the claimed
-- emission does not exceed.
pub emit_time_bounded :
    (hmac : List ℕ → Body → String) (cert : Certificate) (registry : Registry)
    → (verify_certificate hmac cert registry).pass ≡ true
    → (t : ℤ) × ((verify_certificate hmac cert registry).emit_time_upper_bound_ns ≡ some t)
      × All (λ r. t ≤ℤ r.body.recv_time_ns) cert.receipts
      × (cert.event.claimed_emit_time_ns ≤ℤ t)
emit_time_bounded hmac cert registry h =
    let (filled, all) = (verify_certificate_iff hmac cert registry).0 h in
    let (t, e, arrive, le) =
      bound_of_All cert.receipts cert.event.claimed_emit_time_ns filled
        (All-map-Genuine hmac registry cert.event cert.receipts all) in
    (t, upper_bound_of_pass hmac cert registry h ∙ e, arrive, le)

-- A time at which a registered station receives an emission, which light allows.
pub record Reception (registry : Registry) (event : Event) : Type 0 where
  pub station : Station
  pub recv_time_ns : ℤ
  pub registered : get registry station.station_id ≡ some station
  pub after_light :
      event.claimed_emit_time_ns +ℤ pos (min_light_time_ns event.claimed_emit_pos_nm station.pos_nm)
      ≤ℤ recv_time_ns

module _ (hmac : List ℕ → Body → String) (registry : Registry) (event : Event) where
  abbrev pub sign_all : List (Reception registry event) → List Receipt
  sign_all [] = []
  sign_all (x ∷ xs) = sign_receipt hmac x.station event.payload_hash x.recv_time_ns ∷ sign_all xs

  sign_all-Genuine :
      (xs : List (Reception registry event)) → All (Genuine hmac registry event) (sign_all xs)
  unfolding sign_receipt receipt_body
  sign_all-Genuine [] = tt
  sign_all-Genuine (x ∷ xs) = (
    record {
      station = x.station;
      authentic =
          sign_receipt-Authentic hmac registry event.payload_hash x.station x.recv_time_ns
            x.registered;
      after_light = x.after_light;
    },
    sign_all-Genuine xs,
  )

  -- The certificate of receipts that registered stations sign at times that light from the
  -- emission allows passes, if there is a receipt.
  pub honest_certificate_passes :
      (x : Reception registry event) (xs : List (Reception registry event))
      → (verify_certificate hmac (build_cone_certificate event (sign_all (x ∷ xs))) registry).pass
        ≡ true
  unfolding build_cone_certificate
  honest_certificate_passes x xs =
      (verify_certificate_iff hmac (build_cone_certificate event (sign_all (x ∷ xs))) registry).1
        (λ e. cc, sign_all-Genuine (x ∷ xs))
