-- ===== src/Simulation/Broadcast.antt =====
-- horizon/simulate.py: a broadcast to honest stations makes a certificate that passes.
use mathlib.Core.Path.{subst}
use horizon_protocol.Prelude.{
  ℕ, ◌≡◌, ◌≢◌, refl, sym, ◌∙◌, ap, inl, inr, String, text_key, true, List, [], ◌∷◌, some,
  Bool-cases, pos, ◌+ℤ◌, ◌≤ℤ◌, same_key, same_key_self, get, All, sorted_set, sorted_set-All, ok,
  int_laws,
}
use horizon_protocol.Geometry.{min_light_time_ns}
use horizon_protocol.Stations.{
  Event, Body, Receipt, Station, Registry, sign_receipt, receipt_body, sign_receipt-Authentic,
}
use horizon_protocol.Certificate.{build_cone_certificate, verify_certificate}
use horizon_protocol.Certificate.Genuine.{Genuine, verify_certificate_iff}
use horizon_protocol.Simulation.{broadcast_to, station_names, broadcast}

-- Every name of the registry is that of a station that carries it, and that takes its time.
abbrev pub Sound : Registry → Type 0
Sound registry =
    (sid : String) (st : Station)
    → get registry sid ≡ some st
    → (st.station_id ≡ sid) × (pos 0 ≤ℤ st.proc_delay_ns)

module _ (hmac : List ℕ → Body → String) (registry : Registry) (event : Event)
    (sound : Sound registry) where
  abbrev Has : String → Type 0
  Has sid = (st : Station) × (get registry sid ≡ some st)

  broadcast_to-Genuine :
      (sids : List String)
      → All Has sids
      → (rs : List Receipt) × (broadcast_to hmac registry event sids ≡ ok rs)
        × All (Genuine hmac registry event) rs
        × (rs ≡ [] → sids ≡ [])
  unfolding broadcast_to sign_receipt receipt_body
  broadcast_to-Genuine [] h = ([], refl, tt, λ e. refl)
  broadcast_to-Genuine (sid ∷ sids) ((st, there), h) =
      let (rs, ran, genuine, _) = broadcast_to-Genuine sids h in
      let (named, delayed) = sound sid st there in
      let arrival =
        event.claimed_emit_time_ns +ℤ pos (min_light_time_ns event.claimed_emit_pos_nm st.pos_nm) in
      (
        sign_receipt hmac st event.payload_hash (arrival +ℤ st.proc_delay_ns) ∷ rs,
        rw (there, ran) refl,
        (
          record {
            station = st;
            authentic =
                sign_receipt-Authentic hmac registry event.payload_hash st _
                  (ap (get registry) named ∙ there);
            after_light = omega (int_laws, delayed);
          },
          genuine,
        ),
        λ e. cc,
      )

  Has-cons :
      (j : String) (w : Station) (rest : Registry) (sids : List String)
      → All (λ sid. (st : Station) × (get rest sid ≡ some st)) sids
      → All (λ sid. (st : Station) × (get ((j, w) ∷ rest) sid ≡ some st)) sids
  unfolding get
  Has-cons j w rest [] h = tt
  Has-cons j w rest (sid ∷ sids) ((st, there), h) = elim (Bool-cases (same_key j sid)) [
    | inl same ↦ ((w, rw same refl), Has-cons j w rest sids h)
    | inr other ↦ ((st, rw other there), Has-cons j w rest sids h)
  ]

  names-Has : (r : Registry) → All (λ sid. (st : Station) × (get r sid ≡ some st)) (station_names r)
  unfolding station_names get
  names-Has [] = tt
  names-Has ((j, w) ∷ rest) =
      ((w, rw (same_key_self j) refl), Has-cons j w rest (station_names rest) (names-Has rest))

  sorted_filled : (sid : String) (sids : List String) → sorted_set (sid ∷ sids) ≢ []
  sorted_filled sid sids e =
      ((sorted_set-All (λ s. ⊥) (sid ∷ sids)).0 (subst (All (λ s. ⊥)) (sym e) tt)).0

  names_filled : (r : Registry) → r ≢ [] → sorted_set (station_names r) ≢ []
  unfolding station_names
  names_filled [] filled = absurd (filled refl)
  names_filled ((j, w) ∷ rest) filled = sorted_filled j (station_names rest)

-- A broadcast to a registry that is not empty, in which each name is that of a station with a
-- delay that is not negative, runs without an error, and the cone certificate of its receipts
-- passes.
pub broadcast_passes :
    (hmac : List ℕ → Body → String) (registry : Registry) (event : Event)
    → Sound registry
    → registry ≢ []
    → (rs : List Receipt) × (broadcast hmac registry event ≡ ok rs)
      × ((verify_certificate hmac (build_cone_certificate event rs) registry).pass ≡ true)
unfolding broadcast build_cone_certificate
broadcast_passes hmac registry event sound filled =
    let sids = station_names registry in
    let has =
      (sorted_set-All (λ sid. (st : Station) × (get registry sid ≡ some st)) sids).1
        (names-Has hmac registry event sound registry) in
    let (rs, ran, genuine, empty) =
      broadcast_to-Genuine hmac registry event sound (sorted_set sids) has in
    (
      rs,
      ran,
      (verify_certificate_iff hmac (build_cone_certificate event rs) registry).1
          (λ e. names_filled hmac registry event sound registry filled (empty e), genuine),
    )
