-- ===== src/Beacon/Complete.antt =====
-- horizon/beacon.py: beacons that pass.
use horizon_protocol.Prelude.{
  ℕ, ◌≤◌, ltb, ◌≡◌, refl, ◌∙◌, ap, String, text_key, Bool, true, false, List, [], ◌∷◌, length,
  Option, none, some, eqb_ℤ_iff, same_key, distinct, Dict, put, All, Result, ok, ◌>>=◌, eq_iff,
  arith,
}
use horizon_protocol.Geometry.Cone.{same_position_iff}
use horizon_protocol.Stations.{Body, Registry}
use horizon_protocol.Certificate.Genuine.{verify_certificate_iff}
use horizon_protocol.Beacon.Blocks.{Block, to_hex}
use horizon_protocol.Beacon.Names.{Pairs}
use horizon_protocol.Beacon.Spacelike.{Spacelike}
use horizon_protocol.Beacon.Sound.{Bound, Certified, Combined}
use horizon_protocol.Beacon.{
  Pairwise, pairwise_spacelike_witnesses, Payload, Entry, BeaconCertificate, Refusal, BeaconVerdict,
  pass, rejected, emissions_from, first_related, broken, verified, emitter_ids,
}
use horizon_protocol.Beacon.Verifier.{
  bind_block, bind_blocks, verify_cones, value_gate, cone_gate, pairwise_gate, binding_gate,
  verify_beacon,
}
use horizon_protocol.Beacon.Entries.{entries_run}

module _ (sha256 : Block → String) (event_hash : Payload → String) (hmac : List ℕ → Body → String)
    (registry : Registry) where
  Bound-bind_block :
      (b : Entry) → Bound sha256 event_hash hmac b → bind_block sha256 event_hash hmac b ≡ ok none
  unfolding bind_block
  Bound-bind_block b h =
      let hashed : same_key (sha256 h.block) b.block_sha256 ≡ true = (eq_iff _ _).1 h.hashed in
      let payload = (eq_iff _ _).1 h.payload in
      let time = (eqb_ℤ_iff _ _).1 h.time in
      let place = (same_position_iff _ _).1 h.place in
      rw (h.read, hashed, payload, time, place) refl

  Bound-bind_blocks :
      (bs : List Entry)
      → All (Bound sha256 event_hash hmac) bs
      → bind_blocks sha256 event_hash hmac bs ≡ ok none
  unfolding bind_blocks
  Bound-bind_blocks [] h = refl
  Bound-bind_blocks (b ∷ bs) (bound, h) = rw (Bound-bind_block b bound) (Bound-bind_blocks bs h)

  Certified-verify_cones :
      (bs : List Entry) (cones : Dict String Bool)
      → All (Certified sha256 event_hash hmac registry) bs
      → (cones' : Dict String Bool) × (verify_cones sha256 event_hash hmac registry bs cones
          ≡ verified cones')
  unfolding verify_cones
  Certified-verify_cones [] cones h = (cones, refl)
  Certified-verify_cones (b ∷ bs) cones (certified, h) =
      let passed = (verify_certificate_iff hmac b.cone_certificate registry).1 certified in
      let (cones', ran) = Certified-verify_cones bs (put cones b.emitter_id true) h in
      (cones', rw passed ran)

  Combined-value_gate :
      (cert : BeaconCertificate) (pairwise : Dict String Pairwise) (cones : Dict String Bool)
      (value : String)
      → Combined sha256 event_hash hmac cert value
      → value_gate sha256 event_hash hmac cert pairwise cones ≡ ok (pass pairwise cones value)
  unfolding value_gate
  Combined-value_gate cert pairwise cones value h =
      let agrees : same_key (to_hex h.combination) cert.beacon_value_hex ≡ true =
        (eq_iff _ _).1 (h.written ∙ h.claimed) in
      rw (h.read, h.combined, agrees) (ap (λ v. ok (pass pairwise cones v)) (h.written))

  verified-cone_gate :
      (cert : BeaconCertificate) (pairwise : Dict String Pairwise) (cones : Dict String Bool)
      → verify_cones sha256 event_hash hmac registry cert.per_block [] ≡ verified cones
      → cone_gate sha256 event_hash hmac registry cert pairwise
        ≡ value_gate sha256 event_hash hmac cert pairwise cones
  unfolding cone_gate
  verified-cone_gate cert pairwise cones ran =
      ap
        (λ c. elim c [
          | broken r ↦ ok (rejected r (some pairwise))
          | verified found ↦ value_gate sha256 event_hash hmac cert pairwise found
        ])
        ran

  clear-pairwise_gate :
      (cert : BeaconCertificate) (pairwise : Dict String Pairwise)
      → pairwise_spacelike_witnesses (emissions_from [] cert.per_block) ≡ ok pairwise
      → first_related pairwise ≡ none
      → pairwise_gate sha256 event_hash hmac registry cert
        ≡ cone_gate sha256 event_hash hmac registry cert pairwise
  unfolding pairwise_gate
  clear-pairwise_gate cert pairwise compared clear =
      let after : Option Refusal → Dict String Pairwise → Result BeaconVerdict = λ o p. elim o [
        | some r ↦ ok (rejected r (some p))
        | none ↦ cone_gate sha256 event_hash hmac registry cert p
      ] in
      ap (λ m. m >>= (λ p. after (first_related p) p)) compared ∙ ap (λ o. after o pairwise) clear

  bound-binding_gate :
      (cert : BeaconCertificate)
      → bind_blocks sha256 event_hash hmac cert.per_block ≡ ok none
      → binding_gate sha256 event_hash hmac registry cert
        ≡ pairwise_gate sha256 event_hash hmac registry cert
  unfolding binding_gate
  bound-binding_gate cert bound = rw bound refl

  -- Whatever the names of the emitters, a beacon with at least three entries of distinct emitters,
  -- each bound to its block and event, whose emissions are pairwise out of one another's future
  -- light cones, whose cone certificates have receipts, all genuine, and whose value is the
  -- combination of the blocks, is verified without an error and passes with that value.
  pub verify_beacon_complete :
      (cert : BeaconCertificate) (value : String)
      → 3 ≤ length cert.per_block
      → distinct (emitter_ids cert.per_block) ≡ true
      → All (Bound sha256 event_hash hmac) cert.per_block
      → Pairs Spacelike cert.per_block
      → All (Certified sha256 event_hash hmac registry) cert.per_block
      → Combined sha256 event_hash hmac cert value
      → (p : Dict String Pairwise) × (c : Dict String Bool) × (verify_beacon sha256 event_hash hmac
            cert registry
          ≡ ok (pass p c value))
  unfolding verify_beacon
  verify_beacon_complete cert value enough once bound apart certified combined =
      let few : ltb (length cert.per_block) 3 ≡ false = ground arith in
      let (out, compared, clear) = entries_run cert.per_block once apart in
      let (cones, ran) = Certified-verify_cones cert.per_block [] certified in
      let gates =
        bound-binding_gate cert (Bound-bind_blocks cert.per_block bound)
        ∙ clear-pairwise_gate cert out compared clear
        ∙ verified-cone_gate cert out cones ran
        ∙ Combined-value_gate cert out cones value combined in
      (out, cones, rw (few, once) gates)
