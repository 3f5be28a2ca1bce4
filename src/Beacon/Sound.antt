-- ===== src/Beacon/Sound.antt =====
-- horizon/beacon.py: what a beacon that passes shows.
use horizon_protocol.Prelude.{
  ℕ, ◌≤◌, ltb, le_of_ltb, ◌≡◌, ◌≢◌, refl, sym, ◌∙◌, ap, inl, inr, String, text_key, Bool, true,
  List, [], ◌∷◌, length, Option, none, some, Bool-cases, eqb_ℤ_iff, distinct, Dict, All, Result, ok,
  ok-injective, bound_value, eq_iff, arith,
}
use horizon_protocol.Geometry.Cone.{same_position_iff}
use horizon_protocol.Stations.{Body, Registry}
use horizon_protocol.Certificate.{verify_certificate}
use horizon_protocol.Certificate.Genuine.{Genuine, verify_certificate_iff}
use horizon_protocol.Beacon.Blocks.{Block, to_hex, from_hex, xor_blocks}
use horizon_protocol.Beacon.Names.{no_bar, Plain, Pairs}
use horizon_protocol.Beacon.Spacelike.{Spacelike, witnesses-Spacelike}
use horizon_protocol.Beacon.{
  Pairwise, pairwise_spacelike_witnesses, Payload, emission_payload, Entry, BeaconCertificate,
  Refusal, BeaconVerdict, pass, rejected, emissions_from, first_related, Cones, broken, verified,
  emitter_ids, blocks_of,
}
use horizon_protocol.Beacon.Verifier.{
  bind_block, bind_blocks, verify_cones, value_gate, cone_gate, pairwise_gate, binding_gate,
  verify_beacon,
}

module _ (sha256 : Block → String) (event_hash : Payload → String)
    (hmac : List ℕ → Body → String) where
  -- The block has the hash that the entry states, and the event of its cone certificate is the
  -- emission of that hash by the entry's emitter, where and when the entry says.
  pub record Bound (b : Entry) : Type 0 where
    pub block : Block
    pub read : from_hex b.block_hex ≡ ok block
    pub hashed : sha256 block ≡ b.block_sha256
    pub payload :
        b.cone_certificate.event.payload_hash
        ≡ event_hash (emission_payload b.emitter_id b.block_sha256)
    pub time : b.cone_certificate.event.claimed_emit_time_ns ≡ b.t_emit_ns
    pub place : b.cone_certificate.event.claimed_emit_pos_nm ≡ b.pos_nm

  bind_block-Bound : (b : Entry) → bind_block sha256 event_hash hmac b ≡ ok none → Bound b
  unfolding bind_block
  bind_block-Bound b h =
      let (blk, read, h1) = bound_value (from_hex b.block_hex) h in
      let clear = ok-injective h1 in
      let ev = b.cone_certificate.event in
      record {
        block = blk;
        read = sym read;
        hashed = ground (arith, clear, eq_iff (sha256 blk) b.block_sha256);
        payload = ground (
          arith,
          clear,
          eq_iff ev.payload_hash (event_hash (emission_payload b.emitter_id b.block_sha256)),
        );
        time = ground (arith, clear, eqb_ℤ_iff ev.claimed_emit_time_ns b.t_emit_ns);
        place = ground (arith, clear, same_position_iff ev.claimed_emit_pos_nm b.pos_nm);
      }

  no_refusal :
      (o : Option Refusal) (go_on : Result (Option Refusal))
      → elim o [ some r ↦ ok (some r) | none ↦ go_on ] ≡ ok none
      → (o ≡ none) × (go_on ≡ ok none)
  no_refusal none go_on h = (refl, h)
  no_refusal (some r) go_on h = cc

  bind_blocks-Bound :
      (bs : List Entry) → bind_blocks sha256 event_hash hmac bs ≡ ok none → All Bound bs
  unfolding bind_blocks
  bind_blocks-Bound [] h = tt
  bind_blocks-Bound (b ∷ bs) h =
      let (o, made, h1) = bound_value (bind_block sha256 event_hash hmac b) h in
      let (clear, rest) = no_refusal o (bind_blocks sha256 event_hash hmac bs) (sym h1) in
      (bind_block-Bound b (sym made ∙ ap ok clear), bind_blocks-Bound bs rest)

  -- The cone certificate has receipts, all of them genuine.
  abbrev pub Certified : Registry → Entry → Type 0
  Certified registry b =
      (b.cone_certificate.receipts ≢ [])
      × All (Genuine hmac registry b.cone_certificate.event) b.cone_certificate.receipts

  verify_cones-Certified :
      (registry : Registry) (bs : List Entry) (cones : Dict String Bool) {cones' : Dict String Bool}
      → verify_cones sha256 event_hash hmac registry bs cones ≡ verified cones'
      → All (Certified registry) bs
  unfolding verify_cones
  verify_cones-Certified registry [] cones h = tt
  verify_cones-Certified registry (b ∷ bs) cones h =
      elim (Bool-cases (verify_certificate hmac b.cone_certificate registry).pass) [
        | inl passed ↦ (
          (verify_certificate_iff hmac b.cone_certificate registry).0 passed,
          verify_cones-Certified registry bs _ (rw passed at h),
        )
        | inr failed ↦ absurd (not_verified (rw failed at h))
      ]
    where
      not_verified : {r : Refusal} {cones : Dict String Bool} → broken r ≡ verified cones → ⊥
      not_verified e = cc

  module _ (cert : BeaconCertificate) where
    -- The value is the combination of the blocks, in hexadecimal.
    pub record Combined (value : String) : Type 0 where
      pub blocks : List Block
      pub combination : Block
      pub read : blocks_of cert.per_block ≡ ok blocks
      pub combined : xor_blocks blocks ≡ ok combination
      pub written : to_hex combination ≡ value
      pub claimed : value ≡ cert.beacon_value_hex

    value_gate-Combined :
        (pairwise : Dict String Pairwise) (cones : Dict String Bool) {p : Dict String Pairwise}
        {c : Dict String Bool} {value : String}
        → value_gate sha256 event_hash hmac cert pairwise cones ≡ ok (pass p c value)
        → Combined value
    unfolding value_gate
    value_gate-Combined pairwise cones {value = value} h =
        let (blocks, read, h1) = bound_value (blocks_of cert.per_block) h in
        let (combination, combined, h2) = bound_value (xor_blocks blocks) (sym h1) in
        let end = ok-injective h2 in
        let written : to_hex combination ≡ value = ground (arith, end) in
        record {
          blocks = blocks;
          combination = combination;
          read = sym read;
          combined = sym combined;
          written = written;
          claimed =
              sym written ∙ ground (arith, end, eq_iff (to_hex combination) cert.beacon_value_hex);
        }

    after :
        (o : Option Refusal) (seen : Option (Dict String Pairwise)) (go_on : Result BeaconVerdict)
        {p : Dict String Pairwise} {c : Dict String Bool} {value : String}
        → elim o [ some r ↦ ok (rejected r seen) | none ↦ go_on ] ≡ ok (pass p c value)
        → (o ≡ none) × (go_on ≡ ok (pass p c value))
    after none seen go_on h = (refl, h)
    after (some r) seen go_on h = cc

    cone_gate-Certified :
        (registry : Registry) (pairwise : Dict String Pairwise) {p : Dict String Pairwise}
        {c : Dict String Bool} {value : String}
        → cone_gate sha256 event_hash hmac registry cert pairwise ≡ ok (pass p c value)
        → All (Certified registry) cert.per_block × Combined value
    unfolding cone_gate
    cone_gate-Certified registry pairwise {p} {c} {value} h =
        decide (verify_cones sha256 event_hash hmac registry cert.per_block []) refl
      where
        refused :
            {r : Refusal} {seen : Option (Dict String Pairwise)}
            → ok (rejected r seen) ≡ ok (pass p c value)
            → ⊥
        refused e = cc

        decide :
            (found : Cones)
            → verify_cones sha256 event_hash hmac registry cert.per_block [] ≡ found
            → All (Certified registry) cert.per_block × Combined value
        decide (broken r) e = absurd (refused (rw (e, cone_gate) at h))
        decide (verified cones) e = (
          verify_cones-Certified registry cert.per_block [] e,
          value_gate-Combined pairwise cones (rw (e, cone_gate) at h),
        )

    binding_gate-parts :
        (registry : Registry) {p : Dict String Pairwise} {c : Dict String Bool} {value : String}
        → distinct (emitter_ids cert.per_block) ≡ true
        → All Plain (emitter_ids cert.per_block)
        → binding_gate sha256 event_hash hmac registry cert ≡ ok (pass p c value)
        → All Bound cert.per_block
          × Pairs Spacelike cert.per_block
          × All (Certified registry) cert.per_block
          × Combined value
    unfolding binding_gate pairwise_gate
    binding_gate-parts registry once plain h =
        let (o, made, h1) = bound_value (bind_blocks sha256 event_hash hmac cert.per_block) h in
        let (clear, h2) =
          after o none (pairwise_gate sha256 event_hash hmac registry cert) (sym h1) in
        let (out, compared, h3) =
          bound_value (pairwise_spacelike_witnesses (emissions_from [] cert.per_block)) h2 in
        let (apart, h4) =
          after (first_related out) (some out) (cone_gate sha256 event_hash hmac registry cert out)
            (sym h3) in
        let (certified, combined) = cone_gate-Certified registry out h4 in
        (
          bind_blocks-Bound cert.per_block (sym made ∙ ap ok clear),
          witnesses-Spacelike cert.per_block once plain (sym compared) apart,
          certified,
          combined,
        )

    -- A beacon that passes, of emitters without a bar in their names, has at least three entries of
    -- distinct emitters. Each block has the stated hash and is bound to the event of its cone
    -- certificate; no emission is in the future light cone of another; the cone certificates have
    -- receipts, all genuine; and the reported value is the combination of the blocks.
    pub verify_beacon_sound :
        (registry : Registry) {p : Dict String Pairwise} {c : Dict String Bool} {value : String}
        → All (λ eid. no_bar eid ≡ true) (emitter_ids cert.per_block)
        → verify_beacon sha256 event_hash hmac cert registry ≡ ok (pass p c value)
        → (3 ≤ length cert.per_block)
          × (distinct (emitter_ids cert.per_block) ≡ true)
          × All Bound cert.per_block
          × Pairs Spacelike cert.per_block
          × All (Certified registry) cert.per_block
          × Combined value
    unfolding verify_beacon
    verify_beacon_sound registry plain h = elim (Bool-cases (ltb (length cert.per_block) 3)) [
      | inl few ↦ cc
      | inr enough ↦ elim (Bool-cases (distinct (emitter_ids cert.per_block))) [
        | inr repeated ↦ cc
        | inl once ↦
            let (bound, apart, certified, combined) =
              binding_gate-parts registry once plain (rw (enough, once) at h) in
            (le_of_ltb _ _ enough, once, bound, apart, certified, combined)
      ]
    ]
