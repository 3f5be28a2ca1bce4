-- ===== src/Beacon/Verifier.antt =====
-- horizon/beacon.py: the standalone verifier of beacons, with its gates in order.
use horizon_protocol.Prelude.{
  ℕ, ltb, String, text_key, Bool, not, ◌||◌, List, [], ◌∷◌, length, Option, none, some, eqb_ℤ,
  same_key, distinct, Dict, put, Result, ok, ◌>>=◌, if◌then◌else◌,
}
use horizon_protocol.Geometry.{same_position}
use horizon_protocol.Stations.{Body, Registry}
use horizon_protocol.Certificate.{verify_certificate}
use horizon_protocol.Beacon.Blocks.{Block, to_hex, from_hex, xor_blocks}
use horizon_protocol.Beacon.{
  min_sources_required, Pairwise, pairwise_spacelike_witnesses, Payload, emission_payload, Entry,
  BeaconCertificate, Refusal, min_sources, distinct_sources, block_hash, payload_hash, coordinates,
  cone_certificate, beacon_value, BeaconVerdict, pass, rejected, emissions_from, first_related,
  Cones, broken, verified, emitter_ids, blocks_of,
}

module _ (sha256 : Block → String) (event_hash : Payload → String)
    (hmac : List ℕ → Body → String) where
  -- The gate on one block: its hash, the payload of its event, and where and when it was emitted.
  unfoldable pub bind_block : Entry → Result (Option Refusal)
  bind_block b = do
    blk ← from_hex b.block_hex
    let h = sha256 blk
    let expected = event_hash (emission_payload b.emitter_id b.block_sha256)
    let ev = b.cone_certificate.event
    ok (
        if not (same_key h b.block_sha256)
        then some (block_hash b.emitter_id h b.block_sha256)
        else if not (same_key ev.payload_hash expected)
        then some (payload_hash b.emitter_id expected ev.payload_hash)
        else if not (eqb_ℤ ev.claimed_emit_time_ns b.t_emit_ns)
            || not (same_position ev.claimed_emit_pos_nm b.pos_nm)
        then some (coordinates b.emitter_id)
        else none)

  -- The loop over the blocks stops at the first refusal.
  unfoldable pub bind_blocks : List Entry → Result (Option Refusal)
  unfolding bind_block
  bind_blocks [] = ok none
  bind_blocks (b ∷ bs) = do
    refusal ← bind_block b
    elim refusal [ some r ↦ ok (some r) | none ↦ bind_blocks bs ]

  unfoldable pub verify_cones : Registry → List Entry → Dict String Bool → Cones
  verify_cones registry [] cones = verified cones
  verify_cones registry (b ∷ bs) cones =
      let res = verify_certificate hmac b.cone_certificate registry in
      let rest = verify_cones registry bs (put cones b.emitter_id res.pass) in
      if res.pass then rest else broken (cone_certificate b.emitter_id res.refusal)

  unfoldable pub value_gate :
      BeaconCertificate → Dict String Pairwise → Dict String Bool → Result BeaconVerdict
  value_gate cert pairwise cones = do
    blocks ← blocks_of cert.per_block
    recomputed ← xor_blocks blocks
    let value = to_hex recomputed
    ok (
        if not (same_key value cert.beacon_value_hex)
        then rejected (beacon_value value cert.beacon_value_hex) none
        else pass pairwise cones value)

  -- The gates from the cone certificates on.
  unfoldable pub cone_gate :
      Registry → BeaconCertificate → Dict String Pairwise → Result BeaconVerdict
  unfolding verify_cones value_gate
  cone_gate registry cert pairwise = elim (verify_cones registry cert.per_block []) [
    | broken r ↦ ok (rejected r (some pairwise))
    | verified cones ↦ value_gate cert pairwise cones
  ]

  -- The gates from the pairs of emissions on.
  unfoldable pub pairwise_gate : Registry → BeaconCertificate → Result BeaconVerdict
  unfolding cone_gate
  pairwise_gate registry cert = do
    pairwise ← pairwise_spacelike_witnesses (emissions_from [] cert.per_block)
    elim (first_related pairwise) [
      | some r ↦ ok (rejected r (some pairwise))
      | none ↦ cone_gate registry cert pairwise
    ]

  -- The gates from the binding of the blocks on.
  unfoldable pub binding_gate : Registry → BeaconCertificate → Result BeaconVerdict
  unfolding bind_blocks pairwise_gate
  binding_gate registry cert = do
    refusal ← bind_blocks cert.per_block
    elim refusal [ some r ↦ ok (rejected r none) | none ↦ pairwise_gate registry cert ]

  unfoldable pub verify_beacon : BeaconCertificate → Registry → Result BeaconVerdict
  unfolding binding_gate
  verify_beacon cert registry =
      let ids = emitter_ids cert.per_block in
      let rest = binding_gate registry cert in
      if ltb (length cert.per_block) min_sources_required
      then ok (rejected (min_sources (length cert.per_block)) none)
      else if not (distinct ids)
      then ok (rejected (distinct_sources ids) none)
      else rest
