-- ===== src/Beacon/Honest.antt =====
-- horizon/beacon.py: beacons that are built of honest emissions.
use horizon_protocol.Prelude.{
  ℕ, ◌≤◌, ◌<◌, ◌≡◌, refl, String, text_key, Bool, true, List, [], ◌∷◌, length, map, ℤ, distinct,
  Dict, All, ok,
}
use horizon_protocol.Geometry.{Position}
use horizon_protocol.Stations.{Body, Event, Registry}
use horizon_protocol.Certificate.{Certificate, build_cone_certificate}
use horizon_protocol.Certificate.Bound.{Reception, sign_all, honest_certificate_passes}
use horizon_protocol.Certificate.Genuine.{verify_certificate_iff}
use horizon_protocol.Beacon.Blocks.{Block, to_hex, xor_blocks}
use horizon_protocol.Beacon.Names.{Pairs}
use horizon_protocol.Beacon.Combine.{Fit, xor_blocks_error}
use horizon_protocol.Beacon.Hex.{from_hex-to_hex}
use horizon_protocol.Beacon.Spacelike.{Spacelike}
use horizon_protocol.Beacon.Sound.{Bound, Certified}
use horizon_protocol.Beacon.Complete.{verify_beacon_complete}
use horizon_protocol.Beacon.{
  Pairwise, Payload, emission_payload, Emission, Entry, BeaconCertificate, pass, emitter_ids,
  blocks_of, entry_of, build_entries, build_beacon_certificate,
}
use horizon_protocol.Beacon.Verifier.{verify_beacon}

module _ (sha256 : Block → String) (event_hash : Payload → String) (hmac : List ℕ → Body → String)
    (registry : Registry) where
  abbrev pub event_at : String → Block → ℤ → Position → Event
  event_at eid block t pos = record {
    payload_hash = event_hash (emission_payload eid (sha256 block));
    claimed_emit_time_ns = t;
    claimed_emit_pos_nm = pos;
  }

  -- An honest emitter: its block is of bytes, and stations receive the emission when light allows.
  pub record Emitter : Type 0 where
    pub emitter_id : String
    pub block : Block
    pub t_emit_ns : ℤ
    pub pos_nm : Position
    pub bytes : All (λ b. b < 256) block
    pub reception : Reception registry (event_at emitter_id block t_emit_ns pos_nm)
    pub receptions : List (Reception registry (event_at emitter_id block t_emit_ns pos_nm))

  abbrev pub certificate_of : Emitter → Certificate
  certificate_of e =
      let event = event_at e.emitter_id e.block e.t_emit_ns e.pos_nm in
      build_cone_certificate event (sign_all hmac registry event (e.reception ∷ e.receptions))

  abbrev pub emission_of : Emitter → Emission
  emission_of e = record {
    emitter_id = e.emitter_id;
    pos_nm = e.pos_nm;
    t_emit_ns = e.t_emit_ns;
    block_hex = to_hex e.block;
    cone_certificate = certificate_of e;
  }

  abbrev pub blocks : List Emitter → List Block
  blocks es = map (λ e. e.block) es

  abbrev pub entries : List Emitter → List Entry
  entries es = map (λ e. entry_of sha256 event_hash hmac (emission_of e) e.block) es

  build_entries-emissions :
      (es : List Emitter)
      → build_entries sha256 event_hash hmac (map emission_of es) ≡ ok (entries es, blocks es)
  unfolding build_entries
  build_entries-emissions [] = refl
  build_entries-emissions (e ∷ es) =
      rw (from_hex-to_hex e.block e.bytes, build_entries-emissions es) refl

  blocks_of-entries : (es : List Emitter) → blocks_of (entries es) ≡ ok (blocks es)
  unfolding blocks_of entry_of
  blocks_of-entries [] = refl
  blocks_of-entries (e ∷ es) = rw (from_hex-to_hex e.block e.bytes, blocks_of-entries es) refl

  entries-Bound : (es : List Emitter) → All (Bound sha256 event_hash hmac) (entries es)
  unfolding entry_of build_cone_certificate
  entries-Bound [] = tt
  entries-Bound (e ∷ es) = (
    record {
      block = e.block;
      read = from_hex-to_hex e.block e.bytes;
      hashed = refl;
      payload = refl;
      time = refl;
      place = refl;
    },
    entries-Bound es,
  )

  entries-Certified :
      (es : List Emitter) → All (Certified sha256 event_hash hmac registry) (entries es)
  unfolding entry_of
  entries-Certified [] = tt
  entries-Certified (e ∷ es) =
      let event = event_at e.emitter_id e.block e.t_emit_ns e.pos_nm in
      (
        (verify_certificate_iff hmac (certificate_of e) registry).0
            (honest_certificate_passes hmac registry event e.reception e.receptions),
        entries-Certified es,
      )

  -- The beacon that is built of at least three honest emissions, of distinct emitters, whose blocks
  -- have one length and of which none is in the future light cone of another, is built without an
  -- error, and it passes with the combination of the blocks as its value.
  pub honest_beacon_passes :
      (es : List Emitter)
      → 3 ≤ length (entries es)
      → distinct (emitter_ids (entries es)) ≡ true
      → Fit (blocks es)
      → Pairs Spacelike (entries es)
      → (cert : BeaconCertificate) × (v : Block) × (p : Dict String Pairwise) × (c : Dict String
          Bool)
        × (build_beacon_certificate sha256 event_hash hmac (map emission_of es) ≡ ok cert)
        × (xor_blocks (blocks es) ≡ ok v)
        × (verify_beacon sha256 event_hash hmac cert registry ≡ ok (pass p c (to_hex v)))
  unfolding build_beacon_certificate
  honest_beacon_passes es enough once fit apart =
      let (v, combined, _) = (xor_blocks_error (blocks es)).1.1 fit in
      let cert : BeaconCertificate = record {
        per_block = entries es;
        beacon_value_hex = to_hex v;
      } in
      let (p, c, passes) =
        verify_beacon_complete sha256 event_hash hmac registry cert (to_hex v) enough once
          (entries-Bound es) apart (entries-Certified es)
          (record {
            blocks = blocks es;
            combination = v;
            read = blocks_of-entries es;
            combined = combined;
            written = refl;
            claimed = refl;
          }) in
      (cert, v, p, c, rw (build_entries-emissions es, combined) refl, combined, passes)
