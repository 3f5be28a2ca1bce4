-- ===== src/Beacon/Tests.antt =====
-- A beacon of three emitters, and the theorems at it.
use horizon_protocol.Prelude.{
  ◌≤ℤ◌, map, arith, ℕ, ◌≤◌, ◌≡◌, ◌↔◌, refl, String, text_key, pair_key, Bool, true, List, [], ◌∷◌,
  none, pos, ◌+ℤ◌, ◌-ℤ◌, ◌*ℤ◌, min_ℤ, square, magnitude, All, get, put, isqrt, concat, distinct,
  elem, sorted_set, ok, raise, value_error, length, Dict,
}
use horizon_protocol.LightTime.{light_search}
use horizon_protocol.Geometry.{
  Position, causally_admissible, admissibility_witness, dist2, min_light_time_ns, same_position,
}
use horizon_protocol.Stations.{
  Body, Registry, Station, receipt_body, sign_receipt, verify_receipt, bind_receipt,
}
use horizon_protocol.Certificate.{
  earliest, upper_bound, check_receipt, check_all, verdict_of, verify_certificate,
}
use horizon_protocol.Ledger.{add_event, concurrent}
use horizon_protocol.Beacon.Blocks.{
  Block, to_hex, from_hex, hex_value, is_space, hex_step, read_hex, zeros, xor, xor_onto,
  xor_blocks,
}
use horizon_protocol.Beacon.Names.{Pairs}
use horizon_protocol.Beacon.Fold.{HasLength}
use horizon_protocol.Beacon.Combine.{Fit, xor_blocks_error, xor_blocks_recover}
use horizon_protocol.Beacon.{
  Pairwise, keys, record_all, compare_pair, compare_with, compare_all, pairwise_spacelike_witnesses,
  Payload, emission_payload, Emission, Entry, BeaconCertificate, pass, emissions_from,
  first_related, emitter_ids, blocks_of, entry_of, build_entries, build_beacon_certificate,
  Emissions,
}
use horizon_protocol.Beacon.Verifier.{
  bind_block, bind_blocks, verify_cones, value_gate, cone_gate, pairwise_gate, binding_gate,
  verify_beacon,
}
use horizon_protocol.Beacon.Spacelike.{Spacelike}
use horizon_protocol.Beacon.Sound.{Bound, Certified, Combined, verify_beacon_sound}
use horizon_protocol.Beacon.Complete.{verify_beacon_complete}
use horizon_protocol.Beacon.Honest.{
  Emitter, event_at, emission_of, blocks, entries, honest_beacon_passes,
}
use horizon_protocol.Certificate.Bound.{Reception}

program : Unit {0}
unfolding ◌+ℤ◌ ◌-ℤ◌ ◌*ℤ◌ min_ℤ square magnitude get put isqrt concat distinct elem sorted_set
    light_search causally_admissible admissibility_witness dist2 min_light_time_ns same_position
    receipt_body sign_receipt verify_receipt bind_receipt earliest upper_bound check_receipt
    check_all verdict_of verify_certificate add_event concurrent to_hex from_hex hex_value is_space
    hex_step read_hex zeros xor xor_onto xor_blocks keys record_all compare_pair compare_with
    compare_all pairwise_spacelike_witnesses emission_payload emissions_from first_related blocks_of
    entry_of build_entries build_beacon_certificate bind_block bind_blocks verify_cones value_gate
    cone_gate pairwise_gate binding_gate verify_beacon
program = tt

-- Stand-ins for the hashes.
abbrev sha256 : Block → String
sha256 block = "00"

abbrev event_hash : Payload → String
event_hash p = p.emitter_id

abbrev hmac : List ℕ → Body → String
hmac key body = body.payload_hash

abbrev place : ℕ → Position
place n = record { x = pos n; y = pos 0; z = pos 0 }

abbrev station : Station
station = record { station_id = "s"; pos_nm = place 0; key = 1 ∷ []; proc_delay_ns = pos 0 }

abbrev registry : Registry
registry = ("s", station) ∷ []

-- An emission at a place, received at the station at 2000000.
abbrev emission : String → ℕ → String → Emission
emission eid x block_hex = record {
  emitter_id = eid;
  pos_nm = place x;
  t_emit_ns = pos 1000000;
  block_hex = block_hex;
  cone_certificate = record {
    event = record {
      payload_hash = eid;
      claimed_emit_time_ns = pos 1000000;
      claimed_emit_pos_nm = place x;
    };
    receipts = sign_receipt hmac station eid (pos 2000000) ∷ [];
  };
}

abbrev emitted : List Emission
emitted =
    emission "E1" 0 "0aF0"
    ∷ emission "E2" 50000000000000 "01 02"
    ∷ emission "E3" 100000000000000 "ff00"
    ∷ []

abbrev entry : String → ℕ → String → Entry
entry eid x block_hex = let e = emission eid x block_hex in entry_of sha256 event_hash hmac e []

abbrev beacon : BeaconCertificate
beacon = record {
  per_block =
      entry "E1" 0 "0aF0"
      ∷ entry "E2" 50000000000000 "01 02"
      ∷ entry "E3" 100000000000000 "ff00"
      ∷ [];
  beacon_value_hex = "f4f2";
}

built : build_beacon_certificate sha256 event_hash hmac emitted ≡ ok beacon
unfolding program
built = refl

passes :
    (p : Dict String Pairwise) × (c : Dict String Bool) × (verify_beacon sha256 event_hash hmac
        beacon registry
      ≡ ok (pass p c "f4f2"))
unfolding program
passes = (_, _, refl)

-- Names with a bar: the pairs a with b|c, and a|b with c, are stored under one text, so that the
-- first, whose second emission lies in the future light cone of the first, goes unnoticed.
abbrev barred : Emissions
barred =
    ("a", record { time_ns = pos 0; pos_nm = place 0 })
    ∷ ("b|c", record { time_ns = pos 1000000; pos_nm = place 0 })
    ∷ ("a|b", record { time_ns = pos 0; pos_nm = place 900000000000000 })
    ∷ ("c", record { time_ns = pos 0; pos_nm = place 500000000000000 })
    ∷ []

bar_hides_pair :
    ((out : Dict String Pairwise) × (pairwise_spacelike_witnesses barred ≡ ok out)
      × (first_related out ≡ none))
    × (causally_admissible (pos 0) (place 0) (pos 1000000) (place 0) ≡ true)
unfolding program
bar_hides_pair = ((_, refl, refl), refl)

xor_blocks_error_example :
    let blocks : List Block = (1 ∷ []) ∷ (2 ∷ 3 ∷ []) ∷ [] in
    ((xor_blocks blocks ≡ raise value_error) ↔ (¬ Fit blocks))
    × (((v : Block) × (xor_blocks blocks ≡ ok v) × All (HasLength (length v)) blocks) ↔ Fit blocks)
xor_blocks_error_example = xor_blocks_error ((1 ∷ []) ∷ (2 ∷ 3 ∷ []) ∷ [])

combined_three :
    xor_blocks ((10 ∷ 240 ∷ []) ∷ (1 ∷ 2 ∷ []) ∷ (255 ∷ 0 ∷ []) ∷ []) ≡ ok (244 ∷ 242 ∷ [])
unfolding program
combined_three = refl

xor_blocks_recover_example :
    xor_blocks ((244 ∷ 242 ∷ []) ∷ (10 ∷ 240 ∷ []) ∷ (255 ∷ 0 ∷ []) ∷ []) ≡ ok (1 ∷ 2 ∷ [])
xor_blocks_recover_example =
    xor_blocks_recover ((10 ∷ 240 ∷ []) ∷ []) ((255 ∷ 0 ∷ []) ∷ []) (1 ∷ 2 ∷ []) (244 ∷ 242 ∷ [])
      combined_three

verify_beacon_sound_example :
    (3 ≤ length beacon.per_block)
    × (distinct (emitter_ids beacon.per_block) ≡ true)
    × All (Bound sha256 event_hash hmac) beacon.per_block
    × Pairs Spacelike beacon.per_block
    × All (Certified sha256 event_hash hmac registry) beacon.per_block
    × Combined sha256 event_hash hmac beacon "f4f2"
unfolding entry_of
verify_beacon_sound_example =
    verify_beacon_sound sha256 event_hash hmac beacon registry (refl, (refl, (refl, tt))) passes.2

verify_beacon_complete_example :
    (p : Dict String Pairwise) × (c : Dict String Bool) × (verify_beacon sha256 event_hash hmac
        beacon registry
      ≡ ok (pass p c "f4f2"))
unfolding entry_of
verify_beacon_complete_example =
    let facts =
      verify_beacon_sound sha256 event_hash hmac beacon registry (refl, (refl, (refl, tt)))
        passes.2 in
    verify_beacon_complete sha256 event_hash hmac registry beacon "f4f2" facts.0 facts.1 facts.2
      facts.3 facts.4 facts.5

-- An honest emitter at a place, whose emission is received at the station at 1000000000.
abbrev arrives :
    (eid : String) (block : Block) (x : ℕ)
    → pos 1000000 +ℤ pos (min_light_time_ns (place x) (place 0)) ≤ℤ pos 1000000000
    → Reception registry
        (event_at sha256 event_hash hmac registry eid block (pos 1000000) (place x))
unfolding get
arrives eid block x after = record {
  station = station;
  recv_time_ns = pos 1000000000;
  registered = refl;
  after_light = after;
}

abbrev honest : List (Emitter sha256 event_hash hmac registry)
unfolding program
honest =
    record {
      emitter_id = "E1";
      block = 10 ∷ 240 ∷ [];
      t_emit_ns = pos 1000000;
      pos_nm = place 0;
      bytes = (omega arith, (omega arith, tt));
      reception = arrives "E1" (10 ∷ 240 ∷ []) 0 (omega arith);
      receptions = [];
    }
    ∷ record {
      emitter_id = "E2";
      block = 1 ∷ 2 ∷ [];
      t_emit_ns = pos 1000000;
      pos_nm = place 50000000000000;
      bytes = (omega arith, (omega arith, tt));
      reception = arrives "E2" (1 ∷ 2 ∷ []) 50000000000000 (omega arith);
      receptions = [];
    }
    ∷ record {
      emitter_id = "E3";
      block = 255 ∷ 0 ∷ [];
      t_emit_ns = pos 1000000;
      pos_nm = place 100000000000000;
      bytes = (omega arith, (omega arith, tt));
      reception = arrives "E3" (255 ∷ 0 ∷ []) 100000000000000 (omega arith);
      receptions = [];
    }
    ∷ []

honest-Spacelike : Pairs Spacelike (entries sha256 event_hash hmac registry honest)
unfolding program
honest-Spacelike = (((refl, refl), ((refl, refl), tt)), (((refl, refl), tt), (tt, tt)))

honest_beacon_passes_example :
    (cert : BeaconCertificate) × (v : Block) × (p : Dict String Pairwise) × (c : Dict String Bool)
    × (build_beacon_certificate sha256 event_hash hmac
          (map (emission_of sha256 event_hash hmac registry) honest)
        ≡ ok cert)
    × (xor_blocks (blocks sha256 event_hash hmac registry honest) ≡ ok v)
    × (verify_beacon sha256 event_hash hmac cert registry ≡ ok (pass p c (to_hex v)))
unfolding program
honest_beacon_passes_example =
    honest_beacon_passes sha256 event_hash hmac registry honest (omega arith) refl
      (refl, (refl, tt)) honest-Spacelike
