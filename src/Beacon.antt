-- ===== src/Beacon.antt =====
-- horizon/beacon.py: beacons, which combine entropy blocks whose emissions are out of one
-- another's light cones. SHA-256 of a block is the parameter `sha256`, that over the canonical
-- JSON of an emission's payload is `event_hash`.
pub mod Xor
pub mod Blocks
pub mod Fold
pub mod Combine
pub mod Hex
pub mod Verifier
mod Tests
pub mod Names
pub mod Stored
pub mod Pairs
pub mod Spacelike
pub mod Sound
pub mod Recorded
pub mod Entries
pub mod Complete
pub mod Honest
use horizon_protocol.Prelude.{
  ℕ, ltb, String, text_key, Bool, true, false, not, ◌&&◌, List, [], ◌∷◌, map, length, Option, none,
  some, ℤ, eqb_ℤ, same_key, distinct, concat, sorted_set, Dict, get, put, Result, ok, required,
  ◌>>=◌, if◌then◌else◌,
}
use horizon_protocol.Geometry.{Position, Witness, admissibility_witness, same_position}
use horizon_protocol.Stations.{Body, Registry, Gate}
use horizon_protocol.Certificate.{Certificate, verify_certificate}
use horizon_protocol.Ledger.{Stamp, Ledger, new_ledger, add_event, concurrent}
use horizon_protocol.Beacon.Blocks.{Block, to_hex, from_hex, xor_blocks}

abbrev pub min_sources_required : ℕ
min_sources_required = 3

-- The two directed witnesses of a pair of emissions, and the ledger's verdict on it.
pub record Pairwise : Type 0 where
  pub witness_forward : Witness
  pub witness_backward : Witness
  pub spacelike : Bool

abbrev pub Emissions : Type 0
Emissions = Dict String Stamp

unfoldable pub keys : Emissions → List String
keys [] = []
keys ((eid, e) ∷ emissions) = eid ∷ keys emissions

-- The text under which a pair is stored.
abbrev pub pair_name : String → String → String
pair_name a b = concat a (concat "|" b)

module _ (emissions : Emissions) where
  unfoldable pub record_all : List String → Ledger → Result Ledger
  record_all [] l = ok l
  record_all (eid ∷ ids) l = do
    e ← required (get emissions eid)
    l' ← add_event l eid e.time_ns e.pos_nm
    record_all ids l'

  unfoldable pub compare_pair : Ledger → String → String → Result Pairwise
  compare_pair ledger a b = do
    ea ← required (get emissions a)
    eb ← required (get emissions b)
    apart ← concurrent ledger a b
    ok (record {
      witness_forward = admissibility_witness ea.time_ns ea.pos_nm eb.time_ns eb.pos_nm;
      witness_backward = admissibility_witness eb.time_ns eb.pos_nm ea.time_ns ea.pos_nm;
      spacelike = apart;
    })

  -- The inner and the outer loop over the pairs.
  unfoldable pub compare_with :
      Ledger → String → List String → Dict String Pairwise → Result (Dict String Pairwise)
  compare_with ledger a [] out = ok out
  compare_with ledger a (b ∷ bs) out = do
    w ← compare_pair ledger a b
    compare_with ledger a bs (put out (pair_name a b) w)

  unfoldable pub compare_all :
      Ledger → List String → Dict String Pairwise → Result (Dict String Pairwise)
  unfolding compare_with compare_pair
  compare_all ledger [] out = ok out
  compare_all ledger (a ∷ ids) out = do
    out' ← compare_with ledger a ids out
    compare_all ledger ids out'

  unfoldable pub pairwise_spacelike_witnesses : Result (Dict String Pairwise)
  unfolding keys record_all compare_all
  pairwise_spacelike_witnesses = do
    let ids = sorted_set (keys emissions)
    ledger ← record_all ids new_ledger
    compare_all ledger ids []

pub record Payload : Type 0 where
  pub emitter_id : String
  pub block_sha256 : String

unfoldable pub emission_payload : String → String → Payload
emission_payload emitter_id block_sha256 = record {
  emitter_id = emitter_id;
  block_sha256 = block_sha256;
}

-- What `build_beacon_certificate` takes of an emitter.
pub record Emission : Type 0 where
  pub emitter_id : String
  pub pos_nm : Position
  pub t_emit_ns : ℤ
  pub block_hex : String
  pub cone_certificate : Certificate

pub record Entry : Type 0 where
  pub emitter_id : String
  pub pos_nm : Position
  pub t_emit_ns : ℤ
  pub block_hex : String
  pub block_sha256 : String
  pub cone_certificate : Certificate

-- The fields "type" and "version", which nothing reads, are left out.
pub record BeaconCertificate : Type 0 where
  pub per_block : List Entry
  pub beacon_value_hex : String

-- What a refusal names: the gate, and what it found.
pub data Refusal : Type 0 where
  min_sources : ℕ → Refusal
  distinct_sources : List String → Refusal
  block_hash payload_hash : (emitter_id recomputed claimed : String) → Refusal
  coordinates : (emitter_id : String) → Refusal
  pairwise_spacelike : (pair : String) → (forward : Bool) → Witness → Refusal
  cone_certificate : (emitter_id : String) → Option (Gate × Option String) → Refusal
  beacon_value : (recomputed claimed : String) → Refusal

pub data BeaconVerdict : Type 0 where
  pass : (pairwise : Dict String Pairwise) → (cones : Dict String Bool) → String → BeaconVerdict
  rejected : Refusal → Option (Dict String Pairwise) → BeaconVerdict

unfoldable pub emissions_from : Emissions → List Entry → Emissions
emissions_from emissions [] = emissions
emissions_from emissions (b ∷ bs) =
    emissions_from
      (put emissions b.emitter_id (record { time_ns = b.t_emit_ns; pos_nm = b.pos_nm })) bs

-- The first pair that is not spacelike, with the direction that light allows.
unfoldable pub first_related : Dict String Pairwise → Option Refusal
first_related [] = none
first_related ((pair, w) ∷ pairwise) =
    let rest = first_related pairwise in
    if w.spacelike
    then rest
    else if w.witness_forward.admissible
    then some (pairwise_spacelike pair true w.witness_forward)
    else some (pairwise_spacelike pair false w.witness_backward)

pub data Cones : Type 0 where
  broken : Refusal → Cones
  verified : Dict String Bool → Cones

abbrev pub emitter_ids : List Entry → List String
emitter_ids bs = map (λ b. b.emitter_id) bs

unfoldable pub blocks_of : List Entry → Result (List Block)
blocks_of [] = ok []
blocks_of (b ∷ bs) = do blk ← from_hex b.block_hex; blks ← blocks_of bs; ok (blk ∷ blks)

module _ (sha256 : Block → String) (event_hash : Payload → String)
    (hmac : List ℕ → Body → String) where
  unfoldable pub entry_of : Emission → Block → Entry
  entry_of e blk = record {
    emitter_id = e.emitter_id;
    pos_nm = e.pos_nm;
    t_emit_ns = e.t_emit_ns;
    block_hex = e.block_hex;
    block_sha256 = sha256 blk;
    cone_certificate = e.cone_certificate;
  }

  unfoldable pub build_entries : List Emission → Result (List Entry × List Block)
  unfolding entry_of
  build_entries [] = ok ([], [])
  build_entries (e ∷ es) = do
    blk ← from_hex e.block_hex
    (entries, blocks) ← build_entries es
    ok (entry_of e blk ∷ entries, blk ∷ blocks)

  unfoldable pub build_beacon_certificate : List Emission → Result BeaconCertificate
  unfolding build_entries
  build_beacon_certificate es = do
    (entries, blocks) ← build_entries es
    value ← xor_blocks blocks
    ok (record { per_block = entries; beacon_value_hex = to_hex value })
