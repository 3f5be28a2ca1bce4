-- ===== src/Beacon/Spacelike.antt =====
-- horizon/beacon.py: entries whose emissions the comparison of pairs finds spacelike.
use mathlib.Core.Path.{subst}
use mathlib.Core.Option.{some-injective}
use horizon_protocol.Prelude.{
  ◌≡◌, ◌≢◌, refl, sym, ◌∙◌, inl, inr, String, text_key, true, false, List, [], ◌∷◌, none, some,
  Bool-cases, same_key, same_key_self, elem, distinct, Dict, get, put, get-put, All, ok, eq_iff,
  arith,
}
use horizon_protocol.Geometry.{causally_admissible}
use horizon_protocol.Ledger.{Stamp}
use horizon_protocol.Beacon.Names.{Plain, Pairs}
use horizon_protocol.Beacon.Stored.{Apart}
use horizon_protocol.Beacon.Pairs.{witnesses-Apart}
use horizon_protocol.Beacon.{
  Pairwise, pairwise_spacelike_witnesses, Entry, Emissions, keys, emissions_from, first_related,
  emitter_ids,
}

abbrev pub stamp_of : Entry → Stamp
stamp_of b = record { time_ns = b.t_emit_ns; pos_nm = b.pos_nm }

-- The emissions hold what the entries say.
other_entry :
    (bs : List Entry) (emissions : Emissions) (k : String)
    → elem k (emitter_ids bs) ≡ false
    → get (emissions_from emissions bs) k ≡ get emissions k
unfolding emissions_from elem
other_entry [] emissions k h = refl
other_entry (b ∷ bs) emissions k h =
    let next = put emissions b.emitter_id (stamp_of b) in
    let off : same_key b.emitter_id k ≡ false =
      ground (arith, eq_iff k b.emitter_id, eq_iff b.emitter_id k) in
    other_entry bs next k (ground arith)
    ∙ get-put emissions b.emitter_id k (stamp_of b)
    ∙ rw off refl

abbrev pub Held : Emissions → Entry → Type 0
Held emissions b = get emissions b.emitter_id ≡ some (stamp_of b)

pub emissions_from-Held :
    (bs : List Entry) (emissions : Emissions)
    → distinct (emitter_ids bs) ≡ true
    → All (Held (emissions_from emissions bs)) bs
unfolding emissions_from distinct
emissions_from-Held [] emissions h = tt
emissions_from-Held (b ∷ bs) emissions h =
    let next = put emissions b.emitter_id (stamp_of b) in
    (
      other_entry bs next b.emitter_id (ground arith)
          ∙ get-put emissions b.emitter_id b.emitter_id (stamp_of b)
          ∙ rw (same_key_self b.emitter_id) refl,
      emissions_from-Held bs next (ground arith),
    )

keys-put :
    (P : String → Type 0) (emissions : Emissions) (k : String) (e : Stamp)
    → P k
    → All P (keys emissions)
    → All P (keys (put emissions k e))
unfolding keys put
keys-put P [] k e p h = (p, tt)
keys-put P ((j, f) ∷ emissions) k e p (q, h) = elim (Bool-cases (same_key j k)) [
  | inl same ↦ rw same (q, h)
  | inr other ↦ rw other (q, keys-put P emissions k e p h)
]

pub keys-emissions_from :
    (P : String → Type 0) (bs : List Entry) (emissions : Emissions)
    → All P (keys emissions)
    → All P (emitter_ids bs)
    → All P (keys (emissions_from emissions bs))
unfolding emissions_from
keys-emissions_from P [] emissions h all = h
keys-emissions_from P (b ∷ bs) emissions h (p, all) =
    keys-emissions_from P bs (put emissions b.emitter_id (stamp_of b))
      (keys-put P emissions b.emitter_id (stamp_of b) p h) all

elem-keys :
    (emissions : Emissions) (k : String) {e : Stamp}
    → get emissions k ≡ some e
    → elem k (keys emissions) ≡ true
unfolding keys elem get
elem-keys [] k h = cc
elem-keys ((j, f) ∷ emissions) k {e} h =
    ground (arith, eq_iff j k, eq_iff k j, elem-keys emissions k {e = e})

-- Neither emission is in the future light cone of the other.
abbrev pub Spacelike : Entry → Entry → Type 0
Spacelike b c =
    (causally_admissible b.t_emit_ns b.pos_nm c.t_emit_ns c.pos_nm ≡ false)
    × (causally_admissible c.t_emit_ns c.pos_nm b.t_emit_ns b.pos_nm ≡ false)

not_equal :
    (a : String) (b : Entry) (bs : List Entry)
    → elem a (emitter_ids (b ∷ bs)) ≡ false
    → a ≢ b.emitter_id
unfolding elem
not_equal a b bs h same = let here = same_key_self b.emitter_id in cc

module _ (emissions : Emissions)
    (apart : (b c : Entry)
      → Held emissions b
      → Held emissions c
      → b.emitter_id ≢ c.emitter_id
      → Spacelike b c) where
  row-Spacelike :
      (b : Entry) (bs : List Entry)
      → Held emissions b
      → All (Held emissions) bs
      → elem b.emitter_id (emitter_ids bs) ≡ false
      → All (Spacelike b) bs
  unfolding elem
  row-Spacelike b [] h hs off = tt
  row-Spacelike b (c ∷ bs) h (k, hs) off =
      (apart b c h k (not_equal b.emitter_id c bs off), row-Spacelike b bs h hs (ground arith))

  All-Spacelike :
      (bs : List Entry)
      → All (Held emissions) bs
      → distinct (emitter_ids bs) ≡ true
      → Pairs Spacelike bs
  unfolding distinct
  All-Spacelike [] hs once = tt
  All-Spacelike (b ∷ bs) (h, hs) once =
      (row-Spacelike b bs h hs (ground arith), All-Spacelike bs hs (ground arith))

Apart-Spacelike :
    (emissions : Emissions) (b c : Entry)
    → Held emissions b
    → Held emissions c
    → Apart emissions b.emitter_id c.emitter_id
    → Spacelike b c
Apart-Spacelike emissions b c h k (eb, ec, at_b, at_c, bc, cb) =
    let same_b : eb ≡ stamp_of b = some-injective _ _ (sym at_b ∙ h) in
    let same_c : ec ≡ stamp_of c = some-injective _ _ (sym at_c ∙ k) in
    (
      subst
          (λ (e : Stamp × Stamp).
            causally_admissible e.0.time_ns e.0.pos_nm e.1.time_ns e.1.pos_nm ≡ false)
          (λ i. (same_b i, same_c i)) bc,
      subst
          (λ (e : Stamp × Stamp).
            causally_admissible e.1.time_ns e.1.pos_nm e.0.time_ns e.0.pos_nm ≡ false)
          (λ i. (same_b i, same_c i)) cb,
    )

-- The comparison of the pairs finds all entries of distinct plain names spacelike.
pub witnesses-Spacelike :
    (bs : List Entry) {out : Dict String Pairwise}
    → distinct (emitter_ids bs) ≡ true
    → All Plain (emitter_ids bs)
    → pairwise_spacelike_witnesses (emissions_from [] bs) ≡ ok out
    → first_related out ≡ none
    → Pairs Spacelike bs
unfolding keys
witnesses-Spacelike bs once plain h clear =
    let emissions = emissions_from [] bs in
    let names = keys-emissions_from Plain bs [] tt plain in
    All-Spacelike emissions
      (λ b c held held' other. Apart-Spacelike emissions b c held held' (
        witnesses-Apart emissions b.emitter_id c.emitter_id names h clear
          (elem-keys emissions b.emitter_id held) (elem-keys emissions c.emitter_id held') other))
      bs (emissions_from-Held bs [] once) once
