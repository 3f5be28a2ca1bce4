-- ===== src/Distance/Verifiers.antt =====
-- horizon/distance.py: a position claim against several verifiers.
use horizon_protocol.Prelude.{
  ◌*◌, ◌≡◌, ◌∙◌, ◌↔◌, ap, sym, refl, Bool, true, false, String, text_key, List, [], ◌∷◌, All,
  Option, none, some, Dict, get, ℤ, pos, ◌+ℤ◌, ◌-ℤ◌, ◌≤ℤ◌, ltb_ℤ, ok, required, ok-injective,
  bound_value, sorted_set, sorted_set-All, if◌then◌else◌, arith, int_laws, le_of_ltb,
}
use horizon_protocol.Geometry.{Position, dist2, min_light_time_ns}
use horizon_protocol.Geometry.Floor.{in_cone_iff}
use horizon_protocol.Distance.{
  min_round_trip_ns, RttWitness, too_fast, rtt_gate, rtt_bound_witness, Multilateration, names,
  measure_from, none_failing, multilateration,
}

-- An answer that light allows and that a prover at the claimed place can give in time.
abbrev pub InTime : (rtt proc_ns : ℤ) → (v p : Position) → Type 0
InTime rtt proc_ns v p =
    (proc_ns +ℤ pos (min_round_trip_ns v p) ≤ℤ rtt)
    × (rtt ≤ℤ proc_ns +ℤ pos (2 * min_light_time_ns v p))

too_fast_iff :
    (dt : ℤ) (v p : Position)
    → (too_fast dt (4 * dist2 v p) ≡ false) ↔ (pos (min_round_trip_ns v p) ≤ℤ dt)
unfolding too_fast min_round_trip_ns
too_fast_iff dt v p =
    let cone = in_cone_iff dt (4 * dist2 v p) in
    (λ h. cone.0 (ground arith), λ h. let inside = cone.1 h in ground arith)

-- One verifier admits exactly the answers that are in time.
admits_iff :
    (rtt proc_ns : ℤ) (v p : Position)
    → ((rtt_bound_witness rtt proc_ns v p).admitted ≡ true) ↔ InTime rtt proc_ns v p
unfolding rtt_bound_witness rtt_gate
admits_iff rtt proc_ns v p =
    let floor = too_fast_iff (rtt -ℤ proc_ns) v p in
    (
      λ h.
          let slow : too_fast (rtt -ℤ proc_ns) (4 * dist2 v p) ≡ false = ground arith in
          let early : ltb_ℤ (pos (2 * min_light_time_ns v p) +ℤ proc_ns) rtt ≡ false =
            ground arith in
          (omega (int_laws, floor.0 slow), omega (int_laws, le_of_ltb _ _ early)),
      λ (low, high).
          let slow = floor.1 (omega int_laws) in
          let fits : rtt ≤ℤ pos (2 * min_light_time_ns v p) +ℤ proc_ns = omega int_laws in
          ground arith,
    )

required-some : {A : Type 0} (o : Option A) (a : A) → ok a ≡ required o → o ≡ some a
required-some none a h = cc
required-some (some b) a h = cc

none_added :
    (vid : String) (fine : Bool) (failing : List String)
    → [] ≡ (if fine then failing else vid ∷ failing)
    → (fine ≡ true) × (failing ≡ [])
none_added vid true failing h = (refl, sym h)
none_added vid false failing h = cc

nothing : (failing : List String) → none_failing failing ≡ true → failing ≡ []
nothing [] h = refl
nothing (vid ∷ failing) h = cc

module _ (measurements : Dict String ℤ) (proc_ns : ℤ) (p_claim : Position)
    (verifiers : Dict String Position) where
  -- The verifier of a name has a place and a measurement, and its answer is in time.
  abbrev pub Admits : String → Type 0
  Admits vid =
      (rtt : ℤ) × (v : Position) × (get measurements vid ≡ some rtt)
      × (get verifiers vid ≡ some v)
      × InTime rtt proc_ns v p_claim

  measure_from_of :
      (vids : List String)
      → All Admits vids
      → (per_verifier : Dict String RttWitness) × (measure_from measurements proc_ns p_claim
            verifiers vids
          ≡ ok (per_verifier, []))
  unfolding measure_from
  measure_from_of [] all = ([], refl)
  measure_from_of (vid ∷ vids) ((rtt, v, at_rtt, at_v, in_time), all) =
      let (rest, ran) = measure_from_of vids all in
      let passes = (admits_iff rtt proc_ns v p_claim).1 in_time in
      ((vid, rtt_bound_witness rtt proc_ns v p_claim) ∷ rest, rw (at_rtt, at_v, ran, passes) refl)

  measure_from-All :
      (vids : List String) (per_verifier : Dict String RttWitness)
      → measure_from measurements proc_ns p_claim verifiers vids ≡ ok (per_verifier, [])
      → All Admits vids
  unfolding measure_from
  measure_from-All [] per_verifier h = tt
  measure_from-All (vid ∷ vids) per_verifier h =
      let (rtt, at_rtt, h1) = bound_value (required (get measurements vid)) h in
      let (v, at_v, h2) = bound_value (required (get verifiers vid)) (sym h1) in
      let ((rest, failing), ran, h3) =
        bound_value (measure_from measurements proc_ns p_claim verifiers vids) (sym h2) in
      let fine =
        none_added vid (rtt_bound_witness rtt proc_ns v p_claim).admitted failing
          (ap (λ p. p.1) (ok-injective h3)) in
      (
        (
          rtt,
          v,
          required-some _ _ at_rtt,
          required-some _ _ at_v,
          (admits_iff rtt proc_ns v p_claim).0 fine.0,
        ),
        measure_from-All vids rest (sym ran ∙ ap (λ none. ok (rest, none)) fine.1),
      )

  -- A position claim is admitted, without an error, exactly when every verifier has a measurement
  -- and its answer, less the processing time, takes no less than light for the way to the claimed
  -- place and back, and no more than twice the light time one way.
  pub multilateration_iff :
      ((r : Multilateration) × (multilateration measurements proc_ns p_claim verifiers ≡ ok r)
        × (r.admitted ≡ true))
      ↔ All Admits (names verifiers)
  unfolding multilateration
  multilateration_iff =
      let sorting = sorted_set-All Admits (names verifiers) in
      (
        λ (r, ran, admitted).
            let ((per_verifier, failing), measured, result) =
              bound_value
                (measure_from measurements proc_ns p_claim verifiers (sorted_set (names verifiers)))
                ran in
            let clear =
              nothing failing (ap (λ r. r.admitted) (sym (ok-injective result)) ∙ admitted) in
            sorting.0 (
              measure_from-All (sorted_set (names verifiers)) per_verifier
                (sym measured ∙ ap (λ none. ok (per_verifier, none)) clear)),
        λ all.
            let (per_verifier, ran) =
              measure_from_of (sorted_set (names verifiers)) (sorting.1 all) in
            (
              record { admitted = true; failing_verifiers = []; per_verifier = per_verifier },
              rw ran refl,
              refl,
            ),
      )
