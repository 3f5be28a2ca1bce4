-- ===== src/Simulation/Colluders.antt =====
-- horizon/db_sim.py: the attack of two colluding agents.
use mathlib.Core.Path.{subst}
use mathlib.Core.Option.{some-injective}
use horizon_protocol.Prelude.{
  ◌≤◌, ◌≡◌, refl, sym, ◌∙◌, ap, ◌↔◌, String, text_key, Bool, List, [], ◌∷◌, some, ℤ, Dict, get, All,
  All-zip, ltb, sorted_set, sorted_set-All, ok, ok-injective,
}
use horizon_protocol.Geometry.{Position, dist2, min_light_time_ns}
use horizon_protocol.Distance.{deadline_ns, names}
use horizon_protocol.Distance.Verifiers.{InTime, Admits, multilateration_iff}
use horizon_protocol.Simulation.Sessions.{
  Has, names-Has, respond-Slow, delayed-InTime, Ready, Taken, run_turns-Taken, Accepted,
}
use horizon_protocol.Simulation.{
  colluder_coverage, colluder_positions, respond, Turn, Session, turn, closer_checks, run_session,
}

module _ (proc_ns : ℤ) (p_claim : Position) (verifiers : Dict String Position) where
  -- The verifier of a name has an agent, whose place is known.
  abbrev pub Covered : String → Type 0
  Covered vid =
      (agent : String) × (p : Position) × (get colluder_coverage vid ≡ some agent)
      × (get colluder_positions agent ≡ some p)

  -- Light from that agent is as fast as from the claimed place.
  abbrev pub InReach : String → Type 0
  InReach vid =
      (agent : String) × (p : Position) × (v : Position) × (get colluder_coverage vid ≡ some agent)
      × (get colluder_positions agent ≡ some p)
      × (get verifiers vid ≡ some v)
      × (min_light_time_ns v p ≤ min_light_time_ns v p_claim)

  abbrev pair_turn : Position → Position → String → Turn
  pair_turn p v agent = record {
    true_pos = p;
    rtt = respond p v proc_ns (some (deadline_ns v p_claim proc_ns));
    agent = some agent;
  }

  pair_runs :
      (vid agent : String) (p v : Position)
      → get colluder_coverage vid ≡ some agent
      → get colluder_positions agent ≡ some p
      → turn "COLLUDER_PAIR" proc_ns p_claim verifiers vid v ≡ ok (pair_turn p v agent)
  unfolding turn
  pair_runs vid agent p v covers stands = rw (covers, stands) refl

  pair-Ready :
      (vid : String)
      → Has verifiers vid
      → Covered vid
      → Ready "COLLUDER_PAIR" proc_ns p_claim verifiers vid
  pair-Ready vid (v, at_v) (agent, p, covers, stands) = (
    v,
    pair_turn p v agent,
    at_v,
    pair_runs vid agent p v covers stands,
    respond-Slow p v p_claim proc_ns _,
  )

  closer_total :
      (vids : List String)
      → All (Has verifiers) vids
      → All Covered vids
      → (checks : Dict String Bool) × (closer_checks "COLLUDER_PAIR" proc_ns p_claim verifiers vids
          ≡ ok checks)
  unfolding closer_checks
  closer_total [] h k = ([], refl)
  closer_total (vid ∷ vids) ((v, at_v), h) ((agent, p, covers, stands), k) =
      let (rest, ran) = closer_total vids h k in
      ((vid, ltb (dist2 p v) (dist2 p_claim v)) ∷ rest, rw (covers, stands, at_v, ran) refl)

  -- A measured answer is in time exactly when its agent is in reach.
  pair-Admits :
      (m : Dict String ℤ) (vid : String)
      → Taken "COLLUDER_PAIR" proc_ns p_claim verifiers m vid
      → Covered vid
      → Admits m proc_ns p_claim verifiers vid ↔ InReach vid
  pair-Admits m vid (v, t, at_v, ran, found) (agent, p, covers, stands) =
      let same : pair_turn p v agent ≡ t =
        ok-injective (sym (pair_runs vid agent p v covers stands) ∙ ran) in
      let in_time = delayed-InTime p v p_claim proc_ns in
      (
        λ (rtt, v', found', at_v', good).
            let same_v : v' ≡ v = some-injective _ _ (sym at_v' ∙ at_v) in
            let same_rtt : rtt ≡ (pair_turn p v agent).rtt =
              some-injective _ _ (sym found' ∙ found) ∙ ap (λ t. t.rtt) (sym same) in
            (agent, p, v, covers, stands, at_v, in_time.0 (rw (same_v, same_rtt) at good)),
        λ (agent', p', v', covers', stands', at_v', near).
            let same_v : v' ≡ v = some-injective _ _ (sym at_v' ∙ at_v) in
            let same_agent : agent' ≡ agent = some-injective _ _ (sym covers' ∙ covers) in
            let same_p : p' ≡ p =
              some-injective _ _ (sym stands' ∙ ap (get colluder_positions) same_agent ∙ stands) in
            (
              t.rtt,
              v,
              found,
              at_v,
              subst (λ t. InTime t.rtt proc_ns v p_claim) same
                  (in_time.1 (rw (same_v, same_p) at near)),
            ),
      )

  -- The attack: where every verifier has an agent, the session of two agents who each delay to the
  -- deadline of the claimed place runs without an error, and the verifiers accept the claim, at
  -- which nobody is, exactly when light from each agent is as fast as from the claimed place.
  pub colluders-Accepted_iff :
      All Covered (names verifiers)
      → (s : Session) × (run_session "COLLUDER_PAIR" proc_ns p_claim verifiers ≡ ok s)
        × (Accepted proc_ns p_claim verifiers s ↔ All InReach (names verifiers))
  unfolding run_session
  colluders-Accepted_iff covered =
      let vids = names verifiers in
      let has = names-Has verifiers in
      let ready = All-zip pair-Ready vids has covered in
      let (m, agents, ran, taken, _) =
        run_turns-Taken "COLLUDER_PAIR" proc_ns p_claim verifiers (sorted_set vids) [] []
          ((sorted_set-All (Ready "COLLUDER_PAIR" proc_ns p_claim verifiers) vids).1 ready) in
      let taken' =
        (sorted_set-All (Taken "COLLUDER_PAIR" proc_ns p_claim verifiers m) vids).0 taken in
      let (checks, checked) =
        closer_total (sorted_set vids) ((sorted_set-All (Has verifiers) vids).1 has)
          ((sorted_set-All Covered vids).1 covered) in
      let verdict = multilateration_iff m proc_ns p_claim verifiers in
      let measured : All
          (λ vid. Taken "COLLUDER_PAIR" proc_ns p_claim verifiers m vid × Covered vid) vids =
        All-zip (λ vid t c. (t, c)) vids taken' covered in
      (
        record { measurements = m; agent_positions = agents; strictly_closer_check = checks },
        rw (ran, checked) refl,
        (
          λ accepted.
              All-zip (λ vid (t, c) a. (pair-Admits m vid t c).0 a) vids measured
                (verdict.0 accepted),
          λ reach.
              verdict.1 (All-zip (λ vid (t, c) r. (pair-Admits m vid t c).1 r) vids measured reach),
        ),
      )
