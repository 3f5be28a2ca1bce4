-- ===== src/Simulation/Sessions.antt =====
-- horizon/db_sim.py: which simulated sessions the position claim survives.
use mathlib.Core.Path.{subst}
use horizon_protocol.Prelude.{
  ◌*◌, ◌≤◌, ◌≡◌, refl, ◌∙◌, ap, ◌↔◌, ◌⊎◌, inl, inr, String, text_key, true, List, [], ◌∷◌, Option,
  none, some, Bool-cases, ℤ, pos, ◌+ℤ◌, ◌-ℤ◌, ◌≤ℤ◌, leb_ℤ, le-max_ℤ, max_ℤ-le, same_key,
  same_key_self, Dict, get, put, get-put, All, All-map, sorted_set, sorted_set-All, ok,
  ok-injective, arith, int_laws, eq_iff,
}
use horizon_protocol.Geometry.{Position, min_light_time_ns}
use horizon_protocol.Distance.{deadline_ns, names, Multilateration, multilateration}
use horizon_protocol.Distance.Bounds.{min_round_trip-least}
use horizon_protocol.Distance.Verifiers.{InTime, Admits, multilateration_iff}
use horizon_protocol.Simulation.{respond, Turn, Session, turn, note_agent, run_turns, run_session}

abbrev pub Has : Dict String Position → String → Type 0
Has verifiers vid = (v : Position) × (get verifiers vid ≡ some v)

Has-cons :
    (j : String) (w : Position) (verifiers : Dict String Position) (vids : List String)
    → All (Has verifiers) vids
    → All (Has ((j, w) ∷ verifiers)) vids
unfolding get
Has-cons j w verifiers [] h = tt
Has-cons j w verifiers (vid ∷ vids) ((v, there), h) = elim (Bool-cases (same_key j vid)) [
  | inl same ↦ ((w, rw same refl), Has-cons j w verifiers vids h)
  | inr other ↦ ((v, rw other there), Has-cons j w verifiers vids h)
]

-- A dictionary has a place for each of its names.
pub names-Has : (verifiers : Dict String Position) → All (Has verifiers) (names verifiers)
unfolding names get
names-Has [] = tt
names-Has ((j, w) ∷ verifiers) =
    ((w, rw (same_key_self j) refl), Has-cons j w verifiers (names verifiers) (names-Has verifiers))

-- An agent that answers at once, and one that delays to the deadline.
module _ (p v p_claim : Position) (proc_ns : ℤ) where
  abbrev pub Slow : ℤ → Type 0
  Slow rtt = pos (2 * min_light_time_ns v p) ≤ℤ rtt -ℤ proc_ns

  pub respond-Slow : (delay : Option ℤ) → Slow (respond p v proc_ns delay)
  unfolding respond
  respond-Slow none = omega int_laws
  respond-Slow (some d) =
      let (le, _) = le-max_ℤ (pos (2 * min_light_time_ns v p) +ℤ proc_ns) d in omega (int_laws, le)

  pub delayed-InTime :
      InTime (respond p v proc_ns (some (deadline_ns v p_claim proc_ns))) proc_ns v p_claim
      ↔ (min_light_time_ns v p ≤ min_light_time_ns v p_claim)
  unfolding respond deadline_ns
  delayed-InTime =
      let (_, _, twice, _) = min_round_trip-least v p_claim in
      let floor = pos (2 * min_light_time_ns v p) +ℤ proc_ns in
      let target = pos (2 * min_light_time_ns v p_claim) +ℤ proc_ns in
      let (le, le') = le-max_ℤ floor target in
      (
        λ (_, high). omega (int_laws, le, high),
        λ near.
            let bounded : floor ≤ℤ target = omega (int_laws, near) in
            let top = max_ℤ-le floor target target bounded (omega arith) in
            (omega (int_laws, le', twice), omega (int_laws, top)),
      )

at_once-InTime :
    (v p_claim : Position) (proc_ns : ℤ) → InTime (respond p_claim v proc_ns none) proc_ns v p_claim
unfolding respond
at_once-InTime v p_claim proc_ns =
    let (_, _, twice, _) = min_round_trip-least v p_claim in
    (omega (int_laws, twice), omega int_laws)

module _ (role : String) (proc_ns : ℤ) (p_claim : Position) (verifiers : Dict String Position) where
  -- The branch for the role answers the verifier of a name, no faster than light.
  abbrev pub Ready : String → Type 0
  Ready vid =
      (v : Position) × (t : Turn) × (get verifiers vid ≡ some v)
      × (turn role proc_ns p_claim verifiers vid v ≡ ok t)
      × Slow t.true_pos v p_claim proc_ns t.rtt

  -- Its answer is what the session measures.
  abbrev pub Taken : Dict String ℤ → String → Type 0
  Taken m vid =
      (v : Position) × (t : Turn) × (get verifiers vid ≡ some v)
      × (turn role proc_ns p_claim verifiers vid v ≡ ok t)
      × (get m vid ≡ some t.rtt)

  put-Taken :
      (m : Dict String ℤ) (vid k : String) (v : Position) (t : Turn)
      → get verifiers vid ≡ some v
      → turn role proc_ns p_claim verifiers vid v ≡ ok t
      → (same_key vid k ≡ true) ⊎ Taken m k
      → Taken (put m vid t.rtt) k
  put-Taken m vid k v t at_v ran h = elim (Bool-cases (same_key vid k)) [
    | inl same ↦
        subst (Taken (put m vid t.rtt)) ((eq_iff vid k).0 same)
          (v, t, at_v, ran, get-put m vid vid t.rtt ∙ rw (same_key_self vid) refl)
    | inr other ↦ elim h [
      | inl same ↦ cc
      | inr (v', t', at_v', ran', found) ↦
          (v', t', at_v', ran', get-put m vid k t.rtt ∙ rw other found)
    ]
  ]

  pub run_turns-Taken :
      (vids : List String) (m : Dict String ℤ) (agents : Dict String (String × Position))
      → All Ready vids
      → (m' : Dict String ℤ) × (agents' : Dict String (String × Position)) × (run_turns role proc_ns
            p_claim verifiers vids m agents
          ≡ ok (m', agents'))
        × All (Taken m') vids
        × ((k : String) → Taken m k → Taken m' k)
  unfolding run_turns
  run_turns-Taken [] m agents all = (m, agents, refl, tt, λ k taken. taken)
  run_turns-Taken (vid ∷ vids) m agents ((v, t, at_v, ran, slow), all) =
      let (m', agents', rest, taken, keeps) =
        run_turns-Taken vids (put m vid t.rtt)
          (note_agent role proc_ns p_claim verifiers agents vid t) all in
      let fine : leb_ℤ (pos (2 * min_light_time_ns v t.true_pos)) (t.rtt -ℤ proc_ns) ≡ true =
        ground arith in
      (
        m',
        agents',
        rw (at_v, ran, fine) rest,
        (keeps vid (put-Taken m vid vid v t at_v ran (inl (same_key_self vid))), taken),
        λ k before. keeps k (put-Taken m vid k v t at_v ran (inr before)),
      )

module _ (proc_ns : ℤ) (p_claim : Position) (verifiers : Dict String Position) where
  -- What the verifiers decide on a session.
  abbrev pub Accepted : Session → Type 0
  Accepted s =
      (r : Multilateration) × (multilateration s.measurements proc_ns p_claim verifiers ≡ ok r)
      × (r.admitted ≡ true)

  honest-Ready : (vid : String) → Has verifiers vid → Ready "HONEST" proc_ns p_claim verifiers vid
  unfolding turn
  honest-Ready vid (v, at_v) = (
    v,
    record { true_pos = p_claim; rtt = respond p_claim v proc_ns none; agent = none },
    at_v,
    refl,
    respond-Slow p_claim v p_claim proc_ns none,
  )

  honest-Admits :
      (m : Dict String ℤ) (vid : String)
      → Taken "HONEST" proc_ns p_claim verifiers m vid
      → Admits m proc_ns p_claim verifiers vid
  unfolding turn
  honest-Admits m vid (v, t, at_v, ran, found) =
      let same : respond p_claim v proc_ns none ≡ t.rtt = ap (λ t. t.rtt) (ok-injective ran) in
      (t.rtt, v, found, at_v, rw⁻¹ same (at_once-InTime v p_claim proc_ns))

  -- A session of a prover at the claimed place runs without an error, and the verifiers accept it.
  pub honest_session-Accepted :
      (s : Session) × (run_session "HONEST" proc_ns p_claim verifiers ≡ ok s) × Accepted s
  unfolding run_session
  honest_session-Accepted =
      let vids = names verifiers in
      let ready = All-map honest-Ready vids (names-Has verifiers) in
      let (m, agents, ran, taken, _) =
        run_turns-Taken "HONEST" proc_ns p_claim verifiers (sorted_set vids) [] []
          ((sorted_set-All (Ready "HONEST" proc_ns p_claim verifiers) vids).1 ready) in
      let taken' = (sorted_set-All (Taken "HONEST" proc_ns p_claim verifiers m) vids).0 taken in
      (
        record { measurements = m; agent_positions = agents; strictly_closer_check = [] },
        rw ran refl,
        (multilateration_iff m proc_ns p_claim verifiers).1 (All-map (honest-Admits m) vids taken'),
      )
