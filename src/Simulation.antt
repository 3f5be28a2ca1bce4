-- ===== src/Simulation.antt =====
-- horizon/db_sim.py and horizon/simulate.py: the worlds that feed the verifiers of distance
-- bounding and of cone certificates.

pub mod Sessions
pub mod Colluders
pub mod Broadcast
mod Tests
use horizon_protocol.Prelude.{
  ℕ, ◌*◌, ltb, String, text_key, Bool, true, false, not, List, [], ◌∷◌, Option, none, some, ℤ, pos,
  negsuc, ◌+ℤ◌, ◌-ℤ◌, leb_ℤ, max_ℤ, same_key, Dict, get, put, sorted_set, Result, ok, raise,
  raise_if, required, value_error, assertion_error, ◌>>=◌, ◌>>◌, if◌then◌else◌,
}
use horizon_protocol.Geometry.{Position, dist2, min_light_time_ns}
use horizon_protocol.Stations.{Event, Body, Receipt, Station, Registry, sign_receipt}
use horizon_protocol.Distance.{deadline_ns, names}

abbrev pub at_point : ℤ → ℤ → ℤ → Position
at_point x y z = record { x = x; y = y; z = z }

abbrev pub distant_pos : Position
distant_pos = at_point (pos 7000000000000) (pos 7000000000000) (negsuc 4799999999999)

abbrev pub decoy_pos : Position
decoy_pos = at_point (pos 6000000000000) (pos 0) (pos 0)

abbrev pub colluder_coverage : Dict String String
colluder_coverage = ("V1", "A1") ∷ ("V2", "A2") ∷ ("V3", "A2") ∷ ("V4", "A2") ∷ []

abbrev pub colluder_positions : Dict String Position
colluder_positions =
    ("A1", at_point (pos 1000000000000) (pos 1000000000000) (pos 0))
    ∷ ("A2", at_point (pos 10000000000000) (pos 10000000000000) (pos 5000000000000))
    ∷ []

-- The answer of an agent at its true place: at once, or delayed to a time if that is later.
unfoldable pub respond : Position → Position → ℤ → Option ℤ → ℤ
respond true_pos v_pos proc_ns none = pos (2 * min_light_time_ns v_pos true_pos) +ℤ proc_ns
respond true_pos v_pos proc_ns (some delay_to_ns) =
    max_ℤ (pos (2 * min_light_time_ns v_pos true_pos) +ℤ proc_ns) delay_to_ns

-- Who answers a verifier, from where, and after how long.
pub record Turn : Type 0 where
  pub true_pos : Position
  pub rtt : ℤ
  pub agent : Option String

-- The labels of a session (role, seed, key) are left out.
pub record Session : Type 0 where
  pub measurements : Dict String ℤ
  pub agent_positions : Dict String (String × Position)
  pub strictly_closer_check : Dict String Bool

module _ (role : String) (proc_ns : ℤ) (p_claim : Position) (verifiers : Dict String Position) where
  -- The branch for the role.
  unfoldable pub turn : String → Position → Result Turn
  turn vid v =
      let at_once = λ (p : Position). respond p v proc_ns none in
      let delayed = λ (p : Position). respond p v proc_ns (some (deadline_ns v p_claim proc_ns)) in
      if same_key role "HONEST"
      then ok (record { true_pos = p_claim; rtt = at_once p_claim; agent = none })
      else if same_key role "DISTANT"
      then ok (record { true_pos = distant_pos; rtt = at_once distant_pos; agent = none })
      else if same_key role "DECOY"
      then ok (record { true_pos = decoy_pos; rtt = delayed decoy_pos; agent = none })
      else if same_key role "COLLUDER_PAIR"
      then (do
        agent ← required (get colluder_coverage vid)
        p ← required (get colluder_positions agent)
        ok (record { true_pos = p; rtt = delayed p; agent = some agent }))
      else raise value_error

  abbrev pub note_agent :
      Dict String (String × Position) → String → Turn → Dict String (String × Position)
  note_agent agents vid t = elim t.agent [
    | none ↦ agents
    | some agent ↦ put agents vid (agent, t.true_pos)
  ]

  -- The loop over the verifiers, with its assertion that no answer is faster than light.
  unfoldable pub run_turns :
      List String
      → Dict String ℤ
      → Dict String (String × Position)
      → Result (Dict String ℤ × Dict String (String × Position))
  unfolding turn
  run_turns [] measurements agents = ok (measurements, agents)
  run_turns (vid ∷ vids) measurements agents = do
    v ← required (get verifiers vid)
    t ← turn vid v
    raise_if (not (leb_ℤ (pos (2 * min_light_time_ns v t.true_pos)) (t.rtt -ℤ proc_ns)))
        assertion_error
    run_turns vids (put measurements vid t.rtt) (note_agent agents vid t)

  -- Whether each agent is nearer to its verifier than the claimed place.
  unfoldable pub closer_checks : List String → Result (Dict String Bool)
  closer_checks [] = ok []
  closer_checks (vid ∷ vids) = do
    agent ← required (get colluder_coverage vid)
    p ← required (get colluder_positions agent)
    v ← required (get verifiers vid)
    rest ← closer_checks vids
    ok ((vid, ltb (dist2 p v) (dist2 p_claim v)) ∷ rest)

  unfoldable pub run_session : Result Session
  unfolding run_turns closer_checks
  run_session = do
    let vids = sorted_set (names verifiers)
    (measurements, agents) ← run_turns vids [] []
    checks ← (if same_key role "COLLUDER_PAIR" then closer_checks vids else ok [])
    ok (record {
      measurements = measurements;
      agent_positions = agents;
      strictly_closer_check = checks;
    })

-- horizon/simulate.py
unfoldable pub station_names : Registry → List String
station_names [] = []
station_names ((sid, st) ∷ rest) = sid ∷ station_names rest

module _ (hmac : List ℕ → Body → String) (registry : Registry) (event : Event) where
  unfoldable pub broadcast_to : List String → Result (List Receipt)
  broadcast_to [] = ok []
  broadcast_to (sid ∷ sids) = do
    st ← required (get registry sid)
    let t_recv =
        event.claimed_emit_time_ns
        +ℤ pos (min_light_time_ns event.claimed_emit_pos_nm st.pos_nm)
        +ℤ st.proc_delay_ns
    receipts ← broadcast_to sids
    ok (sign_receipt hmac st event.payload_hash t_recv ∷ receipts)

  unfoldable pub broadcast : Result (List Receipt)
  unfolding broadcast_to station_names
  broadcast = broadcast_to (sorted_set (station_names registry))
