-- ===== src/Lib.antt =====
-- The causal ordering core of HorizonProtocol: exact integer light cones, the ledger and the
-- certificates that are built on them, and the stores that order writes by them.
--
-- The parts and how they interact. `horizon/geometry.py` decides in integers whether one event lies
-- in the closed future light cone of another, and gives the least light time between two places.
-- `horizon/ledger.py` admits an edge between two events only through that test and answers
-- reachability queries over the admitted edges, either by the reference search or over the index of
-- `horizon/reachability_cache.py`; each edge carries a typed claim (`horizon/edge_claims.py`).
-- `horizon/certificate.py` and `horizon/measure.py` verify signed receipts of stations
-- (`horizon/stations.py`) against the light cone. `horizon/two_floor.py` gives a verdict when
-- positions are only known within an envelope (`horizon/uncertainty.py`) around a worldline
-- (`horizon/worldline.py`), and `horizon/reconcile.py` orders two nodes' events by their vector clocks
-- (`mnemesis/vclock.py`) and that verdict. `mnemesis/memory.py` and `causal-store/causalstore/store.py`
-- keep values under the orderings of `causal-store/causalstore/ordering.py`, and
-- `horizon/providers/causal_kernel_provider.py` reports such an order to other systems.
-- `horizon/commitment.py` checks bit commitments between isolated sites, `horizon/distance.py` and
-- `horizon/latency_gate.py` bound distances by round trips, and `horizon/occultation.py` finds when a
-- body blocks a link. `horizon/beacon.py` combines entropy blocks of emissions that the ledger finds
-- out of one another's light cones, each with a cone certificate; `horizon/capture_verify.py` judges
-- the signed receipts of a capture; `horizon/deepspace_protocol.py` certifies a telemetry packet by its
-- receipt, the latency gate and the bound of `horizon/beq.py`. `horizon/db_sim.py` and
-- `horizon/simulate.py` are the worlds in which these verifiers are tried.
--
-- Which file models what (a child module holds the lemmas of its parent, `Tests` runs and instances):
--   Prelude: the shared types, notation and lemmas. Python's integers are `ℤ` over the native numbers,
--     dictionaries association lists in order of insertion, sets lists without an order that counts,
--     exceptions the `Result` of Prelude/Results.
--   LightTime, Geometry: horizon/geometry.py. `light_search` is the body of `min_light_time_ns`, which
--     `min_round_trip_ns` and `min_transit_time_ns_eff` repeat at another distance or speed.
--   Reachability, EdgeClaims, Ledger: horizon/reachability_cache.py, horizon/edge_claims.py and
--     horizon/ledger.py. A ledger is a record that each method takes and returns.
--   Stations, Certificate, Measure: horizon/stations.py with the events of horizon/events.py,
--     horizon/certificate.py and horizon/measure.py. `bind_receipt` is the gates that the two
--     verifiers share.
--   Worldline, TwoFloor: horizon/worldline.py with horizon/uncertainty.py, and horizon/two_floor.py.
--   VectorClock, Causal: mnemesis/vclock.py, and the orderings of mnemesis/memory.py and
--     causal-store/causalstore/ordering.py as a record of operations that both stores take.
--   Memory, EventStore: `CausalMemory` of mnemesis/memory.py, and `CausalStore` of
--     causal-store/causalstore/store.py with its in-memory backend.
--   Distance: horizon/distance.py, horizon/latency_gate.py, horizon/deepspace.py and
--     horizon/light_delay.py.
--   Kernel: horizon/providers/causal_kernel_provider.py.
--   ProperTime, Reconcile: horizon/proper_time.py and horizon/reconcile.py.
--   Commitment: horizon/commitment.py, with the rounds of horizon/commit_sim.py in Commitment/Honest.
--   Occultation: horizon/occultation.py.
--   Beacon: horizon/beacon.py. Blocks holds the blocks with their hexadecimal text, Verifier the gates.
--   Capture: horizon/capture_verify.py and horizon/signed_capture.py.
--   DeepSpace: horizon/deepspace_protocol.py and horizon/beq.py.
--   Simulation: horizon/db_sim.py and horizon/simulate.py.
--
-- Loops. The first loop of `light_search` counts down to 0, and its second one gets the squared
-- distance as fuel, which bounds the time that light takes. The reachability searches get one round
-- for each edge, or target in the index, and two more; each round takes an event off, and an event is
-- put on once. The scan for an occultation gets one round for each nanosecond, since a step is at
-- least one, and a bisection as many rounds as its interval has nanoseconds.
--
-- Parameters. SHA-256 and HMAC-SHA256, over the canonical JSON of what they hash, are functions that
-- the definitions take (`digest`, `hmac`, `link`, `sha256_int`, `sha256`, `event_hash`); nothing is
-- assumed of them.
--
-- Not modelled: checks of Python's types at run time, which the types here make; negative declared
-- speeds of a signal (a speed of 0 raises as in the source); texts and fields
-- that only explain a verdict to a reader; the values of floats in reports; fixtures, captures of the network and
-- coordinate frames; simulators that draw random numbers; and the parts that the source keeps apart
-- from this core, its benchmarks and the quantum interface.
pub mod Prelude
pub mod LightTime
pub mod Geometry
pub mod VectorClock
pub mod Reachability
pub mod EdgeClaims
pub mod Ledger
pub mod Stations
pub mod Certificate
pub mod Measure
pub mod Worldline
pub mod TwoFloor
pub mod Causal
pub mod Memory
pub mod EventStore
pub mod Distance
pub mod Kernel
pub mod Reconcile
pub mod Commitment
pub mod Beacon
pub mod Occultation
pub mod ProperTime
pub mod Capture
pub mod DeepSpace
pub mod Simulation
