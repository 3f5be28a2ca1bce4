-- ===== src/Reconcile.antt =====
-- horizon/reconcile.py: the order of two nodes' events, by causal lineage and the physical check.
pub mod Sound
mod Tests
use horizon_protocol.Prelude.{
  String, Bool, true, false, ℤ, Option, none, some, Result, ok, ◌>>=◌, if◌then◌else◌,
}
use horizon_protocol.VectorClock.{Clock, happens_before}
use horizon_protocol.Worldline.{Worldline, Envelope, position_at}
use horizon_protocol.TwoFloor.{
  Side, definite, uncertain, TwoFloorClass, admitted, rejected, apparatus_limited, TwoFloorVerdict,
  two_floor_verdict,
}
use horizon_protocol.ProperTime.{ProperTimeStamp}

pub data Locator : Type 0 where
  on_worldline : Worldline → Locator
  within_envelope : Envelope → Locator

pub record Event : Type 0 where
  pub node_id : String
  pub vclock : Clock
  pub t_coord_ns : ℤ
  pub locator : Locator
  pub proper_time_stamp : Option ProperTimeStamp

unfoldable pub locator_arg : Event → Side
locator_arg event = elim event.locator [
  | within_envelope e ↦ uncertain e
  | on_worldline w ↦ definite (position_at w event.t_coord_ns)
]

-- Whether the first event could causally precede the second.
unfoldable pub physical_verdict : Event → Event → Result TwoFloorVerdict
physical_verdict from to =
    two_floor_verdict from.t_coord_ns (locator_arg from) to.t_coord_ns (locator_arg to)

pub data Order : Type 0 where
  before after concurrent undecided : Order

pub data Direction : Type 0 where
  a_to_b b_to_a : Direction

pub data Reason : Type 0 where
  light_cone_forbids no_lineage_edge : Reason

-- The verdict and the witness. That the stamps decide nothing is no field here: no code below
-- reads them.
pub record Reconciliation : Type 0 where
  pub verdict : Order
  pub node_a : String
  pub node_b : String
  pub lineage_a_before_b : Bool
  pub lineage_b_before_a : Bool
  pub physical_check : Option (Direction × TwoFloorVerdict)
  pub reason : Option Reason

abbrev pub report :
    Event → Event → Order → Option (Direction × TwoFloorVerdict) → Option Reason → Reconciliation
report a b verdict check reason = record {
  verdict = verdict;
  node_a = a.node_id;
  node_b = b.node_id;
  lineage_a_before_b = happens_before a.vclock b.vclock;
  lineage_b_before_a = happens_before b.vclock a.vclock;
  physical_check = check;
  reason = reason;
}

-- What a physical check makes of an edge that the lineage claims.
unfoldable pub judge : Event → Event → Order → Direction → TwoFloorVerdict → Reconciliation
judge a b claimed direction check = elim check.verdict [
  | admitted ↦ report a b claimed (some (direction, check)) none
  | apparatus_limited ↦ report a b undecided (some (direction, check)) none
  | rejected ↦ report a b concurrent (some (direction, check)) (some light_cone_forbids)
]

unfoldable pub reconcile : Event → Event → Result Reconciliation
unfolding judge
reconcile a b =
    let forth : Result Reconciliation = do
      check ← physical_verdict a b
      ok (judge a b before a_to_b check)
    in let back : Result Reconciliation = do
      check ← physical_verdict b a
      ok (judge a b after b_to_a check)
      in if happens_before a.vclock b.vclock
        then forth
        else if happens_before b.vclock a.vclock
        then back
        else ok (report a b concurrent none (some no_lineage_edge))
