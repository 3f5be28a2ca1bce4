-- ===== src/Causal.antt =====
-- The contract of an ordering of writes, which both stores are built on: mnemesis/memory.py and
-- causal-store/causalstore/ordering.py, with the orderings that fulfil it.
pub mod Laws
pub mod Hybrid
mod Tests
use horizon_protocol.Prelude.{
  ℕ, ◌+◌, ◌≡◌, Bool, true, false, not, ◌&&◌, ◌||◌, ℤ, pos, ◌+ℤ◌, ◌-ℤ◌, ltb_ℤ, leb_ℤ, if◌then◌else◌,
}
use horizon_protocol.Geometry.{Position, causally_admissible, min_light_time_ns}
use horizon_protocol.VectorClock.{Clock, leq, happens_before}

-- `before`, `concurrent` and `resolves`, over the clocks of the two events.
pub record Ordering (C : Type 0) : Type 0 where
  pub before : C → C → Bool
  pub concurrent : C → C → Bool
  pub resolves : C → C → Bool

-- `{"time_ns": ..., "pos_nm": ..., "u_ns": ...}`
pub record GeoClock : Type 0 where
  pub time_ns : ℤ
  pub pos_nm : Position
  pub u_ns : ℤ

-- `GeometricOrdering` and `LogicalOrdering` of mnemesis/memory.py
unfoldable pub cone_before : GeoClock → GeoClock → Bool
cone_before a b =
    ltb_ℤ a.time_ns b.time_ns && causally_admissible a.time_ns a.pos_nm b.time_ns b.pos_nm

unfoldable pub cone_concurrent : GeoClock → GeoClock → Bool
cone_concurrent a b =
    not (causally_admissible a.time_ns a.pos_nm b.time_ns b.pos_nm)
    && not (causally_admissible b.time_ns b.pos_nm a.time_ns a.pos_nm)

-- `GeometricOrdering` of causalstore/ordering.py
unfoldable pub geo_resolves : GeoClock → GeoClock → Bool
geo_resolves a b =
    let dt = b.time_ns -ℤ a.time_ns in
    let combined_u = a.u_ns +ℤ b.u_ns in
    let required_ns = pos (min_light_time_ns a.pos_nm b.pos_nm) in
    leb_ℤ required_ns (dt -ℤ combined_u) || ltb_ℤ (dt +ℤ combined_u) required_ns

unfoldable pub geo_before : GeoClock → GeoClock → Bool
geo_before a b =
    if leb_ℤ b.time_ns a.time_ns
    then false
    else if not (geo_resolves a b)
    then false
    else causally_admissible a.time_ns a.pos_nm b.time_ns b.pos_nm

unfoldable pub geo_concurrent : GeoClock → GeoClock → Bool
geo_concurrent a b = not (geo_before a b) && not (geo_before b a)

abbrev pub geometric : Ordering GeoClock
geometric = record { before = geo_before; concurrent = geo_concurrent; resolves = geo_resolves }

-- `LogicalOrdering`
unfoldable pub log_before : Clock → Clock → Bool
log_before x y = leq x y && not (leq y x)

unfoldable pub log_concurrent : Clock → Clock → Bool
log_concurrent x y = not (log_before x y) && not (log_before y x)

abbrev pub logical : Ordering Clock
logical = record { before = log_before; concurrent = log_concurrent; resolves = λ x y. true }

-- `HybridOrdering`, over events that carry both clocks.
pub record HybridClock : Type 0 where
  pub geo : GeoClock
  pub vc : Clock

unfoldable pub hybrid_before : HybridClock → HybridClock → Bool
hybrid_before a b =
    if geo_resolves a.geo b.geo then geo_before a.geo b.geo else log_before a.vc b.vc

unfoldable pub hybrid_concurrent : HybridClock → HybridClock → Bool
hybrid_concurrent a b = not (hybrid_before a b) && not (hybrid_before b a)

abbrev pub hybrid : Ordering HybridClock
hybrid = record { before = hybrid_before; concurrent = hybrid_concurrent; resolves = λ a b. true }
