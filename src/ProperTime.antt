-- ===== src/ProperTime.antt =====
-- horizon/proper_time.py: each node's own clock, at an exact rational rate of the coordinate time.
-- The source's type checks are the types here.
pub mod Rate
mod Tests
use horizon_protocol.Prelude.{
  ℕ, ◌+◌, ◌*◌, String, text_key, same_key, Bool, not, ℤ, pos, ◌+ℤ◌, ◌-ℤ◌, ◌*ℤ◌, ltb_ℤ, leb_ℤ, eqb_ℤ,
  magnitude, Result, ok, raise_if, value_error, ◌>>=◌, ◌>>◌, if◌then◌else◌,
}
use horizon_protocol.Geometry.{c_nm_per_ns}
use horizon_protocol.Worldline.{floor_div}

-- The rate of a clock as a numerator and a denominator.
unfoldable pub weak_field_rate : (v2_nm2_per_ns2 phi_nm2_per_ns2 : ℤ) → Result (ℤ × ℕ)
weak_field_rate v2 phi = do
  raise_if (ltb_ℤ v2 (pos 0)) value_error
  let c2 = c_nm_per_ns * c_nm_per_ns
  ok (pos (2 * c2) +ℤ pos 2 *ℤ phi -ℤ v2, 2 * c2)

pub record ProperTimeStamp : Type 0 where
  pub node_id : String
  pub tau_ns : ℤ

-- `_guard`, and a comparison behind it
unfoldable pub guard : ProperTimeStamp → ProperTimeStamp → Result (Unit {0})
guard a b = raise_if (not (same_key b.node_id a.node_id)) value_error

abbrev pub guarded : (ℤ → ℤ → Bool) → ProperTimeStamp → ProperTimeStamp → Result Bool
guarded test a b = do guard a b; ok (test a.tau_ns b.tau_ns)

unfoldable pub equals : ProperTimeStamp → ProperTimeStamp → Result Bool
equals a b = guarded eqb_ℤ a b

unfoldable pub less : ProperTimeStamp → ProperTimeStamp → Result Bool
less a b = guarded ltb_ℤ a b

unfoldable pub at_most : ProperTimeStamp → ProperTimeStamp → Result Bool
at_most a b = guarded leb_ℤ a b

unfoldable pub greater : ProperTimeStamp → ProperTimeStamp → Result Bool
greater a b = guarded (λ x y. ltb_ℤ y x) a b

unfoldable pub at_least : ProperTimeStamp → ProperTimeStamp → Result Bool
at_least a b = guarded (λ x y. leb_ℤ y x) a b

-- The denominator is positive once the constructor has normalised the sign.
pub record ProperTimeClock : Type 0 where
  pub node_id : String
  pub rate_num : ℤ
  pub rate_den : ℕ
  pub t0_coord_ns : ℤ
  pub tau0_ns : ℤ

unfoldable pub proper_time_clock :
    String → (rate_num rate_den t0_coord_ns tau0_ns : ℤ) → Result ProperTimeClock
proper_time_clock node_id rate_num rate_den t0_coord_ns tau0_ns = do
  raise_if (eqb_ℤ rate_den (pos 0)) value_error
  ok (record {
    node_id = node_id;
    rate_num = if ltb_ℤ rate_den (pos 0) then pos 0 -ℤ rate_num else rate_num;
    rate_den = magnitude rate_den;
    t0_coord_ns = t0_coord_ns;
    tau0_ns = tau0_ns;
  })

unfoldable pub tau_at : ProperTimeClock → ℤ → ℤ
tau_at c t_coord_ns =
    let dt = t_coord_ns -ℤ c.t0_coord_ns in c.tau0_ns +ℤ floor_div (c.rate_num *ℤ dt) c.rate_den

unfoldable pub stamp_at : ProperTimeClock → ℤ → ProperTimeStamp
stamp_at c t_coord_ns = record { node_id = c.node_id; tau_ns = tau_at c t_coord_ns }
