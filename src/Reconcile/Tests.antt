-- ===== src/Reconcile/Tests.antt =====
-- A station's event and a ship's later one that has seen it.
use horizon_protocol.Prelude.{
  ℕ, ◌≡◌, refl, [], ◌∷◌, none, pos, ◌-ℤ◌, ◌*ℤ◌, square, magnitude, ok, arith, get, text_key,
}
use horizon_protocol.Geometry.{Position, dist2}
use horizon_protocol.VectorClock.{happens_before, leq, leq_on, counter, keys}
use horizon_protocol.Worldline.{fixed, position_at, center_at, radius_after, radius_at}
use horizon_protocol.TwoFloor.{two_floor_verdict, resolve}
use horizon_protocol.Reconcile.{
  Event, on_worldline, within_envelope, before, Reconciliation, locator_arg, reconcile,
  physical_verdict,
}
use horizon_protocol.Reconcile.Sound.{Located, Asserts, reconcile_sound}

program : Unit {0}
unfolding reconcile physical_verdict locator_arg happens_before leq leq_on counter keys get
    two_floor_verdict resolve center_at position_at radius_at radius_after dist2 square magnitude
    ◌-ℤ◌ ◌*ℤ◌
program = tt

abbrev at_x : ℕ → Position
at_x n = record { x = pos n; y = pos 0; z = pos 0 }

abbrev sent : Event
sent = record {
  node_id = "station";
  vclock = ("station", pos 1) ∷ [];
  t_coord_ns = pos 0;
  locator = on_worldline (fixed (at_x 0));
  proper_time_stamp = none;
}

-- Two light-nanoseconds away, within 1000 nm.
abbrev received : Event
received = record {
  node_id = "ship";
  vclock = ("station", pos 1) ∷ ("ship", pos 1) ∷ [];
  t_coord_ns = pos 3;
  locator = within_envelope (record {
    nominal = fixed (at_x 599584916);
    t_c = pos 3;
    v_unc = 0;
    a_max = 0;
    u_measured = 1000;
  });
  proper_time_stamp = none;
}

ordered : (r : Reconciliation) × (reconcile sent received ≡ ok r) × (r.verdict ≡ before)
unfolding program
ordered = (_, refl, refl)

sent_there : Located sent (at_x 0)
unfolding program
sent_there = (at_x 0, 0, refl, omega arith)

received_there : Located received (at_x 599584000)
unfolding program
received_there = (at_x 599584916, 1000, refl, omega arith)

reconcile_sound_example : Asserts ordered.0.verdict sent (at_x 0) received (at_x 599584000)
reconcile_sound_example =
    reconcile_sound sent received (at_x 0) (at_x 599584000) ordered.0 ordered.1 sent_there
      received_there
