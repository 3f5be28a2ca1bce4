-- ===== src/VectorClock/Tests.antt =====
-- Clocks of two nodes, one that leaves a zero out.
use horizon_protocol.Prelude.{◌≡◌, refl, ◌↔◌, true, false, [], ◌∷◌, pos, get, put, max_ℤ}
use horizon_protocol.VectorClock.{
  Clock, counter, keys, leq_on, leq, happens_before, concurrent, merge_on, merge,
}
use horizon_protocol.VectorClock.Order.{merge-least}

program : Unit {0}
unfolding counter keys leq_on leq happens_before concurrent merge_on merge get put max_ℤ
program = tt

abbrev first : Clock
first = ("n1", pos 1) ∷ []

abbrev padded : Clock
padded = ("n1", pos 1) ∷ ("n2", pos 0) ∷ []

abbrev second : Clock
second = ("n1", pos 1) ∷ ("n2", pos 3) ∷ []

abbrev third : Clock
third = ("n1", pos 2) ∷ ("n2", pos 3) ∷ []

same_instant : (happens_before first padded ≡ false) × (concurrent first padded ≡ true)
unfolding program
same_instant = (refl, refl)

first-second : happens_before first second ≡ true
unfolding program
first-second = refl

second-third : happens_before second third ≡ true
unfolding program
second-third = refl

merge-least_example :
    (leq first (merge first second) ≡ true)
    × (leq second (merge first second) ≡ true)
    × ((leq (merge first second) third ≡ true)
        ↔ ((leq first third ≡ true) × (leq second third ≡ true)))
merge-least_example = merge-least first second third
