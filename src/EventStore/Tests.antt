-- ===== src/EventStore/Tests.antt =====
-- A store on logical clocks, and the theorems at it.
use horizon_protocol.Prelude.{
  ℕ, ◌≡◌, refl, String, text_key, true, false, ◌⊎◌, [], ◌∷◌, none, pos, get, put, elem, All,
}
use horizon_protocol.VectorClock.{Clock, counter, keys, leq_on, leq}
use horizon_protocol.Causal.{logical, log_before, log_concurrent}
use horizon_protocol.EventStore.{
  Store, empty_store, events_for_key, append, superseded, live, frontier, find_event, first_refusal,
  dominators, ancestors, follows_all, proven_concurrent, place, classify, decide, admit, write,
  coordination_free, causal_supersede, union,
}
use horizon_protocol.EventStore.Free.{Decided}
use horizon_protocol.EventStore.Commits.{
  Valid, Logged, Kept, event_of, write_effect, coordination_free-Decided,
}

program : Unit {0}
unfolding get put elem counter keys leq_on leq log_before log_concurrent events_for_key append
    superseded live frontier find_event first_refusal dominators ancestors follows_all
    proven_concurrent place classify decide admit write union
program = tt

-- The origin's name stands for the hash of the event.
abbrev digest : String → ℕ → String → Clock → String
digest key value origin clock = origin

abbrev clock : ℕ → ℕ → Clock
clock m n = ("n1", pos m) ∷ ("n2", pos n) ∷ []

abbrev after_one : Store Clock ℕ
after_one = (write logical digest empty_store "k" 1 "a" (clock 1 0) []).0

supersedes : (write logical digest after_one "k" 2 "b" (clock 2 0) []).1.mode ≡ causal_supersede
unfolding program
supersedes = refl

commits_free : (write logical digest after_one "k" 2 "b" (clock 0 1) []).1.mode ≡ coordination_free
unfolding program
commits_free = refl

b_new : find_event after_one.all_events (digest "k" 2 "b" (clock 0 1)) ≡ none
unfolding program
b_new = refl

b_admitted : (write logical digest after_one "k" 2 "b" (clock 0 1) []).1.admitted ≡ true
unfolding program
b_admitted = refl

write_effect_example :
    let r = write logical digest after_one "k" 2 "b" (clock 0 1) [] in
    let ev = event_of logical digest "k" 2 "b" (clock 0 1) [] in
    (Valid logical after_one ev
      × (r.1.admitted ≡ true)
      × Logged logical after_one ev (frontier after_one "k") r.1.mode r.0)
    ⊎ ((¬ Valid logical after_one ev) × (r.1.admitted ≡ false) × Kept logical after_one r.0)
write_effect_example = write_effect logical digest after_one "k" 2 "b" (clock 0 1) [] b_new

coordination_free-Decided_example : All (Decided logical (clock 0 1)) (frontier after_one "k")
coordination_free-Decided_example =
    coordination_free-Decided logical digest after_one "k" 2 "b" (clock 0 1) [] commits_free
