-- ===== src/Memory/Tests.antt =====
-- A memory of two concurrent writes on logical clocks, and the theorems at it.
use horizon_protocol.Prelude.{
  ℕ, ◌≡◌, refl, String, text_key, [], ◌∷◌, List, pos, get, put, sorted_set, elem, ok,
}
use horizon_protocol.VectorClock.{Clock, counter, keys, leq_on, leq}
use horizon_protocol.Causal.{logical, log_before}
use horizon_protocol.Memory.{
  Write, Memory, empty_memory, make_write, first_refusal, commit, admit, file_under, write,
  write_admitted, lookup_all, superseded, live, frontier, reading, read, conflict, resolve, wids,
}
use horizon_protocol.Memory.Causality.{IsCausal, empty_memory-IsCausal, write-IsCausal}

program : Unit {0}
unfolding get put sorted_set elem counter keys leq_on leq log_before make_write first_refusal commit
    admit file_under write lookup_all superseded live frontier reading read resolve wids
program = tt

-- The observer's name stands for the hash of the write.
abbrev digest : String → ℕ → String → Clock → List String → String
digest key value observer clock preds = observer

abbrev clock : ℕ → ℕ → Clock
clock m n = ("n1", pos m) ∷ ("n2", pos n) ∷ []

abbrev stored : String → ℕ → Clock → Write Clock ℕ
stored wid value c = record {
  wid = wid;
  key = "k";
  value = value;
  observer = wid;
  clock = c;
  preds = [];
}

abbrev one : Memory Clock ℕ
one = record {
  writes = ("a", stored "a" 1 (clock 1 0)) ∷ [];
  by_key = ("k", "a" ∷ []) ∷ [];
  rejections = [];
}

abbrev two : Memory Clock ℕ
two = record {
  writes = ("a", stored "a" 1 (clock 1 0)) ∷ ("b", stored "b" 2 (clock 0 1)) ∷ [];
  by_key = ("k", "a" ∷ "b" ∷ []) ∷ [];
  rejections = [];
}

first_write :
    write logical digest empty_memory "k" 1 "a" (clock 1 0) []
    ≡ (one, write_admitted (stored "a" 1 (clock 1 0)))
unfolding program
first_write = refl

second_write :
    write logical digest one "k" 2 "b" (clock 0 1) []
    ≡ (two, write_admitted (stored "b" 2 (clock 0 1)))
unfolding program
second_write = refl

-- Neither value wins until they are resolved.
read-two : read two "k" ≡ ok (conflict (stored "a" 1 (clock 1 0) ∷ stored "b" 2 (clock 0 1) ∷ []))
unfolding program
read-two = refl

one-IsCausal : IsCausal logical one
unfolding program
one-IsCausal =
    write-IsCausal logical digest empty_memory "k" 1 "a" (clock 1 0) []
      (empty_memory-IsCausal logical)

write-IsCausal_example :
    IsCausal logical (write logical digest one "k" 3 "c" (clock 2 2) ("a" ∷ [])).0
write-IsCausal_example =
    write-IsCausal logical digest one "k" 3 "c" (clock 2 2) ("a" ∷ []) one-IsCausal
