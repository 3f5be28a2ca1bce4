-- ===== src/Commitment/Tests.antt =====
-- A session of three rounds on a toy hash, the frozen sites, and the theorems at them.
use horizon_protocol.Prelude.{
  ℕ, ◌+◌, ◌≡◌, refl, String, List, [], ◌∷◌, All, length, ℤ, pos, negsuc, ◌+ℤ◌, ◌-ℤ◌, ◌*ℤ◌, square,
  magnitude, isqrt, ok,
}
use horizon_protocol.LightTime.{light_search}
use horizon_protocol.Geometry.{
  Position, admissibility_witness, causally_admissible, dist2, min_light_time_ns,
}
use horizon_protocol.Commitment.{
  Round, admitted, pass, indices, derive_secrets, derive_challenges, floor_mod, commit_response,
  sustain_response, recompute, secret_at, check_rounds, sorted, range_from, same_ints,
  verify_reveal, isolation_gate, sustained_isolation_gate,
}
use horizon_protocol.Commitment.Reveal.{IsBit, count, Chained, verify_reveal_sound}
use horizon_protocol.Commitment.Honest.{
  respond, honest_from, honest_rounds, honest_session_admitted,
}

program : Unit {0}
unfolding verify_reveal same_ints range_from sorted check_rounds secret_at recompute
    sustain_response commit_response floor_mod ◌+ℤ◌ ◌-ℤ◌ ◌*ℤ◌ respond honest_from honest_rounds
    isolation_gate sustained_isolation_gate admissibility_witness causally_admissible dist2 square
    magnitude min_light_time_ns light_search isqrt
program = tt

abbrev rounds : List Round
rounds =
    record { k = pos 0; r = pos 5; y = pos 7 } ∷ record { k = pos 1; r = pos 10; y = pos 23 } ∷ []

-- 2 + 1 * 5 and 3 + 2 * 10
abbrev secrets : List ℤ
secrets = pos 2 ∷ pos 3 ∷ []

revealed : verify_reveal rounds (pos 1) secrets 1 ≡ ok (admitted 2)
unfolding program
revealed = refl

wraps : floor_mod (negsuc 0) 2305843009213693951 ≡ 2305843009213693950
unfolding program
wraps = refl

answered : honest_rounds secrets (pos 1) (pos 5 ∷ pos 10 ∷ []) 1 ≡ ok rounds
unfolding program
answered = refl

-- 30 km apart, windows of 50 and rounds of 40 microseconds.
abbrev site_1 : Position
site_1 = record { x = pos 0; y = pos 0; z = pos 0 }

abbrev site_2 : Position
site_2 = record { x = pos 30000000000000; y = pos 0; z = pos 0 }

isolated : (sustained_isolation_gate site_1 site_2 (pos 40000) (pos 50000)).verdict ≡ pass
unfolding program
isolated = refl

verify_reveal_sound_example :
    IsBit (pos 1)
    × (2 ≡ 1 + 1)
    × (length rounds ≡ 1 + 1)
    × (length secrets ≡ 1 + 1)
    × All (λ i. count i (indices rounds) ≡ 1) (range_from 0 (1 + 1))
    × All (Chained secrets (pos 1)) rounds
verify_reveal_sound_example = verify_reveal_sound rounds (pos 1) secrets 1 2 revealed

toy_hash : String → ℕ
toy_hash String.[] = 0
toy_hash (String.◌∷◌ c s) = toy_hash s + 1

honest_session_admitted_example :
    let secrets = derive_secrets toy_hash "seed" 2 in
    (rounds : List Round) × (honest_rounds secrets (pos 1) (derive_challenges toy_hash "seed" 2) 2
      ≡ ok rounds)
    × (verify_reveal rounds (pos 1) secrets 2 ≡ ok (admitted (2 + 1)))
honest_session_admitted_example = honest_session_admitted toy_hash "seed" (pos 1) 2 refl

toy_link : String → Round → String
toy_link prev rec = String.◌∷◌ "h" prev
