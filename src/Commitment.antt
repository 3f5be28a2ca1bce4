-- ===== src/Commitment.antt =====
-- horizon/commitment.py: the relativistic bit commitment. A challenger's rounds answer with
-- elements of a prime field, and the revealed secrets are checked against the transcript. SHA-256
-- is the parameters `sha256_int` (the digest as a number) and `link` (the hash of a record after
-- the hash before it).
pub mod Sites
pub mod Reveal
pub mod Honest
pub mod Transcript
mod Tests
use horizon_protocol.Prelude.{
  ℕ, zero, suc, ◌+◌, ◌-◌, ◌%◌, ◌==◌, String, Bool, true, false, not, ◌&&◌, ◌||◌, List, [], ◌∷◌,
  ◌++◌, map, length, concat, Option, none, some, ℤ, pos, negsuc, ◌+ℤ◌, ◌-ℤ◌, ◌*ℤ◌, ltb_ℤ, leb_ℤ,
  eqb_ℤ, str_of_int, Result, ok, raise, raise_if, value_error, index_error, ◌>>=◌, ◌>>◌, same_key,
  text_key, ltb, if◌then◌else◌,
}
use horizon_protocol.Geometry.{Position, Witness, admissibility_witness, min_light_time_ns}

abbrev pub p_field : ℕ
p_field = 2305843009213693951

-- `z % n` for a positive `n`
unfoldable pub floor_mod : ℤ → ℕ → ℕ
floor_mod (pos m) n = m % n
floor_mod (negsuc m) n = n - 1 - m % n

-- Secrets and challenges, derived from a seed.
module _ (sha256_int : String → ℕ) where
  unfoldable pub derive_field_element : String → String → ℕ → ℤ
  unfolding concat
  derive_field_element seed label counter =
      let text =
        concat seed (concat "||" (concat label (concat "||" (str_of_int (pos counter))))) in
      pos (sha256_int text % p_field)

  unfoldable pub derive_from : String → String → ℕ → ℕ → List ℤ
  derive_from seed label first zero = []
  derive_from seed label first (suc count) =
      derive_field_element seed label first ∷ derive_from seed label (first + 1) count

  unfoldable pub derive_secrets : String → ℕ → List ℤ
  derive_secrets seed k_sustain = derive_from seed "secret-a" 0 (k_sustain + 1)

  unfoldable pub derive_challenges : String → ℕ → List ℤ
  derive_challenges seed k_sustain = derive_from seed "challenge-r" 0 (k_sustain + 1)

abbrev pub is_bit : ℤ → Bool
is_bit b = eqb_ℤ b (pos 0) || eqb_ℤ b (pos 1)

unfoldable pub commit_response : (a0 b r0 : ℤ) → Result ℤ
commit_response a0 b r0 = do
  raise_if (not (is_bit b)) value_error
  ok (pos (floor_mod (a0 +ℤ b *ℤ r0) p_field))

unfoldable pub sustain_response : (ak ak_prev rk : ℤ) → ℤ
sustain_response ak ak_prev rk = pos (floor_mod (ak +ℤ ak_prev *ℤ rk) p_field)

pub record Round : Type 0 where
  pub k : ℤ
  pub r : ℤ
  pub y : ℤ

pub data Gate : Type 0 where
  revealed_bit_domain round_count round_sequence secret_count : Gate
  chain_consistency : (failing_round lhs_transcript_y rhs_recomputed : ℤ) → Gate

pub data Verdict : Type 0 where
  admitted : (rounds_checked : ℕ) → Verdict
  rejected : Gate → Verdict

-- `sorted(ks)`
insert : ℤ → List ℤ → List ℤ
insert k [] = k ∷ []
insert k (j ∷ ks) = let further = insert k ks in if leb_ℤ k j then k ∷ j ∷ ks else j ∷ further

unfoldable pub sorted : List ℤ → List ℤ
unfolding insert
sorted [] = []
sorted (k ∷ ks) = insert k (sorted ks)

-- `list(range(first, first + count))`
unfoldable pub range_from : ℕ → ℕ → List ℤ
range_from first zero = []
range_from first (suc count) = pos first ∷ range_from (first + 1) count

unfoldable pub same_ints : List ℤ → List ℤ → Bool
same_ints [] [] = true
same_ints [] (j ∷ js) = false
same_ints (i ∷ ks) [] = false
same_ints (i ∷ ks) (j ∷ js) = eqb_ℤ i j && same_ints ks js

abbrev pub indices : List Round → List ℤ
indices rounds = map (λ rec. rec.k) rounds

abbrev pub nth : List ℤ → ℕ → Result ℤ
nth [] i = raise index_error
nth (a ∷ rest) zero = ok a
nth (a ∷ rest) (suc i) = nth rest i

-- `secrets[k]`. The rounds' indices are not negative where this is reached.
unfoldable pub secret_at : List ℤ → ℤ → Result ℤ
secret_at secrets (pos i) = nth secrets i
secret_at secrets (negsuc i) = raise index_error

unfoldable pub recompute : List ℤ → ℤ → Round → Result ℤ
recompute secrets b rec =
    let at_zero : Result ℤ = do a0 ← secret_at secrets (pos 0); commit_response a0 b rec.r
    in let later : Result ℤ = do
      ak ← secret_at secrets rec.k
      ak_prev ← secret_at secrets (rec.k -ℤ pos 1)
      ok (sustain_response ak ak_prev rec.r)
      in if eqb_ℤ rec.k (pos 0) then at_zero else later

-- The loop over the rounds: the first gate that rejects.
unfoldable pub check_rounds : List ℤ → ℤ → List Round → Result (Option Gate)
check_rounds secrets b [] = ok none
check_rounds secrets b (rec ∷ rounds) = do
  let rest = check_rounds secrets b rounds
  expected ← recompute secrets b rec
  if eqb_ℤ expected rec.y then rest else ok (some (chain_consistency rec.k rec.y expected))

abbrev pub conclude : List Round → Option Gate → Verdict
conclude rounds none = admitted (length rounds)
conclude rounds (some gate) = rejected gate

unfoldable pub verify_reveal : List Round → ℤ → List ℤ → ℕ → Result Verdict
unfolding recompute check_rounds sorted range_from same_ints
verify_reveal rounds b secrets k_sustain =
    let loop = check_rounds secrets b rounds >>= λ gate. ok (conclude rounds gate) in
    if not (is_bit b)
    then ok (rejected revealed_bit_domain)
    else if not (length rounds == k_sustain + 1)
    then ok (rejected round_count)
    else if not (same_ints (sorted (indices rounds)) (range_from 0 (k_sustain + 1)))
    then ok (rejected round_sequence)
    else if not (length secrets == length rounds)
    then ok (rejected secret_count)
    else loop

pub data IsolationVerdict : Type 0 where
  pass apparatus_limited : IsolationVerdict

pub record Isolation : Type 0 where
  pub verdict : IsolationVerdict
  pub window_ns : ℤ
  pub one_way_light_time_ns : ℕ
  pub exact_witness : Witness

unfoldable pub isolation_gate : Position → Position → ℤ → Isolation
isolation_gate site_a site_b dt_resp_ns =
    let w = admissibility_witness (pos 0) site_a dt_resp_ns site_b in
    record {
      verdict = if not w.admissible then pass else apparatus_limited;
      window_ns = dt_resp_ns;
      one_way_light_time_ns = min_light_time_ns site_a site_b;
      exact_witness = w;
    }

unfoldable pub sustained_isolation_gate :
    Position → Position → (dt_round_ns dt_resp_ns : ℤ) → Isolation
sustained_isolation_gate site_a site_b dt_round_ns dt_resp_ns =
    let total_ns = dt_round_ns +ℤ dt_resp_ns in
    let w = admissibility_witness (pos 0) site_a total_ns site_b in
    record {
      verdict = if not w.admissible then pass else apparatus_limited;
      window_ns = total_ns;
      one_way_light_time_ns = min_light_time_ns site_a site_b;
      exact_witness = w;
    }

unfoldable pub response_in_window : (t_challenge_ns t_response_ns dt_resp_ns : ℤ) → Bool × ℤ
response_in_window t_challenge_ns t_response_ns dt_resp_ns =
    let dt = t_response_ns -ℤ t_challenge_ns in (leb_ℤ (pos 0) dt && ltb_ℤ dt dt_resp_ns, dt)

-- The hash chain over the rounds' records.
module _ (link : String → Round → String) where
  unfoldable pub chain_from : String → List Round → List String
  chain_from prev [] = []
  chain_from prev (rec ∷ rounds) = link prev rec ∷ chain_from (link prev rec) rounds

  -- `verify_transcript_chain` from a round on: the round that fails, if one does.
  unfoldable pub mismatch_from : String → List Round → List String → Option ℤ
  mismatch_from prev [] claimed = none
  mismatch_from prev (rec ∷ rounds) [] = some rec.k
  mismatch_from prev (rec ∷ rounds) (hash ∷ claimed) =
      let rest = mismatch_from (link prev rec) rounds claimed in
      if same_key (link prev rec) hash then rest else some rec.k

  unfoldable pub chain_transcript : String → List Round → List String
  chain_transcript genesis_hash rounds = chain_from genesis_hash rounds

  unfoldable pub verify_transcript_chain : String → List Round → List String → Option ℤ
  verify_transcript_chain genesis_hash rounds claimed = mismatch_from genesis_hash rounds claimed
