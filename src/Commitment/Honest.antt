-- ===== src/Commitment/Honest.antt =====
-- horizon/commit_sim.py: the answers of an honest session, without their times and sites.
use horizon_protocol.Prelude.{
  ℕ, zero, suc, ◌+◌, ◌≤◌, ◌<◌, ◌≡◌, ◌∙◌, ap, sym, refl, true, false, String, List, [], ◌∷◌, length,
  none, ℤ, pos, ◌+ℤ◌, ◌-ℤ◌, ◌*ℤ◌, eqb_ℤ, eqb_ℤ_iff, Result, ok, ◌>>=◌, ==_iff, ◌==◌, arith,
  int_laws,
}
use horizon_protocol.Commitment.{
  is_bit, Round, admitted, derive_secrets, derive_challenges, derive_from, insert, sorted,
  range_from, same_ints, indices, nth, secret_at, recompute, check_rounds, commit_response,
  sustain_response, floor_mod, p_field, verify_reveal,
}

-- The response of a round.
unfoldable pub respond : (secrets : List ℤ) → ℤ → (challenges : List ℤ) → ℕ → Result ℤ
respond secrets b challenges zero = do
  a0 ← nth secrets 0
  r0 ← nth challenges 0
  commit_response a0 b r0
respond secrets b challenges (suc j) = do
  ak ← nth secrets (suc j)
  ak_prev ← nth secrets j
  rk ← nth challenges (suc j)
  ok (sustain_response ak ak_prev rk)

-- The loop of `run_session` from a round on.
unfoldable pub honest_from :
    (secrets : List ℤ) → ℤ → (challenges : List ℤ) → ℕ → ℕ → Result (List Round)
unfolding respond
honest_from secrets b challenges k zero = ok []
honest_from secrets b challenges k (suc count) = do
  let further = honest_from secrets b challenges (k + 1) count
  y ← respond secrets b challenges k
  r ← nth challenges k
  rest ← further
  ok (record { k = pos k; r = r; y = y } ∷ rest)

unfoldable pub honest_rounds :
    (secrets : List ℤ) → ℤ → (challenges : List ℤ) → ℕ → Result (List Round)
honest_rounds secrets b challenges k_sustain = honest_from secrets b challenges 0 (k_sustain + 1)

nth_in : (xs : List ℤ) (i : ℕ) → i < length xs → (a : ℤ) × (nth xs i ≡ ok a)
nth_in [] i h = absurd (omega arith)
nth_in (a ∷ xs) zero h = (a, refl)
nth_in (a ∷ xs) (suc i) h = nth_in xs i (omega arith)

length-derive_from :
    (sha256_int : String → ℕ) (seed label : String) (first n : ℕ)
    → length (derive_from sha256_int seed label first n) ≡ n
unfolding derive_from
length-derive_from sha256_int seed label first zero = refl
length-derive_from sha256_int seed label first (suc n) =
    ap suc (length-derive_from sha256_int seed label (first + 1) n)

same_ints_self : (ks : List ℤ) → same_ints ks ks ≡ true
unfolding same_ints
same_ints_self [] = refl
same_ints_self (k ∷ ks) = ground (arith, same_ints_self ks)

insert-range :
    (k first n : ℕ) → k < first → insert (pos k) (range_from first n) ≡ pos k ∷ range_from first n
unfolding insert range_from
insert-range k first zero h = refl
insert-range k first (suc n) h = ground arith

sorted-range_from : (first n : ℕ) → sorted (range_from first n) ≡ range_from first n
unfolding sorted range_from
sorted-range_from first zero = refl
sorted-range_from first (suc n) =
    rw (sorted-range_from (first + 1) n) (insert-range first (first + 1) n (omega arith))

module _ (secrets : List ℤ) (b : ℤ) (challenges : List ℤ) where
  -- The verifier recomputes the response, whatever answer stands in the record.
  response_total :
      (k : ℕ) {r : ℤ}
      → is_bit b ≡ true
      → k < length secrets
      → nth challenges k ≡ ok r
      → (v : ℤ) × (respond secrets b challenges k ≡ ok v)
        × ((y : ℤ) → recompute secrets b (record { k = pos k; r = r; y = y }) ≡ ok v)
  unfolding respond recompute commit_response secret_at
  response_total zero {r} bit h asked =
      let (a0, found) = nth_in secrets 0 h in
      (
        pos (floor_mod (a0 +ℤ b *ℤ r) p_field),
        rw (found, asked, bit) refl,
        λ y. rw (found, bit) refl,
      )
  response_total (suc k) {r} bit h asked =
      let (ak, found) = nth_in secrets (suc k) h in
      let (prev, found_prev) = nth_in secrets k (omega arith) in
      let further : eqb_ℤ (pos (suc k)) (pos 0) ≡ false = ground arith in
      let before : pos (suc k) -ℤ pos 1 ≡ pos k = omega int_laws in
      (
        sustain_response ak prev r,
        rw (found, found_prev, asked) refl,
        λ y. rw (further, found, before, found_prev) refl,
      )

  honest_total :
      (k count : ℕ)
      → is_bit b ≡ true
      → k + count ≤ length secrets
      → k + count ≤ length challenges
      → (rounds : List Round) × (honest_from secrets b challenges k count ≡ ok rounds)
        × (indices rounds ≡ range_from k count)
        × (length rounds ≡ count)
        × (check_rounds secrets b rounds ≡ ok none)
  unfolding honest_from check_rounds range_from
  honest_total k zero bit s c = ([], refl, refl, refl, refl)
  honest_total k (suc count) bit s c =
      let (r, found) = nth_in challenges k (omega arith) in
      let (v, answered, answers) = response_total k bit (omega arith) found in
      let (rest, ran, is, size, fine) =
        honest_total (k + 1) count bit (omega arith) (omega arith) in
      (
        record { k = pos k; r = r; y = v } ∷ rest,
        rw (answered, found, ran) refl,
        ap (λ ks. pos k ∷ ks) is,
        ap suc size,
        rw (answers v, (eqb_ℤ_iff v v).1 refl) fine,
      )

consistent_admitted :
    (rounds : List Round) (b : ℤ) (secrets : List ℤ) (k_sustain : ℕ)
    → is_bit b ≡ true
    → length rounds ≡ k_sustain + 1
    → indices rounds ≡ range_from 0 (k_sustain + 1)
    → length secrets ≡ k_sustain + 1
    → check_rounds secrets b rounds ≡ ok none
    → verify_reveal rounds b secrets k_sustain ≡ ok (admitted (k_sustain + 1))
unfolding verify_reveal
consistent_admitted rounds b secrets k_sustain bit size is enough fine =
    let counted : (length rounds == k_sustain + 1) ≡ true = (==_iff _ _).1 size in
    let ordered : same_ints (sorted (indices rounds)) (range_from 0 (k_sustain + 1)) ≡ true =
      rw (is, sorted-range_from 0 (k_sustain + 1))
        (same_ints_self (range_from 0 (k_sustain + 1))) in
    let one_each : (length secrets == length rounds) ≡ true = (==_iff _ _).1 (enough ∙ sym size) in
    rw (bit, counted, ordered, one_each, fine) (ap (λ n. ok (admitted n)) size)

-- An honest session on secrets and challenges that are derived from a seed is total for either
-- bit and any number of rounds, and the reveal of its bit and secrets is admitted.
pub honest_session_admitted :
    (sha256_int : String → ℕ) (seed : String) (b : ℤ) (k_sustain : ℕ)
    → is_bit b ≡ true
    → let secrets = derive_secrets sha256_int seed k_sustain in
      (rounds : List Round) × (honest_rounds secrets b
          (derive_challenges sha256_int seed k_sustain)
          k_sustain
        ≡ ok rounds)
      × (verify_reveal rounds b secrets k_sustain ≡ ok (admitted (k_sustain + 1)))
unfolding derive_secrets derive_challenges honest_rounds
honest_session_admitted sha256_int seed b k_sustain bit =
    let secrets_size = length-derive_from sha256_int seed "secret-a" 0 (k_sustain + 1) in
    let challenges_size = length-derive_from sha256_int seed "challenge-r" 0 (k_sustain + 1) in
    let (rounds, ran, is, size, fine) =
      honest_total (derive_from sha256_int seed "secret-a" 0 (k_sustain + 1)) b
        (derive_from sha256_int seed "challenge-r" 0 (k_sustain + 1)) 0 (k_sustain + 1) bit
        (omega (arith, secrets_size)) (omega (arith, challenges_size)) in
    (rounds, ran, consistent_admitted rounds b _ k_sustain bit size is secrets_size fine)
