-- ===== src/Commitment/Reveal.antt =====
-- horizon/commitment.py: what a revealed commitment that is admitted satisfies.
use horizon_protocol.Prelude.{
  ℕ, zero, suc, ◌+◌, ◌≤◌, ◌<◌, ◌≡◌, ◌∙◌, ap, sym, refl, ◌⊎◌, inl, inr, Bool-cases, true, false, not,
  List, [], ◌∷◌, All, length, Option, none, some, ℤ, pos, ◌+ℤ◌, ◌-ℤ◌, ◌*ℤ◌, eqb_ℤ, eqb_ℤ_iff,
  raise_if, value_error, ok, ok-injective, bound_value, ◌>>=◌, ==_iff, ◌==◌, arith, if◌then◌else◌,
}
use horizon_protocol.Commitment.{
  p_field, floor_mod, is_bit, commit_response, sustain_response, Round, Gate, admitted, insert,
  sorted, range_from, same_ints, indices, secret_at, recompute, check_rounds, conclude,
  verify_reveal,
}

abbrev pub IsBit : ℤ → Type 0
IsBit b = (b ≡ pos 0) ⊎ (b ≡ pos 1)

-- The equation of the chain that a round answers: the first round hides the bit, and each later
-- one the secret before it.
abbrev pub Chained : List ℤ → ℤ → Round → Type 0
Chained secrets b rec =
    (a : ℤ) × (secret_at secrets rec.k ≡ ok a)
    × (((rec.k ≡ pos 0) × (rec.y ≡ pos (floor_mod (a +ℤ b *ℤ rec.r) p_field)))
        ⊎ ((prev : ℤ) × (secret_at secrets (rec.k -ℤ pos 1) ≡ ok prev)
            × (rec.y ≡ pos (floor_mod (a +ℤ prev *ℤ rec.r) p_field))))

-- How often an index occurs.
unfoldable pub count : ℤ → List ℤ → ℕ
count i [] = 0
count i (k ∷ ks) = if eqb_ℤ i k then suc (count i ks) else count i ks

count-insert : (i k : ℤ) (ks : List ℤ) → count i (insert k ks) ≡ count i (k ∷ ks)
unfolding count insert
count-insert i k [] = refl
count-insert i k (j ∷ ks) = ground (arith, count-insert i k ks)

count-sorted : (i : ℤ) (ks : List ℤ) → count i (sorted ks) ≡ count i ks
unfolding count sorted
count-sorted i [] = refl
count-sorted i (k ∷ ks) = count-insert i k (sorted ks) ∙ (rw (count-sorted i ks) refl)

count-range_below : (i first n : ℕ) → i < first → count (pos i) (range_from first n) ≡ 0
unfolding count range_from
count-range_below i first zero h = refl
count-range_below i first (suc n) h =
    ground (arith, count-range_below i (first + 1) n (omega arith))

count-range_from :
    (i first n : ℕ) → first ≤ i → i < first + n → count (pos i) (range_from first n) ≡ 1
unfolding count range_from
count-range_from i first zero h lt = absurd (omega arith)
count-range_from i first (suc n) h lt = elim (Bool-cases (eqb_ℤ (pos i) (pos first))) [
  | inl here ↦ rw here (ap suc (count-range_below i (first + 1) n (ground arith)))
  | inr apart ↦ rw apart (count-range_from i (first + 1) n (ground arith) (omega arith))
]

All-range_from :
    (P : ℤ → Type 0) (first n : ℕ)
    → ((i : ℕ) → first ≤ i → i < first + n → P (pos i))
    → All P (range_from first n)
unfolding range_from
All-range_from P first zero h = tt
All-range_from P first (suc n) h = (
  h first (omega arith) (omega arith),
  All-range_from P (first + 1) n (λ i le lt. h i (omega arith) (omega arith)),
)

same_ints-eq : (ks js : List ℤ) → same_ints ks js ≡ true → ks ≡ js
unfolding same_ints
same_ints-eq [] [] h = refl
same_ints-eq [] (j ∷ js) h = cc
same_ints-eq (i ∷ ks) [] h = cc
same_ints-eq (i ∷ ks) (j ∷ js) h =
    let first = (eqb_ℤ_iff i j).0 (ground arith) in
    let rest = same_ints-eq ks js (ground arith) in rw (first, rest) refl

module _ (secrets : List ℤ) (b : ℤ) (rec : Round) where
  at_zero :
      eqb_ℤ rec.k (pos 0) ≡ true
      → recompute secrets b rec ≡ (secret_at secrets (pos 0) >>= λ a0. commit_response a0 b rec.r)
  unfolding recompute
  at_zero e = rw e refl

  later :
      eqb_ℤ rec.k (pos 0) ≡ false
      → recompute secrets b rec ≡ (
          secret_at secrets rec.k >>= λ ak.
          secret_at secrets (rec.k -ℤ pos 1) >>= λ ak_prev. ok (sustain_response ak ak_prev rec.r))
  unfolding recompute
  later e = rw e refl

  recompute-Chained : recompute secrets b rec ≡ ok rec.y → Chained secrets b rec
  unfolding commit_response sustain_response
  recompute-Chained h = elim (Bool-cases (eqb_ℤ rec.k (pos 0))) [
    | inl first ↦
        let zero_index = (eqb_ℤ_iff rec.k (pos 0)).0 first in
        let (a0, found, answer) =
          bound_value (secret_at secrets (pos 0)) (sym (at_zero first) ∙ h) in
        let (bit, passed, value) =
          bound_value (raise_if (not (is_bit b)) value_error) (sym answer) in
        (a0, rw zero_index (sym found), inl (zero_index, ok-injective value))
    | inr further ↦
        let (ak, found, answer) = bound_value (secret_at secrets rec.k) (sym (later further) ∙ h) in
        let (prev, found_prev, value) =
          bound_value (secret_at secrets (rec.k -ℤ pos 1)) (sym answer) in
        (ak, sym found, inr (prev, sym found_prev, ok-injective value))
  ]

check_rounds-Chained :
    (secrets : List ℤ) (b : ℤ) (rounds : List Round)
    → check_rounds secrets b rounds ≡ ok none
    → All (Chained secrets b) rounds
unfolding check_rounds
check_rounds-Chained secrets b [] h = tt
check_rounds-Chained secrets b (rec ∷ rounds) h =
    let (expected, ran, fine) = bound_value (recompute secrets b rec) h in
    elim (Bool-cases (eqb_ℤ expected rec.y)) [
      | inl same ↦
          let agrees = (eqb_ℤ_iff expected rec.y).0 same in
          (
            recompute-Chained secrets b rec (sym ran ∙ ap ok agrees),
            check_rounds-Chained secrets b rounds (ground arith),
          )
      | inr other ↦ absurd (ground arith)
    ]

conclude-none :
    (rounds : List Round) (gate : Option Gate) (n : ℕ)
    → conclude rounds gate ≡ admitted n
    → (gate ≡ none) × (n ≡ length rounds)
conclude-none rounds none n h = (refl, cc)
conclude-none rounds (some gate) n h = cc

-- The gates before the chain is recomputed, and that loop.
admitted-gates :
    (rounds : List Round) (b : ℤ) (secrets : List ℤ) (k_sustain n : ℕ)
    → verify_reveal rounds b secrets k_sustain ≡ ok (admitted n)
    → (is_bit b ≡ true)
      × ((length rounds == k_sustain + 1) ≡ true)
      × (same_ints (sorted (indices rounds)) (range_from 0 (k_sustain + 1)) ≡ true)
      × ((length secrets == length rounds) ≡ true)
      × ((check_rounds secrets b rounds >>= λ gate. ok (conclude rounds gate)) ≡ ok (admitted n))
unfolding verify_reveal
admitted-gates rounds b secrets k_sustain n h =
    (ground arith, ground arith, ground arith, ground arith, ground arith)

-- A reveal that is admitted opens a bit, its transcript has each of the rounds 0 to K just once,
-- it gives a secret for every round, and every round answers its equation of the chain.
pub verify_reveal_sound :
    (rounds : List Round) (b : ℤ) (secrets : List ℤ) (k_sustain n : ℕ)
    → verify_reveal rounds b secrets k_sustain ≡ ok (admitted n)
    → IsBit b
      × (n ≡ k_sustain + 1)
      × (length rounds ≡ k_sustain + 1)
      × (length secrets ≡ k_sustain + 1)
      × All (λ i. count i (indices rounds) ≡ 1) (range_from 0 (k_sustain + 1))
      × All (Chained secrets b) rounds
verify_reveal_sound rounds b secrets k_sustain n h =
    let (bit, counted, ordered, enough, ran) = admitted-gates rounds b secrets k_sustain n h in
    let (gate, checked, verdict) = bound_value (check_rounds secrets b rounds) ran in
    let (clear, all) = conclude-none rounds gate n (sym (ok-injective verdict)) in
    let size : length rounds ≡ k_sustain + 1 = (==_iff _ _).0 counted in
    let once = same_ints-eq _ _ ordered in
    (
      elim (Bool-cases (eqb_ℤ b (pos 0))) [
        | inl zero_bit ↦ inl ((eqb_ℤ_iff b (pos 0)).0 zero_bit)
        | inr other ↦ inr ((eqb_ℤ_iff b (pos 1)).0 (ground arith))
      ],
      all ∙ size,
      size,
      (==_iff _ _).0 enough ∙ size,
      All-range_from (λ i. count i (indices rounds) ≡ 1) 0 (k_sustain + 1)
          (λ i le lt.
            sym (count-sorted (pos i) (indices rounds))
            ∙ ap (count (pos i)) once
            ∙ count-range_from i 0 (k_sustain + 1) le lt),
      check_rounds-Chained secrets b rounds (sym checked ∙ ap ok clear),
    )
