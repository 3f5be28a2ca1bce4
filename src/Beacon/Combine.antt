-- ===== src/Beacon/Combine.antt =====
-- horizon/beacon.py: what the combination of blocks keeps of each of them.
use mathlib.Core.Path.{subst}
use horizon_protocol.Prelude.{
  ℕ, ◌≡◌, refl, sym, ◌∙◌, ap, ◌↔◌, inl, inr, List, [], ◌∷◌, ◌++◌, length, All, ok, raise,
  value_error, ok-injective, raise≢ok,
}
use horizon_protocol.Beacon.Blocks.{Block, zeros, xor, xor_blocks}
use horizon_protocol.Beacon.Fold.{
  HasLength, length-zeros, length-xor, xor-zeros, fold, xor_onto-ok, xor_onto-raise, length-fold,
  fold-append, fold_from, undo,
}

-- The blocks fit: there is one, and all are as long as the first.
abbrev pub Fit : List Block → Type 0
Fit [] = ⊥
Fit (b ∷ bs) = All (HasLength (length b)) bs

-- The combination of blocks raises a ValueError exactly when there is no block or two lengths
-- differ, and it gives a block, as long as each of them, exactly when neither is so.
pub xor_blocks_error :
    (bs : List Block)
    → ((xor_blocks bs ≡ raise value_error) ↔ (¬ Fit bs))
      × (((v : Block) × (xor_blocks bs ≡ ok v) × All (HasLength (length v)) bs) ↔ Fit bs)
unfolding xor_blocks
xor_blocks_error [] =
    ((λ _ fits. fits, λ _. refl), (λ (v, e, all). absurd (raise≢ok e), λ fits. absurd fits))
xor_blocks_error (b ∷ bs) =
    let n : ℕ = length b in
    let long = length-fold n (zeros n) (b ∷ bs) (length-zeros n) in
    let runs = xor_onto-ok n (zeros n) (b ∷ bs) in
    (
      (
        λ e fits. absurd (raise≢ok (sym e ∙ runs (refl, fits))),
        λ unfit. elim (xor_onto-raise n (zeros n) (b ∷ bs)) [
          | inl bad ↦ bad
          | inr all ↦ absurd (unfit all.1)
        ],
      ),
      (
        λ (v, e, all). elim (xor_onto-raise n (zeros n) (b ∷ bs)) [
          | inl bad ↦ absurd (raise≢ok (sym bad ∙ e))
          | inr all' ↦ all'.1
        ],
        λ fits. (
          fold (zeros n) (b ∷ bs),
          runs (refl, fits),
          subst (λ k. All (HasLength k) (b ∷ bs)) (sym (long (refl, fits))) (refl, fits),
        ),
      ),
    )

All-append : (P : Block → Type 0) (xs ys : List Block) → All P (xs ++ ys) ↔ (All P xs × All P ys)
All-append P [] ys = (λ h. (tt, h), λ (_, h). h)
All-append P (x ∷ xs) ys =
    let rest = All-append P xs ys in
    (λ (p, h). let (q, r) = rest.0 h in ((p, q), r), λ ((p, q), r). (p, rest.1 (q, r)))

xor_blocks-ok :
    (bs : List Block) {v : Block}
    → xor_blocks bs ≡ ok v
    → All (HasLength (length v)) bs × (v ≡ fold (zeros (length v)) bs)
unfolding xor_blocks
xor_blocks-ok [] e = absurd (raise≢ok e)
xor_blocks-ok (b ∷ bs) {v} e =
    let n : ℕ = length b in
    elim (xor_onto-raise n (zeros n) (b ∷ bs)) [
      | inl bad ↦ absurd (raise≢ok (sym bad ∙ e))
      | inr all ↦
          let value : v ≡ fold (zeros n) (b ∷ bs) =
            ok-injective (sym e ∙ xor_onto-ok n (zeros n) (b ∷ bs) all) in
          let long : length v ≡ n =
            ap length value ∙ length-fold n (zeros n) (b ∷ bs) (length-zeros n) all in
          subst (λ k. All (HasLength k) (b ∷ bs) × (v ≡ fold (zeros k) (b ∷ bs))) (sym long)
            (all, value)
    ]

xor_blocks-fold :
    (b : Block) (bs : List Block)
    → All (HasLength (length b)) bs
    → xor_blocks (b ∷ bs) ≡ ok (fold b bs)
unfolding xor_blocks
xor_blocks-fold b bs all =
    xor_onto-ok (length b) (zeros (length b)) (b ∷ bs) (refl, all)
    ∙ ap (λ s. ok (fold s bs)) (xor-zeros b)

-- Each block is recovered from the beacon's value and the other blocks: the combination of the
-- value with the others is that block. So the value depends on every block, whatever the others.
pub xor_blocks_recover :
    (front back : List Block) (b v : Block)
    → xor_blocks (front ++ b ∷ back) ≡ ok v
    → xor_blocks (v ∷ front ++ back) ≡ ok b
xor_blocks_recover front back b v e =
    let n : ℕ = length v in
    let (all, value) = xor_blocks-ok (front ++ b ∷ back) e in
    let (in_front, (here, in_back)) = (All-append (HasLength n) front (b ∷ back)).0 all in
    let f = fold (zeros n) front in
    let g = fold (zeros n) back in
    let long_f = length-fold n (zeros n) front (length-zeros n) in_front in
    let long_g = length-fold n (zeros n) back (length-zeros n) in_back in
    let parts : v ≡ xor (xor f b) g =
      value
      ∙ fold-append (zeros n) front (b ∷ back)
      ∙ fold_from n (xor f b) back (length-xor f b (long_f ∙ sym here) ∙ long_f) in_back in
    let long_v : length (xor v f) ≡ n = length-xor v f (sym long_f) in
    let undone : fold v (front ++ back) ≡ xor (xor v f) g =
      fold-append v front back
      ∙ ap (λ s. fold s back) (fold_from n v front refl in_front)
      ∙ fold_from n (xor v f) back long_v in_back in
    xor_blocks-fold v (front ++ back) ((All-append (HasLength n) front back).1 (in_front, in_back))
    ∙ ap ok (
        undone
        ∙ ap (λ s. xor (xor s f) g) parts
        ∙ undo f b g (long_f ∙ sym here) (long_g ∙ sym here))
