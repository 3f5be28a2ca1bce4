-- ===== src/Beacon/Fold.antt =====
-- horizon/beacon.py: the algebra of blocks, and the loop that combines them.
use Prim.Native.Nat.{bit_xor}
use horizon_protocol.Prelude.{
  ℕ, zero, suc, ◌≡◌, refl, sym, ◌∙◌, ap, ◌==◌, ==_iff, ◌⊎◌, inl, inr, List, [], ◌∷◌, ◌++◌, length,
  All, ok, raise, value_error, Bool-cases, arith,
}
use horizon_protocol.Beacon.Xor.{bit_xor-zero_left, bit_xor_comm, bit_xor_assoc, bit_xor_self}
use horizon_protocol.Beacon.Blocks.{Block, zeros, xor, xor_onto}

abbrev pub HasLength : ℕ → Block → Type 0
HasLength n b = length b ≡ n

pub length-zeros : (n : ℕ) → length (zeros n) ≡ n
unfolding zeros
length-zeros zero = refl
length-zeros (suc n) = ap suc (length-zeros n)

pub length-xor : (xs ys : Block) → length xs ≡ length ys → length (xor xs ys) ≡ length xs
unfolding xor
length-xor [] ys h = refl
length-xor (x ∷ xs) [] h = absurd (omega arith)
length-xor (x ∷ xs) (y ∷ ys) h = ap suc (length-xor xs ys (omega arith))

pub xor_comm : (xs ys : Block) → length xs ≡ length ys → xor xs ys ≡ xor ys xs
unfolding xor
xor_comm [] [] h = refl
xor_comm [] (y ∷ ys) h = absurd (omega arith)
xor_comm (x ∷ xs) [] h = absurd (omega arith)
xor_comm (x ∷ xs) (y ∷ ys) h =
    let head = bit_xor_comm x y in let rest = xor_comm xs ys (omega arith) in cc

xor_assoc : (xs ys zs : Block) → xor (xor xs ys) zs ≡ xor xs (xor ys zs)
unfolding xor
xor_assoc [] ys zs = refl
xor_assoc (x ∷ xs) [] zs = refl
xor_assoc (x ∷ xs) (y ∷ ys) [] = refl
xor_assoc (x ∷ xs) (y ∷ ys) (z ∷ zs) =
    let head = bit_xor_assoc x y z in let rest = xor_assoc xs ys zs in cc

pub xor-zeros : (xs : Block) → xor (zeros (length xs)) xs ≡ xs
unfolding xor zeros
xor-zeros [] = refl
xor-zeros (x ∷ xs) = let head = bit_xor-zero_left x in let rest = xor-zeros xs in cc

-- The bytes of the result, where the lengths fit.
abbrev pub fold : Block → List Block → Block
fold out [] = out
fold out (b ∷ bs) = fold (xor out b) bs

pub xor_onto-ok :
    (n : ℕ) (out : Block) (bs : List Block)
    → All (HasLength n) bs
    → xor_onto n out bs ≡ ok (fold out bs)
unfolding xor_onto
xor_onto-ok n out [] h = refl
xor_onto-ok n out (b ∷ bs) (e, es) = rw ((==_iff _ _).1 e) (xor_onto-ok n (xor out b) bs es)

pub xor_onto-raise :
    (n : ℕ) (out : Block) (bs : List Block)
    → (xor_onto n out bs ≡ raise value_error) ⊎ All (HasLength n) bs
unfolding xor_onto
xor_onto-raise n out [] = inr tt
xor_onto-raise n out (b ∷ bs) = elim (Bool-cases (length b == n)) [
  | inl same ↦ elim (xor_onto-raise n (xor out b) bs) [
    | inl bad ↦ inl (rw same bad)
    | inr all ↦ inr ((==_iff _ _).0 same, all)
  ]
  | inr other ↦ inl (rw other refl)
]

pub length-fold :
    (n : ℕ) (out : Block) (bs : List Block)
    → length out ≡ n
    → All (HasLength n) bs
    → length (fold out bs) ≡ n
length-fold n out [] h all = h
length-fold n out (b ∷ bs) h (e, es) =
    length-fold n (xor out b) bs (length-xor out b (h ∙ sym e) ∙ h) es

pub fold-append : (out : Block) (xs ys : List Block) → fold out (xs ++ ys) ≡ fold (fold out xs) ys
fold-append out [] ys = refl
fold-append out (x ∷ xs) ys = fold-append (xor out x) xs ys

-- The start of the loop can be taken out.
pub fold_from :
    (n : ℕ) (out : Block) (bs : List Block)
    → length out ≡ n
    → All (HasLength n) bs
    → fold out bs ≡ xor out (fold (zeros n) bs)
fold_from n out [] h all =
    rw⁻¹ h (sym (xor-zeros out) ∙ xor_comm (zeros (length out)) out (length-zeros (length out)))
fold_from n out (b ∷ bs) h (e, es) =
    let start : xor (zeros n) b ≡ b = rw⁻¹ e (xor-zeros b) in
    let here = fold_from n (xor out b) bs (length-xor out b (h ∙ sym e) ∙ h) es in
    let there = fold_from n b bs e es in
    here
    ∙ xor_assoc out b (fold (zeros n) bs)
    ∙ sym (ap (xor out) (ap (λ s. fold s bs) start ∙ there))

undo_byte : (f b g : ℕ) → bit_xor (bit_xor (bit_xor (bit_xor f b) g) f) g ≡ b
undo_byte f b g = cc (
  bit_xor_assoc f b g,
  bit_xor_comm (bit_xor f (bit_xor b g)) f,
  bit_xor_assoc f f (bit_xor b g),
  bit_xor_self f,
  bit_xor-zero_left (bit_xor b g),
  bit_xor_assoc b g g,
  bit_xor_self g,
  bit_xor_comm b 0,
  bit_xor-zero_left b,
)

pub undo :
    (f b g : Block)
    → length f ≡ length b
    → length g ≡ length b
    → xor (xor (xor (xor f b) g) f) g ≡ b
unfolding xor
undo [] [] g p q = refl
undo [] (y ∷ b) g p q = absurd (omega arith)
undo (x ∷ f) [] g p q = absurd (omega arith)
undo (x ∷ f) (y ∷ b) [] p q = absurd (omega arith)
undo (x ∷ f) (y ∷ b) (z ∷ g) p q =
    let head = undo_byte x y z in let rest = undo f b g (omega arith) (omega arith) in cc
