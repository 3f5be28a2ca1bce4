-- ===== src/Beacon/Names.antt =====
-- horizon/beacon.py: names of emitters, the names of pairs, and lists of them.
use mathlib.Core.Path.{subst}
use Prim.Native.Char.{Char, code}
use horizon_protocol.Prelude.{
  ◌≡◌, refl, sym, ap, inl, inr, String, text_key, Bool, true, not, ◌&&◌, ◌==◌, List, [], ◌∷◌,
  Bool-cases, same_key, same_key_self, elem, sorted_set, sorted_set-All, concat, All, eq_iff, arith,
}
use horizon_protocol.Beacon.{pair_name}

-- A name without the sign that joins two names.
abbrev pub no_bar : String → Bool
no_bar String.[] = true
no_bar (String.◌∷◌ c s) = not (code c == 124) && no_bar s

abbrev pub Plain : String → Type 0
Plain s = no_bar s ≡ true

-- Holds of every pair of items, in their order.
abbrev pub Pairs {ℓ} : {A : Type ℓ} → (A → A → Type 0) → List A → Type 0
Pairs P [] = Unit
Pairs P (x ∷ xs) = All (P x) xs × Pairs P xs

head_of : {x y : Char} {s t : String} → String.◌∷◌ x s ≡ String.◌∷◌ y t → x ≡ y
head_of h = cc

pub pair_name-injective :
    (a b c d : String) → Plain a → Plain c → pair_name a b ≡ pair_name c d → (a ≡ c) × (b ≡ d)
unfolding concat
pair_name-injective String.[] b String.[] d p q h = (refl, cc)
pair_name-injective String.[] b (String.◌∷◌ y c) d p q h =
    let same : code y ≡ 124 = ap code (sym (head_of h)) in absurd (ground (arith, same))
pair_name-injective (String.◌∷◌ x a) b String.[] d p q h =
    let same : code x ≡ 124 = ap code (head_of h) in absurd (ground (arith, same))
pair_name-injective (String.◌∷◌ x a) b (String.◌∷◌ y c) d p q h =
    let (same, rest) = pair_name-injective a b c d (ground arith) (ground arith) cc in (cc, rest)

pub All-elem :
    (P : String → Type 0) (a : String) (xs : List String) → All P xs → elem a xs ≡ true → P a
unfolding elem
All-elem P a [] h m = cc
All-elem P a (x ∷ xs) (p, ps) m = elim (Bool-cases (same_key a x)) [
  | inl same ↦ subst P (sym ((eq_iff a x).0 same)) p
  | inr other ↦ All-elem P a xs ps (rw other at m)
]

elem_cons :
    (a : String) (xs ys : List String)
    → All (λ x. elem x ys ≡ true) xs
    → All (λ x. elem x (a ∷ ys) ≡ true) xs
unfolding elem
elem_cons a [] ys h = tt
elem_cons a (x ∷ xs) ys (m, ms) = (ground arith, elem_cons a xs ys ms)

pub elem_self : (xs : List String) → All (λ x. elem x xs ≡ true) xs
unfolding elem
elem_self [] = tt
elem_self (x ∷ xs) =
    let here = same_key_self x in (ground (arith, here), elem_cons x xs xs (elem_self xs))

pub elem-sorted_set :
    (a : String) (xs : List String) → elem a xs ≡ true → elem a (sorted_set xs) ≡ true
elem-sorted_set a xs m =
    All-elem (λ x. elem x (sorted_set xs) ≡ true) a xs
      ((sorted_set-All (λ x. elem x (sorted_set xs) ≡ true) xs).0 (elem_self (sorted_set xs))) m
