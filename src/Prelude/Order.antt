-- ===== src/Prelude/Order.antt =====
-- The order of texts by code points is total, and `sorted_set` holds each text once.
use Prim.Native.Char.{code}
use Prim.Native.String.{String}
use mathlib.Core.Path.{◌≡◌, refl}
use mathlib.Core.Logic.{inl, inr}
use mathlib.Core.Bool.{true, false}
use mathlib.Core.List.{List, [], ◌∷◌}
use text.Mathlib.TextEquality.{eq_iff, Char-path}
use native.Mathlib.Omega.{arith}
use horizon_protocol.Prelude.Tests.{Bool-cases}
use horizon_protocol.Prelude.Lists.{All, All-map}
use horizon_protocol.Prelude.Keys.{text_key, same_key, elem, distinct}
use horizon_protocol.Prelude.Sorting.{str_ltb, insert_once, insert_once-All, sorted_set}

str_ltb_trans : (a b c : String) → str_ltb a b ≡ true → str_ltb b c ≡ true → str_ltb a c ≡ true
unfolding str_ltb
str_ltb_trans String.[] String.[] c h k = cc
str_ltb_trans String.[] (String.◌∷◌ y t) String.[] h k = cc
str_ltb_trans String.[] (String.◌∷◌ y t) (String.◌∷◌ z u) h k = refl
str_ltb_trans (String.◌∷◌ x s) String.[] c h k = cc
str_ltb_trans (String.◌∷◌ x s) (String.◌∷◌ y t) String.[] h k = cc
str_ltb_trans (String.◌∷◌ x s) (String.◌∷◌ y t) (String.◌∷◌ z u) h k =
    ground (arith, str_ltb_trans s t u)

str_ltb_irrefl : (a : String) → str_ltb a a ≡ false
unfolding str_ltb
str_ltb_irrefl String.[] = refl
str_ltb_irrefl (String.◌∷◌ x s) = ground (arith, str_ltb_irrefl s)

str_ltb_total : (a b : String) → str_ltb a b ≡ false → str_ltb b a ≡ false → a ≡ b
unfolding str_ltb
str_ltb_total String.[] String.[] h k = refl
str_ltb_total String.[] (String.◌∷◌ y t) h k = cc
str_ltb_total (String.◌∷◌ x s) String.[] h k = cc
str_ltb_total (String.◌∷◌ x s) (String.◌∷◌ y t) h k =
    let same : code x ≡ code y = ground arith in
    let rest : s ≡ t = str_ltb_total s t (ground arith) (ground arith) in
    let first = Char-path x y same in cc

-- Each text is before all that follow it.
abbrev Ascending : List String → Type 0
Ascending [] = Unit
Ascending (x ∷ xs) = All (λ y. str_ltb x y ≡ true) xs × Ascending xs

insert_once-Ascending :
    (a : String) (xs : List String) → Ascending xs → Ascending (insert_once a xs)
unfolding insert_once
insert_once-Ascending a [] h = (tt, tt)
insert_once-Ascending a (x ∷ xs) (first, rest) = elim (Bool-cases (same_key a x)) [
  | inl same ↦ rw same (first, rest)
  | inr other ↦ elim (Bool-cases (str_ltb a x)) [
    | inl before ↦
        rw (other, before)
          ((before, All-map (λ y later. str_ltb_trans a x y before later) xs first), (first, rest))
    | inr later ↦
        let after : str_ltb x a ≡ true = elim (Bool-cases (str_ltb x a)) [
          | inl after ↦ after
          | inr neither ↦ absurd (differ a x other (str_ltb_total a x later neither))
        ] in
        rw (other, later)
          (
            (insert_once-All (λ y. str_ltb x y ≡ true) a xs).1 (after, first),
            insert_once-Ascending a xs rest,
          )
  ]
]
  where
    differ : (a x : String) → same_key a x ≡ false → a ≡ x → ⊥
    differ a x other same = cc (other, (eq_iff a x).1 same)

sorted_set-Ascending : (xs : List String) → Ascending (sorted_set xs)
unfolding sorted_set
sorted_set-Ascending [] = tt
sorted_set-Ascending (x ∷ xs) = insert_once-Ascending x (sorted_set xs) (sorted_set-Ascending xs)

absent : (x : String) (xs : List String) → All (λ y. str_ltb x y ≡ true) xs → elem x xs ≡ false
unfolding elem
absent x [] h = refl
absent x (y ∷ xs) (before, rest) = elim (Bool-cases (same_key x y)) [
  | inl same ↦ absurd (not_before_itself x y ((eq_iff x y).0 same) before)
  | inr other ↦ rw other (absent x xs rest)
]
  where
    not_before_itself : (x y : String) → x ≡ y → str_ltb x y ≡ true → ⊥
    not_before_itself x y same before =
        let own : str_ltb y y ≡ true = rw same at before in cc (own, str_ltb_irrefl y)

Ascending-distinct : (xs : List String) → Ascending xs → distinct xs ≡ true
unfolding distinct
Ascending-distinct [] h = refl
Ascending-distinct (x ∷ xs) (first, rest) = rw (absent x xs first) (Ascending-distinct xs rest)

-- Sorting leaves each text once.
pub distinct-sorted_set : (xs : List String) → distinct (sorted_set xs) ≡ true
distinct-sorted_set xs = Ascending-distinct (sorted_set xs) (sorted_set-Ascending xs)
