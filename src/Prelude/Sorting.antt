-- ===== src/Prelude/Sorting.antt =====
-- `sorted(set(xs))` on texts, which Python compares by the code points of their characters.
use Prim.Native.Char.{code}
use Prim.Native.String.{String}
use mathlib.Core.Path.{◌≡◌, refl, sym, subst}
use mathlib.Core.Logic.{◌↔◌, inl, inr}
use text.Mathlib.TextEquality.{eq_iff}
use mathlib.Core.Bool.{Bool, true, false}
use mathlib.Core.List.{List, [], ◌∷◌}
use horizon_protocol.Prelude.Tests.{ltb, Bool-cases, if◌then◌else◌}
use horizon_protocol.Prelude.Lists.{All}
use horizon_protocol.Prelude.Keys.{text_key, same_key}

-- `a < b`
unfoldable pub str_ltb : String → String → Bool
str_ltb String.[] String.[] = false
str_ltb String.[] (String.◌∷◌ d t) = true
str_ltb (String.◌∷◌ c s) String.[] = false
str_ltb (String.◌∷◌ c s) (String.◌∷◌ d t) =
    let rest = str_ltb s t in
    if ltb (code c) (code d) then true else if ltb (code d) (code c) then false else rest

unfoldable pub insert_once : String → List String → List String
unfolding str_ltb
insert_once a [] = a ∷ []
insert_once a (x ∷ xs) =
    let further = insert_once a xs in
    if same_key a x then x ∷ xs else if str_ltb a x then a ∷ x ∷ xs else x ∷ further

unfoldable pub sorted_set : List String → List String
unfolding insert_once
sorted_set [] = []
sorted_set (x ∷ xs) = insert_once x (sorted_set xs)

module _ (P : String → Type 0) where
  pub insert_once-All :
      (a : String) (xs : List String) → All P (insert_once a xs) ↔ (P a × All P xs)
  unfolding insert_once
  insert_once-All a [] = (λ h. h, λ h. h)
  insert_once-All a (x ∷ xs) =
      let further = insert_once-All a xs in
      elim (Bool-cases (same_key a x)) [
        | inl same ↦
            rw same
              (λ (px, all). (subst P (sym ((eq_iff a x).0 same)) px, (px, all)), λ (pa, rest). rest)
        | inr other ↦ elim (Bool-cases (str_ltb a x)) [
          | inl first ↦ rw (other, first) (λ h. h, λ h. h)
          | inr later ↦
              rw (other, later)
                (
                  λ (px, rest). ((further.0 rest).0, (px, (further.0 rest).1)),
                  λ (pa, (px, all)). (px, further.1 (pa, all)),
                )
        ]
      ]

  -- What holds of all the texts holds of all the sorted ones, and conversely.
  pub sorted_set-All : (xs : List String) → All P (sorted_set xs) ↔ All P xs
  unfolding sorted_set
  sorted_set-All [] = (λ h. h, λ h. h)
  sorted_set-All (x ∷ xs) =
      let here = insert_once-All x (sorted_set xs) in
      let rest = sorted_set-All xs in
      (λ h. ((here.0 h).0, rest.0 (here.0 h).1), λ (p, all). here.1 (p, rest.1 all))

sorted_set_runs : sorted_set ("b" ∷ "ab" ∷ "b" ∷ "a" ∷ []) ≡ "a" ∷ "ab" ∷ "b" ∷ []
unfolding sorted_set str_ltb
sorted_set_runs = refl
