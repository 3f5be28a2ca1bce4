-- ===== src/Prelude/Keys.antt =====
-- Keys that Python compares by `==`: texts, and pairs of keys. Lists of keys serve as sets.
use Prim.Native.String.{String}
use mathlib.Core.Path.{◌≡◌, refl}
use mathlib.Core.Logic.{◌↔◌}
use mathlib.Core.Bool.{Bool, true, false, not, ◌&&◌, ◌||◌}
use mathlib.Core.List.{List, [], ◌∷◌, ◌++◌}
use native.Mathlib.Omega.{arith}
use text.Mathlib.Text.{◌==◌ as text_eq}
use text.Mathlib.TextEquality.{eq_iff}

pub record Key {ℓ} (K : Type ℓ) : Type ℓ where
  pub same : K → K → Bool
  pub same_iff : (a b : K) → (same a b ≡ true) ↔ (a ≡ b)

instance abbrev pub text_key : Key String
text_key = record { same = text_eq; same_iff = eq_iff }

module _ {ℓ} {K : Type ℓ} ⦃key : Key K⦄ where
  abbrev pub same_key : K → K → Bool
  same_key = key.same

  pub same_key_self : (a : K) → same_key a a ≡ true
  same_key_self a = (key.same_iff a a).1 refl

  -- `x in xs`
  unfoldable pub elem : K → List K → Bool
  elem a [] = false
  elem a (x ∷ xs) = key.same a x || elem a xs

  pub elem-append : (a : K) (xs ys : List K) → elem a (xs ++ ys) ≡ (elem a xs || elem a ys)
  unfolding elem
  elem-append a [] ys = refl
  elem-append a (x ∷ xs) ys = ground (arith, elem-append a xs ys)

  -- `len(set(xs)) == len(xs)`
  unfoldable pub distinct : List K → Bool
  distinct [] = true
  distinct (x ∷ xs) = not (elem x xs) && distinct xs

-- A pair is compared part by part.
pub pair_same_iff :
    {A B : Type 0} (ka : Key A) (kb : Key B) (p q : A × B)
    → ((ka.same p.0 q.0 && kb.same p.1 q.1) ≡ true) ↔ (p ≡ q)
pair_same_iff ka kb (a, b) (c, d) = ground (arith, ka.same_iff a c, kb.same_iff b d)

instance abbrev pub pair_key : {A B : Type 0} ⦃ka : Key A⦄ ⦃kb : Key B⦄ → Key (A × B)
pair_key ⦃ka⦄ ⦃kb⦄ = record {
  same = λ p q. ka.same p.0 q.0 && kb.same p.1 q.1;
  same_iff = pair_same_iff ka kb;
}
