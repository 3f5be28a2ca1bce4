-- ===== src/Prelude/Text.antt =====
-- Python's truth of a text, and `str` of an integer.
use Prim.Native.Nat.{ℕ, zero, suc, ◌/◌, ◌%◌}
use Prim.Native.Char.{Char}
use Prim.Native.String.{String}
use mathlib.Core.Path.{◌≡◌, refl}
use mathlib.Core.Logic.{inl, inr}
use mathlib.Core.Bool.{Bool, true, false}
use mathlib.Core.List.{List, [], ◌∷◌}
use horizon_protocol.Prelude.Tests.{◌==◌, if◌then◌else◌, Bool-cases}
use horizon_protocol.Prelude.Lists.{get_or}
use horizon_protocol.Prelude.Int.{ℤ, pos, negsuc}

-- `bool(s)`
abbrev pub nonempty : String → Bool
nonempty String.[] = false
nonempty (String.◌∷◌ c s) = true

-- `s + t`
unfoldable pub concat : String → String → String
concat String.[] t = t
concat (String.◌∷◌ c s) t = String.◌∷◌ c (concat s t)

digits : List Char
digits = "0" ∷ "1" ∷ "2" ∷ "3" ∷ "4" ∷ "5" ∷ "6" ∷ "7" ∷ "8" ∷ "9" ∷ []

-- The decimal digits of `n` before those written so far. The fuel `n` is enough.
decimal : ℕ → ℕ → String → String
unfolding digits
decimal zero n written = String.◌∷◌ (get_or digits n "0") written
decimal (suc fuel) n written =
    let longer = String.◌∷◌ (get_or digits (n % 10) "0") written in
    let rest = decimal fuel (n / 10) longer in if n / 10 == 0 then longer else rest

unfoldable pub str_of_int : ℤ → String
unfolding decimal
str_of_int (pos n) = decimal n n String.[]
str_of_int (negsuc n) = String.◌∷◌ "-" (decimal (suc n) (suc n) String.[])

decimal-nonempty : (fuel n : ℕ) (s : String) → nonempty (decimal fuel n s) ≡ true
unfolding decimal
decimal-nonempty zero n s = refl
decimal-nonempty (suc fuel) n s = elim (Bool-cases (n / 10 == 0)) [
  | inl last ↦ rw (last, decimal) refl
  | inr more ↦ rw (more, decimal) (decimal-nonempty fuel (n / 10) _)
]

pub str_of_int-nonempty : (z : ℤ) → nonempty (str_of_int z) ≡ true
unfolding str_of_int
str_of_int-nonempty (pos n) = decimal-nonempty n n String.[]
str_of_int-nonempty (negsuc n) = refl

str_of_int_runs : str_of_int (negsuc 1029) ≡ "-1030"
unfolding str_of_int
str_of_int_runs = refl
