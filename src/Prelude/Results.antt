-- ===== src/Prelude/Results.antt =====
-- Results of methods that may raise an exception, and `do` blocks over them.
use mathlib.Core.Path.{◌≡◌, refl, sym}
use mathlib.Core.Bool.{Bool, true, false}
use mathlib.Core.Option.{Option, none, some}

pub data Exception : Type 0 where
  value_error key_error index_error zero_division_error assertion_error : Exception
  overflow_error : Exception

pub data Result (A : Type 0) : Type 0 where
  ok : A → Result A
  raise : Exception → Result A

infixl 5 ◌>>=◌ ◌>>◌
abbrev pub ◌>>=◌ : {A B : Type 0} → Result A → (A → Result B) → Result B
ok a >>= f = f a
raise e >>= f = raise e

abbrev pub ◌>>◌ : {A B : Type 0} → Result A → Result B → Result B
m >> k = m >>= λ _. k

-- `if test: raise e`
abbrev pub raise_if : Bool → Exception → Result (Unit {0})
raise_if true e = raise e
raise_if false e = ok tt

-- `d[k]`, on what `d.get(k)` returns
abbrev pub required : {A : Type 0} → Option A → Result A
required none = raise key_error
required (some a) = ok a

-- What a statement that did not raise returned, for a block that went on with it.
pub bound_value :
    {A B : Type 0} (m : Result A) {f : A → Result B} {b : B}
    → (m >>= f) ≡ ok b
    → (v : A) × (ok v ≡ m) × (ok b ≡ f v)
bound_value (raise e) h = cc
bound_value (ok a) h = (a, refl, sym h)

pub ok-injective : {A : Type 0} {a b : A} → ok a ≡ ok b → a ≡ b
ok-injective h = cc

pub raise≢ok : {A : Type 0} {e : Exception} {a : A} → raise e ≡ ok a → ⊥
raise≢ok h = cc
