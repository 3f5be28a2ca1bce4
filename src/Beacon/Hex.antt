-- ===== src/Beacon/Hex.antt =====
-- horizon/beacon.py: blocks written in hexadecimal and read back.
use Prim.Native.Char.{Char, code}
use horizon_protocol.Prelude.{
  ℕ, zero, suc, ◌+◌, ◌*◌, ◌/◌, ◌%◌, ◌<◌, ◌≡◌, refl, ◌∙◌, ap, ◌==◌, ==_iff, Bool, true, false, not,
  ◌&&◌, [], ◌∷◌, String, Option, none, some, get_or, All, Result, ok, ◌>>=◌, arith,
}
use horizon_protocol.Beacon.Blocks.{
  Block, hex_digits, to_hex, hex_value, is_space, hex_step, add_bytes, read_hex, from_hex,
}

abbrev pub Byte : ℕ → Type 0
Byte n = n < 256

abbrev digit_code : ℕ → ℕ
digit_code n = code (get_or hex_digits n "0")

abbrev reads_as : ℕ → Option ℕ → Bool
reads_as n none = false
reads_as n (some m) = m == n

-- The digit for `n` is not white space, and its value is `n`.
reads_back : ℕ → Bool
unfolding hex_value is_space
reads_back n = reads_as n (hex_value (digit_code n)) && not (is_space (digit_code n))

all_below : ℕ → (ℕ → Bool) → Bool
all_below zero p = true
all_below (suc n) p = let rest = all_below n p in p n && rest

all_below-true : (n : ℕ) (p : ℕ → Bool) (x : ℕ) → all_below n p ≡ true → x < n → p x ≡ true
unfolding all_below
all_below-true zero p x h lt = absurd (omega arith)
all_below-true (suc n) p x h lt = ground (arith, all_below-true n p x)

digits_read_back : all_below 16 reads_back ≡ true
unfolding all_below reads_back
digits_read_back = refl

reads_as-some : (n : ℕ) (o : Option ℕ) → reads_as n o ≡ true → o ≡ some n
reads_as-some n none h = cc
reads_as-some n (some m) h = ap some ((==_iff m n).0 h)

hex_value-digit :
    (n : ℕ) → n < 16 → (hex_value (digit_code n) ≡ some n) × (is_space (digit_code n) ≡ false)
unfolding reads_back
hex_value-digit n h =
    let test = all_below-true 16 reads_back n digits_read_back h in
    (reads_as-some n _ (ground arith), ground arith)

first_digit : (n : ℕ) → n < 16 → hex_step none (digit_code n) ≡ some (some n, [])
unfolding hex_step
first_digit n h = let (value, shown) = hex_value-digit n h in ground (arith, value, shown)

last_digit :
    (high n : ℕ) → n < 16 → hex_step (some high) (digit_code n) ≡ some (none, (high * 16 + n) ∷ [])
unfolding hex_step
last_digit high n h = let (value, _) = hex_value-digit n h in ground (arith, value)

read_digit :
    (waiting : Option ℕ) (c : Char) (s : String) {waiting' : Option ℕ} {done : Block}
    → hex_step waiting (code c) ≡ some (waiting', done)
    → read_hex waiting (String.◌∷◌ c s) ≡ (read_hex waiting' s >>= λ bs. ok (add_bytes done bs))
unfolding read_hex
read_digit none c s e = rw (e, read_hex) refl
read_digit (some high) c s e = rw (e, read_hex) refl

read_hex-to_hex : (bs : Block) → All Byte bs → read_hex none (to_hex bs) ≡ ok bs
unfolding read_hex to_hex
read_hex-to_hex [] h = refl
read_hex-to_hex (b ∷ bs) (lt, rest) =
    let byte : b / 16 * 16 + b % 16 ≡ b = omega arith in
    let low : String = String.◌∷◌ (get_or hex_digits (b % 16) "0") (to_hex bs) in
    let second =
      read_digit (some (b / 16)) (get_or hex_digits (b % 16) "0") (to_hex bs)
        (last_digit (b / 16) (b % 16) (omega arith)) in
    let more : Block → Result Block = λ bs. ok (add_bytes ((b / 16 * 16 + b % 16) ∷ []) bs) in
    let tail : read_hex (some (b / 16)) low ≡ ok (b ∷ bs) =
      second ∙ ap (λ m. m >>= more) (read_hex-to_hex bs rest) ∙ ap (λ x. ok (x ∷ bs)) byte in
    read_digit none (get_or hex_digits (b / 16) "0") low (first_digit (b / 16) (omega arith))
    ∙ ap (λ m. m >>= λ bs. ok (add_bytes [] bs)) tail

-- A block of bytes that is written in hexadecimal is read back unchanged.
pub from_hex-to_hex : (bs : Block) → All (λ b. b < 256) bs → from_hex (to_hex bs) ≡ ok bs
unfolding from_hex
from_hex-to_hex bs h = read_hex-to_hex bs h
