-- ===== src/Beacon/Blocks.antt =====
-- horizon/beacon.py: entropy blocks. A block is a list of bytes, numbers below 256; `to_hex` and
-- `from_hex` are Python's `bytes.hex` and `bytes.fromhex`.
use Prim.Native.Nat.{bit_xor}
use Prim.Native.Char.{Char, code}
use horizon_protocol.Prelude.{
  ℕ, zero, suc, ◌+◌, ◌-◌, ◌*◌, ◌/◌, ◌%◌, ◌==◌, leb, String, Bool, not, ◌&&◌, ◌||◌, List, [], ◌∷◌,
  Option, none, some, length, get_or, Result, ok, raise, value_error, ◌>>=◌, if◌then◌else◌,
}

abbrev pub Block : Type 0
Block = List ℕ

abbrev pub hex_digits : List Char
hex_digits =
    "0" ∷ "1" ∷ "2" ∷ "3" ∷ "4" ∷ "5" ∷ "6" ∷ "7" ∷ "8" ∷ "9" ∷ "a" ∷ "b" ∷ "c" ∷ "d" ∷ "e" ∷ "f"
    ∷ []

unfoldable pub to_hex : Block → String
to_hex [] = String.[]
to_hex (b ∷ bs) =
    String.◌∷◌ (get_or hex_digits (b / 16) "0")
      (String.◌∷◌ (get_or hex_digits (b % 16) "0") (to_hex bs))

-- The value of a digit in either case.
unfoldable pub hex_value : ℕ → Option ℕ
hex_value c =
    if leb 48 c && leb c 57
    then some (c - 48)
    else if leb 97 c && leb c 102
    then some (c - 87)
    else if leb 65 c && leb c 70
    then some (c - 55)
    else none

-- ASCII white space, which `bytes.fromhex` skips between bytes.
unfoldable pub is_space : ℕ → Bool
is_space c = c == 32 || (leb 9 c && leb c 13)

-- One character, after the first digit of a byte or between bytes: the digit that waits then, and
-- the bytes that are complete.
unfoldable pub hex_step : Option ℕ → ℕ → Option (Option ℕ × Block)
unfolding hex_value is_space
hex_step none c =
    if is_space c
    then some (none, [])
    else elim (hex_value c) [ none ↦ none | some high ↦ some (some high, []) ]
hex_step (some high) c = elim (hex_value c) [
  | none ↦ none
  | some low ↦ some (none, (high * 16 + low) ∷ [])
]

abbrev pub add_bytes : Block → Block → Block
add_bytes [] bs = bs
add_bytes (b ∷ more) bs = b ∷ add_bytes more bs

unfoldable pub read_hex : Option ℕ → String → Result Block
unfolding hex_step
read_hex none String.[] = ok []
read_hex (some high) String.[] = raise value_error
read_hex waiting (String.◌∷◌ c s) = elim (hex_step waiting (code c)) [
  | none ↦ raise value_error
  | some (waiting', done) ↦ read_hex waiting' s >>= λ bs. ok (add_bytes done bs)
]

unfoldable pub from_hex : String → Result Block
unfolding read_hex
from_hex s = read_hex none s

-- `bytes(n)`
unfoldable pub zeros : ℕ → Block
zeros zero = []
zeros (suc n) = 0 ∷ zeros n

-- `bytes(x ^ y for x, y in zip(xs, ys))`
unfoldable pub xor : Block → Block → Block
xor [] ys = []
xor (x ∷ xs) [] = []
xor (x ∷ xs) (y ∷ ys) = bit_xor x y ∷ xor xs ys

-- The loop over the blocks.
unfoldable pub xor_onto : (n : ℕ) → Block → List Block → Result Block
unfolding xor
xor_onto n out [] = ok out
xor_onto n out (b ∷ bs) =
    let rest = xor_onto n (xor out b) bs in if not (length b == n) then raise value_error else rest

unfoldable pub xor_blocks : List Block → Result Block
unfolding xor_onto zeros
xor_blocks [] = raise value_error
xor_blocks (b ∷ bs) = xor_onto (length b) (zeros (length b)) (b ∷ bs)
