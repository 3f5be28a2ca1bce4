-- ===== src/VectorClock.antt =====
-- mnemesis/vclock.py: vector clocks, the order of events without physical coordinates.
pub mod Order
mod Tests
use horizon_protocol.Prelude.{
  String, text_key, Bool, true, false, not, ◌&&◌, List, [], ◌∷◌, ◌++◌, Option, none, some, ℤ, pos,
  leb_ℤ, max_ℤ, Dict, get, put,
}

-- Counters by node. A node that is missing has counter 0.
abbrev pub Clock : Type 0
Clock = Dict String ℤ

or_zero : Option ℤ → ℤ
or_zero none = pos 0
or_zero (some n) = n

-- `a.get(k, 0)`
unfoldable pub counter : Clock → String → ℤ
unfolding or_zero
counter a k = or_zero (get a k)

unfoldable pub keys : Clock → List String
keys [] = []
keys ((k, n) ∷ a) = k ∷ keys a

unfoldable pub leq_on : List String → Clock → Clock → Bool
leq_on [] a b = true
leq_on (k ∷ ks) a b = leb_ℤ (counter a k) (counter b k) && leq_on ks a b

unfoldable pub leq : Clock → Clock → Bool
leq a b = leq_on (keys a ++ keys b) a b

unfoldable pub happens_before : Clock → Clock → Bool
happens_before a b = leq a b && not (leq b a)

unfoldable pub concurrent : Clock → Clock → Bool
concurrent a b = not (happens_before a b) && not (happens_before b a)

unfoldable pub merge_on : List String → Clock → Clock → Clock
merge_on [] a b = []
merge_on (k ∷ ks) a b = put (merge_on ks a b) k (max_ℤ (counter a k) (counter b k))

unfoldable pub merge : Clock → Clock → Clock
merge a b = merge_on (keys a ++ keys b) a b
