-- ===== src/VectorClock/Order.antt =====
-- The order of vector clocks, and the merge as its least upper bound.
use horizon_protocol.Prelude.{
  ◌≡◌, ◌↔◌, refl, ◌∙◌, inl, inr, String, text_key, true, false, Bool-cases, List, [], ◌∷◌, ◌++◌, ℤ,
  pos, ◌≤ℤ◌, max_ℤ, le-max_ℤ, max_ℤ-le, elem, elem-append, same_key, get, put, get-put, arith,
  if◌then◌else◌,
}
use horizon_protocol.VectorClock.{
  Clock, counter, keys, leq_on, leq, happens_before, concurrent, merge_on, merge,
}

leq_on-counter :
    (ks : List String) (a b : Clock) (k : String)
    → leq_on ks a b ≡ true
    → elem k ks ≡ true
    → counter a k ≤ℤ counter b k
unfolding leq_on elem
leq_on-counter [] a b k h e = absurd (ground arith)
leq_on-counter (j ∷ ks) a b k h e = elim (Bool-cases (same_key k j)) [
  | inl same ↦ rw ((text_key.same_iff k j).0 same) (ground arith)
  | inr other ↦ leq_on-counter ks a b k (ground arith) (ground arith)
]

leq_on_of :
    (ks : List String) (a b : Clock)
    → ((k : String) → counter a k ≤ℤ counter b k)
    → leq_on ks a b ≡ true
unfolding leq_on
leq_on_of [] a b h = refl
leq_on_of (k ∷ ks) a b h = ground (arith, h k, leq_on_of ks a b h)

counter_absent : (a : Clock) (k : String) → elem k (keys a) ≡ false → counter a k ≡ pos 0
unfolding counter keys get elem
counter_absent [] k h = refl
counter_absent ((j, n) ∷ a) k h =
    ground (arith, text_key.same_iff k j, text_key.same_iff j k, counter_absent a k)

-- `leq` answers True exactly when the first clock counts at most what the second counts for
-- every node, where a node that a clock omits counts 0.
pub leq_iff : (a b : Clock) → (leq a b ≡ true) ↔ ((k : String) → counter a k ≤ℤ counter b k)
unfolding leq
leq_iff a b = (
  λ h k. elim (Bool-cases (elem k (keys a ++ keys b))) [
    | inl here ↦ leq_on-counter (keys a ++ keys b) a b k h here
    | inr absent ↦
        let split = elem-append k (keys a) (keys b) in
        let in_a = counter_absent a k (ground arith) in
        let in_b = counter_absent b k (ground arith) in rw (in_a, in_b) (omega arith)
  ],
  leq_on_of (keys a ++ keys b) a b,
)

pub leq_refl : (a : Clock) → leq a a ≡ true
leq_refl a = (leq_iff a a).1 (λ k. omega arith)

pub leq_trans : (a b c : Clock) → leq a b ≡ true → leq b c ≡ true → leq a c ≡ true
leq_trans a b c h i = (leq_iff a c).1 (λ k. omega (arith, (leq_iff a b).0 h k, (leq_iff b c).0 i k))

-- Happening before is a strict partial order.
pub happens_before-strict :
    (a b c : Clock)
    → happens_before a b ≡ true
    → happens_before b c ≡ true
    → (happens_before a c ≡ true) × (happens_before b a ≡ false) × (happens_before a a ≡ false)
unfolding happens_before
happens_before-strict a b c h i =
    (ground (arith, leq_trans a b c, leq_trans c a b), ground arith, ground (arith, leq_refl a))

-- Concurrent clocks are the same instant, each below the other, or neither is below the other.
pub concurrent_iff : (a b : Clock) → (concurrent a b ≡ true) ↔ (leq a b ≡ leq b a)
unfolding concurrent happens_before
concurrent_iff a b = ground arith

counter-put :
    (d : Clock) (j k : String) (v : ℤ)
    → counter (put d j v) k ≡ (if same_key j k then v else counter d k)
unfolding counter
counter-put d j k v = ground (arith, get-put d j k v)

max_ℤ-self : pos 0 ≡ max_ℤ (pos 0) (pos 0)
unfolding max_ℤ
max_ℤ-self = refl

counter-merge_on :
    (ks : List String) (a b : Clock) (k : String)
    → elem k ks ≡ true
    → counter (merge_on ks a b) k ≡ max_ℤ (counter a k) (counter b k)
unfolding merge_on elem
counter-merge_on [] a b k h = absurd (ground arith)
counter-merge_on (j ∷ ks) a b k h = elim (Bool-cases (same_key j k)) [
  | inl same ↦ counter-put (merge_on ks a b) j k _ ∙ rw (same, (text_key.same_iff j k).0 same) refl
  | inr other ↦
      counter-put (merge_on ks a b) j k _
      ∙ rw other
          (counter-merge_on ks a b k (ground (arith, text_key.same_iff j k, text_key.same_iff k j)))
]

counter-merge_absent :
    (ks : List String) (a b : Clock) (k : String)
    → elem k ks ≡ false
    → counter (merge_on ks a b) k ≡ pos 0
unfolding merge_on elem keys
counter-merge_absent [] a b k h = counter_absent [] k refl
counter-merge_absent (j ∷ ks) a b k h =
    counter-put (merge_on ks a b) j k _
    ∙ (let other : same_key j k ≡ false =
          ground (arith, text_key.same_iff j k, text_key.same_iff k j) in
        rw other (counter-merge_absent ks a b k (ground arith)))

-- The merge counts the greater of the two clocks' counts at every node.
pub counter-merge :
    (a b : Clock) (k : String) → counter (merge a b) k ≡ max_ℤ (counter a k) (counter b k)
unfolding merge
counter-merge a b k = elim (Bool-cases (elem k (keys a ++ keys b))) [
  | inl here ↦ counter-merge_on (keys a ++ keys b) a b k here
  | inr absent ↦
      let split = elem-append k (keys a) (keys b) in
      let in_a = counter_absent a k (ground arith) in
      let in_b = counter_absent b k (ground arith) in
      counter-merge_absent (keys a ++ keys b) a b k absent ∙ rw (in_a, in_b) max_ℤ-self
]

-- The merge is the least clock that is above both: another clock is above it exactly when it is
-- above both.
pub merge-least :
    (a b c : Clock)
    → (leq a (merge a b) ≡ true)
      × (leq b (merge a b) ≡ true)
      × ((leq (merge a b) c ≡ true) ↔ ((leq a c ≡ true) × (leq b c ≡ true)))
merge-least a b c =
    let left = (leq_iff a (merge a b)).1 (λ k. rw (counter-merge a b k) (le-max_ℤ _ _).0) in
    let right = (leq_iff b (merge a b)).1 (λ k. rw (counter-merge a b k) (le-max_ℤ _ _).1) in
    (
      left,
      right,
      (
        λ h. (leq_trans a (merge a b) c left h, leq_trans b (merge a b) c right h),
        λ (h, i). (leq_iff (merge a b) c).1 (λ k.
            rw (counter-merge a b k) (max_ℤ-le _ _ _ ((leq_iff a c).0 h k) ((leq_iff b c).0 i k))),
      ),
    )
