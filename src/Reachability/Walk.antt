-- ===== src/Reachability/Walk.antt =====
-- The two searches as relations, and what every search that the relations describe returns.
use horizon_protocol.Prelude.{
  suc, ◌≡◌, ◌⊎◌, inl, inr, Bool, true, false, ◌||◌, List, [], ◌∷◌, length, Key, same_key, elem,
  arith, Bool-cases,
}
use horizon_protocol.Reachability.Graph.{Outcome, found, going, successors}

-- Where a search puts what it meets: on a stack or in a queue.
pub record Pending {K : Type 0} ⦃key : Key K⦄ (push : K → List K → List K) : Type 0 where
  pub elem-push : (y v : K) (p : List K) → elem y (push v p) ≡ (same_key y v || elem y p)
  pub length-push : (v : K) (p : List K) → length (push v p) ≡ suc (length p)

module _ {K : Type 0} ⦃key : Key K⦄ (push : K → List K → List K) (b : K) where
  -- One inner loop over the targets of an event.
  pub data Offering : List K → List K → List K → Outcome K → Type 0 where
    over : {s p : List K} → Offering [] s p (going s p)
    old :
        {v : K} {vs s p : List K} {o : Outcome K}
        → elem v s ≡ true
        → Offering vs s p o
        → Offering (v ∷ vs) s p o
    hit : {v : K} {vs s p : List K} → same_key v b ≡ true → Offering (v ∷ vs) s p found
    new :
        {v : K} {vs s p : List K} {o : Outcome K}
        → elem v s ≡ false
        → same_key v b ≡ false
        → Offering vs (v ∷ s) (push v p) o
        → Offering (v ∷ vs) s p o

  pub data Searching (edges : List (K × K)) : List K → List K → Bool → Type 0 where
    exhausted : {s : List K} → Searching edges s [] false
    hits :
        {x : K} {s p : List K}
        → Offering (successors x edges) s p found
        → Searching edges s (x ∷ p) true
    next :
        {x : K} {s p s' p' : List K} {r : Bool}
        → Offering (successors x edges) s p (going s' p')
        → Searching edges s' p' r
        → Searching edges s (x ∷ p) r

-- One inner loop, from what it starts with (`s`, `p`) to what it leaves (`s'`, `p'`).
module _ {K : Type 0} ⦃key : Key K⦄ {push : K → List K → List K} {b : K} (pend : Pending push) where
  pub found-elem : {vs s p : List K} → Offering push b vs s p found → elem b vs ≡ true
  unfolding elem
  found-elem (old {v = v} e o) = ground (arith, found-elem o)
  found-elem (hit {v = v} e) = ground (arith, key.same_iff v b, key.same_iff b v)
  found-elem (new {v = v} e f o) = ground (arith, found-elem o)

  pub seen_grows :
      {vs s p s' p' : List K} (y : K)
      → Offering push b vs s p (going s' p')
      → elem y s ≡ true
      → elem y s' ≡ true
  unfolding elem
  seen_grows y over h = h
  seen_grows y (old e o) h = seen_grows y o h
  seen_grows y (new e f o) h = seen_grows y o (ground arith)

  pub pending_grows :
      {vs s p s' p' : List K} (y : K)
      → Offering push b vs s p (going s' p')
      → elem y p ≡ true
      → elem y p' ≡ true
  pending_grows y over h = h
  pending_grows y (old e o) h = pending_grows y o h
  pending_grows y (new {v = v} {p = p} e f o) h =
      pending_grows y o (ground (arith, pend.elem-push y v p))

  pub targets_seen :
      {vs s p s' p' : List K} (y : K)
      → Offering push b vs s p (going s' p')
      → elem y vs ≡ true
      → elem y s' ≡ true
  unfolding elem
  targets_seen y over h = cc
  targets_seen y (old {v = v} e o) h = elim (Bool-cases (same_key y v)) [
    | inl here ↦ seen_grows y o (rw ((key.same_iff y v).0 here) e)
    | inr there ↦ targets_seen y o (ground arith)
  ]
  targets_seen y (new {v = v} e f o) h = elim (Bool-cases (same_key y v)) [
    | inl here ↦ seen_grows y o (ground arith)
    | inr there ↦ targets_seen y o (ground arith)
  ]

  pub new_is_pending :
      {vs s p s' p' : List K} (y : K)
      → Offering push b vs s p (going s' p')
      → elem y s' ≡ true
      → (elem y s ≡ true) ⊎ (elem y p' ≡ true)
  unfolding elem
  new_is_pending y over h = inl h
  new_is_pending y (old e o) h = new_is_pending y o h
  new_is_pending y (new {v = v} {p = p} e f o) h = elim (new_is_pending y o h) [
    | inl was ↦ elim (Bool-cases (same_key y v)) [
      | inl here ↦ inr (pending_grows y o (ground (arith, pend.elem-push y v p)))
      | inr there ↦ inl (ground arith)
    ]
    | inr now ↦ inr now
  ]

  pub pending_sources :
      {vs s p s' p' : List K} (y : K)
      → Offering push b vs s p (going s' p')
      → elem y p' ≡ true
      → (elem y p ≡ true) ⊎ (elem y vs ≡ true)
  unfolding elem
  pending_sources y over h = inl h
  pending_sources y (old e o) h = ground (arith, pending_sources y o)
  pending_sources y (new {v = v} {p = p} e f o) h =
      ground (arith, pending_sources y o, pend.elem-push y v p)

  pub target_unseen :
      {vs s p s' p' : List K}
      → Offering push b vs s p (going s' p')
      → elem b s ≡ false
      → elem b s' ≡ false
  unfolding elem
  target_unseen over h = h
  target_unseen (old e o) h = target_unseen o h
  target_unseen (new {v = v} e f o) h =
      target_unseen o (ground (arith, key.same_iff v b, key.same_iff b v))
