-- ===== src/EventStore/Claims.antt =====
-- causal-store/causalstore/store.py: the claims of a write, and its relation to current values.
use horizon_protocol.Prelude.{
  ◌≡◌, refl, ◌∙◌, ap, ◌↔◌, inl, inr, String, text_key, true, false, ◌||◌, List, [], ◌∷◌, none, some,
  same_key, elem, All, arith, Bool-cases, Option-cases, eq_iff,
}
use horizon_protocol.Causal.{Ordering}
use horizon_protocol.EventStore.{
  Event, union, find_event, pred_refusal, first_refusal, dominators, ancestors, follows_all,
}

elem_rest :
    (x z : String) (rest : List String)
    → elem z rest ≡ true
    → same_key x z ≡ true
    → elem x rest ≡ true
elem_rest x z rest h e = ap (λ a. elem a rest) ((eq_iff x z).0 e) ∙ h

-- A union holds what one of the two lists holds.
pub elem-union :
    (x : String) (xs ys : List String) → elem x (union xs ys) ≡ (elem x xs || elem x ys)
unfolding union elem
elem-union x [] [] = refl
elem-union x [] (y ∷ ys) =
    let more = elem-union x [] ys in
    let twice = elem_rest x y (union [] ys) in
    elim (Bool-cases (elem y (union [] ys))) [ inl old ↦ ground arith | inr new ↦ ground arith ]
elem-union x (z ∷ xs) ys =
    let more = elem-union x xs ys in
    let twice = elem_rest x z (union xs ys) in
    elim (Bool-cases (elem z (union xs ys))) [ inl old ↦ ground arith | inr new ↦ ground arith ]

module _ {C V : Type 0} (ordering : Ordering C) where
  -- The predecessor is an event of the log that comes before the write.
  abbrev pub Ancestor : List (Event C V) → C → String → Type 0
  Ancestor evs clock pred =
      (p : Event C V) × (find_event evs pred ≡ some p) × (ordering.before p.clock clock ≡ true)

  -- The write does not come before the value.
  abbrev pub NotBefore : C → Event C V → Type 0
  NotBefore clock f = ordering.before clock f.clock ≡ false

  pub dominators-none :
      (clock : C) (fs : List (Event C V))
      → (dominators ordering clock fs ≡ []) ↔ All (NotBefore clock) fs
  unfolding dominators
  dominators-none clock [] = (λ _. tt, λ _. refl)
  dominators-none clock (f ∷ fs) =
      let rest = dominators-none clock fs in
      elim (Bool-cases (ordering.before clock f.clock)) [
        | inl stale ↦ rw stale (λ h. cc, λ (h, _). cc)
        | inr fine ↦ rw fine (λ h. (refl, rest.0 h), λ (_, h). rest.1 h)
      ]

  pub follows_all-ancestors :
      (clock : C) (fs : List (Event C V))
      → follows_all ordering clock fs ≡ true
      → ancestors ordering clock fs ≡ fs
  unfolding follows_all ancestors
  follows_all-ancestors clock [] h = refl
  follows_all-ancestors clock (f ∷ fs) h = ground (arith, follows_all-ancestors clock fs)

  pred_refusal-none :
      (evs : List (Event C V)) (clock : C) (pred : String)
      → (pred_refusal ordering pred (find_event evs pred) clock ≡ none) ↔ Ancestor evs clock pred
  unfolding pred_refusal
  pred_refusal-none evs clock pred = elim (Option-cases (find_event evs pred)) [
    | inl unknown ↦ rw (unknown, pred_refusal) (λ h. cc, λ (p, e, _). cc)
    | inr (p, known) ↦ elim (Bool-cases (ordering.before p.clock clock)) [
      | inl before ↦ rw (known, pred_refusal, before) (λ _. (p, refl, before), λ _. refl)
      | inr other ↦ rw (known, pred_refusal, other) (λ h. cc, λ (q, e, before). cc)
    ]
  ]

  pub first_refusal-none :
      (evs : List (Event C V)) (clock : C) (preds : List String)
      → (first_refusal ordering evs clock preds ≡ none) ↔ All (Ancestor evs clock) preds
  unfolding first_refusal
  first_refusal-none evs clock [] = (λ _. tt, λ _. refl)
  first_refusal-none evs clock (pred ∷ preds) =
      let first = pred_refusal-none evs clock pred in
      let rest = first_refusal-none evs clock preds in
      elim (Option-cases (pred_refusal ordering pred (find_event evs pred) clock)) [
        | inl fine ↦ rw (fine, first_refusal) (λ h. (first.0 fine, rest.0 h), λ (_, h). rest.1 h)
        | inr (why, bad) ↦ rw (bad, first_refusal) (λ h. cc, λ (p, _). let fine = first.1 p in cc)
      ]
