-- ===== src/Reachability/Correct.antt =====
-- horizon/reachability_cache.py and `CausalLedger.precedes`: the two searches and paths.
use horizon_protocol.Prelude.{
  ◌≡◌, refl, ◌↔◌, ◌⊎◌, inl, inr, Bool, true, false, List, [], ◌∷◌, Key, same_key, elem, arith,
  Bool-cases, same_key_self,
}
use horizon_protocol.Reachability.Graph.{going, successors, PathTo, edge, further}
use horizon_protocol.Reachability.Walk.{
  Pending, Offering, Searching, exhausted, hits, next, found-elem, seen_grows, pending_grows,
  targets_seen, new_is_pending, pending_sources, target_unseen,
}

module _ {K : Type 0} ⦃key : Key K⦄ (edges : List (K × K)) (a b : K) where
  -- Each event that the search has met is pending, or its targets have all been met.
  pub record Closed (s p : List K) : Type 0 where
    pub outside : elem b s ≡ false
    pub closed :
        (y : K)
        → (y ≡ a) ⊎ (elem y s ≡ true)
        → (elem y p ≡ true) ⊎ ((v : K) → elem v (successors y edges) ≡ true → elem v s ≡ true)

  abbrev pub Sound : List K → Type 0
  Sound p = (y : K) → elem y p ≡ true → (y ≡ a) ⊎ PathTo edges a y

  extend :
      (y v : K) → (y ≡ a) ⊎ PathTo edges a y → elem v (successors y edges) ≡ true → PathTo edges a v
  extend y v (inl e) h = edge (rw e at h)
  extend y v (inr path) h = further path h

  module _ {push : K → List K → List K} (pend : Pending push) where
    keeps-Closed :
        {x : K} {s p s' p' : List K}
        → Closed s (x ∷ p)
        → Offering push b (successors x edges) s p (going s' p')
        → Closed s' p'
    unfolding elem
    keeps-Closed {x} {s} {p} {s'} {p'} h o = record {
      outside = target_unseen pend o h.outside;
      closed = λ y known. elim (stays y known) [
        | inl now ↦ inl now
        | inr was ↦ settle y (h.closed y was)
      ];
    }
      where
        settle :
            (y : K)
            → (elem y (x ∷ p) ≡ true)
              ⊎ ((v : K) → elem v (successors y edges) ≡ true → elem v s ≡ true)
            → (elem y p' ≡ true) ⊎ ((v : K) → elem v (successors y edges) ≡ true → elem v s' ≡ true)
        settle y (inl pending) = elim (Bool-cases (same_key y x)) [
          | inl here ↦ inr (λ v m. targets_seen pend v o (rw ((key.same_iff y x).0 here) at m))
          | inr there ↦ inl (pending_grows pend y o (ground arith))
        ]
        settle y (inr met) = inr (λ v m. seen_grows pend v o (met v m))

        stays :
            (y : K)
            → (y ≡ a) ⊎ (elem y s' ≡ true)
            → (elem y p' ≡ true) ⊎ ((y ≡ a) ⊎ (elem y s ≡ true))
        stays y (inl e) = inr (inl e)
        stays y (inr m) = elim (new_is_pending pend y o m) [
          | inl was ↦ inr (inr was)
          | inr now ↦ inl now
        ]

    keeps-Sound :
        (x : K) {s p s' p' : List K}
        → Sound (x ∷ p)
        → Offering push b (successors x edges) s p (going s' p')
        → Sound p'
    unfolding elem
    keeps-Sound x h o y m = elim (pending_sources pend y o m) [
      | inl was ↦ h y (ground arith)
      | inr target ↦ inr (extend x y (h x (ground (arith, same_key_self x))) target)
    ]

    all_met : {s : List K} {v : K} → Closed s [] → PathTo edges a v → elem v s ≡ true
    unfolding elem
    all_met h (edge {v = v} m) = elim (h.closed a (inl refl)) [ inl none ↦ cc | inr met ↦ met v m ]
    all_met h (further {u = u} {v = v} path m) = elim (h.closed u (inr (all_met h path))) [
      | inl none ↦ cc
      | inr met ↦ met v m
    ]

    pub Searching-correct :
        {s p : List K} {r : Bool}
        → Searching push b edges s p r
        → Closed s p
        → Sound p
        → (r ≡ true) ↔ PathTo edges a b
    unfolding elem
    Searching-correct exhausted h k = (λ e. cc, λ path. cc (all_met h path, h.outside))
    Searching-correct (hits {x = x} o) h k =
        (λ _. extend x b (k x (ground (arith, same_key_self x))) (found-elem pend o), λ _. refl)
    Searching-correct (next {x = x} o rest) h k =
        Searching-correct rest (keeps-Closed h o) (keeps-Sound x k o)
