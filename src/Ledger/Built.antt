-- ===== src/Ledger/Built.antt =====
-- horizon/ledger.py: the ledgers that the methods build.
use mathlib.Core.Path.{subst}
use mathlib.Core.List.{append-nil}
use horizon_protocol.Prelude.{
  ◌≡◌, sym, ap, ◌∙◌, String, text_key, pair_key, true, false, inl, inr, List, [], ◌∷◌, ◌++◌, ℤ,
  same_key, elem, get, ok, ok-injective, raise≢ok, Option-cases, arith, Bool-cases, eq_iff,
}
use horizon_protocol.Geometry.{Position}
use horizon_protocol.EdgeClaims.{
  EdgeBody, EdgeClaim, edge_claim, physical_admissibility, dependency_kinds,
}
use horizon_protocol.Ledger.{
  EdgeRecord, Ledger, new_ledger, add_event, strictly_after, add_edge, add_dependency_claim,
  precedes_fast,
}
use horizon_protocol.Ledger.Invariant.{
  IsCausal, IsCausal-new, physical_edges-append, add_event-IsCausal, add_edge_known,
  add_edge_unknown, with_edge-IsCausal,
}

-- A dependency kind is not physical admissibility.
dependency-ne-physical :
    (kind : String)
    → elem kind dependency_kinds ≡ true
    → same_key kind physical_admissibility ≡ false
unfolding elem
dependency-ne-physical kind h = elim (Bool-cases (same_key kind physical_admissibility)) [
  | inl physical ↦ cc (subst (λ k. elem k dependency_kinds ≡ true) ((eq_iff _ _).0 physical) h)
  | inr other ↦ other
]

-- The claim that `EdgeClaim(...)` makes holds its arguments.
edge_claim-body :
    (digest : EdgeBody → String) (body : EdgeBody) (refs : List String) {c : EdgeClaim}
    → edge_claim digest body refs ≡ ok c
    → c.body ≡ body
unfolding edge_claim
edge_claim-body digest body refs h = ground arith

module _ (digest : EdgeBody → String) (l : Ledger) where
  pub add_edge-IsCausal :
      (a b : String) {l' : Ledger} {r : EdgeRecord}
      → IsCausal l
      → add_edge digest l a b ≡ ok (l', r)
      → IsCausal l'
  add_edge-IsCausal a b h e = elim (Option-cases (get l.events a)) [
    | inl absent ↦ absurd (raise≢ok (sym (add_edge_unknown digest l a b (inl absent)) ∙ e))
    | inr (ea, ka) ↦ elim (Option-cases (get l.events b)) [
      | inl absent ↦ absurd (raise≢ok (sym (add_edge_unknown digest l a b (inr absent)) ∙ e))
      | inr (eb, kb) ↦
          let known = sym (add_edge_known digest l a b ka kb) ∙ e in
          elim (Bool-cases (strictly_after ea eb)) [
            | inl after ↦
                subst IsCausal (ap (λ p. p.0) (ok-injective (rw after at known)))
                  (with_edge-IsCausal digest l a b ka kb after h)
            | inr refused ↦
                subst IsCausal (ap (λ p. p.0) (ok-injective (rw refused at known)))
                  (record { certified = h.certified; claimed = h.claimed; cached = h.cached })
          ]
    ]
  ]

  -- A dependency claim adds one claim of a dependency kind and changes nothing else.
  pub dependency_added :
      (a b kind by at : String) (refs : List String) {l' : Ledger} {c : EdgeClaim}
      → add_dependency_claim digest l a b kind by at refs ≡ ok (l', c)
      → (l' ≡ record l { edge_claims = l.edge_claims ++ c ∷ [] })
        × (elem kind dependency_kinds ≡ true)
        × (c.kind ≡ kind)
  unfolding add_dependency_claim
  dependency_added a b kind by at refs {c = c} e = ground (
    arith,
    edge_claim-body digest
        (record { from_event = a; to_event = b; kind = kind; asserted_by = by; asserted_at = at })
        refs {c = c},
  )

  pub add_dependency_claim-IsCausal :
      (a b kind by at : String) (refs : List String) {l' : Ledger} {c : EdgeClaim}
      → IsCausal l
      → add_dependency_claim digest l a b kind by at refs ≡ ok (l', c)
      → IsCausal l'
  add_dependency_claim-IsCausal a b kind by at refs {c = c} h e =
      let (grown, is_dependency, keeps_kind) = dependency_added a b kind by at refs e in
      let other : same_key c.kind physical_admissibility ≡ false =
        rw keeps_kind (dependency-ne-physical kind is_dependency) in
      subst IsCausal (sym grown) (record {
        certified = h.certified;
        claimed = physical_edges-append l.edge_claims c ∙ rw other (append-nil _) ∙ h.claimed;
        cached = h.cached;
      })

pub precedes_fast-IsCausal :
    (l : Ledger) (a b : String) → IsCausal l → IsCausal (precedes_fast l a b).0
unfolding precedes_fast
precedes_fast-IsCausal l a b h = record {
  certified = h.certified;
  claimed = h.claimed;
  cached = h.cached;
}

-- The ledgers that a client builds by calling methods.
pub data Built (digest : EdgeBody → String) : Ledger → Type 0 where
  fresh : Built digest new_ledger
  event :
      {l l' : Ledger} (eid : String) (t : ℤ) (p : Position)
      → Built digest l
      → add_event l eid t p ≡ ok l'
      → Built digest l'
  edge :
      {l l' : Ledger} {r : EdgeRecord} (a b : String)
      → Built digest l
      → add_edge digest l a b ≡ ok (l', r)
      → Built digest l'
  dependency :
      {l l' : Ledger} {c : EdgeClaim} (a b kind by at : String) (refs : List String)
      → Built digest l
      → add_dependency_claim digest l a b kind by at refs ≡ ok (l', c)
      → Built digest l'
  query : {l : Ledger} (a b : String) → Built digest l → Built digest (precedes_fast l a b).0

-- However a ledger was built, its edges are certified by the light cone, its claims of physical
-- admissibility are exactly its edges in their order, and its index is that of its edges.
pub Built-IsCausal : {digest : EdgeBody → String} {l : Ledger} → Built digest l → IsCausal l
Built-IsCausal fresh = IsCausal-new
Built-IsCausal (event {l = l} eid t p h e) = add_event-IsCausal l eid t p (Built-IsCausal h) e
Built-IsCausal {digest} (edge {l = l} a b h e) = add_edge-IsCausal digest l a b (Built-IsCausal h) e
Built-IsCausal {digest} (dependency {l = l} a b kind by at refs h e) =
    add_dependency_claim-IsCausal digest l a b kind by at refs (Built-IsCausal h) e
Built-IsCausal (query {l = l} a b h) = precedes_fast-IsCausal l a b (Built-IsCausal h)
