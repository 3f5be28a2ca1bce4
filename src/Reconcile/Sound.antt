-- ===== src/Reconcile/Sound.antt =====
-- horizon/reconcile.py: what a reconciliation shows of the two events.
use mathlib.Core.Path.{subst}
use horizon_protocol.Prelude.{
  ◌>>=◌, none, some, ◌≡◌, ◌∙◌, ap, sym, refl, ◌⊎◌, inl, inr, Bool-cases, Bool, true, false, ok,
  ok-injective, bound_value, arith,
}
use horizon_protocol.Geometry.{Position, causally_admissible}
use horizon_protocol.VectorClock.{happens_before}
use horizon_protocol.TwoFloor.{
  TwoFloorVerdict, TwoFloorClass, admitted, rejected, apparatus_limited,
}
use horizon_protocol.TwoFloor.Sound.{Within, admitted_sound, rejected_sound}
use horizon_protocol.Reconcile.{
  Event, Order, before, after, concurrent, undecided, a_to_b, b_to_a, Reconciliation,
  no_lineage_edge, locator_arg, physical_verdict, report, judge, reconcile,
}

-- The place in which the node of an event may be.
abbrev pub Located : Event → Position → Type 0
Located e q = Within e.t_coord_ns (locator_arg e) q

abbrev pub Lineage : Event → Event → Type 0
Lineage a b = happens_before a.vclock b.vclock ≡ true

abbrev pub Reaches : Event → Position → Event → Position → Type 0
Reaches a p b q = causally_admissible a.t_coord_ns p b.t_coord_ns q ≡ true

-- What a verdict asserts of two events at given places.
abbrev pub Asserts : Order → Event → Position → Event → Position → Type 0
Asserts before a p b q = Lineage a b × Reaches a p b q
Asserts after a p b q = Lineage b a × Reaches b q a p
Asserts undecided a p b q = Lineage a b ⊎ Lineage b a
Asserts concurrent a p b q =
    (¬ (Lineage a b) × ¬ (Lineage b a))
    ⊎ (Lineage a b × ¬ (Reaches a p b q))
    ⊎ (Lineage b a × ¬ (Reaches b q a p))

class-cases : (c : TwoFloorClass) → (c ≡ admitted) ⊎ (c ≡ rejected) ⊎ (c ≡ apparatus_limited)
class-cases admitted = inl refl
class-cases rejected = inr (inl refl)
class-cases apparatus_limited = inr (inr refl)

true≢false : {x : Bool} → x ≡ true → x ≡ false → ⊥
true≢false h k = ground arith

module _ (a b : Event) (p q : Position) where
  forth-Asserts :
      (check : TwoFloorVerdict)
      → physical_verdict a b ≡ ok check
      → Lineage a b
      → Located a p
      → Located b q
      → Asserts (judge a b before a_to_b check).verdict a p b q
  unfolding physical_verdict judge
  forth-Asserts check ran edge at_p at_q = elim (class-cases check.verdict) [
    | inl e ↦ rw e (edge, admitted_sound _ _ _ _ check ran e p q at_p at_q)
    | inr (inl e) ↦
        rw e
          (inr (inl (edge, λ c. true≢false c (rejected_sound _ _ _ _ check ran e p q at_p at_q))))
    | inr (inr e) ↦ rw e (inl edge)
  ]

  back-Asserts :
      (check : TwoFloorVerdict)
      → physical_verdict b a ≡ ok check
      → Lineage b a
      → Located a p
      → Located b q
      → Asserts (judge a b after b_to_a check).verdict a p b q
  unfolding physical_verdict judge
  back-Asserts check ran edge at_p at_q = elim (class-cases check.verdict) [
    | inl e ↦ rw e (edge, admitted_sound _ _ _ _ check ran e q p at_q at_p)
    | inr (inl e) ↦
        rw e
          (inr (inr (edge, λ c. true≢false c (rejected_sound _ _ _ _ check ran e q p at_q at_p))))
    | inr (inr e) ↦ rw e (inr edge)
  ]

  forth :
      Lineage a b
      → reconcile a b ≡ (physical_verdict a b >>= λ check. ok (judge a b before a_to_b check))
  unfolding reconcile
  forth edge = rw edge refl

  back :
      happens_before a.vclock b.vclock ≡ false
      → Lineage b a
      → reconcile a b ≡ (physical_verdict b a >>= λ check. ok (judge a b after b_to_a check))
  unfolding reconcile
  back no_edge edge = rw (no_edge, edge) refl

  neither :
      happens_before a.vclock b.vclock ≡ false
      → happens_before b.vclock a.vclock ≡ false
      → (r : Reconciliation) × (reconcile a b ≡ ok r) × (r.verdict ≡ concurrent)
  unfolding reconcile
  neither there home =
      (report a b concurrent none (some no_lineage_edge), rw (there, home) refl, refl)

  -- Wherever in their balls the two nodes really are: an event is reported as before another only
  -- with a vector-clock edge from it and in the light cone, and likewise as after it; as concurrent
  -- only if the lineage relates neither to the other or claims an edge that the light cone
  -- forbids; and as undecided only on a claimed edge.
  pub reconcile_sound :
      (r : Reconciliation)
      → reconcile a b ≡ ok r
      → Located a p
      → Located b q
      → Asserts r.verdict a p b q
  unfolding reconcile
  reconcile_sound r ran at_p at_q = elim (Bool-cases (happens_before a.vclock b.vclock)) [
    | inl edge ↦
        let (check, checked, result) =
          bound_value (physical_verdict a b) (sym (forth edge) ∙ ran) in
        subst (λ v. Asserts v a p b q) (sym (ap (λ r. r.verdict) (ok-injective result)))
          (forth-Asserts check (sym checked) edge at_p at_q)
    | inr there ↦ elim (Bool-cases (happens_before b.vclock a.vclock)) [
      | inl edge ↦
          let (check, checked, result) =
            bound_value (physical_verdict b a) (sym (back there edge) ∙ ran) in
          subst (λ v. Asserts v a p b q) (sym (ap (λ r. r.verdict) (ok-injective result)))
            (back-Asserts check (sym checked) edge at_p at_q)
      | inr home ↦
          let (found, is, verdict) = neither there home in
          subst (λ v. Asserts v a p b q)
            (sym verdict ∙ ap (λ r. r.verdict) (ok-injective (sym is ∙ ran)))
            (inl (λ e. true≢false e there, λ e. true≢false e home))
    ]
  ]
