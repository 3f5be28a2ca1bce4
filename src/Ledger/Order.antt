-- ===== src/Ledger/Order.antt =====
-- What the reachability queries of a ledger say about the events: its order is the light cone's.
use mathlib.Core.Option.{some-injective}
use horizon_protocol.Prelude.{
  ◌≡◌, refl, sym, ◌∙◌, String, text_key, pair_key, true, false, ◌⊎◌, inl, inr, List, [], ◌∷◌, some,
  ◌<ℤ◌, elem, get, ok, arith, eq_iff, eq_false,
}
use horizon_protocol.Geometry.{causally_admissible}
use horizon_protocol.Geometry.Cone.{admissible_trans}
use horizon_protocol.EdgeClaims.{EdgeBody}
use horizon_protocol.Reachability.Graph.{PathTo, edge, further, successors}
use horizon_protocol.Reachability.Paths.{precedes_edges_iff, precedes_fast-eq-precedes}
use horizon_protocol.Ledger.{Stamp, Ledger, strictly_after, precedes, precedes_fast, concurrent}
use horizon_protocol.Ledger.Invariant.{IsCausal, Certified}
use horizon_protocol.Ledger.Built.{Built, Built-IsCausal}

elem-successors :
    (u v : String) (edges : List (String × String))
    → elem v (successors u edges) ≡ true
    → elem (u, v) edges ≡ true
unfolding elem successors
elem-successors u v [] h = cc
elem-successors u v ((s, t) ∷ edges) h =
    ground (arith, eq_iff s u, eq_iff u s, elem-successors u v edges)

strictly_after_trans :
    (ea eb ec : Stamp)
    → strictly_after ea eb ≡ true
    → strictly_after eb ec ≡ true
    → strictly_after ea ec ≡ true
unfolding strictly_after
strictly_after_trans ea eb ec h k =
    ground (arith, admissible_trans ea.time_ns eb.time_ns ec.time_ns ea.pos_nm eb.pos_nm ec.pos_nm)

Certified-trans :
    (l : Ledger) (a b c : String)
    → Certified l.events a b
    → Certified l.events b c
    → Certified l.events a c
Certified-trans l a b c h k =
    let same : h.target ≡ k.source = some-injective _ _ (sym h.target_known ∙ k.source_known) in
    record {
      source = h.source;
      target = k.target;
      source_known = h.source_known;
      target_known = k.target_known;
      after = strictly_after_trans h.source k.source k.target (rw same at h.after) k.after;
    }

path-Certified :
    (l : Ledger) (a : String) {b : String}
    → IsCausal l
    → PathTo l.edges a b
    → Certified l.events a b
path-Certified l a h (edge {v = v} m) = h.certified a v (elem-successors a v l.edges m)
path-Certified l a h (further {u = u} {v = v} path m) =
    Certified-trans l a u v (path-Certified l a h path)
      (h.certified u v (elem-successors u v l.edges m))

not_after_itself : (e : Stamp) → strictly_after e e ≡ true → ⊥
unfolding strictly_after
not_after_itself e h = absurd (ground arith)

-- In a ledger that was built by its methods, an event that precedes another is recorded with it,
-- and the other is strictly later and lies in its closed future light cone.
pub precedes-in_cone :
    {digest : EdgeBody → String} {l : Ledger} (a b : String)
    → Built digest l
    → precedes l a b ≡ true
    → (ea : Stamp) × (eb : Stamp) × (get l.events a ≡ some ea)
      × (get l.events b ≡ some eb)
      × (ea.time_ns <ℤ eb.time_ns)
      × (causally_admissible ea.time_ns ea.pos_nm eb.time_ns eb.pos_nm ≡ true)
unfolding precedes strictly_after
precedes-in_cone {l = l} a b built h =
    let c = path-Certified l a (Built-IsCausal built) ((precedes_edges_iff l.edges a b).0 h) in
    (
      c.source,
      c.target,
      c.source_known,
      c.target_known,
      ground (arith, c.after),
      ground (arith, c.after),
    )

no_cycle :
    {digest : EdgeBody → String} {l : Ledger} (a : String) → Built digest l → ¬ PathTo l.edges a a
no_cycle {l = l} a built path =
    let c = path-Certified l a (Built-IsCausal built) path in
    let same : c.target ≡ c.source = some-injective _ _ (sym c.target_known ∙ c.source_known) in
    not_after_itself c.source (rw same at c.after)

-- The indexed query of a ledger that was built by its methods, whatever its index was before,
-- answers as the reference query does, and changes neither events nor edges.
pub precedes_fast-precedes :
    {digest : EdgeBody → String} {l : Ledger} (a b : String)
    → Built digest l
    → ((precedes_fast l a b).1 ≡ precedes l a b)
      × ((precedes_fast l a b).0.edges ≡ l.edges)
      × ((precedes_fast l a b).0.events ≡ l.events)
unfolding precedes precedes_fast
precedes_fast-precedes {l = l} a b built = (
  rw ((Built-IsCausal built).cached) (precedes_fast-eq-precedes l.edges a b (no_cycle a built)),
  refl,
  refl,
)

join :
    {edges : List (String × String)} {a b c : String}
    → PathTo edges a b
    → PathTo edges b c
    → PathTo edges a c
join p (edge m) = further p m
join p (further q m) = further (join p q) m

-- The order of a ledger that was built by its methods is a strict partial order.
pub precedes_strict :
    {digest : EdgeBody → String} {l : Ledger} (a b c : String)
    → Built digest l
    → precedes l a b ≡ true
    → precedes l b c ≡ true
    → (precedes l a c ≡ true) × (precedes l b a ≡ false) × (precedes l a a ≡ false)
unfolding precedes
precedes_strict {l = l} a b c built h k =
    let paths = precedes_edges_iff l.edges in
    (
      (paths a c).1 (join ((paths a b).0 h) ((paths b c).0 k)),
      eq_false _ (λ back. no_cycle a built (join ((paths a b).0 h) ((paths b a).0 back))),
      eq_false _ (λ own. no_cycle a built ((paths a a).0 own)),
    )

not_concurrent :
    (l : Ledger) (a b : String) {ea eb : Stamp}
    → get l.events a ≡ some ea
    → get l.events b ≡ some eb
    → (causally_admissible ea.time_ns ea.pos_nm eb.time_ns eb.pos_nm ≡ true)
      ⊎ (causally_admissible eb.time_ns eb.pos_nm ea.time_ns ea.pos_nm ≡ true)
    → concurrent l a b ≡ ok true
    → ⊥
unfolding concurrent
not_concurrent l a b ka kb cone h = ground arith

-- Two recorded events that a built ledger reports as concurrent precede one another in neither
-- direction.
pub concurrent-not-precedes :
    {digest : EdgeBody → String} {l : Ledger} (a b : String)
    → Built digest l
    → concurrent l a b ≡ ok true
    → (precedes l a b ≡ false) × (precedes l b a ≡ false)
concurrent-not-precedes {l = l} a b built h = (
  eq_false _ (λ before.
      let (ea, eb, ka, kb, _, cone) = precedes-in_cone a b built before in
      not_concurrent l a b ka kb (inl cone) h),
  eq_false _ (λ after.
      let (eb, ea, kb, ka, _, cone) = precedes-in_cone b a built after in
      not_concurrent l a b ka kb (inr cone) h),
)
