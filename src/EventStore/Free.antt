-- ===== src/EventStore/Free.antt =====
-- causal-store/causalstore/store.py: writes that commit as coordination-free.
use horizon_protocol.Prelude.{◌≡◌, text_key, true, List, [], ◌∷◌, Option, none, some, All, arith}
use horizon_protocol.Causal.{Ordering}
use horizon_protocol.EventStore.{
  Event, Store, Refusal, coordination_free, frontier, proven_concurrent, place, classify, decide,
  admit,
}

module _ {C V : Type 0} (ordering : Ordering C) where
  -- The two events are concurrent, and both directions are decided.
  abbrev pub Decided : C → Event C V → Type 0
  Decided clock f =
      (ordering.concurrent f.clock clock ≡ true)
      × (ordering.resolves f.clock clock ≡ true)
      × (ordering.resolves clock f.clock ≡ true)

  proven_concurrent-All :
      (clock : C) (fs : List (Event C V))
      → proven_concurrent ordering clock fs ≡ true
      → All (Decided clock) fs
  unfolding proven_concurrent
  proven_concurrent-All clock [] h = tt
  proven_concurrent-All clock (f ∷ fs) h =
      ((ground arith, ground arith, ground arith), proven_concurrent-All clock fs (ground arith))

  place-free :
      (s : Store C V) (ev : Event C V) (fs ds : List (Event C V))
      → (place ordering s ev fs ds).1.mode ≡ coordination_free
      → proven_concurrent ordering ev.clock fs ≡ true
  unfolding place
  place-free s ev fs (d ∷ ds) h = absurd (ground arith)
  place-free s ev fs [] h = ground arith

  classify-free :
      (s : Store C V) (ev : Event C V) (fs : List (Event C V))
      → (classify ordering s ev fs).1.mode ≡ coordination_free
      → All (Decided ev.clock) fs
  unfolding classify
  classify-free s ev [] h = tt
  classify-free s ev (f ∷ fs) h =
      proven_concurrent-All ev.clock (f ∷ fs) (place-free s ev (f ∷ fs) _ h)

  decide-free :
      (s : Store C V) (ev : Event C V) (why : Option Refusal)
      → (decide ordering s ev why).1.mode ≡ coordination_free
      → All (Decided ev.clock) (frontier s ev.key)
  unfolding decide frontier
  decide-free s ev (some why) h = absurd (ground arith)
  decide-free s ev none h = classify-free _ ev _ h

  pub admit-free :
      (s : Store C V) (ev : Event C V) (known : Option (Event C V))
      → (admit ordering s ev known).1.mode ≡ coordination_free
      → All (Decided ev.clock) (frontier s ev.key)
  unfolding admit
  admit-free s ev (some old) h = absurd (ground arith)
  admit-free s ev none h = decide-free s ev _ h
