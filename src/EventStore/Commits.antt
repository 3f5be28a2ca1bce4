-- ===== src/EventStore/Commits.antt =====
-- causal-store/causalstore/store.py: the branches of `CausalStore.write`.
use horizon_protocol.Prelude.{
  ◌≡◌, ◌≢◌, refl, sym, ◌∙◌, ap, ◌↔◌, ◌⊎◌, inl, inr, String, text_key, true, false, Bool-cases, ◌||◌,
  List, [], ◌∷◌, ◌++◌, Option, none, some, same_key_self, elem, get-put, eq_iff, eq_false, All,
  arith,
}
use horizon_protocol.Causal.{Ordering}
use horizon_protocol.EventStore.{
  Event, Store, Refusal, Mode, duplicate_ignored, coordination_free, CommitResult, events_for_key,
  append, find_event, union, ids, ancestors, dominators, count, frontier, follows_all,
  proven_concurrent, place, classify, decide, admit, write,
}
use horizon_protocol.EventStore.Claims.{
  elem-union, Ancestor, NotBefore, dominators-none, follows_all-ancestors, first_refusal-none,
}
use horizon_protocol.EventStore.Free.{Decided, admit-free}

module _ {C V : Type 0} (ordering : Ordering C) where
  -- The event stands at the end of the log and of the events of its key, and no other key changes.
  abbrev pub Filed : Store C V → Event C V → Store C V → Type 0
  Filed s ev s' =
      (s'.all_events ≡ s.all_events ++ (ev ∷ []))
      × (events_for_key s' ev.key ≡ events_for_key s ev.key ++ (ev ∷ []))
      × ((key : String) → ev.key ≢ key → events_for_key s' key ≡ events_for_key s key)

  -- The event supersedes what it claims to and, unless it commits as coordination-free, the values
  -- that come before it.
  abbrev pub Supersedes : C → List (Event C V) → Mode → (claimed kept : List String) → Type 0
  Supersedes clock fs mode claimed kept =
      ((mode ≡ coordination_free) × (kept ≡ claimed))
      ⊎ ((x : String)
          → elem x kept ≡ (elem x claimed || elem x (ids (ancestors ordering clock fs))))

  -- The event is filed as it was written, but for what it supersedes.
  abbrev pub Logged : Store C V → Event C V → List (Event C V) → Mode → Store C V → Type 0
  Logged s ev fs mode s' =
      (kept : List String) × Supersedes ev.clock fs mode ev.supersedes kept
      × Filed s (record ev { supersedes = kept }) s'

  -- A refusal leaves the log and the current values as they are.
  abbrev pub Kept : Store C V → Store C V → Type 0
  Kept s s' = (s'.all_events ≡ s.all_events) × (s'.by_key ≡ s.by_key)

  abbrev Outcome :
      Type 0 → Store C V → Event C V → List (Event C V) → Store C V × CommitResult → Type 0
  Outcome Valid s ev fs r =
      ((Valid × (r.1.admitted ≡ true) × Logged s ev fs r.1.mode r.0)
        ⊎ ((¬ Valid) × (r.1.admitted ≡ false) × Kept s r.0))

  append-Filed : (s : Store C V) (ev : Event C V) → Filed s ev (append s ev)
  unfolding append events_for_key
  append-Filed s ev =
      let at = get-put s.by_key ev.key in
      let here = (eq_iff ev.key ev.key).1 refl in
      (
        refl,
        rw (at ev.key (events_for_key s ev.key ++ (ev ∷ [])), here) refl,
        λ key other.
            let away = eq_false _ (λ same. other ((eq_iff ev.key key).0 same)) in
            rw (at key (events_for_key s ev.key ++ (ev ∷ [])), away) refl,
      )

  union-Supersedes :
      (clock : C) (fs gs : List (Event C V)) (mode : Mode) (claimed : List String)
      → gs ≡ ancestors ordering clock fs
      → Supersedes clock fs mode claimed (union claimed (ids gs))
  union-Supersedes clock fs gs mode claimed e =
      inr (λ x. elem-union x claimed (ids gs) ∙ ap (λ gs. elem x claimed || elem x (ids gs)) e)

  placed :
      (s : Store C V) (ev : Event C V) (fs : List (Event C V))
      → let r = place ordering s ev fs [] in (r.1.admitted ≡ true) × Logged s ev fs r.1.mode r.0
  unfolding place events_for_key
  placed s ev fs = elim (Bool-cases (follows_all ordering ev.clock fs)) [
    | inl all ↦
        let seen = follows_all-ancestors ordering ev.clock fs all in
        rw all
          (refl, (_, union-Supersedes ev.clock fs fs _ ev.supersedes (sym seen), append-Filed s _))
    | inr not_all ↦ elim (Bool-cases (proven_concurrent ordering ev.clock fs)) [
      | inl free ↦ rw (not_all, free) (refl, (_, inl (refl, refl), append-Filed s ev))
      | inr mixed ↦
          rw (not_all, mixed)
            (refl, (_, union-Supersedes ev.clock fs _ _ ev.supersedes refl, append-Filed s _))
    ]
  ]

  place_effect :
      (s : Store C V) (ev : Event C V) (fs ds : List (Event C V))
      → Outcome (ds ≡ []) s ev fs (place ordering s ev fs ds)
  unfolding place
  place_effect s ev fs (d ∷ ds) = inr (λ e. cc, refl, (refl, refl))
  place_effect s ev fs [] = let (done, logged) = placed s ev fs in inl (refl, done, logged)

  -- What decides does so whichever way it is put.
  same_outcome :
      {P Q : Type 0} (s : Store C V) (ev : Event C V) (fs : List (Event C V))
      (r : Store C V × CommitResult)
      → P ↔ Q
      → Outcome P s ev fs r
      → Outcome Q s ev fs r
  same_outcome s ev fs r pq (inl (p, h, k)) = inl (pq.0 p, h, k)
  same_outcome s ev fs r pq (inr (p, h, k)) = inr (λ q. p (pq.1 q), h, k)

  classify_effect :
      (s : Store C V) (ev : Event C V) (fs : List (Event C V))
      → Outcome (All (NotBefore ordering ev.clock) fs) s ev fs (classify ordering s ev fs)
  unfolding classify events_for_key
  classify_effect s ev [] = inl (tt, refl, (_, inl (refl, refl), append-Filed s ev))
  classify_effect s ev (f ∷ fs) =
      same_outcome s ev (f ∷ fs) (classify ordering s ev (f ∷ fs))
        (dominators-none ordering ev.clock (f ∷ fs))
        (place_effect s ev (f ∷ fs) (dominators ordering ev.clock (f ∷ fs)))

  -- What decides on a write: its claimed predecessors are in the log and before it, and it is before
  -- no current value of its key.
  abbrev pub Valid : Store C V → Event C V → Type 0
  Valid s ev =
      All (Ancestor ordering s.all_events ev.clock) ev.supersedes
      × All (NotBefore ordering ev.clock) (frontier s ev.key)

  decide_effect :
      (s : Store C V) (ev : Event C V) (why : Option Refusal)
      → (why ≡ none) ↔ All (Ancestor ordering s.all_events ev.clock) ev.supersedes
      → Outcome (Valid s ev) s ev (frontier s ev.key) (decide ordering s ev why)
  unfolding decide frontier events_for_key
  decide_effect s ev (some why) claims =
      inr (λ (fine, _). let none_found = claims.1 fine in cc, refl, (refl, refl))
  decide_effect s ev none claims =
      same_outcome s ev (frontier s ev.key) (decide ordering s ev none)
        (λ h. (claims.0 refl, h), λ (_, h). h)
        (classify_effect (count ordering s) ev (frontier s ev.key))

  find_event-append :
      (evs : List (Event C V)) (ev : Event C V)
      → find_event evs ev.event_id ≡ none
      → find_event (evs ++ (ev ∷ [])) ev.event_id ≡ some ev
  unfolding find_event
  find_event-append [] ev new = rw (same_key_self ev.event_id) refl
  find_event-append (e ∷ evs) ev new = ground (arith, find_event-append evs ev)

  module _ (digest : String → V → String → C → String) where
    abbrev pub event_of : String → V → String → C → List String → Event C V
    event_of key value origin clock sup = record {
      event_id = digest key value origin clock;
      key = key;
      value = value;
      origin_node = origin;
      clock = clock;
      supersedes = sup;
    }

    -- A write that is not a retry is admitted if its claimed predecessors are events of the log and
    -- before it, and it is before no current value of its key. Then its event is the one entry that
    -- the log and the events of its key gain, no other key changes, and the event is as written but
    -- supersedes also the current values before it, unless it commits as coordination-free. Else the
    -- write is refused, and the log and the events of all keys stay as they are.
    pub write_effect :
        (s : Store C V) (key : String) (value : V) (origin : String) (clock : C) (sup : List String)
        → find_event s.all_events (digest key value origin clock) ≡ none
        → let r = write ordering digest s key value origin clock sup in
          let ev = event_of key value origin clock sup in
          (Valid s ev × (r.1.admitted ≡ true) × Logged s ev (frontier s key) r.1.mode r.0)
          ⊎ ((¬ Valid s ev) × (r.1.admitted ≡ false) × Kept s r.0)
    unfolding write admit
    write_effect s key value origin clock sup new = rw new (
        decide_effect s (event_of key value origin clock sup) _
          (first_refusal-none ordering s.all_events clock sup))

    -- A write that commits as coordination-free is concurrent with every current value of its
    -- key, and the ordering resolves the two in both directions.
    pub coordination_free-Decided :
        (s : Store C V) (key : String) (value : V) (origin : String) (clock : C) (sup : List String)
        → (write ordering digest s key value origin clock sup).1.mode ≡ coordination_free
        → All (Decided ordering clock) (frontier s key)
    unfolding write
    coordination_free-Decided s key value origin clock sup h = admit-free ordering s _ _ h

    write_known :
        (s : Store C V) (key : String) (value : V) (origin : String) (clock : C) (sup : List String)
        (old : Event C V)
        → find_event s.all_events (digest key value origin clock) ≡ some old
        → let r = write ordering digest s key value origin clock sup in
          (r.0 ≡ s) × (r.1.mode ≡ duplicate_ignored) × (r.1.admitted ≡ true)
    unfolding write admit
    write_known s key value origin clock sup old known = rw known (refl, refl, refl)

    -- The retry of an admitted write is answered as a duplicate and leaves the store as it is.
    pub write-retry :
        (s : Store C V) (key : String) (value : V) (origin : String) (clock : C)
        (sup again : List String)
        → find_event s.all_events (digest key value origin clock) ≡ none
        → (write ordering digest s key value origin clock sup).1.admitted ≡ true
        → let r = write ordering digest s key value origin clock sup in
          let retry = write ordering digest r.0 key value origin clock again in
          (retry.0 ≡ r.0) × (retry.1.mode ≡ duplicate_ignored) × (retry.1.admitted ≡ true)
    write-retry s key value origin clock sup again new was =
        elim (write_effect s key value origin clock sup new) [
          | inl (valid, a, (kept, how, (log, filed, others))) ↦
              let ev : Event C V = record (event_of key value origin clock sup) {
                supersedes = kept;
              } in
              write_known _ key value origin clock again ev
                (rw log (find_event-append s.all_events ev new))
          | inr (invalid, no_way, kept) ↦ absurd (ground arith)
        ]
