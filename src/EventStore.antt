-- ===== src/EventStore.antt =====
-- causal-store/causalstore/store.py: a store that commits a write locally when the write's
-- relation to the current values of its key is decided. The ordering of the clocks is a
-- parameter, and so is `digest`, SHA-256 over the canonical JSON of an event, cut to 16 digits.
-- The evidence that `ordering.witness` adds to a rejection is left out.
pub mod Commits
pub mod Claims
pub mod Free
mod Tests
use horizon_protocol.Prelude.{
  ℕ, suc, ◌+◌, ◌≡◌, String, text_key, Bool, true, false, not, ◌&&◌, ◌||◌, List, [], ◌∷◌, ◌++◌,
  Option, none, some, Dict, get, put, elem, same_key, if◌then◌else◌, map,
}
use horizon_protocol.Causal.{Ordering}

pub record Event (C V : Type 0) : Type 0 where
  pub event_id : String
  pub key : String
  pub value : V
  pub origin_node : String
  pub clock : C
  pub supersedes : List String

-- The in-memory backend and the counters of `stats`.
pub record Store (C V : Type 0) : Type 0 where
  pub by_key : Dict String (List (Event C V))
  pub all_events : List (Event C V)
  pub total : ℕ
  pub coordination_free : ℕ
  pub coordinated : ℕ

pub data Refusal : Type 0 where
  unknown_predecessor supersedes_non_ancestor : (pred : String) → Refusal
  stale_write : (dominating_event_ids : List String) → Refusal

pub data Mode : Type 0 where
  duplicate_ignored coordination_free causal_supersede conflict_retained : Mode
  rejected : Refusal → Mode

pub record CommitResult : Type 0 where
  pub event_id : String
  pub mode : Mode
  pub coordinated : Bool
  pub admitted : Bool
  pub supersedes : List String

pub data Reading (C V : Type 0) : Type 0 where
  empty : Reading C V
  resolved : Event C V → Reading C V
  conflict : List (Event C V) → Reading C V

-- `list({*xs, *ys})`: each of them once. Python leaves the order of a set open.
unfoldable pub union : List String → List String → List String
union [] [] = []
union [] (y ∷ ys) = let rest = union [] ys in if elem y rest then rest else y ∷ rest
union (x ∷ xs) ys = let rest = union xs ys in if elem x rest then rest else x ∷ rest

module _ {C V : Type 0} where
  abbrev pub empty_store : Store C V
  empty_store = record {
    by_key = [];
    all_events = [];
    total = 0;
    coordination_free = 0;
    coordinated = 0;
  }

  abbrev pub or_none : Option (List (Event C V)) → List (Event C V)
  or_none none = []
  or_none (some evs) = evs

  unfoldable pub events_for_key : Store C V → String → List (Event C V)
  events_for_key s key = or_none (get s.by_key key)

  -- `InMemoryBackend.append`
  unfoldable pub append : Store C V → Event C V → Store C V
  append s ev = record s {
    by_key = put s.by_key ev.key (events_for_key s ev.key ++ (ev ∷ []));
    all_events = s.all_events ++ (ev ∷ []);
  }

  unfoldable pub superseded : Event C V → List (Event C V) → Bool
  superseded e [] = false
  superseded e (o ∷ evs) =
      not (same_key o.event_id e.event_id) && elem e.event_id o.supersedes || superseded e evs

  unfoldable pub live : List (Event C V) → List (Event C V) → List (Event C V)
  live evs [] = []
  live evs (e ∷ rest) = if superseded e evs then live evs rest else e ∷ live evs rest

  unfoldable pub frontier : Store C V → String → List (Event C V)
  frontier s key = live (events_for_key s key) (events_for_key s key)

  unfoldable pub find_event : List (Event C V) → String → Option (Event C V)
  find_event [] eid = none
  find_event (e ∷ evs) eid = if same_key e.event_id eid then some e else find_event evs eid

  abbrev pub ids : List (Event C V) → List String
  ids evs = map (λ e. e.event_id) evs

  unfoldable pub reading : List (Event C V) → Reading C V
  reading [] = empty
  reading (e ∷ []) = resolved e
  reading (e ∷ f ∷ evs) = conflict (e ∷ f ∷ evs)

  unfoldable pub read : Store C V → String → Reading C V
  read s key = reading (frontier s key)

  module _ (ordering : Ordering C) where
    unfoldable pub pred_refusal : String → Option (Event C V) → C → Option Refusal
    pred_refusal pred none clock = some (unknown_predecessor pred)
    pred_refusal pred (some p) clock =
        if not (ordering.before p.clock clock) then some (supersedes_non_ancestor pred) else none

    unfoldable pub first_refusal : List (Event C V) → C → List String → Option Refusal
    unfolding pred_refusal
    first_refusal evs clock [] = none
    first_refusal evs clock (pred ∷ preds) =
        let rest = first_refusal evs clock preds in
        elim (pred_refusal pred (find_event evs pred) clock) [ some why ↦ some why | none ↦ rest ]

    -- `[f for f in frontier if before(ev, f)]` and `[f for f in frontier if before(f, ev)]`
    unfoldable pub dominators : C → List (Event C V) → List (Event C V)
    dominators clock [] = []
    dominators clock (f ∷ fs) =
        if ordering.before clock f.clock then f ∷ dominators clock fs else dominators clock fs

    unfoldable pub ancestors : C → List (Event C V) → List (Event C V)
    ancestors clock [] = []
    ancestors clock (f ∷ fs) =
        if ordering.before f.clock clock then f ∷ ancestors clock fs else ancestors clock fs

    unfoldable pub follows_all : C → List (Event C V) → Bool
    follows_all clock [] = true
    follows_all clock (f ∷ fs) = ordering.before f.clock clock && follows_all clock fs

    unfoldable pub proven_concurrent : C → List (Event C V) → Bool
    proven_concurrent clock [] = true
    proven_concurrent clock (f ∷ fs) =
        ordering.concurrent f.clock clock
        && ordering.resolves f.clock clock
        && ordering.resolves clock f.clock
        && proven_concurrent clock fs

    abbrev pub count : Store C V → Store C V
    count s = record s { total = s.total + 1 }

    abbrev pub free : Store C V → Event C V → Store C V
    free s ev = let s' = append s ev in record s' { coordination_free = s'.coordination_free + 1 }

    abbrev pub coordinate : Store C V → Event C V → Store C V
    coordinate s ev = let s' = append s ev in record s' { coordinated = s'.coordinated + 1 }

    abbrev pub refuse : Store C V → Event C V → Refusal → Store C V × CommitResult
    refuse s ev why = (
      s,
      record {
        event_id = ev.event_id;
        mode = rejected why;
        coordinated = false;
        admitted = false;
        supersedes = [];
      },
    )

    abbrev pub committed : Event C V → Mode → Bool → List String → CommitResult
    committed ev mode needed supersedes = record {
      event_id = ev.event_id;
      mode = mode;
      coordinated = needed;
      admitted = true;
      supersedes = supersedes;
    }

    abbrev pub with_supersedes : Event C V → List (Event C V) → Event C V
    with_supersedes ev fs = record ev { supersedes = union ev.supersedes (ids fs) }

    -- The decision on a write against the current values and those of them that it would precede.
    unfoldable pub place :
        Store C V → Event C V → List (Event C V) → List (Event C V) → Store C V × CommitResult
    place s ev fs (d ∷ ds) = refuse s ev (stale_write (ids (d ∷ ds)))
    place s ev fs [] =
        let all_seen = with_supersedes ev fs in
        let some_seen = with_supersedes ev (ancestors ev.clock fs) in
        if follows_all ev.clock fs
        then (free s all_seen, committed all_seen causal_supersede false all_seen.supersedes)
        else if proven_concurrent ev.clock fs
        then (free s ev, committed ev coordination_free false [])
        else (
          coordinate s some_seen,
          committed some_seen conflict_retained true some_seen.supersedes,
        )

    -- The decision on a write whose claims are valid, once the current values are known.
    unfoldable pub classify : Store C V → Event C V → List (Event C V) → Store C V × CommitResult
    classify s ev [] = (free s ev, committed ev coordination_free false [])
    classify s ev (f ∷ fs) = place s ev (f ∷ fs) (dominators ev.clock (f ∷ fs))

    unfoldable pub decide : Store C V → Event C V → Option Refusal → Store C V × CommitResult
    decide s ev (some why) = refuse (count s) ev why
    decide s ev none = classify (count s) ev (frontier s ev.key)

    unfoldable pub admit : Store C V → Event C V → Option (Event C V) → Store C V × CommitResult
    admit s ev (some existing) = (s, committed ev duplicate_ignored false existing.supersedes)
    admit s ev none = decide s ev (first_refusal s.all_events ev.clock ev.supersedes)

    -- `write`
    unfoldable pub write :
        (digest : String → V → String → C → String)
        → Store C V
        → String
        → V
        → String
        → C
        → List String
        → Store C V × CommitResult
    write digest s key value origin_node clock supersedes =
        let eid = digest key value origin_node clock in
        let ev : Event C V = record {
          event_id = eid;
          key = key;
          value = value;
          origin_node = origin_node;
          clock = clock;
          supersedes = supersedes;
        } in
        admit s ev (find_event s.all_events eid)
