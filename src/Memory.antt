-- ===== src/Memory.antt =====
-- mnemesis/memory.py: a key/value memory whose writes keep their provenance. The ordering of the
-- clocks is a parameter, and so is `digest`, SHA-256 over the canonical JSON of a write, cut to
-- 16 digits. The evidence that `ordering.witness` adds to a rejection is left out.
pub mod Causality
mod Tests
use horizon_protocol.Prelude.{
  ◌≡◌, String, text_key, Bool, true, false, not, ◌&&◌, ◌||◌, List, [], ◌∷◌, ◌++◌, Option, none,
  some, Dict, get, put, elem, same_key, sorted_set, Result, ok, raise, required, ◌>>=◌, key_error,
  if◌then◌else◌,
}
use horizon_protocol.Causal.{Ordering}

pub record Write (C V : Type 0) : Type 0 where
  pub wid : String
  pub key : String
  pub value : V
  pub observer : String
  pub clock : C
  pub preds : List String

pub data Refusal : Type 0 where
  unknown_predecessor supersedes_non_ancestor : String → Refusal

pub record Rejection : Type 0 where
  pub wid : String
  pub reason : Refusal

pub record Memory (C V : Type 0) : Type 0 where
  pub writes : Dict String (Write C V)
  pub by_key : Dict String (List String)
  pub rejections : List Rejection

pub data Admission (C V : Type 0) : Type 0 where
  write_admitted : Write C V → Admission C V
  write_rejected : Rejection → Admission C V
  not_a_frontier_candidate : (key chosen_wid : String) → Admission C V

pub data Reading (C V : Type 0) : Type 0 where
  empty : Reading C V
  resolved : Write C V → Reading C V
  conflict : List (Write C V) → Reading C V

abbrev pub or_empty : Option (List String) → List String
or_empty none = []
or_empty (some ids) = ids

-- `self.by_key.setdefault(key, []).append(wid)`
unfoldable pub file_under : Dict String (List String) → String → String → Dict String (List String)
file_under by_key key wid = put by_key key (or_empty (get by_key key) ++ (wid ∷ []))

abbrev pub or_later : Option Refusal → Option Refusal → Option Refusal
or_later (some why) rest = some why
or_later none rest = rest

module _ {C V : Type 0} where
  abbrev pub empty_memory : Memory C V
  empty_memory = record { writes = []; by_key = []; rejections = [] }

  -- `[self.writes[w] for w in wids]`
  unfoldable pub lookup_all : Dict String (Write C V) → List String → Result (List (Write C V))
  lookup_all writes [] = ok []
  lookup_all writes (wid ∷ wids) = do
    w ← required (get writes wid)
    ws ← lookup_all writes wids
    ok (w ∷ ws)

  unfoldable pub superseded : Write C V → List (Write C V) → Bool
  superseded w [] = false
  superseded w (other ∷ ws) =
      not (same_key other.wid w.wid) && elem w.wid other.preds || superseded w ws

  unfoldable pub live : List (Write C V) → List (Write C V) → List (Write C V)
  live ws [] = []
  live ws (w ∷ rest) = if superseded w ws then live ws rest else w ∷ live ws rest

  unfoldable pub frontier : Memory C V → String → Result (List (Write C V))
  frontier m key = do ws ← lookup_all m.writes (or_empty (get m.by_key key)); ok (live ws ws)

  unfoldable pub reading : List (Write C V) → Reading C V
  reading [] = empty
  reading (w ∷ []) = resolved w
  reading (w ∷ v ∷ ws) = conflict (w ∷ v ∷ ws)

  -- `get`
  unfoldable pub read : Memory C V → String → Result (Reading C V)
  read m key = do ws ← frontier m key; ok (reading ws)

  unfoldable pub wids : List (Write C V) → List String
  wids [] = []
  wids (w ∷ ws) = w.wid ∷ wids ws

  module _ (digest : String → V → String → C → List String → String) where
    -- `Write(...)`
    unfoldable pub make_write : String → V → String → C → List String → Write C V
    make_write key value observer clock preds = record {
      wid = digest key value observer clock (sorted_set preds);
      key = key;
      value = value;
      observer = observer;
      clock = clock;
      preds = preds;
    }

  module _ (ordering : Ordering C) where
    unfoldable pub pred_refusal : String → Option (Write C V) → C → Option Refusal
    pred_refusal pred none clock = some (unknown_predecessor pred)
    pred_refusal pred (some p) clock =
        if not (ordering.before p.clock clock) then some (supersedes_non_ancestor pred) else none

    unfoldable pub first_refusal : Dict String (Write C V) → C → List String → Option Refusal
    unfolding pred_refusal
    first_refusal writes clock [] = none
    first_refusal writes clock (pred ∷ preds) =
        let rest = first_refusal writes clock preds in
        or_later (pred_refusal pred (get writes pred) clock) rest

    unfoldable pub commit : Memory C V → Write C V → Option Refusal → Memory C V × Admission C V
    commit m w (some why) =
        let rec : Rejection = record { wid = w.wid; reason = why } in
        (record m { rejections = m.rejections ++ (rec ∷ []) }, write_rejected rec)
    commit m w none = (
      record m { writes = put m.writes w.wid w; by_key = file_under m.by_key w.key w.wid },
      write_admitted w,
    )

    unfoldable pub admit : Memory C V → Write C V → Option (Write C V) → Memory C V × Admission C V
    admit m w (some existing) = (m, write_admitted existing)
    admit m w none = commit m w (first_refusal m.writes w.clock w.preds)

    module _ (digest : String → V → String → C → List String → String) where
      -- `put`
      unfoldable pub write :
          Memory C V → String → V → String → C → List String → Memory C V × Admission C V
      write m key value observer clock supersedes =
          let w = make_write digest key value observer clock supersedes in
          admit m w (get m.writes w.wid)

      unfoldable pub resolve :
          Memory C V → String → String → String → C → Result (Memory C V × Admission C V)
      resolve m key chosen_wid observer clock = do
        ws ← frontier m key
        if elem chosen_wid (wids ws)
            then (required (get m.writes chosen_wid)
                >>= (λ chosen. ok (write m key chosen.value observer clock (wids ws))))
            else ok (m, not_a_frontier_candidate key chosen_wid)
