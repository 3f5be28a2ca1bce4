-- ===== src/Memory/Causality.antt =====
-- mnemesis/memory.py: what `put` does to the writes that are stored.
use mathlib.Core.Option.{some-injective}
use horizon_protocol.Prelude.{
  ◌≡◌, ◌⊎◌, refl, sym, ◌∙◌, inl, inr, String, text_key, true, Bool-cases, List, [], ◌∷◌, Option,
  none, some, Dict, get, put, get-put, All, same_key, arith,
}
use horizon_protocol.Causal.{Ordering}
use horizon_protocol.Memory.{
  Write, Memory, Refusal, or_later, make_write, first_refusal, pred_refusal, commit, admit, write,
  empty_memory,
}

or_later-none : (o p : Option Refusal) → or_later o p ≡ none → (o ≡ none) × (p ≡ none)
or_later-none none p h = (refl, h)
or_later-none (some why) p h = absurd (ground arith)

module _ {C V : Type 0} (ordering : Ordering C) where
  -- A predecessor is stored, and the ordering has it before the clock.
  abbrev pub Seen : Dict String (Write C V) → C → String → Type 0
  Seen writes clock pred =
      (p : Write C V) × (get writes pred ≡ some p) × (ordering.before p.clock clock ≡ true)

  -- Every write stands under its own id, and its predecessors are stored and before it.
  abbrev pub IsCausal : Memory C V → Type 0
  IsCausal m =
      (wid : String) (w : Write C V)
      → get m.writes wid ≡ some w
      → (w.wid ≡ wid) × All (Seen m.writes w.clock) w.preds

  pred-Seen :
      (writes : Dict String (Write C V)) (clock : C) (pred : String) (found : Option (Write C V))
      → get writes pred ≡ found
      → pred_refusal ordering pred found clock ≡ none
      → Seen writes clock pred
  unfolding pred_refusal
  pred-Seen writes clock pred none e h = absurd (ground arith)
  pred-Seen writes clock pred (some p) e h = (p, e, ground arith)

  first_refusal-none :
      (writes : Dict String (Write C V)) (clock : C) (preds : List String)
      → first_refusal ordering writes clock preds ≡ none
      → All (Seen writes clock) preds
  unfolding first_refusal
  first_refusal-none writes clock [] h = tt
  first_refusal-none writes clock (pred ∷ preds) h =
      let both = or_later-none (pred_refusal ordering pred (get writes pred) clock) _ h in
      (pred-Seen writes clock pred _ refl both.0, first_refusal-none writes clock preds both.1)

  -- A stored write keeps its place in any growth of the dictionary.
  Keeps : Dict String (Write C V) → Dict String (Write C V) → Type 0
  Keeps d e = (wid : String) (w : Write C V) → get d wid ≡ some w → get e wid ≡ some w

  Keeps-put :
      (d : Dict String (Write C V)) (wid : String) (w : Write C V)
      → get d wid ≡ none
      → Keeps d (put d wid w)
  unfolding Keeps
  Keeps-put d wid w new other v h = elim (Bool-cases (same_key wid other)) [
    | inl same ↦ absurd (
        let e : get d other ≡ none = rw (← (text_key.same_iff wid other).0 same) new in
        ground arith)
    | inr apart ↦ get-put d wid other w ∙ rw apart h
  ]

  put-cases :
      (d : Dict String (Write C V)) (wid : String) (w : Write C V) (other : String) (v : Write C V)
      → get (put d wid w) other ≡ some v
      → ((wid ≡ other) × (v ≡ w)) ⊎ (get d other ≡ some v)
  put-cases d wid w other v h = elim (Bool-cases (same_key wid other)) [
    | inl same ↦ inl (
      (text_key.same_iff wid other).0 same,
      some-injective _ _ (sym h ∙ get-put d wid other w ∙ rw same refl),
    )
    | inr apart ↦ inr (sym (get-put d wid other w ∙ rw apart refl) ∙ h)
  ]

  All-Seen-Keeps :
      (d e : Dict String (Write C V)) (clock : C) (preds : List String)
      → Keeps d e
      → All (Seen d clock) preds
      → All (Seen e clock) preds
  unfolding Keeps
  All-Seen-Keeps d e clock [] k h = tt
  All-Seen-Keeps d e clock (pred ∷ preds) k ((p, stored, before), rest) =
      ((p, k pred p stored, before), All-Seen-Keeps d e clock preds k rest)

  -- The two things that every step does.
  abbrev Step : Memory C V → Memory C V → Type 0
  Step m m' = Keeps m.writes m'.writes × (IsCausal m → IsCausal m')

  commit-Step :
      (m : Memory C V) (w : Write C V) (why : Option Refusal)
      → get m.writes w.wid ≡ none
      → first_refusal ordering m.writes w.clock w.preds ≡ why
      → Step m (commit ordering m w why).0
  unfolding commit Keeps
  commit-Step m w (some why) new e = (λ wid v h. h, λ c. c)
  commit-Step m w none new e =
      let keeps = Keeps-put m.writes w.wid w new in
      (
        keeps,
        λ causal wid v h. elim (put-cases m.writes w.wid w wid v h) [
          | inl (own, is) ↦ rw is (
            own,
            All-Seen-Keeps _ _ w.clock w.preds keeps
                (first_refusal-none m.writes w.clock w.preds e),
          )
          | inr old ↦
              let (named, seen) = causal wid v old in
              (named, All-Seen-Keeps _ _ v.clock v.preds keeps seen)
        ],
      )

  admit-Step :
      (m : Memory C V) (w : Write C V) (found : Option (Write C V))
      → get m.writes w.wid ≡ found
      → Step m (admit ordering m w found).0
  unfolding admit Keeps
  admit-Step m w (some old) e = (λ wid v h. h, λ c. c)
  admit-Step m w none e = commit-Step m w _ e refl

  module _ (digest : String → V → String → C → List String → String) where
    -- No write is ever destroyed or changed.
    pub write-append_only :
        (m : Memory C V) (key : String) (value : V) (observer : String) (clock : C)
        (supersedes : List String) (wid : String) (w : Write C V)
        → get m.writes wid ≡ some w
        → get (write ordering digest m key value observer clock supersedes).0.writes wid ≡ some w
    unfolding write Keeps
    write-append_only m key value observer clock supersedes wid w h =
        (admit-Step m (make_write digest key value observer clock supersedes) _ refl).0 wid w h

    -- Every write in the memory stands under its own id, and the writes that it supersedes are
    -- stored and before it: a write keeps this.
    pub write-IsCausal :
        (m : Memory C V) (key : String) (value : V) (observer : String) (clock : C)
        (supersedes : List String)
        → IsCausal m
        → IsCausal (write ordering digest m key value observer clock supersedes).0
    unfolding write
    write-IsCausal m key value observer clock supersedes causal =
        (admit-Step m (make_write digest key value observer clock supersedes) _ refl).1 causal

  pub empty_memory-IsCausal : IsCausal empty_memory
  unfolding get
  empty_memory-IsCausal wid w h = absurd (ground arith)
