-- ===== src/Kernel/Limits.antt =====
-- horizon/providers/causal_kernel_provider.py: pairs of clocks that are limited by the apparatus,
-- and the relation of two clocks taken in the other order.
use mathlib.Core.Path.{subst}
use horizon_protocol.Prelude.{
  ◌≡◌, sym, ◌∙◌, ◌⊎◌, inl, inr, String, true, false, Bool-cases, Bool-ext, iff_trans, iff_symm,
  ◌||◌, ℤ, pos, ◌+ℤ◌, ◌-ℤ◌, ◌≤ℤ◌, magnitude, magnitude-sub_comm, ltb_ℤ, leb_ℤ, eqb_ℤ, ◌&&◌,
  eq_false, arith, int_laws, ℕ, eqb_ℤ_iff, same_key, text_key, eq_iff,
}
use horizon_protocol.Geometry.{Position, causally_admissible, min_light_time_ns, same_position}
use horizon_protocol.Geometry.Floor.{admissible-iff-min_light_time}
use horizon_protocol.Geometry.Cone.{same_position_iff, min_light_time_comm, admissible_antisymm}
use horizon_protocol.Causal.{GeoClock}
use horizon_protocol.Causal.Laws.{Allows}
use horizon_protocol.Kernel.{
  Relation, invalid, incomparable, equivalent, before, after, logically_concurrent, spacelike,
  apparatus_limited, compare_interval, classify_geometric,
}
use horizon_protocol.Kernel.Geometric.{Shown, classify-cases, compare_interval_lem}

-- True times that two clocks allow, at which a statement about the events holds.
abbrev pub Possible : GeoClock → GeoClock → (ℤ → ℤ → Type 0) → Type 0
Possible a b P = (t1 : ℤ) × (t2 : ℤ) × Allows a t1 × Allows b t2 × P t1 t2

module _ (a b : GeoClock) (frame_a frame_b : String) where
  -- The true times that bring the events nearest together, and those farthest apart.
  abbrev late1 : ℤ
  late1 = a.time_ns +ℤ a.u_ns

  abbrev late2 : ℤ
  late2 = b.time_ns -ℤ b.u_ns

  abbrev soon1 : ℤ
  soon1 = a.time_ns -ℤ a.u_ns

  abbrev soon2 : ℤ
  soon2 = b.time_ns +ℤ b.u_ns

  -- Two clocks are reported as limited by the apparatus only if they allow true times at which
  -- the first event does not reach the second, true times at which the second does not reach the
  -- first, and true times at which one of them reaches the other.
  pub apparatus_limited_undecided :
      (classify_geometric a b frame_a frame_b).relation ≡ apparatus_limited
      → Possible a b (λ t1 t2. causally_admissible t1 a.pos_nm t2 b.pos_nm ≡ false)
        × Possible a b (λ t1 t2. causally_admissible t2 b.pos_nm t1 a.pos_nm ≡ false)
        × Possible a b (λ t1 t2.
          (causally_admissible t1 a.pos_nm t2 b.pos_nm ≡ true)
          ⊎ (causally_admissible t2 b.pos_nm t1 a.pos_nm ≡ true))
  apparatus_limited_undecided h = elim (classify-cases a b frame_a frame_b) [
    | inl (e, holds) ↦ absurd (ground arith)
    | inr (inl (e, holds)) ↦ absurd (ground arith)
    | inr (inr (inl (e, holds))) ↦ absurd (ground arith)
    | inr (inr (inr (ua, ub, fr, ne, e))) ↦
        let shows = subst (Shown a b frame_a frame_b) (sym e ∙ h) (compare_interval_lem _ _ _) in
        let same = min_light_time_comm a.pos_nm b.pos_nm in
        let cone = λ (t1 t2 : ℤ). admissible-iff-min_light_time t1 a.pos_nm t2 b.pos_nm in
        let back = λ (t1 t2 : ℤ). admissible-iff-min_light_time t2 b.pos_nm t1 a.pos_nm in
        let late : Allows a late1 × Allows b late2 =
          ((omega int_laws, omega int_laws), (omega int_laws, omega int_laws)) in
        let soon : Allows a soon1 × Allows b soon2 =
          ((omega int_laws, omega int_laws), (omega int_laws, omega int_laws)) in
        (
          (
            late1,
            late2,
            late.0,
            late.1,
            eq_false _ (λ c. omega (int_laws, shows.0, (cone late1 late2).0 c)),
          ),
          (
            soon1,
            soon2,
            soon.0,
            soon.1,
            eq_false _ (λ c. omega (int_laws, shows.1, same, (back soon1 soon2).0 c)),
          ),
          elim shows.2 [
            | inl there ↦
                (soon1, soon2, soon.0, soon.1, inl ((cone soon1 soon2).1 (omega (int_laws, there))))
            | inr home ↦ (
              late1,
              late2,
              late.0,
              late.1,
              inr ((back late1 late2).1 (omega (int_laws, home, same))),
            )
          ],
        )
  ]

-- The relation with the two clocks exchanged.
abbrev pub converse : Relation → Relation
converse invalid = invalid
converse incomparable = incomparable
converse equivalent = equivalent
converse before = after
converse after = before
converse logically_concurrent = logically_concurrent
converse spacelike = spacelike
converse apparatus_limited = apparatus_limited

-- The three tests of one order are those of the other, two of them exchanged.
compare_interval-converse :
    (required : ℕ) (t1 t2 u1 u2 : ℤ)
    → (leb_ℤ (pos required) ((t2 -ℤ t1) -ℤ (u1 +ℤ u2))
        && leb_ℤ (pos required) (pos 0 -ℤ (t2 -ℤ t1) -ℤ (u1 +ℤ u2)))
      ≡ false
    → (compare_interval required (t1 -ℤ t2) (u2 +ℤ u1)).relation
      ≡ converse (compare_interval required (t2 -ℤ t1) (u1 +ℤ u2)).relation
unfolding compare_interval
compare_interval-converse required t1 t2 u1 u2 not_both =
    let apart : (pos (magnitude (t1 -ℤ t2)) +ℤ (u2 +ℤ u1))
        ≡ (pos (magnitude (t2 -ℤ t1)) +ℤ (u1 +ℤ u2)) =
      omega (int_laws, magnitude-sub_comm t1 t2) in
    let first : (t1 -ℤ t2) -ℤ (u2 +ℤ u1) ≡ pos 0 -ℤ (t2 -ℤ t1) -ℤ (u1 +ℤ u2) = omega int_laws in
    let second : pos 0 -ℤ (t1 -ℤ t2) -ℤ (u2 +ℤ u1) ≡ (t2 -ℤ t1) -ℤ (u1 +ℤ u2) = omega int_laws in
    rw (apart, first, second) (ground arith)

-- Two clocks that light could link both ways show the same event.
linked_both_ways :
    (a b : GeoClock)
    → pos 0 ≤ℤ a.u_ns
    → pos 0 ≤ℤ b.u_ns
    → (leb_ℤ
          (pos (min_light_time_ns a.pos_nm b.pos_nm))
          ((b.time_ns -ℤ a.time_ns) -ℤ (a.u_ns +ℤ b.u_ns))
        && leb_ℤ
            (pos (min_light_time_ns a.pos_nm b.pos_nm))
            (pos 0 -ℤ (b.time_ns -ℤ a.time_ns) -ℤ (a.u_ns +ℤ b.u_ns)))
      ≡ true
    → (a.time_ns ≡ b.time_ns) × (a.pos_nm ≡ b.pos_nm)
linked_both_ways a b ua ub both =
    let there : pos (min_light_time_ns a.pos_nm b.pos_nm)
        ≤ℤ ((b.time_ns -ℤ a.time_ns) -ℤ (a.u_ns +ℤ b.u_ns)) =
      ground arith in
    let home : pos (min_light_time_ns a.pos_nm b.pos_nm)
        ≤ℤ (pos 0 -ℤ (b.time_ns -ℤ a.time_ns) -ℤ (a.u_ns +ℤ b.u_ns)) =
      ground arith in
    let same = min_light_time_comm a.pos_nm b.pos_nm in
    admissible_antisymm a.time_ns b.time_ns a.pos_nm b.pos_nm
      ((admissible-iff-min_light_time a.time_ns a.pos_nm b.time_ns b.pos_nm).1 (omega int_laws))
      ((admissible-iff-min_light_time b.time_ns b.pos_nm a.time_ns a.pos_nm).1 (omega int_laws))

same_position_comm : (p q : Position) → same_position q p ≡ same_position p q
unfolding same_position
same_position_comm p q = ground arith

-- The relation of two clocks in the other order is the converse one: `before` and `after` are
-- exchanged, and every other relation stays.
pub classify_geometric-converse :
    (a b : GeoClock) (frame_a frame_b : String)
    → (classify_geometric b a frame_b frame_a).relation
      ≡ converse (classify_geometric a b frame_a frame_b).relation
unfolding classify_geometric
classify_geometric-converse a b frame_a frame_b =
    let frames : same_key frame_b frame_a ≡ same_key frame_a frame_b =
      Bool-ext _ _ (iff_trans (eq_iff _ _) (iff_trans (sym, sym) (iff_symm (eq_iff _ _)))) in
    let times : eqb_ℤ b.time_ns a.time_ns ≡ eqb_ℤ a.time_ns b.time_ns = ground arith in
    let light = min_light_time_comm a.pos_nm b.pos_nm in
    elim (Bool-cases (ltb_ℤ a.u_ns (pos 0) || ltb_ℤ b.u_ns (pos 0))) [
      | inl h ↦ ground arith
      | inr fine ↦ elim (Bool-cases (same_key frame_a frame_b)) [
        | inr h ↦ ground arith
        | inl h ↦ elim (Bool-cases (eqb_ℤ a.time_ns b.time_ns && same_position a.pos_nm b.pos_nm)) [
          | inl e ↦ ground (arith, same_position_comm a.pos_nm b.pos_nm)
          | inr e ↦
              let ab : classify_geometric a b frame_a frame_b
                  ≡ compare_interval (min_light_time_ns a.pos_nm b.pos_nm) (b.time_ns -ℤ a.time_ns)
                      (a.u_ns +ℤ b.u_ns) =
                ground arith in
              let ba : classify_geometric b a frame_b frame_a
                  ≡ compare_interval (min_light_time_ns b.pos_nm a.pos_nm) (a.time_ns -ℤ b.time_ns)
                      (b.u_ns +ℤ a.u_ns) =
                ground (arith, same_position_comm a.pos_nm b.pos_nm) in
              rw (ab, ba, light)
                (compare_interval-converse (min_light_time_ns a.pos_nm b.pos_nm) a.time_ns b.time_ns
                  a.u_ns b.u_ns
                  (eq_false _ (λ both.
                    let same = linked_both_ways a b (ground arith) (ground arith) both in
                    ground (
                      arith,
                      (eqb_ℤ_iff a.time_ns b.time_ns).1 same.0,
                      (same_position_iff a.pos_nm b.pos_nm).1 same.1,
                    ))))
        ]
      ]
    ]
