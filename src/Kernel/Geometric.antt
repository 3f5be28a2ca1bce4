-- ===== src/Kernel/Geometric.antt =====
-- horizon/providers/causal_kernel_provider.py: what `classify_geometric` decides.
use horizon_protocol.Prelude.{
  ℕ, ◌≡◌, refl, ◌⊎◌, inl, inr, String, true, false, Bool-cases, ℤ, pos, ◌+ℤ◌, ◌-ℤ◌, ◌≤ℤ◌, ◌<ℤ◌,
  magnitude, magnitude-parts, parts_disjoint, ltb_ℤ, leb_ℤ, eqb_ℤ, eqb_ℤ_iff, same_key, text_key,
  ◌&&◌, eq_iff, eq_false, ltb→lt, le_of_ltb, leb→le, gt_of_leb, arith, int_laws,
}
use horizon_protocol.Geometry.{causally_admissible, min_light_time_ns, same_position}
use horizon_protocol.Geometry.Floor.{admissible-iff-min_light_time}
use horizon_protocol.Geometry.Cone.{same_position_iff, min_light_time_comm}
use horizon_protocol.Causal.{GeoClock}
use horizon_protocol.Causal.Laws.{Allows}
use horizon_protocol.Kernel.{
  Relation, invalid, incomparable, equivalent, before, after, logically_concurrent, spacelike,
  apparatus_limited, compare_interval, classify_geometric,
}

-- What the elapsed time and its uncertainty show of a light time.
abbrev pub Shows : Relation → ℕ → ℤ → ℤ → Type 0
Shows spacelike required dt u = (dt +ℤ u <ℤ pos required) × (u <ℤ pos required +ℤ dt)
Shows before required dt u = pos required +ℤ u ≤ℤ dt
Shows after required dt u = pos required +ℤ u +ℤ dt ≤ℤ pos 0
Shows apparatus_limited required dt u =
    (dt <ℤ pos required +ℤ u)
    × (pos 0 <ℤ pos required +ℤ u +ℤ dt)
    × ((pos required ≤ℤ dt +ℤ u) ⊎ (pos required +ℤ dt ≤ℤ u))
Shows invalid required dt u = ⊥
Shows incomparable required dt u = ⊥
Shows equivalent required dt u = ⊥
Shows logically_concurrent required dt u = ⊥

pub compare_interval_lem :
    (required : ℕ) (dt u : ℤ) → Shows (compare_interval required dt u).relation required dt u
unfolding compare_interval
compare_interval_lem required dt u =
    let whole = magnitude-parts dt in
    elim (Bool-cases (ltb_ℤ (pos (magnitude dt) +ℤ u) (pos required))) [
      | inl apart ↦ rw apart (
        omega (int_laws, whole, parts_disjoint dt, ltb→lt _ _ apart),
        omega (int_laws, whole, parts_disjoint dt, ltb→lt _ _ apart),
      )
      | inr near ↦
          let reach = le_of_ltb _ _ near in
          elim (Bool-cases (leb_ℤ (pos required) (dt -ℤ u))) [
            | inl first ↦ rw (near, first) (omega (int_laws, leb→le _ _ first))
            | inr not_first ↦ elim (Bool-cases (leb_ℤ (pos required) (pos 0 -ℤ dt -ℤ u))) [
              | inl second ↦ rw (near, not_first, second) (omega (int_laws, leb→le _ _ second))
              | inr not_second ↦
                  rw (near, not_first, not_second)
                    (
                      omega (int_laws, gt_of_leb _ _ not_first),
                      omega (int_laws, gt_of_leb _ _ not_second),
                      elim (parts_disjoint dt) [
                        | inl back ↦ inr (omega (int_laws, whole, reach))
                        | inr ahead ↦ inl (omega (int_laws, whole, reach))
                      ],
                    )
            ]
          ]
    ]

-- What a relation of two clocks asserts of the events at given true times. Of two clocks that
-- cannot be told apart it asserts nothing.
abbrev pub Holds :
    Relation → GeoClock → GeoClock → (frame_a frame_b : String) → (t1 t2 : ℤ) → Type 0
Holds before a b frame_a frame_b t1 t2 = causally_admissible t1 a.pos_nm t2 b.pos_nm ≡ true
Holds after a b frame_a frame_b t1 t2 = causally_admissible t2 b.pos_nm t1 a.pos_nm ≡ true
Holds spacelike a b frame_a frame_b t1 t2 =
    (causally_admissible t1 a.pos_nm t2 b.pos_nm ≡ false)
    × (causally_admissible t2 b.pos_nm t1 a.pos_nm ≡ false)
Holds equivalent a b frame_a frame_b t1 t2 = (a.time_ns ≡ b.time_ns) × (a.pos_nm ≡ b.pos_nm)
Holds invalid a b frame_a frame_b t1 t2 = (a.u_ns <ℤ pos 0) ⊎ (b.u_ns <ℤ pos 0)
Holds incomparable a b frame_a frame_b t1 t2 = ¬ (frame_a ≡ frame_b)
Holds apparatus_limited a b frame_a frame_b t1 t2 = Unit
Holds logically_concurrent a b frame_a frame_b t1 t2 = ⊥

module _ (a b : GeoClock) (frame_a frame_b : String) where
  abbrev pub Shown : Relation → Type 0
  Shown r =
      Shows r (min_light_time_ns a.pos_nm b.pos_nm) (b.time_ns -ℤ a.time_ns) (a.u_ns +ℤ b.u_ns)

  pub Shown-Holds :
      (r : Relation) (t1 t2 : ℤ)
      → Shown r
      → Allows a t1
      → Allows b t2
      → Holds r a b frame_a frame_b t1 t2
  Shown-Holds before t1 t2 shows (l1, u1) (l2, u2) =
      (admissible-iff-min_light_time t1 a.pos_nm t2 b.pos_nm).1 (omega (int_laws, shows))
  Shown-Holds after t1 t2 shows (l1, u1) (l2, u2) =
      (admissible-iff-min_light_time t2 b.pos_nm t1 a.pos_nm).1
        (omega (int_laws, shows, min_light_time_comm a.pos_nm b.pos_nm))
  Shown-Holds spacelike t1 t2 shows (l1, u1) (l2, u2) =
      let there = admissible-iff-min_light_time t1 a.pos_nm t2 b.pos_nm in
      let back = admissible-iff-min_light_time t2 b.pos_nm t1 a.pos_nm in
      (
        eq_false _ (λ c. omega (int_laws, shows.0, there.0 c)),
        eq_false _
            (λ c. omega (int_laws, shows.1, back.0 c, min_light_time_comm a.pos_nm b.pos_nm)),
      )
  Shown-Holds apparatus_limited t1 t2 shows in1 in2 = tt
  Shown-Holds incomparable t1 t2 shows in1 in2 = absurd shows
  Shown-Holds invalid t1 t2 shows in1 in2 = absurd shows
  Shown-Holds equivalent t1 t2 shows in1 in2 = absurd shows
  Shown-Holds logically_concurrent t1 t2 shows in1 in2 = absurd shows

  -- The gates before the comparison of intervals, and that comparison.
  abbrev pub Interval : Type 0
  Interval =
      (pos 0 ≤ℤ a.u_ns)
      × (pos 0 ≤ℤ b.u_ns)
      × (frame_a ≡ frame_b)
      × ((eqb_ℤ a.time_ns b.time_ns && same_position a.pos_nm b.pos_nm) ≡ false)
      × ((classify_geometric a b frame_a frame_b).relation
          ≡ (compare_interval (min_light_time_ns a.pos_nm b.pos_nm) (b.time_ns -ℤ a.time_ns)
              (a.u_ns +ℤ b.u_ns)).relation)

  abbrev pub Gate : Relation → Type 0
  Gate r =
      ((classify_geometric a b frame_a frame_b).relation ≡ r)
      × ((t1 t2 : ℤ) → Holds r a b frame_a frame_b t1 t2)

  pub classify-cases : Gate invalid ⊎ Gate incomparable ⊎ Gate equivalent ⊎ Interval
  unfolding classify_geometric
  classify-cases = elim (Bool-cases (ltb_ℤ a.u_ns (pos 0))) [
    | inl h ↦ inl (rw h refl, λ t1 t2. inl (ltb→lt _ _ h))
    | inr ua ↦ elim (Bool-cases (ltb_ℤ b.u_ns (pos 0))) [
      | inl h ↦ inl (rw (ua, h) refl, λ t1 t2. inr (ltb→lt _ _ h))
      | inr ub ↦ elim (Bool-cases (same_key frame_a frame_b)) [
        | inr h ↦
            inr (inl (rw (ua, ub, h) refl, λ t1 t2 e. ground (arith, (eq_iff frame_a frame_b).1 e)))
        | inl fr ↦
            elim (Bool-cases (eqb_ℤ a.time_ns b.time_ns && same_position a.pos_nm b.pos_nm)) [
              | inl h ↦ inr (
                  inr (
                    inl (
                      rw (ua, ub, fr, h) refl,
                      λ t1 t2. (
                        (eqb_ℤ_iff a.time_ns b.time_ns).0 (ground arith),
                        (same_position_iff a.pos_nm b.pos_nm).0 (ground arith),
                      ),
                    )))
              | inr h ↦ inr (
                  inr (
                    inr (
                      le_of_ltb _ _ ua,
                      le_of_ltb _ _ ub,
                      (eq_iff frame_a frame_b).0 fr,
                      h,
                      rw (ua, ub, fr, h) refl,
                    )))
            ]
      ]
    ]
  ]

  -- Whatever relation is reported holds of the two events at all true times that the clocks allow:
  -- `before` and `after` that the one lies in the light cone of the other, `spacelike` that neither
  -- does, `equivalent` that the clocks show the same event, `incomparable` that the frames differ,
  -- and `invalid` that an uncertainty is negative.
  pub classify_geometric_sound :
      (t1 t2 : ℤ)
      → Allows a t1
      → Allows b t2
      → Holds (classify_geometric a b frame_a frame_b).relation a b frame_a frame_b t1 t2
  classify_geometric_sound t1 t2 in1 in2 = elim classify-cases [
    | inl (e, holds) ↦ rw e (holds t1 t2)
    | inr (inl (e, holds)) ↦ rw e (holds t1 t2)
    | inr (inr (inl (e, holds))) ↦ rw e (holds t1 t2)
    | inr (inr (inr (ua, ub, fr, ne, e))) ↦
        rw e (Shown-Holds _ t1 t2 (compare_interval_lem _ _ _) in1 in2)
  ]
