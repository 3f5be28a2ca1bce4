-- ===== src/Causal/Hybrid.antt =====
-- causal-store/causalstore/ordering.py: the hybrid ordering, which asks the light cone where it
-- resolves the pair and the vector clocks elsewhere.
use horizon_protocol.Prelude.{
  ◌≡◌, ◌↔◌, ◌⊎◌, inl, inr, true, false, Bool-cases, pos, ◌+ℤ◌, ◌-ℤ◌, ◌≤ℤ◌, ◌<ℤ◌, ap, pos_part,
  neg_part, eq_false, arith, int_laws,
}
use horizon_protocol.Geometry.{min_light_time_ns}
use horizon_protocol.Geometry.Floor.{admissible-iff-min_light_time}
use horizon_protocol.Geometry.Cone.{admissible_antisymm, admissible_refl, min_light_time_comm}
use horizon_protocol.Causal.{
  GeoClock, HybridClock, geo_resolves, geo_before, log_before, hybrid_before,
}
use horizon_protocol.Causal.Laws.{geo_before_iff, geo_resolves_of, geo_resolves-cases}

-- At one place, the second clock ahead of the first by just their uncertainties.
abbrev pub Boundary : GeoClock → GeoClock → Type 0
Boundary a b =
    (a.pos_nm ≡ b.pos_nm)
    × (a.time_ns +ℤ (a.u_ns +ℤ b.u_ns) ≡ b.time_ns)
    × (pos 0 <ℤ a.u_ns +ℤ b.u_ns)

-- Light takes no time just where the positions are equal.
zero_light_time :
    (a b : GeoClock) → (min_light_time_ns a.pos_nm b.pos_nm ≡ 0) ↔ (a.pos_nm ≡ b.pos_nm)
zero_light_time a b =
    let there = admissible-iff-min_light_time a.time_ns a.pos_nm a.time_ns b.pos_nm in
    let back = admissible-iff-min_light_time a.time_ns b.pos_nm a.time_ns a.pos_nm in
    let same = min_light_time_comm a.pos_nm b.pos_nm in
    (
      λ h.
          (admissible_antisymm a.time_ns a.time_ns a.pos_nm b.pos_nm (there.1 (omega int_laws))
            (back.1 (omega int_laws))).1,
      λ e.
          let own = admissible-iff-min_light_time a.time_ns b.pos_nm a.time_ns b.pos_nm in
          rw e (omega (int_laws, own.0 (admissible_refl a.time_ns b.pos_nm))),
    )

-- The first is before the second by their geometry, which leaves the other direction open.
one_sided_iff :
    (a b : GeoClock)
    → pos 0 ≤ℤ a.u_ns
    → pos 0 ≤ℤ b.u_ns
    → ((geo_before a b ≡ true) × (geo_resolves b a ≡ false)) ↔ Boundary a b
unfolding geo_resolves
one_sided_iff a b ua ub =
    let before = geo_before_iff a b ua ub in
    let light = zero_light_time a b in
    let same = min_light_time_comm a.pos_nm b.pos_nm in
    (
      λ (h, undecided).
          let (later, clear) = before.0 h in
          let near : pos (min_light_time_ns b.pos_nm a.pos_nm)
              ≤ℤ ((a.time_ns -ℤ b.time_ns) +ℤ (b.u_ns +ℤ a.u_ns)) =
            ground arith in
          let none : min_light_time_ns a.pos_nm b.pos_nm ≡ 0 = omega int_laws in
          (light.0 none, omega int_laws, omega int_laws),
      λ (at, ahead, some).
          let none = light.1 at in
          let up = ap pos_part ahead in
          let down = ap neg_part ahead in
          (
            before.1 (omega int_laws, omega int_laws),
            eq_false _ (λ sure. elim (geo_resolves-cases b a sure) [
              | inl clear ↦ omega int_laws
              | inr miss ↦ omega int_laws
            ]),
          ),
    )

-- `log_before` is asymmetric.
log_before_asymm : (a b : HybridClock) → log_before a.vc b.vc ≡ true → log_before b.vc a.vc ≡ false
unfolding log_before
log_before_asymm a b h = ground arith

-- Two events are each before the other in the hybrid ordering exactly when they are at one place,
-- one clock is ahead of the other by just their uncertainties, which are not both 0, and the
-- vector clocks say the opposite. The uncertainties are not negative.
pub hybrid_before_both_iff :
    (a b : HybridClock)
    → pos 0 ≤ℤ a.geo.u_ns
    → pos 0 ≤ℤ b.geo.u_ns
    → ((hybrid_before a b ≡ true) × (hybrid_before b a ≡ true)) ↔ (
        (Boundary a.geo b.geo × (log_before b.vc a.vc ≡ true))
        ⊎ (Boundary b.geo a.geo × (log_before a.vc b.vc ≡ true)))
unfolding hybrid_before
hybrid_before_both_iff a b ua ub =
    let ab = one_sided_iff a.geo b.geo ua ub in
    let ba = one_sided_iff b.geo a.geo ub ua in
    let first = geo_before_iff a.geo b.geo ua ub in
    let second = geo_before_iff b.geo a.geo ub ua in
    (
      λ (h, k). elim (Bool-cases (geo_resolves a.geo b.geo)) [
        | inl there ↦ elim (Bool-cases (geo_resolves b.geo a.geo)) [
          | inl home ↦
              absurd (omega (arith, (first.0 (ground arith)).0, (second.0 (ground arith)).0))
          | inr home ↦ inl (ab.0 (ground arith, home), ground arith)
        ]
        | inr there ↦ elim (Bool-cases (geo_resolves b.geo a.geo)) [
          | inl home ↦ inr (ba.0 (ground arith, there), ground arith)
          | inr home ↦ let no = log_before_asymm a b (ground arith) in absurd (ground arith)
        ]
      ],
      λ cases. elim cases [
        | inl (at, log) ↦
            let sure = geo_resolves_of a.geo b.geo (first.0 (ab.1 at).0).1 in
            (rw sure (ab.1 at).0, rw (ab.1 at).1 log)
        | inr (at, log) ↦
            let sure = geo_resolves_of b.geo a.geo (second.0 (ba.1 at).0).1 in
            (rw (ba.1 at).1 log, rw sure (ba.1 at).0)
      ],
    )
