-- ===== src/Causal/Laws.antt =====
-- The orderings by clock: what uncertain clocks decide, and the order laws.
use horizon_protocol.Prelude.{
  ◌≡◌, ◌↔◌, sym, ◌∙◌, ◌⊎◌, inl, inr, true, false, Bool-cases, ℤ, pos, ◌+ℤ◌, ◌-ℤ◌, ltb_ℤ, leb_ℤ,
  ◌≤ℤ◌, ◌<ℤ◌, ltb→lt, leb→le, eq_false, arith, int_laws,
}
use horizon_protocol.Geometry.{causally_admissible, min_light_time_ns}
use horizon_protocol.Geometry.Floor.{admissible-iff-min_light_time}
use horizon_protocol.Geometry.Cone.{min_light_time-triangle}
use horizon_protocol.Causal.{GeoClock, geo_resolves, geo_before}

-- A true time that the clock and its uncertainty allow.
abbrev pub Allows : GeoClock → ℤ → Type 0
Allows a t = (a.time_ns -ℤ a.u_ns ≤ℤ t) × (t ≤ℤ a.time_ns +ℤ a.u_ns)

-- The verdict stands at the clocks' worst: for it, or against it.
abbrev pub Clears : GeoClock → GeoClock → Type 0
Clears a b =
    a.time_ns +ℤ (a.u_ns +ℤ b.u_ns) +ℤ pos (min_light_time_ns a.pos_nm b.pos_nm) ≤ℤ b.time_ns

abbrev pub Misses : GeoClock → GeoClock → Type 0
Misses a b =
    b.time_ns +ℤ (a.u_ns +ℤ b.u_ns) <ℤ a.time_ns +ℤ pos (min_light_time_ns a.pos_nm b.pos_nm)

pub geo_resolves-cases : (a b : GeoClock) → geo_resolves a b ≡ true → Clears a b ⊎ Misses a b
unfolding geo_resolves
geo_resolves-cases a b h =
    elim (Bool-cases (
      leb_ℤ (pos (min_light_time_ns a.pos_nm b.pos_nm))
        ((b.time_ns -ℤ a.time_ns) -ℤ (a.u_ns +ℤ b.u_ns)))) [
          | inl clear ↦ inl (omega (int_laws, leb→le _ _ clear))
          | inr not_clear ↦
              let missed : ltb_ℤ ((b.time_ns -ℤ a.time_ns) +ℤ (a.u_ns +ℤ b.u_ns))
                    (pos (min_light_time_ns a.pos_nm b.pos_nm))
                  ≡ true =
                ground arith in
              inr (omega (int_laws, ltb→lt _ _ missed))
        ]

pub geo_resolves_of : (a b : GeoClock) → Clears a b → geo_resolves a b ≡ true
unfolding geo_resolves
geo_resolves_of a b h =
    let clear : pos (min_light_time_ns a.pos_nm b.pos_nm)
        ≤ℤ ((b.time_ns -ℤ a.time_ns) -ℤ (a.u_ns +ℤ b.u_ns)) =
      omega int_laws in
    ground arith

-- A resolved pair has the same light-cone verdict at all true times that the clocks allow.
pub geo_resolves_sound :
    (a b : GeoClock) (t1 t2 : ℤ)
    → geo_resolves a b ≡ true
    → Allows a t1
    → Allows b t2
    → causally_admissible t1 a.pos_nm t2 b.pos_nm
      ≡ causally_admissible a.time_ns a.pos_nm b.time_ns b.pos_nm
geo_resolves_sound a b t1 t2 h (l1, u1) (l2, u2) =
    let truth = admissible-iff-min_light_time t1 a.pos_nm t2 b.pos_nm in
    let measured = admissible-iff-min_light_time a.time_ns a.pos_nm b.time_ns b.pos_nm in
    elim (geo_resolves-cases a b h) [
      | inl clear ↦ truth.1 (omega int_laws) ∙ sym (measured.1 (omega int_laws))
      | inr miss ↦
          eq_false _ (λ c. omega (int_laws, truth.0 c))
          ∙ sym (eq_false _ (λ c. omega (int_laws, measured.0 c)))
    ]

-- `before` as inequalities.
pub geo_before_iff :
    (a b : GeoClock)
    → pos 0 ≤ℤ a.u_ns
    → pos 0 ≤ℤ b.u_ns
    → (geo_before a b ≡ true) ↔ ((a.time_ns <ℤ b.time_ns) × Clears a b)
unfolding geo_before
geo_before_iff a b ua ub =
    let measured = admissible-iff-min_light_time a.time_ns a.pos_nm b.time_ns b.pos_nm in
    (
      λ h.
          let inside : causally_admissible a.time_ns a.pos_nm b.time_ns b.pos_nm ≡ true =
            ground arith in
          let sure : geo_resolves a b ≡ true = ground arith in
          let later : a.time_ns <ℤ b.time_ns = ground arith in
          elim (geo_resolves-cases a b sure) [
            | inl clear ↦ (later, clear)
            | inr miss ↦ absurd (omega (int_laws, measured.0 inside))
          ],
      λ (later, clear).
          let sure = geo_resolves_of a b clear in
          let inside = measured.1 (omega int_laws) in ground arith,
    )

-- With uncertainties that are not negative, `before` on uncertain clocks is a strict partial
-- order.
pub geo_before-strict :
    (a b c : GeoClock)
    → pos 0 ≤ℤ a.u_ns
    → pos 0 ≤ℤ b.u_ns
    → pos 0 ≤ℤ c.u_ns
    → geo_before a b ≡ true
    → geo_before b c ≡ true
    → (geo_before a c ≡ true) × (geo_before b a ≡ false) × (geo_before a a ≡ false)
geo_before-strict a b c ua ub uc h k =
    let ab = (geo_before_iff a b ua ub).0 h in
    let bc = (geo_before_iff b c ub uc).0 k in
    (
      (geo_before_iff a c ua uc).1 (
        omega (arith, ab.0, bc.0),
        omega (int_laws, ab.1, bc.1, min_light_time-triangle a.pos_nm b.pos_nm c.pos_nm),
      ),
      eq_false _ (λ back. omega (arith, ab.0, ((geo_before_iff b a ub ua).0 back).0)),
      eq_false _ (λ own. omega (arith, ((geo_before_iff a a ua ua).0 own).0)),
    )

-- A definite `before` holds at all true times that the clocks allow.
pub geo_before_sound :
    (a b : GeoClock) (t1 t2 : ℤ)
    → pos 0 ≤ℤ a.u_ns
    → pos 0 ≤ℤ b.u_ns
    → geo_before a b ≡ true
    → Allows a t1
    → Allows b t2
    → causally_admissible t1 a.pos_nm t2 b.pos_nm ≡ true
geo_before_sound a b t1 t2 ua ub h (l1, u1) (l2, u2) =
    let clear = ((geo_before_iff a b ua ub).0 h).1 in
    (admissible-iff-min_light_time t1 a.pos_nm t2 b.pos_nm).1 (omega int_laws)
