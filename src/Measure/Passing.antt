-- ===== src/Measure/Passing.antt =====
-- Which measured certificates pass.
use horizon_protocol.Prelude.{
  ℕ, ◌≡◌, refl, sym, ◌∙◌, ap, String, text_key, ◌⊎◌, inl, inr, List, [], ◌∷◌, ◌++◌, Option, none,
  some, pos, ◌+ℤ◌, ◌≤ℤ◌, Dict, get, put, Result, ok, raise, key_error, Exception, All,
}
use horizon_protocol.Geometry.{min_light_time_ns}
use horizon_protocol.Stations.{
  Event, Body, Receipt, Registry, Station, Gate, Binding, refused, bound, bind_receipt, Authentic,
  bind_receipt_iff, budget,
}
use horizon_protocol.Measure.Floors.{admitted_iff}
use horizon_protocol.Measure.{
  c_eff_num, c_eff_den, min_transit_time_ns_eff, Classified, admitted, apparatus_limited, rejected,
  Budget, NodeParams, or_default, Stage, stopped, through, receipt_budget, after_budget,
  measure_all,
}

snoc_filled : (xs : List String) (x : String) → xs ++ x ∷ [] ≡ [] → ⊥
snoc_filled [] x e = cc
snoc_filled (y ∷ ys) x e = cc

module _ (hmac : List ℕ → Body → String) (registry : Registry)
    (node_params : Dict String NodeParams) (event : Event) where
  -- A registered station with declared parameters signed the receipt for this event, and the
  -- time that it measured, with its uncertainty credited, is at or above both floors.
  pub record Passed (r : Receipt) : Type 0 where
    pub station : Station
    pub params : NodeParams
    pub authentic : Authentic hmac registry event.payload_hash r station
    pub declared : get node_params r.body.station_id ≡ some params
    pub vacuum :
        event.claimed_emit_time_ns
          +ℤ pos (min_light_time_ns event.claimed_emit_pos_nm station.pos_nm)
        ≤ℤ r.body.recv_time_ns +ℤ params.u_ns
    pub typical_floor : ℕ
    pub transit :
        min_transit_time_ns_eff event.claimed_emit_pos_nm station.pos_nm
          (or_default params.num c_eff_num)
          (or_default params.den c_eff_den)
        ≡ ok typical_floor
    pub typical :
        event.claimed_emit_time_ns +ℤ pos typical_floor ≤ℤ r.body.recv_time_ns +ℤ params.u_ns

  abbrev pub run : List Receipt → Dict String Budget → List String → Result Stage
  run = measure_all hmac registry node_params event

  abbrev witnessed : Receipt → Dict String Budget → Budget → Dict String Budget
  witnessed r per_node w = put per_node r.body.station_id w

  abbrev budget_of : Receipt → Station → NodeParams → Result Budget
  budget_of r st params = receipt_budget hmac registry node_params event st.pos_nm r params

  -- The loop after a receipt that reaches the budget gate.
  by_budget :
      (r : Receipt) (rs : List Receipt) (per_node : Dict String Budget) (nodes : List String)
      (st : Station) (params : NodeParams) {w : Budget} {v : Classified}
      → bind_receipt hmac registry event.payload_hash r ≡ bound st
      → get node_params r.body.station_id ≡ some params
      → budget_of r st params ≡ ok w
      → w.verdict ≡ v
      → run (r ∷ rs) per_node nodes
        ≡ after_budget v r.body.station_id (witnessed r per_node w) nodes (run rs)
  unfolding measure_all
  by_budget r rs per_node nodes st params {w} e d ran c =
      rw (e, measure_all, d, ran)
        (ap (λ v. after_budget v r.body.station_id (witnessed r per_node w) nodes (run rs)) c)

  -- The loop after a receipt that passes.
  step-Passed :
      (r : Receipt) (rs : List Receipt) (per_node : Dict String Budget) (nodes : List String)
      → Passed r
      → (per' : Dict String Budget) × (run (r ∷ rs) per_node nodes ≡ run rs per' nodes)
  step-Passed r rs per_node nodes p =
      let (w, ran, v) =
        (admitted_iff _ _ _ _ _ _ _).1 (p.vacuum, (p.typical_floor, p.transit, p.typical)) in
      (
        witnessed r per_node w,
        by_budget r rs per_node nodes p.station p.params
            ((bind_receipt_iff hmac registry event.payload_hash r p.station).1 p.authentic)
            p.declared ran v,
      )

  -- The loop after any receipt: it stops, raises, goes on with a limited node, or the receipt
  -- passes and it goes on.
  abbrev Onward : Receipt → List Receipt → Dict String Budget → List String → Result Stage → Type 0
  Onward r rs per_node nodes m =
      ((gate : Gate) × (sid : String) × (per' : Dict String Budget) × (m
          ≡ ok (stopped gate sid per')))
      ⊎ (((why : Exception) × (m ≡ raise why))
          ⊎ (((per' : Dict String Budget) × (m ≡ run rs per' (nodes ++ r.body.station_id ∷ [])))
              ⊎ (Passed r × ((per' : Dict String Budget) × (m ≡ run rs per' nodes)))))

  step_any :
      (r : Receipt) (rs : List Receipt) (per_node : Dict String Budget) (nodes : List String)
      → Onward r rs per_node nodes (run (r ∷ rs) per_node nodes)
  unfolding measure_all
  step_any r rs per_node nodes = by_binding (bind_receipt hmac registry event.payload_hash r) refl
    where
      by_verdict :
          (st : Station) (params : NodeParams) (w : Budget) (v : Classified)
          → bind_receipt hmac registry event.payload_hash r ≡ bound st
          → get node_params r.body.station_id ≡ some params
          → budget_of r st params ≡ ok w
          → w.verdict ≡ v
          → Onward r rs per_node nodes (run (r ∷ rs) per_node nodes)
      by_verdict st params w rejected e d ran c = inl (
        budget,
        r.body.station_id,
        witnessed r per_node w,
        by_budget r rs per_node nodes st params e d ran c,
      )
      by_verdict st params w apparatus_limited e d ran c =
          inr
            (inr (inl (witnessed r per_node w, by_budget r rs per_node nodes st params e d ran c)))
      by_verdict st params w admitted e d ran c =
          let (vacuum, (typical_floor, transit, typical)) =
            (admitted_iff _ _ _ _ _ _ _).0 (w, ran, c) in
          inr (
            inr (
              inr (
                record {
                  station = st;
                  params = params;
                  authentic = (bind_receipt_iff hmac registry event.payload_hash r st).0 e;
                  declared = d;
                  vacuum = vacuum;
                  typical_floor = typical_floor;
                  transit = transit;
                  typical = typical;
                },
                (witnessed r per_node w, by_budget r rs per_node nodes st params e d ran c),
              )))

      by_witness :
          (st : Station) (params : NodeParams) (m : Result Budget)
          → bind_receipt hmac registry event.payload_hash r ≡ bound st
          → get node_params r.body.station_id ≡ some params
          → budget_of r st params ≡ m
          → Onward r rs per_node nodes (run (r ∷ rs) per_node nodes)
      by_witness st params (raise why) e d ran = inr (inl (why, rw (e, measure_all, d, ran) refl))
      by_witness st params (ok w) e d ran = by_verdict st params w _ e d ran refl

      by_params :
          (st : Station) (o : Option NodeParams)
          → bind_receipt hmac registry event.payload_hash r ≡ bound st
          → get node_params r.body.station_id ≡ o
          → Onward r rs per_node nodes (run (r ∷ rs) per_node nodes)
      by_params st none e d = inr (inl (key_error, rw (e, measure_all, d) refl))
      by_params st (some params) e d = by_witness st params _ e d refl

      by_binding :
          (b : Binding)
          → bind_receipt hmac registry event.payload_hash r ≡ b
          → Onward r rs per_node nodes (run (r ∷ rs) per_node nodes)
      by_binding (refused gate) e = inl (gate, r.body.station_id, per_node, rw (e, measure_all))
      by_binding (bound st) e = by_params st _ e refl

  pub All-Passed :
      (rs : List Receipt) (per_node : Dict String Budget) (nodes : List String)
      → All Passed rs
      → (per' : Dict String Budget) × (run rs per_node nodes ≡ ok (through per' nodes))
  unfolding measure_all
  All-Passed [] per_node nodes h = (per_node, refl)
  All-Passed (r ∷ rs) per_node nodes (p, ps) =
      let (next, e) = step-Passed r rs per_node nodes p in
      let (final, f) = All-Passed rs next nodes ps in (final, e ∙ f)

  pub Passed-All :
      (rs : List Receipt) (per_node : Dict String Budget) (nodes : List String)
      {per' : Dict String Budget}
      → run rs per_node nodes ≡ ok (through per' [])
      → (nodes ≡ []) × All Passed rs
  unfolding measure_all
  Passed-All [] per_node nodes h = (cc, tt)
  Passed-All (r ∷ rs) per_node nodes h = elim (step_any r rs per_node nodes) [
    | inl (gate, sid, per', e) ↦ cc
    | inr (inl (why, e)) ↦ cc
    | inr (inr (inl (per', e))) ↦
        absurd
          (snoc_filled nodes _ (Passed-All rs per' (nodes ++ r.body.station_id ∷ []) (sym e ∙ h)).0)
    | inr (inr (inr (p, (per', e)))) ↦
        let (none_limited, ps) = Passed-All rs per' nodes (sym e ∙ h) in (none_limited, (p, ps))
  ]
