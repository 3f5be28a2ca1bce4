-- ===== src/Stations.antt =====
-- horizon/stations.py and the shape of events in horizon/events.py: stations at surveyed
-- positions sign what they receive. HMAC-SHA256 over the canonical JSON of a receipt's body is a
-- parameter, `hmac`; keys are bytes.
use horizon_protocol.Prelude.{
  ℕ, ◌≡◌, refl, ◌↔◌, String, text_key, Bool, not, List, none, some, ℤ, Dict, get, same_key,
  if◌then◌else◌, arith, eq_iff,
}
use horizon_protocol.Geometry.{Position, same_position}
use horizon_protocol.Geometry.Cone.{same_position_iff}

pub record Event : Type 0 where
  pub payload_hash : String
  pub claimed_emit_time_ns : ℤ
  pub claimed_emit_pos_nm : Position

pub record Body : Type 0 where
  pub station_id : String
  pub station_pos_nm : Position
  pub payload_hash : String
  pub recv_time_ns : ℤ

pub record Receipt : Type 0 where
  pub body : Body
  pub mac : String

pub record Station : Type 0 where
  pub station_id : String
  pub pos_nm : Position
  pub key : List ℕ
  pub proc_delay_ns : ℤ

abbrev pub Registry : Type 0
Registry = Dict String Station

-- The gates that the verifiers name in their witnesses.
pub data Gate : Type 0 where
  nonempty_receipts distinct_sources station_coverage known_station receipt_mac : Gate
  payload_binding surveyed_position light_cone budget live_capture_self_check : Gate

unfoldable pub receipt_body : Station → String → ℤ → Body
receipt_body st payload_hash recv_time_ns = record {
  station_id = st.station_id;
  station_pos_nm = st.pos_nm;
  payload_hash = payload_hash;
  recv_time_ns = recv_time_ns;
}

-- What the binding gates find: the gate that refuses, or the registered station.
pub data Binding : Type 0 where
  refused : Gate → Binding
  bound : Station → Binding

module _ (hmac : List ℕ → Body → String) where
  unfoldable pub sign_receipt : Station → String → ℤ → Receipt
  sign_receipt st payload_hash recv_time_ns =
      let body = receipt_body st payload_hash recv_time_ns in
      record { body = body; mac = hmac st.key body }

  unfoldable pub verify_receipt : Station → Receipt → Bool
  verify_receipt st r = same_key (hmac st.key r.body) r.mac

  -- The binding gates, in the order that horizon/certificate.py, horizon/measure.py and
  -- horizon/deepspace_protocol.py share: known station, authentic signature, event, position.
  unfoldable pub bind_receipt : Registry → String → Receipt → Binding
  bind_receipt registry payload_hash r = elim (get registry r.body.station_id) [
    | none ↦ refused known_station
    | some st ↦
        if not (verify_receipt st r)
        then refused receipt_mac
        else if not (same_key r.body.payload_hash payload_hash)
        then refused payload_binding
        else if not (same_position r.body.station_pos_nm st.pos_nm)
        then refused surveyed_position
        else bound st
  ]

  -- The receipt comes from this registered station, with its key, for this event.
  pub record Authentic (registry : Registry) (payload_hash : String) (r : Receipt) (st : Station)
      : Type 0 where
    pub registered : get registry r.body.station_id ≡ some st
    pub signed : hmac st.key r.body ≡ r.mac
    pub for_event : r.body.payload_hash ≡ payload_hash
    pub surveyed : r.body.station_pos_nm ≡ st.pos_nm

  -- A receipt passes the binding gates, giving a station, exactly when it is authentic for that
  -- station: the station is registered under its id, the receipt is signed with the station's key,
  -- and it is for the event of the certificate and from the surveyed position.
  pub bind_receipt_iff :
      (registry : Registry) (payload_hash : String) (r : Receipt) (st : Station)
      → (bind_receipt registry payload_hash r ≡ bound st) ↔ Authentic registry payload_hash r st
  unfolding bind_receipt verify_receipt
  bind_receipt_iff registry payload_hash r st = (
    λ h. record {
      registered = ground arith;
      signed = ground (arith, eq_iff (hmac st.key r.body) r.mac);
      for_event = ground (arith, eq_iff r.body.payload_hash payload_hash);
      surveyed = ground (arith, same_position_iff r.body.station_pos_nm st.pos_nm);
    },
    λ a.
        rw (a.registered, bind_receipt)
          (ground (
            arith,
            a.signed,
            eq_iff (hmac st.key r.body) r.mac,
            eq_iff r.body.payload_hash payload_hash,
            same_position_iff r.body.station_pos_nm st.pos_nm,
          )),
  )

  -- A receipt that a registered station signs for an event passes the binding gates.
  pub sign_receipt-Authentic :
      (registry : Registry) (payload_hash : String) (st : Station) (t : ℤ)
      → get registry st.station_id ≡ some st
      → Authentic registry payload_hash (sign_receipt st payload_hash t) st
  unfolding sign_receipt receipt_body
  sign_receipt-Authentic registry payload_hash st t h = record {
    registered = h;
    signed = refl;
    for_event = refl;
    surveyed = refl;
  }
