-- ===== src/Payments/Expiry.antt =====
-- `expireStaleAppointmentReservations` of services/agendaService.js: what the routes let expire before they
-- read the agenda.
pub mod Stale
pub mod Recovery
use masterfadebackend.Prelude.{
  ℕ, ◌+◌, ◌*◌, List, [], ◌∷◌, ◌++◌, map, Option, none, some, Bool, true, false, ◌&&◌, ◌||◌, not,
  leb, ◌==◌, any, if◌then◌else◌,
}
use masterfadebackend.Payments.{
  confirmada, expirada, other_cita, expirado, HoldState, Intent, Hold, Cita, Db, is_payable_cita,
  is_activo,
}
use masterfadebackend.Payments.Intents.{is_active_intent}
use masterfadebackend.Payments.Reconcile.{is_confirmada}

abbrev pub is_stale : ℕ → Hold → Bool
is_stale now h = is_activo h.estado && leb h.expires_at now

unfoldable pub expire_hold : ℕ → Hold → Hold
expire_hold now h = if is_stale now h then record h { estado = HoldState.expirado } else h

-- The state of an appointment one of whose holds expires.
unfoldable pub expire_cita : ℕ → Cita → Cita
unfolding expire_hold
expire_cita now c = record c {
  estado = if any (is_stale now) c.holds && is_payable_cita c.estado then expirada else c.estado;
  holds = map (expire_hold now) c.holds;
}

-- Five minutes after its start, a confirmed appointment becomes a `no_show`.
abbrev pub grace : ℕ
grace = 5 * 60000

unfoldable pub miss_cita : ℕ → Cita → Cita
miss_cita now c =
    if is_confirmada c.estado && leb (c.inicio_at + grace) now
    then record c { estado = other_cita }
    else c

-- Whether the hold is one of those that expire.
abbrev pub holds_stale : ℕ → Option ℕ → List Cita → Bool
holds_stale now none cs = false
holds_stale now (some id) cs = any (λ c. any (λ h. h.id_hold == id && is_stale now h) c.holds) cs

abbrev pub cita_stale : ℕ → ℕ → List Cita → Bool
cita_stale now id cs = any (λ c. c.id_cita == id && any (is_stale now) c.holds) cs

unfoldable pub lapse_intent : ℕ → List Cita → Intent → Intent
lapse_intent now cs i =
    if is_active_intent i.estado
      && (leb i.expires_at now || holds_stale now i.id_hold cs || cita_stale now i.id_cita cs)
    then record i { estado = expirado }
    else i

unfoldable pub expire_stale : ℕ → Db → Db
unfolding expire_cita miss_cita lapse_intent
expire_stale now db = record db {
  intents = map (lapse_intent now db.citas) db.intents;
  citas = map (λ c. miss_cita now (expire_cita now c)) db.citas;
}
