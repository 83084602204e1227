-- ===== src/Payments.antt =====
-- The payment of a reservation through PixelPay, routes/v1/public/pagos.js: the rows that its
-- transactions read and write. Amounts are cents, instants are milliseconds, identifiers and references
-- are numbers, and a text that is empty or missing is `none`.
pub mod Group
pub mod Approval
pub mod Confirmation
pub mod Reconcile
pub mod Intents
pub mod Open
pub mod Expiry
pub mod Prices
pub mod Sale
pub mod Examples
use masterfadebackend.Prelude.{
  ℕ, ◌+◌, List, [], ◌∷◌, ◌++◌, map, Option, none, some, Bool, true, false, ◌&&◌, ◌==◌, filter,
  sum_by, if◌then◌else◌,
}

pub data IntentState : Type 0 where
  creado link_generado pendiente_confirmacion confirmado fallido expirado cancelado : IntentState

-- The last of the states stands for every other one.
pub data CitaState : Type 0 where
  en_espera pendiente_pago confirmada expirada other_cita : CitaState

pub data HoldState : Type 0 where
  activo expirado consumido other_hold : HoldState

pub data GroupState : Type 0 where
  activo cancelado other_grupo : GroupState

pub record Intent : Type 0 where
  pub id_intent : ℕ
  pub id_cita : ℕ
  pub id_grupo_cita : ℕ
  pub id_hold : Option ℕ
  pub created_by : ℕ
  pub is_pixelpay : Bool
  pub is_hnl : Bool
  pub estado : IntentState
  pub monto : ℕ
  pub referencia_externa : Option ℕ
  pub provider_session_id : Option ℕ
  pub orden_compra : Option ℕ
  pub expires_at : ℕ

pub record Payment : Type 0 where
  pub id_intent : ℕ
  pub capturado : Bool
  pub provider_tx_id : ℕ
  pub monto : ℕ
  pub is_hnl : Bool
  pub paid_at : ℕ

pub record Hold : Type 0 where
  pub id_hold : ℕ
  pub estado : HoldState
  pub expires_at : ℕ

-- An appointment that is not deleted, with its holds, the newest first.
pub record Cita : Type 0 where
  pub id_cita : ℕ
  pub id_grupo_cita : ℕ
  pub estado : CitaState
  pub inicio_at : ℕ
  pub total_pagar : ℕ
  pub holds : List Hold

-- A row of `pixelpay_sale_attempts`: what the provider's answer was found to be.
pub record Attempt : Type 0 where
  pub id_intent : ℕ
  pub payment_attempt_id : ℕ
  pub outcome_approved : Bool
  pub success_response : Bool
  pub status_ok : Bool
  pub finalized_at : Option ℕ
  pub response_success : Option Bool
  pub response_approved : Option Bool
  pub response_incomplete : Option Bool
  pub uncertain : Option Bool
  pub transaction_result_valid : Option Bool
  pub transaction_result_parsed : Option Bool
  pub payment_uuid_present : Option Bool
  pub transaction_id_present : Option Bool
  pub payment_hash_present : Option Bool
  pub payment_hash_valid : Option Bool
  pub transaction_amount_matches : Option Bool
  pub approved_amount_matches : Option Bool
  pub amount_matches : Option Bool

-- The intents stand with the newest first.
pub record Db : Type 0 where
  pub intents : List Intent
  pub payments : List Payment
  pub citas : List Cita
  pub grupos : ℕ → GroupState
  pub attempts : List Attempt

abbrev pub is_confirmado : IntentState → Bool
is_confirmado confirmado = true
is_confirmado _ = false

abbrev pub is_pendiente : IntentState → Bool
is_pendiente pendiente_confirmacion = true
is_pendiente _ = false

abbrev pub is_link : IntentState → Bool
is_link link_generado = true
is_link _ = false

abbrev pub is_creado : IntentState → Bool
is_creado creado = true
is_creado _ = false

abbrev pub is_payable_cita : CitaState → Bool
is_payable_cita en_espera = true
is_payable_cita pendiente_pago = true
is_payable_cita _ = false

abbrev pub is_activo : HoldState → Bool
is_activo HoldState.activo = true
is_activo _ = false

abbrev pub is_open_group : GroupState → Bool
is_open_group GroupState.activo = true
is_open_group _ = false

-- The first row of that id.
abbrev pub find_intent : ℕ → List Intent → Option Intent
find_intent id [] = none
find_intent id (i ∷ is) = if i.id_intent == id then some i else find_intent id is

abbrev pub find_cita : ℕ → List Cita → Option Cita
find_cita id [] = none
find_cita id (c ∷ cs) = if c.id_cita == id then some c else find_cita id cs

abbrev pub of_group : ℕ → Cita → Bool
of_group group c = c.id_grupo_cita == group

abbrev pub group_citas : ℕ → Db → List Cita
group_citas group db = filter (of_group group) db.citas

abbrev pub group_total : ℕ → Db → ℕ
group_total group db = sum_by (λ c. c.total_pagar) (group_citas group db)

-- The first captured payment of an intent.
abbrev pub find_captured : ℕ → List Payment → Option Payment
find_captured id [] = none
find_captured id (p ∷ ps) = if p.capturado && p.id_intent == id then some p else find_captured id ps

abbrev pub find_transaction : ℕ → List Payment → Option Payment
find_transaction tx [] = none
find_transaction tx (p ∷ ps) = if p.provider_tx_id == tx then some p else find_transaction tx ps

-- `loadPublicGroup`: a row for each appointment, with its newest hold where it has one.
pub record GroupRow : Type 0 where
  pub estado_grupo : GroupState
  pub estado_cita : CitaState
  pub hold : Option Hold
  pub total_pagar : ℕ

abbrev newest : List Hold → Option Hold
newest [] = none
newest (h ∷ hs) = some h

abbrev pub row_of : Db → Cita → GroupRow
row_of db c = record {
  estado_grupo = db.grupos c.id_grupo_cita;
  estado_cita = c.estado;
  hold = newest c.holds;
  total_pagar = c.total_pagar;
}

abbrev pub group_rows : ℕ → Db → List GroupRow
group_rows group db = map (row_of db) (group_citas group db)

-- The holds that the transactions lock, each with its appointment.
abbrev with_cita : ℕ → List Hold → List (ℕ × Hold)
with_cita id [] = []
with_cita id (h ∷ hs) = (id, h) ∷ with_cita id hs

abbrev pub holds_of : List Cita → List (ℕ × Hold)
holds_of [] = []
holds_of (c ∷ cs) = with_cita c.id_cita c.holds ++ holds_of cs
