-- ===== src/Payments/Sale.antt =====
-- The route `/pixelpay/sale` of routes/v1/public/pagos.js up to the call of the provider: the transaction
-- that claims the intent.
pub mod Finish
pub mod Status
pub mod Operations
pub mod Closing
pub mod Charges
use masterfadebackend.Prelude.{
  ℕ, ◌+◌, ◌*◌, max, List, [], ◌∷◌, map, Option, none, some, Bool, true, false, ◌&&◌, ◌||◌, not, ltb,
  leb, ◌==◌, any, filter, length, sum_by, if◌then◌else◌,
}
use masterfadebackend.Security.Sessions.{is_null, coalesce}
use masterfadebackend.Payments.{
  IntentState, creado, link_generado, pendiente_confirmacion, fallido, expirado, Intent, Hold, Cita,
  Attempt, Db, GroupRow, is_confirmado, is_pendiente, is_link, is_creado, is_payable_cita,
  is_activo, find_intent, find_cita, of_group, group_citas, group_total, group_rows, holds_of,
}
use masterfadebackend.Payments.Group.{is_payable, group_expires_at}
use masterfadebackend.Payments.Approval.{least_expiry, hold_expiries}
use masterfadebackend.Payments.Confirmation.{Outside, given_or}
use masterfadebackend.Payments.Reconcile.{is_empty, repriced, Paid, Reconciled, reconcile}

pub record Item : Type 0 where
  pub named : Bool
  pub price : ℕ
  pub qty : ℕ

-- What a sale brings along: the items of the prices, whether the authenticated user owns the intent and
-- the card fits the environment, the identifier of the attempt, and the minutes of grace of the stored
-- procedure, in milliseconds.
pub record SaleRequest : Type 0 where
  pub id_grupo : ℕ
  pub id_intent : ℕ
  pub items : List Item
  pub owns : Bool
  pub card_allowed : Bool
  pub attempt_id : ℕ
  pub grace : ℕ

-- The sale that a claim sends to the provider.
pub record Claim : Type 0 where
  pub id_grupo : ℕ
  pub id_intent : ℕ
  pub attempt_id : ℕ
  pub amount : ℕ

pub data Started : Type 0 where
  sale_refused already_paid : Started
  claimed : Claim → Started

abbrev is_good_item : Item → Bool
is_good_item i = i.named && ltb 0 i.qty

abbrev pub items_match : List Item → ℕ → Bool
items_match items total =
    not (is_empty items)
    && not (any (λ i. not (is_good_item i)) items)
    && (sum_by (λ i. i.price * i.qty) items == total)

abbrev pub in_group : ℕ → Option Cita → Bool
in_group group none = false
in_group group (some c) = c.id_grupo_cita == group

abbrev pub hold_in_group : Option ℕ → List (ℕ × Hold) → Bool
hold_in_group none holds = true
hold_in_group (some id) holds = any (λ h. h.1.id_hold == id) holds

-- The checks of `loadPublicIntentForGroup` and of the route on the intent.
unfoldable pub is_chargeable : SaleRequest → Db → ℕ → Intent → Bool
is_chargeable r db total i =
    in_group r.id_grupo (find_cita i.id_cita db.citas)
    && hold_in_group i.id_hold (holds_of (group_citas r.id_grupo db))
    && r.owns
    && (i.monto == total)
    && i.is_pixelpay
    && i.is_hnl

abbrev pub is_protecting : ℕ → ℕ × Hold → Bool
is_protecting now h = is_activo h.1.estado && ltb now h.1.expires_at

abbrev prolong : ℕ → Hold → Hold
prolong until h = if is_activo h.estado then record h { expires_at = max h.expires_at until } else h

unfoldable pub prolong_cita : ℕ → ℕ → Cita → Cita
prolong_cita group until c =
    if of_group group c then record c { holds = map (prolong until) c.holds } else c

unfoldable pub claim_intent : ℕ → ℕ → Intent → Intent
claim_intent id expires_at i =
    if i.id_intent == id && is_link i.estado
    then record i { estado = pendiente_confirmacion; expires_at = expires_at }
    else i

-- Whether `app_private.proteger_reserva_pago_v1` of db/migrations passes.
unfoldable pub may_protect : ℕ → SaleRequest → Intent → Db → Bool
may_protect now r i db =
    let citas = group_citas r.id_grupo db in
    (i.id_grupo_cita == r.id_grupo)
    && is_link i.estado
    && not (is_empty citas)
    && not (any (λ c. not (is_payable_cita c.estado)) citas)
    && (length (filter (is_protecting now) (holds_of citas)) == length citas)

-- The instant until which the prolonged holds last.
unfoldable pub protected_until : ℕ → List Cita → ℕ
protected_until group prolonged =
    coalesce
      (least_expiry (
        hold_expiries
          (filter (λ h. is_activo h.1.estado) (holds_of (filter (of_group group) prolonged)))))
      0

-- The stored procedure; `none` where it raises.
unfoldable pub protect : ℕ → ℕ → SaleRequest → Intent → Db → Option Db
unfolding prolong_cita claim_intent may_protect protected_until
protect now grace r i db =
    let prolonged = map (prolong_cita r.id_grupo (now + grace)) db.citas in
    if may_protect now r i db
    then some (record db {
      citas = prolonged;
      intents = map (claim_intent i.id_intent (protected_until r.id_grupo prolonged)) db.intents;
    })
    else none

abbrev new_attempt : SaleRequest → Attempt
new_attempt r = record {
  id_intent = r.id_intent;
  payment_attempt_id = r.attempt_id;
  outcome_approved = false;
  success_response = false;
  status_ok = false;
  finalized_at = none;
  response_success = none;
  response_approved = none;
  response_incomplete = none;
  uncertain = none;
  transaction_result_valid = none;
  transaction_result_parsed = none;
  payment_uuid_present = none;
  transaction_id_present = none;
  payment_hash_present = none;
  payment_hash_valid = none;
  transaction_amount_matches = none;
  approved_amount_matches = none;
  amount_matches = none;
}

pub record Start : Type 0 where
  pub db : Db
  pub answer : Started

abbrev pub started : Db → Started → Start
started db answer = record { db = db; answer = answer }

abbrev pub protected_sale : SaleRequest → ℕ → Db → Option Db → Start
protected_sale r total before none = started before sale_refused
protected_sale r total before (some db) =
    started (record db { attempts = new_attempt r ∷ db.attempts })
      (claimed (record {
        id_grupo = r.id_grupo;
        id_intent = r.id_intent;
        attempt_id = r.attempt_id;
        amount = total;
      }))

unfoldable pub start_found : ℕ → SaleRequest → Db → Db → Option Intent → Start
unfolding is_chargeable protect
start_found now r before priced none = started before sale_refused
start_found now r before priced (some i) =
    if not (
      items_match r.items (group_total r.id_grupo priced)
      && is_chargeable r priced (group_total r.id_grupo priced) i)
    then started before sale_refused
    else if is_confirmado i.estado
    then started priced already_paid
    else if not (is_link i.estado && not (is_null i.orden_compra) && r.card_allowed)
    then started before sale_refused
    else protected_sale r (group_total r.id_grupo priced) before (protect now r.grace r i priced)

abbrev pub start_priced : ℕ → SaleRequest → Db → Option (List Cita) → Start
start_priced now r db none = started db sale_refused
start_priced now r db (some citas) =
    start_found now r db (record db { citas = citas }) (find_intent r.id_intent db.intents)

-- The transaction of `/pixelpay/sale` that claims the intent; the provider is called where it answers
-- with a claim.
unfoldable pub start_sale : Outside → ℕ → SaleRequest → Db → Start
unfolding start_found
start_sale o now r db =
    let rows = group_rows r.id_grupo db in
    if o.admitted && is_payable rows && not (is_null (group_expires_at now rows))
    then start_priced now r db (repriced o.price r.id_grupo db.citas)
    else started db sale_refused
