-- ===== src/Payments/Reconcile.antt =====
-- `reconcilePixelPayPaid` of routes/v1/public/pagos.js: the transaction that turns a paid sale into a
-- captured payment and a confirmed reservation.
pub mod Rules
pub mod Capture
pub mod Replay
pub mod Closing
use masterfadebackend.Prelude.{
  ℕ, ◌+◌, List, [], ◌∷◌, map, Option, none, some, Bool, true, false, ◌&&◌, ◌||◌, not, ltb, ◌==◌,
  any, sum_by, if◌then◌else◌,
}
use masterfadebackend.Security.Sessions.{is_null, coalesce}
use masterfadebackend.Payments.{
  IntentState, pendiente_confirmacion, confirmado, CitaState, expirada, confirmada, HoldState,
  GroupState, Intent, Payment, Hold, Cita, Db, GroupRow, is_confirmado, is_pendiente,
  is_payable_cita, is_open_group, find_intent, find_captured, find_transaction, of_group,
  group_citas, group_total, group_rows, holds_of,
}
use masterfadebackend.Payments.Group.{is_payable, group_expires_at}
use masterfadebackend.Payments.Approval.{hold_expiries, durable_approval}
use masterfadebackend.Payments.Confirmation.{
  Outside, PaymentError, group_forbidden, intent_group_mismatch, intent_provider_mismatch,
  currency_invalid, amount_mismatch, payment_uuid_missing, payment_uuid_mismatch,
  transaction_conflict, promotion_rejected, group_not_found, Confirmation, failed, no_group,
  confirmed_group, confirm_group_after_paid, is_recoverable_cita, is_consumable,
}

pub record Paid : Type 0 where
  pub id_grupo : ℕ
  pub id_intent : ℕ
  pub payment_uuid : Option ℕ
  pub transaction_id : Option ℕ
  pub expected_amount : ℕ
  pub paid_at : Option ℕ
  pub allow_expired_recovery : Bool
  pub from_durable_approval : Bool

-- `manual` asks for a reconciliation by hand.
pub data PaidAnswer : Type 0 where
  confirmed : (processed : Bool) → PaidAnswer
  manual : (pending_confirmation : Bool) → IntentState → PaidAnswer
  refused : PaymentError → PaidAnswer

pub record Reconciled : Type 0 where
  pub db : Db
  pub answer : PaidAnswer

abbrev pub answered : Db → PaidAnswer → Reconciled
answered db answer = record { db = db; answer = answer }

abbrev pub is_empty {ℓ} : {A : Type ℓ} → List A → Bool
is_empty [] = true
is_empty (x ∷ xs) = false

abbrev is_cancelled_group : GroupState → Bool
is_cancelled_group GroupState.cancelado = true
is_cancelled_group _ = false

-- `UPDATE citas_grupos` after a recovery.
abbrev pub reopen : ℕ → Db → Db
reopen group db = record db {
  grupos = λ g.
      if g == group && is_cancelled_group (db.grupos g) then GroupState.activo else db.grupos g;
}

-- The end of the transaction; what is thrown rolls it back to `before`.
unfoldable pub conclude : Paid → (before : Db) → (existing : Bool) → Db → Confirmation → Reconciled
conclude a before existing paid (failed e) = answered before (refused e)
conclude a before existing paid no_group =
    if a.from_durable_approval
    then answered before (refused group_not_found)
    else answered paid (confirmed (not existing))
conclude a before existing paid (confirmed_group db) =
    answered (if a.from_durable_approval then reopen a.id_grupo db else db)
      (confirmed (not existing))

abbrev pub payment_of : Paid → ℕ → ℕ → Payment
payment_of a uuid at = record {
  id_intent = a.id_intent;
  capturado = true;
  provider_tx_id = uuid;
  monto = a.expected_amount;
  is_hnl = true;
  paid_at = at;
}

abbrev pub insert_found : Paid → ℕ → ℕ → Db → Option Payment → Option Db
insert_found a uuid at db none = some (record db { payments = payment_of a uuid at ∷ db.payments })
insert_found a uuid at db (some p) = if p.id_intent == a.id_intent then some db else none

-- The insertion of the payment; `none` where its transaction belongs to another intent.
unfoldable pub insert_payment : Paid → ℕ → ℕ → Db → Option Db
insert_payment a uuid at db = insert_found a uuid at db (find_transaction uuid db.payments)

-- `recalculateGroupPromotionsForPayment` writes what each appointment of the group costs now.
abbrev reprice : Cita → Option ℕ → Option Cita
reprice c none = none
reprice c (some total) = some (record c { total_pagar = total })

abbrev cons_both : Option Cita → Option (List Cita) → Option (List Cita)
cons_both none cs = none
cons_both (some c) none = none
cons_both (some c) (some cs) = some (c ∷ cs)

unfoldable pub repriced : (Cita → Option ℕ) → ℕ → List Cita → Option (List Cita)
repriced price group [] = some []
repriced price group (c ∷ cs) =
    let here : Option Cita = if of_group group c then reprice c (price c) else some c in
    cons_both here (repriced price group cs)

abbrev hold_is : (HoldState → Bool) → Option Hold → Bool
hold_is p none = false
hold_is p (some h) = p h.estado

abbrev is_consumido : HoldState → Bool
is_consumido HoldState.consumido = true
is_consumido _ = false

abbrev pub is_confirmada : CitaState → Bool
is_confirmada confirmada = true
is_confirmada _ = false

abbrev all {ℓ} : {A : Type ℓ} → (A → Bool) → List A → Bool
all p xs = not (any (λ x. not (p x)) xs)

abbrev is_recovery_row : GroupRow → Bool
is_recovery_row r = is_recoverable_cita r.estado_cita && hold_is is_consumable r.hold

abbrev is_confirmed_row : GroupRow → Bool
is_confirmed_row r = is_confirmada r.estado_cita && hold_is is_consumido r.hold

abbrev first_group : (GroupState → Bool) → List GroupRow → Bool
first_group p [] = false
first_group p (r ∷ rs) = p r.estado_grupo

abbrev is_open_or_cancelled : GroupState → Bool
is_open_or_cancelled g = is_open_group g || is_cancelled_group g

-- `statesValid` and `holdStatesValid` of a recovery from a durable approval.
unfoldable pub durable_states : IntentState → List GroupRow → List (ℕ × Hold) → Bool
durable_states state rows holds =
    if is_confirmado state
    then first_group is_open_group rows
      && all is_confirmed_row rows
      && not (is_empty holds)
      && all (λ h. is_consumido h.1.estado) holds
    else is_pendiente state
      && first_group is_open_or_cancelled rows
      && all is_recovery_row rows
      && not (is_empty holds)
      && all (λ h. is_consumable h.1.estado) holds

abbrev recovery_states : IntentState → List GroupRow → Bool
recovery_states state rows =
    is_pendiente state && first_group is_open_or_cancelled rows && all is_recovery_row rows

abbrev pub row_expiry : Option Hold → Option ℕ
row_expiry none = none
row_expiry (some h) = some h.expires_at

-- The expiries of the holds that the approval has to precede: the locked ones in a recovery, those of
-- the rows otherwise.
abbrev approval_expiries : Paid → Db → List (Option ℕ)
approval_expiries a db =
    if a.from_durable_approval
    then hold_expiries (holds_of (group_citas a.id_grupo db))
    else map (λ r. row_expiry r.hold) (group_rows a.id_grupo db)

-- `canonicalPaidAt` of a group that may still be paid.
abbrev in_time : Paid → ℕ → List GroupRow → Bool
in_time a now rows = is_payable rows && not (is_null (group_expires_at now rows))

abbrev same_instant : Option ℕ → Option ℕ → Option ℕ
same_instant paid_at none = none
same_instant paid_at (some t) = if coalesce paid_at 0 == t then some t else none

-- The instant at which the payment counts; `none` asks for a reconciliation by hand.
unfoldable pub paid_instant : Paid → ℕ → Intent → Db → Option ℕ
paid_instant a now i db =
    let rows = group_rows a.id_grupo db in
    if in_time a now rows
    then some (coalesce a.paid_at now)
    else if a.allow_expired_recovery && recovery_states i.estado rows
    then same_instant a.paid_at
        (durable_approval i.id_intent i.id_grupo_cita (approval_expiries a db) db)
    else none

abbrev pub is_reference : ℕ → Option ℕ → Bool
is_reference t none = false
is_reference t (some u) = t == u

abbrev pub is_taken : ℕ → Option Payment → Bool
is_taken id none = false
is_taken id (some p) = not (p.id_intent == id)

abbrev pub owner : Option ℕ → Db → Option Payment
owner none db = none
owner (some uuid) db = find_transaction uuid db.payments

abbrev pub are_distinct : (uuid tx : Option ℕ) → Bool
are_distinct (some uuid) (some tx) = not (uuid == tx)
are_distinct none tx = false
are_distinct (some uuid) none = false

abbrev pub check_uuid : (stored requested : Option ℕ) → Option PaymentError
check_uuid (some s) (some r) = if s == r then none else some payment_uuid_mismatch
check_uuid none r = some payment_uuid_missing
check_uuid (some s) none = some payment_uuid_missing

abbrev pub checked : Db → Option PaymentError → Reconciled → Reconciled
checked db (some e) done = answered db (refused e)
checked db none done = done

-- The parameters of a recovery are the intent's own.
abbrev pub own_references : Paid → Intent → Paid
own_references a i = record a {
  payment_uuid = i.provider_session_id;
  transaction_id = i.referencia_externa;
  expected_amount = i.monto;
}

-- Whether a recovery looks for the durable approval.
unfoldable pub may_recover : Paid → Intent → Db → Bool
unfolding durable_states
may_recover a i db =
    durable_states i.estado (group_rows a.id_grupo db) (holds_of (group_citas a.id_grupo db))
    && are_distinct a.payment_uuid a.transaction_id
    && ltb 0 a.expected_amount
    && (group_total a.id_grupo db == a.expected_amount)

module _ (o : Outside) (now : ℕ) where
  unfoldable pub after_insert :
      Paid → Intent → (before : Db) → ℕ → ℕ → Bool → Option Db → Reconciled
  unfolding conclude confirm_group_after_paid
  after_insert a i before tx at existing none = answered before (refused transaction_conflict)
  after_insert a i before tx at existing (some paid) =
      conclude a before existing paid
        (confirm_group_after_paid o i.id_cita a.id_grupo a.id_intent (some tx) at paid)

  -- With both references of the provider; without one the recalculated prices are committed.
  unfoldable pub capture :
      Paid → Intent → (before priced : Db) → ℕ → Bool → (uuid tx : Option ℕ) → Reconciled
  unfolding after_insert insert_payment
  capture a i before priced at existing (some uuid) (some tx) =
      after_insert a i before tx at existing
        (if existing then some priced else insert_payment a uuid at priced)
  capture a i before priced at existing none tx = answered priced (manual true i.estado)
  capture a i before priced at existing (some uuid) none = answered priced (manual true i.estado)

  unfoldable pub with_prices : Paid → Intent → Db → ℕ → Bool → Option (List Cita) → Reconciled
  unfolding capture
  with_prices a i db at existing none = answered db (refused promotion_rejected)
  with_prices a i db at existing (some citas) =
      let priced = record db { citas = citas } in
      if group_total a.id_grupo priced == a.expected_amount
      then capture a i db priced at existing a.payment_uuid a.transaction_id
      else answered db (refused amount_mismatch)

  unfoldable pub at_instant : Paid → Intent → Db → Bool → Option ℕ → Reconciled
  unfolding with_prices repriced
  at_instant a i db existing none = answered db (manual true i.estado)
  at_instant a i db existing (some at) =
      with_prices a i db at existing (repriced o.price a.id_grupo db.citas)

  -- What the transactions of the intent say; the first is that of a captured payment.
  unfoldable pub on_existing : Paid → Intent → Db → Option Payment → Reconciled
  unfolding at_instant paid_instant
  on_existing a i db none =
      if a.from_durable_approval && not (is_pendiente i.estado)
      then answered db (manual false i.estado)
      else at_instant a i db false (paid_instant a now i db)
  on_existing a i db (some p) =
      if a.from_durable_approval && not ((p.monto == a.expected_amount) && p.is_hnl)
      then answered db (manual false i.estado)
      else if not (
          is_reference p.provider_tx_id a.payment_uuid
          || is_reference p.provider_tx_id a.transaction_id)
      then answered db (refused transaction_conflict)
      else if is_confirmado i.estado
      then answered db (confirmed false)
      else if a.from_durable_approval && not (is_pendiente i.estado)
      then answered db (manual false i.estado)
      else at_instant a i db true (paid_instant a now i db)

  unfoldable pub on_payments : Paid → Intent → Db → Reconciled
  unfolding on_existing
  on_payments a i db =
      if is_taken a.id_intent (owner a.payment_uuid db)
      then answered db (refused transaction_conflict)
      else on_existing a i db (find_captured a.id_intent db.payments)

  abbrev pub with_approval : Paid → Intent → Db → Option ℕ → Reconciled
  with_approval a i db none = answered db (manual false i.estado)
  with_approval a i db (some t) =
      on_payments (record a { paid_at = some t; allow_expired_recovery = true }) i db

  -- A recovery from a durable approval looks for it first.
  unfoldable pub recover : Paid → Intent → Db → Reconciled
  unfolding on_payments may_recover
  recover a i db =
      if may_recover a i db
      then with_approval a i db (
          durable_approval i.id_intent i.id_grupo_cita
            (hold_expiries (holds_of (group_citas a.id_grupo db))) db)
      else answered db (manual false i.estado)

  unfoldable pub with_intent : Paid → Db → Option Intent → Reconciled
  unfolding recover on_payments
  with_intent a db none = answered db (refused intent_group_mismatch)
  with_intent a db (some i) =
      if not (i.id_grupo_cita == a.id_grupo)
      then answered db (refused intent_group_mismatch)
      else if not i.is_pixelpay
      then answered db (refused intent_provider_mismatch)
      else if not i.is_hnl
      then answered db (refused currency_invalid)
      else if a.from_durable_approval
      then recover (own_references a i) i db
      else if not (i.monto == a.expected_amount)
      then answered db (refused amount_mismatch)
      else checked db (check_uuid i.provider_session_id a.payment_uuid) (on_payments a i db)

  unfoldable pub reconcile : Paid → Db → Reconciled
  unfolding with_intent
  reconcile a db =
      if o.admitted && not (is_empty (group_citas a.id_grupo db))
      then with_intent a db (find_intent a.id_intent db.intents)
      else answered db (refused group_forbidden)
