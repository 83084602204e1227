-- ===== src/Payments/Intents.antt =====
-- The first transaction of `/crear-intent` of routes/v1/public/pagos.js for PixelPay: an intent for the group,
-- the active one where it has the amount. The second is `activate` of Payments/Group.
use masterfadebackend.Prelude.{
  ℕ, List, [], ◌∷◌, map, Option, none, some, Bool, true, false, ◌&&◌, ltb, ◌==◌, if◌then◌else◌,
}
use masterfadebackend.Security.Sessions.{is_null}
use masterfadebackend.Payments.{
  IntentState, creado, link_generado, pendiente_confirmacion, expirado, Intent, Hold, Cita, Db,
  find_intent, group_citas, group_total, group_rows,
}
use masterfadebackend.Payments.Group.{is_payable, group_expires_at}
use masterfadebackend.Payments.Confirmation.{Outside}
use masterfadebackend.Payments.Reconcile.{repriced}

-- The request; `new_id` is the identifier that it draws.
pub record NewIntent : Type 0 where
  pub id_grupo : ℕ
  pub new_id : ℕ
  pub user : ℕ

abbrev pub is_active_intent : IntentState → Bool
is_active_intent creado = true
is_active_intent link_generado = true
is_active_intent pendiente_confirmacion = true
is_active_intent _ = false

abbrev same_hold : Option ℕ → Option Hold → Bool
same_hold (some id) (some h) = id == h.id_hold
same_hold none h = false
same_hold (some id) none = false

abbrev newest_hold : List Hold → Option Hold
newest_hold [] = none
newest_hold (h ∷ hs) = some h

-- The newest active intent of the first appointment and its hold.
unfoldable pub find_active : ℕ → ℕ → Cita → List Intent → Option Intent
find_active now user anchor [] = none
find_active now user anchor (i ∷ is) =
    if (i.id_cita == anchor.id_cita)
      && i.is_pixelpay
      && (i.created_by == user)
      && is_active_intent i.estado
      && same_hold i.id_hold (newest_hold anchor.holds)
      && ltb now i.expires_at
    then some i
    else find_active now user anchor is

unfoldable pub expire_intent : ℕ → Intent → Intent
expire_intent id i = if i.id_intent == id then record i { estado = expirado } else i

abbrev hold_id : Option Hold → Option ℕ
hold_id none = none
hold_id (some h) = some h.id_hold

abbrev pub new_intent : NewIntent → Cita → (total expires_at : ℕ) → Intent
new_intent n anchor total expires_at = record {
  id_intent = n.new_id;
  id_cita = anchor.id_cita;
  id_grupo_cita = n.id_grupo;
  id_hold = hold_id (newest_hold anchor.holds);
  created_by = n.user;
  is_pixelpay = true;
  is_hnl = true;
  estado = creado;
  monto = total;
  referencia_externa = none;
  provider_session_id = none;
  orden_compra = none;
  expires_at = expires_at;
}

-- An identifier that is there already breaks the primary key, and the transaction with it.
abbrev pub insert_intent : Db → Intent → Db → Db
insert_intent before i db =
    if is_null (find_intent i.id_intent db.intents)
    then record db { intents = i ∷ db.intents }
    else before

abbrev pub replace_active : NewIntent → Cita → (total expires_at : ℕ) → Db → Db → Option Intent → Db
replace_active n anchor total expires_at before db none =
    insert_intent before (new_intent n anchor total expires_at) db
replace_active n anchor total expires_at before db (some old) =
    if old.monto == total
    then db
    else insert_intent before (new_intent n anchor total expires_at)
        (record db { intents = map (expire_intent old.id_intent) db.intents })

abbrev pub with_anchor : ℕ → NewIntent → (expires_at : ℕ) → Db → Db → List Cita → Db
with_anchor now n expires_at before db [] = before
with_anchor now n expires_at before db (anchor ∷ cs) =
    let total = group_total n.id_grupo db in
    if ltb 0 total
    then replace_active n anchor total expires_at before db
        (find_active now n.user anchor db.intents)
    else before

abbrev pub priced_intent : ℕ → NewIntent → Db → Option (List Cita) → Option ℕ → Db
priced_intent now n db none expires_at = db
priced_intent now n db (some citas) none = db
priced_intent now n db (some citas) (some expires_at) =
    let priced = record db { citas = citas } in
    with_anchor now n expires_at db priced (group_citas n.id_grupo priced)

-- The first transaction of `/crear-intent`; what is thrown leaves the rows as they were.
unfoldable pub create_intent : Outside → ℕ → NewIntent → Db → Db
unfolding find_active expire_intent
create_intent o now n db =
    let rows = group_rows n.id_grupo db in
    if o.admitted && is_payable rows
    then priced_intent now n db (repriced o.price n.id_grupo db.citas) (group_expires_at now rows)
    else db
