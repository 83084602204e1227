-- ===== src/Payments/Sale/Closing.antt =====
-- Creating an intent, activating its link and ending its sale open none for another sale.
use masterfadebackend.Prelude.{
  ℕ, ◌≤◌, ◌≡◌, refl, sym, ap, ◌∙◌, inl, inr, List, [], ◌∷◌, map, Option, none, some, Bool, true,
  false, ◌&&◌, arith, ltb, ◌==◌, Bool-cases,
}
use native.Mathlib.Nat.{le_trans}
use masterfadebackend.Security.Sessions.{is_null}
use masterfadebackend.Payments.{
  pendiente_confirmacion, fallido, Intent, Cita, Attempt, Db, find_intent, group_citas, group_total,
  group_rows,
}
use masterfadebackend.Payments.Group.{is_payable, to_link, activate_found}
use masterfadebackend.Payments.Intents.{
  NewIntent, expire_intent, find_active, insert_intent, new_intent, replace_active, with_anchor,
  priced_intent, create_intent,
}
use masterfadebackend.Payments.Confirmation.{Outside}
use masterfadebackend.Payments.Sale.{Claim}
use masterfadebackend.Payments.Sale.Finish.{
  SaleResult, thrown, returned, approved, uncertain, payment_declined, request_error_definitive,
  trusted, with_intents, paid_by, finalize_attempt, reference_intent, settle_sale, finish_sale,
}
use masterfadebackend.Payments.Reconcile.Rules.{==→eq}
use masterfadebackend.Payments.Reconcile.Closing.{reconcile-closes}
use masterfadebackend.Payments.Open.{
  open_row, open_of, open_row-le, open_of-map, to_link-Closes, expire_intent-Closes,
  end_intent-Closes, reference_intent-Closes,
}
use masterfadebackend.Payments.Sale.Operations.{linked}

pub linked-closes :
    (id now group intent order : ℕ) (db : Db) (i : Option Intent)
    → open_of id (linked db (activate_found now group intent order db i)) ≤ open_of id db
unfolding linked activate_found
linked-closes id now group intent order db none = omega arith
linked-closes id now group intent order db (some i) =
    ground (arith, open_of-map (to_link intent order) (to_link-Closes intent order) id db.intents)

free-open : (r : Option Intent) → is_null r ≡ true → open_row r ≡ 1
free-open none e = refl
free-open (some i) e = cc

added-open :
    (id : ℕ) (i : Intent) (is : List Intent)
    → is_null (find_intent i.id_intent is) ≡ true
    → open_row (find_intent id (i ∷ is)) ≤ open_row (find_intent id is)
added-open id i is free = elim (Bool-cases (i.id_intent == id)) [
  | inl mine ↦
      let one : open_row (find_intent id is) ≡ 1 =
        ap (λ k. open_row (find_intent k is)) (sym (==→eq i.id_intent id mine))
        ∙ free-open (find_intent i.id_intent is) free in
      rw mine (omega (arith, open_row-le (some i), one))
  | inr other ↦ rw other (omega arith)
]

insert-closes :
    (id : ℕ) (before db : Db) (i : Intent)
    → open_of id db ≤ open_of id before
    → open_of id (insert_intent before i db) ≤ open_of id before
insert-closes id before db i le = elim (Bool-cases (is_null (find_intent i.id_intent db.intents))) [
  | inr taken ↦ rw taken (omega arith)
  | inl free ↦ rw free (le_trans (added-open id i db.intents free) le)
]

replace-closes :
    (id : ℕ) (n : NewIntent) (anchor : Cita) (total expires_at : ℕ) (before db : Db)
    (r : Option Intent)
    → open_of id db ≤ open_of id before
    → open_of id (replace_active n anchor total expires_at before db r) ≤ open_of id before
replace-closes id n anchor total expires_at before db none le =
    insert-closes id before db (new_intent n anchor total expires_at) le
replace-closes id n anchor total expires_at before db (some old) le =
    elim (Bool-cases (old.monto == total)) [
      | inl same ↦ rw same le
      | inr other ↦ rw other (
          insert-closes id before
            (record db { intents = map (expire_intent old.id_intent) db.intents })
            (new_intent n anchor total expires_at)
            (le_trans
              (open_of-map (expire_intent old.id_intent) (expire_intent-Closes old.id_intent) id
                db.intents)
              le))
    ]

anchor-closes :
    (id now : ℕ) (n : NewIntent) (expires_at : ℕ) (before db : Db) (cs : List Cita)
    → open_of id db ≤ open_of id before
    → open_of id (with_anchor now n expires_at before db cs) ≤ open_of id before
anchor-closes id now n expires_at before db [] le = omega arith
anchor-closes id now n expires_at before db (anchor ∷ cs) le =
    elim (Bool-cases (ltb 0 (group_total n.id_grupo db))) [
      | inl owed ↦ rw owed (
          replace-closes id n anchor (group_total n.id_grupo db) expires_at before db
            (find_active now n.user anchor db.intents) le)
      | inr nothing ↦ rw nothing (omega arith)
    ]

priced-closes :
    (id now : ℕ) (n : NewIntent) (db : Db) (citas : Option (List Cita)) (expires_at : Option ℕ)
    → open_of id (priced_intent now n db citas expires_at) ≤ open_of id db
priced-closes id now n db none expires_at = omega arith
priced-closes id now n db (some citas) none = omega arith
priced-closes id now n db (some citas) (some expires_at) =
    anchor-closes id now n expires_at db (record db { citas = citas })
      (group_citas n.id_grupo (record db { citas = citas })) (omega arith)

pub create-closes :
    (id : ℕ) (o : Outside) (now : ℕ) (n : NewIntent) (db : Db)
    → open_of id (create_intent o now n db) ≤ open_of id db
unfolding create_intent
create-closes id o now n db =
    elim (Bool-cases (o.admitted && is_payable (group_rows n.id_grupo db))) [
      | inl in' ↦ rw in' (priced-closes id now n db _ _)
      | inr out ↦ rw out (omega arith)
    ]

settle-closes :
    (id : ℕ) (o : Outside) (now : ℕ) (c : Claim) (result : SaleResult) (db : Db)
    → open_of id (settle_sale o now c result db) ≤ open_of id db
unfolding settle_sale
settle-closes id o now c (thrown true) db =
    open_of-map _ (end_intent-Closes c.id_intent pendiente_confirmacion none none refl) id
      db.intents
settle-closes id o now c (thrown false) db =
    open_of-map _ (end_intent-Closes c.id_intent fallido none none refl) id db.intents
settle-closes id o now c (returned approved uuid tx hash amount) db =
    le_trans
      (reconcile-closes o now (paid_by c uuid tx)
        (with_intents (reference_intent c.id_intent uuid tx) db) id)
      (open_of-map _ (reference_intent-Closes c.id_intent uuid tx) id db.intents)
settle-closes id o now c (returned uncertain uuid tx hash amount) db =
    open_of-map _ (end_intent-Closes c.id_intent pendiente_confirmacion none none refl) id
      db.intents
settle-closes id o now c (returned payment_declined uuid tx hash amount) db =
    open_of-map _
      (end_intent-Closes c.id_intent fallido (trusted hash amount uuid) (trusted hash amount tx)
        refl)
      id db.intents
settle-closes id o now c (returned request_error_definitive uuid tx hash amount) db =
    open_of-map _
      (end_intent-Closes c.id_intent fallido (trusted hash amount uuid) (trusted hash amount tx)
        refl)
      id db.intents

pub finish-closes :
    (id : ℕ) (o : Outside) (now : ℕ) (recorded : Bool) (c : Claim) (found : Attempt)
    (result : SaleResult) (db : Db)
    → open_of id (finish_sale o now recorded c found result db) ≤ open_of id db
unfolding finish_sale
finish-closes id o now true c found result db =
    settle-closes id o now c result
      (record db { attempts = map (finalize_attempt now c.attempt_id found) db.attempts })
finish-closes id o now false c found result db = settle-closes id o now c result db
