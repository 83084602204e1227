-- ===== src/Payments/Expiry/Recovery.antt =====
-- What the expiry of an uncertain payment does to its recovery.
use masterfadebackend.Prelude.{
  ℕ, ◌≤◌, ◌≡◌, ◌≢◌, refl, ap, ◌∙◌, List, Option, none, some, Bool, true, false, ◌&&◌, ◌||◌, not,
  arith, ◌==◌, le→leb, if◌then◌else◌,
}
use masterfadebackend.Payments.{
  IntentState, Intent, Payment, Cita, Db, is_pendiente, is_confirmado, find_intent, find_captured,
  group_citas,
}
use masterfadebackend.Payments.Intents.{is_active_intent}
use masterfadebackend.Payments.Confirmation.{Outside}
use masterfadebackend.Payments.Confirmation.Outcome.{map_intent, find_intent-map}
use masterfadebackend.Payments.Reconcile.{
  Paid, confirmed, Reconciled, is_empty, is_taken, owner, is_reference, own_references,
  durable_states, may_recover, on_existing, on_payments, recover, with_intent, reconcile,
}
use masterfadebackend.Payments.Reconcile.Rules.{with_intent-rule}
use masterfadebackend.Payments.Expiry.{lapse_intent, expire_stale}

-- The answer is not that the reservation is confirmed.
Unconfirmed : Reconciled → Type 0
Unconfirmed r = (b : Bool) → r.answer ≢ confirmed b

guarded :
    (x : Bool) (s t : Reconciled) → Unconfirmed s → Unconfirmed t → Unconfirmed (if x then s else t)
guarded true s t p q = p
guarded false s t p q = q

module _ (o : Outside) (now : ℕ) (i : Intent) (db : Db) (lost : is_pendiente i.estado ≡ false)
    (open' : is_confirmado i.estado ≡ false) where
  existing-Unconfirmed :
      (a : Paid)
      → a.from_durable_approval ≡ true
      → (p : Option Payment) → Unconfirmed (on_existing o now a i db p)
  unfolding on_existing Unconfirmed
  existing-Unconfirmed a durable none = rw (durable, lost) (λ b e. cc)
  existing-Unconfirmed a durable (some p) =
      guarded (a.from_durable_approval && not ((p.monto == a.expected_amount) && p.is_hnl)) _ _
        (λ b e. cc)
        (guarded
          (not (
            is_reference p.provider_tx_id a.payment_uuid
            || is_reference p.provider_tx_id a.transaction_id))
          _ _ (λ b e. cc) (rw (open', durable, lost) (λ b e. cc)))

  payments-Unconfirmed :
      (a : Paid) → a.from_durable_approval ≡ true → Unconfirmed (on_payments o now a i db)
  unfolding on_payments Unconfirmed
  payments-Unconfirmed a durable =
      guarded (is_taken a.id_intent (owner a.payment_uuid db)) _ _ (λ b e. cc)
        (existing-Unconfirmed a durable (find_captured a.id_intent db.payments))

  recover-Unconfirmed : (a : Paid) → Unconfirmed (recover o now a i db)
  unfolding recover Unconfirmed may_recover durable_states
  recover-Unconfirmed a = rw (open', lost) (λ b e. cc)

module _ (o : Outside) (now : ℕ) (a : Paid) (durable : a.from_durable_approval ≡ true)
    (db : Db) where
  intent-Unconfirmed :
      (i : Intent)
      → is_pendiente i.estado ≡ false
      → is_confirmado i.estado ≡ false
      → Unconfirmed (with_intent o now a db (some i))
  unfolding Unconfirmed
  intent-Unconfirmed i lost open' =
      with_intent-rule o now a db i Unconfirmed (λ e b h. cc)
        (recover-Unconfirmed o now i db lost open' (own_references a i))
        (λ amount own. payments-Unconfirmed o now i db lost open' a durable)

  reconcile-Unconfirmed :
      (i : Intent)
      → find_intent a.id_intent db.intents ≡ some i
      → is_pendiente i.estado ≡ false
      → is_confirmado i.estado ≡ false
      → Unconfirmed (reconcile o now a db)
  unfolding reconcile Unconfirmed
  reconcile-Unconfirmed i known lost open' =
      guarded (o.admitted && not (is_empty (group_citas a.id_grupo db))) _ _
        (rw known (intent-Unconfirmed i lost open')) (λ b e. cc)

pending_active : (s : IntentState) → is_pendiente s ≡ true → is_active_intent s ≡ true
pending_active s e = ground arith

lapsed :
    (now : ℕ) (cs : List Cita) (i : Intent)
    → is_pendiente i.estado ≡ true
    → i.expires_at ≤ now
    → lapse_intent now cs i ≡ record i { estado = IntentState.expirado }
unfolding lapse_intent
lapsed now cs i waits past = rw (pending_active i.estado waits, le→leb i.expires_at now past) refl

lapse-keeps :
    (now : ℕ) (cs : List Cita) (i : Intent) → (lapse_intent now cs i).id_intent ≡ i.id_intent
unfolding lapse_intent
lapse-keeps now cs i = ground arith

-- Where the outcome of a sale is uncertain and its intent has run out, an expiry takes the intent out of
-- the reach of a recovery: no recovery from a durable approval confirms the reservation after it, at
-- whatever time, and whatever the approvals and the payments are.
pub expire_stale-blocks :
    (now : ℕ) (db : Db) (i : Intent) (o : Outside) (later : ℕ) (a : Paid) (b : Bool)
    → find_intent a.id_intent db.intents ≡ some i
    → is_pendiente i.estado ≡ true
    → i.expires_at ≤ now
    → a.from_durable_approval ≡ true
    → (reconcile o later a (expire_stale now db)).answer ≢ confirmed b
unfolding expire_stale Unconfirmed
expire_stale-blocks now db i o later a b known waits past durable =
    reconcile-Unconfirmed o later a durable (expire_stale now db)
      (record i { estado = IntentState.expirado })
      (find_intent-map (lapse_intent now db.citas) (lapse-keeps now db.citas) a.id_intent db.intents
        ∙ ap (map_intent (lapse_intent now db.citas)) known
        ∙ ap some (lapsed now db.citas i waits past))
      refl refl b
