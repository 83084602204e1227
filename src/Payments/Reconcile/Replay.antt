-- ===== src/Payments/Reconcile/Replay.antt =====
-- A payment that was confirmed stays so: what comes later for its intent changes nothing.
use masterfadebackend.Prelude.{
  ℕ, ◌≡◌, ◌≢◌, refl, sym, ap, subst, ◌∙◌, inl, inr, List, Option, none, some, Bool, true, false,
  ◌&&◌, ◌||◌, not, ◌==◌, Bool-cases, Option-cases, if◌then◌else◌,
}
use masterfadebackend.Security.Sessions.{is_null}
use masterfadebackend.Payments.{
  Intent, Payment, Cita, Db, is_confirmado, is_pendiente, find_intent, find_cita, find_captured,
  find_transaction, group_citas, group_total, holds_of,
}
use masterfadebackend.Payments.Approval.{hold_expiries, durable_approval}
use masterfadebackend.Payments.Confirmation.{
  Outside, transaction_conflict, Confirmation, failed, no_group, confirmed_group, confirmed_db,
}
use masterfadebackend.Payments.Confirmation.Outcome.{
  Confirms, confirmed_db-intent, confirm_group-Confirms, confirm_group-anchored,
}
use masterfadebackend.Payments.Reconcile.Rules.{with_intent-rule}
use masterfadebackend.Payments.Reconcile.Capture.{repriced-SamePlace}
use masterfadebackend.Payments.Reconcile.{
  Paid, PaidAnswer, confirmed, manual, refused, Reconciled, answered, reopen, conclude, may_recover,
  is_empty, insert_payment, insert_found, own_references, is_reference, repriced, paid_instant,
  after_insert, capture, with_prices, at_instant, on_existing, on_payments, recover, reconcile,
}

-- The intent is confirmed and has a captured payment.
pub record IsSettled (id : ℕ) (db : Db) : Type 0 where
  pub intent : Intent
  pub found : find_intent id db.intents ≡ some intent
  pub state : is_confirmado intent.estado ≡ true
  pub captured : is_null (find_captured id db.payments) ≡ false

abbrev Settles : ℕ → Reconciled → Type 0
Settles id r = (b : Bool) → r.answer ≡ confirmed b → IsSettled id r.db

-- Nothing has changed, and no payment was processed.
pub record IsStill (db : Db) (r : Reconciled) : Type 0 where
  pub same : r.db ≡ db
  pub unprocessed : r.answer ≢ confirmed true

reopened-IsSettled :
    (durable : Bool) (group id : ℕ) (db : Db)
    → IsSettled id db
    → IsSettled id (if durable then reopen group db else db)
reopened-IsSettled true group id db s = record {
  intent = s.intent;
  found = s.found;
  state = s.state;
  captured = s.captured;
}
reopened-IsSettled false group id db s = s

confirmed_db-IsSettled :
    (id : ℕ) (reference : Option ℕ) (paid d : Db) → Confirms id reference paid d → IsSettled id d
confirmed_db-IsSettled id reference paid d c =
    let (j, known, done) = confirmed_db-intent id c.intent reference paid c.found in
    subst (IsSettled id) (sym c.written) (
      unfold confirmed_db in
      record { intent = j; found = known; state = done; captured = c.captured })

module _ (o : Outside) (now : ℕ) (a : Paid) (i : Intent) (before : Db) where
  conclude-Settles :
      (existing : Bool) (paid : Db) (c : Confirmation)
      → c ≢ no_group
      → ((d : Db) → c ≡ confirmed_group d → IsSettled a.id_intent d)
      → Settles a.id_intent (conclude a before existing paid c)
  unfolding conclude
  conclude-Settles existing paid (failed e) there done b h = cc
  conclude-Settles existing paid no_group there done b h = absurd (there refl)
  conclude-Settles existing paid (confirmed_group d) there done b h =
      reopened-IsSettled a.from_durable_approval a.id_grupo a.id_intent d (done d refl)

  finish-Settles :
      (existing : Bool) (paid : Db) (tx at : ℕ)
      → is_null (find_cita i.id_cita paid.citas) ≡ false
      → Settles a.id_intent (after_insert o now a i before tx at existing (some paid))
  unfolding after_insert
  finish-Settles existing paid tx at there =
      conclude-Settles existing paid _
        (confirm_group-anchored o i.id_cita a.id_grupo a.id_intent (some tx) at paid paid there)
        (λ d e.
          confirmed_db-IsSettled a.id_intent (some tx) paid d
            (confirm_group-Confirms o i.id_cita a.id_grupo a.id_intent (some tx) at paid d e))

  inserted-Settles :
      (existing : Bool) (uuid tx at : ℕ) (priced : Db) (t : Option Payment)
      → is_null (find_cita i.id_cita priced.citas) ≡ false
      → Settles a.id_intent
          (after_insert o now a i before tx at existing (insert_found a uuid at priced t))
  inserted-Settles existing uuid tx at priced none there = finish-Settles existing _ tx at there
  inserted-Settles existing uuid tx at priced (some p) there =
      elim (Bool-cases (p.id_intent == a.id_intent)) [
        | inl mine ↦ rw mine (finish-Settles existing priced tx at there)
        | inr other ↦ rw other (unfold after_insert in λ b h. cc)
      ]

  capture-Settles :
      (priced : Db) (at : ℕ) (existing : Bool) (uuid tx : Option ℕ)
      → is_null (find_cita i.id_cita priced.citas) ≡ false
      → Settles a.id_intent (capture o now a i before priced at existing uuid tx)
  unfolding capture insert_payment
  capture-Settles priced at existing none tx there = λ b h. cc
  capture-Settles priced at existing (some uuid) none there = λ b h. cc
  capture-Settles priced at true (some uuid) (some tx) there =
      finish-Settles true priced tx at there
  capture-Settles priced at false (some uuid) (some tx) there =
      inserted-Settles false uuid tx at priced (find_transaction uuid priced.payments) there

  with_prices-Settles :
      (at : ℕ) (existing : Bool) (citas : Option (List Cita))
      → ((cs : List Cita) → citas ≡ some cs → is_null (find_cita i.id_cita cs) ≡ false)
      → Settles a.id_intent (with_prices o now a i before at existing citas)
  unfolding with_prices
  with_prices-Settles at existing none there = λ b h. cc
  with_prices-Settles at existing (some cs) there =
      elim (Bool-cases
        (group_total a.id_grupo (record before { citas = cs }) == a.expected_amount)) [
          | inl same ↦ rw same (
              capture-Settles (record before { citas = cs }) at existing a.payment_uuid
                a.transaction_id (there cs refl))
          | inr changed ↦ rw changed (λ b h. cc)
        ]

  module _ (known : find_intent a.id_intent before.intents ≡ some i)
      (anchored : is_null (find_cita i.id_cita before.citas) ≡ false) where
    at_instant-Settles :
        (existing : Bool) (t : Option ℕ)
        → Settles a.id_intent (at_instant o now a i before existing t)
    unfolding at_instant
    at_instant-Settles existing none = λ b h. cc
    at_instant-Settles existing (some at) =
        with_prices-Settles at existing (repriced o.price a.id_grupo before.citas)
          (λ cs e. repriced-SamePlace o.price a.id_grupo i.id_cita before.citas cs e ∙ anchored)

    duplicate-Settles :
        (p : Payment) (r : Reconciled)
        → find_captured a.id_intent before.payments ≡ some p
        → Settles a.id_intent r
        → Settles a.id_intent
            (if is_confirmado i.estado then answered before (confirmed false) else r)
    duplicate-Settles p r paid later = elim (Bool-cases (is_confirmado i.estado)) [
      | inl done ↦
          rw done
            (λ b h. record { intent = i; found = known; state = done; captured = ap is_null paid })
      | inr open' ↦ rw open' later
    ]

    guarded-Settles :
        (c : Bool) (r : Reconciled) (answer : PaidAnswer)
        → ((b : Bool) → answer ≢ confirmed b)
        → Settles a.id_intent r
        → Settles a.id_intent (if c then answered before answer else r)
    guarded-Settles true r answer never later = λ b h. absurd (never b h)
    guarded-Settles false r answer never later = later

    on_existing-Settles :
        (p : Option Payment)
        → find_captured a.id_intent before.payments ≡ p
        → Settles a.id_intent (on_existing o now a i before p)
    unfolding on_existing
    on_existing-Settles none e =
        guarded-Settles _ _ (manual false i.estado) (λ b h. cc)
          (at_instant-Settles false (paid_instant a now i before))
    on_existing-Settles (some p) e =
        guarded-Settles _ _ (manual false i.estado) (λ b h. cc)
          (guarded-Settles _ _ (refused transaction_conflict) (λ b h. cc)
            (duplicate-Settles p _ e (
              guarded-Settles _ _ (manual false i.estado) (λ b h. cc)
                (at_instant-Settles true (paid_instant a now i before)))))

    on_payments-Settles : Settles a.id_intent (on_payments o now a i before)
    unfolding on_payments
    on_payments-Settles =
        guarded-Settles _ _ (refused transaction_conflict) (λ b h. cc)
          (on_existing-Settles (find_captured a.id_intent before.payments) refl)

-- A predicate that refusals and requests for a reconciliation by hand meet holds of a recovery where
-- it holds of what follows the approval.
pub recover-rule :
    (o : Outside) (now : ℕ) (a : Paid) (i : Intent) (db : Db) (P : Reconciled → Type 0)
    → P (answered db (manual false i.estado))
    → ((t : ℕ)
        → P (on_payments o now (record a { paid_at = some t; allow_expired_recovery = true }) i db))
    → P (recover o now a i db)
unfolding recover
recover-rule o now a i db P by_hand proved = elim (Bool-cases (may_recover a i db)) [
  | inr no' ↦ rw no' by_hand
  | inl ready ↦
      elim (Option-cases (
        durable_approval i.id_intent i.id_grupo_cita
          (hold_expiries (holds_of (group_citas a.id_grupo db))) db)) [
            | inl unproved ↦ rw (ready, unproved) by_hand
            | inr (t, given) ↦ rw (ready, given) (proved t)
          ]
]

reconcile-Settles :
    (o : Outside) (now : ℕ) (a : Paid) (db : Db) (i : Intent)
    → find_intent a.id_intent db.intents ≡ some i
    → is_null (find_cita i.id_cita db.citas) ≡ false
    → Settles a.id_intent (reconcile o now a db)
unfolding reconcile
reconcile-Settles o now a db i known there =
    elim (Bool-cases (o.admitted && not (is_empty (group_citas a.id_grupo db)))) [
      | inr out ↦ rw out (λ b h. cc)
      | inl in' ↦
          rw (in', known)
            (with_intent-rule o now a db i (Settles a.id_intent) (λ e b h. cc)
              (recover-rule o now (own_references a i) i db (Settles a.id_intent) (λ b h. cc)
                (λ t.
                  on_payments-Settles o now
                    (record (own_references a i) {
                      paid_at = some t;
                      allow_expired_recovery = true;
                    })
                    i db known there))
              (λ amount own. on_payments-Settles o now a i db known there))
    ]

guarded-IsStill :
    (db : Db) (c : Bool) (r : Reconciled) (answer : PaidAnswer)
    → answer ≢ confirmed true
    → (c ≡ false → IsStill db r)
    → IsStill db (if c then answered db answer else r)
guarded-IsStill db true r answer never later = record { same = refl; unprocessed = never }
guarded-IsStill db false r answer never later = later refl

module _ (o : Outside) (now : ℕ) (a : Paid) (i : Intent) (db : Db)
    (done : is_confirmado i.estado ≡ true)
    (paid : is_null (find_captured a.id_intent db.payments) ≡ false) where
  duplicate-IsStill :
      (r : Reconciled)
      → IsStill db (if is_confirmado i.estado then answered db (confirmed false) else r)
  duplicate-IsStill r = rw done (record { same = refl; unprocessed = λ e. cc })

  existing-IsStill :
      (p : Option Payment) → is_null p ≡ false → IsStill db (on_existing o now a i db p)
  unfolding on_existing
  existing-IsStill none h = cc
  existing-IsStill (some p) h =
      guarded-IsStill db
        (a.from_durable_approval && not ((p.monto == a.expected_amount) && p.is_hnl)) _
        (manual false i.estado) (λ e. cc)
        λ x.
          guarded-IsStill db
            (not (
              is_reference p.provider_tx_id a.payment_uuid
              || is_reference p.provider_tx_id a.transaction_id))
            _ (refused transaction_conflict) (λ e. cc)
            λ y. duplicate-IsStill (
              if a.from_durable_approval && not (is_pendiente i.estado)
              then answered db (manual false i.estado)
              else at_instant o now a i db true (paid_instant a now i db))

  on_payments-IsStill : IsStill db (on_payments o now a i db)
  unfolding on_payments
  on_payments-IsStill =
      guarded-IsStill db _ _ (refused transaction_conflict) (λ e. cc)
        λ x. existing-IsStill (find_captured a.id_intent db.payments) paid

settled-IsStill :
    (o : Outside) (now : ℕ) (a : Paid) (db : Db)
    → IsSettled a.id_intent db
    → IsStill db (reconcile o now a db)
unfolding reconcile
settled-IsStill o now a db s =
    elim (Bool-cases (o.admitted && not (is_empty (group_citas a.id_grupo db)))) [
      | inr out ↦ rw out (record { same = refl; unprocessed = λ e. cc })
      | inl in' ↦
          rw (in', s.found)
            (with_intent-rule o now a db s.intent (IsStill db)
              (λ e. record { same = refl; unprocessed = λ x. cc })
              (recover-rule o now (own_references a s.intent) s.intent db (IsStill db)
                (record { same = refl; unprocessed = λ x. cc })
                (λ t.
                  on_payments-IsStill o now
                    (record (own_references a s.intent) {
                      paid_at = some t;
                      allow_expired_recovery = true;
                    })
                    s.intent db s.state s.captured))
              (λ amount own. on_payments-IsStill o now a s.intent db s.state s.captured))
    ]

-- Where the intent names an appointment that is there: once the answer is that the reservation is
-- confirmed, the intent is confirmed and has a captured payment, and a later call for the intent, with
-- whatever references and amount, at any time and whatever is asked of elsewhere then, changes nothing
-- and does not answer that a payment was processed.
pub reconcile-settles :
    (o : Outside) (now : ℕ) (a : Paid) (db : Db) (i : Intent) (b : Bool)
    → find_intent a.id_intent db.intents ≡ some i
    → is_null (find_cita i.id_cita db.citas) ≡ false
    → (reconcile o now a db).answer ≡ confirmed b
    → (later : Outside) (moment : ℕ) (again : Paid) → again.id_intent ≡ a.id_intent
    → IsSettled a.id_intent (reconcile o now a db).db
      × IsStill (reconcile o now a db).db (reconcile later moment again (reconcile o now a db).db)
reconcile-settles o now a db i b known there ok later moment again same =
    let settled = reconcile-Settles o now a db i known there b ok in
    (
      settled,
      settled-IsStill later moment again (reconcile o now a db).db
          (subst (λ k. IsSettled k (reconcile o now a db).db) (sym same) settled),
    )
