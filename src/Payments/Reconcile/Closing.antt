-- ===== src/Payments/Reconcile/Closing.antt =====
-- `reconcilePixelPayPaid` opens no intent for another sale.
use masterfadebackend.Prelude.{
  ℕ, ◌≤◌, ◌≡◌, refl, sym, ap, subst, inl, inr, List, Option, none, some, Bool, true, false, ◌&&◌,
  not, arith, ◌==◌, Bool-cases, if◌then◌else◌,
}
use masterfadebackend.Payments.{
  Intent, Payment, Cita, Db, is_confirmado, find_intent, find_captured, find_transaction,
  group_citas, group_total,
}
use masterfadebackend.Payments.Confirmation.{
  Outside, transaction_conflict, Confirmation, failed, no_group, confirmed_group, confirm_intent,
  confirmed_db,
}
use masterfadebackend.Payments.Confirmation.Outcome.{confirm_group-Confirms}
use masterfadebackend.Payments.Open.{open_of, open_of-map, confirm_intent-Closes}
use masterfadebackend.Payments.Reconcile.Rules.{with_intent-rule}
use masterfadebackend.Payments.Reconcile.Replay.{recover-rule}
use masterfadebackend.Payments.Reconcile.{
  Paid, PaidAnswer, confirmed, manual, refused, Reconciled, answered, reopen, conclude, is_empty,
  insert_payment, insert_found, own_references, repriced, paid_instant, after_insert, capture,
  with_prices, at_instant, on_existing, on_payments, with_intent, reconcile,
}

record Shuts (before : Db) (r : Reconciled) : Type 0 where
  le : (id : ℕ) → open_of id r.db ≤ open_of id before

-- An outcome that leaves the intents as they were.
same :
    (before db : Db) (answer : PaidAnswer)
    → db.intents ≡ before.intents
    → Shuts before (answered db answer)
same before db answer e = record { le = λ id. ground (arith, ap (find_intent id) e) }

reopened-Shuts :
    (durable : Bool) (group id : ℕ) (d : Db)
    → open_of id (if durable then reopen group d else d) ≤ open_of id d
reopened-Shuts true group id d = omega arith
reopened-Shuts false group id d = omega arith

confirmed_db-Shuts :
    (i : Intent) (reference : Option ℕ) (paid : Db) (id : ℕ)
    → open_of id (confirmed_db i reference paid) ≤ open_of id paid
unfolding confirmed_db
confirmed_db-Shuts i reference paid id = elim (Bool-cases (is_confirmado i.estado)) [
  | inl done ↦ rw done (omega arith)
  | inr fresh ↦ rw fresh (
      open_of-map (confirm_intent i.id_intent reference)
        (confirm_intent-Closes i.id_intent reference) id paid.intents)
]

guarded :
    (before : Db) (c : Bool) (answer : PaidAnswer) (r : Reconciled)
    → Shuts before r
    → Shuts before (if c then answered before answer else r)
guarded before true answer r h = same before _ _ refl
guarded before false answer r h = h

module _ (o : Outside) (now : ℕ) (a : Paid) (i : Intent) (before : Db) where
  conclude-Shuts :
      (existing : Bool) (paid : Db) (c : Confirmation)
      → ((id : ℕ) → open_of id paid ≤ open_of id before)
      → ((d : Db) → c ≡ confirmed_group d → (id : ℕ) → open_of id d ≤ open_of id paid)
      → Shuts before (conclude a before existing paid c)
  unfolding conclude
  conclude-Shuts existing paid (failed e) le later = same before _ _ refl
  conclude-Shuts existing paid no_group le later = elim (Bool-cases a.from_durable_approval) [
    | inl own ↦ rw own (same before before _ refl)
    | inr called ↦ rw called (record { le = le })
  ]
  conclude-Shuts existing paid (confirmed_group d) le later = record {
    le = λ id.
        omega
          (arith, reopened-Shuts a.from_durable_approval a.id_grupo id d, later d refl id, le id);
  }

  after_insert-Shuts :
      (tx at : ℕ) (existing : Bool) (paid : Option Db)
      → ((d : Db) → paid ≡ some d → (id : ℕ) → open_of id d ≤ open_of id before)
      → Shuts before (after_insert o now a i before tx at existing paid)
  unfolding after_insert
  after_insert-Shuts tx at existing none le = same before _ _ refl
  after_insert-Shuts tx at existing (some paid) le =
      conclude-Shuts existing paid _ (le paid refl) λ d e.
        let c = confirm_group-Confirms o i.id_cita a.id_grupo a.id_intent (some tx) at paid d e in
        subst (λ x. (id : ℕ) → open_of id x ≤ open_of id paid) (sym c.written)
          (confirmed_db-Shuts c.intent (some tx) paid)

  inserted-open :
      (uuid at : ℕ) (priced d : Db) (t : Option Payment)
      → insert_found a uuid at priced t ≡ some d
      → (id : ℕ) → open_of id d ≤ open_of id priced
  inserted-open uuid at priced d none e id = ground arith
  inserted-open uuid at priced d (some p) e id = ground arith

  capture-Shuts :
      (citas : List Cita) (at : ℕ) (existing : Bool) (uuid tx : Option ℕ)
      → Shuts before
          (capture o now a i before (record before { citas = citas }) at existing uuid tx)
  unfolding capture insert_payment
  capture-Shuts citas at existing none tx = same before _ _ refl
  capture-Shuts citas at existing (some uuid) none = same before _ _ refl
  capture-Shuts citas at true (some uuid) (some tx) =
      after_insert-Shuts tx at true (some (record before { citas = citas })) λ d e id. ground arith
  capture-Shuts citas at false (some uuid) (some tx) = after_insert-Shuts tx at false _ λ d e id.
      inserted-open uuid at (record before { citas = citas }) d
        (find_transaction uuid before.payments) e id

  with_prices-Shuts :
      (at : ℕ) (existing : Bool) (citas : Option (List Cita))
      → Shuts before (with_prices o now a i before at existing citas)
  unfolding with_prices
  with_prices-Shuts at existing none = same before _ _ refl
  with_prices-Shuts at existing (some cs) =
      elim (Bool-cases
        (group_total a.id_grupo (record before { citas = cs }) == a.expected_amount)) [
          | inl ok ↦ rw ok (capture-Shuts cs at existing a.payment_uuid a.transaction_id)
          | inr changed ↦ rw changed (same before before _ refl)
        ]

  at_instant-Shuts :
      (existing : Bool) (t : Option ℕ) → Shuts before (at_instant o now a i before existing t)
  unfolding at_instant
  at_instant-Shuts existing none = same before _ _ refl
  at_instant-Shuts existing (some at) =
      with_prices-Shuts at existing (repriced o.price a.id_grupo before.citas)

  on_existing-Shuts : (p : Option Payment) → Shuts before (on_existing o now a i before p)
  unfolding on_existing
  on_existing-Shuts none =
      guarded before _ (manual false i.estado) _
        (at_instant-Shuts false (paid_instant a now i before))
  on_existing-Shuts (some p) = guarded before _ (manual false i.estado) _ (
      guarded before _ (refused transaction_conflict) _ (
        guarded before _ (confirmed false) _ (
          guarded before _ (manual false i.estado) _
            (at_instant-Shuts true (paid_instant a now i before)))))

  on_payments-Shuts : Shuts before (on_payments o now a i before)
  unfolding on_payments
  on_payments-Shuts =
      guarded before _ (refused transaction_conflict) _
        (on_existing-Shuts (find_captured a.id_intent before.payments))

found-Shuts :
    (o : Outside) (now : ℕ) (a : Paid) (db : Db) (i : Option Intent)
    → Shuts db (with_intent o now a db i)
found-Shuts o now a db none = unfold with_intent in same db db _ refl
found-Shuts o now a db (some i) =
    with_intent-rule o now a db i (Shuts db) (λ e. same db db _ refl)
      (recover-rule o now (own_references a i) i db (Shuts db) (same db db _ refl) (λ t.
        on_payments-Shuts o now
          (record (own_references a i) { paid_at = some t; allow_expired_recovery = true }) i db))
      (λ amount own. on_payments-Shuts o now a i db)

admitted-Shuts : (o : Outside) (now : ℕ) (a : Paid) (db : Db) → Shuts db (reconcile o now a db)
unfolding reconcile
admitted-Shuts o now a db =
    elim (Bool-cases (o.admitted && not (is_empty (group_citas a.id_grupo db)))) [
      | inr out ↦ rw out (same db db _ refl)
      | inl in' ↦ rw in' (found-Shuts o now a db (find_intent a.id_intent db.intents))
    ]

-- An intent that is closed stays closed.
pub reconcile-closes :
    (o : Outside) (now : ℕ) (a : Paid) (db : Db) (id : ℕ)
    → open_of id (reconcile o now a db).db ≤ open_of id db
reconcile-closes o now a db id = (admitted-Shuts o now a db).le id
