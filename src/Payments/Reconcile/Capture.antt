-- ===== src/Payments/Reconcile/Capture.antt =====
-- What `reconcilePixelPayPaid` writes among the payments.
use masterfadebackend.Prelude.{
  ℕ, ◌≡◌, ◌≢◌, refl, sym, ap, subst, ◌∙◌, inl, inr, List, [], ◌∷◌, Option, none, some, Bool, true,
  false, ◌&&◌, not, arith, ◌==◌, Bool-cases, Option-cases, if◌then◌else◌,
}
use masterfadebackend.Security.Sessions.{is_null}
use masterfadebackend.Payments.{
  Intent, Payment, Cita, Db, find_intent, find_cita, find_captured, find_transaction, of_group,
  group_citas, group_total, holds_of,
}
use masterfadebackend.Payments.Approval.{hold_expiries, durable_approval}
use masterfadebackend.Payments.Confirmation.{
  Outside, Confirmation, failed, no_group, confirmed_group, confirmed_db,
}
use masterfadebackend.Payments.Confirmation.Outcome.{
  Confirms, group_total-confirmed_db, confirm_group-Confirms, confirm_group-anchored,
}
use masterfadebackend.Payments.Reconcile.Rules.{with_intent-rule}
use masterfadebackend.Payments.Reconcile.{
  Paid, PaidAnswer, confirmed, manual, refused, Reconciled, answered, reopen, conclude, may_recover,
  is_empty, payment_of, insert_payment, insert_found, cons_both, is_taken, owner, own_references,
  repriced, paid_instant, after_insert, capture, with_prices, at_instant, on_existing, on_payments,
  recover, with_intent, reconcile,
}

-- One payment is new: of the intent, for its amount, which is what the group costs, under the
-- reference that the intent has stored; the intent had no captured payment, and no payment had the
-- reference.
pub record Charged (group id : ℕ) (i : Intent) (before after : Db) : Type 0 where
  pub payment : Payment
  pub added : after.payments ≡ payment ∷ before.payments
  pub of_intent : payment.id_intent ≡ id
  pub captured : payment.capturado ≡ true
  pub amount : payment.monto ≡ i.monto
  pub price : group_total group after ≡ i.monto
  pub stored : i.provider_session_id ≡ some payment.provider_tx_id
  pub first : find_captured id before.payments ≡ none
  pub fresh : find_transaction payment.provider_tx_id before.payments ≡ none

abbrev pub Accounts : (group id : ℕ) → Intent → Db → PaidAnswer → Db → Type 0
Accounts group id i before (confirmed true) after = Charged group id i before after
Accounts group id i before (confirmed false) after = after.payments ≡ before.payments
Accounts group id i before (manual p s) after = after.payments ≡ before.payments
Accounts group id i before (refused e) after = after.payments ≡ before.payments

abbrev AccountsFor : Paid → Intent → Db → Reconciled → Type 0
AccountsFor a i before r = Accounts a.id_grupo a.id_intent i before r.answer r.db

-- The payment row that the transaction has put in place, or the captured one that was there.
abbrev IsBooked : Paid → Intent → Db → Bool → Db → Type 0
IsBooked a i before true paid = paid.payments ≡ before.payments
IsBooked a i before false paid = Charged a.id_grupo a.id_intent i before paid

Charged-later :
    (group id : ℕ) (i : Intent) (before paid after : Db)
    → after.payments ≡ paid.payments
    → group_total group after ≡ group_total group paid
    → Charged group id i before paid
    → Charged group id i before after
Charged-later group id i before paid after same total c = record {
  payment = c.payment;
  added = same ∙ c.added;
  of_intent = c.of_intent;
  captured = c.captured;
  amount = c.amount;
  price = total ∙ c.price;
  stored = c.stored;
  first = c.first;
  fresh = c.fresh;
}

booked-Accounts :
    (a : Paid) (i : Intent) (before paid after : Db) (existing : Bool)
    → after.payments ≡ paid.payments
    → group_total a.id_grupo after ≡ group_total a.id_grupo paid
    → IsBooked a i before existing paid
    → AccountsFor a i before (answered after (confirmed (not existing)))
booked-Accounts a i before paid after true same total b = same ∙ b
booked-Accounts a i before paid after false same total b =
    Charged-later a.id_grupo a.id_intent i before paid after same total b

reopened : Bool → ℕ → Db → Db
reopened durable group db = if durable then reopen group db else db

reopened-same :
    (durable : Bool) (group : ℕ) (db : Db)
    → ((if durable then reopen group db else db).payments ≡ db.payments)
      × (group_total group (if durable then reopen group db else db) ≡ group_total group db)
reopened-same true group db = (refl, refl)
reopened-same false group db = (refl, refl)

half_none : (c : Option Cita) (ds : List Cita) → cons_both c none ≢ some ds
half_none none ds e = cc
half_none (some c) ds e = cc

some_same {ℓ} : {A : Type ℓ} {x y : A} → some x ≡ some y → x ≡ y
some_same e = cc

abbrev SamePlace : ℕ → List Cita → List Cita → Type 0
SamePlace k cs ds = is_null (find_cita k ds) ≡ is_null (find_cita k cs)

place-cons :
    (k : ℕ) (c d : Cita) (cs ds : List Cita)
    → d.id_cita ≡ c.id_cita
    → SamePlace k cs ds
    → SamePlace k (c ∷ cs) (d ∷ ds)
place-cons k c d cs ds e h = ground arith

-- What the promotions have repriced are the same appointments.
pub repriced-SamePlace :
    (price : Cita → Option ℕ) (group k : ℕ) (cs ds : List Cita)
    → repriced price group cs ≡ some ds
    → SamePlace k cs ds
unfolding repriced
repriced-SamePlace price group k [] ds e = ground arith
repriced-SamePlace price group k (c ∷ cs) ds e = elim (Option-cases (repriced price group cs)) [
  | inl thrown ↦ absurd (half_none _ ds (rw thrown at e))
  | inr (rest, ok) ↦ elim (Bool-cases (of_group group c)) [
    | inr other ↦
        let ends : some (c ∷ rest) ≡ some ds = rw (other, ok) at e in
        subst (SamePlace k (c ∷ cs)) (some_same ends)
          (place-cons k c c cs rest refl (repriced-SamePlace price group k cs rest ok))
    | inl mine ↦ elim (Option-cases (price c)) [
      | inl thrown ↦ (let wrong : none ≡ some ds = rw (mine, thrown) at e in cc)
      | inr (total, known) ↦
          let ends : some (record c { total_pagar = total } ∷ rest) ≡ some ds =
            rw (mine, known, ok) at e in
          subst (SamePlace k (c ∷ cs)) (some_same ends) (
            place-cons k c (record c { total_pagar = total }) cs rest refl
              (repriced-SamePlace price group k cs rest ok))
    ]
  ]
]

tf : true ≡ false → ⊥
tf e = cc

==→eq : (x y : ℕ) → (x == y) ≡ true → x ≡ y
==→eq x y e = ground arith

not_null {ℓ} : {A : Type ℓ} {x : Option A} → x ≡ none → is_null x ≡ false → ⊥
not_null e h = (let wrong : true ≡ false = sym (ap is_null e) ∙ h in cc)

module _ (o : Outside) (now : ℕ) (a : Paid) (i : Intent) (before : Db)
    (amount : a.expected_amount ≡ i.monto) (own : a.payment_uuid ≡ i.provider_session_id) where
  conclude-Accounts :
      (existing : Bool) (paid : Db) (c : Confirmation)
      → c ≢ no_group
      → ((d : Db)
          → c ≡ confirmed_group d
          → (d.payments ≡ paid.payments) × (group_total a.id_grupo d ≡ group_total a.id_grupo paid))
      → IsBooked a i before existing paid
      → AccountsFor a i before (conclude a before existing paid c)
  unfolding conclude
  conclude-Accounts existing paid (failed e) there keeps b = refl
  conclude-Accounts existing paid no_group there keeps b = absurd (there refl)
  conclude-Accounts existing paid (confirmed_group d) there keeps b =
      let (same, total) = keeps d refl in
      let (same', total') = reopened-same a.from_durable_approval a.id_grupo d in
      booked-Accounts a i before paid _ existing (same' ∙ same) (total' ∙ total) b

  written-keeps :
      (reference : Option ℕ) (paid d : Db)
      → Confirms a.id_intent reference paid d
      → (d.payments ≡ paid.payments) × (group_total a.id_grupo d ≡ group_total a.id_grupo paid)
  unfolding confirmed_db
  written-keeps reference paid d c = (
    ap (λ x. x.payments) c.written,
    ap (group_total a.id_grupo) c.written
        ∙ group_total-confirmed_db a.id_grupo c.intent reference paid,
  )

  finish-Accounts :
      (existing : Bool) (paid : Db) (tx at : ℕ)
      → is_null (find_cita i.id_cita paid.citas) ≡ false
      → IsBooked a i before existing paid
      → AccountsFor a i before (after_insert o now a i before tx at existing (some paid))
  unfolding after_insert
  finish-Accounts existing paid tx at there b =
      conclude-Accounts existing paid _
        (confirm_group-anchored o i.id_cita a.id_grupo a.id_intent (some tx) at paid paid there)
        (λ d e.
          written-keeps (some tx) paid d
            (confirm_group-Confirms o i.id_cita a.id_grupo a.id_intent (some tx) at paid d e))
        b

  unpaid-Accounts :
      (existing : Bool) (paid : Db) (c : Confirmation)
      → c ≢ no_group
      → ((d : Db) → c ≢ confirmed_group d)
      → AccountsFor a i before (conclude a before existing paid c)
  unfolding conclude
  unpaid-Accounts existing paid (failed e) there never = refl
  unpaid-Accounts existing paid no_group there never = absurd (there refl)
  unpaid-Accounts existing paid (confirmed_group d) there never = absurd (never d refl)

  -- The reference is that of a payment of the intent which is not captured.
  idle-Accounts :
      (paid : Db) (tx at : ℕ)
      → is_null (find_cita i.id_cita paid.citas) ≡ false
      → find_captured a.id_intent paid.payments ≡ none
      → AccountsFor a i before (after_insert o now a i before tx at false (some paid))
  unfolding after_insert
  idle-Accounts paid tx at there none_yet =
      unpaid-Accounts false paid _
        (confirm_group-anchored o i.id_cita a.id_grupo a.id_intent (some tx) at paid paid there)
        (λ d e.
          not_null none_yet
            (confirm_group-Confirms o i.id_cita a.id_grupo a.id_intent (some tx) at paid d
              e).captured)

  inserted-Charged :
      (uuid at : ℕ) (priced : Db)
      → priced.payments ≡ before.payments
      → group_total a.id_grupo priced ≡ a.expected_amount
      → a.payment_uuid ≡ some uuid
      → find_captured a.id_intent before.payments ≡ none
      → find_transaction uuid before.payments ≡ none
      → Charged a.id_grupo a.id_intent i before
          (record priced { payments = payment_of a uuid at ∷ priced.payments })
  inserted-Charged uuid at priced same total given none_yet fresh = record {
    payment = payment_of a uuid at;
    added = ap (λ ps. payment_of a uuid at ∷ ps) same;
    of_intent = refl;
    captured = refl;
    amount = amount;
    price = total ∙ amount;
    stored = sym own ∙ given;
    first = none_yet;
    fresh = fresh;
  }

  new-Accounts :
      (uuid tx at : ℕ) (priced : Db) (t : Option Payment)
      → find_transaction uuid before.payments ≡ t
      → priced.payments ≡ before.payments
      → is_null (find_cita i.id_cita priced.citas) ≡ false
      → group_total a.id_grupo priced ≡ a.expected_amount
      → a.payment_uuid ≡ some uuid
      → find_captured a.id_intent before.payments ≡ none
      → AccountsFor a i before
          (after_insert o now a i before tx at false (insert_found a uuid at priced t))
  new-Accounts uuid tx at priced none e same there total given none_yet =
      finish-Accounts false _ tx at there
        (inserted-Charged uuid at priced same total given none_yet e)
  new-Accounts uuid tx at priced (some p) e same there total given none_yet =
      elim (Bool-cases (p.id_intent == a.id_intent)) [
        | inl mine ↦
            rw mine
              (idle-Accounts priced tx at there (ap (find_captured a.id_intent) same ∙ none_yet))
        | inr other ↦ rw other (unfold after_insert in refl)
      ]

  capture-Accounts :
      (priced : Db) (at : ℕ) (existing : Bool) (uuid tx : Option ℕ)
      → a.payment_uuid ≡ uuid
      → priced.payments ≡ before.payments
      → is_null (find_cita i.id_cita priced.citas) ≡ false
      → group_total a.id_grupo priced ≡ a.expected_amount
      → (existing ≡ false → find_captured a.id_intent before.payments ≡ none)
      → AccountsFor a i before (capture o now a i before priced at existing uuid tx)
  unfolding capture insert_payment
  capture-Accounts priced at existing none tx given same there total free = same
  capture-Accounts priced at existing (some uuid) none given same there total free = same
  capture-Accounts priced at true (some uuid) (some tx) given same there total free =
      finish-Accounts true priced tx at there same
  capture-Accounts priced at false (some uuid) (some tx) given same there total free =
      new-Accounts uuid tx at priced (find_transaction uuid priced.payments)
        (sym (ap (find_transaction uuid) same)) same there total given (free refl)

  with_prices-Accounts :
      (at : ℕ) (existing : Bool) (citas : Option (List Cita))
      → ((cs : List Cita) → citas ≡ some cs → is_null (find_cita i.id_cita cs) ≡ false)
      → (existing ≡ false → find_captured a.id_intent before.payments ≡ none)
      → AccountsFor a i before (with_prices o now a i before at existing citas)
  unfolding with_prices
  with_prices-Accounts at existing none there free = refl
  with_prices-Accounts at existing (some cs) there free =
      elim (Bool-cases
        (group_total a.id_grupo (record before { citas = cs }) == a.expected_amount)) [
          | inl same ↦ rw same (
              capture-Accounts (record before { citas = cs }) at existing a.payment_uuid
                a.transaction_id refl refl (there cs refl) (==→eq _ _ same) free)
          | inr changed ↦ rw changed refl
        ]

  module _ (anchored : is_null (find_cita i.id_cita before.citas) ≡ false) where
    at_instant-Accounts :
        (existing : Bool) (t : Option ℕ)
        → (existing ≡ false → find_captured a.id_intent before.payments ≡ none)
        → AccountsFor a i before (at_instant o now a i before existing t)
    unfolding at_instant
    at_instant-Accounts existing none free = refl
    at_instant-Accounts existing (some at) free =
        with_prices-Accounts at existing (repriced o.price a.id_grupo before.citas)
          (λ cs e. repriced-SamePlace o.price a.id_grupo i.id_cita before.citas cs e ∙ anchored)
          free

    on_existing-Accounts :
        (p : Option Payment)
        → find_captured a.id_intent before.payments ≡ p
        → AccountsFor a i before (on_existing o now a i before p)
    unfolding on_existing
    on_existing-Accounts none e =
        ground (arith, at_instant-Accounts false (paid_instant a now i before) (λ _. e))
    on_existing-Accounts (some p) e =
        ground (arith, at_instant-Accounts true (paid_instant a now i before) (λ x. absurd (tf x)))

    on_payments-Accounts : AccountsFor a i before (on_payments o now a i before)
    unfolding on_payments
    on_payments-Accounts = elim (Bool-cases (is_taken a.id_intent (owner a.payment_uuid before))) [
      | inl taken ↦ rw taken refl
      | inr free ↦ rw free (on_existing-Accounts (find_captured a.id_intent before.payments) refl)
    ]

module _ (o : Outside) (now : ℕ) (a : Paid) (db : Db) where
  abbrev approval : Intent → Option ℕ
  approval i =
      durable_approval i.id_intent i.id_grupo_cita
        (hold_expiries (holds_of (group_citas a.id_grupo db))) db

  recover-Accounts :
      (i : Intent)
      → a.expected_amount ≡ i.monto
      → a.payment_uuid ≡ i.provider_session_id
      → is_null (find_cita i.id_cita db.citas) ≡ false
      → AccountsFor a i db (recover o now a i db)
  unfolding recover
  recover-Accounts i amount own there = elim (Bool-cases (may_recover a i db)) [
    | inr no' ↦ rw no' refl
    | inl ready ↦ elim (Option-cases (approval i)) [
      | inl unproved ↦ rw (ready, unproved) refl
      | inr (t, proved) ↦
          rw (ready, proved)
            (on_payments-Accounts o now
              (record a { paid_at = some t; allow_expired_recovery = true }) i db amount own there)
    ]
  ]

module _ (o : Outside) (now : ℕ) (a : Paid) (db : Db) where
  found-Accounts :
      (i : Intent)
      → is_null (find_cita i.id_cita db.citas) ≡ false
      → AccountsFor a i db (with_intent o now a db (some i))
  found-Accounts i there =
      with_intent-rule o now a db i (AccountsFor a i db) (λ e. refl)
        (recover-Accounts o now (own_references a i) db i refl refl there)
        (λ amount own. on_payments-Accounts o now a i db amount own there)

-- Where the intent names an appointment that is there: the payments stay as they are, but where the
-- answer is that the payment was processed. Then one payment is new: it is captured, of the intent, for
-- its amount, which is what the appointments of the group cost, under the reference that the intent has
-- stored. The intent had no captured payment before, and no payment had that reference.
pub reconcile-Accounts :
    (o : Outside) (now : ℕ) (a : Paid) (db : Db) (i : Intent)
    → find_intent a.id_intent db.intents ≡ some i
    → is_null (find_cita i.id_cita db.citas) ≡ false
    → Accounts a.id_grupo a.id_intent i db (reconcile o now a db).answer (reconcile o now a db).db
unfolding reconcile
reconcile-Accounts o now a db i known there =
    elim (Bool-cases (o.admitted && not (is_empty (group_citas a.id_grupo db)))) [
      | inr out ↦ rw out refl
      | inl in' ↦ rw (in', known) (found-Accounts o now a db i there)
    ]
