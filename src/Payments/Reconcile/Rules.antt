-- ===== src/Payments/Reconcile/Rules.antt =====
-- How a predicate on the outcome follows through the guards of `reconcilePixelPayPaid`.
use masterfadebackend.Prelude.{
  ℕ, ◌≡◌, refl, sym, inl, inr, Option, none, some, Bool, true, false, not, arith, ◌==◌, Bool-cases,
}
use masterfadebackend.Payments.{Intent, Db}
use masterfadebackend.Payments.Confirmation.{Outside, PaymentError}
use masterfadebackend.Payments.Reconcile.{
  Paid, refused, Reconciled, answered, checked, check_uuid, own_references, on_payments, recover,
  with_intent,
}

pub ==→eq : (x y : ℕ) → (x == y) ≡ true → x ≡ y
==→eq x y e = ground arith

not-false : (b : Bool) → not b ≡ false → b ≡ true
not-false b e = ground arith

check_uuid-eq : (s r : Option ℕ) → check_uuid s r ≡ none → r ≡ s
check_uuid-eq none r e = cc
check_uuid-eq (some s) none e = cc
check_uuid-eq (some s) (some r) e = ground arith

module _ (o : Outside) (now : ℕ) (a : Paid) (db : Db) (i : Intent) (P : Reconciled → Type 0)
    (refusals : (e : PaymentError) → P (answered db (refused e))) where
  checked-rule : (e : Option PaymentError) (r : Reconciled) → (e ≡ none → P r) → P (checked db e r)
  checked-rule none r h = h refl
  checked-rule (some e) r h = refusals e

  -- Past the guards, the intent is the recovery's, or has the amount and the reference asked for.
  pub with_intent-rule :
      P (recover o now (own_references a i) i db)
      → (a.expected_amount ≡ i.monto
          → a.payment_uuid ≡ i.provider_session_id
          → P (on_payments o now a i db))
      → P (with_intent o now a db (some i))
  unfolding with_intent
  with_intent-rule recovered direct = elim (Bool-cases (not (i.id_grupo_cita == a.id_grupo))) [
    | inl group ↦ rw group (refusals _)
    | inr group ↦ elim (Bool-cases (not i.is_pixelpay)) [
      | inl provider ↦ rw (group, provider) (refusals _)
      | inr provider ↦ elim (Bool-cases (not i.is_hnl)) [
        | inl currency ↦ rw (group, provider, currency) (refusals _)
        | inr currency ↦ elim (Bool-cases a.from_durable_approval) [
          | inl own ↦ rw (group, provider, currency, own) (rw own at recovered)
          | inr called ↦ elim (Bool-cases (not (i.monto == a.expected_amount))) [
            | inl amount ↦ rw (group, provider, currency, called, amount) (refusals _)
            | inr amount ↦
                rw (group, provider, currency, called, amount)
                  (checked-rule (check_uuid i.provider_session_id a.payment_uuid) _ (λ same.
                    rw called at
                      (direct (sym (==→eq _ _ (not-false _ amount))) (check_uuid-eq _ _ same))))
          ]
        ]
      ]
    ]
  ]
