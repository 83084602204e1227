-- ===== src/Payments/Confirmation/Outcome.antt =====
-- What a confirmation that succeeds has found and written.
use masterfadebackend.Prelude.{
  ℕ, ◌≡◌, ◌≢◌, refl, sym, ap, ◌∙◌, inl, inr, List, [], ◌∷◌, map, Option, none, some, true, false,
  arith, ◌==◌, filter, sum_by, Bool-cases, Option-cases, eq→==,
}
use masterfadebackend.Security.Sessions.{is_null}
use masterfadebackend.Payments.{
  Intent, Cita, Db, is_confirmado, find_intent, find_cita, find_captured, of_group, group_total,
}
use masterfadebackend.Payments.Confirmation.{
  Outside, PaymentError, canonical_rejected, intent_group_mismatch, payment_not_confirmed, failed,
  no_group, confirmed_group, confirm_intent, confirm_cita, confirmed_db, may_confirm,
  canonical_confirm, after_canonical, confirm_found, confirm_anchor, confirm_group_after_paid,
}

total-confirm_cita :
    (group h : ℕ) (c : Cita) (cs : List Cita)
    → sum_by (λ x. x.total_pagar) (filter (of_group group) (confirm_cita h c ∷ cs))
      ≡ sum_by (λ x. x.total_pagar) (filter (of_group group) (c ∷ cs))
unfolding confirm_cita
total-confirm_cita group h c cs = elim (Bool-cases (of_group h c)) [
  | inl e ↦ rw e ground arith
  | inr e ↦ rw e refl
]

total-cons :
    (group : ℕ) (c : Cita) (cs ds : List Cita)
    → sum_by (λ x. x.total_pagar) (filter (of_group group) cs)
      ≡ sum_by (λ x. x.total_pagar) (filter (of_group group) ds)
    → sum_by (λ x. x.total_pagar) (filter (of_group group) (c ∷ cs))
      ≡ sum_by (λ x. x.total_pagar) (filter (of_group group) (c ∷ ds))
total-cons group c cs ds e = ground arith

totals-confirm_cita :
    (group h : ℕ) (cs : List Cita)
    → sum_by (λ x. x.total_pagar) (filter (of_group group) (map (confirm_cita h) cs))
      ≡ sum_by (λ x. x.total_pagar) (filter (of_group group) cs)
totals-confirm_cita group h [] = refl
totals-confirm_cita group h (c ∷ cs) =
    total-confirm_cita group h c (map (confirm_cita h) cs)
    ∙ total-cons group c _ cs (totals-confirm_cita group h cs)

-- The totals of the appointments are not touched.
pub group_total-confirmed_db :
    (group : ℕ) (i : Intent) (reference : Option ℕ) (db : Db)
    → group_total group (confirmed_db i reference db) ≡ group_total group db
unfolding confirmed_db
group_total-confirmed_db group i reference db = totals-confirm_cita group i.id_grupo_cita db.citas

pub find_intent-id :
    (id : ℕ) (is : List Intent) (i : Intent) → find_intent id is ≡ some i → i.id_intent ≡ id
find_intent-id id [] i e = cc
find_intent-id id (j ∷ js) i e = elim (Bool-cases (j.id_intent == id)) [
  | inl h ↦ (let same : some j ≡ some i = rw h at e in ground arith)
  | inr h ↦ find_intent-id id js i (rw h at e)
]

confirm_intent-id :
    (id : ℕ) (r : Option ℕ) (j : Intent) → (confirm_intent id r j).id_intent ≡ j.id_intent
unfolding confirm_intent
confirm_intent-id id r j = ground arith

confirm_intent-same :
    (id : ℕ) (r : Option ℕ) (j : Intent)
    → (j.id_intent == id) ≡ true
    → is_confirmado (confirm_intent id r j).estado ≡ true
unfolding confirm_intent
confirm_intent-same id r j e = rw e refl

abbrev pub map_intent : (Intent → Intent) → Option Intent → Option Intent
map_intent f none = none
map_intent f (some i) = some (f i)

find-here :
    (id : ℕ) (j : Intent) (js : List Intent)
    → (j.id_intent == id) ≡ true
    → find_intent id (j ∷ js) ≡ some j
find-here id j js e = ground arith

find-next :
    (id : ℕ) (j : Intent) (js : List Intent)
    → (j.id_intent == id) ≡ false
    → find_intent id (j ∷ js) ≡ find_intent id js
find-next id j js e = ground arith

-- A change of the rows that keeps their ids changes the row that is found.
pub find_intent-map :
    (f : Intent → Intent)
    → ((j : Intent) → (f j).id_intent ≡ j.id_intent)
    → (id : ℕ) (is : List Intent) → find_intent id (map f is) ≡ map_intent f (find_intent id is)
find_intent-map f keep id [] = refl
find_intent-map f keep id (j ∷ js) =
    let kept : ((f j).id_intent == id) ≡ (j.id_intent == id) = ap (λ n. n == id) (keep j) in
    elim (Bool-cases (j.id_intent == id)) [
      | inl h ↦
          find-here id (f j) (map f js) (kept ∙ h) ∙ sym (ap (map_intent f) (find-here id j js h))
      | inr h ↦
          find-next id (f j) (map f js) (kept ∙ h)
          ∙ find_intent-map f keep id js
          ∙ sym (ap (map_intent f) (find-next id j js h))
    ]

-- Afterwards the intent is confirmed.
pub confirmed_db-intent :
    (id : ℕ) (i : Intent) (reference : Option ℕ) (db : Db)
    → find_intent id db.intents ≡ some i
    → (j : Intent) × (find_intent id (confirmed_db i reference db).intents ≡ some j)
      × (is_confirmado j.estado ≡ true)
unfolding confirmed_db
confirmed_db-intent id i reference db e = elim (Bool-cases (is_confirmado i.estado)) [
  | inl done ↦ (i, rw done e, done)
  | inr fresh ↦ (
    confirm_intent i.id_intent reference i,
    rw fresh (
        find_intent-map (confirm_intent i.id_intent reference)
          (confirm_intent-id i.id_intent reference) id db.intents
        ∙ ap (map_intent (confirm_intent i.id_intent reference)) e),
    confirm_intent-same i.id_intent reference i (eq→== i.id_intent i.id_intent refl),
  )
]

-- The intent that a successful confirmation has found, and the rows that it leaves.
pub record Confirms (id : ℕ) (reference : Option ℕ) (db after : Db) : Type 0 where
  pub intent : Intent
  pub found : find_intent id db.intents ≡ some intent
  pub captured : is_null (find_captured id db.payments) ≡ false
  pub written : after ≡ confirmed_db intent reference db

refusal : (e : PaymentError) (after : Db) → failed e ≢ confirmed_group after
refusal e after h = cc

missing : (after : Db) → no_group ≢ confirmed_group after
missing after h = cc

written_one : (a b : Db) → confirmed_group a ≡ confirmed_group b → b ≡ a
written_one a b e = cc

rest-writes :
    (o : Outside) (db after : Db) → after_canonical o (some db) ≡ confirmed_group after → after ≡ db
rest-writes o db after e = elim (Bool-cases o.rest_succeeds) [
  | inl ok ↦ written_one db after (rw ok at e)
  | inr bad ↦ absurd (refusal canonical_rejected after (rw bad at e))
]

canonical_confirm-writes :
    (o : Outside) (i : Intent) (reference : Option ℕ) (at : ℕ) (db after : Db)
    → after_canonical o (canonical_confirm o i reference at db) ≡ confirmed_group after
    → after ≡ confirmed_db i reference db
unfolding canonical_confirm
canonical_confirm-writes o i reference at db after e = elim (Bool-cases (may_confirm o i at db)) [
  | inl ok ↦ rest-writes o (confirmed_db i reference db) after (rw ok at e)
  | inr bad ↦ absurd (refusal canonical_rejected after (rw bad at e))
]

module _ (o : Outside) (anchor group id : ℕ) (reference : Option ℕ) (at : ℕ) (db after : Db) where
  found-Confirms :
      (i : Intent)
      → find_intent id db.intents ≡ some i
      → confirm_found o anchor group reference at db (some i) ≡ confirmed_group after
      → Confirms id reference db after
  found-Confirms i known e = elim (Bool-cases (i.id_cita == anchor)) [
    | inr other ↦ absurd (refusal intent_group_mismatch after (rw other at e))
    | inl mine ↦ elim (Bool-cases (is_null (find_captured i.id_intent db.payments))) [
      | inl unpaid ↦ absurd (refusal payment_not_confirmed after (rw (mine, unpaid) at e))
      | inr paid ↦ record {
        intent = i;
        found = known;
        captured =
            ap (λ k. is_null (find_captured k db.payments))
              (sym (find_intent-id id db.intents i known))
            ∙ paid;
        written = canonical_confirm-writes o i reference at db after (rw (mine, paid) at e);
      }
    ]
  ]

  anchor-Confirms :
      (c : Option Cita)
      → confirm_anchor o anchor group id reference at db c ≡ confirmed_group after
      → Confirms id reference db after
  anchor-Confirms none e = absurd (missing after e)
  anchor-Confirms (some c) e = elim (Bool-cases (c.id_grupo_cita == group)) [
    | inr other ↦ absurd (refusal intent_group_mismatch after (rw other at e))
    | inl same ↦ elim (Option-cases (find_intent id db.intents)) [
      | inl none' ↦ absurd (refusal intent_group_mismatch after (rw (same, none') at e))
      | inr (i, known) ↦ found-Confirms i known (rw (same, known) at e)
    ]
  ]

  pub confirm_group-Confirms :
      confirm_group_after_paid o anchor group id reference at db ≡ confirmed_group after
      → Confirms id reference db after
  unfolding confirm_group_after_paid
  confirm_group-Confirms e = anchor-Confirms (find_cita anchor db.citas) e

  found-ne : (i : Option Intent) → confirm_found o anchor group reference at db i ≢ no_group
  found-ne none e = cc
  found-ne (some i) e = elim (Option-cases (canonical_confirm o i reference at db)) [
    | inl no' ↦ ground arith
    | inr (d, ok) ↦ ground arith
  ]

  -- A confirmation that finds the appointment of the intent never ends without a group.
  pub confirm_group-anchored :
      is_null (find_cita anchor db.citas) ≡ false
      → confirm_group_after_paid o anchor group id reference at db ≢ no_group
  unfolding confirm_group_after_paid
  confirm_group-anchored there e = elim (Option-cases (find_cita anchor db.citas)) [
    | inl gone ↦ ground arith
    | inr (c, here) ↦ elim (Bool-cases (c.id_grupo_cita == group)) [
      | inl same ↦ found-ne (find_intent id db.intents) (rw (here, same) at e)
      | inr other ↦
          (let wrong : failed intent_group_mismatch ≡ no_group = rw (here, other) at e in cc)
    ]
  ]
