-- ===== src/Payments/Sale/Charges.antt =====
-- The provider is called at most once for an intent.
use masterfadebackend.Prelude.{
  ℕ, ◌+◌, ◌≤◌, ◌≡◌, refl, sym, ap, ◌∙◌, inl, inr, List, [], ◌∷◌, map, Option, none, some, Bool,
  true, false, ◌&&◌, not, arith, ◌==◌, Bool-cases, eq→==, if◌then◌else◌,
}
use masterfadebackend.Security.Sessions.{is_null}
use masterfadebackend.Payments.{Intent, Cita, Db, is_link, find_intent, group_total, group_rows}
use masterfadebackend.Payments.Group.{is_payable, group_expires_at, activate}
use masterfadebackend.Payments.Confirmation.{Outside}
use masterfadebackend.Payments.Confirmation.Outcome.{map_intent, find_intent-map}
use masterfadebackend.Payments.Expiry.{lapse_intent, expire_stale}
use masterfadebackend.Payments.Sale.{
  SaleRequest, sale_refused, already_paid, Start, started, claim_intent, may_protect,
  protected_until, prolong_cita, protect, protected_sale, start_found, start_priced, start_sale,
}
use masterfadebackend.Payments.Reconcile.Rules.{==→eq}
use masterfadebackend.Payments.Reconcile.Closing.{reconcile-closes}
use masterfadebackend.Payments.Open.{
  is_open, open_row, open_of, open_row-le, Closes, open_of-map, claim_intent-Closes,
}
use masterfadebackend.Payments.Reconcile.{is_reference}
use masterfadebackend.Payments.Sale.Status.{
  StatusRequest, ProviderStatus, Checked, is_checkable, ask_status, status_found, check_status,
}
use masterfadebackend.Payments.Sale.Operations.{
  check, Operation, create, link, start, finish, pay, expire, after, claims, calls, charges,
}
use masterfadebackend.Payments.Sale.Closing.{linked-closes, create-closes, finish-closes}

claimed-intent :
    (id until : ℕ) (i : Intent)
    → (i.id_intent == id) ≡ true
    → is_link i.estado ≡ true
    → open_row (some (claim_intent id until i)) ≡ 0
unfolding claim_intent
claimed-intent id until i same link' = rw (same, link') refl

shut-open : (i : Intent) → is_open i.estado ≡ false → open_row (some i) ≡ 0
shut-open i e = rw e refl

link-open : (i : Intent) → is_link i.estado ≡ true → open_row (some i) ≡ 1
link-open i e = ground arith

-- The claim of an intent takes what was open of it.
claim-closes :
    (id request until : ℕ) (i : Intent) (is : List Intent)
    → find_intent request is ≡ some i
    → is_link i.estado ≡ true
    → (if request == id then 1 else 0)
        + open_row (find_intent id (map (claim_intent i.id_intent until) is))
      ≤ open_row (find_intent id is)
claim-closes id request until i is known link' = elim (Bool-cases (request == id)) [
  | inr other ↦
      rw other (omega (arith, open_of-map _ (claim_intent-Closes i.id_intent until) id is))
  | inl mine ↦
      let here : find_intent id is ≡ some i =
        ap (λ k. find_intent k is) (sym (==→eq request id mine)) ∙ known in
      let moved : find_intent id (map (claim_intent i.id_intent until) is)
          ≡ some (claim_intent i.id_intent until i) =
        find_intent-map (claim_intent i.id_intent until)
          ((claim_intent-Closes i.id_intent until).keeps) id is
        ∙ ap (map_intent (claim_intent i.id_intent until)) here in
      rw (mine, moved, here)
        (omega (
          arith,
          claimed-intent i.id_intent until i (eq→== i.id_intent i.id_intent refl) link',
          link-open i link',
        ))
]

-- What an answer to a sale claims and what it leaves open.
record Takes (id : ℕ) (db : Db) (s : Start) : Type 0 where
  le : claims id s.answer + open_of id s.db ≤ open_of id db

untouched : (id : ℕ) (db after : Db) → after.intents ≡ db.intents → open_of id after ≤ open_of id db
untouched id db after e = ground (arith, ap (find_intent id) e)

refused-Takes : (id : ℕ) (db : Db) → Takes id db (started db sale_refused)
refused-Takes id db = record { le = unfold claims in omega arith }

and_second : (a b c : Bool) → (a && b && c) ≡ true → b ≡ true
and_second a b c e = ground arith

protected-Takes :
    (id now : ℕ) (r : SaleRequest) (total : ℕ) (citas : List Cita) (db : Db) (i : Intent)
    → find_intent r.id_intent db.intents ≡ some i
    → Takes id db
        (protected_sale r total db (protect now r.grace r i (record db { citas = citas })))
unfolding protect claims
protected-Takes id now r total citas db i known =
    elim (Bool-cases (may_protect now r i (record db { citas = citas }))) [
      | inr no' ↦ rw no' (refused-Takes id db)
      | inl ok ↦ rw ok (record {
        le =
            claim-closes id r.id_intent
              (protected_until r.id_grupo (map (prolong_cita r.id_grupo (now + r.grace)) citas)) i
              db.intents known (unfold may_protect in ground arith);
      })
    ]

paid-Takes :
    (id : ℕ) (db : Db) (citas : List Cita)
    → Takes id db (started (record db { citas = citas }) already_paid)
paid-Takes id db citas = record { le = unfold claims in omega arith }

branch :
    (id : ℕ) (db : Db) (b : Bool) (s t : Start)
    → Takes id db s
    → Takes id db t
    → Takes id db (if b then s else t)
branch id db true s t x y = x
branch id db false s t x y = y

found-Takes :
    (id now : ℕ) (r : SaleRequest) (citas : List Cita) (db : Db) (i : Option Intent)
    → find_intent r.id_intent db.intents ≡ i
    → Takes id db (start_found now r db (record db { citas = citas }) i)
unfolding start_found
found-Takes id now r citas db none known = refused-Takes id db
found-Takes id now r citas db (some i) known =
    let total = group_total r.id_grupo (record db { citas = citas }) in
    branch id db _ (started db sale_refused) _ (refused-Takes id db) (
      branch id db _ (started (record db { citas = citas }) already_paid) _ (paid-Takes id db citas)
        (branch id db _ (started db sale_refused) _ (refused-Takes id db)
          (protected-Takes id now r total citas db i known)))

priced-Takes :
    (id now : ℕ) (r : SaleRequest) (db : Db) (citas : Option (List Cita))
    → Takes id db (start_priced now r db citas)
priced-Takes id now r db none = refused-Takes id db
priced-Takes id now r db (some citas) =
    found-Takes id now r citas db (find_intent r.id_intent db.intents) refl

start-Takes :
    (id : ℕ) (o : Outside) (now : ℕ) (r : SaleRequest) (db : Db)
    → Takes id db (start_sale o now r db)
unfolding start_sale
start-Takes id o now r db =
    elim (Bool-cases (
      o.admitted
      && is_payable (group_rows r.id_grupo db)
      && not (is_null (group_expires_at now (group_rows r.id_grupo db))))) [
        | inl in' ↦ rw in' (priced-Takes id now r db _)
        | inr out ↦ rw out (refused-Takes id db)
      ]

lapse_intent-Closes : (now : ℕ) (cs : List Cita) → Closes (lapse_intent now cs)
unfolding lapse_intent
lapse_intent-Closes now cs = record { keeps = λ i. ground arith; opens = λ i h. ground arith }

check-closes :
    (id : ℕ) (o : Outside) (now : ℕ) (r : StatusRequest) (db : Db) (s : Option ProviderStatus)
    → open_of id (check_status o now r db s).db ≤ open_of id db
unfolding check_status
check-closes id o now r db s =
    keep o.admitted _ _ (found (find_intent r.id_intent db.intents) s) (omega arith)
  where
    keep :
        (b : Bool) (x y : Checked)
        → open_of id x.db ≤ open_of id db
        → open_of id y.db ≤ open_of id db
        → open_of id (if b then x else y).db ≤ open_of id db
    keep true x y p q = p
    keep false x y p q = q

    asked :
        (i : Intent) (uuid : Option ℕ) (s : Option ProviderStatus)
        → open_of id (ask_status o now r db i uuid s).db ≤ open_of id db
    asked i none s = omega arith
    asked i (some uuid) none = omega arith
    asked i (some uuid) (some s) =
        keep (not (is_reference uuid s.payment_uuid)) _ _ (omega arith)
          (keep (not s.is_paid) _ _ (omega arith) (reconcile-closes o now _ db id))

    found :
        (i : Option Intent) (s : Option ProviderStatus)
        → open_of id (status_found o now r db i s).db ≤ open_of id db
    found none s = omega arith
    found (some i) s =
        keep (is_checkable r db i) _ _ (asked i i.provider_session_id s) (omega arith)

operation-closes :
    (id : ℕ) (op : Operation) (db : Db) → calls id op db + open_of id (after op db) ≤ open_of id db
unfolding calls after
operation-closes id (create o now n) db = omega (arith, create-closes id o now n db)
operation-closes id (link now group intent order) db =
    unfold activate in
    omega (arith, linked-closes id now group intent order db (find_intent intent db.intents))
operation-closes id (start o now r) db = (start-Takes id o now r db).le
operation-closes id (finish o now recorded c found result) db =
    omega (arith, finish-closes id o now recorded c found result db)
operation-closes id (pay o now a) db = omega (arith, reconcile-closes o now a db id)
operation-closes id (check o now r s) db = omega (arith, check-closes id o now r db s)
operation-closes id (expire now) db =
    unfold expire_stale in
    omega (
      arith,
      open_of-map (lapse_intent now db.citas) (lapse_intent-Closes now db.citas) id db.intents,
    )

charges-le : (id : ℕ) (ops : List Operation) (db : Db) → charges id ops db ≤ open_of id db
unfolding charges
charges-le id [] db = omega arith
charges-le id (op ∷ ops) db =
    omega (arith, operation-closes id op db, charges-le id ops (after op db))

-- Whatever operations come, in whatever order, with whatever answers of the provider and of the
-- promotions, the provider is called at most once for an intent; and it is not called at all for one
-- that is neither created nor linked.
pub charges_once :
    (id : ℕ) (ops : List Operation) (db : Db)
    → (charges id ops db ≤ 1)
      × ((i : Intent)
          → find_intent id db.intents ≡ some i
          → is_open i.estado ≡ false
          → charges id ops db ≡ 0)
charges_once id ops db = (
  omega (arith, charges-le id ops db, open_row-le (find_intent id db.intents)),
  λ i known shut. omega (arith, charges-le id ops db, ap open_row known, shut-open i shut),
)
