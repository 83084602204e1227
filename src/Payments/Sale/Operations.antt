-- ===== src/Payments/Sale/Operations.antt =====
-- The operations on the payments of the reservations, in any order, and the calls of the provider among them.
use masterfadebackend.Prelude.{ℕ, ◌+◌, List, [], ◌∷◌, Option, none, some, Bool, ◌==◌, if◌then◌else◌}
use masterfadebackend.Payments.{Attempt, Db}
use masterfadebackend.Payments.Group.{activate}
use masterfadebackend.Payments.Intents.{NewIntent, create_intent}
use masterfadebackend.Payments.Confirmation.{Outside}
use masterfadebackend.Payments.Expiry.{expire_stale}
use masterfadebackend.Payments.Sale.Status.{StatusRequest, ProviderStatus, check_status}
use masterfadebackend.Payments.Sale.{
  SaleRequest, Claim, Started, sale_refused, already_paid, claimed, start_sale,
}
use masterfadebackend.Payments.Sale.Finish.{SaleResult, finish_sale}
use masterfadebackend.Payments.Reconcile.{Paid, reconcile}

-- An operation on the payments of the reservations; they may come in any order. `finish` may come for any
-- claim, and `pay` stands for the recoveries.
pub data Operation : Type 0 where
  create : Outside → ℕ → NewIntent → Operation
  link : ℕ → (group id order : ℕ) → Operation
  start : Outside → ℕ → SaleRequest → Operation
  finish : Outside → ℕ → Bool → Claim → Attempt → SaleResult → Operation
  pay : Outside → ℕ → Paid → Operation
  expire : ℕ → Operation
  check : Outside → ℕ → StatusRequest → Option ProviderStatus → Operation

unfoldable pub linked : Db → Option Db → Db
linked db none = db
linked db (some d) = d

unfoldable pub after : Operation → Db → Db
unfolding linked
after (create o now n) db = create_intent o now n db
after (link now group id order) db = linked db (activate now group id order db)
after (start o now r) db = (start_sale o now r db).db
after (finish o now recorded c found result) db = finish_sale o now recorded c found result db
after (pay o now a) db = (reconcile o now a db).db
after (expire now) db = expire_stale now db
after (check o now r s) db = (check_status o now r db s).db

unfoldable pub claims : ℕ → Started → ℕ
claims id sale_refused = 0
claims id already_paid = 0
claims id (claimed c) = if c.id_intent == id then 1 else 0

-- The calls of the provider for the intent in one operation.
unfoldable pub calls : ℕ → Operation → Db → ℕ
unfolding claims
calls id (start o now r) db = claims id (start_sale o now r db).answer
calls id _ db = 0

-- The calls of the provider for the intent, one operation after the other.
unfoldable pub charges : ℕ → List Operation → Db → ℕ
unfolding calls after
charges id [] db = 0
charges id (op ∷ ops) db = calls id op db + charges id ops (after op db)
