-- ===== src/Deletion/Account.antt =====
-- The rows of a client's account, and the statements of `executeClientAccountDeletionInternal` that close
-- it. A table is the list of its rows; the instants of their last change are left out.
use masterfadebackend.Prelude.{
  ℕ, ◌+◌, ◌-◌, List, [], ◌∷◌, map, Option, none, some, Bool, true, false, ◌&&◌, not, ltb, leb, ◌==◌,
  any, sum_by, if◌then◌else◌,
}
use masterfadebackend.Security.Sessions.{revocada, eliminacion_cuenta, Session, coalesce, is_activa}
use masterfadebackend.Deletion.{Request}

pub data SubscriptionState : Type 0 where
  suscripcion_activa pendiente_renovacion suscripcion_cancelada : SubscriptionState
  other_subscription_state : ℕ → SubscriptionState

pub record Subscription : Type 0 where
  pub id_cliente : ℕ
  pub estado_suscripcion_codigo : SubscriptionState
  pub renovacion_auto : Bool
  pub cancelada_al_fin : Bool

pub record PurchaseOrder : Type 0 where
  pub id_cliente : ℕ
  pub pendiente_pago : Bool
  pub cancelled_at : Option ℕ

-- `ajuste_resta` tells the transactions whose points count as taken.
pub record PointsTransaction : Type 0 where
  pub id_cliente : ℕ
  pub ajuste_resta : Bool
  pub puntos : ℕ
  pub id_cycle : Option ℕ

pub record PointsCycle : Type 0 where
  pub id_cycle : ℕ
  pub id_cliente : ℕ
  pub activo : Bool
  pub vence_at : Option ℕ

pub record UserRole : Type 0 where
  pub id_usuario : ℕ
  pub activo : Bool

pub record UserRow : Type 0 where
  pub id_usuario : ℕ
  pub id_persona : ℕ
  pub estado : Bool
  pub acceso_inactivo : Bool
  pub password_hash : Option ℕ
  pub deleted_at : Option ℕ

pub record ClientRow : Type 0 where
  pub id_cliente : ℕ
  pub id_persona : ℕ
  pub id_usuario : ℕ
  pub estado : Bool
  pub consentimiento_marketing : Bool
  pub consentimiento_marketing_at : Option ℕ
  pub anonimizado : Bool
  pub deleted_at : Option ℕ

pub data AssetStatus : Type 0 where
  temporal activo reemplazado fallido eliminado : AssetStatus

-- A file of the account. `quarantined_for` and `deleted_for` are the request ids in its metadata, and
-- `anonymous_path` tells that its path was replaced by the one of a deleted file.
pub record StorageAsset : Type 0 where
  pub id_asset : ℕ
  pub status : AssetStatus
  pub deleted_at : Option ℕ
  pub public_url : Option ℕ
  pub owner_user_id : Option ℕ
  pub owner_cliente_id : Option ℕ
  pub entity_id : Option ℕ
  pub quarantined_for : Option ℕ
  pub deleted_for : Option ℕ
  pub anonymous_path : Bool

pub record Account : Type 0 where
  pub subscriptions : List Subscription
  pub orders : List PurchaseOrder
  pub points : List PointsTransaction
  pub cycles : List PointsCycle
  pub sessions : List Session
  pub roles : List UserRole
  pub users : List UserRow
  pub clients : List ClientRow
  pub assets : List StorageAsset

abbrev pub is_current : SubscriptionState → Bool
is_current suscripcion_activa = true
is_current pendiente_renovacion = true
is_current suscripcion_cancelada = false
is_current (other_subscription_state n) = false

abbrev pub is_running : ℕ → Subscription → Bool
is_running client x = x.id_cliente == client && is_current x.estado_suscripcion_codigo

unfoldable pub cancel_subscription : ℕ → Subscription → Subscription
cancel_subscription client x =
    if is_running client x
    then record x {
      estado_suscripcion_codigo = suscripcion_cancelada;
      renovacion_auto = false;
      cancelada_al_fin = false;
    }
    else x

unfoldable pub cancel_order : ℕ → ℕ → PurchaseOrder → PurchaseOrder
cancel_order now client x =
    if x.id_cliente == client && x.pendiente_pago
    then record x { pendiente_pago = false; cancelled_at = some (coalesce x.cancelled_at now) }
    else x

unfoldable pub close_cycle : ℕ → PointsCycle → PointsCycle
close_cycle client x = if x.id_cliente == client then record x { activo = false } else x

unfoldable pub revoke_session : ℕ → ℕ → Session → Session
revoke_session now user s =
    if s.id_usuario == user && is_activa s.estado
    then record s {
      estado = revocada;
      revocada_at = some (coalesce s.revocada_at now);
      cierre_at = some (coalesce s.cierre_at now);
      cerrada_por = some user;
      motivo_cierre = some eliminacion_cuenta;
    }
    else s

unfoldable pub disable_role : ℕ → UserRole → UserRole
disable_role user x = if x.id_usuario == user then record x { activo = false } else x

abbrev pub is_user : ℕ → ℕ → UserRow → Bool
is_user user person x = x.id_usuario == user && x.id_persona == person

unfoldable pub disable_user : ℕ → ℕ → ℕ → UserRow → UserRow
disable_user now user person x =
    if is_user user person x
    then record x {
      estado = false;
      acceso_inactivo = true;
      password_hash = none;
      deleted_at = some (coalesce x.deleted_at now);
    }
    else x

abbrev pub is_client : Request → ClientRow → Bool
is_client r x =
    x.id_cliente == r.id_cliente
    && x.id_persona == r.id_persona
    && x.id_usuario == r.id_usuario
    && not x.anonimizado

unfoldable pub disable_client : ℕ → Request → ClientRow → ClientRow
disable_client now r x =
    if is_client r x
    then record x {
      estado = false;
      consentimiento_marketing = false;
      consentimiento_marketing_at = none;
      deleted_at = some (coalesce x.deleted_at now);
    }
    else x

abbrev same_side : Bool → Bool → Bool
same_side true taken = taken
same_side false taken = not taken

-- The points of the transactions that are chosen, those given or those taken.
abbrev pub points_of : (PointsTransaction → Bool) → (taken : Bool) → List PointsTransaction → ℕ
points_of chosen taken points =
    sum_by (λ x. if chosen x && same_side x.ajuste_resta taken then x.puntos else 0) points

abbrev pub of_client : ℕ → PointsTransaction → Bool
of_client client x = x.id_cliente == client

abbrev is_cycle : ℕ → Option ℕ → Bool
is_cycle id none = false
is_cycle id (some cycle) = cycle == id

abbrev has_passed : ℕ → Option ℕ → Bool
has_passed now none = false
has_passed now (some end) = leb end now

-- What an active cycle that has ended still holds.
abbrev pub remaining_points : ℕ → ℕ → List PointsTransaction → PointsCycle → ℕ
remaining_points now client points c =
    if c.id_cliente == client && c.activo && has_passed now c.vence_at
    then points_of (λ x. is_cycle c.id_cycle x.id_cycle) false points
      - points_of (λ x. is_cycle c.id_cycle x.id_cycle) true points
    else 0

-- `pending_expired_points` of the view `vw_points_balance`.
abbrev pub pending_points : ℕ → ℕ → List PointsTransaction → List PointsCycle → ℕ
pending_points now client points cycles = sum_by (remaining_points now client points) cycles

-- The two sides of the view's balance, which is `credit` less `debit`; a client without a transaction has
-- no row in it.
abbrev pub credit : ℕ → List PointsTransaction → ℕ
credit client points = points_of (of_client client) false points

abbrev pub held_points : ℕ → ℕ → List PointsTransaction → List PointsCycle → ℕ
held_points now client points cycles =
    if any (of_client client) points then pending_points now client points cycles else 0

abbrev pub debit : ℕ → ℕ → List PointsTransaction → List PointsCycle → ℕ
debit now client points cycles =
    points_of (of_client client) true points + held_points now client points cycles

-- `cycles` stand with the newest first.
abbrev latest_active : ℕ → List PointsCycle → Option ℕ
latest_active client [] = none
latest_active client (c ∷ cs) =
    if c.id_cliente == client && c.activo then some c.id_cycle else latest_active client cs

unfoldable pub reconcile_points :
    ℕ → ℕ → List PointsCycle → List PointsTransaction → List PointsTransaction
reconcile_points now client cycles points =
    let owed = debit now client points cycles in
    if ltb owed (credit client points)
    then record {
      id_cliente = client;
      ajuste_resta = true;
      puntos = credit client points - owed;
      id_cycle = latest_active client cycles;
    }
      ∷ points
    else points

unfoldable pub close_account : ℕ → Request → Account → Account
unfolding cancel_subscription cancel_order reconcile_points close_cycle revoke_session disable_role
    disable_user disable_client
close_account now r a = record {
  subscriptions = map (cancel_subscription r.id_cliente) a.subscriptions;
  orders = map (cancel_order now r.id_cliente) a.orders;
  points = reconcile_points now r.id_cliente a.cycles a.points;
  cycles = map (close_cycle r.id_cliente) a.cycles;
  sessions = map (revoke_session now r.id_usuario) a.sessions;
  roles = map (disable_role r.id_usuario) a.roles;
  users = map (disable_user now r.id_usuario r.id_persona) a.users;
  clients = map (disable_client now r) a.clients;
  assets = a.assets;
}
