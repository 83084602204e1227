-- ===== src/Events/Dispatcher.antt =====
-- `createAgendaEventDispatcher` of services/agendaEventDispatcher.js: the streams that are open, the count of
-- each address, and the cursor of the polls. An address is a number, normalised before.
pub mod Addresses
pub mod Buffer
pub mod Examples
use masterfadebackend.Prelude.{
  ℕ, zero, suc, ◌+◌, ◌-◌, ◌*◌, min, max, List, [], ◌∷◌, ◌++◌, map, filter, length, take, Option,
  none, some, Bool, true, false, ◌&&◌, ◌||◌, not, ltb, leb, ◌==◌, if◌then◌else◌,
}
use masterfadebackend.Events.Replay.{DispatcherConfig, go_live}
use masterfadebackend.Events.Subscriber.{
  Row, Frame, resync_required, Item, Subscriber, deliver, enqueue_forced, flush, close_local,
}

pub record Stream : Type 0 where
  pub id : ℕ
  pub ip : ℕ
  pub subscriber : Subscriber

-- An entry of the map `perIp`.
pub record Count : Type 0 where
  pub ip : ℕ
  pub connections : ℕ

pub record Dispatcher : Type 0 where
  pub subscribers : List Stream
  pub per_ip : List Count
  pub next_subscriber_id : ℕ
  pub cursor : ℕ
  pub backoff_ms : ℕ

pub get_ip : ℕ → List Count → ℕ
get_ip ip [] = 0
get_ip ip (c ∷ cs) = if c.ip == ip then c.connections else get_ip ip cs

pub delete_ip : ℕ → List Count → List Count
delete_ip ip [] = []
delete_ip ip (c ∷ cs) = let rest = delete_ip ip cs in if c.ip == ip then rest else c ∷ rest

abbrev pub set_ip : ℕ → ℕ → List Count → List Count
set_ip ip n counts = record { ip = ip; connections = n } ∷ delete_ip ip counts

pub data Acceptance : Type 0 where
  accepted global_limit ip_limit : Acceptance

pub can_accept_connection : DispatcherConfig → ℕ → Dispatcher → Acceptance
unfolding get_ip
can_accept_connection cfg ip d =
    if leb cfg.max_connections_global (length d.subscribers)
    then global_limit
    else if leb cfg.max_connections_per_ip (get_ip ip d.per_ip)
    then ip_limit
    else accepted

pub reserve_ip : ℕ → List Count → List Count
unfolding delete_ip get_ip
reserve_ip ip counts = set_ip ip (get_ip ip counts + 1) counts

pub release_ip : ℕ → List Count → List Count
unfolding delete_ip get_ip
release_ip ip counts =
    let current = get_ip ip counts in
    if leb current 1 then delete_ip ip counts else set_ip ip (current - 1) counts

-- `onClose` of each stream that is closed: it leaves the map, and its address is released.
pub sweep : List Stream → Dispatcher → Dispatcher
unfolding release_ip
sweep [] d = d
sweep (x ∷ xs) d =
    let closed = sweep xs (record d { per_ip = release_ip x.ip d.per_ip }) in
    let kept = sweep xs (record d { subscribers = d.subscribers ++ (x ∷ []) }) in
    if x.subscriber.closed then closed else kept

abbrev pub last_id : ℕ → List Row → ℕ
last_id cursor [] = cursor
last_id cursor (row ∷ rows) = last_id row.id_evento rows

-- `accepts n` of a stream's id is what its socket answers the frame after the first `n`.
module _ (accepts : ℕ → ℕ → Bool) (cfg : DispatcherConfig) where
  abbrev pub deliver_to : Row → Stream → Stream
  deliver_to row x = record x {
    subscriber = deliver (accepts x.id) cfg.client_buffer_max row x.subscriber;
  }

  pub deliver_row : Row → Dispatcher → Dispatcher
  unfolding sweep
  deliver_row row d = sweep (map (deliver_to row) d.subscribers) (record d { subscribers = [] })

  pub deliver_rows : List Row → Dispatcher → Dispatcher
  deliver_rows [] d = d
  deliver_rows (row ∷ rows) d = deliver_rows rows (deliver_row row d)

  -- The outbox lists its rows by their ids; none is a query that fails.
  pub poll_once : Option (List Row) → Dispatcher → Dispatcher
  unfolding deliver_rows
  poll_once none d =
      let doubled = if d.backoff_ms == 0 then cfg.poll_ms * 2 else d.backoff_ms * 2 in
      record d { backoff_ms = min (max doubled cfg.poll_ms) 30000 }
  poll_once (some outbox) d =
      let rows = take cfg.batch_size (filter (λ row. ltb d.cursor row.id_evento) outbox) in
      record (deliver_rows rows d) { cursor = last_id d.cursor rows; backoff_ms = 0 }

abbrev pub new_stream : (branch ip : ℕ) → Dispatcher → Stream
new_stream branch ip d = record {
  id = suc d.next_subscriber_id;
  ip = ip;
  subscriber = record {
    id_sucursal = branch;
    last_sent_id = none;
    queue = [];
    draining = false;
    closed = false;
    written = [];
  };
}

-- The stream as `subscribe` adds it to the map, before it asks for the watermark.
pub open_stream : (branch ip : ℕ) → Dispatcher → Dispatcher
unfolding reserve_ip
open_stream branch ip d = record d {
  subscribers = d.subscribers ++ (new_stream branch ip d ∷ []);
  per_ip = reserve_ip ip d.per_ip;
  next_subscriber_id = suc d.next_subscriber_id;
}

abbrev pub close_if : ℕ → Stream → Stream
close_if id x = if x.id == id then record x { subscriber = close_local x.subscriber } else x

pub unsubscribe : ℕ → Dispatcher → Dispatcher
unfolding sweep
unsubscribe id d = sweep (map (close_if id) d.subscribers) (record d { subscribers = [] })

pub stop : Dispatcher → Dispatcher
stop d = record d { subscribers = []; per_ip = [] }

abbrev pub go_live_if :
    (ℕ → ℕ → Bool) → DispatcherConfig → List Row → ℕ → Option ℕ → ℕ → Stream → Stream
go_live_if accepts cfg outbox watermark last_event_id id x =
    if x.id == id
    then record x {
      subscriber = go_live (accepts x.id) cfg outbox watermark last_event_id x.subscriber;
    }
    else x

-- The end of `subscribe` for the stream with this id.
pub live_stream :
    (ℕ → ℕ → Bool)
    → DispatcherConfig
    → List Row
    → (watermark : ℕ) → Option ℕ
    → (id : ℕ) → Dispatcher
    → Dispatcher
unfolding go_live sweep
live_stream accepts cfg outbox watermark last_event_id id d =
    sweep (map (go_live_if accepts cfg outbox watermark last_event_id id) d.subscribers)
      (record d { subscribers = [] })

-- `subscribe`, with nothing else going on between its queries.
pub subscribe :
    (ℕ → ℕ → Bool)
    → DispatcherConfig
    → List Row
    → (watermark branch ip : ℕ) → Option ℕ
    → Dispatcher
    → Dispatcher
unfolding open_stream live_stream
subscribe accepts cfg outbox watermark branch ip last_event_id d =
    let opened = open_stream branch ip d in
    live_stream accepts cfg outbox watermark last_event_id opened.next_subscriber_id opened
