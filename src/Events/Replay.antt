-- ===== src/Events/Replay.antt =====
-- `replay` of services/agendaEventDispatcher.js, and the end of `subscribe` for its stream: what a stream
-- that goes on after an event is given.
pub mod Fuel
pub mod Interleaving
use masterfadebackend.Prelude.{
  ℕ, zero, suc, ◌+◌, ◌-◌, ◌*◌, min, max, List, [], ◌∷◌, ◌++◌, map, filter, length, take, Option,
  none, some, Bool, true, false, ◌&&◌, ◌||◌, not, ltb, leb, ◌==◌, if◌then◌else◌,
}
use masterfadebackend.Events.Subscriber.{
  Row, Frame, resync_required, Item, Subscriber, deliver, enqueue_forced, flush, close_local,
}

pub record DispatcherConfig : Type 0 where
  pub max_connections_per_ip : ℕ
  pub max_connections_global : ℕ
  pub client_buffer_max : ℕ
  pub batch_size : ℕ
  pub poll_ms : ℕ
  pub replay_batch_size : ℕ
  pub replay_max_events : ℕ

pub data ReplayResult : Type 0 where
  replayed invalid_last_event_id history_not_available replay_limit_exceeded : ReplayResult

abbrev pub is_replayed : ReplayResult → Bool
is_replayed replayed = true
is_replayed invalid_last_event_id = false
is_replayed history_not_available = false
is_replayed replay_limit_exceeded = false

pub record Replayed : Type 0 where
  pub subscriber : Subscriber
  pub result : ReplayResult

-- Where a batch has ended: the id reached, and what is left of the limit.
pub record Batch : Type 0 where
  pub subscriber : Subscriber
  pub current : ℕ
  pub left : ℕ
  pub exceeded : Bool

abbrev pub is_due : ℕ → ℕ → ℕ → Row → Bool
is_due branch current watermark row =
    row.id_sucursal == branch && ltb current row.id_evento && leb row.id_evento watermark

abbrev pub min_id : List Row → ℕ
min_id [] = 0
min_id (row ∷ rows) = row.id_evento

abbrev pub max_id : List Row → ℕ
max_id [] = 0
max_id (row ∷ []) = row.id_evento
max_id (row ∷ next ∷ rows) = max_id (next ∷ rows)

module _ (accepts : ℕ → Bool) (cfg : DispatcherConfig) where
  unfoldable pub replay_rows : List Row → (left current : ℕ) → Subscriber → Batch
  replay_rows [] left current s = record {
    subscriber = s;
    current = current;
    left = left;
    exceeded = false;
  }
  replay_rows (row ∷ rows) zero current s = record {
    subscriber = s;
    current = current;
    left = zero;
    exceeded = true;
  }
  replay_rows (row ∷ rows) (suc left) current s =
      replay_rows rows left row.id_evento (deliver accepts cfg.client_buffer_max row s)

  -- The `while` on fuel.
  unfoldable pub replay_from :
      (fuel : ℕ) → List Row → (watermark left current : ℕ) → Subscriber → Replayed
  unfolding replay_rows
  replay_from zero outbox watermark left current s = record { subscriber = s; result = replayed }
  replay_from (suc fuel) outbox watermark left current s =
      let rows =
        take cfg.replay_batch_size (filter (is_due s.id_sucursal current watermark) outbox) in
      let batch = replay_rows rows left current s in
      let rest = replay_from fuel outbox watermark batch.left batch.current batch.subscriber in
      if not (ltb current watermark)
      then record { subscriber = s; result = replayed }
      else if batch.exceeded
      then record { subscriber = batch.subscriber; result = replay_limit_exceeded }
      else if length rows == 0 || ltb (length rows) cfg.replay_batch_size
      then record { subscriber = batch.subscriber; result = replayed }
      else rest

  unfoldable pub replay : List Row → (watermark last_event_id : ℕ) → Subscriber → Replayed
  unfolding replay_from
  replay outbox watermark last_event_id s =
      if ltb (max_id outbox) last_event_id
      then record { subscriber = s; result = invalid_last_event_id }
      else if ltb 0 (min_id outbox) && ltb last_event_id (min_id outbox - 1)
      then record { subscriber = s; result = history_not_available }
      else replay_from (suc watermark) outbox watermark cfg.replay_max_events last_event_id s

  abbrev pub or_resync : ℕ → Replayed → Subscriber
  or_resync watermark r =
      let refused =
        enqueue_forced accepts cfg.client_buffer_max (record { frame = resync_required; id = none })
          r.subscriber in
      if is_replayed r.result
      then r.subscriber
      else record refused { last_sent_id = some watermark }

  abbrev pub resumed : List Row → ℕ → Option ℕ → Subscriber → Subscriber
  resumed outbox watermark none s = s
  resumed outbox watermark (some last_event_id) s =
      or_resync watermark (replay outbox watermark last_event_id s)

  -- What `subscribe` does with its stream once it has the watermark.
  unfoldable pub go_live : List Row → ℕ → Option ℕ → Subscriber → Subscriber
  unfolding replay
  go_live outbox watermark last_event_id s =
      flush accepts cfg.client_buffer_max (resumed outbox watermark last_event_id s)
