-- ===== src/Events/Dispatcher/Buffer.antt =====
-- How long the queue of a stream gets from its opening on.
use masterfadebackend.Prelude.{
  ℕ, zero, suc, ◌+◌, ◌≤◌, inl, inr, List, [], ◌∷◌, filter, length, take, Option, none, some, Bool,
  ◌||◌, not, arith, ltb, ◌==◌, if◌then◌else◌, Bool-cases,
}
use masterfadebackend.Events.Subscriber.{Row, resync_required, Subscriber, deliver, flush}
use masterfadebackend.Events.Subscriber.Buffer.{
  Event, run, IsBounded, flush-IsBounded, enqueue_forced-IsBounded, deliver-IsBounded,
  run-IsBounded,
}
use masterfadebackend.Events.Replay.{
  DispatcherConfig, is_replayed, Replayed, is_due, replay_rows, replay_from, replay, or_resync,
  resumed, go_live,
}
use masterfadebackend.Events.Dispatcher.{Dispatcher, new_stream}

module _ (accepts : ℕ → Bool) (cfg : DispatcherConfig) where
  -- The frames that the end of `subscribe` puts in without a look at the bound.
  abbrev pub resync_frames : List Row → (watermark : ℕ) → Option ℕ → Subscriber → ℕ
  resync_frames outbox watermark none s = 0
  resync_frames outbox watermark (some last_event_id) s =
      if is_replayed (replay accepts cfg outbox watermark last_event_id s).result then 0 else 1

  abbrev Fits : ℕ → Subscriber → Type 0
  Fits n s = IsBounded accepts cfg.client_buffer_max n s

  module _ (n : ℕ) (fits : cfg.client_buffer_max ≤ n) where
    replay_rows-Fits :
        (rows : List Row) (left current : ℕ) (s : Subscriber)
        → Fits n s
        → Fits n (replay_rows accepts cfg rows left current s).subscriber
    unfolding replay_rows
    replay_rows-Fits [] left current s h = h
    replay_rows-Fits (row ∷ rows) zero current s h = h
    replay_rows-Fits (row ∷ rows) (suc left) current s h =
        replay_rows-Fits rows left row.id_evento (deliver accepts cfg.client_buffer_max row s)
          (deliver-IsBounded accepts cfg.client_buffer_max n fits row s h)

    replay_from-Fits :
        (fuel : ℕ) (outbox : List Row) (watermark left current : ℕ) (s : Subscriber)
        → Fits n s
        → Fits n (replay_from accepts cfg fuel outbox watermark left current s).subscriber
    unfolding replay_from
    replay_from-Fits zero outbox watermark left current s h = h
    replay_from-Fits (suc fuel) outbox watermark left current s h =
        let rows =
          take cfg.replay_batch_size (filter (is_due s.id_sucursal current watermark) outbox) in
        let batch = replay_rows accepts cfg rows left current s in
        let within = replay_rows-Fits rows left current s h in
        let rest =
          replay_from-Fits fuel outbox watermark batch.left batch.current batch.subscriber within in
        elim (Bool-cases (not (ltb current watermark))) [
          | inl done ↦ rw done h
          | inr on ↦ elim (Bool-cases batch.exceeded) [
            | inl out ↦ rw (on, out) within
            | inr left ↦
                elim (Bool-cases (length rows == 0 || ltb (length rows) cfg.replay_batch_size)) [
                  | inl short ↦ rw (on, left, short) within
                  | inr full ↦ rw (on, left, full) rest
                ]
          ]
        ]

    replay-Fits :
        (outbox : List Row) (watermark last_event_id : ℕ) (s : Subscriber)
        → Fits n s
        → Fits n (replay accepts cfg outbox watermark last_event_id s).subscriber
    unfolding replay
    replay-Fits outbox watermark last_event_id s h = ground (
      arith,
      replay_from-Fits (suc watermark) outbox watermark cfg.replay_max_events last_event_id s h,
    )

  or_resync-Fits :
      (n watermark : ℕ) (r : Replayed)
      → Fits n r.subscriber
      → Fits (n + (if is_replayed r.result then 0 else 1)) (or_resync accepts cfg watermark r)
  or_resync-Fits n watermark r h =
      let forced =
        enqueue_forced-IsBounded accepts cfg.client_buffer_max n
          (record { frame = resync_required; id = none }) r.subscriber h in
      elim (Bool-cases (is_replayed r.result)) [
        | inl done ↦ rw done (ground (arith, h))
        | inr refused ↦ rw refused (ground (arith, forced))
      ]

  resumed-Fits :
      (outbox : List Row) (watermark : ℕ) (last_event_id : Option ℕ) (s : Subscriber)
      → Fits cfg.client_buffer_max s
      → Fits
          (cfg.client_buffer_max + resync_frames outbox watermark last_event_id s)
          (resumed accepts cfg outbox watermark last_event_id s)
  resumed-Fits outbox watermark none s h = ground (arith, h)
  resumed-Fits outbox watermark (some last_event_id) s h =
      or_resync-Fits cfg.client_buffer_max watermark
        (replay accepts cfg outbox watermark last_event_id s)
        (replay-Fits cfg.client_buffer_max (omega arith) outbox watermark last_event_id s h)

  -- The subscriber of a new stream, after what came while `subscribe` waited for the watermark.
  abbrev pub early : (branch ip : ℕ) → Dispatcher → List Event → Subscriber
  early branch ip d before =
      run accepts cfg.client_buffer_max before (new_stream branch ip d).subscriber

  -- Whatever the socket answers, and in whatever order rows, drains and the departure of the client
  -- come before and after the end of `subscribe`, the queue of a new stream holds the frames of its
  -- bound at most, one more where the replay was refused, since the frame that tells so is put in
  -- without a look at the bound, and one more once the stream is closed.
  pub run-go_live-IsBounded :
      (branch ip : ℕ) (d : Dispatcher) (outbox : List Row) (watermark : ℕ)
      (last_event_id : Option ℕ)
      → (before after : List Event)
      → let s =
          run accepts cfg.client_buffer_max after
            (go_live accepts cfg outbox watermark last_event_id (early branch ip d before)) in
        length s.queue ≤ (
          cfg.client_buffer_max
          + resync_frames outbox watermark last_event_id (early branch ip d before)
          + (if s.closed then 1 else 0))
  unfolding go_live
  run-go_live-IsBounded branch ip d outbox watermark last_event_id before after =
      let s = early branch ip d before in
      let n = cfg.client_buffer_max + resync_frames outbox watermark last_event_id s in
      let first =
        run-IsBounded accepts cfg.client_buffer_max cfg.client_buffer_max (omega arith) before
          (new_stream branch ip d).subscriber (omega arith) in
      let live =
        flush-IsBounded accepts cfg.client_buffer_max n _
          (resumed-Fits outbox watermark last_event_id s first) in
      let last =
        run-IsBounded accepts cfg.client_buffer_max n (omega arith) after
          (flush accepts cfg.client_buffer_max
            (resumed accepts cfg outbox watermark last_event_id s))
          live in
      ground (arith, last)
