-- ===== src/Events/Examples.antt =====
-- A stream with room for one frame, which goes on after an event that is two behind, where a replay may
-- send one; its socket accepts nothing.
use masterfadebackend.Prelude.{
  ℕ, ◌+◌, ◌≤◌, ◌≡◌, refl, [], ◌∷◌, some, Bool, false, length, if◌then◌else◌,
}
use masterfadebackend.Events.Subscriber.{
  Row, Subscriber, deliver, enqueue_frame, enqueue_forced, item_of, push, flush, flush_queue,
}
use masterfadebackend.Events.Subscriber.Buffer.{row_polled, socket_drained, run}
use masterfadebackend.Events.Replay.{DispatcherConfig, replay_rows, replay_from, replay, go_live}
use masterfadebackend.Events.Dispatcher.Addresses.{no_streams}
use masterfadebackend.Events.Dispatcher.Buffer.{resync_frames, early, run-go_live-IsBounded}

abbrev silent : ℕ → Bool
silent n = false

abbrev tight : DispatcherConfig
tight = record {
  max_connections_per_ip = 3;
  max_connections_global = 100;
  client_buffer_max = 1;
  batch_size = 20;
  poll_ms = 1000;
  replay_batch_size = 100;
  replay_max_events = 1;
}

abbrev row : ℕ → Row
row id = record { id_evento = id; id_sucursal = 7 }

abbrev live : Subscriber
live =
    go_live silent tight (row 8 ∷ row 9 ∷ row 10 ∷ []) 10 (some 8)
      (early silent tight 7 42 no_streams [])

abbrev after : Subscriber
after = run silent 1 (socket_drained ∷ row_polled (row 11) ∷ []) live

-- One frame of the replay and the one that refuses it, with the stream still open.
live_waits : (length live.queue ≡ 2) × (live.closed ≡ false)
unfolding run go_live replay replay_from replay_rows deliver enqueue_frame enqueue_forced item_of
    push flush flush_queue
live_waits = (refl, refl)

run-go_live-IsBounded_example : length after.queue ≤ (
    1
    + resync_frames silent tight
        (row 8 ∷ row 9 ∷ row 10 ∷ [])
        10
        (some 8)
        (early silent tight 7 42 no_streams [])
    + (if after.closed then 1 else 0))
run-go_live-IsBounded_example =
    run-go_live-IsBounded silent tight 7 42 no_streams (row 8 ∷ row 9 ∷ row 10 ∷ []) 10 (some 8) []
      (socket_drained ∷ row_polled (row 11) ∷ [])
