-- ===== src/Events/Dispatcher/Examples.antt =====
-- Two browsers of one address, and a stream that goes on after event 8.
use masterfadebackend.Prelude.{ℕ, ◌≡◌, refl, List, [], ◌∷◌, none, some, true, arith}
use masterfadebackend.Events.Subscriber.{
  Row, change, deliver, enqueue_frame, item_of, push, flush, flush_queue,
}
use masterfadebackend.Events.Subscriber.Delivery.{idle}
use masterfadebackend.Events.Replay.{DispatcherConfig, go_live, replay}
use masterfadebackend.Events.Dispatcher.{get_ip}
use masterfadebackend.Events.Dispatcher.Addresses.{
  Step, opened, went_live, left, polled, after_steps, no_streams, connections_of,
  after_steps-counts,
}
use masterfadebackend.Events.Replay.Interleaving.{go_live-loses}

abbrev config : DispatcherConfig
config = record {
  max_connections_per_ip = 3;
  max_connections_global = 100;
  client_buffer_max = 50;
  batch_size = 20;
  poll_ms = 1000;
  replay_batch_size = 100;
  replay_max_events = 500;
}

abbrev event : ℕ → Row
event id = record { id_evento = id; id_sucursal = 1 }

abbrev outbox : List Row
outbox = event 8 ∷ event 9 ∷ event 10 ∷ event 11 ∷ []

abbrev steps : List Step
steps =
    opened 1 42
    ∷ opened 2 42
    ∷ went_live outbox 11 (some 8) 1
    ∷ polled (some outbox)
    ∷ left 2
    ∷ opened 1 43
    ∷ []

after_steps-counts_example :
    get_ip 42 (after_steps (λ id n. true) config steps no_streams).per_ip
    ≡ connections_of 42 (after_steps (λ id n. true) config steps no_streams).subscribers
after_steps-counts_example = after_steps-counts (λ id n. true) config steps 42

-- Events 9 and 10 are never sent.
go_live-loses_example :
    (go_live
      (λ n. true)
      config
      outbox
      11
      (some 8)
      (deliver (λ n. true) 50 (event 11) (idle 1 none []))).written
    ≡ change (event 11) ∷ []
unfolding enqueue_frame item_of push flush flush_queue
go_live-loses_example =
    go_live-loses (λ n. true) config 1 (event 11) outbox 11 8 (λ n. refl) (omega arith) refl
      (omega arith) (unfold replay deliver in refl)
