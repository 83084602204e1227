-- ===== src/Events/Dispatcher/Addresses.antt =====
-- The counts of the addresses and the streams that are open.
use masterfadebackend.Prelude.{
  ℕ, ◌+◌, ◌-◌, ◌≤◌, ◌<◌, ◌≡◌, refl, ◌∙◌, List, [], ◌∷◌, ◌++◌, map, filter, length, take, Option,
  none, some, Bool, true, false, arith, ltb, ◌==◌, if◌then◌else◌,
}
use masterfadebackend.Events.Subscriber.{Row}
use masterfadebackend.Events.Dispatcher.{
  Stream, Count, Dispatcher, DispatcherConfig, get_ip, delete_ip, accepted, can_accept_connection,
  reserve_ip, release_ip, sweep, deliver_to, deliver_row, deliver_rows, poll_once, open_stream,
  new_stream, close_if, unsubscribe, stop, go_live_if, live_stream,
}

if-cases :
    (P : Dispatcher → Type 0) (b : Bool) {x y : Dispatcher} → P x → P y → P (if b then x else y)
if-cases P true p q = p
if-cases P false p q = q

-- The streams of an address.
pub connections_of : ℕ → List Stream → ℕ
connections_of ip xs = length (filter (λ x. x.ip == ip) xs)

get_ip-delete_ip :
    (ip other : ℕ) (cs : List Count)
    → get_ip other (delete_ip ip cs) ≡ (if ip == other then 0 else get_ip other cs)
unfolding get_ip delete_ip
get_ip-delete_ip ip other [] = ground arith
get_ip-delete_ip ip other (c ∷ cs) = ground (arith, get_ip-delete_ip ip other cs)

get_ip-reserve_ip :
    (ip other : ℕ) (cs : List Count)
    → get_ip other (reserve_ip ip cs)
      ≡ (if ip == other then get_ip other cs + 1 else get_ip other cs)
unfolding get_ip reserve_ip
get_ip-reserve_ip ip other cs = ground (arith, get_ip-delete_ip ip other cs)

get_ip-release_ip :
    (ip other : ℕ) (cs : List Count)
    → get_ip other (release_ip ip cs)
      ≡ (if ip == other then get_ip other cs - 1 else get_ip other cs)
unfolding get_ip release_ip
get_ip-release_ip ip other cs = ground (arith, get_ip-delete_ip ip other cs)

connections_of-append :
    (ip : ℕ) (xs : List Stream) (x : Stream)
    → connections_of ip (xs ++ (x ∷ []))
      ≡ (if x.ip == ip then connections_of ip xs + 1 else connections_of ip xs)
unfolding connections_of
connections_of-append ip [] x = ground arith
connections_of-append ip (y ∷ xs) x = ground (arith, connections_of-append ip xs x)

connections_of-map :
    (ip : ℕ) (f : Stream → Stream) (xs : List Stream)
    → ((x : Stream) → (f x).ip ≡ x.ip)
    → connections_of ip (map f xs) ≡ connections_of ip xs
unfolding connections_of
connections_of-map ip f [] same = refl
connections_of-map ip f (x ∷ xs) same = ground (arith, same x, connections_of-map ip f xs same)

-- The counts are those of the streams, those still to be swept among them.
abbrev Counts : List Stream → Dispatcher → Type 0
Counts rest d =
    (ip : ℕ) → get_ip ip d.per_ip ≡ connections_of ip d.subscribers + connections_of ip rest

connections_of-cons :
    (ip : ℕ) (x : Stream) (xs : List Stream)
    → connections_of ip (x ∷ xs)
      ≡ (if x.ip == ip then 1 + connections_of ip xs else connections_of ip xs)
unfolding connections_of
connections_of-cons ip x xs = ground arith

sweep-Counts : (xs : List Stream) (d : Dispatcher) → Counts xs d → Counts [] (sweep xs d)
unfolding sweep
sweep-Counts [] d c = c
sweep-Counts (x ∷ xs) d c =
    if-cases (Counts []) x.subscriber.closed
      (sweep-Counts xs (record d { per_ip = release_ip x.ip d.per_ip })
        (λ ip.
          ground (arith, get_ip-release_ip x.ip ip d.per_ip, c ip, connections_of-cons ip x xs)))
      (sweep-Counts xs (record d { subscribers = d.subscribers ++ (x ∷ []) })
        (λ ip.
          ground
            (arith, connections_of-append ip d.subscribers x, c ip, connections_of-cons ip x xs)))

-- What holds of every stream that a sweep is given, where each keeps its address.
swept-Counts :
    (f : Stream → Stream) (d : Dispatcher)
    → ((x : Stream) → (f x).ip ≡ x.ip)
    → Counts [] d
    → Counts [] (sweep (map f d.subscribers) (record d { subscribers = [] }))
unfolding connections_of
swept-Counts f d same c =
    sweep-Counts (map f d.subscribers) (record d { subscribers = [] })
      (λ ip. ground (arith, connections_of-map ip f d.subscribers same, c ip))

deliver_rows-Counts :
    (accepts : ℕ → ℕ → Bool) (cfg : DispatcherConfig) (rows : List Row) (d : Dispatcher)
    → Counts [] d
    → Counts [] (deliver_rows accepts cfg rows d)
unfolding deliver_rows deliver_row
deliver_rows-Counts accepts cfg [] d c = c
deliver_rows-Counts accepts cfg (row ∷ rows) d c =
    deliver_rows-Counts accepts cfg rows (deliver_row accepts cfg row d)
      (swept-Counts (deliver_to accepts cfg row) d (λ x. refl) c)

poll_once-Counts :
    (accepts : ℕ → ℕ → Bool) (cfg : DispatcherConfig) (answer : Option (List Row)) (d : Dispatcher)
    → Counts [] d
    → Counts [] (poll_once accepts cfg answer d)
unfolding poll_once
poll_once-Counts accepts cfg none d c = c
poll_once-Counts accepts cfg (some outbox) d c =
    deliver_rows-Counts accepts cfg
      (take cfg.batch_size (filter (λ row. ltb d.cursor row.id_evento) outbox)) d c

open_stream-Counts :
    (branch ip : ℕ) (d : Dispatcher) → Counts [] d → Counts [] (open_stream branch ip d)
unfolding open_stream
open_stream-Counts branch ip d c = λ other. ground (
  arith,
  get_ip-reserve_ip ip other d.per_ip,
  c other,
  connections_of-append other d.subscribers (new_stream branch ip d),
)

connections_of-open_stream :
    (branch ip : ℕ) (d : Dispatcher)
    → connections_of ip (open_stream branch ip d).subscribers ≡ connections_of ip d.subscribers + 1
unfolding open_stream
connections_of-open_stream branch ip d =
    ground (arith, connections_of-append ip d.subscribers (new_stream branch ip d))

accepted-lt :
    (cfg : DispatcherConfig) (ip : ℕ) (d : Dispatcher)
    → can_accept_connection cfg ip d ≡ accepted
    → get_ip ip d.per_ip < cfg.max_connections_per_ip
unfolding can_accept_connection
accepted-lt cfg ip d ok = ground arith

-- What can happen to the dispatcher, each in one piece.
pub data Step : Type 0 where
  opened : (branch ip : ℕ) → Step
  went_live : List Row → (watermark : ℕ) → Option ℕ → (id : ℕ) → Step
  left : (id : ℕ) → Step
  polled : Option (List Row) → Step
  stopped : Step

abbrev pub after_step : (ℕ → ℕ → Bool) → DispatcherConfig → Step → Dispatcher → Dispatcher
after_step accepts cfg (opened branch ip) d = open_stream branch ip d
after_step accepts cfg (went_live outbox watermark last_event_id id) d =
    live_stream accepts cfg outbox watermark last_event_id id d
after_step accepts cfg (left id) d = unsubscribe id d
after_step accepts cfg (polled answer) d = poll_once accepts cfg answer d
after_step accepts cfg stopped d = stop d

abbrev pub after_steps : (ℕ → ℕ → Bool) → DispatcherConfig → List Step → Dispatcher → Dispatcher
after_steps accepts cfg [] d = d
after_steps accepts cfg (step ∷ steps) d =
    after_steps accepts cfg steps (after_step accepts cfg step d)

abbrev pub no_streams : Dispatcher
no_streams = record {
  subscribers = [];
  per_ip = [];
  next_subscriber_id = 0;
  cursor = 0;
  backoff_ms = 0;
}

step-Counts :
    (accepts : ℕ → ℕ → Bool) (cfg : DispatcherConfig) (step : Step) (d : Dispatcher)
    → Counts [] d
    → Counts [] (after_step accepts cfg step d)
unfolding live_stream unsubscribe stop
step-Counts accepts cfg (opened branch ip) d c = open_stream-Counts branch ip d c
step-Counts accepts cfg (went_live outbox watermark last_event_id id) d c =
    swept-Counts (go_live_if accepts cfg outbox watermark last_event_id id) d (λ x. ground arith) c
step-Counts accepts cfg (left id) d c = swept-Counts (close_if id) d (λ x. ground arith) c
step-Counts accepts cfg (polled answer) d c = poll_once-Counts accepts cfg answer d c
step-Counts accepts cfg stopped d c = λ ip. unfold get_ip connections_of in refl

steps-Counts :
    (accepts : ℕ → ℕ → Bool) (cfg : DispatcherConfig) (steps : List Step) (d : Dispatcher)
    → Counts [] d
    → Counts [] (after_steps accepts cfg steps d)
steps-Counts accepts cfg [] d c = c
steps-Counts accepts cfg (step ∷ steps) d c =
    steps-Counts accepts cfg steps (after_step accepts cfg step d)
      (step-Counts accepts cfg step d c)

run-Counts :
    (accepts : ℕ → ℕ → Bool) (cfg : DispatcherConfig) (steps : List Step)
    → Counts [] (after_steps accepts cfg steps no_streams)
run-Counts accepts cfg steps =
    steps-Counts accepts cfg steps no_streams (λ ip. unfold get_ip connections_of in refl)

-- After any sequence of steps, in any order, the count of each address is the number of its streams.
pub after_steps-counts :
    (accepts : ℕ → ℕ → Bool) (cfg : DispatcherConfig) (steps : List Step) (ip : ℕ)
    → get_ip ip (after_steps accepts cfg steps no_streams).per_ip
      ≡ connections_of ip (after_steps accepts cfg steps no_streams).subscribers
after_steps-counts accepts cfg steps ip =
    run-Counts accepts cfg steps ip ∙ unfold connections_of in omega arith

-- Where a connection is accepted after such a sequence, opening its stream leaves no more streams of its
-- address than the limit of an address.
pub can_accept_connection-limit :
    (accepts : ℕ → ℕ → Bool) (cfg : DispatcherConfig) (steps : List Step) (branch ip : ℕ)
    → can_accept_connection cfg ip (after_steps accepts cfg steps no_streams) ≡ accepted
    → connections_of ip
        (open_stream branch ip (after_steps accepts cfg steps no_streams)).subscribers
      ≤ cfg.max_connections_per_ip
can_accept_connection-limit accepts cfg steps branch ip ok =
    let d = after_steps accepts cfg steps no_streams in
    omega (
      arith,
      after_steps-counts accepts cfg steps ip,
      connections_of-open_stream branch ip d,
      accepted-lt cfg ip d ok,
    )
