-- ===== src/Events/Subscriber/Buffer.antt =====
-- How far the queue of a subscriber grows, whatever the socket answers.
use masterfadebackend.Prelude.{
  ℕ, suc, ◌≤◌, ◌≡◌, refl, inl, inr, List, [], ◌∷◌, ◌++◌, none, Bool, false, ◌||◌, arith, length,
  length-append, if◌then◌else◌, Bool-cases,
}
use masterfadebackend.Events.Subscriber.{
  Row, client_buffer_overflow, Item, Subscriber, sent_after, flush_queue, flush, push,
  enqueue_frame, close_with_resync, enqueue_forced, item_of, deliver, on_drain, close_local,
}

-- What happens to a live subscriber.
pub data Event : Type 0 where
  row_polled : Row → Event
  socket_drained client_left : Event

module _ (accepts : ℕ → Bool) (buffer_max : ℕ) where
  pub step : Event → Subscriber → Subscriber
  step (row_polled r) s = deliver accepts buffer_max r s
  step socket_drained s = on_drain accepts buffer_max s
  step client_left s = close_local s

  unfoldable pub run : List Event → Subscriber → Subscriber
  run [] s = s
  run (e ∷ es) s = run es (step e s)

  -- A frame more than the bound is the last one, after which the subscriber is closed.
  abbrev pub IsBounded : ℕ → Subscriber → Type 0
  IsBounded n s = length s.queue ≤ (if s.closed then suc n else n)

  flush_queue-shrinks :
      (q : List Item) (s : Subscriber)
      → (length (flush_queue accepts buffer_max q s).queue ≤ length q)
        × ((flush_queue accepts buffer_max q s).closed ≡ s.closed)
  unfolding flush_queue
  flush_queue-shrinks [] s = (omega arith, refl)
  flush_queue-shrinks (i ∷ q) s = elim (Bool-cases (accepts (length s.written))) [
    | inl sent ↦
        let after : Subscriber = record s {
          last_sent_id = sent_after i.id s.last_sent_id;
          written = s.written ++ (i.frame ∷ []);
        } in
        let (h, k) = flush_queue-shrinks q after in rw sent (omega (arith, h), k)
    | inr full ↦ rw full (omega arith, refl)
  ]

  flush-shrinks :
      (s : Subscriber)
      → (length (flush accepts buffer_max s).queue ≤ length s.queue)
        × ((flush accepts buffer_max s).closed ≡ s.closed)
  unfolding flush
  flush-shrinks s = elim (Bool-cases (s.closed || s.draining)) [
    | inl off ↦ rw off (omega arith, refl)
    | inr on ↦ rw on (flush_queue-shrinks s.queue s)
  ]

  push-length :
      (i : Item) (s : Subscriber)
      → (length (push accepts buffer_max i s).queue ≤ suc (length s.queue))
        × ((push accepts buffer_max i s).closed ≡ s.closed)
  unfolding push
  push-length i s =
      let (h, k) = flush-shrinks (record s { queue = s.queue ++ (i ∷ []) }) in
      (omega (arith, h, length-append s.queue (i ∷ [])), k)

  pub flush-IsBounded :
      (n : ℕ) (s : Subscriber) → IsBounded n s → IsBounded n (flush accepts buffer_max s)
  flush-IsBounded n s h = let (a, b) = flush-shrinks s in ground (arith, a, b)

  -- A frame that is put in without a look at the bound takes one place more.
  pub enqueue_forced-IsBounded :
      (n : ℕ) (i : Item) (s : Subscriber)
      → IsBounded n s
      → IsBounded (suc n) (enqueue_forced accepts buffer_max i s)
  unfolding enqueue_forced
  enqueue_forced-IsBounded n i s h = let (a, b) = push-length i s in ground (arith, a, b)

  module _ (n : ℕ) (fits : buffer_max ≤ n) where
    enqueue_frame-IsBounded :
        (i : Item) (s : Subscriber)
        → IsBounded n s
        → IsBounded n (enqueue_frame accepts buffer_max i s)
    unfolding enqueue_frame close_with_resync enqueue_forced
    enqueue_frame-IsBounded i s h =
        let (a, b) = push-length i s in
        let (c, d) = push-length (record { frame = client_buffer_overflow; id = none }) s in
        ground (arith, a, b, c, d)

    pub deliver-IsBounded :
        (r : Row) (s : Subscriber) → IsBounded n s → IsBounded n (deliver accepts buffer_max r s)
    unfolding deliver
    deliver-IsBounded r s h = ground (arith, enqueue_frame-IsBounded (item_of r) s h)

    step-IsBounded : (e : Event) (s : Subscriber) → IsBounded n s → IsBounded n (step e s)
    unfolding step on_drain close_local
    step-IsBounded (row_polled r) s h = deliver-IsBounded r s h
    step-IsBounded socket_drained s h =
        let (a, b) = flush-shrinks (record s { draining = false }) in ground (arith, a, b)
    step-IsBounded client_left s h = ground arith

    -- Rows, drains and the departure of the client keep a bound that is not below the one of the queue.
    pub run-IsBounded : (es : List Event) (s : Subscriber) → IsBounded n s → IsBounded n (run es s)
    unfolding run
    run-IsBounded [] s h = h
    run-IsBounded (e ∷ es) s h = run-IsBounded es (step e s) (step-IsBounded e s h)
