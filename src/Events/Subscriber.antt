-- ===== src/Events/Subscriber.antt =====
-- `createSubscriber` of services/agendaEventDispatcher.js: the queue of frames of one stream, with the
-- back pressure of its socket. Ids of events and of branches are numbers, and a frame stands for its text.
pub mod Delivery
pub mod Buffer
use masterfadebackend.Prelude.{
  ℕ, List, [], ◌∷◌, ◌++◌, Option, none, some, Bool, true, false, ◌||◌, ◌&&◌, not, leb, ◌==◌, length,
  if◌then◌else◌,
}

-- A row of the outbox, less the fields that the frame copies.
pub record Row : Type 0 where
  pub id_evento : ℕ
  pub id_sucursal : ℕ

pub data Frame : Type 0 where
  change : Row → Frame
  resync_required client_buffer_overflow : Frame

pub record Item : Type 0 where
  pub frame : Frame
  pub id : Option ℕ

-- `written` are the frames that were passed to the socket, the oldest first.
pub record Subscriber : Type 0 where
  pub id_sucursal : ℕ
  pub last_sent_id : Option ℕ
  pub queue : List Item
  pub draining : Bool
  pub closed : Bool
  pub written : List Frame

abbrev pub sent_after : Option ℕ → Option ℕ → Option ℕ
sent_after none last = last
sent_after (some id) last = some id

-- `compareEventIds(id, lastSentId) <= 0`, where both are there.
abbrev pub is_stale : Option ℕ → Option ℕ → Bool
is_stale (some id) (some last) = leb id last
is_stale (some id) none = false
is_stale none last = false

unfoldable pub item_of : Row → Item
item_of row = record { frame = change row; id = some row.id_evento }

-- `accepts n` is what the socket's `write` answers the frame after the first `n`.
module _ (accepts : ℕ → Bool) (buffer_max : ℕ) where
  -- The `while` of `flush`: a frame that is answered with false stays at the head of the queue.
  unfoldable pub flush_queue : List Item → Subscriber → Subscriber
  flush_queue [] s = record s { queue = [] }
  flush_queue (item ∷ rest) s =
      let tried : Subscriber = record s { written = s.written ++ (item.frame ∷ []) } in
      let sent =
        flush_queue rest (record tried { last_sent_id = sent_after item.id s.last_sent_id }) in
      if accepts (length s.written)
      then sent
      else record tried { queue = item ∷ rest; draining = true }

  unfoldable pub flush : Subscriber → Subscriber
  flush s = let flushed = flush_queue s.queue s in if s.closed || s.draining then s else flushed

  -- The end of `enqueueFrame`.
  unfoldable pub push : Item → Subscriber → Subscriber
  push item s = flush (record s { queue = s.queue ++ (item ∷ []) })

  unfoldable pub enqueue_forced : Item → Subscriber → Subscriber
  enqueue_forced item s =
      let pushed = push item s in if s.closed || is_stale item.id s.last_sent_id then s else pushed

  unfoldable pub close_with_resync : Frame → Subscriber → Subscriber
  close_with_resync reason s =
      let last = enqueue_forced (record { frame = reason; id = none }) s in
      if s.closed then s else record last { closed = true }

  unfoldable pub enqueue_frame : Item → Subscriber → Subscriber
  enqueue_frame item s =
      let overflow = close_with_resync client_buffer_overflow s in
      let pushed = push item s in
      if s.closed || is_stale item.id s.last_sent_id
      then s
      else if leb buffer_max (length s.queue)
      then overflow
      else pushed

  unfoldable pub deliver : Row → Subscriber → Subscriber
  deliver row s =
      let queued = enqueue_frame (item_of row) s in
      if s.closed || not (row.id_sucursal == s.id_sucursal) then s else queued

  pub on_drain : Subscriber → Subscriber
  on_drain s = flush (record s { draining = false })

  -- The rows of a poll, or of a replay, one after another.
  pub deliver_each : List Row → Subscriber → Subscriber
  deliver_each [] s = s
  deliver_each (r ∷ rs) s = deliver_each rs (deliver r s)

pub close_local : Subscriber → Subscriber
close_local s = if s.closed then s else record s { closed = true; queue = [] }
