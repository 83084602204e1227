-- ===== src/Events/Replay/Interleaving.antt =====
-- A poll between the opening of a stream and its replay.
use masterfadebackend.Prelude.{
  ℕ, zero, suc, ◌-◌, ◌≤◌, ◌<◌, ◌≡◌, refl, ap, subst, ◌∙◌, inl, inr, List, [], ◌∷◌, filter, length,
  take, none, some, Bool, true, ◌&&◌, ◌||◌, arith, ltb, ◌==◌, All, All-take, All-map, filter-All,
  Bool-cases,
}
use masterfadebackend.Events.Subscriber.{
  Row, Frame, change, Subscriber, flush_queue, flush, deliver,
}
use masterfadebackend.Events.Subscriber.Delivery.{idle, deliver-idle}
use masterfadebackend.Events.Replay.{
  DispatcherConfig, replay_rows, replay_from, is_due, min_id, max_id, replay, is_replayed, go_live,
}

IsUpTo : ℕ → Row → Type 0
IsUpTo n row = row.id_evento ≤ n

due-IsUpTo :
    (branch current watermark n : ℕ) (outbox : List Row)
    → All (IsUpTo watermark) (take n (filter (is_due branch current watermark) outbox))
due-IsUpTo branch current watermark n outbox = All-take (IsUpTo watermark) n _ (
    All-map (λ row. is_due branch current watermark row ≡ true) (IsUpTo watermark)
      (λ row due. unfold IsUpTo in ground (arith, due))
      (filter (is_due branch current watermark) outbox)
      (filter-All (is_due branch current watermark) outbox))

module _ (accepts : ℕ → Bool) (cfg : DispatcherConfig) (ready : (n : ℕ) → accepts n ≡ true)
    (room : 0 < cfg.client_buffer_max) (branch sent : ℕ) (written : List Frame) where
  abbrev ahead : Subscriber
  ahead = idle branch (some sent) written

  deliver-stale :
      (row : Row) → IsUpTo sent row → deliver accepts cfg.client_buffer_max row ahead ≡ ahead
  unfolding IsUpTo
  deliver-stale row a =
      deliver-idle accepts cfg.client_buffer_max ready room branch (some sent) written row
      ∙ ground (arith, a)

  replay_rows-stale :
      (rows : List Row) (left current : ℕ)
      → All (IsUpTo sent) rows
      → (replay_rows accepts cfg rows left current ahead).subscriber ≡ ahead
  unfolding replay_rows
  replay_rows-stale [] left current a = refl
  replay_rows-stale (row ∷ rows) zero current a = refl
  replay_rows-stale (row ∷ rows) (suc left) current a =
      ap (λ s. (replay_rows accepts cfg rows left row.id_evento s).subscriber)
        (deliver-stale row a.0)
      ∙ replay_rows-stale rows left row.id_evento a.1

  replay_from-stale :
      (fuel : ℕ) (outbox : List Row) (watermark left current : ℕ)
      → watermark ≤ sent
      → (replay_from accepts cfg fuel outbox watermark left current ahead).subscriber ≡ ahead
  unfolding replay_from
  replay_from-stale zero outbox watermark left current h = refl
  replay_from-stale (suc fuel) outbox watermark left current h =
      let rows = take cfg.replay_batch_size (filter (is_due branch current watermark) outbox) in
      let same = replay_rows-stale rows left current (
        All-map (IsUpTo watermark) (IsUpTo sent) (λ row a. unfold IsUpTo in omega (arith, a, h))
          rows (due-IsUpTo branch current watermark cfg.replay_batch_size outbox)) in
      let batch = replay_rows accepts cfg rows left current ahead in
      elim (Bool-cases (ltb current watermark)) [
        | inr reached ↦ rw reached refl
        | inl before ↦ elim (Bool-cases batch.exceeded) [
          | inl exceeded ↦ rw (before, exceeded) same
          | inr within ↦
              elim (Bool-cases (length rows == 0 || ltb (length rows) cfg.replay_batch_size)) [
                | inl short ↦ rw (before, within, short) same
                | inr full ↦
                    rw (before, within, full)
                      (ap
                          (λ s.
                            (replay_from accepts cfg fuel outbox watermark batch.left batch.current
                              s).subscriber)
                          same
                        ∙ replay_from-stale fuel outbox watermark batch.left batch.current h)
              ]
        ]
      ]

  replay-stale :
      (outbox : List Row) (watermark last_event_id : ℕ)
      → watermark ≤ sent
      → (replay accepts cfg outbox watermark last_event_id ahead).subscriber ≡ ahead
  unfolding replay
  replay-stale outbox watermark last_event_id h =
      elim (Bool-cases (ltb (max_id outbox) last_event_id)) [
        | inl unknown ↦ rw unknown refl
        | inr known ↦
            elim (Bool-cases (ltb 0 (min_id outbox) && ltb last_event_id (min_id outbox - 1))) [
              | inl gone ↦ rw (known, gone) refl
              | inr there ↦
                  rw (known, there)
                    (replay_from-stale (suc watermark) outbox watermark cfg.replay_max_events
                      last_event_id h)
            ]
      ]

deliver-opened :
    (accepts : ℕ → Bool) (cfg : DispatcherConfig) (branch : ℕ) (row : Row)
    → ((n : ℕ) → accepts n ≡ true)
    → 0 < cfg.client_buffer_max
    → row.id_sucursal == branch ≡ true
    → deliver accepts cfg.client_buffer_max row (idle branch none [])
      ≡ idle branch (some row.id_evento) (change row ∷ [])
deliver-opened accepts cfg branch row ready room same =
    deliver-idle accepts cfg.client_buffer_max ready room branch none [] row ∙ rw same refl

live-stale :
    (accepts : ℕ → Bool) (cfg : DispatcherConfig) (branch sent : ℕ) (written : List Frame)
    (outbox : List Row) (watermark last_event_id : ℕ)
    → ((n : ℕ) → accepts n ≡ true)
    → 0 < cfg.client_buffer_max
    → watermark ≤ sent
    → is_replayed
        (replay accepts cfg outbox watermark last_event_id (idle branch (some sent) written)).result
      ≡ true
    → (go_live accepts cfg outbox watermark
        (some last_event_id)
        (idle branch (some sent) written)).written
      ≡ written
unfolding go_live flush flush_queue
live-stale accepts cfg branch sent written outbox watermark last_event_id ready room h ok =
    rw
      (ok, replay-stale accepts cfg ready room branch sent written outbox watermark last_event_id h)
      refl

-- Where a stream is opened to go on after an event, and a poll brings a row of its branch, whose id the
-- watermark does not exceed, before the replay begins, the replay passes on no row at all: where it
-- answers that all is replayed, the stream has been given the polled row and nothing else, whatever rows
-- the outbox holds between the event and the watermark. The socket takes every frame, and the buffer has
-- room for one.
pub go_live-loses :
    (accepts : ℕ → Bool) (cfg : DispatcherConfig) (branch : ℕ) (row : Row) (outbox : List Row)
    (watermark last_event_id : ℕ)
    → ((n : ℕ) → accepts n ≡ true)
    → 0 < cfg.client_buffer_max
    → row.id_sucursal == branch ≡ true
    → watermark ≤ row.id_evento
    → is_replayed
        (replay accepts cfg outbox watermark last_event_id
          (deliver accepts cfg.client_buffer_max row (idle branch none []))).result
      ≡ true
    → (go_live accepts cfg outbox watermark
        (some last_event_id)
        (deliver accepts cfg.client_buffer_max row (idle branch none []))).written
      ≡ change row ∷ []
go_live-loses accepts cfg branch row outbox watermark last_event_id ready room same h ok =
    let opened = deliver-opened accepts cfg branch row ready room same in
    ap (λ s. (go_live accepts cfg outbox watermark (some last_event_id) s).written) opened
    ∙ live-stale accepts cfg branch row.id_evento (change row ∷ []) outbox watermark last_event_id
        ready room h
        (subst
          (λ s. is_replayed (replay accepts cfg outbox watermark last_event_id s).result ≡ true)
          opened ok)
