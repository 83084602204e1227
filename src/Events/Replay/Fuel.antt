-- ===== src/Events/Replay/Fuel.antt =====
-- The fuel of a replay: each batch that goes on ends at a higher id.
use masterfadebackend.Prelude.{
  ℕ, zero, suc, ◌+◌, ◌≤◌, ◌<◌, ◌≡◌, refl, inl, inr, List, [], ◌∷◌, filter, length, take, Bool, true,
  false, ◌||◌, arith, ltb, ◌==◌, All, All-take, All-map, filter-All, Bool-cases,
}
use masterfadebackend.Events.Subscriber.{Row, Subscriber, deliver}
use masterfadebackend.Events.Dispatcher.{last_id}
use masterfadebackend.Events.Replay.{DispatcherConfig, replay_rows, replay_from, is_due}

IsAfter : ℕ → Row → Type 0
IsAfter n row = n < row.id_evento

due-IsAfter :
    (branch current watermark n : ℕ) (outbox : List Row)
    → All (IsAfter current) (take n (filter (is_due branch current watermark) outbox))
due-IsAfter branch current watermark n outbox = All-take (IsAfter current) n _ (
    All-map (λ row. is_due branch current watermark row ≡ true) (IsAfter current)
      (λ row due. unfold IsAfter in ground (arith, due))
      (filter (is_due branch current watermark) outbox)
      (filter-All (is_due branch current watermark) outbox))

last_id-lt :
    (n current : ℕ) (rows : List Row)
    → n < current
    → All (IsAfter n) rows
    → n < last_id current rows
last_id-lt n current [] h a = h
last_id-lt n current (row ∷ rows) h a = last_id-lt n row.id_evento rows (unfold IsAfter in a.0) a.1

rows-lt :
    (n : ℕ) (rows : List Row) → length rows == 0 ≡ false → All (IsAfter n) rows → n < last_id n rows
rows-lt n [] h a = ground arith
rows-lt n (row ∷ rows) h a = last_id-lt n row.id_evento rows (unfold IsAfter in a.0) a.1

replay_rows-current :
    (accepts : ℕ → Bool) (cfg : DispatcherConfig) (rows : List Row) (left current : ℕ)
    (s : Subscriber)
    → (replay_rows accepts cfg rows left current s).exceeded ≡ false
    → (replay_rows accepts cfg rows left current s).current ≡ last_id current rows
unfolding replay_rows
replay_rows-current accepts cfg [] left current s ok = refl
replay_rows-current accepts cfg (row ∷ rows) zero current s ok = cc
replay_rows-current accepts cfg (row ∷ rows) (suc left) current s ok =
    replay_rows-current accepts cfg rows left row.id_evento
      (deliver accepts cfg.client_buffer_max row s) ok

-- Where the fuel is at least what the watermark is above the current id, more fuel changes nothing.
pub replay_from-fuel :
    (accepts : ℕ → Bool) (cfg : DispatcherConfig) (fuel : ℕ) (outbox : List Row)
    (watermark left current : ℕ) (s : Subscriber)
    → watermark ≤ current + fuel
    → replay_from accepts cfg (suc fuel) outbox watermark left current s
      ≡ replay_from accepts cfg fuel outbox watermark left current s
unfolding replay_from
replay_from-fuel accepts cfg zero outbox watermark left current s h = ground arith
replay_from-fuel accepts cfg (suc fuel) outbox watermark left current s h =
    let rows =
      take cfg.replay_batch_size (filter (is_due s.id_sucursal current watermark) outbox) in
    let batch = replay_rows accepts cfg rows left current s in
    elim (Bool-cases (ltb current watermark)) [
      | inr reached ↦ rw reached refl
      | inl before ↦ elim (Bool-cases batch.exceeded) [
        | inl exceeded ↦ rw (before, exceeded) refl
        | inr within ↦
            elim (Bool-cases (length rows == 0 || ltb (length rows) cfg.replay_batch_size)) [
              | inl short ↦ rw (before, within, short) refl
              | inr full ↦
                  rw (before, within, full)
                    (replay_from-fuel accepts cfg fuel outbox watermark batch.left batch.current
                      batch.subscriber
                      (omega (
                        arith,
                        h,
                        replay_rows-current accepts cfg rows left current s within,
                        rows-lt current rows ground arith (
                            due-IsAfter s.id_sucursal current watermark cfg.replay_batch_size
                              outbox),
                      )))
            ]
      ]
    ]
