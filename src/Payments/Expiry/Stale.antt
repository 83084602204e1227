-- ===== src/Payments/Expiry/Stale.antt =====
-- What is left after the expiry: nothing that has run out, and nothing for a second expiry to do.
use masterfadebackend.Prelude.{
  ℕ, ◌+◌, ◌<◌, ◌≡◌, refl, inl, inr, List, [], ◌∷◌, map, Option, none, some, Bool, true, false, ◌&&◌,
  ◌||◌, arith, leb, ◌==◌, any, All, Bool-cases,
}
use masterfadebackend.Payments.{IntentState, Intent, Hold, Cita, Db, is_activo}
use masterfadebackend.Payments.Intents.{is_active_intent}
use masterfadebackend.Payments.Reconcile.{is_confirmada}
use masterfadebackend.Payments.Expiry.{
  is_stale, expire_hold, expire_cita, grace, miss_cita, holds_stale, cita_stale, lapse_intent,
  expire_stale,
}

-- No hold of the appointment is active beyond its time, and no appointment is confirmed that was missed.
pub record IsCurrent (now : ℕ) (c : Cita) : Type 0 where
  pub held : All (λ h. is_activo h.estado ≡ true → now < h.expires_at) c.holds
  pub met : is_confirmada c.estado ≡ true → now < c.inicio_at + grace

pub IsAlive : ℕ → Intent → Type 0
IsAlive now i = is_active_intent i.estado ≡ true → now < i.expires_at

expire_hold-alive :
    (now : ℕ) (h : Hold)
    → is_activo (expire_hold now h).estado ≡ true
    → now < (expire_hold now h).expires_at
unfolding expire_hold
expire_hold-alive now h e = ground arith

All-of :
    {A B : Type 0} (f : A → B) (P : B → Type 0)
    → ((x : A) → P (f x))
    → (xs : List A) → All P (map f xs)
All-of f P p [] = tt
All-of f P p (x ∷ xs) = (p x, All-of f P p xs)

miss_cita-holds : (now : ℕ) (c : Cita) → (miss_cita now c).holds ≡ c.holds
unfolding miss_cita
miss_cita-holds now c = ground arith

miss_cita-met :
    (now : ℕ) (c : Cita)
    → is_confirmada (miss_cita now c).estado ≡ true
    → now < (miss_cita now c).inicio_at + grace
unfolding miss_cita
miss_cita-met now c e = ground arith

cita-IsCurrent : (now : ℕ) (c : Cita) → IsCurrent now (miss_cita now (expire_cita now c))
unfolding expire_cita
cita-IsCurrent now c = record {
  held = rw (miss_cita-holds now (expire_cita now c)) (
      All-of (expire_hold now) (λ h. is_activo h.estado ≡ true → now < h.expires_at)
        (expire_hold-alive now) c.holds);
  met = miss_cita-met now (expire_cita now c);
}

intent-IsAlive : (now : ℕ) (cs : List Cita) (i : Intent) → IsAlive now (lapse_intent now cs i)
unfolding lapse_intent IsAlive
intent-IsAlive now cs i e = ground arith

hold-stale-false : (now : ℕ) (h : Hold) → is_stale now (expire_hold now h) ≡ false
unfolding expire_hold
hold-stale-false now h = ground arith

-- Nothing of the rows has run out.
pub record AllCurrent (now : ℕ) (db : Db) : Type 0 where
  pub citas : All (IsCurrent now) db.citas
  pub intents : All (IsAlive now) db.intents

none-stale : (now : ℕ) (hs : List Hold) → any (is_stale now) (map (expire_hold now) hs) ≡ false
none-stale now [] = refl
none-stale now (h ∷ hs) = rw (hold-stale-false now h) (none-stale now hs)

-- The rows of the citas after the expiry.
abbrev after : ℕ → Cita → Cita
after now c = miss_cita now (expire_cita now c)

after-stale : (now : ℕ) (c : Cita) → any (is_stale now) (after now c).holds ≡ false
unfolding expire_cita
after-stale now c = rw (miss_cita-holds now (expire_cita now c)) (none-stale now c.holds)

expire_hold-fresh : (now : ℕ) (h : Hold) → is_stale now h ≡ false → expire_hold now h ≡ h
unfolding expire_hold
expire_hold-fresh now h e = rw e refl

map-fresh :
    (now : ℕ) (hs : List Hold) → any (is_stale now) hs ≡ false → map (expire_hold now) hs ≡ hs
map-fresh now [] e = refl
map-fresh now (h ∷ hs) e =
    rw (expire_hold-fresh now h (ground arith), map-fresh now hs (ground arith)) refl

expire_cita-fresh :
    (now : ℕ) (c : Cita) → any (is_stale now) c.holds ≡ false → expire_cita now c ≡ c
unfolding expire_cita
expire_cita-fresh now c e = rw (e, map-fresh now c.holds e) refl

miss_cita-again : (now : ℕ) (c : Cita) → miss_cita now (miss_cita now c) ≡ miss_cita now c
unfolding miss_cita
miss_cita-again now c =
    elim (Bool-cases (is_confirmada c.estado && leb (c.inicio_at + grace) now)) [
      | inl hit ↦ rw hit refl
      | inr fine ↦ rw (fine, fine) refl
    ]

after-again : (now : ℕ) (c : Cita) → after now (after now c) ≡ after now c
after-again now c =
    rw (expire_cita-fresh now (after now c) (after-stale now c))
      (miss_cita-again now (expire_cita now c))

map-again :
    {A : Type 0} (f g : A → A)
    → ((x : A) → g (f x) ≡ f x)
    → (xs : List A) → map g (map f xs) ≡ map f xs
map-again f g same [] = refl
map-again f g same (x ∷ xs) = rw (same x, map-again f g same xs) refl

-- What makes an intent lapse.
abbrev lapses : ℕ → List Cita → Intent → Bool
lapses now cs i =
    is_active_intent i.estado
    && (leb i.expires_at now || holds_stale now i.id_hold cs || cita_stale now i.id_cita cs)

lapse_intent-kept :
    (now : ℕ) (cs : List Cita) (i : Intent) → lapses now cs i ≡ false → lapse_intent now cs i ≡ i
unfolding lapse_intent
lapse_intent-kept now cs i e = rw e refl

lapse_intent-expirado :
    (now : ℕ) (cs : List Cita) (i : Intent)
    → lapses now cs i ≡ true
    → lapse_intent now cs i ≡ record i { estado = IntentState.expirado }
unfolding lapse_intent
lapse_intent-expirado now cs i e = rw e refl

without : (a b h c : Bool) → (a && (b || h || c)) ≡ false → (a && (b || false || false)) ≡ false
without a b h c e = ground arith

lapse_intent-again :
    (now : ℕ) (cs ds : List Cita)
    → ((id : Option ℕ) → holds_stale now id ds ≡ false)
    → ((id : ℕ) → cita_stale now id ds ≡ false)
    → (i : Intent) → lapse_intent now ds (lapse_intent now cs i) ≡ lapse_intent now cs i
lapse_intent-again now cs ds h c i = elim (Bool-cases (lapses now cs i)) [
  | inl out ↦
      rw (lapse_intent-expirado now cs i out)
        (lapse_intent-kept now ds (record i { estado = IntentState.expirado }) refl)
  | inr in' ↦ rw (lapse_intent-kept now cs i in') (
      lapse_intent-kept now ds i (
        rw (h i.id_hold, c i.id_cita)
          (without (is_active_intent i.estado) (leb i.expires_at now) (holds_stale now i.id_hold cs)
            (cita_stale now i.id_cita cs) in')))
]

and_false : (b : Bool) → (b && false) ≡ false
and_false true = refl
and_false false = refl

none-of :
    (now id : ℕ) (hs : List Hold)
    → any (is_stale now) hs ≡ false
    → any (λ h. h.id_hold == id && is_stale now h) hs ≡ false
none-of now id [] e = refl
none-of now id (h ∷ hs) e = (let rest = none-of now id hs (ground arith) in ground arith)

holds_stale-after :
    (now : ℕ) (id : Option ℕ) (cs : List Cita) → holds_stale now id (map (after now) cs) ≡ false
holds_stale-after now none cs = refl
holds_stale-after now (some id) [] = refl
holds_stale-after now (some id) (c ∷ cs) =
    rw (none-of now id (after now c).holds (after-stale now c)) (holds_stale-after now (some id) cs)

cita_stale-after : (now id : ℕ) (cs : List Cita) → cita_stale now id (map (after now) cs) ≡ false
cita_stale-after now id [] = refl
cita_stale-after now id (c ∷ cs) =
    rw (after-stale now c, and_false ((after now c).id_cita == id)) (cita_stale-after now id cs)

expire_stale-AllCurrent : (now : ℕ) (db : Db) → AllCurrent now (expire_stale now db)
unfolding expire_stale
expire_stale-AllCurrent now db = record {
  citas = All-of (after now) (IsCurrent now) (cita-IsCurrent now) db.citas;
  intents =
      All-of (lapse_intent now db.citas) (IsAlive now) (intent-IsAlive now db.citas) db.intents;
}

-- After an expiry, no active hold and no intent that waits for its payment has run out, and no appointment
-- is confirmed that began five minutes ago; and an expiry at the same instant changes nothing more.
pub expire_stale_settles :
    (now : ℕ) (db : Db)
    → AllCurrent now (expire_stale now db)
      × (expire_stale now (expire_stale now db) ≡ expire_stale now db)
unfolding expire_stale
expire_stale_settles now db = (
  expire_stale-AllCurrent now db,
  rw
      (
        map-again (after now) (after now) (after-again now) db.citas,
        map-again (lapse_intent now db.citas) (lapse_intent now (map (after now) db.citas))
            (lapse_intent-again now db.citas (map (after now) db.citas)
              (λ id. holds_stale-after now id db.citas) (λ id. cita_stale-after now id db.citas))
            db.intents,
      )
      refl,
)
