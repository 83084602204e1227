-- ===== src/Payments/Group/Holds.antt =====
-- An intent gets its link only while every appointment of its group is held.
use masterfadebackend.Prelude.{
  ℕ, ◌+◌, ◌≤◌, ◌<◌, ◌≡◌, refl, inl, inr, List, [], ◌∷◌, ◌++◌, Option, none, some, Bool, true, false,
  ◌&&◌, ◌||◌, not, arith, ltb, leb, ◌==◌, length, All, Bool-cases, eq→==, ltb→lt,
}
use masterfadebackend.Payments.{
  Intent, Hold, Cita, Db, is_creado, is_payable_cita, is_activo, find_intent, group_citas,
  with_cita, holds_of,
}
use masterfadebackend.Payments.Group.{
  has_id, payable_ids, held_ids, all_held, same_size, is_nonempty, is_revalidated, activate_found,
  activate,
}

-- The one hold of an appointment is active and has not expired.
pub data IsHeld (now : ℕ) (c : Cita) : Type 0 where
  held_by :
      (h : Hold)
      → c.holds ≡ h ∷ []
      → is_activo h.estado ≡ true
      → now < h.expires_at
      → is_payable_cita c.estado ≡ true
      → IsHeld now c

has_id-head : (id : ℕ) (ids : List ℕ) → has_id id (id ∷ ids) ≡ true
has_id-head id ids = rw (eq→== id id refl) refl

or_true : (b : Bool) → (b || true) ≡ true
or_true true = refl
or_true false = refl

passed :
    (a b c d : Bool) → (not a || b || not c || d) ≡ false → (b ≡ false) × (c ≡ true) × (d ≡ false)
passed a b c d e = ground arith

unexpired : (now t : ℕ) → leb t now ≡ false → now < t
unexpired now t e = ground arith

false-true : (b : Bool) → b ≡ true → b ≡ false → ⊥
false-true b e h = cc

-- The checks on one hold, before the rest of them.
abbrev refuses : ℕ → List ℕ → List ℕ → ℕ → Hold → Bool
refuses now ids held id h =
    not (has_id id ids) || has_id id held || not (is_activo h.estado) || leb h.expires_at now

module _ (now : ℕ) (ids k : List ℕ) where
  first-passes :
      (held : List ℕ) (id : ℕ) (h : Hold) (hs : List (ℕ × Hold))
      → held_ids now ids held ((id, h) ∷ hs) ≡ some k
      → (refuses now ids held id h ≡ false) × (held_ids now ids (id ∷ held) hs ≡ some k)
  unfolding held_ids
  first-passes held id h hs e = elim (Bool-cases (refuses now ids held id h)) [
    | inl bad ↦ (let wrong : none ≡ some k = rw bad at e in absurd (never wrong))
    | inr good ↦ (good, rw good at e)
  ]
    where
      never : {x : List ℕ} → none ≡ some x → ⊥
      never w = cc

  -- What the holds of the appointments that are left say of them.
  record Holding (held : List ℕ) (cs : List Cita) : Type 0 where
    le : length k ≤ length held + length cs
    tight :
        length held + length cs ≤ length k
        → All (λ c. is_payable_cita c.estado ≡ true) cs
        → All (IsHeld now) cs

  cita-IsHeld :
      (held : List ℕ) (c : Cita) (h : Hold)
      → c.holds ≡ h ∷ []
      → refuses now ids held c.id_cita h ≡ false
      → is_payable_cita c.estado ≡ true
      → IsHeld now c
  cita-IsHeld held c h one good pay =
      let parts =
        passed _ (has_id c.id_cita held) (is_activo h.estado) (leb h.expires_at now) good in
      held_by h one parts.1 (unexpired now h.expires_at parts.2) pay

  step :
      (held : List ℕ) (c : Cita) (cs : List Cita) (hs : List Hold)
      → c.holds ≡ hs
      → ((held' : List ℕ) → held_ids now ids held' (holds_of cs) ≡ some k → Holding held' cs)
      → held_ids now ids held (with_cita c.id_cita hs ++ holds_of cs) ≡ some k
      → Holding held (c ∷ cs)
  step held c cs [] e rest ok =
      let r = rest held ok in
      record { le = omega (arith, r.le); tight = λ full pay. absurd (omega (arith, r.le, full)) }
  step held c cs (h ∷ []) e rest ok =
      let (good, more) = first-passes held c.id_cita h (holds_of cs) ok in
      let r = rest (c.id_cita ∷ held) more in
      record {
        le = omega (arith, r.le);
        tight =
            λ full pay. (cita-IsHeld held c h e good pay.0, r.tight (omega (arith, full)) pay.1);
      }
  step held c cs (h ∷ g ∷ hs) e rest ok =
      let (good, more) = first-passes held c.id_cita h _ ok in
      let (second, _) = first-passes (c.id_cita ∷ held) c.id_cita g _ more in
      absurd (
        false-true (has_id c.id_cita (c.id_cita ∷ held)) (has_id-head c.id_cita held)
          (passed _ (has_id c.id_cita (c.id_cita ∷ held)) (is_activo g.estado)
            (leb g.expires_at now) second).0)

  holding :
      (held : List ℕ) (cs : List Cita)
      → held_ids now ids held (holds_of cs) ≡ some k
      → Holding held cs
  unfolding held_ids
  holding held [] e = record { le = ground arith; tight = λ full pay. tt }
  holding held (c ∷ cs) e = step held c cs c.holds refl (λ held' ok. holding held' cs ok) e

-- The ids are those of the appointments, all of which may be paid.
payable-All :
    (seen ids : List ℕ) (cs : List Cita)
    → payable_ids seen cs ≡ some ids
    → (length ids ≡ length seen + length cs) × All (λ c. is_payable_cita c.estado ≡ true) cs
unfolding payable_ids
payable-All seen ids [] e = (ground arith, tt)
payable-All seen ids (c ∷ cs) e =
    elim (Bool-cases (has_id c.id_cita seen || not (is_payable_cita c.estado))) [
      | inl bad ↦ (let wrong : none ≡ some ids = rw bad at e in cc)
      | inr good ↦
          let (size, pay) = payable-All (c.id_cita ∷ seen) ids cs (rw good at e) in
          (omega (arith, size), (ground arith, pay))
    ]

revalidated-All :
    (now : ℕ) (cs : List Cita) (p : Option (List ℕ)) (q : Option (List ℕ))
    → payable_ids [] cs ≡ p
    → all_held now p (holds_of cs) ≡ q
    → same_size p q ≡ true
    → All (IsHeld now) cs
revalidated-All now cs none none e h s = cc
revalidated-All now cs none (some k) e h s = cc
revalidated-All now cs (some ids) none e h s = cc
revalidated-All now cs (some ids) (some k) e h s =
    let (size, pay) = payable-All [] ids cs e in
    (holding now ids k [] cs h).tight (ground arith) pay

-- What the making of a link has checked.
pub record IsReady (now group : ℕ) (db : Db) (i : Intent) : Type 0 where
  pub of_group : i.id_grupo_cita ≡ group
  pub is_new : is_creado i.estado ≡ true
  pub unexpired : now < i.expires_at
  pub held : All (IsHeld now) (group_citas group db)

second_true : (a b : Bool) → (a && b) ≡ true → b ≡ true
second_true a b e = ground arith

four : (a b c d : Bool) → (a && b && c && d) ≡ true → (b ≡ true) × (c ≡ true) × (d ≡ true)
four a b c d e = ground arith

revalidated_parts :
    (now : ℕ) (cs : List Cita) (i : Intent)
    → is_revalidated now cs i ≡ true
    → (same_size (payable_ids [] cs) (all_held now (payable_ids [] cs) (holds_of cs)) ≡ true)
      × (is_creado i.estado ≡ true)
      × (ltb now i.expires_at ≡ true)
unfolding is_revalidated
revalidated_parts now cs i e =
    four (is_nonempty cs)
      (same_size (payable_ids [] cs) (all_held now (payable_ids [] cs) (holds_of cs)))
      (is_creado i.estado) (ltb now i.expires_at) e

ready :
    (now group : ℕ) (db : Db) (i : Intent)
    → ((i.id_grupo_cita == group) && is_revalidated now (group_citas group db) i) ≡ true
    → IsReady now group db i
ready now group db i good =
    let cs = group_citas group db in
    let (sizes, fresh, later) =
      revalidated_parts now cs i
        (second_true (i.id_grupo_cita == group) (is_revalidated now cs i) good) in
    record {
      of_group = ground arith;
      is_new = fresh;
      unexpired = ltb→lt now i.expires_at later;
      held =
          revalidated-All now cs (payable_ids [] cs)
            (all_held now (payable_ids [] cs) (holds_of cs)) refl refl sizes;
    }

found-IsReady :
    (now group id order : ℕ) (db after : Db) (i : Intent)
    → activate_found now group id order db (some i) ≡ some after
    → IsReady now group db i
unfolding activate_found
found-IsReady now group id order db after i e =
    elim (Bool-cases ((i.id_grupo_cita == group) && is_revalidated now (group_citas group db) i)) [
      | inr bad ↦ (let wrong : none ≡ some after = rw bad at e in cc)
      | inl good ↦ ready now group db i good
    ]

-- Where a link is made for an intent, the intent was created for the group and has not expired, and each
-- appointment of the group waits for its payment and has exactly one hold, active and not expired.
pub activate-IsReady :
    (now group id order : ℕ) (db after : Db) (i : Intent)
    → find_intent id db.intents ≡ some i
    → activate now group id order db ≡ some after
    → IsReady now group db i
unfolding activate
activate-IsReady now group id order db after i known e =
    found-IsReady now group id order db after i (rw known at e)
