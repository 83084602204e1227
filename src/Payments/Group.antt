-- ===== src/Payments/Group.antt =====
-- The checks on a group of appointments before money moves: `assertPublicGroupPayable`,
-- `resolveGroupExpiresAt`, `isRevalidatedPaymentGroupValid` and `activatePixelPayDirectIntent` of
-- routes/v1/public/pagos.js.
pub mod Holds
use masterfadebackend.Prelude.{
  ℕ, min, List, [], ◌∷◌, map, Option, none, some, Bool, true, false, ◌&&◌, ◌||◌, not, ltb, leb,
  ◌==◌, any, length, if◌then◌else◌,
}
use masterfadebackend.Payments.{
  creado, link_generado, en_espera, pendiente_pago, CitaState, HoldState, GroupState, Intent, Hold,
  Cita, Db, GroupRow, is_creado, is_payable_cita, is_activo, is_open_group, find_intent, of_group,
  group_citas, holds_of,
}

abbrev first_open : List GroupRow → Bool
first_open [] = true
first_open (r ∷ rs) = is_open_group r.estado_grupo

-- `assertPublicGroupPayable`: whether it passes.
unfoldable pub is_payable : List GroupRow → Bool
is_payable rows = first_open rows && not (any (λ r. not (is_payable_cita r.estado_cita)) rows)

abbrev earlier : Option ℕ → ℕ → Option ℕ
earlier none t = some t
earlier (some s) t = some (min s t)

-- The loop of `resolveGroupExpiresAt` from the nearest expiry so far; `none` where it throws.
unfoldable pub nearest_expiry : ℕ → Option ℕ → List GroupRow → Option ℕ
nearest_expiry now nearest [] = nearest
nearest_expiry now nearest (r ∷ rs) = elim r.hold [
  | none ↦ none
  | some h ↦
      if is_activo h.estado && ltb now h.expires_at
      then nearest_expiry now (earlier nearest h.expires_at) rs
      else none
]

unfoldable pub group_expires_at : ℕ → List GroupRow → Option ℕ
unfolding nearest_expiry
group_expires_at now rows = nearest_expiry now none rows

abbrev pub has_id : ℕ → List ℕ → Bool
has_id id ids = any (λ x. x == id) ids

-- The ids of the locked appointments, each once, where all of them may be paid.
unfoldable pub payable_ids : List ℕ → List Cita → Option (List ℕ)
payable_ids seen [] = some seen
payable_ids seen (c ∷ cs) =
    if has_id c.id_cita seen || not (is_payable_cita c.estado)
    then none
    else payable_ids (c.id_cita ∷ seen) cs

-- The ids of the appointments that the locked holds protect, each by one hold.
unfoldable pub held_ids : ℕ → List ℕ → List ℕ → List (ℕ × Hold) → Option (List ℕ)
held_ids now ids held [] = some held
held_ids now ids held ((id, h) ∷ hs) =
    if not (has_id id ids) || has_id id held || not (is_activo h.estado) || leb h.expires_at now
    then none
    else held_ids now ids (id ∷ held) hs

abbrev is_nonempty {ℓ} : {A : Type ℓ} → List A → Bool
is_nonempty [] = false
is_nonempty (x ∷ xs) = true

abbrev same_size : Option (List ℕ) → Option (List ℕ) → Bool
same_size (some ids) (some held) = length held == length ids
same_size none held = false
same_size (some ids) none = false

abbrev all_held : ℕ → Option (List ℕ) → List (ℕ × Hold) → Option (List ℕ)
all_held now none hs = none
all_held now (some ids) hs = held_ids now ids [] hs

-- `isRevalidatedPaymentGroupValid` for an intent that was found.
unfoldable pub is_revalidated : ℕ → List Cita → Intent → Bool
unfolding payable_ids held_ids
is_revalidated now citas i =
    is_nonempty citas
    && same_size (payable_ids [] citas) (all_held now (payable_ids [] citas) (holds_of citas))
    && is_creado i.estado
    && ltb now i.expires_at

abbrev pub to_link : ℕ → ℕ → Intent → Intent
to_link id order i =
    if i.id_intent == id && is_creado i.estado
    then record i { estado = link_generado; orden_compra = some order }
    else i

pub is_waiting : CitaState → Bool
is_waiting en_espera = true
is_waiting _ = false

unfoldable pub to_payment : ℕ → Cita → Cita
unfolding is_waiting
to_payment group c =
    if of_group group c && is_waiting c.estado then record c { estado = pendiente_pago } else c

-- `activatePixelPayDirectIntent`; `none` where it throws, which changes nothing.
unfoldable pub activate_found : ℕ → (group id order : ℕ) → Db → Option Intent → Option Db
unfolding to_payment
activate_found now group id order db none = none
activate_found now group id order db (some i) =
    if i.id_grupo_cita == group && is_revalidated now (group_citas group db) i
    then some (record db {
      intents = map (to_link id order) db.intents;
      citas = map (to_payment group) db.citas;
    })
    else none

unfoldable pub activate : ℕ → (group id order : ℕ) → Db → Option Db
unfolding activate_found
activate now group id order db = activate_found now group id order db (find_intent id db.intents)
