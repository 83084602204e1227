-- ===== src/Promotions/Conflicts.antt =====
-- `resolvePromotionConflicts` and the amounts of `buildPromotionResult` in
-- services/promociones/promocionesEngine.js.
pub mod History
pub mod Partition
use Prim.Native.String.{String}
use text.Mathlib.Text.{◌==◌ as str_eq}
use masterfadebackend.Prelude.{
  ℕ, ◌+◌, ◌-◌, min, List, [], ◌∷◌, ◌++◌, Option, none, some, Bool, true, false, ◌&&◌, ◌||◌, not,
  ltb, leb, ◌==◌, if◌then◌else◌, sum_by, sort_by,
}
use masterfadebackend.Promotions.Validation.{no_compatible}
use masterfadebackend.Promotions.Evaluation.{
  TargetKey, servicio_key, paquete_key, grupo_key, Evaluated,
}

abbrev pub same_key : TargetKey → TargetKey → Bool
same_key (servicio_key a) (servicio_key b) = str_eq a b
same_key (paquete_key a) (paquete_key b) = str_eq a b
same_key (grupo_key a) (grupo_key b) = str_eq a b
same_key _ _ = false

abbrev pub priority : Option ℕ → ℕ
priority none = 100
priority (some n) = n

-- The comparison of the sort: by priority, and the greater discount first.
abbrev pub comes_first : Evaluated → Evaluated → Bool
comes_first a b =
    if priority a.prioridad_aplicacion == priority b.prioridad_aplicacion
    then leb b.descuento_calculado a.descuento_calculado
    else ltb (priority a.prioridad_aplicacion) (priority b.prioridad_aplicacion)

-- `itemLocks`: a key's owner is replaced in place.
abbrev pub Locks : Type 0
Locks = List (TargetKey × Evaluated)

pub owner_of : TargetKey → Locks → Option Evaluated
owner_of k [] = none
owner_of k ((j, e) ∷ rest) = if same_key j k then some e else owner_of k rest

pub put_lock : TargetKey → Evaluated → Locks → Locks
put_lock k e [] = (k, e) ∷ []
put_lock k e ((j, f) ∷ rest) = if same_key j k then (j, e) ∷ rest else (j, f) ∷ put_lock k e rest

pub put_locks : List TargetKey → Evaluated → Locks → Locks
put_locks [] e locks = locks
put_locks (k ∷ ks) e locks = put_locks ks e (put_lock k e locks)

pub take_locks : Evaluated → Locks → Locks
take_locks e locks = if e.es_acumulable then locks else put_locks e.target_keys e locks

pub record Resolved : Type 0 where
  pub applied : List Evaluated
  pub discarded : List Evaluated

abbrev pub is_applicable : Evaluated → Bool
is_applicable e = e.is_valid && ltb 0 e.descuento_calculado

abbrev pub apply_one : Evaluated → Resolved → Resolved
apply_one e r = record { applied = e ∷ r.applied; discarded = r.discarded }

abbrev pub discard_one : Evaluated → Resolved → Resolved
discard_one e r = record { applied = r.applied; discarded = e ∷ r.discarded }

abbrev pub not_compatible : Evaluated → Evaluated
not_compatible e = record e { reason_code = some no_compatible }

-- `compatible` looks the pair's key up in the compatibility map; the key sorts the two rules.
module _ (compatible : String → String → Bool) where
  abbrev pub clashes : Option Evaluated → Evaluated → Bool
  clashes none e = false
  clashes (some owner) e = not (compatible owner.id_promocion_regla e.id_promocion_regla)

  -- Whether the search for `conflictWith` finds one.
  pub in_conflict : List TargetKey → Evaluated → Locks → Bool
  in_conflict [] e locks = false
  in_conflict (k ∷ ks) e locks = clashes (owner_of k locks) e || in_conflict ks e locks

  -- The loop over the sorted candidates, with the locks taken so far.
  pub resolve_from : Locks → List Evaluated → Resolved
  resolve_from locks [] = record { applied = []; discarded = [] }
  resolve_from locks (e ∷ es) =
      let inapplicable = discard_one e (resolve_from locks es) in
      let conflict = discard_one (not_compatible e) (resolve_from locks es) in
      let taken = apply_one e (resolve_from (take_locks e locks) es) in
      if not (is_applicable e)
      then inapplicable
      else if in_conflict e.target_keys e locks
      then conflict
      else taken

  pub resolve_conflicts : List Evaluated → Resolved
  unfolding resolve_from
  resolve_conflicts es = resolve_from [] (sort_by comes_first es)

-- The amounts of the answer.
pub record Amounts : Type 0 where
  pub subtotal : ℕ
  pub descuento_total : ℕ
  pub total : ℕ

pub build_amounts : ℕ → Resolved → Amounts
build_amounts subtotal r =
    let capped = min (sum_by (λ e. e.descuento_calculado) r.applied) subtotal in
    record { subtotal = subtotal; descuento_total = capped; total = subtotal - capped }
