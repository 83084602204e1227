-- ===== src/Promotions/Validation.antt =====
-- `overlapsWindow`, `findApplicablePromotionCode` and `validatePromotionCandidate` of
-- services/promociones/promocionesEngine.js.
pub mod Eligible
pub mod Passing
use Prim.Native.String.{String}
use text.Mathlib.Text.{◌==◌ as str_eq}
use masterfadebackend.Prelude.{
  ℕ, ◌+◌, ◌%◌, List, [], ◌∷◌, Option, none, some, Bool, true, false, ◌&&◌, ◌||◌, not, ltb, leb,
  ◌==◌, if◌then◌else◌, any,
}
use masterfadebackend.Promotions.Types.{
  Target, reserva, titular, servicio, paquete, bonificacion, DiscountType, Item, Context, RuleItem,
  PromotionCode, Restriction, Candidate,
}
use masterfadebackend.Promotions.Discount.{Stats, bases, eligible_lines, target_stats}

-- A missing end leaves the window open; a window that ends before it starts wraps past midnight.
pub overlaps_window : ℕ → Option ℕ → Option ℕ → Bool
overlaps_window now (some start) (some end) =
    if start == end
    then false
    else if ltb start end
    then leb start now && leb now end
    else leb start now || leb now end
overlaps_window now _ _ = true

abbrev pub is_some {ℓ} : {A : Type ℓ} → Option A → Bool
is_some none = false
is_some (some a) = true

abbrev pub is_before : ℕ → Option ℕ → Bool
is_before t none = false
is_before t (some from) = ltb t from

abbrev pub is_after : ℕ → Option ℕ → Bool
is_after t none = false
is_after t (some until) = ltb until t

-- A code with what the evaluation keeps of it.
pub record AppliedCode : Type 0 where
  pub id_promocion_codigo : Option String
  pub snapshot : String

-- `normalize` is `normalizeCode`: `trim` and `toLowerCase`.
module _ (normalize : String → String) where
  pub code_matches : String → ℕ → PromotionCode → Bool
  code_matches current now code =
      code.activo
      && not (str_eq (normalize code.codigo) "")
      && str_eq (normalize code.codigo) current
      && not (is_before now code.vigencia_desde)
      && not (is_after now code.vigencia_hasta)

  find_code : String → ℕ → List PromotionCode → Option AppliedCode
  unfolding code_matches
  find_code current now [] = none
  find_code current now (code ∷ rest) =
      if code_matches current now code
      then some (record { id_promocion_codigo = code.id_promocion_codigo; snapshot = code.codigo })
      else find_code current now rest

  -- The promotion's own code, where no code of its list applies.
  legacy_code : String → String → Option AppliedCode
  legacy_code current own =
      if not (str_eq (normalize own) "") && str_eq (normalize own) current
      then some (record { id_promocion_codigo = none; snapshot = own })
      else none

  or_else : Option AppliedCode → Option AppliedCode → Option AppliedCode
  or_else none b = b
  or_else (some a) b = some a

  pub applicable_code : Context → Candidate → Option AppliedCode
  unfolding find_code legacy_code or_else
  applicable_code ctx c =
      let current = normalize ctx.codigo_promocional in
      if str_eq current ""
      then none
      else or_else (find_code current ctx.ahora c.codes) (legacy_code current c.codigo_promocional)

abbrev same_text : Option String → String → Bool
same_text none s = false
same_text (some t) s = not (str_eq t "") && str_eq t s

-- Both are given, and they differ.
differ : Option String → Option String → Bool
differ (some a) (some b) = not (str_eq a b)
differ _ _ = false

abbrev other_number : Option ℕ → ℕ → Bool
other_number none n = false
other_number (some m) n = not (m == n)

unfoldable pub outside_hours : Option ℕ → Option ℕ → Option ℕ → Bool
unfolding overlaps_window
outside_hours (some now) start end =
    (is_some start || is_some end) && not (overlaps_window now start end)
outside_hours none start end = false

pub data Reason : Type 0 where
  promocion_no_publicada regla_inactiva fuera_de_vigencia fuera_de_horario min_subtotal : Reason
  codigo_invalido restriccion item_no_aplica sin_lineas_elegibles : Reason
  cantidad_minima_no_cumplida cliente_requerido : Reason
  max_usos_reserva max_usos_cliente max_usos_cliente_codigo cupo_agotado no_compatible : Reason

-- A chain of `if (test) return { valid: false, reasonCode }`: the first test that holds decides.
abbrev pub Check : Type 0
Check = Bool × Reason

pub first_failure : List Check → Option Reason
first_failure [] = none
first_failure ((failed, reason) ∷ rest) = if failed then some reason else first_failure rest

abbrev is_servicio_or_paquete : Option Target → Bool
is_servicio_or_paquete (some servicio) = true
is_servicio_or_paquete (some paquete) = true
is_servicio_or_paquete _ = false

abbrev is_line_target : Option Target → Bool
is_line_target (some servicio) = true
is_line_target (some titular) = true
is_line_target (some reserva) = true
is_line_target _ = false

abbrev pub is_bonus : DiscountType → Bool → Bool
is_bonus bonificacion two = true
is_bonus _ two = two

abbrev pub is_positive : Option ℕ → Bool
is_positive none = false
is_positive (some n) = ltb 0 n

pub item_matches : Context → RuleItem → Bool
item_matches ctx i =
    any (λ s. same_text i.id_servicio s.id) ctx.servicios
    || any (λ p. same_text i.id_paquete p.id) ctx.paquetes

abbrev pub nonempty {ℓ} : {A : Type ℓ} → List A → Bool
nonempty [] = false
nonempty (x ∷ xs) = true

-- `getDay`, from Sunday, of a day counted from Thursday 1 January 1970.
abbrev weekday : ℕ → ℕ
weekday day = (day + 4) % 7

module _ (normalize : String → String) where
  -- The loop over the restrictions stops at the first that allows the booking.
  pub allows : Context → Restriction → Bool
  unfolding differ outside_hours
  allows ctx r =
      not (differ r.id_sucursal ctx.id_sucursal)
      && not (differ r.id_empleado_barbero ctx.id_empleado_barbero)
      && not (is_some r.id_empleado_barbero && not (is_some ctx.id_empleado_barbero))
      && not (other_number r.dia_semana (weekday ctx.fecha))
      && not (is_before ctx.fecha r.vigencia_desde_d)
      && not (is_after ctx.fecha r.vigencia_hasta_d)
      && not (outside_hours ctx.hora r.hora_inicio_min r.hora_fin_min)
      && not (r.solo_cliente_autenticado && not ctx.es_cliente_autenticado)
      && not (r.solo_titular && not ctx.es_titular)

  -- The checks in their order.
  pub checks : Context → Candidate → List Check
  checks ctx c =
      let stats = target_stats ctx c in
      let subtotal = bases (eligible_lines ctx c) in
      let bonus = is_bonus c.tipo_descuento c.mecanica_dos_por_uno in
      (not c.publicada && ctx.es_publico, promocion_no_publicada)
      ∷ (not c.regla_activa, regla_inactiva)
      ∷ (is_before ctx.fecha c.vigencia_desde, fuera_de_vigencia)
      ∷ (is_after ctx.fecha c.vigencia_hasta, fuera_de_vigencia)
      ∷ (outside_hours ctx.hora c.vigencia_hora_desde c.vigencia_hora_hasta, fuera_de_horario)
      ∷ (is_before subtotal c.min_subtotal, min_subtotal)
      ∷ (
        (c.requiere_codigo || c.modo_codigo) && not (is_some (applicable_code normalize ctx c)),
        codigo_invalido,
      )
      ∷ (nonempty c.restricciones && not (any (allows ctx) c.restricciones), restriccion)
      ∷ (
        nonempty c.items
            && not (any (item_matches ctx) c.items)
            && is_servicio_or_paquete c.aplica_a,
        item_no_aplica,
      )
      ∷ (is_line_target c.aplica_a && leb subtotal 0, sin_lineas_elegibles)
      ∷ (bonus && not stats.matched, item_no_aplica)
      ∷ (bonus && ltb stats.quantity stats.required_quantity, cantidad_minima_no_cumplida)
      ∷ (
        not (is_some ctx.cliente_key)
            && (is_positive c.max_usos_por_cliente
                || any (λ code. ltb 0 code.max_usos_por_cliente) c.codes),
        cliente_requerido,
      )
      ∷ []

  -- `none` is `valid: true`.
  unfoldable pub validate : Context → Candidate → Option Reason
  unfolding checks first_failure
  validate ctx c = first_failure (checks ctx c)
