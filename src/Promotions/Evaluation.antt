-- ===== src/Promotions/Evaluation.antt =====
-- `evaluatePromotions` of services/promociones/promocionesEngine.js: validity, usage limits, amount and
-- allocation of each candidate.
pub mod Outcome
use Prim.Native.String.{String}
use masterfadebackend.Prelude.{
  ℕ, ◌+◌, ◌-◌, ◌%◌, max, List, [], ◌∷◌, ◌++◌, map, Option, none, some, Bool, true, false, ◌&&◌, ltb,
  leb, if◌then◌else◌,
}
use masterfadebackend.Discounts.Allocation.{Line, Allocation, AllocationError, Allocated, allocate}
use masterfadebackend.Discounts.Allocation
use masterfadebackend.Promotions.Types.{
  Target, reserva, titular, servicio, paquete, DiscountLine, Context, RuleItem, PromotionCode,
  Period, dia, semana, mes, total, Quota, Candidate,
}
use masterfadebackend.Promotions.Discount.{
  target_or_default, bases, eligible_lines, service_ids, package_ids, calculate_discount,
}
use masterfadebackend.Promotions.Validation.{
  AppliedCode, applicable_code, Check, Reason, max_usos_reserva, max_usos_cliente,
  max_usos_cliente_codigo, cupo_agotado, first_failure, validate, is_some,
}

-- The period of a quota at the booking's date: a day, the Monday of a week, a month, or all time.
pub data PeriodKey : Type 0 where
  day_key week_key month_key : ℕ → PeriodKey
  total_key : PeriodKey

pub record QuotaKey : Type 0 where
  pub id_promocion_regla : String
  pub periodo : PeriodKey
  pub sucursal : Option String
  pub barbero : Option String

-- The uses counted so far, 0 where the source's maps have no entry.
pub record Usage : Type 0 where
  pub by_rule : String → ℕ
  pub by_rule_client : String → String → ℕ
  pub by_rule_period : QuotaKey → ℕ

-- What a promotion locks.
pub data TargetKey : Type 0 where
  servicio_key paquete_key grupo_key : String → TargetKey

pub record Evaluated : Type 0 where
  pub id_promocion_regla : String
  pub prioridad_aplicacion : Option ℕ
  pub es_acumulable : Bool
  pub is_valid : Bool
  pub reason_code : Option Reason
  pub base_calculo : ℕ
  pub descuento_calculado : ℕ
  pub target_keys : List TargetKey
  pub line_allocations : List Allocation
  pub code : Option AppliedCode

-- `evaluatePromotions` throws where an allocation does.
pub data Evaluation : Type 0 where
  ok : List Evaluated → Evaluation
  err : AllocationError → Evaluation

-- `toWeekKey`: the Monday of the week of a day counted from Thursday 1 January 1970.
pub to_week_key : ℕ → ℕ
to_week_key day = day - (day + 3) % 7

reaches : Option ℕ → ℕ → Bool
reaches none used = false
reaches (some limit) used = leb limit used

reaches_by_client : Option ℕ → Option String → (String → ℕ) → Bool
unfolding reaches
reaches_by_client limit none used = false
reaches_by_client limit (some client) used = reaches limit (used client)

-- The greatest limit by client among the active codes.
max_by_client_code : List PromotionCode → ℕ
max_by_client_code [] = 0
max_by_client_code (c ∷ cs) =
    max (if c.activo then c.max_usos_por_cliente else 0) (max_by_client_code cs)

reaches_code_limit : ℕ → Option String → (String → ℕ) → Bool
reaches_code_limit limit none used = false
reaches_code_limit limit (some client) used = ltb 0 limit && leb limit (used client)

abbrev or_group : Option String → String
or_group none = "reserva"
or_group (some g) = g

abbrev or_keys : List TargetKey → TargetKey → List TargetKey
or_keys [] group = group ∷ []
or_keys (k ∷ ks) group = k ∷ ks

target_keys_for : Target → List RuleItem → TargetKey → List TargetKey
target_keys_for servicio items group = or_keys (map servicio_key (service_ids items)) group
target_keys_for paquete items group = or_keys (map paquete_key (package_ids items)) group
target_keys_for _ items group = group ∷ []

pub target_keys_of : Context → Candidate → List TargetKey
unfolding target_keys_for
target_keys_of ctx c =
    target_keys_for (target_or_default c.aplica_a) c.items (grupo_key (or_group ctx.id_grupo_cita))

abbrev pub allocation_line : DiscountLine → Line
allocation_line l = record { line_key = l.line_key; base_disponible = l.base_disponible }

-- `month_of` is the month of a day, `dateRef.slice(0, 7)`.
module _ (month_of : ℕ → ℕ) (usage : Usage) where
  period_key : Period → ℕ → PeriodKey
  unfolding to_week_key
  period_key dia day = day_key day
  period_key semana day = week_key (to_week_key day)
  period_key mes day = month_key (month_of day)
  period_key total day = total_key

  quota_exhausted : Context → Candidate → Quota → Bool
  unfolding period_key
  quota_exhausted ctx c q =
      let key : QuotaKey = record {
        id_promocion_regla = c.id_promocion_regla;
        periodo = period_key q.periodo ctx.fecha;
        sucursal = q.id_promocion_sucursal;
        barbero = q.id_empleado_barbero;
      } in
      q.activo && leb q.limite_usos (usage.by_rule_period key)

  -- The usage limits, in the order in which the source applies them to a valid candidate.
  pub usage_checks : Context → Candidate → List Check
  usage_checks ctx c =
      let by_client = usage.by_rule_client c.id_promocion_regla in
      (reaches c.max_usos_por_reserva (usage.by_rule c.id_promocion_regla), max_usos_reserva)
      ∷ (reaches_by_client c.max_usos_por_cliente ctx.cliente_key by_client, max_usos_cliente)
      ∷ (
        reaches_code_limit (max_by_client_code c.codes) ctx.cliente_key by_client,
        max_usos_cliente_codigo,
      )
      ∷ map (λ q. (quota_exhausted ctx c q, cupo_agotado)) c.cupos

  after_validation : Option Reason → List Check → Option Reason
  after_validation (some r) limits = some r
  after_validation none limits = first_failure limits

  pub final_reason : (String → String) → Context → Candidate → Option Reason
  unfolding after_validation usage_checks
  final_reason normalize ctx c = after_validation (validate normalize ctx c) (usage_checks ctx c)

abbrev amount_if : Option Reason → ℕ → ℕ
amount_if none discount = discount
amount_if (some r) discount = 0

evaluated :
    (String → String) → Context → Candidate → Option Reason → ℕ → List Allocation → Evaluated
evaluated normalize ctx c reason discount allocations = record {
  id_promocion_regla = c.id_promocion_regla;
  prioridad_aplicacion = c.prioridad_aplicacion;
  es_acumulable = c.es_acumulable;
  is_valid = if is_some reason then false else true;
  reason_code = reason;
  base_calculo = bases (eligible_lines ctx c);
  descuento_calculado = discount;
  target_keys = target_keys_of ctx c;
  line_allocations = allocations;
  code = applicable_code normalize ctx c;
}

then_evaluated : (List Allocation → Evaluated) → Allocated → Evaluation → Evaluation
then_evaluated f (Allocated.ok given) (ok rest) = ok (f given ∷ rest)
then_evaluated f (Allocated.ok given) (err e) = err e
then_evaluated f (Allocated.err e) rest = err e

module _ (key_le : String → String → Bool) where
  -- An allocation is made for a positive discount only.
  pub allocations_for : List DiscountLine → ℕ → Allocated
  allocations_for lines discount =
      if ltb 0 discount
      then allocate key_le (map allocation_line lines) discount
      else Allocated.ok []

module _ (key_le : String → String → Bool) (normalize : String → String) (month_of : ℕ → ℕ) where
  pub evaluate_promotions : Context → Usage → List Candidate → Evaluation
  evaluate_promotions ctx usage [] = ok []
  evaluate_promotions ctx usage (c ∷ cs) =
      let reason = final_reason month_of usage normalize ctx c in
      let discount = amount_if reason (calculate_discount ctx c) in
      then_evaluated (evaluated normalize ctx c reason discount)
        (allocations_for key_le (eligible_lines ctx c) discount) (evaluate_promotions ctx usage cs)
