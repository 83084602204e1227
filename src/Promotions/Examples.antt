-- ===== src/Promotions/Examples.antt =====
-- A percentage and a fixed amount on a booking of two services, and three promotions in conflict.
use Prim.Native.String.{String}
use text.Mathlib.Text.{◌==◌ as str_eq}
use masterfadebackend.Prelude.{
  ℕ, ◌/◌, ◌≡◌, refl, List, [], ◌∷◌, Option, none, some, Bool, true, false, ◌&&◌, not,
}
use masterfadebackend.Promotions.Types.{
  Context, Candidate, DiscountType, porcentaje, monto_fijo, reserva,
}
use masterfadebackend.Promotions.Discount.{eligible_lines, target_stats}
use masterfadebackend.Promotions.Validation.{outside_hours, validate}
use masterfadebackend.Promotions.Validation.Eligible.{IsEligible, validate-IsEligible}
use masterfadebackend.Promotions.Evaluation.{Usage, Evaluated, servicio_key, evaluate_promotions}
use masterfadebackend.Promotions.Evaluation.Outcome.{Answers, evaluate_promotions-Answers}
use masterfadebackend.Promotions.Conflicts.{resolve_conflicts}
use masterfadebackend.Promotions.Conflicts.History.{
  IsAdmissible, resolve_conflicts-IsAdmissible, IsAlone,
}

abbrev key_le : String → String → Bool
key_le a b = str_eq a "corte"

abbrev normalize : String → String
normalize s = s

abbrev month_of : ℕ → ℕ
month_of day = day / 30

abbrev context : Context
context = record {
  fecha = 20000;
  hora = some 600;
  ahora = 1728000000000;
  id_sucursal = some "centro";
  id_empleado_barbero = none;
  id_grupo_cita = none;
  cliente_key = some "ana";
  es_cliente_autenticado = true;
  es_titular = true;
  es_publico = true;
  codigo_promocional = "";
  discount_lines =
      record {
        line_key = "barba";
        orden_integrante = 1;
        id_servicio = "barba";
        base_disponible = 10000;
      }
      ∷ record {
        line_key = "corte";
        orden_integrante = 1;
        id_servicio = "corte";
        base_disponible = 25050;
      }
      ∷ [];
  servicios = [];
  paquetes = [];
}

-- A published promotion on the whole booking.
abbrev offer : String → DiscountType → ℕ → Option ℕ → Candidate
offer id kind value most = record {
  id_promocion_regla = id;
  publicada = true;
  regla_activa = true;
  vigencia_desde = some 19990;
  vigencia_hasta = some 20010;
  vigencia_hora_desde = some 540;
  vigencia_hora_hasta = some 720;
  min_subtotal = some 10000;
  requiere_codigo = false;
  modo_codigo = false;
  codigo_promocional = "";
  codes = [];
  restricciones = [];
  items = [];
  aplica_a = some reserva;
  tipo_descuento = kind;
  mecanica_dos_por_uno = false;
  valor = value;
  max_descuento = most;
  cantidad_requerida = 1;
  cantidad_bonificada = 1;
  max_usos_por_reserva = none;
  max_usos_por_cliente = some 3;
  cupos = [];
  prioridad_aplicacion = some 10;
  es_acumulable = false;
}

abbrev tenth : Candidate
tenth = offer "decima" porcentaje 1000 none

abbrev fifty : Candidate
fifty = offer "cincuenta" monto_fijo 5000 none

abbrev usage : Usage
usage = record { by_rule = λ r. 0; by_rule_client = λ r c. 0; by_rule_period = λ k. 0 }

evaluate_promotions-Answers_example :
    Answers key_le normalize month_of
      (tenth ∷ fifty ∷ [])
      (evaluate_promotions key_le normalize month_of context usage (tenth ∷ fifty ∷ []))
evaluate_promotions-Answers_example =
    evaluate_promotions-Answers key_le normalize month_of context usage (tenth ∷ fifty ∷ [])

valid : validate normalize context tenth ≡ none
unfolding validate outside_hours eligible_lines target_stats
valid = refl

validate-IsEligible_example : IsEligible normalize context tenth
validate-IsEligible_example = validate-IsEligible normalize context tenth valid

-- A promotion of ten units on the cut, after those of a smaller number.
abbrev on_cut : String → ℕ → Evaluated
on_cut id order = record {
  id_promocion_regla = id;
  prioridad_aplicacion = some order;
  es_acumulable = false;
  is_valid = true;
  reason_code = none;
  base_calculo = 25050;
  descuento_calculado = 1000;
  target_keys = servicio_key "corte" ∷ [];
  line_allocations = [];
  code = none;
}

-- The first and the last of the three are not compatible.
abbrev compatible : String → String → Bool
compatible a b = not (str_eq a "a" && str_eq b "c")

abbrev three : List Evaluated
three = on_cut "a" 1 ∷ on_cut "b" 2 ∷ on_cut "c" 3 ∷ []

resolve_conflicts-IsAdmissible_example :
    IsAdmissible compatible [] (resolve_conflicts compatible three).applied
resolve_conflicts-IsAdmissible_example = resolve_conflicts-IsAdmissible compatible three

on_cut-IsAlone :
    (id : String) (order : ℕ) → IsAlone compatible (servicio_key "corte") (on_cut id order)
on_cut-IsAlone id order = record { fit = refl; alone = refl; one_key = refl }
