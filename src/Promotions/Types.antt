-- ===== src/Promotions/Types.antt =====
-- The context of a booking and the candidates that services/promociones/promocionesEngine.js reads.
-- Amounts are whole cents, dates are day numbers, times of day are minutes, instants milliseconds.
use Prim.Native.String.{String}
use masterfadebackend.Prelude.{ℕ, List, Option, Bool}

-- `aplica_a_codigo`, after `trim` and `toLowerCase`.
pub data Target : Type 0 where
  reserva titular servicio paquete : Target
  other_target : String → Target

-- `tipo_descuento_codigo`; the last stands for any other text.
pub data DiscountType : Type 0 where
  porcentaje monto_fijo bonificacion other_type : DiscountType

pub record DiscountLine : Type 0 where
  pub line_key : String
  pub orden_integrante : ℕ
  pub id_servicio : String
  pub base_disponible : ℕ

-- A service or a package of the booking, with its unit price or its subtotal, if known.
pub record Item : Type 0 where
  pub id : String
  pub cantidad : ℕ
  pub precio : Option ℕ
  pub subtotal : Option ℕ

pub record Context : Type 0 where
  pub fecha : ℕ
  pub hora : Option ℕ
  pub ahora : ℕ
  pub id_sucursal : Option String
  pub id_empleado_barbero : Option String
  pub id_grupo_cita : Option String
  pub cliente_key : Option String
  pub es_cliente_autenticado : Bool
  pub es_titular : Bool
  pub es_publico : Bool
  pub codigo_promocional : String
  pub discount_lines : List DiscountLine
  pub servicios : List Item
  pub paquetes : List Item

pub record RuleItem : Type 0 where
  pub id_servicio : Option String
  pub id_paquete : Option String
  pub cantidad_minima : Option ℕ

pub record PromotionCode : Type 0 where
  pub id_promocion_codigo : Option String
  pub codigo : String
  pub activo : Bool
  pub vigencia_desde : Option ℕ
  pub vigencia_hasta : Option ℕ
  pub max_usos_por_cliente : ℕ

pub record Restriction : Type 0 where
  pub id_sucursal : Option String
  pub id_empleado_barbero : Option String
  pub dia_semana : Option ℕ
  pub vigencia_desde_d : Option ℕ
  pub vigencia_hasta_d : Option ℕ
  pub hora_inicio_min : Option ℕ
  pub hora_fin_min : Option ℕ
  pub solo_cliente_autenticado : Bool
  pub solo_titular : Bool

pub data Period : Type 0 where
  dia semana mes total : Period

pub record Quota : Type 0 where
  pub activo : Bool
  pub periodo : Period
  pub id_promocion_sucursal : Option String
  pub id_empleado_barbero : Option String
  pub limite_usos : ℕ

-- `valor` is in cents for a fixed amount and in hundredths of a percent for a percentage.
pub record Candidate : Type 0 where
  pub id_promocion_regla : String
  pub publicada : Bool
  pub regla_activa : Bool
  pub vigencia_desde : Option ℕ
  pub vigencia_hasta : Option ℕ
  pub vigencia_hora_desde : Option ℕ
  pub vigencia_hora_hasta : Option ℕ
  pub min_subtotal : Option ℕ
  pub requiere_codigo : Bool
  pub modo_codigo : Bool
  pub codigo_promocional : String
  pub codes : List PromotionCode
  pub restricciones : List Restriction
  pub items : List RuleItem
  pub aplica_a : Option Target
  pub tipo_descuento : DiscountType
  pub mecanica_dos_por_uno : Bool
  pub valor : ℕ
  pub max_descuento : Option ℕ
  pub cantidad_requerida : ℕ
  pub cantidad_bonificada : ℕ
  pub max_usos_por_reserva : Option ℕ
  pub max_usos_por_cliente : Option ℕ
  pub cupos : List Quota
  pub prioridad_aplicacion : Option ℕ
  pub es_acumulable : Bool
