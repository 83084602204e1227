-- ===== src/Promotions/Discount/Bounds.antt =====
-- The limits on the amount of a promotion.
use native.Mathlib.Nat.{le_trans, lt_of_mul-lt-mul_left, mul-le-mul_left}
use masterfadebackend.Prelude.{
  Option-cases, ltb→lt, List, [], ◌∷◌, refl, min, ap₂, ◌∙◌, ℕ, zero, suc, ◌+◌, ◌*◌, ◌/◌, ◌≤◌, ◌<◌,
  ◌≡◌, inl, inr, Option, none, some, Bool, true, false, arith, ltb, ◌==◌, Bool-cases,
}
use masterfadebackend.Promotions.Types.{
  Target, servicio, paquete, RuleItem, porcentaje, monto_fijo, bonificacion, other_type,
  DiscountType, Context, Candidate,
}
use masterfadebackend.Promotions.Discount.{
  Fraction, Stats, whole, bases, eligible_lines, or_one, required_by, stats_for, item_stats,
  target_stats, bonus_discount, raw_discount, cap_at, cap_at_max, to_fixed, settle_discount,
  calculate_discount,
}

-- A fraction of at most `cents`, with a divisor.
abbrev pub IsAtMost : ℕ → Fraction → Type 0
IsAtMost cents f = (f.num ≤ cents * f.den) × (0 < f.den)

div-le_of_lt : (a b c : ℕ) → a < b * (c + 1) → a / b ≤ c
div-le_of_lt a b c h = grind arith

pub to_fixed-le : (cents : ℕ) (f : Fraction) → IsAtMost cents f → to_fixed f ≤ cents
unfolding to_fixed
to_fixed-le cents f h = div-le_of_lt (2 * f.num + f.den) (2 * f.den) cents (omega (arith, h.0, h.1))

cap_at-IsAtMost : (cents : ℕ) (f : Fraction) → 0 < f.den → IsAtMost cents (cap_at cents f)
unfolding cap_at
cap_at-IsAtMost cents f h = ground arith

to_fixed-whole : (n : ℕ) → to_fixed (whole n) ≡ n
unfolding to_fixed
to_fixed-whole n = omega arith

cap_at_max-pos : (m : Option ℕ) (f : Fraction) → 0 < f.den → 0 < (cap_at_max m f).den
unfolding cap_at_max cap_at
cap_at_max-pos none f h = h
cap_at_max-pos (some c) f h = ground arith

cap_at-keeps : (b c : ℕ) (f : Fraction) → IsAtMost b f → IsAtMost b (cap_at c f)
unfolding cap_at
cap_at-keeps b c f h = elim (Bool-cases (ltb (c * f.den) f.num)) [
  | inl over ↦
      let below : c * f.den < b * f.den = le_trans (ltb→lt _ _ over) h.0 in
      let flipped : f.den * c < f.den * b = omega arith in
      rw over (omega (arith, lt_of_mul-lt-mul_left f.den flipped), omega arith)
  | inr under ↦ rw under h
]

bonus_discount-pos :
    (s : Stats) (m : Option ℕ) → 0 < s.required_quantity → 0 < (bonus_discount s m).den
unfolding bonus_discount
bonus_discount-pos s m h = ground arith

or_one-pos : (n : ℕ) → 0 < or_one n
or_one-pos zero = omega arith
or_one-pos (suc n) = omega arith

required_by-pos : (items : List RuleItem) (n : ℕ) → 0 < required_by items n
required_by-pos [] n = or_one-pos n
required_by-pos (i ∷ is) n = elim (Option-cases i.cantidad_minima) [
  | inl e ↦ rw e (or_one-pos n)
  | inr (m, e) ↦ rw e (or_one-pos m)
]

stats_for-required :
    (t : Option Target) (ctx : Context) (items : List RuleItem) (required bonus : ℕ)
    → (stats_for t ctx items required bonus).required_quantity ≡ required
unfolding stats_for item_stats
stats_for-required (some servicio) ctx items required bonus = refl
stats_for-required (some paquete) ctx items required bonus = refl
stats_for-required _ ctx items required bonus = refl

target_stats-required : (ctx : Context) (c : Candidate) → 0 < (target_stats ctx c).required_quantity
unfolding target_stats
target_stats-required ctx c =
    rw (stats_for-required c.aplica_a ctx c.items (required_by c.items c.cantidad_requerida))
      (required_by-pos c.items c.cantidad_requerida)

raw_discount-pos :
    (t : DiscountType) (two : Bool) (subtotal value : ℕ) (bonus : Fraction)
    → 0 < bonus.den
    → 0 < (raw_discount t two subtotal value bonus).den
unfolding raw_discount
raw_discount-pos porcentaje two subtotal value bonus h = omega arith
raw_discount-pos monto_fijo two subtotal value bonus h = omega arith
raw_discount-pos bonificacion two subtotal value bonus h = h
raw_discount-pos other_type true subtotal value bonus h = h
raw_discount-pos other_type false subtotal value bonus h = omega arith

settle_discount-le :
    (subtotal : ℕ) (max : Option ℕ) (raw : Fraction)
    → 0 < raw.den
    → settle_discount subtotal max raw ≤ subtotal
unfolding settle_discount
settle_discount-le subtotal max raw pos = elim (Bool-cases (raw.num == 0)) [
  | inl none_left ↦ rw none_left (omega arith)
  | inr some_left ↦
      rw some_left
        (to_fixed-le subtotal _ (cap_at-IsAtMost subtotal _ (cap_at_max-pos max raw pos)))
]

settle_discount-le_max :
    (subtotal m : ℕ) (raw : Fraction) → 0 < raw.den → settle_discount subtotal (some m) raw ≤ m
unfolding settle_discount cap_at_max
settle_discount-le_max subtotal m raw pos = elim (Bool-cases (raw.num == 0)) [
  | inl none_left ↦ rw none_left (omega arith)
  | inr some_left ↦
      rw some_left (to_fixed-le m _ (cap_at-keeps m subtotal _ (cap_at-IsAtMost m raw pos)))
]

raw_of : Context → Candidate → Fraction
raw_of ctx c =
    raw_discount c.tipo_descuento c.mecanica_dos_por_uno (bases (eligible_lines ctx c)) c.valor
      (bonus_discount (target_stats ctx c) c.max_usos_por_reserva)

raw_of-pos : (ctx : Context) (c : Candidate) → 0 < (raw_of ctx c).den
unfolding raw_of
raw_of-pos ctx c =
    raw_discount-pos c.tipo_descuento c.mecanica_dos_por_uno _ c.valor _
      (bonus_discount-pos _ c.max_usos_por_reserva (target_stats-required ctx c))

-- What a promotion may give of an eligible amount.
abbrev pub limit_of : Option ℕ → ℕ → ℕ
limit_of none subtotal = subtotal
limit_of (some m) subtotal = min m subtotal

settle_discount-limit :
    (subtotal : ℕ) (max : Option ℕ) (raw : Fraction)
    → 0 < raw.den
    → settle_discount subtotal max raw ≤ limit_of max subtotal
settle_discount-limit subtotal none raw pos = settle_discount-le subtotal none raw pos
settle_discount-limit subtotal (some m) raw pos =
    omega (
      arith,
      settle_discount-le subtotal (some m) raw pos,
      settle_discount-le_max subtotal m raw pos,
    )

-- A discount exceeds neither the amount available on the eligible lines nor the promotion's maximum.
pub calculate_discount_limit :
    (ctx : Context) (c : Candidate)
    → calculate_discount ctx c ≤ limit_of c.max_descuento (bases (eligible_lines ctx c))
unfolding calculate_discount raw_of
calculate_discount_limit ctx c =
    settle_discount-limit (bases (eligible_lines ctx c)) c.max_descuento (raw_of ctx c)
      (raw_of-pos ctx c)

limit_of-le : (max : Option ℕ) (subtotal : ℕ) → limit_of max subtotal ≤ subtotal
limit_of-le none subtotal = omega arith
limit_of-le (some m) subtotal = omega arith

pub calculate_discount-le :
    (ctx : Context) (c : Candidate) → calculate_discount ctx c ≤ bases (eligible_lines ctx c)
calculate_discount-le ctx c = omega (
  arith,
  calculate_discount_limit ctx c,
  limit_of-le c.max_descuento (bases (eligible_lines ctx c)),
)

settle_percentage :
    (subtotal value : ℕ)
    → value ≤ 10000
    → settle_discount subtotal none (record { num = subtotal * value; den = 10000 })
      ≡ (subtotal * value + 5000) / 10000
unfolding settle_discount cap_at_max cap_at to_fixed
settle_percentage subtotal value h =
    let small : subtotal * value ≤ subtotal * 10000 = mul-le-mul_left subtotal h in ground arith

settle_amount :
    (subtotal value : ℕ) → settle_discount subtotal none (whole value) ≡ min value subtotal
unfolding settle_discount cap_at_max cap_at to_fixed
settle_amount subtotal value = ground arith

-- The discount by its type and maximum, for whatever the other fields hold.
settled :
    (ctx : Context) (c : Candidate) {t : DiscountType}
    → c.max_descuento ≡ none
    → c.tipo_descuento ≡ t
    → let subtotal = bases (eligible_lines ctx c) in
      calculate_discount ctx c
      ≡ settle_discount subtotal none (
          raw_discount t c.mecanica_dos_por_uno subtotal c.valor
            (bonus_discount (target_stats ctx c) c.max_usos_por_reserva))
unfolding calculate_discount
settled ctx c h e =
    let subtotal = bases (eligible_lines ctx c) in
    let bonus = bonus_discount (target_stats ctx c) c.max_usos_por_reserva in
    ap₂
      (λ m t.
        settle_discount subtotal m (raw_discount t c.mecanica_dos_por_uno subtotal c.valor bonus))
      h e

-- Without a maximum, a percentage of at most a hundred gives that share of the eligible amount,
-- rounded to the cent.
pub calculate_discount-percentage :
    (ctx : Context) (c : Candidate)
    → c.max_descuento ≡ none
    → c.tipo_descuento ≡ porcentaje
    → c.valor ≤ 10000
    → calculate_discount ctx c ≡ (bases (eligible_lines ctx c) * c.valor + 5000) / 10000
unfolding raw_discount
calculate_discount-percentage ctx c h e k =
    settled ctx c h e ∙ settle_percentage (bases (eligible_lines ctx c)) c.valor k

-- Without a maximum, a fixed amount is given as it is, up to the eligible amount.
pub calculate_discount-amount :
    (ctx : Context) (c : Candidate)
    → c.max_descuento ≡ none
    → c.tipo_descuento ≡ monto_fijo
    → calculate_discount ctx c ≡ min c.valor (bases (eligible_lines ctx c))
unfolding raw_discount
calculate_discount-amount ctx c h e =
    settled ctx c h e ∙ settle_amount (bases (eligible_lines ctx c)) c.valor
