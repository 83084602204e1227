-- ===== src/Payments/Prices/Sums.antt =====
-- What the promotions of the lines add up to, as they are laid on them.
use masterfadebackend.Prelude.{
  ℕ, ◌+◌, ◌≡◌, refl, sym, ap, subst, ◌∙◌, inl, inr, List, [], ◌∷◌, Option, none, some, Bool, true,
  false, arith, ltb, ◌==◌, length, sum_by, All, Bool-cases, Option-cases, eq→==, if◌then◌else◌,
}
use masterfadebackend.Payments.Prices.{
  DetailRow, PromotionRow, distribute_from, distribute, Promos, add, add_each, find_detail,
  capacities, put_on_line, put_on_all, put, put_promotion, put_promotions,
}

-- No two lines have the same identifier.
unfoldable pub AreDistinct : List DetailRow → Type 0
AreDistinct [] = Unit
AreDistinct (r ∷ rs) =
    All (λ s. (s.id_cita_detalle == r.id_cita_detalle) ≡ false) rs × AreDistinct rs

abbrev pub on_rows : List DetailRow → Promos → ℕ
on_rows rows promos = sum_by (λ r. promos r.id_cita_detalle) rows

add_absent :
    (rows : List DetailRow) (promos : Promos) (id d : ℕ)
    → All (λ s. (s.id_cita_detalle == id) ≡ false) rows
    → on_rows rows (add promos id d) ≡ on_rows rows promos
add_absent [] promos id d a = refl
add_absent (r ∷ rs) promos id d a = rw (a.0, add_absent rs promos id d a.1) refl

absent-at :
    (rows : List DetailRow) (id k : ℕ)
    → (id == k) ≡ true
    → All (λ s. (s.id_cita_detalle == id) ≡ false) rows
    → All (λ s. (s.id_cita_detalle == k) ≡ false) rows
absent-at [] id k e a = tt
absent-at (r ∷ rs) id k e a = (ground arith, absent-at rs id k e a.1)

add_once :
    (rows : List DetailRow) (promos : Promos) (id d : ℕ) (r : DetailRow)
    → AreDistinct rows
    → find_detail id rows ≡ some r
    → on_rows rows (add promos id d) ≡ on_rows rows promos + d
unfolding AreDistinct find_detail
add_once [] promos id d r a e = cc
add_once (s ∷ rs) promos id d r a e = elim (Bool-cases (s.id_cita_detalle == id)) [
  | inl here ↦
      rw (here, add_absent rs promos id d (absent-at rs s.id_cita_detalle id here a.0))
        (omega arith)
  | inr other ↦ rw (other, add_once rs promos id d r a.1 (rw other at e)) (omega arith)
]

each_absent :
    (rows : List DetailRow) (xs : List ℕ) (promos : Promos) (id : ℕ)
    → All (λ s. (s.id_cita_detalle == id) ≡ false) rows
    → add_each rows xs promos id ≡ promos id
unfolding add_each
each_absent [] xs promos id a = refl
each_absent (r ∷ rs) [] promos id a = refl
each_absent (r ∷ rs) (x ∷ xs) promos id a =
    each_absent rs xs (add promos r.id_cita_detalle x) id a.1
    ∙ rw (flip id r.id_cita_detalle a.0) refl
  where
    flip : (m n : ℕ) → (n == m) ≡ false → (m == n) ≡ false
    flip m n e = ground arith

-- The shares of all lines add up on the lines.
each-sum :
    (rows : List DetailRow) (xs : List ℕ) (promos : Promos)
    → AreDistinct rows
    → length xs ≡ length rows
    → on_rows rows (add_each rows xs promos) ≡ on_rows rows promos + sum_by (λ c. c) xs
unfolding AreDistinct add_each
each-sum [] [] promos a e = refl
each-sum [] (x ∷ xs) promos a e = absurd (omega (arith, e))
each-sum (r ∷ rs) [] promos a e = absurd (omega (arith, e))
each-sum (r ∷ rs) (x ∷ xs) promos a e =
    let id = r.id_cita_detalle in
    rw
      (
        each_absent rs xs (add promos id x) id a.0,
        each-sum rs xs (add promos id x) a.1 (omega (arith, e)),
        add_absent rs promos id x a.0,
        eq→== id id refl,
      )
      (omega arith)

distribute_from-length :
    (requested available : ℕ) (cs : List ℕ) (remaining : ℕ)
    → length (distribute_from requested available cs remaining) ≡ length cs
unfolding distribute_from
distribute_from-length requested available [] remaining = refl
distribute_from-length requested available (c ∷ []) remaining = refl
distribute_from-length requested available (c ∷ d ∷ cs) remaining =
    omega (arith, distribute_from-length requested available (d ∷ cs) _)

length-capacities :
    (rows : List DetailRow) (promos : Promos) → length (capacities rows promos) ≡ length rows
length-capacities [] promos = refl
length-capacities (r ∷ rs) promos = omega (arith, length-capacities rs promos)

distribute-length : (cs : List ℕ) (discount : ℕ) → length (distribute cs discount) ≡ length cs
unfolding distribute
distribute-length cs discount = distribute_from-length _ _ cs _

-- A promotion adds its discount to the lines.
Adds : List DetailRow → Promos → ℕ → Option Promos → Type 0
Adds rows promos d none = Unit
Adds rows promos d (some next) = on_rows rows next ≡ on_rows rows promos + d

when :
    (rows : List DetailRow) (promos : Promos) (d : ℕ) (b : Bool) (o p : Option Promos)
    → (b ≡ true → Adds rows promos d o)
    → (b ≡ false → Adds rows promos d p)
    → Adds rows promos d (if b then o else p)
when rows promos d true o p f g = f refl
when rows promos d false o p f g = g refl

line-Adds :
    (rows : List DetailRow) (promos : Promos) (p : PromotionRow) (id : ℕ) (r : Option DetailRow)
    → AreDistinct rows
    → find_detail id rows ≡ r
    → Adds rows promos p.descuento_calculado (put_on_line promos p id r)
unfolding Adds
line-Adds rows promos p id none a e = tt
line-Adds rows promos p id (some r) a e =
    when rows promos p.descuento_calculado (ltb r.subtotal p.descuento_calculado) none _ (λ h. tt)
      (λ h. add_once rows promos id p.descuento_calculado r a e)

all-Adds :
    (rows : List DetailRow) (promos : Promos) (p : PromotionRow)
    → AreDistinct rows
    → Adds rows promos p.descuento_calculado (put_on_all rows promos p)
unfolding Adds
all-Adds rows promos p a =
    let shares = distribute (capacities rows promos) p.descuento_calculado in
    when rows promos p.descuento_calculado (sum_by (λ c. c) shares == p.descuento_calculado) _ none
      (λ h.
        each-sum rows shares promos a (
          distribute-length (capacities rows promos) p.descuento_calculado
          ∙ length-capacities rows promos)
        ∙ ap (λ n. on_rows rows promos + n) (equal _ _ h))
      (λ h. tt)
  where
    equal : (m n : ℕ) → (m == n) ≡ true → m ≡ n
    equal m n e = ground arith

put-Adds :
    (rows : List DetailRow) (promos : Promos) (p : PromotionRow) (id : Option ℕ)
    → AreDistinct rows
    → Adds rows promos p.descuento_calculado (put rows promos p id)
put-Adds rows promos p none a = all-Adds rows promos p a
put-Adds rows promos p (some id) a = line-Adds rows promos p id (find_detail id rows) a refl

promotion-Adds :
    (rows : List DetailRow) (promos : Promos) (p : PromotionRow)
    → AreDistinct rows
    → Adds rows promos p.descuento_calculado (put_promotion rows promos p)
unfolding put_promotion Adds
promotion-Adds rows promos p a =
    when rows promos p.descuento_calculado (p.descuento_calculado == 0) (some promos) _
      (λ h. zero-added _ _ h) (λ h. put-Adds rows promos p p.id_cita_detalle a)
  where
    zero-added : (m d : ℕ) → (d == 0) ≡ true → m ≡ m + d
    zero-added m d e = ground arith

pub put_promotions-sum :
    (rows : List DetailRow) (ps : List PromotionRow) (promos next : Promos)
    → AreDistinct rows
    → put_promotions rows promos ps ≡ some next
    → on_rows rows next ≡ on_rows rows promos + sum_by (λ p. p.descuento_calculado) ps
unfolding put_promotions Adds
put_promotions-sum rows [] promos next a e =
    (let same : promos ≡ next = given e in ap (on_rows rows) (sym same) ∙ omega arith)
  where
    given : {x y : Promos} → some x ≡ some y → x ≡ y
    given q = cc
put_promotions-sum rows (p ∷ ps) promos next a e =
    elim (Option-cases (put_promotion rows promos p)) [
      | inl stopped ↦ (let wrong : none ≡ some next = rw (put_promotions, stopped) at e in cc)
      | inr (mid, went) ↦
          let one : on_rows rows mid ≡ on_rows rows promos + p.descuento_calculado =
            subst (Adds rows promos p.descuento_calculado) went (promotion-Adds rows promos p a) in
          let more = put_promotions-sum rows ps mid next a (rw (put_promotions, went) at e) in
          omega (arith, one, more)
    ]
