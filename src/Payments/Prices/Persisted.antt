-- ===== src/Payments/Prices/Persisted.antt =====
-- The lines after the stored promotions are laid on them.
use masterfadebackend.Prelude.{
  ℕ, ◌+◌, ◌-◌, ◌≤◌, max, ◌≡◌, refl, ap, subst, inl, inr, List, [], ◌∷◌, map, Option, none, some,
  Bool, true, false, arith, ltb, sum_by, All, Option-cases, if◌then◌else◌,
}
use masterfadebackend.Payments.Prices.{
  DetailRow, PromotionRow, PricedRow, Promos, put_promotions, cons_priced, priced_rows,
  apply_persisted,
}
use masterfadebackend.Payments.Prices.Sums.{AreDistinct, on_rows, put_promotions-sum}

-- What a line gets of the promotions.
abbrev pub promoted : PricedRow → ℕ
promoted x = x.descuento - x.descuento_no_promocional

-- The discount of a line is the one it had, or its promotions' where they are more, and fits it.
pub record Fits (x : PricedRow) : Type 0 where
  pub le : x.descuento ≤ x.row.subtotal
  pub larger : x.descuento ≡ max x.row.descuento (promoted x)

pub record Repriced (rows : List DetailRow) (total : ℕ) (xs : List PricedRow) : Type 0 where
  pub same : map (λ x. x.row) xs ≡ rows
  pub fits : All Fits xs
  pub sum : sum_by promoted xs ≡ total

-- What holds of the outcome, where there is one.
Outcome : List DetailRow → ℕ → Option (List PricedRow) → Type 0
Outcome rows total none = Unit
Outcome rows total (some xs) = Repriced rows total xs

refused :
    (rows : List DetailRow) (n : ℕ) (b : Bool) (o : Option (List PricedRow))
    → (b ≡ false → Outcome rows n o)
    → Outcome rows n (if b then none else o)
unfolding Outcome
refused rows n true o f = tt
refused rows n false o f = f refl

larger-of : (d p : ℕ) → (d - p) + p ≡ max d (((d - p) + p) - (d - p))
larger-of d p = ground arith

abbrev priced : DetailRow → ℕ → PricedRow
priced r p = record {
  row = r;
  descuento_no_promocional = r.descuento - p;
  descuento = (r.descuento - p) + p;
}

cons-Outcome :
    (r : DetailRow) (p : ℕ) (rs : List DetailRow) (n : ℕ) (o : Option (List PricedRow))
    → ltb r.subtotal ((r.descuento - p) + p) ≡ false
    → Outcome rs n o
    → Outcome (r ∷ rs) (p + n) (cons_priced (priced r p) o)
unfolding Outcome
cons-Outcome r p rs n none e h = tt
cons-Outcome r p rs n (some xs) e h = record {
  same = ap (λ ys. r ∷ ys) h.same;
  fits = (record { le = ground arith; larger = larger-of r.descuento p }, h.fits);
  sum = omega (arith, h.sum);
}

rows-Outcome :
    (rows : List DetailRow) (promos : Promos)
    → Outcome rows (on_rows rows promos) (priced_rows rows promos)
unfolding priced_rows Outcome
rows-Outcome [] promos = record { same = refl; fits = tt; sum = refl }
rows-Outcome (r ∷ rs) promos =
    let p = promos r.id_cita_detalle in
    refused (r ∷ rs) (p + on_rows rs promos) (ltb r.subtotal ((r.descuento - p) + p)) _ λ fit.
      cons-Outcome r p rs (on_rows rs promos) (priced_rows rs promos) fit (rows-Outcome rs promos)

nothing_yet : (rows : List DetailRow) → on_rows rows (λ k. 0) ≡ 0
nothing_yet [] = refl
nothing_yet (r ∷ rs) = omega (arith, nothing_yet rs)

-- Where no two lines have the same identifier and nothing is thrown: the lines stay in their order; the
-- discount of each is the one it had, or its promotions' where they are more, and is not above its
-- subtotal; and what the lines get of the promotions adds up to the discounts of the promotions.
pub apply_persisted-Repriced :
    (rows : List DetailRow) (ps : List PromotionRow) (xs : List PricedRow)
    → AreDistinct rows
    → apply_persisted rows ps ≡ some xs
    → Repriced rows (sum_by (λ p. p.descuento_calculado) ps) xs
unfolding apply_persisted Outcome
apply_persisted-Repriced rows ps xs a e = elim (Option-cases (put_promotions rows (λ k. 0) ps)) [
  | inl thrown ↦ (let wrong : none ≡ some xs = rw thrown at e in cc)
  | inr (next, laid) ↦
      let total = put_promotions-sum rows ps (λ k. 0) next a laid in
      let answer : priced_rows rows next ≡ some xs = rw laid at e in
      subst (λ n. Repriced rows n xs) (omega (arith, total, nothing_yet rows))
        (subst (Outcome rows (on_rows rows next)) answer (rows-Outcome rows next))
]
