-- ===== src/Discounts/Lines/Sums.antt =====
-- That the canonical lines add up to the items.
use text.Mathlib.Text.{◌==◌ as str_eq}
use masterfadebackend.Prelude.{
  ℕ, ◌+◌, ◌-◌, ◌*◌, ◌≡◌, inl, inr, refl, ap, List, [], ◌∷◌, Option, none, some, Bool, true, false,
  arith, sum_by, All, Bool-cases, if◌then◌else◌,
}
use masterfadebackend.Discounts.Lines.{
  GroupKey, BookingItem, CanonicalLine, same_group, at_least_one, or_amount, note_group, open_line,
  grow, add_item, canonical_from, build_canonical_discount_lines,
}

-- The item has a price or a subtotal of its own.
abbrev pub has_amount : Option ℕ → Option ℕ → Bool
has_amount none none = false
has_amount none (some s) = true
has_amount (some p) s = true

abbrev pub HasAmount : BookingItem → Type 0
HasAmount i = has_amount i.precio_hnl i.subtotal_hnl ≡ true

-- What an item counts for, where `n` is its amount or another measure of it.
abbrev pub if_named : BookingItem → ℕ → ℕ
if_named i n = if str_eq i.group.id_servicio "" then 0 else n

abbrev pub amount_of : BookingItem → ℕ
amount_of i = or_amount i.subtotal_hnl (or_amount i.precio_hnl 0 * at_least_one i.cantidad)

amount_grow :
    (p s : Option ℕ) (q n : ℕ)
    → has_amount p s ≡ true
    → or_amount s (or_amount p n * q) ≡ or_amount s (or_amount p 0 * q)
amount_grow none none q n h = ground arith
amount_grow none (some s) q n h = refl
amount_grow (some p) s q n h = refl

add_item-sum :
    (f : CanonicalLine → ℕ) (a orden : ℕ) (opened : List GroupKey) (i : BookingItem)
    (ls : List CanonicalLine)
    → ((l : CanonicalLine) → f (grow i l) ≡ f l + a)
    → f (open_line orden opened i) ≡ 0
    → sum_by f (add_item orden opened i ls) ≡ sum_by f ls + a
unfolding add_item
add_item-sum f a orden opened i [] g z = omega (arith, g (open_line orden opened i), z)
add_item-sum f a orden opened i (l ∷ ls) g z = elim (Bool-cases (same_group l.group i.group)) [
  | inl same ↦ rw same (omega (arith, g l))
  | inr other ↦ rw other (omega (arith, add_item-sum f a orden opened i ls g z))
]

canonical_from-sum :
    (f : CanonicalLine → ℕ) (w : BookingItem → ℕ) (orden : ℕ)
    → ((i : BookingItem) → HasAmount i → (l : CanonicalLine) → f (grow i l) ≡ f l + w i)
    → ((opened : List GroupKey) (i : BookingItem) → f (open_line orden opened i) ≡ 0)
    → (opened : List GroupKey) (ls : List CanonicalLine) (items : List BookingItem)
    → All HasAmount items
    → sum_by f (canonical_from orden opened ls items)
      ≡ sum_by f ls + sum_by (λ i. if_named i (w i)) items
unfolding canonical_from
canonical_from-sum f w orden g z opened ls [] a = omega arith
canonical_from-sum f w orden g z opened ls (i ∷ is) a =
    elim (Bool-cases (str_eq i.group.id_servicio "")) [
      | inl blank ↦ rw blank (omega (arith, canonical_from-sum f w orden g z opened ls is a.1))
      | inr named ↦ rw named (
          omega (
            arith,
            canonical_from-sum f w orden g z (note_group i ls opened) (add_item orden opened i ls)
                is a.1,
            add_item-sum f (w i) orden opened i ls (g i a.0) (z opened i),
          ))
    ]

abbrev pub IsNet : CanonicalLine → Type 0
IsNet l = l.base_disponible_hnl ≡ l.subtotal_hnl - l.descuento_previo_hnl

add_item-IsNet :
    (orden : ℕ) (opened : List GroupKey) (i : BookingItem) (ls : List CanonicalLine)
    → All IsNet ls
    → All IsNet (add_item orden opened i ls)
unfolding add_item grow
add_item-IsNet orden opened i [] a = (refl, tt)
add_item-IsNet orden opened i (l ∷ ls) a = elim (Bool-cases (same_group l.group i.group)) [
  | inl same ↦ rw same (refl, a.1)
  | inr other ↦ rw other (a.0, add_item-IsNet orden opened i ls a.1)
]

canonical_from-IsNet :
    (orden : ℕ) (opened : List GroupKey) (ls : List CanonicalLine) (items : List BookingItem)
    → All IsNet ls
    → All IsNet (canonical_from orden opened ls items)
unfolding canonical_from
canonical_from-IsNet orden opened ls [] a = a
canonical_from-IsNet orden opened ls (i ∷ is) a =
    elim (Bool-cases (str_eq i.group.id_servicio "")) [
      | inl blank ↦ rw blank (canonical_from-IsNet orden opened ls is a)
      | inr named ↦ rw named (
          canonical_from-IsNet orden (note_group i ls opened) (add_item orden opened i ls) is
            (add_item-IsNet orden opened i ls a))
    ]

-- Where each item has a price or a subtotal, the lines have in all the quantities, the amounts and
-- the earlier discounts of the items that name a service, and each line has available what its
-- subtotal leaves over its earlier discounts.
pub build_canonical_discount_lines-sums :
    (items : List BookingItem) (orden : ℕ)
    → All HasAmount items
    → (sum_by CanonicalLine.cantidad (build_canonical_discount_lines items orden)
        ≡ sum_by (λ i. if_named i (at_least_one i.cantidad)) items)
      × (sum_by CanonicalLine.subtotal_hnl (build_canonical_discount_lines items orden)
          ≡ sum_by (λ i. if_named i (amount_of i)) items)
      × (sum_by CanonicalLine.descuento_previo_hnl (build_canonical_discount_lines items orden)
          ≡ sum_by (λ i. if_named i i.descuento_hnl) items)
      × All IsNet (build_canonical_discount_lines items orden)
unfolding build_canonical_discount_lines grow open_line
build_canonical_discount_lines-sums items orden a =
    let quantity =
      canonical_from-sum CanonicalLine.cantidad (λ i. at_least_one i.cantidad) orden (λ i h l. refl)
        (λ o i. refl) [] [] items a in
    let amount =
      canonical_from-sum CanonicalLine.subtotal_hnl amount_of orden
        (λ i h l.
          ap (λ n. l.subtotal_hnl + n)
            (amount_grow i.precio_hnl i.subtotal_hnl (at_least_one i.cantidad) l.precio_unitario_hnl
              h))
        (λ o i. refl) [] [] items a in
    let discount =
      canonical_from-sum CanonicalLine.descuento_previo_hnl BookingItem.descuento_hnl orden
        (λ i h l. refl) (λ o i. refl) [] [] items a in
    (
      omega (arith, quantity),
      omega (arith, amount),
      omega (arith, discount),
      canonical_from-IsNet orden [] [] items tt,
    )
