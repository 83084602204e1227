-- ===== src/Promotions/Validation/Eligible.antt =====
-- What it means that a candidate passes `validatePromotionCandidate`.
use Prim.Native.String.{String}
use masterfadebackend.Prelude.{
  ℕ, ◌≤◌, ◌<◌, ◌≡◌, refl, ◌⊎◌, inl, inr, List, [], ◌∷◌, Option, none, some, Bool, true, false, ◌&&◌,
  ◌||◌, not, arith, ltb, leb, any, All, Bool-cases,
}
use masterfadebackend.Promotions.Types.{Context, Candidate}
use masterfadebackend.Promotions.Discount.{bases, eligible_lines, target_stats}
use masterfadebackend.Promotions.Validation.{
  Check, first_failure, checks, is_some, is_before, is_after, outside_hours, overlaps_window,
  applicable_code, allows, validate, is_bonus, item_matches, is_servicio_or_paquete, is_line_target,
  nonempty, is_positive,
}

first_failure-none : (cs : List Check) → first_failure cs ≡ none → All (λ c. c.0 ≡ false) cs
unfolding first_failure
first_failure-none [] h = tt
first_failure-none ((failed, reason) ∷ rest) h = elim (Bool-cases failed) [
  | inl e ↦ cc (rw (e, first_failure) at h)
  | inr e ↦ (e, first_failure-none rest (rw (e, first_failure) at h))
]

not_and : (a b : Bool) → (not a && b) ≡ false → (a ≡ true) ⊎ (b ≡ false)
not_and true b h = inl refl
not_and false b h = inr h

not-false : (a : Bool) → not a ≡ false → a ≡ true
not-false true h = refl
not-false false h = cc

-- A bound that may be missing.
abbrev pub IsFrom : Option ℕ → ℕ → Type 0
IsFrom none t = Unit
IsFrom (some bound) t = bound ≤ t

abbrev pub IsUntil : Option ℕ → ℕ → Type 0
IsUntil none t = Unit
IsUntil (some bound) t = t ≤ bound

-- A time of day in a window, across midnight where the window ends before it starts. A missing time
-- or end leaves it open.
abbrev pub IsInWindow : Option ℕ → Option ℕ → Option ℕ → Type 0
IsInWindow (some now) (some start) (some end) =
    ((start < end) × (start ≤ now) × (now ≤ end)) ⊎ ((end < start) × ((start ≤ now) ⊎ (now ≤ end)))
IsInWindow _ _ _ = Unit

is_before-IsFrom : (t : ℕ) (o : Option ℕ) → is_before t o ≡ false → IsFrom o t
is_before-IsFrom t none h = tt
is_before-IsFrom t (some d) h = ground arith

is_after-IsUntil : (t : ℕ) (o : Option ℕ) → is_after t o ≡ false → IsUntil o t
is_after-IsUntil t none h = tt
is_after-IsUntil t (some d) h = ground arith

overlaps_window-IsInWindow :
    (now start end : ℕ)
    → overlaps_window now (some start) (some end) ≡ true
    → IsInWindow (some now) (some start) (some end)
unfolding overlaps_window
overlaps_window-IsInWindow now start end h = elim (Bool-cases (ltb start end)) [
  | inl day ↦ inl (ground arith)
  | inr night ↦ inr (ground arith, ground arith)
]

outside_hours-IsInWindow :
    (now start end : Option ℕ) → outside_hours now start end ≡ false → IsInWindow now start end
unfolding outside_hours
outside_hours-IsInWindow (some now) (some start) (some end) h =
    overlaps_window-IsInWindow now start end (not-false _ h)
outside_hours-IsInWindow none start end h = tt
outside_hours-IsInWindow (some now) none end h = tt
outside_hours-IsInWindow (some now) (some start) none h = tt

needs : (a b : Bool) → (a && not b) ≡ false → (a ≡ false) ⊎ (b ≡ true)
needs true true h = inr refl
needs true false h = cc
needs false b h = inl refl

either_needs :
    (a b c : Bool) → ((a || b) && not c) ≡ false → ((a ≡ false) × (b ≡ false)) ⊎ (c ≡ true)
either_needs a b true h = inr refl
either_needs true b false h = cc
either_needs false true false h = cc
either_needs false false false h = inl (refl, refl)

quantity_of : (a : Bool) (m n : ℕ) → (a && ltb m n) ≡ false → (a ≡ false) ⊎ (n ≤ m)
quantity_of true m n h = inr (ground arith)
quantity_of false m n h = inl refl

one_of : (a b d : Bool) → (a && not b && d) ≡ false → (a ≡ false) ⊎ ((b ≡ true) ⊎ (d ≡ false))
one_of false b d h = inl refl
one_of true true d h = inr (inl refl)
one_of true false d h = inr (inr h)

positive_of : (a : Bool) (n : ℕ) → (a && leb n 0) ≡ false → (a ≡ false) ⊎ (0 < n)
positive_of true n h = inr (ground arith)
positive_of false n h = inl refl

known_client :
    (a b c : Bool) → (not a && (b || c)) ≡ false → (a ≡ true) ⊎ ((b ≡ false) × (c ≡ false))
known_client true b c h = inl refl
known_client false true c h = cc
known_client false false c h = inr (refl, h)

module _ (normalize : String → String) (ctx : Context) (c : Candidate) where
  pub record IsEligible : Type 0 where
    pub published : (c.publicada ≡ true) ⊎ (ctx.es_publico ≡ false)
    pub active : c.regla_activa ≡ true
    pub started : IsFrom c.vigencia_desde ctx.fecha
    pub not_over : IsUntil c.vigencia_hasta ctx.fecha
    pub in_hours : IsInWindow ctx.hora c.vigencia_hora_desde c.vigencia_hora_hasta
    pub enough : IsFrom c.min_subtotal (bases (eligible_lines ctx c))
    pub code :
        ((c.requiere_codigo ≡ false) × (c.modo_codigo ≡ false))
        ⊎ (is_some (applicable_code normalize ctx c) ≡ true)
    pub allowed :
        (nonempty c.restricciones ≡ false) ⊎ (any (allows normalize ctx) c.restricciones ≡ true)
    pub items :
        (nonempty c.items ≡ false)
        ⊎ ((any (item_matches ctx) c.items ≡ true) ⊎ (is_servicio_or_paquete c.aplica_a ≡ false))
    pub lines : (is_line_target c.aplica_a ≡ false) ⊎ (0 < bases (eligible_lines ctx c))
    pub matched :
        (is_bonus c.tipo_descuento c.mecanica_dos_por_uno ≡ false)
        ⊎ ((target_stats ctx c).matched ≡ true)
    pub quantity :
        (is_bonus c.tipo_descuento c.mecanica_dos_por_uno ≡ false)
        ⊎ ((target_stats ctx c).required_quantity ≤ (target_stats ctx c).quantity)
    pub client :
        (is_some ctx.cliente_key ≡ true)
        ⊎ ((is_positive c.max_usos_por_cliente ≡ false)
            × (any (λ code. ltb 0 code.max_usos_por_cliente) c.codes ≡ false))

  -- A candidate that passes is published for the public, active, within its dates and hours, above its
  -- minimum, with a code that applies where it requires one or is applied by code, allowed by a
  -- restriction where it has any, for one of its items where it has any and is for services or packages,
  -- with something to pay on its lines where it is for lines, with the items and the quantity that its
  -- bonus needs, and for a known client where its uses are limited by client.
  pub validate-IsEligible : validate normalize ctx c ≡ none → IsEligible
  unfolding validate checks
  validate-IsEligible h =
      let passed = first_failure-none (checks normalize ctx c) h in
      record {
        published = not_and c.publicada ctx.es_publico passed.0;
        active = not-false c.regla_activa passed.1.0;
        started = is_before-IsFrom ctx.fecha c.vigencia_desde passed.1.1.0;
        not_over = is_after-IsUntil ctx.fecha c.vigencia_hasta passed.1.1.1.0;
        in_hours =
            outside_hours-IsInWindow ctx.hora c.vigencia_hora_desde c.vigencia_hora_hasta
              passed.1.1.1.1.0;
        enough = is_before-IsFrom (bases (eligible_lines ctx c)) c.min_subtotal passed.1.1.1.1.1.0;
        code = either_needs c.requiere_codigo c.modo_codigo _ passed.1.1.1.1.1.1.0;
        allowed = needs (nonempty c.restricciones) _ passed.1.1.1.1.1.1.1.0;
        items = one_of (nonempty c.items) _ _ passed.1.1.1.1.1.1.1.1.0;
        lines = positive_of (is_line_target c.aplica_a) _ passed.1.1.1.1.1.1.1.1.1.0;
        matched =
            needs (is_bonus c.tipo_descuento c.mecanica_dos_por_uno) _ passed.1.1.1.1.1.1.1.1.1.1.0;
        quantity =
            quantity_of (is_bonus c.tipo_descuento c.mecanica_dos_por_uno) _ _
              passed.1.1.1.1.1.1.1.1.1.1.1.0;
        client =
            known_client (is_some ctx.cliente_key) (is_positive c.max_usos_por_cliente) _
              passed.1.1.1.1.1.1.1.1.1.1.1.1.0;
      }
