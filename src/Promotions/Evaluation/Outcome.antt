-- ===== src/Promotions/Evaluation/Outcome.antt =====
-- What `evaluatePromotions` promises: it never throws, and each result is consistent.
use Prim.Native.String.{String}
use masterfadebackend.Prelude.{
  ℕ, ◌≤◌, ◌≡◌, refl, ◌⊎◌, inl, inr, List, [], ◌∷◌, map, Option, none, some, Bool, true, not, ap,
  arith, ltb, sum_by, All, Bool-cases,
}
use masterfadebackend.Discounts.Allocation.{Line, Allocation, Allocated}
use masterfadebackend.Discounts.Allocation.Share.{capacities}
use masterfadebackend.Discounts.Allocation.Total.{Settles, allocate-Settles}
use masterfadebackend.Promotions.Types.{DiscountLine, Context, Candidate}
use masterfadebackend.Promotions.Discount.{bases, eligible_lines, calculate_discount}
use masterfadebackend.Promotions.Discount.Bounds.{calculate_discount-le}
use masterfadebackend.Promotions.Validation.{Reason, is_some}
use masterfadebackend.Promotions.Evaluation.{
  Usage, Evaluated, Evaluation, ok, err, allocation_line, final_reason, amount_if, evaluated,
  then_evaluated, allocations_for, evaluate_promotions,
}

capacities-allocation_line :
    (ls : List DiscountLine) → capacities (map allocation_line ls) ≡ bases ls
capacities-allocation_line [] = refl
capacities-allocation_line (l ∷ ls) = omega (arith, capacities-allocation_line ls)

-- An allocation that was made, in full.
abbrev Made : ℕ → Allocated → Type 0
Made discount (Allocated.ok given) = sum_by (λ a. a.descuento) given ≡ discount
Made discount (Allocated.err e) = ⊥

-- A result agrees with itself: it is valid exactly when it has no reason, an invalid one gives
-- nothing, a discount stays within its base, and its allocations add up to it.
pub record IsConsistent (e : Evaluated) : Type 0 where
  pub reason : is_some e.reason_code ≡ not e.is_valid
  pub nothing : (e.is_valid ≡ true) ⊎ (e.descuento_calculado ≡ 0)
  pub within : e.descuento_calculado ≤ e.base_calculo
  pub allocated : sum_by (λ a. a.descuento) e.line_allocations ≡ e.descuento_calculado

module _ (key_le : String → String → Bool) where
  Settles-Made :
      (lines : List Line) (discount : ℕ) (r : Allocated)
      → discount ≤ capacities lines
      → Settles key_le lines discount r
      → Made discount r
  Settles-Made lines discount (Allocated.ok given) h s = s.1
  Settles-Made lines discount (Allocated.err e) h s = absurd (omega arith)

  allocations_for-Made :
      (ls : List DiscountLine) (discount : ℕ)
      → discount ≤ bases ls
      → Made discount (allocations_for key_le ls discount)
  unfolding allocations_for
  allocations_for-Made ls discount h = elim (Bool-cases (ltb 0 discount)) [
    | inl pos ↦
        let lines = map allocation_line ls in
        rw pos (
          Settles-Made lines discount _ (omega (arith, capacities-allocation_line ls))
            (allocate-Settles key_le lines discount))
    | inr zero_left ↦ rw zero_left (ground arith)
  ]

amount_if-le : (reason : Option Reason) (d n : ℕ) → d ≤ n → amount_if reason d ≤ n
amount_if-le none d n h = h
amount_if-le (some r) d n h = omega arith

module _ (key_le : String → String → Bool) (normalize : String → String) (month_of : ℕ → ℕ) where
  -- The answer for candidates: a consistent result for each, in their order.
  abbrev pub Answers : List Candidate → Evaluation → Type 0
  Answers cs (ok es) =
      All IsConsistent es
      × (map (λ e. e.id_promocion_regla) es ≡ map (λ c. c.id_promocion_regla) cs)
  Answers cs (err e) = ⊥

  evaluated-IsConsistent :
      (ctx : Context) (c : Candidate) (reason : Option Reason) (given : List Allocation)
      → Made (amount_if reason (calculate_discount ctx c)) (Allocated.ok given)
      → IsConsistent
          (evaluated normalize ctx c reason (amount_if reason (calculate_discount ctx c)) given)
  unfolding evaluated
  evaluated-IsConsistent ctx c none given h = record {
    reason = refl;
    nothing = inl refl;
    within = calculate_discount-le ctx c;
    allocated = h;
  }
  evaluated-IsConsistent ctx c (some r) given h = record {
    reason = refl;
    nothing = inr refl;
    within = omega arith;
    allocated = h;
  }

  then_evaluated-Answers :
      (ctx : Context) (c : Candidate) (cs : List Candidate) (reason : Option Reason)
      (made : Allocated) (rest : Evaluation)
      → Made (amount_if reason (calculate_discount ctx c)) made
      → Answers cs rest
      → Answers (c ∷ cs) (
          then_evaluated
            (evaluated normalize ctx c reason (amount_if reason (calculate_discount ctx c)))
            made
            rest)
  unfolding then_evaluated
  then_evaluated-Answers ctx c cs reason (Allocated.ok given) (ok es) h a = (
    (evaluated-IsConsistent ctx c reason given h, a.0),
    unfold evaluated in ap (◌∷◌ c.id_promocion_regla) a.1,
  )
  then_evaluated-Answers ctx c cs reason (Allocated.ok given) (err e) h a = absurd a
  then_evaluated-Answers ctx c cs reason (Allocated.err e) rest h a = absurd h

  -- The evaluation never throws: it returns a consistent result for each candidate, in their order.
  pub evaluate_promotions-Answers :
      (ctx : Context) (usage : Usage) (cs : List Candidate)
      → Answers cs (evaluate_promotions key_le normalize month_of ctx usage cs)
  unfolding evaluate_promotions
  evaluate_promotions-Answers ctx usage [] = (tt, refl)
  evaluate_promotions-Answers ctx usage (c ∷ cs) =
      let reason = final_reason month_of usage normalize ctx c in
      then_evaluated-Answers ctx c cs reason _ _
        (allocations_for-Made key_le (eligible_lines ctx c) _
          (amount_if-le reason _ _ (calculate_discount-le ctx c)))
        (evaluate_promotions-Answers ctx usage cs)
