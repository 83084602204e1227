-- ===== src/Promotions/Conflicts/Partition.antt =====
-- Every candidate is applied or discarded, once, and the amounts add up.
use Prim.Native.String.{String}
use masterfadebackend.Prelude.{
  ℕ, ◌+◌, ◌≤◌, ◌≡◌, refl, ◌∙◌, List, [], ◌∷◌, Bool, arith, sum_by, sort_by, sum_by-sort_by,
}
use masterfadebackend.Promotions.Evaluation.{Evaluated}
use masterfadebackend.Promotions.Conflicts.{
  Locks, Resolved, comes_first, take_locks, resolve_from, resolve_conflicts, build_amounts,
}

module _ (compatible : String → String → Bool) where
  abbrev pub weigh : (String → ℕ) → List Evaluated → ℕ
  weigh w = sum_by (λ e. w e.id_promocion_regla)

  resolve_from-weigh :
      (w : String → ℕ) (locks : Locks) (es : List Evaluated)
      → let r = resolve_from compatible locks es in
        weigh w r.applied + weigh w r.discarded ≡ weigh w es
  unfolding resolve_from
  resolve_from-weigh w locks [] = refl
  resolve_from-weigh w locks (e ∷ es) =
      ground (arith, resolve_from-weigh w locks es, resolve_from-weigh w (take_locks e locks) es)

  -- Counted with any weight of their rules, the applied and the discarded promotions weigh
  -- together what all candidates weigh: none is lost and none is made up.
  pub resolve_conflicts-weigh :
      (w : String → ℕ) (es : List Evaluated)
      → let r = resolve_conflicts compatible es in
        weigh w r.applied + weigh w r.discarded ≡ weigh w es
  unfolding resolve_conflicts
  resolve_conflicts-weigh w es =
      resolve_from-weigh w [] (sort_by comes_first es)
      ∙ sum_by-sort_by comes_first (λ e. w e.id_promocion_regla) es

-- Discount and total make up the subtotal, and the discount is at most the sum of the applied ones.
pub build_amounts_sum :
    (subtotal : ℕ) (r : Resolved)
    → let a = build_amounts subtotal r in
      (a.descuento_total + a.total ≡ subtotal)
      × (a.descuento_total ≤ sum_by (λ e. e.descuento_calculado) r.applied)
unfolding build_amounts
build_amounts_sum subtotal r = omega arith
