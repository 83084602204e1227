-- ===== src/Membership/Consumption/Payment.antt =====
-- What the items of an appointment consume of the plan, and what they cost beside it.
use masterfadebackend.Prelude.{
  ℕ, ◌+◌, ◌-◌, ◌≡◌, inl, inr, refl, ap, ◌∙◌, List, [], ◌∷◌, Option, none, some, Bool, true, false,
  ◌&&◌, arith, ◌==◌, min, sum_by, if◌then◌else◌, Bool-cases, Option-cases,
}
use masterfadebackend.Membership.Coverage.{Tracker, remaining_of}
use masterfadebackend.Membership.Consumption.{
  ServiceItem, CoverageStatus, CoveredItem, cubierto_plan, extra_pendiente, status_of, take_one,
  if_covered, consume_each, consume_coverage_for_services,
}

-- `n` where the service is `i`.
abbrev pub same_service : ℕ → Option ℕ → ℕ → ℕ
same_service i none n = 0
same_service i (some j) n = if j == i then n else 0

abbrev pub is_asked : ℕ → ServiceItem → ℕ
is_asked i s = same_service i s.id_servicio 1

abbrev pub is_paid : ℕ → CoveredItem → ℕ
is_paid i c = same_service i c.id_servicio (if_covered c.coverage_status 1 0)

-- One item: what it takes of the service `i`, and what is left of it.
paid_one :
    (i : ℕ) (o : Option ℕ) (m : List (ℕ × ℕ)) (asked : ℕ)
    → (same_service i o (if_covered (status_of true o m) 1 0)
          + min (remaining_of i (take_one (status_of true o m) o m)) asked
        ≡ min (remaining_of i m) (same_service i o 1 + asked))
      × (remaining_of i (take_one (status_of true o m) o m) - asked
          ≡ remaining_of i m - (same_service i o 1 + asked))
paid_one i none m asked = (ground arith, ground arith)
paid_one i (some j) m asked = elim (Bool-cases (j == i)) [
  | inl h ↦
      let e : j ≡ i = ground arith in
      let k : remaining_of j m ≡ remaining_of i m = ap (λ x. remaining_of x m) e in
      (ground arith, ground arith)
  | inr h ↦ (ground arith, ground arith)
]

consume_each-paid :
    (i : ℕ) (forced : List ℕ) (items : List ServiceItem) (m : List (ℕ × ℕ))
    → (sum_by (is_paid i) (consume_each true forced items m).items
        ≡ min (remaining_of i m) (sum_by (is_asked i) items))
      × (remaining_of i (consume_each true forced items m).remaining_after
          ≡ remaining_of i m - sum_by (is_asked i) items)
unfolding consume_each
consume_each-paid i forced [] m = (ground arith, ground arith)
consume_each-paid i forced (s ∷ ss) m =
    let m' = take_one (status_of true s.id_servicio m) s.id_servicio m in
    let (paid, left) = consume_each-paid i forced ss m' in
    let (p, l) = paid_one i s.id_servicio m (sum_by (is_asked i) ss) in
    (omega (arith, paid, p), left ∙ l)

consume_each-none :
    (forced : List ℕ) (items : List ServiceItem) (m : List (ℕ × ℕ))
    → ((consume_each false forced items m).covered_total_hnl ≡ 0)
      × ((consume_each false forced items m).remaining_after ≡ m)
unfolding consume_each
consume_each-none forced [] m = (refl, refl)
consume_each-none forced (s ∷ ss) m = elim (Option-cases s.id_servicio) [
  | inl e ↦ let (c, k) = consume_each-none forced ss m in rw e (omega (arith, c), k)
  | inr (i, e) ↦ let (c, k) = consume_each-none forced ss m in rw e (omega (arith, c), k)
]

split_price : (c : CoverageStatus) (n : ℕ) → if_covered c n 0 + if_covered c 0 n ≡ n
split_price cubierto_plan n = omega arith
split_price extra_pendiente n = omega arith

consume_each-total :
    (allowed : Bool) (forced : List ℕ) (items : List ServiceItem) (m : List (ℕ × ℕ))
    → (consume_each allowed forced items m).covered_total_hnl
        + (consume_each allowed forced items m).extra_total_hnl
      ≡ sum_by ServiceItem.precio_hnl items
unfolding consume_each
consume_each-total allowed forced [] m = refl
consume_each-total allowed forced (s ∷ ss) m =
    let status = status_of allowed s.id_servicio m in
    let rest = consume_each-total allowed forced ss (take_one status s.id_servicio m) in
    omega (arith, rest, split_price status s.precio_hnl)

-- Where the plan covers the titular, it pays for each service as many of the items that ask for it
-- as the tracker has left of it and no more, and leaves the tracker with the difference. The prices
-- that the plan covers and the extras add up to the prices of the items.
pub consume_coverage-pays :
    (t : Tracker) (items : List ServiceItem) (forced : List ℕ) (i : ℕ)
    → t.has_plan ≡ true
    → t.coverage_enabled ≡ true
    → (sum_by (is_paid i) (consume_coverage_for_services t items true forced).items
        ≡ min (remaining_of i t.service_remaining) (sum_by (is_asked i) items))
      × (remaining_of i (consume_coverage_for_services t items true forced).remaining_after
          ≡ remaining_of i t.service_remaining - sum_by (is_asked i) items)
      × ((consume_coverage_for_services t items true forced).covered_total_hnl
            + (consume_coverage_for_services t items true forced).extra_total_hnl
          ≡ sum_by ServiceItem.precio_hnl items)
unfolding consume_coverage_for_services
consume_coverage-pays t items forced i plan enabled =
    let (paid, left) = consume_each-paid i forced items t.service_remaining in
    let total = consume_each-total true forced items t.service_remaining in
    rw (plan, enabled) (paid, left, total)

-- Without a plan, with its coverage disabled, or for a guest, nothing is covered or consumed, and
-- the extras are the prices of all items.
pub consume_coverage-refuses :
    (t : Tracker) (items : List ServiceItem) (is_titular : Bool) (forced : List ℕ)
    → (t.has_plan && t.coverage_enabled && is_titular) ≡ false
    → ((consume_coverage_for_services t items is_titular forced).covered_total_hnl ≡ 0)
      × ((consume_coverage_for_services t items is_titular forced).remaining_after
          ≡ t.service_remaining)
      × ((consume_coverage_for_services t items is_titular forced).extra_total_hnl
          ≡ sum_by ServiceItem.precio_hnl items)
unfolding consume_coverage_for_services
consume_coverage-refuses t items is_titular forced h =
    let (covered, same) = consume_each-none forced items t.service_remaining in
    let total = consume_each-total false forced items t.service_remaining in
    rw h (covered, same, omega (arith, covered, total))
