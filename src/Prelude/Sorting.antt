-- ===== src/Prelude/Sorting.antt =====
-- `Array.prototype.sort`, which is stable, as insertion sort by a Boolean comparison.
use Prim.Native.Nat.{ℕ, ◌+◌}
use mathlib.Core.Path.{◌≡◌, refl}
use mathlib.Core.Logic.{inl, inr}
use mathlib.Core.Bool.{Bool, true, false, ◌||◌}
use mathlib.Core.List.{List, [], ◌∷◌}
use native.Mathlib.Omega.{arith}
use masterfadebackend.Prelude.Tests.{Bool-cases, if◌then◌else◌}
use masterfadebackend.Prelude.Lists.{any, sum_by, All, Some, Some-tail}

module _ {ℓ} {A : Type ℓ} (P : A → Type 0) where
  swap-Some :
      (x y : A) (ys zs : List A)
      → (Some P zs → Some P (x ∷ ys))
      → Some P (y ∷ zs)
      → Some P (x ∷ y ∷ ys)
  swap-Some x y ys zs f (inl p) = inr (inl p)
  swap-Some x y ys zs f (inr s) = elim (f s) [ inl p ↦ inl p | inr q ↦ inr (inr q) ]

module _ {ℓ} {A : Type ℓ} (le : A → A → Bool) where
  abbrev pub insert_by : A → List A → List A
  insert_by x [] = x ∷ []
  insert_by x (y ∷ ys) = if le x y then x ∷ y ∷ ys else y ∷ insert_by x ys

  -- `le x y` says that the comparison of `x` with `y` is not positive.
  abbrev pub sort_by : List A → List A
  sort_by [] = []
  sort_by (x ∷ xs) = insert_by x (sort_by xs)

  abbrev pub HeadLe : A → List A → Type 0
  HeadLe x [] = Unit
  HeadLe x (y ∷ ys) = le x y ≡ true

  abbrev pub IsSorted : List A → Type 0
  IsSorted [] = Unit
  IsSorted (x ∷ xs) = HeadLe x xs × IsSorted xs

  any-insert_by : (p : A → Bool) (x : A) (xs : List A) → any p (insert_by x xs) ≡ p x || any p xs
  any-insert_by p x [] = refl
  any-insert_by p x (y ∷ ys) = ground (arith, any-insert_by p x ys)

  pub any-sort_by : (p : A → Bool) (xs : List A) → any p (sort_by xs) ≡ any p xs
  any-sort_by p [] = refl
  any-sort_by p (x ∷ xs) = ground (arith, any-insert_by p x (sort_by xs), any-sort_by p xs)

  sum_by-insert_by :
      (f : A → ℕ) (x : A) (xs : List A) → sum_by f (insert_by x xs) ≡ f x + sum_by f xs
  sum_by-insert_by f x [] = refl
  sum_by-insert_by f x (y ∷ ys) = ground (arith, sum_by-insert_by f x ys)

  pub sum_by-sort_by : (f : A → ℕ) (xs : List A) → sum_by f (sort_by xs) ≡ sum_by f xs
  sum_by-sort_by f [] = refl
  sum_by-sort_by f (x ∷ xs) = omega (arith, sum_by-insert_by f x (sort_by xs), sum_by-sort_by f xs)

  All-insert_by {κ} :
      (P : A → Type κ) (x : A) (xs : List A) → P x → All P xs → All P (insert_by x xs)
  All-insert_by P x [] h a = (h, tt)
  All-insert_by P x (y ∷ ys) h a = ground (arith, All-insert_by P x ys h a.1)

  pub All-sort_by {κ} : (P : A → Type κ) (xs : List A) → All P xs → All P (sort_by xs)
  All-sort_by P [] a = tt
  All-sort_by P (x ∷ xs) a = All-insert_by P x (sort_by xs) a.0 (All-sort_by P xs a.1)

  Some-insert_by :
      (P : A → Type 0) (x : A) (xs : List A) → Some P (insert_by x xs) → Some P (x ∷ xs)
  Some-insert_by P x [] s = s
  Some-insert_by P x (y ∷ ys) s = elim (Bool-cases (le x y)) [
    | inl h ↦ rw h at s
    | inr h ↦ swap-Some P x y ys (insert_by x ys) (Some-insert_by P x ys) (rw h at s)
  ]

  pub Some-sort_by : (P : A → Type 0) (xs : List A) → Some P (sort_by xs) → Some P xs
  Some-sort_by P [] s = s
  Some-sort_by P (x ∷ xs) s =
      Some-tail P x xs (sort_by xs) (Some-sort_by P xs) (Some-insert_by P x (sort_by xs) s)

  module _ (total : (x y : A) → le x y ≡ false → le y x ≡ true) where
    HeadLe-insert_by :
        (y x : A) (xs : List A) → le y x ≡ true → HeadLe y xs → HeadLe y (insert_by x xs)
    HeadLe-insert_by y x [] h a = h
    HeadLe-insert_by y x (z ∷ zs) h a = ground arith

    insert_by-IsSorted : (x : A) (xs : List A) → IsSorted xs → IsSorted (insert_by x xs)
    insert_by-IsSorted x [] s = (tt, tt)
    insert_by-IsSorted x (y ∷ ys) s =
        ground (arith, total x y, HeadLe-insert_by y x ys, insert_by-IsSorted x ys s.1)

    pub sort_by-IsSorted : (xs : List A) → IsSorted (sort_by xs)
    sort_by-IsSorted [] = tt
    sort_by-IsSorted (x ∷ xs) = insert_by-IsSorted x (sort_by xs) (sort_by-IsSorted xs)
