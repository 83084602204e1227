-- ===== src/Booking/Attempts/Combinations.antt =====
-- What is tried for the members of a reservation: nothing but combinations of their options, in which no
-- barber is taken twice at one time, and none twice.
use masterfadebackend.Prelude.{
  ℕ, ◌≡◌, refl, sym, ap, subst, ◌∙◌, inl, inr, List, [], ◌∷◌, ◌++◌, Bool, true, false, ◌||◌, any,
  All, All-append, Memᴰ, Bool-cases, any-append, arith, if◌then◌else◌,
}
use masterfadebackend.Booking.Attempts.{
  Choice, Part, Found, signature, same_signature, clashes, is_seen, leaf, is_over, each, walk,
}

-- One option of each member, in order.
pub data Picks : List (List Choice) → List Choice → Type 0 where
  nobody : Picks [] []
  picked :
      {g : List Choice} {gs : List (List Choice)} {o : Choice} {os : List Choice}
      → Memᴰ o g
      → Picks gs os
      → Picks (g ∷ gs) (o ∷ os)

pub append-nil : {A : Type 0} (xs : List A) → xs ++ [] ≡ xs
append-nil [] = refl
append-nil (x ∷ xs) = ap (λ ys. x ∷ ys) (append-nil xs)

pub append-snoc :
    {A : Type 0} (xs : List A) (y : A) (zs : List A) → (xs ++ y ∷ []) ++ zs ≡ xs ++ y ∷ zs
append-snoc [] y zs = refl
append-snoc (x ∷ xs) y zs = ap (λ ws. x ∷ ws) (append-snoc xs y zs)

-- Each step keeps what holds, so that the loop does.
each-keeps :
    (P : Found → Type 0) (f : Choice → Found → Found) (g : List Choice)
    → ((o : Choice) → Memᴰ o g → (s : Found) → P s → P (f o s))
    → (s : Found) → P s
    → P (each f g s)
each-keeps P f [] keeps s p = p
each-keeps P f (o ∷ os) keeps s p =
    each-keeps P f os (λ o' m. keeps o' (Memᴰ.tail m)) (f o s) (keeps o (Memᴰ.head refl) s p)

branch : (P : Found → Type 0) (b : Bool) (s t : Found) → P s → P t → P (if b then s else t)
branch P true s t p q = p
branch P false s t p q = q

-- What the ends of the walk keep, the walk keeps.
pub walk-keeps :
    (P : Found → Type 0) (max : ℕ) (gs : List (List Choice)) (selected : List Choice)
    → ((os : List Choice) → Picks gs os → (s : Found) → P s → P (leaf (selected ++ os) s))
    → (s : Found) → P s
    → P (walk max gs selected s)
unfolding walk
walk-keeps P max [] selected keeps s p =
    branch P (is_over max s) s (leaf selected s) p
      (subst (λ xs. P (leaf xs s)) (append-nil selected) (keeps [] nobody s p))
walk-keeps P max (g ∷ gs) selected keeps s p =
    branch P (is_over max s) s (each (λ o. walk max gs (selected ++ o ∷ [])) g s) p (
      each-keeps P (λ o. walk max gs (selected ++ o ∷ [])) g
        (λ o m s' p'.
          walk-keeps P max gs (selected ++ o ∷ [])
            (λ os picks s'' p''.
              subst (λ xs. P (leaf xs s'')) (sym (append-snoc selected o os))
                (keeps (o ∷ os) (picked m picks) s'' p''))
            s' p')
        s p)

-- No two attempts stand for the same.
pub Apart : List (List Choice) → Type 0
Apart [] = Unit
Apart (a ∷ xs) = All (λ b. same_signature (signature b) (signature a) ≡ false) xs × Apart xs

pub record IsSound (groups : List (List Choice)) (s : Found) : Type 0 where
  pub fits : All (λ a. Picks groups a × (clashes a ≡ false)) s.attempts
  pub apart : Apart s.attempts
  pub tracks :
      (y : List Part)
      → any (same_signature y) s.seen ≡ any (λ a. same_signature y (signature a)) s.attempts

unmatched :
    (y : List Part) (xs : List (List Choice))
    → any (λ a. same_signature y (signature a)) xs ≡ false
    → All (λ a. same_signature y (signature a) ≡ false) xs
unmatched y [] e = tt
unmatched y (a ∷ xs) e = (ground arith, unmatched y xs (ground arith))

Apart-snoc :
    (xs : List (List Choice)) (x : List Choice)
    → Apart xs
    → All (λ a. same_signature (signature x) (signature a) ≡ false) xs
    → Apart (xs ++ x ∷ [])
unfolding Apart
Apart-snoc [] x p e = (tt, tt)
Apart-snoc (a ∷ xs) x p e = (
  All-append (λ b. same_signature (signature b) (signature a) ≡ false) xs (x ∷ []) p.0 (e.0, tt),
  Apart-snoc xs x p.1 e.1,
)

tracks-snoc :
    (y : List Part) (s : Found) (x : List Choice)
    → any (same_signature y) s.seen ≡ any (λ a. same_signature y (signature a)) s.attempts
    → (same_signature y (signature x) || any (same_signature y) s.seen)
      ≡ any (λ a. same_signature y (signature a)) (s.attempts ++ x ∷ [])
tracks-snoc y s x e =
    rw (any-append (λ a. same_signature y (signature a)) s.attempts (x ∷ []), e) (ground arith)

leaf-IsSound :
    (groups : List (List Choice)) (os : List Choice)
    → Picks groups os
    → (s : Found) → IsSound groups s
    → IsSound groups (leaf os s)
unfolding leaf
leaf-IsSound groups os picks s sound = elim (Bool-cases (clashes os)) [
  | inl bad ↦ rw bad sound
  | inr fine ↦ elim (Bool-cases (is_seen os s)) [
    | inl old ↦ rw (fine, old) sound
    | inr new ↦
        rw (fine, new)
          (record {
            fits =
                All-append (λ a. Picks groups a × (clashes a ≡ false)) s.attempts (os ∷ [])
                  sound.fits ((picks, fine), tt);
            apart = Apart-snoc s.attempts os sound.apart (
                unmatched (signature os) s.attempts
                  (sym (sound.tracks (signature os)) ∙ (unfold is_seen in new)));
            tracks = λ y. tracks-snoc y s os (sound.tracks y);
          })
  ]
]

pub walk-IsSound :
    (max : ℕ) (groups : List (List Choice))
    → IsSound groups (walk max groups [] (record { attempts = []; seen = [] }))
unfolding Apart
walk-IsSound max groups =
    walk-keeps (IsSound groups) max groups []
      (λ os picks s sound. leaf-IsSound groups os picks s sound)
      (record { attempts = []; seen = [] }) (record { fits = tt; apart = tt; tracks = λ y. refl })
