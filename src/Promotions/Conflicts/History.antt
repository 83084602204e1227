-- ===== src/Promotions/Conflicts/History.antt =====
-- The locks of `resolvePromotionConflicts` against the history of what was applied before.
use Prim.Native.String.{String}
use text.Mathlib.TextEquality.{eq_iff}
use text.Mathlib.TextPositions.{eq_refl}
use masterfadebackend.Prelude.{
  ◌≡◌, refl, sym, ap, ap₂, ◌∙◌, inl, inr, List, [], ◌∷◌, Option, none, some, Bool, true, false,
  ◌&&◌, ◌||◌, not, arith, if◌then◌else◌, any, sort_by, Bool-cases,
}
use masterfadebackend.Promotions.Evaluation.{
  TargetKey, servicio_key, paquete_key, grupo_key, Evaluated,
}
use masterfadebackend.Promotions.Conflicts.{
  Locks, same_key, comes_first, is_applicable, owner_of, put_lock, put_locks, take_locks, clashes,
  in_conflict, resolve_from, resolve_conflicts,
}

same_key→eq : (j k : TargetKey) → same_key j k ≡ true → j ≡ k
same_key→eq (servicio_key a) (servicio_key b) h = ap servicio_key ((eq_iff a b).0 h)
same_key→eq (paquete_key a) (paquete_key b) h = ap paquete_key ((eq_iff a b).0 h)
same_key→eq (grupo_key a) (grupo_key b) h = ap grupo_key ((eq_iff a b).0 h)
same_key→eq (servicio_key a) (paquete_key b) h = cc
same_key→eq (servicio_key a) (grupo_key b) h = cc
same_key→eq (paquete_key a) (servicio_key b) h = cc
same_key→eq (paquete_key a) (grupo_key b) h = cc
same_key→eq (grupo_key a) (servicio_key b) h = cc
same_key→eq (grupo_key a) (paquete_key b) h = cc

same_key_refl : (k : TargetKey) → same_key k k ≡ true
same_key_refl (servicio_key a) = eq_refl a
same_key_refl (paquete_key a) = eq_refl a
same_key_refl (grupo_key a) = eq_refl a

same_key_other :
    (i j k : TargetKey) → same_key i j ≡ false → same_key i k ≡ true → same_key j k ≡ false
same_key_other i j k other found = elim (Bool-cases (same_key j k)) [
  | inl same ↦
      let both = same_key→eq i k found ∙ sym (same_key→eq j k same) in
      cc (sym other, ap (λ x. same_key i x) (sym both), same_key_refl i)
  | inr differs ↦ differs
]

owner_of-put_lock :
    (k j : TargetKey) (e : Evaluated) (locks : Locks)
    → owner_of k (put_lock j e locks) ≡ (if same_key j k then some e else owner_of k locks)
unfolding owner_of put_lock
owner_of-put_lock k j e [] = refl
owner_of-put_lock k j e ((i, f) ∷ locks) = elim (Bool-cases (same_key i j)) [
  | inl same ↦ rw same (ground (arith, ap (λ x. same_key x k) (same_key→eq i j same)))
  | inr other ↦ elim (Bool-cases (same_key i k)) [
    | inl found ↦ rw (other, found, same_key_other i j k other found) refl
    | inr missed ↦ rw (other, missed) (owner_of-put_lock k j e locks)
  ]
]

owner_of-put_locks :
    (k : TargetKey) (ks : List TargetKey) (e : Evaluated) (locks : Locks)
    → owner_of k (put_locks ks e locks)
      ≡ (if any (λ j. same_key j k) ks then some e else owner_of k locks)
unfolding put_locks
owner_of-put_locks k [] e locks = refl
owner_of-put_locks k (j ∷ ks) e locks =
    owner_of-put_locks k ks e (put_lock j e locks)
    ∙ ap (λ o. if any (λ i. same_key i k) ks then some e else o) (owner_of-put_lock k j e locks)
    ∙ ground arith

-- The last promotion applied before that is not cumulative and has the key, most recent first.
pub holder : TargetKey → List Evaluated → Option Evaluated
holder k [] = none
holder k (b ∷ before) =
    if not b.es_acumulable && any (λ j. same_key j k) b.target_keys then some b else holder k before

abbrev Agrees : Locks → List Evaluated → Type 0
Agrees locks before = (k : TargetKey) → owner_of k locks ≡ holder k before

locked-Agrees :
    (cumulative : Bool) (k : TargetKey) (e : Evaluated) (locks : Locks) (before : List Evaluated)
    → Agrees locks before
    → owner_of k (if cumulative then locks else put_locks e.target_keys e locks) ≡ (
        if not cumulative && any (λ j. same_key j k) e.target_keys then some e else holder k before)
locked-Agrees true k e locks before h = h k
locked-Agrees false k e locks before h =
    owner_of-put_locks k e.target_keys e locks
    ∙ ap (λ o. if any (λ j. same_key j k) e.target_keys then some e else o) (h k)

take_locks-Agrees :
    (e : Evaluated) (locks : Locks) (before : List Evaluated)
    → Agrees locks before
    → Agrees (take_locks e locks) (e ∷ before)
unfolding take_locks holder
take_locks-Agrees e locks before h k = locked-Agrees e.es_acumulable k e locks before h

sort_three :
    (le : Evaluated → Evaluated → Bool) (a b c : Evaluated)
    → le a b ≡ true
    → le b c ≡ true
    → sort_by le (a ∷ b ∷ c ∷ []) ≡ a ∷ b ∷ c ∷ []
sort_three le a b c ab bc = rw (bc, ab)

module _ (compatible : String → String → Bool) where
  -- Each promotion applied is compatible, on each of its keys, with that key's holder.
  abbrev pub IsAdmissible : List Evaluated → List Evaluated → Type 0
  IsAdmissible before [] = Unit
  IsAdmissible before (e ∷ es) =
      (is_applicable e ≡ true)
      × (any (λ k. clashes compatible (holder k before) e) e.target_keys ≡ false)
      × IsAdmissible (e ∷ before) es

  in_conflict-holder :
      (ks : List TargetKey) (e : Evaluated) (locks : Locks) (before : List Evaluated)
      → Agrees locks before
      → in_conflict compatible ks e locks ≡ any (λ k. clashes compatible (holder k before) e) ks
  unfolding in_conflict
  in_conflict-holder [] e locks before h = refl
  in_conflict-holder (k ∷ ks) e locks before h =
      ap₂ ◌||◌ (ap (λ o. clashes compatible o e) (h k)) (in_conflict-holder ks e locks before h)

  resolve_from-IsAdmissible :
      (locks : Locks) (before es : List Evaluated)
      → Agrees locks before
      → IsAdmissible before (resolve_from compatible locks es).applied
  unfolding resolve_from
  resolve_from-IsAdmissible locks before [] h = tt
  resolve_from-IsAdmissible locks before (e ∷ es) h = elim (Bool-cases (is_applicable e)) [
    | inr skipped ↦ rw skipped (resolve_from-IsAdmissible locks before es h)
    | inl fit ↦ elim (Bool-cases (in_conflict compatible e.target_keys e locks)) [
      | inl clash ↦ rw (fit, clash) (resolve_from-IsAdmissible locks before es h)
      | inr free ↦
          rw (fit, free)
            (
              fit,
              sym (in_conflict-holder e.target_keys e locks before h) ∙ free,
              resolve_from-IsAdmissible (take_locks e locks) (e ∷ before) es
                  (take_locks-Agrees e locks before h),
            )
    ]
  ]

  -- Every promotion that is applied is valid, gives something, and is compatible on each of its keys
  -- with the last promotion before it that is not cumulative and has that key.
  pub resolve_conflicts-IsAdmissible :
      (es : List Evaluated) → IsAdmissible [] (resolve_conflicts compatible es).applied
  unfolding resolve_conflicts
  resolve_conflicts-IsAdmissible es =
      resolve_from-IsAdmissible [] [] (sort_by comes_first es) (λ k. unfold owner_of holder in refl)

  -- A promotion that wants a key for itself alone.
  pub record IsAlone (k : TargetKey) (e : Evaluated) : Type 0 where
    pub fit : is_applicable e ≡ true
    pub alone : e.es_acumulable ≡ false
    pub one_key : e.target_keys ≡ k ∷ []

  take_locks-alone :
      (k : TargetKey) (e : Evaluated) (locks : Locks)
      → IsAlone k e
      → take_locks e locks ≡ put_lock k e locks
  unfolding take_locks put_locks
  take_locks-alone k e locks h =
      ap (λ b. if b then locks else put_locks e.target_keys e locks) h.alone
      ∙ ap (λ ks. put_locks ks e locks) h.one_key

  resolve-alone :
      (k : TargetKey) (e : Evaluated) (locks : Locks) (es : List Evaluated)
      → IsAlone k e
      → in_conflict compatible (k ∷ []) e locks ≡ false
      → (resolve_from compatible locks (e ∷ es)).applied
        ≡ e ∷ (resolve_from compatible (put_lock k e locks) es).applied
  unfolding resolve_from
  resolve-alone k e locks es h free =
      let clear = ap (λ ks. in_conflict compatible ks e locks) h.one_key ∙ free in
      rw (h.fit, clear)
        (ap (λ l. e ∷ (resolve_from compatible l es).applied) (take_locks-alone k e locks h))

  free_after :
      (k : TargetKey) (e next : Evaluated) (locks : Locks)
      → compatible e.id_promocion_regla next.id_promocion_regla ≡ true
      → in_conflict compatible (k ∷ []) next (put_lock k e locks) ≡ false
  unfolding in_conflict
  free_after k e next locks p =
      ap (λ o. clashes compatible o next || false)
        (owner_of-put_lock k k e locks
          ∙ ap (λ b. if b then some e else owner_of k locks) (same_key_refl k))
      ∙ ap (λ b. not b || false) p

  -- Three promotions in order of priority that want one key, of which the second goes with either
  -- and the first and the third do not go together, are all applied.
  pub resolve_conflicts-chain :
      (k : TargetKey) (a b c : Evaluated)
      → IsAlone k a
      → IsAlone k b
      → IsAlone k c
      → comes_first a b ≡ true
      → comes_first b c ≡ true
      → compatible a.id_promocion_regla b.id_promocion_regla ≡ true
      → compatible b.id_promocion_regla c.id_promocion_regla ≡ true
      → compatible a.id_promocion_regla c.id_promocion_regla ≡ false
      → (resolve_conflicts compatible (a ∷ b ∷ c ∷ [])).applied ≡ a ∷ b ∷ c ∷ []
  unfolding resolve_conflicts resolve_from
  resolve_conflicts-chain k a b c ha hb hc ab bc p q r =
      ap (λ es. (resolve_from compatible [] es).applied) (sort_three comes_first a b c ab bc)
      ∙ resolve-alone k a [] (b ∷ c ∷ []) ha (unfold in_conflict owner_of in refl)
      ∙ ap (◌∷◌ a) (
          resolve-alone k b (put_lock k a []) (c ∷ []) hb (free_after k a b [] p)
          ∙ ap (◌∷◌ b)
              (resolve-alone k c (put_lock k b (put_lock k a [])) [] hc (free_after k b c _ q)))
