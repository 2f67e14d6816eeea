-- ===== src/LucidStore/Deleting.antt =====
-- Deleting rows by their identifiers from a table whose identifiers are distinct.
use adonisjs_audit_trail.Common.{
  ◌≡◌, refl, sym, ap, subst, ◌∙◌, true, false, ◌||◌, List, [], ◌∷◌, ◌++◌, inl, inr, Bool-cases, All,
  arith,
}
use adonisjs_audit_trail.Common.Text.{Text, text_eq, text_eq_iff, text_eq_refl}
use adonisjs_audit_trail.Types.{ChainedAuditEvent}
use adonisjs_audit_trail.HashChain.Verify.{of_stream}
use adonisjs_audit_trail.LucidStore.{Audits}
use adonisjs_audit_trail.LucidStore.Query.{one_of}
use adonisjs_audit_trail.LucidStore.Prune.{row_ids, without}

-- No row has the identifier.
abbrev Apart : Text → Audits → Type 0
Apart x rs = All (λ (r : ChainedAuditEvent). text_eq x r.id ≡ false) rs

abbrev pub DistinctIds : Audits → Type 0
DistinctIds [] = Unit
DistinctIds (r ∷ rs) = Apart r.id rs × DistinctIds rs

abbrev Outside : List Text → Audits → Type 0
Outside ids rs = All (λ (r : ChainedAuditEvent). one_of ids r.id ≡ false) rs

module _ (x : Text) where
  Apart-of_stream : (u : Text) (t : Audits) → Apart x t → Apart x (of_stream u t)
  Apart-of_stream u [] a = tt
  Apart-of_stream u (r ∷ t) a = elim (Bool-cases (text_eq r.stream u)) [
    | inl e ↦ rw e (a.0, Apart-of_stream u t a.1)
    | inr e ↦ rw e (Apart-of_stream u t a.1)
  ]

  Apart-without : (ids : List Text) (t : Audits) → Apart x t → Apart x (without ids t)
  Apart-without ids [] a = tt
  Apart-without ids (r ∷ t) a = elim (Bool-cases (one_of ids r.id)) [
    | inl e ↦ rw e (Apart-without ids t a.1)
    | inr e ↦ rw e (a.0, Apart-without ids t a.1)
  ]

  Apart-right : (xs ys : Audits) → Apart x (xs ++ ys) → Apart x ys
  Apart-right [] ys a = a
  Apart-right (r ∷ xs) ys a = Apart-right xs ys a.1

pub DistinctIds-without :
    (ids : List Text) (t : Audits) → DistinctIds t → DistinctIds (without ids t)
DistinctIds-without ids [] d = tt
DistinctIds-without ids (r ∷ t) d = elim (Bool-cases (one_of ids r.id)) [
  | inl e ↦ rw e (DistinctIds-without ids t d.1)
  | inr e ↦ rw e (Apart-without r.id ids t d.0, DistinctIds-without ids t d.1)
]

pub DistinctIds-of_stream : (u : Text) (t : Audits) → DistinctIds t → DistinctIds (of_stream u t)
DistinctIds-of_stream u [] d = tt
DistinctIds-of_stream u (r ∷ t) d = elim (Bool-cases (text_eq r.stream u)) [
  | inl e ↦ rw e (Apart-of_stream r.id u t d.0, DistinctIds-of_stream u t d.1)
  | inr e ↦ rw e (DistinctIds-of_stream u t d.1)
]

without-append :
    (ids : List Text) (xs ys : Audits) → without ids (xs ++ ys) ≡ without ids xs ++ without ids ys
without-append ids [] ys = refl
without-append ids (x ∷ xs) ys = ground (arith, without-append ids xs ys)

pub of_stream-without :
    (u : Text) (ids : List Text) (t : Audits)
    → of_stream u (without ids t) ≡ without ids (of_stream u t)
of_stream-without u ids [] = refl
of_stream-without u ids (r ∷ t) = ground (arith, of_stream-without u ids t)

Outside-without : (ids : List Text) (rs : Audits) → Outside ids rs → without ids rs ≡ rs
Outside-without ids [] a = refl
Outside-without ids (r ∷ rs) a = rw (a.0) (ap (◌∷◌ r) (Outside-without ids rs a.1))

-- A text more among the identifiers.
Outside-cons :
    (x : Text) (ids : List Text) (rs : Audits) → Apart x rs → Outside ids rs → Outside (x ∷ ids) rs
Outside-cons x ids [] a o = tt
Outside-cons x ids (r ∷ rs) a o = (rw (a.0) (o.0), Outside-cons x ids rs a.1 o.1)

without-own :
    (x : Text) (ids : List Text) (rs : Audits) → without ids rs ≡ [] → without (x ∷ ids) rs ≡ []
without-own x ids [] e = refl
without-own x ids (r ∷ rs) e = elim (Bool-cases (one_of ids r.id)) [
  | inl o ↦
      let more : (text_eq x r.id || one_of ids r.id) ≡ true = ground (arith, o) in
      rw more (without-own x ids rs (rw o at e))
  | inr o ↦ absurd (cons-ne-nil (rw o at e))
]
  where
    cons-ne-nil : {xs : Audits} → r ∷ xs ≡ [] → ⊥
    cons-ne-nil k = cc

without-row_ids : (rs : Audits) → without (row_ids rs) rs ≡ []
without-row_ids [] = refl
without-row_ids (r ∷ rs) =
    rw (text_eq_refl r.id) (without-own r.id (row_ids rs) rs (without-row_ids rs))

Outside-rest : (xs ys : Audits) → DistinctIds (xs ++ ys) → Outside (row_ids xs) ys
Outside-rest [] ys d = none ys
  where
    none : (ys : Audits) → Outside [] ys
    none [] = tt
    none (y ∷ ys) = (refl, none ys)
Outside-rest (x ∷ xs) ys d =
    Outside-cons x.id (row_ids xs) ys (Apart-right x.id xs ys d.0) (Outside-rest xs ys d.1)

-- Deleting the first rows leaves the others.
pub without-prefix :
    (xs ys : Audits) → DistinctIds (xs ++ ys) → without (row_ids xs) (xs ++ ys) ≡ ys
without-prefix xs ys d =
    without-append (row_ids xs) xs ys
    ∙ rw (without-row_ids xs) (Outside-without (row_ids xs) ys (Outside-rest xs ys d))

Apart-one_of : (x : Text) (rs : Audits) → Apart x rs → one_of (row_ids rs) x ≡ false
Apart-one_of x [] a = refl
Apart-one_of x (r ∷ rs) a =
    ground (arith, text_eq_iff x r.id, text_eq_iff r.id x, a.0, Apart-one_of x rs a.1)

Outside-prefix : (xs ys rs : Audits) → Outside (row_ids (xs ++ ys)) rs → Outside (row_ids xs) rs
Outside-prefix xs ys [] o = tt
Outside-prefix xs ys (r ∷ rs) o = (one_of-prefix xs ys r.id o.0, Outside-prefix xs ys rs o.1)
  where
    one_of-prefix :
        (xs ys : Audits) (x : Text)
        → one_of (row_ids (xs ++ ys)) x ≡ false
        → one_of (row_ids xs) x ≡ false
    one_of-prefix [] ys x e = refl
    one_of-prefix (z ∷ xs) ys x e = elim (Bool-cases (text_eq z.id x)) [
      | inl k ↦ absurd (true-ne-false (rw k at e))
      | inr k ↦ rw k (one_of-prefix xs ys x (rw k at e))
    ]
      where
        true-ne-false : true ≡ false → ⊥
        true-ne-false k = cc

-- The identifiers of one stream are none of another's.
other_ids :
    (s u : Text) (t : Audits)
    → DistinctIds t
    → text_eq s u ≡ false
    → Outside (row_ids (of_stream s t)) (of_stream u t)
other_ids s u [] d ne = tt
other_ids s u (r ∷ t) d ne =
    let ih = other_ids s u t d.1 ne in
    elim (Bool-cases (text_eq r.stream s)) [
      | inl e ↦
          let not_u : text_eq r.stream u ≡ false =
            subst (λ k. text_eq k u ≡ false) (sym ((text_eq_iff r.stream s).0 e)) ne in
          rw (e, not_u)
            (Outside-cons r.id (row_ids (of_stream s t)) (of_stream u t)
              (Apart-of_stream r.id u t d.0) ih)
      | inr e ↦ elim (Bool-cases (text_eq r.stream u)) [
        | inl f ↦ rw (e, f) (Apart-one_of r.id (of_stream s t) (Apart-of_stream r.id s t d.0), ih)
        | inr f ↦ rw (e, f) ih
      ]
    ]

-- Deleting rows of one stream leaves the rows of any other.
pub without-other :
    (s u : Text) (t xs ys : Audits)
    → DistinctIds t
    → text_eq s u ≡ false
    → of_stream s t ≡ xs ++ ys
    → without (row_ids xs) (of_stream u t) ≡ of_stream u t
without-other s u t xs ys d ne e = Outside-without (row_ids xs) (of_stream u t) (
    Outside-prefix xs ys (of_stream u t)
      (subst (λ rs. Outside (row_ids rs) (of_stream u t)) e (other_ids s u t d ne)))
