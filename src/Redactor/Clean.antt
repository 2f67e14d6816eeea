-- ===== src/Redactor/Clean.antt =====
-- No value under a redacted path survives, and redacting once more changes nothing.
use adonisjs_audit_trail.Common.{
  ℕ, ◌+◌, ◌≡◌, refl, sym, ap, subst, Bool, true, false, Option, none, some, List, [], ◌∷◌, ◌++◌,
  inl, inr, Bool-cases,
}
use adonisjs_audit_trail.Common.Text.{Text, text, text_eq}
use adonisjs_audit_trail.Errors.{Result, ok, >>=-eq-ok, two_binds, ok-injective, ok-ne-err}
use adonisjs_audit_trail.Json.Canonical.{canonical_json}
use adonisjs_audit_trail.Json.{
  JsonText, Value, Items, Fields, undefined, null, function, symbol, bigint, cycle, bool, num, str,
  date, instance_of, arr, obj, nil, cons, end, field,
}
use adonisjs_audit_trail.Types.{RedactionMode, mask, remove, hash}
use adonisjs_audit_trail.Redactor.{
  CompiledPattern, HashInput, canonical_text, scalar, is_object, is_redacted, index_text,
  hash_value, cover, put, redact_value, redact_items, redact_fields,
}

-- What may stand under a redacted key: the mask, nothing, or a tagged digest.
abbrev pub Covered : RedactionMode → Value → Type 0
Covered mask v = v ≡ str (text "[REDACTED]")
Covered remove v = ⊥
Covered hash v = (d : Text) × (v ≡ str (text "sha256:" ++ d))

-- The first statement where a test holds, the second where it does not.
abbrev pub Either : Bool → Type 0 → Type 0 → Type 0
Either true X Y = X
Either false X Y = Y

module _ (patterns : List CompiledPattern) (mode : RedactionMode) where
  -- Below a path, every property whose own path is redacted is covered, every other one is clean below
  -- its path, and no object but a plain one is left.
  unfoldable mutual
    pub Clean : List Text → Value → Type 0
    Clean path (arr xs) = CleanItems path 0 xs
    Clean path (obj fs) = CleanFields path fs
    Clean path (instance_of c fs) = ⊥
    Clean path (date t) = ⊥
    Clean path cycle = ⊥
    Clean path null = Unit
    Clean path undefined = Unit
    Clean path function = Unit
    Clean path symbol = Unit
    Clean path bigint = Unit
    Clean path (bool b) = Unit
    Clean path (num n) = Unit
    Clean path (str t) = Unit

    pub CleanItems : List Text → ℕ → Items → Type 0
    CleanItems path i nil = Unit
    CleanItems path i (cons v vs) = Clean (index_text i ∷ path) v × CleanItems path (i + 1) vs

    pub CleanFields : List Text → Fields → Type 0
    CleanFields path end = Unit
    CleanFields path (field k v fs) =
        Either (is_redacted (k ∷ path) patterns) (Covered mode v) (Clean (k ∷ path) v)
        × (text_eq k (text "__proto__") ≡ false)
        × CleanFields path fs

  put-Clean :
      (path : List Text) (k : Text) (v : Value) (fs : Fields)
      → Either (is_redacted (k ∷ path) patterns) (Covered mode v) (Clean (k ∷ path) v)
      → CleanFields path fs
      → CleanFields path (put k v fs)
  unfolding CleanFields
  put-Clean path k v fs h hs = elim (Bool-cases (text_eq k (text "__proto__"))) [
    | inl e ↦ rw e hs
    | inr e ↦ rw e (h, e, hs)
  ]

  module _ (digest : Text → HashInput → Text) (salt : Option Text) where
    hash_value-tagged :
        (v : Value) (s h : Text)
        → hash_value digest v s ≡ ok h
        → (d : Text) × (h ≡ text "sha256:" ++ d)
    unfolding hash_value
    hash_value-tagged v s h e = elim (Bool-cases (is_object v)) [
      | inl o ↦
          let tag = λ (t : JsonText). text "sha256:" ++ digest s (canonical_text t) in
          let (t, et, eh) =
            >>=-eq-ok (canonical_json v) (λ t. ok (tag t)) (rw (o, hash_value) at e) in
          (digest s (canonical_text t), sym (ok-injective eh))
      | inr o ↦ (digest s (scalar v), sym (ok-injective (rw (o, hash_value) at e)))
    ]

    cover_hash-Clean :
        (same : hash ≡ mode) (salt : Option Text) (path : List Text) (k : Text) (v : Value)
        (rest : Result Fields) (gs : Fields)
        → is_redacted (k ∷ path) patterns ≡ true
        → ((fs : Fields) → rest ≡ ok fs → CleanFields path fs)
        → cover digest hash salt k v rest ≡ ok gs
        → CleanFields path gs
    unfolding cover
    cover_hash-Clean same none path k v rest gs r h e = absurd (ok-ne-err e)
    cover_hash-Clean same (some []) path k v rest gs r h e = absurd (ok-ne-err e)
    cover_hash-Clean same (some (c ∷ cs)) path k v rest gs r h e =
        let (t, fs, et, ef, eg) =
          two_binds (hash_value digest v (c ∷ cs)) (λ t. rest) (λ t fs. put k (str t) fs) e in
        let (d, tagged) = hash_value-tagged v (c ∷ cs) t et in
        subst (CleanFields path) eg
          (put-Clean path k (str t) fs (rw (r, sym same) (d, ap str tagged)) (h fs ef))

    cover-Clean :
        (m : RedactionMode) (same : m ≡ mode) (path : List Text) (k : Text) (v : Value)
        (rest : Result Fields) (gs : Fields)
        → is_redacted (k ∷ path) patterns ≡ true
        → ((fs : Fields) → rest ≡ ok fs → CleanFields path fs)
        → cover digest m salt k v rest ≡ ok gs
        → CleanFields path gs
    unfolding cover
    cover-Clean mask same path k v rest gs r h e =
        let (fs, ef, eg) = >>=-eq-ok rest (λ fs. ok (put k (str (text "[REDACTED]")) fs)) e in
        subst (CleanFields path) (ok-injective eg)
          (put-Clean path k _ fs (rw (r, sym same) refl) (h fs ef))
    cover-Clean remove same path k v rest gs r h e = h gs e
    cover-Clean hash same path k v rest gs r h e = cover_hash-Clean same salt path k v rest gs r h e

    mutual
      unfolding redact_value CleanFields

      pub redact_value-Clean :
          (path : List Text) (v w : Value)
          → redact_value digest patterns mode salt path v ≡ ok w
          → Clean path w
      redact_value-Clean path (arr xs) w e =
          let (ys, ey, ew) =
            >>=-eq-ok (redact_items digest patterns mode salt path 0 xs) (λ ys. ok (arr ys)) e in
          subst (Clean path) (ok-injective ew) (redact_items-Clean path 0 xs ys ey)
      redact_value-Clean path (obj fs) w e =
          let (gs, eg, ew) =
            >>=-eq-ok (redact_fields digest patterns mode salt path fs) (λ gs. ok (obj gs)) e in
          subst (Clean path) (ok-injective ew) (redact_fields-Clean path fs gs eg)
      redact_value-Clean path (instance_of c fs) w e =
          let (gs, eg, ew) =
            >>=-eq-ok (redact_fields digest patterns mode salt path fs) (λ gs. ok (obj gs)) e in
          subst (Clean path) (ok-injective ew) (redact_fields-Clean path fs gs eg)
      redact_value-Clean path (date t) w e = subst (Clean path) (ok-injective e) tt
      redact_value-Clean path cycle w e = absurd (ok-ne-err e)
      redact_value-Clean path null w e = subst (Clean path) (ok-injective e) tt
      redact_value-Clean path undefined w e = subst (Clean path) (ok-injective e) tt
      redact_value-Clean path function w e = subst (Clean path) (ok-injective e) tt
      redact_value-Clean path symbol w e = subst (Clean path) (ok-injective e) tt
      redact_value-Clean path bigint w e = subst (Clean path) (ok-injective e) tt
      redact_value-Clean path (bool b) w e = subst (Clean path) (ok-injective e) tt
      redact_value-Clean path (num n) w e = subst (Clean path) (ok-injective e) tt
      redact_value-Clean path (str t) w e = subst (Clean path) (ok-injective e) tt

      redact_items-Clean :
          (path : List Text) (i : ℕ) (vs ws : Items)
          → redact_items digest patterns mode salt path i vs ≡ ok ws
          → CleanItems path i ws
      redact_items-Clean path i nil ws e = subst (CleanItems path i) (ok-injective e) tt
      redact_items-Clean path i (cons v vs) ws e =
          let (w, us, ew, eu, es) =
            two_binds (redact_value digest patterns mode salt (index_text i ∷ path) v)
              (λ w. redact_items digest patterns mode salt path (i + 1) vs) (λ w us. cons w us) e in
          subst (CleanItems path i) es (
            redact_value-Clean (index_text i ∷ path) v w ew,
            redact_items-Clean path (i + 1) vs us eu,
          )

      redact_fields-Clean :
          (path : List Text) (fs gs : Fields)
          → redact_fields digest patterns mode salt path fs ≡ ok gs
          → CleanFields path gs
      redact_fields-Clean path end gs e = subst (CleanFields path) (ok-injective e) tt
      redact_fields-Clean path (field k v fs) gs e =
          let rest = redact_fields digest patterns mode salt path fs in
          elim (Bool-cases (is_redacted (k ∷ path) patterns)) [
            | inl r ↦
                cover-Clean mode refl path k v rest gs r (redact_fields-Clean path fs)
                  (rw (r, redact_fields) at e)
            | inr r ↦
                let (w, u, ew, eu, eg) =
                  two_binds (redact_value digest patterns mode salt (k ∷ path) v) (λ w. rest)
                    (λ w u. put k w u) (rw (r, redact_fields) at e) in
                subst (CleanFields path) eg (
                  put-Clean path k w u (rw r (redact_value-Clean (k ∷ path) v w ew))
                    (redact_fields-Clean path fs u eu))
          ]
