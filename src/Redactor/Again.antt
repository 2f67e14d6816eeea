-- ===== src/Redactor/Again.antt =====
-- What `createRedactor` promises: nothing under a redacted path survives, and masking or removing twice
-- is masking or removing once.
use adonisjs_audit_trail.Common.{
  ℕ, ◌+◌, ◌≡◌, ◌≢◌, refl, ap, ◌∙◌, false, ◌&&◌, not, Option, List, [], ◌∷◌, map, inl, inr,
  Bool-cases,
}
use adonisjs_audit_trail.Common.Text.{Text, text, text_eq}
use adonisjs_audit_trail.Errors.{Result, ok, ok-injective, ok-ne-err}
use adonisjs_audit_trail.Json.{
  Value, Items, Fields, undefined, null, function, symbol, bigint, cycle, bool, num, str, date,
  instance_of, arr, obj, nil, cons, end, field,
}
use adonisjs_audit_trail.Types.{RedactionMode, mask, remove, hash}
use adonisjs_audit_trail.Redactor.{
  CompiledPattern, HashInput, is_redacted, index_text, cover, put, redact_value, redact_items,
  redact_fields, compile_pattern, create_redactor, has_salt, needs_salt,
}
use adonisjs_audit_trail.Redactor.Clean.{
  Covered, Clean, CleanItems, CleanFields, redact_value-Clean,
}

module _ (digest : Text → HashInput → Text) where
  create_redactor-eq :
      (paths : List Text) (mode : RedactionMode) (salt : Option Text)
      (redact : Fields → Result Value)
      → create_redactor digest paths mode salt ≡ ok redact
      → (λ fs. redact_value digest (map compile_pattern paths) mode salt [] (obj fs)) ≡ redact
  unfolding create_redactor
  create_redactor-eq paths mode salt redact h =
      elim (Bool-cases (needs_salt mode && not (has_salt salt))) [
        | inl e ↦ absurd (ok-ne-err (rw (e, create_redactor) at h))
        | inr e ↦ ok-injective (rw (e, create_redactor) at h)
      ]

  -- In what a redactor returns, in every mode and at any depth, each property whose path matches one of
  -- the configured patterns holds the mask (`mask`) or a tagged digest (`hash`), or is absent (`remove`).
  pub create_redactor-Clean :
      (paths : List Text) (mode : RedactionMode) (salt : Option Text)
      (redact : Fields → Result Value) (fs : Fields) (w : Value)
      → create_redactor digest paths mode salt ≡ ok redact
      → redact fs ≡ ok w
      → Clean (map compile_pattern paths) mode [] w
  create_redactor-Clean paths mode salt redact fs w h e =
      redact_value-Clean (map compile_pattern paths) mode digest salt [] (obj fs) w
        (ap (λ f. f fs) (create_redactor-eq paths mode salt redact h) ∙ e)

  module _ (patterns : List CompiledPattern) (mode : RedactionMode) (salt : Option Text)
      (plain : mode ≢ hash) where
    put-eq :
        (k : Text) (v : Value) (fs : Fields)
        → text_eq k (text "__proto__") ≡ false
        → put k v fs ≡ field k v fs
    put-eq k v fs h = rw h refl

    cover-same :
        (m : RedactionMode) (k : Text) (v : Value) (fs : Fields)
        → m ≢ hash
        → Covered m v
        → text_eq k (text "__proto__") ≡ false
        → cover digest m salt k v (ok fs) ≡ ok (field k v fs)
    unfolding cover
    cover-same mask k v fs ne h p = rw (h) (ap ok (put-eq k _ fs p))
    cover-same remove k v fs ne h p = absurd h
    cover-same hash k v fs ne h p = absurd (ne refl)

    mutual
      unfolding redact_value Clean

      redact_value-same :
          (path : List Text) (v : Value)
          → Clean patterns mode path v
          → redact_value digest patterns mode salt path v ≡ ok v
      redact_value-same path (arr xs) h = rw (redact_items-same path 0 xs h) refl
      redact_value-same path (obj fs) h = rw (redact_fields-same path fs h) refl
      redact_value-same path (instance_of c fs) h = absurd h
      redact_value-same path (date t) h = absurd h
      redact_value-same path cycle h = absurd h
      redact_value-same path null h = refl
      redact_value-same path undefined h = refl
      redact_value-same path function h = refl
      redact_value-same path symbol h = refl
      redact_value-same path bigint h = refl
      redact_value-same path (bool b) h = refl
      redact_value-same path (num n) h = refl
      redact_value-same path (str t) h = refl

      redact_items-same :
          (path : List Text) (i : ℕ) (vs : Items)
          → CleanItems patterns mode path i vs
          → redact_items digest patterns mode salt path i vs ≡ ok vs
      redact_items-same path i nil h = refl
      redact_items-same path i (cons v vs) h =
          rw (redact_value-same (index_text i ∷ path) v h.0, redact_items-same path (i + 1) vs h.1)
            refl

      redact_fields-same :
          (path : List Text) (fs : Fields)
          → CleanFields patterns mode path fs
          → redact_fields digest patterns mode salt path fs ≡ ok fs
      redact_fields-same path end h = refl
      redact_fields-same path (field k v fs) h =
          elim (Bool-cases (is_redacted (k ∷ path) patterns)) [
            | inl r ↦
                rw (r, redact_fields-same path fs h.2, redact_fields)
                  (cover-same mode k v fs plain (rw r at h.0) h.1)
            | inr r ↦
                rw
                  (
                    r,
                    redact_value-same (k ∷ path) v (rw r at h.0),
                    redact_fields-same path fs h.2,
                    redact_fields,
                  )
                  (ap ok (put-eq k v fs h.1))
          ]

    -- Where values are masked or removed, redacting the redacted value again gives the same value.
    pub redact_value_idem :
        (v w : Value)
        → redact_value digest patterns mode salt [] v ≡ ok w
        → redact_value digest patterns mode salt [] w ≡ ok w
    redact_value_idem v w e =
        redact_value-same [] w (redact_value-Clean patterns mode digest salt [] v w e)
