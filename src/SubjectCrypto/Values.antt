-- ===== src/SubjectCrypto/Values.antt =====
-- src/core/subject_crypto.ts: what encryption does to the payload of an event, and what undoes or forgets it.
use adonisjs_audit_trail.Common.{
  ◌≡◌, refl, sym, ap, ap₂, ◌∙◌, ◌⊎◌, Bool, true, false, none, some, List, inl, inr, Bool-cases,
  if◌then◌else◌,
}
use adonisjs_audit_trail.Common.Text.{Text, text, text_eq}
use adonisjs_audit_trail.Errors.{Result, ok, ◌>>=◌, >>=-eq-ok, ok-injective, two_binds}
use adonisjs_audit_trail.Json.{
  Value, Fields, undefined, null, function, symbol, bigint, cycle, bool, num, str, date,
  instance_of, arr, obj, end, field,
}
use adonisjs_audit_trail.Types.{Payload}
use adonisjs_audit_trail.Redactor.{includes, put}
use adonisjs_audit_trail.Outbox.Payload.{property}
use adonisjs_audit_trail.SubjectCrypto.{
  is_nullish, is_marked, sealed_value, forgotten_value, encrypt_value, decrypt_value, forget_value,
  transform_fields, mark_fields,
}

-- What a marked value is once its key is gone.
abbrev pub forgotten_of : Value → Value
forgotten_of value = if is_nullish value then value else forgotten_value

abbrev pub forgotten_fields : List Text → Fields → Fields
forgotten_fields marked end = end
forgotten_fields marked (field key value fs) =
    field key (if includes key marked then forgotten_of value else value)
      (forgotten_fields marked fs)

abbrev pub forgotten_payload : List Text → Payload → Payload
forgotten_payload marked none = none
forgotten_payload marked (some fs) = some (forgotten_fields marked fs)

nullish-unmarked : (v : Value) → is_nullish v ≡ true → is_marked v ≡ false
nullish-unmarked undefined h = refl
nullish-unmarked null h = refl
nullish-unmarked function h = refl
nullish-unmarked symbol h = refl
nullish-unmarked bigint h = refl
nullish-unmarked cycle h = refl
nullish-unmarked (bool b) h = refl
nullish-unmarked (num n) h = refl
nullish-unmarked (str t) h = refl
nullish-unmarked (date t) h = refl
nullish-unmarked (instance_of c fs) h = cc
nullish-unmarked (arr xs) h = refl
nullish-unmarked (obj fs) h = cc

encrypt_value-cases :
    (encrypt : Value → Result Text) (v x : Value)
    → encrypt_value encrypt v ≡ ok x
    → ((is_nullish v ≡ true) × (x ≡ v))
      ⊎ ((c : Text) × (is_nullish v ≡ false) × (encrypt v ≡ ok c) × (x ≡ sealed_value c))
unfolding encrypt_value
encrypt_value-cases encrypt v x h = elim (Bool-cases (is_nullish v)) [
  | inl e ↦ inl (e, sym (ok-injective (rw e at h)))
  | inr e ↦
      let (c, sealed, same) = >>=-eq-ok (encrypt v) _ (rw e at h) in
      inr (c, e, sealed, sym (ok-injective same))
]

forget-encrypt_value :
    (encrypt : Value → Result Text) (v x : Value)
    → encrypt_value encrypt v ≡ ok x
    → forget_value x ≡ forgotten_of v
forget-encrypt_value encrypt v x h = elim (encrypt_value-cases encrypt v x h) [
  | inl (e, same) ↦ rw (same, nullish-unmarked v e, e) refl
  | inr (c, e, sealed, same) ↦ rw (same, e) refl
]

forget_changed :
    (b : Bool) (encrypt : Value → Result Text) (v x : Value)
    → (if b then encrypt_value encrypt v else ok v) ≡ ok x
    → (if b then forget_value x else x) ≡ (if b then forgotten_of v else v)
forget_changed true encrypt v x h = forget-encrypt_value encrypt v x h
forget_changed false encrypt v x h = sym (ok-injective h)

decrypt-encrypt_value :
    (encrypt : Value → Result Text) (decrypt : Text → Value) (v x : Value)
    → encrypt_value encrypt v ≡ ok x
    → (is_nullish v ≡ false → (c : Text) → encrypt v ≡ ok c → decrypt c ≡ v)
    → decrypt_value decrypt x ≡ v
unfolding decrypt_value property
decrypt-encrypt_value encrypt decrypt v x h opens = elim (encrypt_value-cases encrypt v x h) [
  | inl (e, same) ↦ rw (same, nullish-unmarked v e) refl
  | inr (c, e, sealed, same) ↦ rw same (opens e c sealed)
]

decrypt_changed :
    (b : Bool) (encrypt : Value → Result Text) (decrypt : Text → Value) (v x : Value)
    → (if b then encrypt_value encrypt v else ok v) ≡ ok x
    → (b ≡ true → is_nullish v ≡ false → (c : Text) → encrypt v ≡ ok c → decrypt c ≡ v)
    → (if b then ok (decrypt_value decrypt x) else ok x) ≡ ok v
decrypt_changed true encrypt decrypt v x h opens =
    ap ok (decrypt-encrypt_value encrypt decrypt v x h (opens refl))
decrypt_changed false encrypt decrypt v x h opens = sym h

-- No property is named `__proto__`, which an assignment takes for something else.
abbrev pub PlainKeys : Fields → Type 0
PlainKeys end = Unit
PlainKeys (field key value fs) = (text_eq key (text "__proto__") ≡ false) × PlainKeys fs

-- One property of a transformation that succeeds.
module _ (marked : List Text) (f : Text → Value → Result Value) (key : Text) (value : Value)
    (fs : Fields) where
  abbrev changed : Result Value
  changed = if includes key marked then f key value else ok value

  pub first_field :
      (gs : Fields)
      → text_eq key (text "__proto__") ≡ false
      → transform_fields marked f (field key value fs) ≡ ok gs
      → (x : Value) × (rest : Fields) × (changed ≡ ok x)
        × (transform_fields marked f fs ≡ ok rest)
        × (field key x rest ≡ gs)
  unfolding transform_fields
  first_field gs plain h =
      let (x, rest, hx, hr, same) =
        two_binds changed (λ x. transform_fields marked f fs) (λ x rest. put key x rest) h in
      (x, rest, hx, hr, sym (ap (λ b. if b then rest else field key x rest) plain) ∙ same)

  pub add_field :
      (x : Value) (rest : Fields)
      → text_eq key (text "__proto__") ≡ false
      → changed ≡ ok x
      → transform_fields marked f fs ≡ ok rest
      → transform_fields marked f (field key value fs) ≡ ok (field key x rest)
  unfolding transform_fields
  add_field x rest plain hx hr =
      ap (λ r. do x ← r; rest ← transform_fields marked f fs; ok (put key x rest)) hx
      ∙ ap (λ r. do rest ← r; ok (put key x rest)) hr
      ∙ ap (λ b. ok (if b then rest else field key x rest)) plain

module _ (marked : List Text) (encrypt : Text → Value → Result Text) where
  pub mark_fields-transform_fields :
      (fs gs : Fields)
      → PlainKeys fs
      → transform_fields marked (λ name. encrypt_value (encrypt name)) fs ≡ ok gs
      → mark_fields marked gs ≡ forgotten_fields marked fs
  unfolding transform_fields mark_fields
  mark_fields-transform_fields end gs plain h = rw (sym (ok-injective h)) refl
  mark_fields-transform_fields (field key value fs) gs plain h =
      let (x, rest, hx, hr, same) =
        first_field marked (λ name. encrypt_value (encrypt name)) key value fs gs plain.0 h in
      let ih = mark_fields-transform_fields fs rest plain.1 hr in
      let head = forget_changed (includes key marked) (encrypt key) value x hx in
      sym (ap (mark_fields marked) same) ∙ rw (plain.0) (ap₂ (λ v gs. field key v gs) head ih)

  -- Each marked value that is not null is one that the cipher takes.
  abbrev pub Sealable : (Value → Type 0) → Fields → Type 0
  Sealable Supported end = Unit
  Sealable Supported (field key value fs) =
      (includes key marked ≡ true → is_nullish value ≡ false → Supported value)
      × Sealable Supported fs

  module _ (Supported : Value → Type 0) (decrypt : Text → Value)
      (opens : (name : Text) (v : Value) (c : Text)
        → Supported v
        → encrypt name v ≡ ok c
        → decrypt c ≡ v) where
    pub decrypt-transform_fields :
        (fs gs : Fields)
        → PlainKeys fs
        → Sealable Supported fs
        → transform_fields marked (λ name. encrypt_value (encrypt name)) fs ≡ ok gs
        → transform_fields marked (λ name v. ok (decrypt_value decrypt v)) gs ≡ ok fs
    unfolding transform_fields
    decrypt-transform_fields end gs plain s h = rw (sym (ok-injective h)) refl
    decrypt-transform_fields (field key value fs) gs plain s h =
        let (x, rest, hx, hr, same) =
          first_field marked (λ name. encrypt_value (encrypt name)) key value fs gs plain.0 h in
        let head =
          decrypt_changed (includes key marked) (encrypt key) decrypt value x hx
            (λ m n c e. opens key value c (s.0 m n) e) in
        sym (ap (transform_fields marked (λ name v. ok (decrypt_value decrypt v))) same)
        ∙ add_field marked (λ name v. ok (decrypt_value decrypt v)) key x rest value fs plain.0 head
            (decrypt-transform_fields fs rest plain.1 s.1 hr)
