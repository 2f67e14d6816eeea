-- ===== src/Errors.antt =====
-- src/core/errors.ts: the package's errors, and the result of code that may throw one.
use adonisjs_audit_trail.Common.{◌≡◌, refl, [], ◌⊎◌, inl, inr}
use adonisjs_audit_trail.Common.Text.{Text, text}

-- One constructor for each error class; `type_error` and `plain_error` are JavaScript's `TypeError` and
-- a bare `Error`. Messages are not kept.
pub data AuditError : Type 0 where
  canonical circular redaction_salt immutable coupled_timeout store configuration : AuditError
  peer_dependency store_connection anchor pipeline_rejected outbox_payload dropped : AuditError
  transaction_required outbox_integrity type_error plain_error : AuditError

pub data Result {ℓ} (X : Type ℓ) : Type ℓ where
  ok : X → Result X
  err : AuditError → Result X

pub Result-cases {ℓ} :
    {X : Type ℓ} (r : Result X)
    → ((x : X) × (r ≡ ok x)) ⊎ ((thrown : AuditError) × (r ≡ err thrown))
Result-cases (ok x) = inl (x, refl)
Result-cases (err thrown) = inr (thrown, refl)

pub ok-ne-err {ℓ} : {X : Type ℓ} {x : X} {thrown : AuditError} → err thrown ≡ ok x → ⊥
ok-ne-err h = cc

pub ok-injective {ℓ} : {X : Type ℓ} {x y : X} → ok x ≡ ok y → x ≡ y
ok-injective h = cc

-- What follows a `throw` does not run.
infixl 5 ◌>>=◌
abbrev pub ◌>>=◌ {ℓ κ} : {X : Type ℓ} {Y : Type κ} → Result X → (X → Result Y) → Result Y
err thrown >>= next = err thrown
ok x >>= next = next x

-- Inversion of one bind.
pub >>=-eq-ok {ℓ κ} :
    {X : Type ℓ} {Y : Type κ} (run : Result X) (next : X → Result Y) {y : Y}
    → (run >>= next) ≡ ok y
    → (x : X) × (run ≡ ok x) × (next x ≡ ok y)
>>=-eq-ok (err thrown) next h = absurd (ok-ne-err h)
>>=-eq-ok (ok x) next h = (x, refl, h)

-- Inversion of two binds and a return.
pub two_binds {ℓ κ ι} :
    {A : Type ℓ} {B : Type κ} {C : Type ι} (m : Result A) (f : A → Result B) (g : A → B → C) {c : C}
    → (do a ← m; b ← f a; ok (g a b)) ≡ ok c
    → (a : A) × (b : B) × (m ≡ ok a) × (f a ≡ ok b) × (g a b ≡ c)
two_binds (err e) f g h = cc
two_binds (ok a) f g h = elim (Result-cases (f a)) [
  | inl (b, e) ↦ (a, b, refl, e, ok-injective (rw e at h))
  | inr (x, e) ↦ absurd (ok-ne-err (rw e at h))
]

-- The `code` field of the package's own classes.
pub error_code : AuditError → Text
error_code canonical = text "E_AUDIT_CANONICAL_INVALID_VALUE"
error_code circular = text "E_AUDIT_CANONICAL_CIRCULAR"
error_code redaction_salt = text "E_AUDIT_REDACTION_SALT_REQUIRED"
error_code immutable = text "E_AUDIT_IMMUTABLE"
error_code coupled_timeout = text "E_AUDIT_COUPLED_TIMEOUT"
error_code store = text "E_AUDIT_STORE_ERROR"
error_code configuration = text "E_AUDIT_CONFIGURATION_ERROR"
error_code peer_dependency = text "E_AUDIT_PEER_DEPENDENCY_MISSING"
error_code store_connection = text "E_AUDIT_STORE_CONNECTION_NOT_SUPPORTED"
error_code anchor = text "E_AUDIT_ANCHOR_HTTP_POST_FAILED"
error_code pipeline_rejected = text "E_AUDIT_PIPELINE_REJECTED"
error_code outbox_payload = text "E_AUDIT_OUTBOX_INVALID_PAYLOAD"
error_code dropped = text "E_AUDIT_DROPPED"
error_code transaction_required = text "E_AUDIT_TRANSACTION_REQUIRED"
error_code outbox_integrity = text "E_AUDIT_OUTBOX_INTEGRITY"
error_code type_error = []
error_code plain_error = []
