-- ===== src/SubjectCrypto.antt =====
-- src/core/subject_crypto.ts: the encryption of marked fields under a key of the event's subject.
-- A key store is an interface with two implementations. `seal` and `open_sealed` are `encrypt` and `decrypt` of
-- AdonisJS's `Encryption` with the AES-256-GCM driver: `seal key slot field value` may throw, and `slot` and `field`
-- tell one call on an event from another, since each call draws its own random bytes. `spell` is the string
-- of a JSON text, and `fresh_key` what `randomBytes` gives.
pub mod KeyStores
pub mod Values
pub mod RoundTrip
pub mod Forgotten
use adonisjs_audit_trail.Common.{
  ℕ, Bool, true, false, ◌&&◌, ◌||◌, Option, none, some, List, [], ◌∷◌, if◌then◌else◌,
}
use adonisjs_audit_trail.Common.Text.{Text, text, text_eq}
use adonisjs_audit_trail.Errors.{Result, ok, err, ◌>>=◌, configuration}
use adonisjs_audit_trail.Json.{
  Value, Fields, JsonText, undefined, null, bool, str, arr, obj, date, instance_of, nil, cons, end,
  field,
}
use adonisjs_audit_trail.Json.Canonical.{canonical_json}
use adonisjs_audit_trail.Types.{AuditEvent, Payload, nullable}
use adonisjs_audit_trail.Redactor.{includes, put}
use adonisjs_audit_trail.Outbox.Payload.{property}
use adonisjs_audit_trail.SubjectCrypto.KeyStores.{SubjectKeyStore}

abbrev pub is_nullish : Value → Bool
is_nullish undefined = true
is_nullish null = true
is_nullish _ = false

abbrev pub has_field : Text → Fields → Bool
has_field name end = false
has_field name (field k v fs) = text_eq k name || has_field name fs

-- `typeof value === 'object' && value !== null && ENCRYPTED_MARKER in value`
abbrev pub is_marked : Value → Bool
is_marked (obj fs) = has_field (text "_encrypted") fs
is_marked (instance_of c fs) = has_field (text "_encrypted") fs
is_marked _ = false

abbrev pub sealed_value : Text → Value
sealed_value ciphertext =
    obj (field (text "_encrypted") (bool true) (field (text "ciphertext") (str ciphertext) end))

abbrev pub forgotten_value : Value
forgotten_value =
    obj (field (text "_encrypted") (bool true) (field (text "_forgotten") (bool true) end))

unfoldable pub encrypt_value : (Value → Result Text) → Value → Result Value
encrypt_value encrypt value =
    if is_nullish value then ok value else (do c ← encrypt value; ok (sealed_value c))

-- `decrypt(ciphertext)` where the property is a string, or the value itself.
abbrev pub decrypt_text : (Text → Value) → Value → Value → Value
decrypt_text decrypt value (str ciphertext) = decrypt ciphertext
decrypt_text decrypt value _ = value

unfoldable pub decrypt_value : (Text → Value) → Value → Value
unfolding property
decrypt_value decrypt value =
    if is_marked value
    then decrypt_text decrypt value (property (text "ciphertext") value)
    else value

abbrev pub forget_value : Value → Value
forget_value value = if is_marked value then forgotten_value else value

module _ (marked : List Text) where
  -- The loop over the entries: what a marked property becomes, by its name and value.
  unfoldable pub transform_fields : (Text → Value → Result Value) → Fields → Result Fields
  transform_fields f end = ok end
  transform_fields f (field key value fs) = do
    result ← if includes key marked then f key value else ok value
    rest ← transform_fields f fs
    ok (put key result rest)

  unfoldable pub transform_values : (Text → Value → Result Value) → Payload → Result Payload
  unfolding transform_fields
  transform_values f none = ok none
  transform_values f (some values) = do fs ← transform_fields f values; ok (some fs)

  unfoldable pub mark_fields : Fields → Fields
  mark_fields end = end
  mark_fields (field key value fs) =
      put key (if includes key marked then forget_value value else value) (mark_fields fs)

  unfoldable pub mark_forgotten : Payload → Payload
  unfolding mark_fields
  mark_forgotten none = none
  mark_forgotten (some values) = some (mark_fields values)

abbrev pub with_values : AuditEvent → Payload → Payload → Payload → AuditEvent
with_values event old_values new_values metadata = record event {
  old_values = old_values;
  new_values = new_values;
  metadata = metadata;
}

-- A subject or a key that is null or empty is as good as none.
abbrev pub present : Option Text → Option Text
present none = none
present (some []) = none
present (some (c ∷ cs)) = some (c ∷ cs)

abbrev pub SubjectResolver : Type 0
SubjectResolver = AuditEvent → Result (Option Text)

pub record CryptoShreddingConfig : Type 0 where
  pub enabled : Bool
  pub fields : List Text
  pub subject_resolver : Option SubjectResolver

pub record SubjectCryptoConfig : Type 0 where
  pub fields : List Text
  pub subject_resolver : Option SubjectResolver

abbrev pub subject_crypto_of : CryptoShreddingConfig → Option SubjectCryptoConfig
subject_crypto_of config =
    if config.enabled
    then some (record { fields = config.fields; subject_resolver = config.subject_resolver })
    else none

unfoldable pub create_subject_crypto : Option CryptoShreddingConfig → Option SubjectCryptoConfig
create_subject_crypto none = none
create_subject_crypto (some config) = subject_crypto_of config

module _ (spell : JsonText → Text) where
  -- The subject that is the event's actor.
  abbrev pub subject_of_actor : AuditEvent → Option Text → Result (Option Text)
  subject_of_actor event none = ok none
  subject_of_actor event (some id) = do
    body ← canonical_json (
        arr (
          cons (str (text "audit-subject"))
            (cons (nullable event.tenant_id) (cons (str event.actor.type) (cons (str id) nil)))))
    ok (some (spell body))

  unfoldable pub resolve_subject : Option SubjectResolver → AuditEvent → Result (Option Text)
  resolve_subject (some resolver) event = resolver event
  resolve_subject none event = subject_of_actor event (present event.actor.id)

module _ (spell : JsonText → Text) (seal : Text → ℕ → Text → Value → Result Text)
    (open_sealed : Text → Text → Value) where
  unfoldable pub encrypt_event : List Text → Text → AuditEvent → Result AuditEvent
  unfolding transform_values encrypt_value
  encrypt_event fields key event = do
    old_values ← transform_values fields (λ name. encrypt_value (seal key 0 name)) event.old_values
    new_values ← transform_values fields (λ name. encrypt_value (seal key 1 name)) event.new_values
    metadata ← transform_values fields (λ name. encrypt_value (seal key 2 name)) event.metadata
    ok (with_values event old_values new_values metadata)

  unfoldable pub decrypt_event : List Text → Text → AuditEvent → Result AuditEvent
  unfolding transform_values decrypt_value
  decrypt_event fields key event = do
    old_values ←
        transform_values fields (λ name v. ok (decrypt_value (open_sealed key) v)) event.old_values
    new_values ←
        transform_values fields (λ name v. ok (decrypt_value (open_sealed key) v)) event.new_values
    metadata ←
        transform_values fields (λ name v. ok (decrypt_value (open_sealed key) v)) event.metadata
    ok (with_values event old_values new_values metadata)

  unfoldable pub forget_event : List Text → AuditEvent → AuditEvent
  unfolding mark_forgotten
  forget_event fields event =
      with_values event (mark_forgotten fields event.old_values)
        (mark_forgotten fields event.new_values) (mark_forgotten fields event.metadata)

  module _ {S : Type 0} (keys : SubjectKeyStore S) (config : SubjectCryptoConfig) where
    -- The key that the store has after one was offered to it.
    abbrev pub encrypt_stored : AuditEvent → S → Option Text → S × Result AuditEvent
    encrypt_stored event st none = (st, err configuration)
    encrypt_stored event st (some key) = (st, encrypt_event config.fields key event)

    abbrev pub encrypt_with : Text → Text → AuditEvent → S → Option Text → S × Result AuditEvent
    encrypt_with fresh_key id event st (some key) = (st, encrypt_event config.fields key event)
    encrypt_with fresh_key id event st none =
        let next = keys.set id fresh_key st in
        encrypt_stored event next (present (keys.get id next))

    abbrev pub encrypt_for : Text → AuditEvent → S → Result (Option Text) → S × Result AuditEvent
    encrypt_for fresh_key event st (err e) = (st, err e)
    encrypt_for fresh_key event st (ok subject) = elim (present subject) [
      | none ↦ (st, ok event)
      | some id ↦ encrypt_with fresh_key id event st (present (keys.get id st))
    ]

    unfoldable pub encrypt : Text → AuditEvent → S → S × Result AuditEvent
    encrypt fresh_key event st =
        encrypt_for fresh_key event st (resolve_subject spell config.subject_resolver event)

    abbrev pub decrypt_with : AuditEvent → Option Text → Result AuditEvent
    decrypt_with event none = ok (forget_event config.fields event)
    decrypt_with event (some key) = decrypt_event config.fields key event

    abbrev pub decrypt_for : AuditEvent → S → Result (Option Text) → Result AuditEvent
    decrypt_for event st (err e) = err e
    decrypt_for event st (ok subject) = elim (present subject) [
      | none ↦ ok event
      | some id ↦ decrypt_with event (present (keys.get id st))
    ]

    unfoldable pub decrypt : AuditEvent → S → Result AuditEvent
    decrypt event st = decrypt_for event st (resolve_subject spell config.subject_resolver event)
