-- ===== src/Tests/Shredding.antt =====
-- Runs of src/core/subject_crypto.ts.
use adonisjs_audit_trail.Common.{ℕ, ◌≡◌, refl, sym, ap, true, false, none, some, [], ◌∷◌}
use adonisjs_audit_trail.Common.Text.{Text, text}
use adonisjs_audit_trail.Common.Dict.{lookup, insert}
use adonisjs_audit_trail.Errors.{Result, ok, err, configuration, ok-injective}
use adonisjs_audit_trail.Json.{
  Value, undefined, null, function, symbol, bigint, cycle, bool, num, str, date, instance_of, arr,
  obj, end, field, nat, print,
}
use adonisjs_audit_trail.Json.Canonical.{canonical_json, serialize}
use adonisjs_audit_trail.Types.{AuditEvent, Payload, nullable}
use adonisjs_audit_trail.SubjectCrypto.{
  SubjectCryptoConfig, encrypt, decrypt, encrypt_event, transform_values, transform_fields,
  encrypt_value, resolve_subject, sealed_value,
}
use adonisjs_audit_trail.SubjectCrypto.KeyStores.{memory_subject_key_store, memory_set}
use adonisjs_audit_trail.SubjectCrypto.RoundTrip.{Plain}
use adonisjs_audit_trail.SubjectCrypto.Forgotten.{decrypt-encrypt}
use adonisjs_audit_trail.Tests.{sample, toy}

-- A cipher that takes strings only, and leaves them as they are.
abbrev seal : Text → ℕ → Text → Value → Result Text
seal key slot name (str t) = ok t
seal key slot name _ = err configuration

abbrev open_text : Text → Text → Value
open_text key c = str c

abbrev IsStr : Value → Type 0
IsStr (str t) = Unit
IsStr _ = ⊥

opens :
    (key : Text) (slot : ℕ) (name : Text) (v : Value) (c : Text)
    → IsStr v
    → seal key slot name v ≡ ok c
    → open_text key c ≡ v
opens key slot name (str t) c s h = ap str (sym (ok-injective h))
opens key slot name undefined c s h = absurd s
opens key slot name null c s h = absurd s
opens key slot name function c s h = absurd s
opens key slot name symbol c s h = absurd s
opens key slot name bigint c s h = absurd s
opens key slot name cycle c s h = absurd s
opens key slot name (bool b) c s h = absurd s
opens key slot name (num n) c s h = absurd s
opens key slot name (date t) c s h = absurd s
opens key slot name (instance_of k fs) c s h = absurd s
opens key slot name (arr xs) c s h = absurd s
opens key slot name (obj fs) c s h = absurd s

abbrev config : SubjectCryptoConfig
config = record { fields = text "email" ∷ []; subject_resolver = none }

abbrev values_with : Value → Payload
values_with v = some (field (text "email") v (field (text "paid") (num (nat 5)) end))

abbrev event : AuditEvent
event = sample (text "a") (values_with (str (text "x@y")))

abbrev encrypted : AuditEvent
encrypted = sample (text "a") (values_with (sealed_value (text "x@y")))

event-Plain : Plain toy seal open_text IsStr opens config.fields event
event-Plain = record {
  old_values = λ key. tt;
  new_values = λ key. ((refl, (refl, tt)), (λ m n. tt, (λ m n. absurd (no m), tt)));
  metadata = λ key. tt;
}
  where
    no : false ≡ true → ⊥
    no m = cc

built :
    (encrypt toy seal open_text memory_subject_key_store config (text "k") event []).1
    ≡ ok encrypted
unfolding encrypt encrypt_event transform_values transform_fields encrypt_value resolve_subject
    canonical_json serialize nullable lookup insert memory_set print
built = refl

decrypt-encrypt_example :
    decrypt toy seal open_text memory_subject_key_store config encrypted
      (encrypt toy seal open_text memory_subject_key_store config (text "k") event []).0
    ≡ ok event
unfolding resolve_subject
decrypt-encrypt_example =
    decrypt-encrypt toy seal open_text memory_subject_key_store config IsStr opens (λ e o n m. refl)
      (text "k") event encrypted []
      (encrypt toy seal open_text memory_subject_key_store config (text "k") event []).0 event-Plain
      built (λ id. refl)

abbrev actor_subject : Text
actor_subject = 9 ∷ []
