-- ===== src/SubjectCrypto/Forgotten.antt =====
-- src/core/subject_crypto.ts: `encrypt` and `decrypt` over a key store, before and after the subject is forgotten.
use adonisjs_audit_trail.Common.{
  ℕ, ◌≡◌, refl, sym, ap, subst, ◌∙◌, ◌⊎◌, Option, none, some, inl, inr, Option-cases,
}
use adonisjs_audit_trail.Common.Text.{Text}
use adonisjs_audit_trail.Errors.{Result, ok, ok-injective, ok-ne-err, Result-cases}
use adonisjs_audit_trail.Json.{Value, JsonText}
use adonisjs_audit_trail.Types.{AuditEvent, Payload}
use adonisjs_audit_trail.SubjectCrypto.{
  SubjectCryptoConfig, with_values, present, resolve_subject, encrypt_event, encrypt, decrypt,
  encrypt_for, encrypt_with, encrypt_stored, decrypt_for, decrypt_with,
}
use adonisjs_audit_trail.SubjectCrypto.KeyStores.{SubjectKeyStore}
use adonisjs_audit_trail.SubjectCrypto.RoundTrip.{
  Plain, EncryptedEvent, encrypt_event-EncryptedEvent, decrypt_event-encrypt_event,
}

module _ (spell : JsonText → Text) (seal : Text → ℕ → Text → Value → Result Text)
    (open_sealed : Text → Text → Value) {S : Type 0} (keys : SubjectKeyStore S)
    (config : SubjectCryptoConfig) where
  abbrev subject_of : AuditEvent → Result (Option Text)
  subject_of event = resolve_subject spell config.subject_resolver event

  -- The event was encrypted under the key that the store now has for its subject.
  record Encrypted (event out : AuditEvent) (st : S) (subject : Option Text) : Type 0 where
    id : Text
    key : Text
    named : present subject ≡ some id
    stored : present (keys.get id st) ≡ some key
    encrypted : encrypt_event spell seal open_sealed config.fields key event ≡ ok out

  module _ (fresh_key : Text) (event out : AuditEvent) where
    encrypt_stored-Encrypted :
        (st : S) (subject : Option Text) (id : Text)
        → present subject ≡ some id
        → (encrypt_stored spell seal open_sealed keys config event st (present (keys.get id st))).1
          ≡ ok out
        → Encrypted event out
            (encrypt_stored spell seal open_sealed keys config event st
              (present (keys.get id st))).0
            subject
    encrypt_stored-Encrypted st subject id named h =
        elim (Option-cases (present (keys.get id st))) [
          | inl e ↦ absurd (ok-ne-err (rw (e, encrypt_stored) at h))
          | inr (key, e) ↦
              rw (e, encrypt_stored)
                (record {
                  id = id;
                  key = key;
                  named = named;
                  stored = e;
                  encrypted = rw (e, encrypt_stored) at h;
                })
        ]

    encrypt_with-Encrypted :
        (st : S) (subject : Option Text) (id : Text)
        → present subject ≡ some id
        → (encrypt_with spell seal open_sealed keys config fresh_key id event st
            (present (keys.get id st))).1
          ≡ ok out
        → Encrypted event out
            (encrypt_with spell seal open_sealed keys config fresh_key id event st
              (present (keys.get id st))).0
            subject
    encrypt_with-Encrypted st subject id named h = elim (Option-cases (present (keys.get id st))) [
      | inl e ↦
          rw (e, encrypt_with)
            (encrypt_stored-Encrypted (keys.set id fresh_key st) subject id named
              (rw (e, encrypt_with) at h))
      | inr (key, e) ↦
          rw (e, encrypt_with)
            (record {
              id = id;
              key = key;
              named = named;
              stored = e;
              encrypted = rw (e, encrypt_with) at h;
            })
    ]

    -- The two ways in which `encrypt` returns.
    encrypt-cases :
        (st : S)
        → (encrypt spell seal open_sealed keys config fresh_key event st).1 ≡ ok out
        → (subject : Option Text) × (subject_of event ≡ ok subject)
          × (((present subject ≡ none) × (event ≡ out))
              ⊎ Encrypted event out
                  (encrypt spell seal open_sealed keys config fresh_key event st).0
                  subject)
    unfolding encrypt
    encrypt-cases st h = elim (Result-cases (subject_of event)) [
      | inr (x, e) ↦ absurd (ok-ne-err (rw (e, encrypt_for) at h))
      | inl (subject, e) ↦ elim (Option-cases (present subject)) [
        | inl p ↦ (subject, e, inl (p, ok-injective (rw (e, encrypt_for, p) at h)))
        | inr (id, p) ↦ (
          subject,
          e,
          inr (
              rw (e, encrypt_for, p)
                (encrypt_with-Encrypted st subject id p (rw (e, encrypt_for, p) at h))),
        )
      ]
    ]

  decrypt-present :
      (event : AuditEvent) (subject : Option Text) (id : Text) (st : S)
      → subject_of event ≡ ok subject
      → present subject ≡ some id
      → decrypt spell seal open_sealed keys config event st
        ≡ decrypt_with spell seal open_sealed keys config event (present (keys.get id st))
  unfolding decrypt
  decrypt-present event subject id st e p = rw (e, decrypt_for, p) refl

  decrypt-absent :
      (event : AuditEvent) (subject : Option Text) (st : S)
      → subject_of event ≡ ok subject
      → present subject ≡ none
      → decrypt spell seal open_sealed keys config event st ≡ ok event
  unfolding decrypt
  decrypt-absent event subject st e p = rw (e, decrypt_for, p) refl

  module _ (Supported : Value → Type 0)
      (opens : (key : Text) (slot : ℕ) (name : Text) (v : Value) (c : Text)
        → Supported v
        → seal key slot name v ≡ ok c
        → open_sealed key c ≡ v)
      (resolves_same : (event : AuditEvent) (o n m : Payload)
        → subject_of (with_values event o n m) ≡ subject_of event) where
    same_subject :
        (key : Text) (event out : AuditEvent)
        → EncryptedEvent spell seal open_sealed Supported opens config.fields key event out
        → subject_of out ≡ subject_of event
    same_subject key event out e = sym (ap subject_of e.same) ∙ resolves_same event e.o e.n e.m

    -- Let the cipher open what it sealed from a value that it supports, let the subject of an event not depend
    -- on its payloads, let every marked value of the event that is not null be supported, and let no payload have
    -- a property named `__proto__`. Then an event that `encrypt` returned decrypts to the event that it was given,
    -- on any later store that has the same key of each subject.
    pub decrypt-encrypt :
        (fresh_key : Text) (event out : AuditEvent) (st later : S)
        → Plain spell seal open_sealed Supported opens config.fields event
        → (encrypt spell seal open_sealed keys config fresh_key event st).1 ≡ ok out
        → ((id : Text)
            → keys.get id later
              ≡ keys.get id (encrypt spell seal open_sealed keys config fresh_key event st).0)
        → decrypt spell seal open_sealed keys config out later ≡ ok event
    decrypt-encrypt fresh_key event out st later plain h kept =
        let (subject, e, how) = encrypt-cases fresh_key event out st h in
        elim how [
          | inl (absent, same) ↦
              subst (λ z. decrypt spell seal open_sealed keys config z later ≡ ok event) same
                (decrypt-absent event subject later e absent)
          | inr w ↦
              let parts =
                encrypt_event-EncryptedEvent spell seal open_sealed Supported opens config.fields
                  w.key event out w.encrypted in
              decrypt-present out subject w.id later (same_subject w.key event out parts ∙ e)
                w.named
              ∙ ap (λ k. decrypt_with spell seal open_sealed keys config out (present k))
                  (kept w.id)
              ∙ ap (decrypt_with spell seal open_sealed keys config out) w.stored
              ∙ decrypt_event-encrypt_event spell seal open_sealed Supported opens config.fields
                  w.key event out plain parts
        ]
