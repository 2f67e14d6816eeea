-- ===== src/SubjectCrypto/RoundTrip.antt =====
-- src/core/subject_crypto.ts: `decrypt` after `encrypt`, with the key and without it.
use adonisjs_audit_trail.Common.{ℕ, ◌≡◌, refl, sym, ap, subst, ◌∙◌, none, some, List}
use adonisjs_audit_trail.Common.Text.{Text}
use adonisjs_audit_trail.Errors.{Result, ok, ◌>>=◌, >>=-eq-ok, ok-injective}
use adonisjs_audit_trail.Json.{Value, JsonText}
use adonisjs_audit_trail.Types.{AuditEvent, Payload}
use adonisjs_audit_trail.SubjectCrypto.{
  transform_values, transform_fields, encrypt_value, decrypt_value, mark_forgotten, with_values,
  encrypt_event, decrypt_event, forget_event, encrypt,
}
use adonisjs_audit_trail.SubjectCrypto.Values.{
  PlainKeys, Sealable, forgotten_payload, mark_fields-transform_fields, decrypt-transform_fields,
}

-- A payload whose marked values the cipher takes.
abbrev pub PlainPayload :
    List Text → (Text → Value → Result Text) → (Value → Type 0) → Payload → Type 0
PlainPayload marked encrypt Supported none = Unit
PlainPayload marked encrypt Supported (some fs) =
    PlainKeys fs × Sealable marked encrypt Supported fs

module _ (marked : List Text) (encrypt : Text → Value → Result Text) (Supported : Value → Type 0)
    (decrypt : Text → Value)
    (opens : (name : Text) (v : Value) (c : Text)
      → Supported v
      → encrypt name v ≡ ok c
      → decrypt c ≡ v) where
  open_payload :
      (p q : Payload)
      → PlainPayload marked encrypt Supported p
      → transform_values marked (λ name. encrypt_value (encrypt name)) p ≡ ok q
      → transform_values marked (λ name v. ok (decrypt_value decrypt v)) q ≡ ok p
  unfolding transform_values
  open_payload none q s h = rw (sym (ok-injective h)) refl
  open_payload (some fs) q s h =
      let (gs, built, same) =
        >>=-eq-ok (transform_fields marked (λ name. encrypt_value (encrypt name)) fs) _ h in
      let back =
        decrypt-transform_fields marked encrypt Supported decrypt opens fs gs s.0 s.1 built in
      sym
        (ap (transform_values marked (λ name v. ok (decrypt_value decrypt v))) (ok-injective same))
      ∙ ap (λ r. do fs ← r; ok (some fs)) back

  forget_payload :
      (p q : Payload)
      → PlainPayload marked encrypt Supported p
      → transform_values marked (λ name. encrypt_value (encrypt name)) p ≡ ok q
      → mark_forgotten marked q ≡ forgotten_payload marked p
  unfolding transform_values mark_forgotten
  forget_payload none q s h = rw (sym (ok-injective h)) refl
  forget_payload (some fs) q s h =
      let (gs, built, same) =
        >>=-eq-ok (transform_fields marked (λ name. encrypt_value (encrypt name)) fs) _ h in
      sym (ap (mark_forgotten marked) (ok-injective same))
      ∙ ap some (mark_fields-transform_fields marked encrypt fs gs s.0 built)

module _ (spell : JsonText → Text) (seal : Text → ℕ → Text → Value → Result Text)
    (open_sealed : Text → Text → Value) (Supported : Value → Type 0)
    (opens : (key : Text) (slot : ℕ) (name : Text) (v : Value) (c : Text)
      → Supported v
      → seal key slot name v ≡ ok c
      → open_sealed key c ≡ v) where
  -- The marked values of the event are such as the cipher takes, and no property is named `__proto__`.
  pub record Plain (marked : List Text) (event : AuditEvent) : Type 0 where
    pub old_values : (key : Text) → PlainPayload marked (seal key 0) Supported event.old_values
    pub new_values : (key : Text) → PlainPayload marked (seal key 1) Supported event.new_values
    pub metadata : (key : Text) → PlainPayload marked (seal key 2) Supported event.metadata

  pub record EncryptedEvent (marked : List Text) (key : Text) (event out : AuditEvent)
      : Type 0 where
    pub o : Payload
    pub n : Payload
    pub m : Payload
    pub olds :
        transform_values marked (λ name. encrypt_value (seal key 0 name)) event.old_values ≡ ok o
    pub news :
        transform_values marked (λ name. encrypt_value (seal key 1 name)) event.new_values ≡ ok n
    pub metas :
        transform_values marked (λ name. encrypt_value (seal key 2 name)) event.metadata ≡ ok m
    pub same : with_values event o n m ≡ out

  module _ (marked : List Text) (key : Text) (event out : AuditEvent) where
    pub encrypt_event-EncryptedEvent :
        encrypt_event spell seal open_sealed marked key event ≡ ok out
        → EncryptedEvent marked key event out
    unfolding encrypt_event
    encrypt_event-EncryptedEvent h =
        let (o, olds, h1) =
          >>=-eq-ok
            (transform_values marked (λ name. encrypt_value (seal key 0 name)) event.old_values) _
            h in
        let (n, news, h2) =
          >>=-eq-ok
            (transform_values marked (λ name. encrypt_value (seal key 1 name)) event.new_values) _
            h1 in
        let (m, metas, h3) =
          >>=-eq-ok
            (transform_values marked (λ name. encrypt_value (seal key 2 name)) event.metadata) _
            h2 in
        record {
          o = o;
          n = n;
          m = m;
          olds = olds;
          news = news;
          metas = metas;
          same = ok-injective h3;
        }

    pub decrypt_event-encrypt_event :
        Plain marked event
        → EncryptedEvent marked key event out
        → decrypt_event spell seal open_sealed marked key out ≡ ok event
    unfolding decrypt_event
    decrypt_event-encrypt_event plain e =
        let o =
          open_payload marked (seal key 0) Supported (open_sealed key) (opens key 0)
            event.old_values e.o (plain.old_values key) e.olds in
        let n =
          open_payload marked (seal key 1) Supported (open_sealed key) (opens key 1)
            event.new_values e.n (plain.new_values key) e.news in
        let m =
          open_payload marked (seal key 2) Supported (open_sealed key) (opens key 2) event.metadata
            e.m (plain.metadata key) e.metas in
        subst (λ z. decrypt_event spell seal open_sealed marked key z ≡ ok event) e.same
          (rw (o, n, m) refl)

    pub forget_event-encrypt_event :
        Plain marked event
        → EncryptedEvent marked key event out
        → forget_event spell seal open_sealed marked out
          ≡ with_values event
              (forgotten_payload marked event.old_values)
              (forgotten_payload marked event.new_values)
              (forgotten_payload marked event.metadata)
    unfolding forget_event
    forget_event-encrypt_event plain e =
        let o =
          forget_payload marked (seal key 0) Supported (open_sealed key) (opens key 0)
            event.old_values e.o (plain.old_values key) e.olds in
        let n =
          forget_payload marked (seal key 1) Supported (open_sealed key) (opens key 1)
            event.new_values e.n (plain.new_values key) e.news in
        let m =
          forget_payload marked (seal key 2) Supported (open_sealed key) (opens key 2)
            event.metadata e.m (plain.metadata key) e.metas in
        sym (ap (forget_event spell seal open_sealed marked) e.same) ∙ rw (o, n, m) refl
