-- ===== src/Assembler/Bounded.antt =====
-- The size of an assembled event's payloads, and its stream under tenant streams.
use adonisjs_audit_trail.Common.{
  ℕ, ◌≤◌, ◌<◌, ◌≡◌, refl, sym, subst, ◌⊎◌, true, Option, none, some, inl, inr, Bool-cases, leb,
  arith,
}
use adonisjs_audit_trail.Common.Text.{Text, text}
use adonisjs_audit_trail.Errors.{Result, ok, >>=-eq-ok, ok-injective}
use adonisjs_audit_trail.Json.{Fields, bool, str, end, field}
use adonisjs_audit_trail.Types.{AuditActor, AuditEvent, Payload}
use adonisjs_audit_trail.Assembler.{
  AssembleInput, AuditContextStore, AssembleConfig, resolve_tenant_id, resolve_stream, redact_event,
  encrypt_assembled, actor_of, maybe_truncate, truncate_payloads, utf8_bytes, new_event,
  assemble_event,
}

module _ (stringify : Fields → Result Text) (digest : Text → Text) where
  -- `out` is the payload `before`, or the mark in its place where its text has more than so many bytes.
  abbrev pub Fits : ℕ → Payload → Payload → Type 0
  Fits max none out = out ≡ none
  Fits max (some values) out =
      (t : Text) × (stringify values ≡ ok t)
      × (((utf8_bytes t ≤ max) × (out ≡ some values))
          ⊎ ((max < utf8_bytes t)
              × (out
                  ≡ some (
                      field (text "_truncated") (bool true)
                        (field (text "_sha256") (str (digest t)) end)))))

  maybe_truncate-Fits :
      (p : Payload) (max : ℕ) (out : Payload)
      → maybe_truncate stringify digest p max ≡ ok out
      → Fits max p out
  unfolding maybe_truncate
  maybe_truncate-Fits none max out h = sym (ok-injective h)
  maybe_truncate-Fits (some values) max out h =
      let (t, e, same) = >>=-eq-ok (stringify values) _ h in
      (
        t,
        e,
        elim (Bool-cases (leb (utf8_bytes t) max)) [
          | inl small ↦ inl (ground (arith, small), sym (ok-injective (rw small at same)))
          | inr large ↦ inr (ground (arith, large), sym (ok-injective (rw large at same)))
        ],
      )

  record Truncated (event : AuditEvent) (max : ℕ) (out : AuditEvent) : Type 0 where
    fits :
        Fits max event.old_values out.old_values
        × Fits max event.new_values out.new_values
        × Fits max event.metadata out.metadata
    same_stream : out.stream ≡ event.stream
    same_tenant : out.tenant_id ≡ event.tenant_id

  truncate_payloads-Truncated :
      (event out : AuditEvent) (max : ℕ)
      → truncate_payloads stringify digest event max ≡ ok out
      → Truncated event max out
  unfolding truncate_payloads
  truncate_payloads-Truncated event out max h =
      let (o, eo, h1) = >>=-eq-ok (maybe_truncate stringify digest event.old_values max) _ h in
      let (n, en, h2) = >>=-eq-ok (maybe_truncate stringify digest event.new_values max) _ h1 in
      let (m, em, h3) = >>=-eq-ok (maybe_truncate stringify digest event.metadata max) _ h2 in
      subst (Truncated event max) (ok-injective h3) (record {
        fits = (
          maybe_truncate-Fits event.old_values max o eo,
          maybe_truncate-Fits event.new_values max n en,
          maybe_truncate-Fits event.metadata max m em,
        );
        same_stream = refl;
        same_tenant = refl;
      })

  module _ (id now : Text) (input : AssembleInput) (context : AuditContextStore)
      (config : AssembleConfig) (event : AuditEvent)
      (built : assemble_event stringify digest id now input context config ≡ ok event) where
    record Steps : Type 0 where
      actor : AuditActor
      tenant_id : Option Text
      stream : Text
      redacted : AuditEvent
      encrypted : AuditEvent
      tenant_found : resolve_tenant_id context config ≡ ok tenant_id
      stream_found : resolve_stream input config tenant_id ≡ ok stream
      was_redacted :
          redact_event config.redactor
            (new_event stringify digest id now input context actor tenant_id stream)
          ≡ ok redacted
      was_encrypted : encrypt_assembled config.crypto redacted ≡ ok encrypted
      was_truncated : Truncated encrypted config.payload_max_bytes event

    steps : Steps
    unfolding assemble_event
    steps =
        let (a, ea, h1) = >>=-eq-ok (actor_of input context config) _ built in
        let (t, et, h2) = >>=-eq-ok (resolve_tenant_id context config) _ h1 in
        let (s, es, h3) = >>=-eq-ok (resolve_stream input config t) _ h2 in
        let (r, er, h4) =
          >>=-eq-ok
            (redact_event config.redactor (new_event stringify digest id now input context a t s)) _
            h3 in
        let (c, ec, h5) = >>=-eq-ok (encrypt_assembled config.crypto r) _ h4 in
        record {
          actor = a;
          tenant_id = t;
          stream = s;
          redacted = r;
          encrypted = c;
          tenant_found = et;
          stream_found = es;
          was_redacted = er;
          was_encrypted = ec;
          was_truncated = truncate_payloads-Truncated c event config.payload_max_bytes h5;
        }

  -- Of an event that is assembled there is the event with its payloads redacted and then encrypted, and each
  -- payload of the assembled event is the payload of that one: unchanged where its JSON text has at most the
  -- configured number of UTF-8 bytes, and where it has more exactly the mark `_truncated` with `_sha256`, the
  -- digest of that text. An absent payload stays absent.
  pub assemble_event-Fits :
      (id now : Text) (input : AssembleInput) (context : AuditContextStore)
      (config : AssembleConfig) (event : AuditEvent)
      → assemble_event stringify digest id now input context config ≡ ok event
      → (actor : AuditActor) × (tenant_id : Option Text) × (stream : Text) × (redacted
          before : AuditEvent)
        × (redact_event config.redactor
              (new_event stringify digest id now input context actor tenant_id stream)
            ≡ ok redacted)
        × (encrypt_assembled config.crypto redacted ≡ ok before)
        × Fits config.payload_max_bytes before.old_values event.old_values
        × Fits config.payload_max_bytes before.new_values event.new_values
        × Fits config.payload_max_bytes before.metadata event.metadata
  assemble_event-Fits id now input context config event h =
      let st = steps id now input context config event h in
      (
        st.actor, st.tenant_id, st.stream, st.redacted, st.encrypted, st.was_redacted,
        st.was_encrypted, st.was_truncated.fits.0, st.was_truncated.fits.1, st.was_truncated.fits.2,
      )
