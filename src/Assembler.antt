-- ===== src/Assembler.antt =====
-- src/core/assembler.ts: an event from its submission, the request context and the configuration. `stringify` is
-- `JSON.stringify` on a payload, which may throw; `digest` is the SHA-256 of a text in hexadecimal; `id` and `now` are
-- the results of `uuidv7` and of the clock. The redactor and the encryption are functions of the configuration.
pub mod Bounded
use adonisjs_audit_trail.Common.{
  ℕ, ◌+◌, Bool, true, false, ◌&&◌, ◌||◌, not, Option, none, some, List, [], ◌∷◌, if◌then◌else◌, leb,
  ltb, ◌==◌, last?,
}
use adonisjs_audit_trail.Common.Text.{Text, text, text_eq}
use adonisjs_audit_trail.Errors.{Result, ok, err, ◌>>=◌, configuration}
use adonisjs_audit_trail.Json.{Fields, bool, str, end, field}
use adonisjs_audit_trail.Types.{AuditActor, AuditEvent, Payload}
use adonisjs_audit_trail.HashChain.{or_else}
use adonisjs_audit_trail.Retention.{is_space}
use adonisjs_audit_trail.SubjectCrypto.{with_values}

pub record AssembleInput : Type 0 where
  pub event : Text
  pub auditable_type : Option Text
  pub auditable_id : Option Text
  pub old_values : Payload
  pub new_values : Payload
  pub metadata : Payload
  pub tags : Option (List Text)
  pub actor : Option AuditActor

-- The actor of a context is a value or a function that may return none.
pub data ContextActor : Type 0 where
  known : AuditActor → ContextActor
  resolves : Result (Option AuditActor) → ContextActor

pub record AuditContextStore : Type 0 where
  pub context_actor : Option ContextActor
  pub tenant_id : Option Text
  pub request_id : Option Text
  pub correlation_id : Option Text
  pub ip : Option Text
  pub user_agent : Option Text
  pub url : Option Text
  pub http_method : Option Text

-- The event as far as `streamBy` sees it.
pub record PartialEvent : Type 0 where
  pub event : Text
  pub auditable_type : Option Text
  pub auditable_id : Option Text
  pub tenant_id : Option Text
  pub actor : AuditActor
  pub old_values : Payload
  pub new_values : Payload
  pub metadata : Payload

pub data StreamBy : Type 0 where
  global tenant : StreamBy
  by_event : (PartialEvent → Text) → StreamBy

pub record AssembleConfig : Type 0 where
  pub payload_max_bytes : ℕ
  pub stream_by : StreamBy
  pub tenant_id : Option Text
  pub environment : Option Text
  pub crypto : Option (AuditEvent → Result AuditEvent)
  pub redactor : Option (Fields → Result Fields)

abbrev pub or_option {ℓ} : {A : Type ℓ} → Option A → Option A → Option A
or_option (some a) other = some a
or_option none other = other

abbrev pub starts_blank : Text → Bool
starts_blank [] = false
starts_blank (c ∷ cs) = is_space c

abbrev pub ends_blank : Text → Bool
ends_blank t = elim (last? t) [ none ↦ false | some c ↦ is_space c ]

-- A non-empty text that `trim` leaves as it is.
abbrev pub is_trimmed : Text → Bool
is_trimmed [] = false
is_trimmed (c ∷ cs) = not (starts_blank (c ∷ cs)) && not (ends_blank (c ∷ cs))

abbrev pub check_tenant : Option Text → Result (Option Text)
check_tenant none = ok none
check_tenant (some t) = if is_trimmed t then ok (some t) else err configuration

unfoldable pub resolve_tenant_id : AuditContextStore → AssembleConfig → Result (Option Text)
resolve_tenant_id context config = check_tenant (or_option context.tenant_id config.tenant_id)

abbrev pub tenant_stream : Option Text → Result Text
tenant_stream none = err configuration
tenant_stream (some t) = ok t

abbrev pub system_actor : AuditActor
system_actor = record { type = text "system"; id = none; label = none }

abbrev pub stream_for : StreamBy → AssembleInput → Option Text → Result Text
stream_for global input tenant_id = ok (text "default")
stream_for tenant input tenant_id = tenant_stream tenant_id
stream_for (by_event stream_of) input tenant_id = ok (
    stream_of (record {
      event = input.event;
      auditable_type = input.auditable_type;
      auditable_id = input.auditable_id;
      tenant_id = tenant_id;
      actor = system_actor;
      old_values = input.old_values;
      new_values = input.new_values;
      metadata = input.metadata;
    }))

unfoldable pub resolve_stream : AssembleInput → AssembleConfig → Option Text → Result Text
resolve_stream input config tenant_id = stream_for config.stream_by input tenant_id

abbrev pub default_actor : Option Text → AuditActor
default_actor none = system_actor
default_actor (some environment) =
    if text_eq environment (text "console")
    then record { type = text "cli"; id = none; label = none }
    else system_actor

abbrev pub context_actor_of : Option ContextActor → Option Text → Result AuditActor
context_actor_of none environment = ok (default_actor environment)
context_actor_of (some (known a)) environment = ok a
context_actor_of (some (resolves outcome)) environment = do
  a ← outcome
  ok (or_else a (default_actor environment))

unfoldable pub resolve_actor : AuditContextStore → Option Text → Result AuditActor
resolve_actor context environment = context_actor_of context.context_actor environment

-- A character that `.` of a regular expression does not match.
abbrev pub ends_line : ℕ → Bool
ends_line c = (c == 10) || (c == 13) || (c == 8232) || (c == 8233)

abbrev pub one_line : Text → Bool
one_line [] = true
one_line (c ∷ cs) = not (ends_line c) && one_line cs

-- `url.replace(/\?.*$/, '')`
unfoldable pub strip_query : Text → Text
strip_query [] = []
strip_query (c ∷ cs) =
    let rest = strip_query cs in if (c == 63) && one_line cs then [] else c ∷ rest

abbrev pub stripped : Option Text → Option Text
stripped none = none
stripped (some url) = some (strip_query url)

-- `Buffer.byteLength(text, 'utf8')`: a pair of surrogates is four bytes.
unfoldable pub utf8_bytes : Text → ℕ
utf8_bytes [] = 0
utf8_bytes (c ∷ []) = if ltb c 128 then 1 else if ltb c 2048 then 2 else 3
utf8_bytes (c ∷ d ∷ cs) =
    let rest = utf8_bytes (d ∷ cs) in
    let after_pair = utf8_bytes cs in
    if ltb c 128
    then 1 + rest
    else if ltb c 2048
    then 2 + rest
    else if leb 55296 c && leb c 56319 && leb 56320 d && leb d 57343
    then 4 + after_pair
    else 3 + rest

abbrev pub redact_payload : (Fields → Result Fields) → Payload → Result Payload
redact_payload redact none = ok none
redact_payload redact (some values) = do fs ← redact values; ok (some fs)

unfoldable pub redact_event : Option (Fields → Result Fields) → AuditEvent → Result AuditEvent
redact_event none event = ok event
redact_event (some redact) event = do
  old_values ← redact_payload redact event.old_values
  new_values ← redact_payload redact event.new_values
  metadata ← redact_payload redact event.metadata
  ok (with_values event old_values new_values metadata)

unfoldable pub encrypt_assembled :
    Option (AuditEvent → Result AuditEvent) → AuditEvent → Result AuditEvent
encrypt_assembled none event = ok event
encrypt_assembled (some encrypt) event = encrypt event

abbrev pub actor_of : AssembleInput → AuditContextStore → AssembleConfig → Result AuditActor
actor_of input context config = elim input.actor [
  | some a ↦ ok a
  | none ↦ resolve_actor context config.environment
]

module _ (stringify : Fields → Result Text) (digest : Text → Text) where
  abbrev pub truncated : Text → Fields
  truncated serialized =
      field (text "_truncated") (bool true) (field (text "_sha256") (str (digest serialized)) end)

  unfoldable pub maybe_truncate : Payload → ℕ → Result Payload
  unfolding utf8_bytes
  maybe_truncate none max = ok none
  maybe_truncate (some values) max = do
    serialized ← stringify values
    ok (some (if leb (utf8_bytes serialized) max then values else truncated serialized))

  unfoldable pub truncate_payloads : AuditEvent → ℕ → Result AuditEvent
  unfolding maybe_truncate
  truncate_payloads event max = do
    old_values ← maybe_truncate event.old_values max
    new_values ← maybe_truncate event.new_values max
    metadata ← maybe_truncate event.metadata max
    ok (with_values event old_values new_values metadata)

  module _ (id : Text) (now : Text) where
    abbrev pub new_event :
        AssembleInput → AuditContextStore → AuditActor → Option Text → Text → AuditEvent
    new_event input context who tenant_id stream = record {
      id = id;
      event = input.event;
      stream = stream;
      auditable_type = input.auditable_type;
      auditable_id = input.auditable_id;
      old_values = input.old_values;
      new_values = input.new_values;
      metadata = input.metadata;
      actor = who;
      tenant_id = tenant_id;
      request_id = context.request_id;
      correlation_id = context.correlation_id;
      ip_address = context.ip;
      user_agent = context.user_agent;
      url = stripped context.url;
      http_method = context.http_method;
      tags = or_else input.tags [];
      schema_version = text "1";
      created_at = now;
    }

    unfoldable pub assemble_event :
        AssembleInput → AuditContextStore → AssembleConfig → Result AuditEvent
    unfolding resolve_tenant_id resolve_stream resolve_actor strip_query redact_event
        encrypt_assembled truncate_payloads
    assemble_event input context config = do
      who ← actor_of input context config
      tenant_id ← resolve_tenant_id context config
      stream ← resolve_stream input config tenant_id
      redacted ← redact_event config.redactor (new_event input context who tenant_id stream)
      encrypted ← encrypt_assembled config.crypto redacted
      truncate_payloads encrypted config.payload_max_bytes
