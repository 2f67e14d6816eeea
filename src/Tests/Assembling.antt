-- ===== src/Tests/Assembling.antt =====
-- Runs of src/core/assembler.ts.
use adonisjs_audit_trail.Common.{◌≡◌, refl, none, some, [], Option}
use adonisjs_audit_trail.Common.Text.{Text, text}
use adonisjs_audit_trail.Errors.{Result, ok}
use adonisjs_audit_trail.Json.{Fields, num, nat, end, field}
use adonisjs_audit_trail.Types.{AuditEvent, AuditActor}
use adonisjs_audit_trail.Assembler.{
  AssembleInput, AuditContextStore, AssembleConfig, tenant, assemble_event, resolve_tenant_id,
  resolve_stream, resolve_actor, strip_query, redact_event, encrypt_assembled, new_event,
  truncate_payloads, maybe_truncate, utf8_bytes, truncated,
}
use adonisjs_audit_trail.Assembler.Bounded.{Fits, assemble_event-Fits}

abbrev stringify : Fields → Result Text
stringify fs = ok (text "{'a':1}")

abbrev digest : Text → Text
digest t = t

abbrev input : AssembleInput
input = record {
  event = text "invoice.paid";
  auditable_type = none;
  auditable_id = none;
  old_values = none;
  new_values = some (field (text "a") (num (nat 1)) end);
  metadata = none;
  tags = none;
  actor = none;
}

abbrev context : AuditContextStore
context = record {
  context_actor = none;
  tenant_id = some (text "acme");
  request_id = none;
  correlation_id = none;
  ip = none;
  user_agent = none;
  url = some (text "/pay?token=1");
  http_method = none;
}

-- A limit of four bytes, which the payload exceeds.
abbrev pub config : AssembleConfig
config = record {
  payload_max_bytes = 4;
  stream_by = tenant;
  tenant_id = none;
  environment = none;
  crypto = none;
  redactor = none;
}

abbrev assembled : AuditEvent
assembled = record {
  id = text "i";
  event = text "invoice.paid";
  stream = text "acme";
  auditable_type = none;
  auditable_id = none;
  old_values = none;
  new_values = some (truncated stringify digest (text "{'a':1}"));
  metadata = none;
  actor = record { type = text "system"; id = none; label = none };
  tenant_id = some (text "acme");
  request_id = none;
  correlation_id = none;
  ip_address = none;
  user_agent = none;
  url = some (text "/pay");
  http_method = none;
  tags = [];
  schema_version = text "1";
  created_at = text "now";
}

built : assemble_event stringify digest (text "i") (text "now") input context config ≡ ok assembled
unfolding assemble_event resolve_tenant_id resolve_stream resolve_actor strip_query redact_event
    encrypt_assembled truncate_payloads maybe_truncate utf8_bytes
built = refl

assemble_event-Fits_example :
    (actor : AuditActor) × (tenant_id : Option Text) × (stream : Text) × (redacted
      before : AuditEvent)
    × (redact_event config.redactor
          (new_event stringify digest (text "i") (text "now") input context actor tenant_id stream)
        ≡ ok redacted)
    × (encrypt_assembled config.crypto redacted ≡ ok before)
    × Fits stringify digest 4 before.old_values assembled.old_values
    × Fits stringify digest 4 before.new_values assembled.new_values
    × Fits stringify digest 4 before.metadata assembled.metadata
assemble_event-Fits_example =
    assemble_event-Fits stringify digest (text "i") (text "now") input context config assembled
      built
