-- ===== src/Tests.antt =====
-- Concrete logs, values and schedules, on which the theorems are applied.
use adonisjs_audit_trail.Common.{ℕ, Option, none, some, List, [], ◌∷◌, length}
use adonisjs_audit_trail.Common.Text.{Text, text}
use adonisjs_audit_trail.Json.{JsonText, Number, nat, num, str, end, field}
use adonisjs_audit_trail.Types.{AuditEvent, Payload}
pub mod Chain
pub mod Values
pub mod Schedule
pub mod Ranges
pub mod Models
pub mod Exits
pub mod Routes
pub mod Assembling
pub mod Lines
pub mod Pruning
pub mod Shredding
pub mod Collector
pub mod Queries
pub mod Buffer
pub mod Writes
pub mod Secrets
pub mod Worker

abbrev pub sample : Text → Payload → AuditEvent
sample id new_values = record {
  id = id;
  event = text "invoice.paid";
  stream = text "t";
  auditable_type = some (text "invoice");
  auditable_id = some (text "7");
  old_values = none;
  new_values = new_values;
  metadata = none;
  actor = record { type = text "user"; id = some (text "3"); label = none };
  tenant_id = none;
  request_id = none;
  correlation_id = none;
  ip_address = none;
  user_agent = none;
  url = none;
  http_method = none;
  tags = [];
  schema_version = text "1";
  created_at = text "2026-01-01T00:00:00.000Z";
}

abbrev pub first : AuditEvent
first = sample (text "a") (some (field (text "paid") (num (nat 5)) end))

abbrev pub second : AuditEvent
second = sample (text "b") none

-- A digest that only reads the length of a text.
abbrev pub toy : JsonText → Text
toy t = length t ∷ []
