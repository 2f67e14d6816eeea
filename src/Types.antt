-- ===== src/Types.antt =====
-- src/types.ts: the data that the components exchange. `null` is `none`; a payload of type
-- `Record<string, unknown> | null` is an optional list of properties.
use adonisjs_audit_trail.Common.{ℕ, Bool, Option, none, some, List}
use adonisjs_audit_trail.Common.Text.{Text}
use adonisjs_audit_trail.Errors.{AuditError}
use adonisjs_audit_trail.Json.{Value, Fields, null, str, obj}

abbrev pub Payload : Type 0
Payload = Option Fields

-- `label` may be absent, which is the outer `none`, or null.
pub record AuditActor : Type 0 where
  pub type : Text
  pub id : Option Text
  pub label : Option (Option Text)

pub record AuditEvent : Type 0 where
  pub id : Text
  pub event : Text
  pub stream : Text
  pub auditable_type : Option Text
  pub auditable_id : Option Text
  pub old_values : Payload
  pub new_values : Payload
  pub metadata : Payload
  pub actor : AuditActor
  pub tenant_id : Option Text
  pub request_id : Option Text
  pub correlation_id : Option Text
  pub ip_address : Option Text
  pub user_agent : Option Text
  pub url : Option Text
  pub http_method : Option Text
  pub tags : List Text
  pub schema_version : Text
  pub created_at : Text

pub record ChainedAuditEvent : Type 0 where
  pub entry : AuditEvent
  pub open entry use *
  pub seq : ℕ
  pub hash : Text
  pub prev_hash : Text

-- What `head` returns, where it is not null.
pub record Head : Type 0 where
  pub seq : ℕ
  pub hash : Text

pub record VerifyReport : Type 0 where
  pub stream : Text
  pub valid : Bool
  pub first_invalid_seq : Option ℕ
  pub expected_hash : Option Text
  pub actual_hash : Option Text
  pub checked_count : ℕ

pub data GuaranteeMode : Type 0 where
  best_effort request_coupled transactional_outbox : GuaranteeMode

pub data OverflowStrategy : Type 0 where
  drop_oldest drop_new block : OverflowStrategy

pub data RedactionMode : Type 0 where
  mask remove hash : RedactionMode

-- What an async generator hands out: values, then an end or an exception.
pub data Stream {ℓ} (A : Type ℓ) : Type ℓ where
  ends : Stream A
  throws : AuditError → Stream A
  yields : A → Stream A → Stream A

-- A nullable string and a payload as values.
unfoldable pub nullable : Option Text → Value
nullable none = null
nullable (some t) = str t

unfoldable pub payload : Payload → Value
payload none = null
payload (some fs) = obj fs
