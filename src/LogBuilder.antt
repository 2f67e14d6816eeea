-- ===== src/LogBuilder.antt =====
-- src/services/log_builder.ts: the builder of a log entry. `to_text` is `String`.
use adonisjs_audit_trail.Common.{Option, none, some, List, [], ◌++◌, if◌then◌else◌}
use adonisjs_audit_trail.Common.Text.{Text, text}
use adonisjs_audit_trail.Errors.{Result, ok, err, plain_error}
use adonisjs_audit_trail.Json.{Value, Fields, obj}
use adonisjs_audit_trail.Types.{AuditActor, Payload}
use adonisjs_audit_trail.HashChain.{or_else}
use adonisjs_audit_trail.Outbox.Payload.{property}
use adonisjs_audit_trail.SubjectCrypto.{is_nullish}
use adonisjs_audit_trail.Assembler.{AssembleInput}

pub data AuditSubmissionSource : Type 0 where
  domain model auth : AuditSubmissionSource

-- A model as the builder reads it: a property that is absent is `undefined`.
pub record AuditedModel : Type 0 where
  pub name : Text
  pub primary_key : Option Text
  pub attributes : Fields
  pub primary_key_value : Value
  pub id : Value

pub record LogBuilder (Transaction : Type 0) : Type 0 where
  pub event : Text
  pub source : AuditSubmissionSource
  pub auditable_type : Option Text
  pub auditable_id : Option Text
  pub old_values : Payload
  pub new_values : Payload
  pub metadata : Payload
  pub tags : List Text
  pub actor : Option AuditActor
  pub transaction : Option Transaction

abbrev pub or_value : Value → Value → Value
or_value value other = if is_nullish value then other else value

module _ {Transaction : Type 0} where
  -- `log` of the service, and the builder's methods.
  abbrev pub log_event : Text → Option AuditSubmissionSource → LogBuilder Transaction
  log_event event source = record {
    event = event;
    source = or_else source domain;
    auditable_type = none;
    auditable_id = none;
    old_values = none;
    new_values = none;
    metadata = none;
    tags = [];
    actor = none;
    transaction = none;
  }

  abbrev pub on_ref : Text → Text → LogBuilder Transaction → LogBuilder Transaction
  on_ref type id builder = record builder { auditable_type = some type; auditable_id = some id }

  unfoldable pub on_model :
      (Value → Text) → AuditedModel → LogBuilder Transaction → Result (LogBuilder Transaction)
  unfolding property
  on_model to_text audited builder =
      let key = or_else audited.primary_key (text "id") in
      let id =
        or_value (property key (obj audited.attributes))
          (or_value audited.primary_key_value audited.id) in
      if is_nullish id then err plain_error else ok (on_ref audited.name (to_text id) builder)

  abbrev pub with_transaction : Transaction → LogBuilder Transaction → LogBuilder Transaction
  with_transaction transaction builder = record builder { transaction = some transaction }

  abbrev pub by_actor : AuditActor → LogBuilder Transaction → LogBuilder Transaction
  by_actor actor builder = record builder { actor = some actor }

  abbrev pub with_meta : Fields → LogBuilder Transaction → LogBuilder Transaction
  with_meta meta builder = record builder { metadata = some meta }

  abbrev pub with_old : Fields → LogBuilder Transaction → LogBuilder Transaction
  with_old old builder = record builder { old_values = some old }

  abbrev pub with_new : Fields → LogBuilder Transaction → LogBuilder Transaction
  with_new new builder = record builder { new_values = some new }

  abbrev pub add_tags : List Text → LogBuilder Transaction → LogBuilder Transaction
  add_tags tags builder = record builder { tags = builder.tags ++ tags }

  abbrev pub to_assemble_input : LogBuilder Transaction → AssembleInput
  to_assemble_input builder = record {
    event = builder.event;
    auditable_type = builder.auditable_type;
    auditable_id = builder.auditable_id;
    old_values = builder.old_values;
    new_values = builder.new_values;
    metadata = builder.metadata;
    tags = some builder.tags;
    actor = builder.actor;
  }
