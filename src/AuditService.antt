-- ===== src/AuditService.antt =====
-- src/services/audit.ts: the submission of an event under the three guarantees. `World` is the state of the
-- pipeline, the database and the emitter, on which the operations that the service calls are functions; `stringify` is
-- `JSON.stringify({ event })`, `id` and `now` are the results of `uuidv7` and of the clock.
use adonisjs_audit_trail.Common.{
  ℕ, Bool, true, false, ◌||◌, Option, none, some, List, [], ◌∷◌, if◌then◌else◌,
}
use adonisjs_audit_trail.Common.Text.{Text, text}
use adonisjs_audit_trail.Errors.{AuditError, Result, ok, err, dropped, transaction_required}
use adonisjs_audit_trail.Json.{str}
use adonisjs_audit_trail.Types.{
  AuditEvent, GuaranteeMode, best_effort, request_coupled, transactional_outbox,
}
use adonisjs_audit_trail.HashChain.{or_else}
use adonisjs_audit_trail.Outbox.{OutboxRow, pending}
use adonisjs_audit_trail.Assembler.{AssembleInput, AssembleConfig}
use adonisjs_audit_trail.LogBuilder.{AuditSubmissionSource, LogBuilder, to_assemble_input}

-- The operations that the service calls. `report` is the emission of `audit:error`, whose failure is swallowed.
pub record Services (World : Type 0) (Transaction : Type 0) : Type 0 where
  pub enqueue : AuditEvent → World → World × Result Bool
  pub coupled_flush : List Text → Option ℕ → World → World × Result (Unit {0})
  pub insert_outbox : Transaction → Text → OutboxRow → World → World × Result (Unit {0})
  pub report : AuditEvent → AuditError → AuditSubmissionSource → World → World

pub record AuditServiceConfig : Type 0 where
  pub assemble : AssembleConfig
  pub guarantee : GuaranteeMode
  pub outbox_table : Option Text

module _ (stringify : AuditEvent → Text) (id : Text) (now : ℕ) where
  abbrev pub outbox_row : AuditEvent → OutboxRow
  outbox_row event = record {
    id = id;
    payload = str (stringify event);
    tenant_id = event.tenant_id;
    status = pending;
    attempts = some 0;
    available_at = now;
    claimed_at = none;
    processed_at = none;
    failed_at = none;
    updated_at = some now;
    last_error = none;
  }

  module _ {World : Type 0} {Transaction : Type 0} (services : Services World Transaction)
      (config : AuditServiceConfig) where
    abbrev pub insert_event : Option Transaction → AuditEvent → World → World × Result (Unit {0})
    insert_event none event w = (w, err transaction_required)
    insert_event (some transaction) event w =
        services.insert_outbox transaction (or_else config.outbox_table (text "audit_outbox"))
          (outbox_row event) w

    abbrev pub refused : GuaranteeMode → Result (Unit {0})
    refused best_effort = ok tt
    refused request_coupled = err dropped
    refused transactional_outbox = err dropped

    abbrev pub is_coupled : GuaranteeMode → Bool
    is_coupled request_coupled = true
    is_coupled _ = false

    -- After `enqueue`, by what it answered. What other submissions do while it waits is part of the next operation on
    -- `World`; concurrent submissions are not modelled.
    abbrev pub after_enqueue :
        AuditEvent → Option ℕ → Bool → World × Result Bool → World × Result (Unit {0})
    after_enqueue event timeout_ms force (w, err e) = (w, err e)
    after_enqueue event timeout_ms force (w, ok false) = (w, refused config.guarantee)
    after_enqueue event timeout_ms force (w, ok true) =
        if force || is_coupled config.guarantee
        then services.coupled_flush (event.id ∷ []) timeout_ms w
        else (w, ok tt)

    -- The body of the `try`.
    abbrev pub deliver_event :
        GuaranteeMode
        → AuditEvent
        → Option Transaction
        → Option ℕ
        → Bool
        → World
        → World × Result (Unit {0})
    deliver_event transactional_outbox event transaction timeout_ms force w =
        insert_event transaction event w
    deliver_event best_effort event transaction timeout_ms force w =
        after_enqueue event timeout_ms force (services.enqueue event w)
    deliver_event request_coupled event transaction timeout_ms force w =
        after_enqueue event timeout_ms force (services.enqueue event w)

    -- The `catch`: an error is reported and thrown again.
    abbrev pub report_error :
        AuditEvent → AuditSubmissionSource → World × Result (Unit {0}) → World × Result (Unit {0})
    report_error event source (w, ok t) = (w, ok t)
    report_error event source (w, err e) = (services.report event e source w, err e)

    unfoldable pub submit :
        AuditEvent
        → Option Transaction
        → AuditSubmissionSource
        → Option ℕ
        → Bool
        → World
        → World × Result (Unit {0})
    submit event transaction source timeout_ms force w =
        report_error event source
          (deliver_event config.guarantee event transaction timeout_ms force w)

    -- `emitLog` and, with `force`, `emitLogSync`.
    abbrev pub emit_assembled :
        LogBuilder Transaction
        → Option ℕ
        → Bool
        → World
        → Result AuditEvent
        → World × Result (Unit {0})
    emit_assembled builder timeout_ms force w (err e) = (w, err e)
    emit_assembled builder timeout_ms force w (ok event) =
        submit event builder.transaction builder.source timeout_ms force w

    unfoldable pub emit_log :
        (AssembleInput → Result AuditEvent)
        → LogBuilder Transaction
        → Option ℕ
        → Bool
        → World
        → World × Result (Unit {0})
    unfolding submit
    emit_log assemble builder timeout_ms force w =
        emit_assembled builder timeout_ms force w (assemble (to_assemble_input builder))
