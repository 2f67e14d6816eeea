-- ===== src/Tests/Schedule.antt =====
-- A schedule of src/core/pipeline.ts.
use adonisjs_audit_trail.Common.{none, ◌+◌, ◌≡◌, ◌≢◌, refl, List, [], ◌∷◌, leb}
use adonisjs_audit_trail.Common.Text.{Text, text}
use adonisjs_audit_trail.Errors.{Result, ok}
use adonisjs_audit_trail.Types.{AuditEvent, drop_oldest, block}
use adonisjs_audit_trail.Pipeline.{PipelineConfig, Pipeline, init}
use adonisjs_audit_trail.Pipeline.Machine.{Event, arrive, complete, settles, run}
use adonisjs_audit_trail.Pipeline.Accounting.{queued_accounted}
use adonisjs_audit_trail.Common.Dict.{lookup, insert}
use adonisjs_audit_trail.Pipeline.{peek_from, remove_buffered}
use adonisjs_audit_trail.Pipeline.Coupled.{resolve_coupled}
use adonisjs_audit_trail.Pipeline.Retry.{write_with_retry}
use adonisjs_audit_trail.Pipeline.Flushing.{
  resume, settle, store_event, flush, group_by_store, settle_group, after_group, complete_flush,
  at_capacity,
}
use adonisjs_audit_trail.Tests.{first, second}

abbrev small : PipelineConfig
small = record { max_batch_size = 1; capacity = 1; overflow = block }

abbrev to_db : AuditEvent → Result Text
to_db e = ok (text "db")

abbrev as_is : AuditEvent → AuditEvent
as_is e = e

block-ne-drop_oldest : block ≢ drop_oldest
block-ne-drop_oldest e = cc

-- The second event waits for capacity while the store takes the first at its second attempt.
abbrev schedule : List Event
schedule = arrive first ∷ arrive second ∷ settles (λ k. leb 1 k) ∷ complete ∷ []

abbrev final : Pipeline
final = (run small to_db as_is schedule (init small)).0

final-idle : final.active ≡ none
unfolding run init resume settle store_event flush group_by_store peek_from settle_group lookup
    insert after_group complete_flush remove_buffered write_with_retry resolve_coupled at_capacity
final-idle = refl

queued_accounted_example : final.queued ≡ final.size + final.written + final.dead_lettered
queued_accounted_example =
    queued_accounted small to_db as_is block-ne-drop_oldest schedule (tt, (tt, (tt, (tt, tt))))
      final-idle
