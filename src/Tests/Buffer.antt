-- ===== src/Tests/Buffer.antt =====
-- A buffer of src/core/pipeline.ts with one event.
use adonisjs_audit_trail.Common.{
  ℕ, Bool, List, leb, none, ◌≡◌, ◌<◌, refl, true, some, [], ◌∷◌, map, arith, take, drop,
}
use adonisjs_audit_trail.Common.Text.{Text, text}
use adonisjs_audit_trail.Errors.{Result, ok}
use adonisjs_audit_trail.Types.{AuditEvent, drop_new}
use adonisjs_audit_trail.Pipeline.{
  PipelineConfig, Pipeline, init, accepted, drain_buffer, drop_oldest_event,
}
use adonisjs_audit_trail.Pipeline.Flushing.{resume, store_event, flush}
use adonisjs_audit_trail.Pipeline.Queue.{
  IsQueue, batch_size, init-IsQueue, drain_buffer-IsQueue, drop_oldest_event-IsQueue,
  resume-IsQueue,
}
use adonisjs_audit_trail.Pipeline.Batches.{settle_each, tally, tally_handled, flush-tally}
use adonisjs_audit_trail.Pipeline.{Effect, finished}
use adonisjs_audit_trail.Tests.{first}

abbrev roomy : PipelineConfig
roomy = record { max_batch_size = 3; capacity = 4; overflow = drop_new }

abbrev one_store : AuditEvent → Result Text
one_store e = ok (text "db")

abbrev filled : Pipeline
filled = (resume roomy one_store first (init roomy)).1

init-accepting : (init roomy).accepting ≡ true
unfolding init
init-accepting = refl

init-room : (init roomy).size < roomy.capacity
unfolding init
init-room = omega arith

resume-IsQueue_example :
    ((resume roomy one_store first (init roomy)).0 ≡ accepted) × IsQueue roomy filled (first ∷ [])
resume-IsQueue_example =
    resume-IsQueue roomy one_store first (init roomy) [] init-accepting
      (init-IsQueue roomy (omega arith)) init-room

filled-IsQueue : IsQueue roomy filled (first ∷ [])
filled-IsQueue =
    (resume-IsQueue roomy one_store first (init roomy) [] init-accepting
      (init-IsQueue roomy (omega arith)) init-room).1

drain_buffer-IsQueue_example :
    ((drain_buffer roomy filled).0 ≡ map some (take (batch_size roomy (first ∷ [])) (first ∷ [])))
    × IsQueue roomy
        (drain_buffer roomy filled).1
        (drop (batch_size roomy (first ∷ [])) (first ∷ []))
drain_buffer-IsQueue_example = drain_buffer-IsQueue roomy filled (first ∷ []) filled-IsQueue

drop_oldest_event-IsQueue_example :
    ((drop_oldest_event roomy filled).0 ≡ some first)
    × IsQueue roomy (drop_oldest_event roomy filled).1 []
drop_oldest_event-IsQueue_example = drop_oldest_event-IsQueue roomy filled first [] filled-IsQueue

filled_idle : filled.active ≡ none
unfolding resume store_event init
filled_idle = refl

abbrev every_event : AuditEvent → Bool
every_event e = true

abbrev takes_second : ℕ → Bool
takes_second k = leb 1 k

abbrev flushed : Pipeline × List Effect
flushed = settle_each every_event roomy one_store (takes_second ∷ []) (flush roomy one_store filled)

flush-tally_example :
    (flushed.0.active ≡ some finished)
    × (tally_handled every_event flushed.1
        ≡ tally every_event (take (batch_size roomy (first ∷ [])) (first ∷ [])))
    × IsQueue roomy flushed.0 (drop (batch_size roomy (first ∷ [])) (first ∷ []))
flush-tally_example =
    flush-tally every_event roomy one_store (λ e. (text "db", refl)) filled first []
      (takes_second ∷ []) filled_idle filled-IsQueue (omega arith) (omega arith)
