-- ===== src/Pipeline/Machine.antt =====
-- src/core/pipeline.ts: the pipeline as a machine over the order in which its runs are scheduled.
use adonisjs_audit_trail.Common.{ℕ, Bool, List, [], ◌∷◌, ◌++◌}
use adonisjs_audit_trail.Common.Text.{Text}
use adonisjs_audit_trail.Errors.{Result}
use adonisjs_audit_trail.Types.{AuditEvent}
use adonisjs_audit_trail.Pipeline.{PipelineConfig, Pipeline, Effect}
use adonisjs_audit_trail.Pipeline.Coupled.{coupled_timeout}
use adonisjs_audit_trail.Pipeline.Flushing.{
  flush, resume, complete_active, settle, request_coupled_flush, shutdown_begin, shutdown_end,
}

-- What happens to a pipeline, one uninterrupted run at a time. `arrive` is a call of `enqueue` and
-- `retry` its continuation after a wait; `tick` is the timer and each round of `shutdown`'s loop.
pub data Event : Type 0 where
  arrive retry : AuditEvent → Event
  tick complete begin_shutdown end_shutdown : Event
  settles : (ℕ → Bool) → Event
  couple : List Text → Event
  expire : ℕ → Event

module _ (c : PipelineConfig) (route : AuditEvent → Result Text)
    (redact : AuditEvent → AuditEvent) where
  unfoldable pub step : Event → Pipeline → Pipeline × List Effect
  step (arrive event) p =
      let (outcome, q, effects) = resume c route (redact event) p in (q, effects)
  step (retry event) p = let (outcome, q, effects) = resume c route event p in (q, effects)
  step tick p = (flush c route p, [])
  step complete p = (complete_active c route p.active p, [])
  step (settles accepts) p = settle c route accepts p
  step (couple ids) p = (request_coupled_flush c route ids p, [])
  step (expire call) p = coupled_timeout call p
  step begin_shutdown p = (shutdown_begin c route p, [])
  step end_shutdown p = shutdown_end c route p

  unfoldable pub run : List Event → Pipeline → Pipeline × List Effect
  unfolding step
  run [] p = (p, [])
  run (e ∷ es) p = let (q, effects) = step e p in let (q', rest) = run es q in (q', effects ++ rest)
