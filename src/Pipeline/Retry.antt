-- ===== src/Pipeline/Retry.antt =====
-- src/core/pipeline.ts: `#writeWithRetry`.
use adonisjs_audit_trail.Common.{
  ℕ, zero, suc, ◌+◌, Bool, true, false, some, List, [], ◌∷◌, map, leb, length,
}
use adonisjs_audit_trail.Common.Text.{Text}
use adonisjs_audit_trail.Types.{AuditEvent}
use adonisjs_audit_trail.Pipeline.{Pipeline, Effect, dead_letters, delivers}

-- `#writeWithRetry` from an attempt on: `accepts k` tells whether the store takes the batch at attempt
-- `k`. What the observers of a delivery do is not the pipeline's state. The attempts with their waits are one step:
-- what other calls do meanwhile happens before or after them. The dead-letter handler is taken to return; where it
-- throws, the source ends the flush with the batch still in the buffer and uncounted.
abbrev pub max_attempts : ℕ
max_attempts = 5

unfoldable pub write_rounds :
    ℕ → ℕ → (ℕ → Bool) → Text → List AuditEvent → Pipeline → Bool × Pipeline × List Effect
write_rounds zero attempts accepts name batch p = (false, p, [])
write_rounds (suc n) attempts accepts name batch p = elim (accepts attempts) [
  | true ↦ (true, record p { written = p.written + length batch }, delivers name batch ∷ [])
  | false ↦
      let q = record p { retried = p.retried + 1 } in
      elim (leb max_attempts (attempts + 1)) [
        | true ↦ (
          false,
          record q { dead_lettered = q.dead_lettered + length batch },
          dead_letters (map some batch) ∷ [],
        )
        | false ↦ write_rounds n (attempts + 1) accepts name batch q
      ]
]

unfoldable pub write_with_retry :
    (ℕ → Bool) → Text → List AuditEvent → Pipeline → Bool × Pipeline × List Effect
unfolding write_rounds
write_with_retry accepts name batch p = write_rounds max_attempts 0 accepts name batch p
