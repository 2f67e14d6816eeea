-- ===== src/Pipeline/Flushing.antt =====
-- src/core/pipeline.ts: what `enqueue`, `#flush`, `#completeFlush`, `requestCoupledFlush` and `shutdown` do
-- between two awaits.
use adonisjs_audit_trail.Common.{
  ℕ, ◌+◌, ◌%◌, Bool, true, false, Option, none, some, List, [], ◌∷◌, ◌++◌, map, if◌then◌else◌, leb,
  ◌==◌, set, length,
}
use adonisjs_audit_trail.Common.Text.{Text}
use adonisjs_audit_trail.Common.Dict.{Dict, lookup, insert}
use adonisjs_audit_trail.Errors.{Result, ok, err, ◌>>=◌, type_error}
use adonisjs_audit_trail.Types.{AuditEvent, OverflowStrategy, block}
use adonisjs_audit_trail.Pipeline.{
  PipelineConfig, Slot, Flush, writing, finished, Pipeline, Effect, dead_letters, Outcome, accepted,
  refused, waits, peek_buffer, remove_buffered, drain_buffer, handle_overflow,
}
use adonisjs_audit_trail.Pipeline.Coupled.{insert_all, resolve_coupled}
use adonisjs_audit_trail.Pipeline.Retry.{write_with_retry}

-- One round of `#groupByStore`: the event joins the group of its store, or begins it.
unfoldable pub add_to_group : AuditEvent → Text → Dict (List AuditEvent) → Dict (List AuditEvent)
add_to_group event name groups = elim (lookup name groups) [
  | none ↦ insert name (event ∷ []) groups
  | some events ↦ insert name (events ++ event ∷ []) groups
]

module _ (c : PipelineConfig) where
  -- `#groupByStore` over a batch, by the store that `route` names; a route may throw, and so does
  -- reading the metadata of `undefined`.
  module _ (route : AuditEvent → Result Text) where
    unfoldable pub group_by_store :
        List Slot → Dict (List AuditEvent) → Result (Dict (List AuditEvent))
    unfolding add_to_group
    group_by_store [] groups = ok groups
    group_by_store (none ∷ batch) groups = err type_error
    group_by_store (some event ∷ batch) groups = do
      name ← route event
      group_by_store batch (add_to_group event name groups)

    abbrev pub started : ℕ → Result (Dict (List AuditEvent)) → Flush
    started n (ok groups) = writing groups n
    started n (err e) = finished

    -- `#flush` and `#flushBatch` up to the first write.
    unfoldable pub flush : Pipeline → Pipeline
    unfolding peek_buffer
    flush p = elim p.active [
      | some f ↦ p
      | none ↦
          if p.size == 0
          then p
          else let batch = peek_buffer c p in
            record p { active = some (started (length batch) (group_by_store batch [])) }
    ]

    -- What `enqueue` does after its loop, by whether the pipeline still accepts events.
    unfoldable pub store_event : Bool → AuditEvent → Pipeline → Outcome × Pipeline
    store_event false event p = (refused, p)
    store_event true event p =
        let q = record p {
          buffer = set p.buffer p.tail (some event);
          tail = (p.tail + 1) % c.capacity;
          size = p.size + 1;
          queued = p.queued + 1;
        } in
        (accepted, if leb c.max_batch_size q.size then flush q else q)

    abbrev pub block_until : Bool → Pipeline → Outcome × Pipeline × List Effect
    block_until false p = (refused, p, [])
    block_until true p = let q = flush p in (waits, record q { waiters = q.waiters + 1 }, [])

    -- The body of the loop of `enqueue`, at a full buffer: `block` refuses after `shutdown`, or begins a
    -- flush and waits; another strategy makes room or refuses.
    unfoldable pub at_capacity :
        OverflowStrategy → AuditEvent → Pipeline → Outcome × Pipeline × List Effect
    unfolding handle_overflow store_event
    at_capacity block event p = block_until p.accepting p
    at_capacity strategy event p =
        let (fits, q, effects) = handle_overflow c strategy event p in
        if fits
        then (let (outcome, q') = store_event q.accepting event q in (outcome, q', effects))
        else (refused, q, effects)

    unfoldable pub resume : AuditEvent → Pipeline → Outcome × Pipeline × List Effect
    resume event p =
        if leb c.capacity p.size
        then at_capacity c.overflow event p
        else (let (outcome, q) = store_event p.accepting event p in (outcome, q, []))

    -- `#completeFlush`
    unfoldable pub complete_flush : Pipeline → Pipeline
    complete_flush p =
        let q = record p { active = none; waiters = 0 } in
        if leb c.max_batch_size q.size then flush q else q

    -- The next group of the active flush is written; after the last one the batch leaves the buffer.
    unfoldable pub after_group : Dict (List AuditEvent) → ℕ → Pipeline → Pipeline
    after_group [] n p = let q = remove_buffered c n p in record q { active = some finished }
    after_group (group ∷ rest) n p = record p { active = some (writing (group ∷ rest) n) }

    unfoldable pub settle_group :
        (ℕ → Bool) → Dict (List AuditEvent) → ℕ → Pipeline → Pipeline × List Effect
    settle_group accepts [] n p = (after_group [] n p, [])
    settle_group accepts ((name, events) ∷ rest) n p =
        let (done, q, effects) = write_with_retry accepts name events p in
        let (q', resolved) =
          (if done then resolve_coupled (map (λ e. e.id) events) q else (q, [])) in
        (after_group rest n q', effects ++ resolved)

    -- The active flush goes on, where it waits for a write.
    abbrev pub settle_active : (ℕ → Bool) → Option Flush → Pipeline → Pipeline × List Effect
    settle_active accepts none p = (p, [])
    settle_active accepts (some finished) p = (p, [])
    settle_active accepts (some (writing groups n)) p = settle_group accepts groups n p

    unfoldable pub settle : (ℕ → Bool) → Pipeline → Pipeline × List Effect
    settle accepts p = settle_active accepts p.active p

    -- `#completeFlush` runs once the active flush has ended.
    abbrev pub complete_active : Option Flush → Pipeline → Pipeline
    complete_active none p = p
    complete_active (some finished) p = complete_flush p
    complete_active (some (writing groups n)) p = p

    unfoldable pub request_coupled_flush : List Text → Pipeline → Pipeline
    unfolding insert_all
    request_coupled_flush ids p = flush (record p {
      coupled = insert_all ids p.next_call p.coupled;
      calls = (p.next_call, ids) ∷ p.calls;
      next_call = p.next_call + 1;
    })

    -- `shutdown` up to its loop, and from the end of the loop on.
    unfoldable pub shutdown_begin : Pipeline → Pipeline
    shutdown_begin p = record p { accepting = false; waiters = 0 }

    unfoldable pub shutdown_end : Pipeline → Pipeline × List Effect
    unfolding drain_buffer
    shutdown_end p =
        if p.size == 0
        then (p, [])
        else (let (pending, q) = drain_buffer c p in
            (
              record q { dead_lettered = q.dead_lettered + length pending },
              dead_letters pending ∷ [],
            ))
