-- ===== src/Pipeline/Keeping.antt =====
-- Arrivals and flushes keep the balance between what was queued and what was settled.
use adonisjs_audit_trail.Common.{
  ℕ, ◌+◌, ◌-◌, ◌%◌, ◌≤◌, min, ◌≡◌, ◌≢◌, refl, Bool, true, false, none, some, List, [], inl, inr,
  arith, length, Bool-cases, Option-cases, leb, ◌==◌, set,
}
use adonisjs_audit_trail.Common.Text.{Text}
use adonisjs_audit_trail.Errors.{Result, Result-cases}
use adonisjs_audit_trail.Types.{AuditEvent, OverflowStrategy, drop_oldest, drop_new, block}
use adonisjs_audit_trail.Pipeline.{
  PipelineConfig, Slot, finished, Pipeline, peek_buffer, handle_overflow,
}
use adonisjs_audit_trail.Pipeline.Coupled.{expire_call}
use adonisjs_audit_trail.Pipeline.Flushing.{
  group_by_store, started, flush, store_event, block_until, at_capacity, resume, complete_flush,
}
use adonisjs_audit_trail.Pipeline.Totals.{
  batch_of, left_of, length-peek_buffer, total-group_by_store,
}

-- Where a flush is under way its batch is in the buffer, and `settled` counts what of the batch has been
-- written or dead-lettered already.
pub record Counts (p : Pipeline) : Type 0 where
  pub fits : batch_of p.active ≤ p.size
  pub rest : left_of p.active ≤ batch_of p.active
  pub balance :
      p.queued + (batch_of p.active - left_of p.active) ≡ p.size + p.written + p.dead_lettered

pub expire_call-Counts :
    (open_ : Bool) (call : ℕ) (p : Pipeline) → Counts p → Counts (expire_call open_ call p).0
expire_call-Counts false call p v = v
expire_call-Counts true call p v = record { fits = v.fits; rest = v.rest; balance = v.balance }

module _ (c : PipelineConfig) where
  module _ (route : AuditEvent → Result Text) where
    pub started-Counts :
        (p : Pipeline)
        → p.active ≡ none
        → Counts p
        → (batch : List Slot) → length batch ≡ min p.size c.max_batch_size
        → Counts (record p {
          active = some (started c route (length batch) (group_by_store c route batch []));
        })
    started-Counts p e v batch l = elim (Result-cases (group_by_store c route batch [])) [
      | inr (x, failed) ↦ rw failed (ground (arith, e, v.balance))
      | inl (groups, grouped) ↦
          rw grouped
            (ground (arith, e, v.balance, l, total-group_by_store c route batch [] grouped))
    ]

    pub flush-Counts : (p : Pipeline) → Counts p → Counts (flush c route p)
    unfolding flush
    flush-Counts p v = elim (Option-cases p.active) [
      | inr (f, e) ↦ rw (e, flush) v
      | inl e ↦
          rw (e, flush)
            (elim (Bool-cases (p.size == 0)) [
              | inl z ↦ rw z v
              | inr z ↦ rw z (started-Counts p e v (peek_buffer c p) (length-peek_buffer c p))
            ])
    ]

    pub store_event-Counts :
        (b : Bool) (event : AuditEvent) (p : Pipeline)
        → Counts p
        → Counts (store_event c route b event p).1
    unfolding store_event
    store_event-Counts false event p v = v
    store_event-Counts true event p v =
        let q = record p {
          buffer = set p.buffer p.tail (some event);
          tail = (p.tail + 1) % c.capacity;
          size = p.size + 1;
          queued = p.queued + 1;
        } in
        let w : Counts q = record {
          fits = omega (arith, v.fits);
          rest = v.rest;
          balance = omega (arith, v.balance);
        } in
        elim (Bool-cases (leb c.max_batch_size (p.size + 1))) [
          | inl full ↦ rw full (flush-Counts q w)
          | inr room ↦ rw room w
        ]

    pub block_until-Counts :
        (b : Bool) (p : Pipeline) → Counts p → Counts (block_until c route b p).1
    block_until-Counts false p v = v
    block_until-Counts true p v =
        let w = flush-Counts p v in record { fits = w.fits; rest = w.rest; balance = w.balance }

    pub at_capacity-Counts :
        (s : OverflowStrategy) (event : AuditEvent) (p : Pipeline)
        → s ≢ drop_oldest
        → Counts p
        → Counts (at_capacity c route s event p).1
    unfolding at_capacity handle_overflow
    at_capacity-Counts drop_oldest event p no_drop v = absurd (no_drop refl)
    at_capacity-Counts drop_new event p no_drop v = record {
      fits = v.fits;
      rest = v.rest;
      balance = v.balance;
    }
    at_capacity-Counts block event p no_drop v = block_until-Counts p.accepting p v

    pub resume-Counts :
        (event : AuditEvent) (p : Pipeline)
        → c.overflow ≢ drop_oldest
        → Counts p
        → Counts (resume c route event p).1
    unfolding resume
    resume-Counts event p no_drop v = elim (Bool-cases (leb c.capacity p.size)) [
      | inr room ↦ rw (room, resume) (store_event-Counts p.accepting event p v)
      | inl full ↦ rw (full, resume) (at_capacity-Counts c.overflow event p no_drop v)
    ]

    pub complete_flush-Counts :
        (p : Pipeline) → p.active ≡ some finished → Counts p → Counts (complete_flush c route p)
    unfolding complete_flush
    complete_flush-Counts p e v =
        let q = record p { active = none; waiters = 0 } in
        let w : Counts q = record {
          fits = omega arith;
          rest = omega arith;
          balance = ground (arith, e, v.balance);
        } in
        elim (Bool-cases (leb c.max_batch_size p.size)) [
          | inl full ↦ rw (full, complete_flush) (flush-Counts q w)
          | inr room ↦ rw (room, complete_flush) w
        ]
