-- ===== src/Pipeline/Accounting.antt =====
-- The counters of the pipeline against the size of its buffer.
use adonisjs_audit_trail.Common.{
  ℕ, ◌+◌, ◌-◌, ◌≤◌, ◌≡◌, ◌≢◌, refl, ◌∙◌, Bool, Option, none, some, List, [], ◌∷◌, map, inl, inr,
  arith, length, Bool-cases, All, ◌==◌,
}
use adonisjs_audit_trail.Common.Text.{Text}
use adonisjs_audit_trail.Common.Dict.{Dict}
use adonisjs_audit_trail.Errors.{Result}
use adonisjs_audit_trail.Types.{AuditEvent, drop_oldest}
use adonisjs_audit_trail.Pipeline.{
  PipelineConfig, Flush, writing, finished, Pipeline, init, peek_buffer, remove_rounds,
  remove_buffered, drain_buffer,
}
use adonisjs_audit_trail.Pipeline.Coupled.{is_open, coupled_timeout}
use adonisjs_audit_trail.Pipeline.Retry.{write_with_retry}
use adonisjs_audit_trail.Pipeline.Flushing.{
  complete_active, settle, settle_active, settle_group, request_coupled_flush, shutdown_end,
  shutdown_begin, after_group,
}
use adonisjs_audit_trail.Pipeline.Machine.{
  Event, arrive, retry, tick, complete, begin_shutdown, end_shutdown, settles, couple, expire, step,
  run,
}
use adonisjs_audit_trail.Pipeline.Totals.{
  Wrote, length-peek_buffer, remove_rounds-Removed, resolve-Wrote, total, write_with_retry-Wrote,
}
use adonisjs_audit_trail.Pipeline.Keeping.{
  Counts, expire_call-Counts, flush-Counts, resume-Counts, complete_flush-Counts,
}

-- Every event but the end of a shutdown.
abbrev pub Ordinary : Event → Type 0
Ordinary end_shutdown = ⊥
Ordinary _ = Unit

module _ (c : PipelineConfig) where
  module _ (route : AuditEvent → Result Text) where
    -- With a group of `k` events written, the flush goes on with the other groups, or ends.
    after_group-Counts :
        (rest : Dict (List AuditEvent)) (n k : ℕ) (p q : Pipeline)
        → n ≤ p.size
        → k + total rest ≤ n
        → p.queued + (n - (k + total rest)) ≡ p.size + p.written + p.dead_lettered
        → Wrote k p q
        → Counts (after_group c route rest n q)
    unfolding after_group remove_buffered
    after_group-Counts [] n k p q fits left balance w =
        let r = remove_rounds-Removed c n q in
        record {
          fits = omega arith;
          rest = omega arith;
          balance =
              omega (arith, r.size, r.queued, r.written, r.dead, w.size, w.queued, w.sum, balance);
        }
    after_group-Counts (g ∷ rest) n k p q fits left balance w = record {
      fits = omega (arith, w.size);
      rest = omega arith;
      balance = omega (arith, w.size, w.queued, w.sum, balance);
    }

    settle_group-Counts :
        (accepts : ℕ → Bool) (groups : Dict (List AuditEvent)) (n : ℕ) (p : Pipeline)
        → p.active ≡ some (writing groups n)
        → Counts p
        → Counts (settle_group c route accepts groups n p).0
    unfolding settle_group
    settle_group-Counts accepts [] n p e v =
        after_group-Counts [] n 0 p p (ground (arith, e, v.fits)) (ground (arith, e, v.rest))
          (ground (arith, e, v.balance))
          (record { size = refl; active = refl; queued = refl; sum = omega arith })
    settle_group-Counts accepts ((name, events) ∷ rest) n p e v =
        after_group-Counts rest n (length events) p _ (ground (arith, e, v.fits))
          (ground (arith, e, v.rest)) (ground (arith, e, v.balance))
          (resolve-Wrote (length events) done (map (λ e. e.id) events) p q
            (write_with_retry-Wrote accepts name events p))
      where
        done : Bool
        done = (write_with_retry accepts name events p).0

        q : Pipeline
        q = (write_with_retry accepts name events p).1

    settle_active-Counts :
        (accepts : ℕ → Bool) (f : Option Flush) (p : Pipeline)
        → p.active ≡ f
        → Counts p
        → Counts (settle_active c route accepts f p).0
    settle_active-Counts accepts none p e v = v
    settle_active-Counts accepts (some finished) p e v = v
    settle_active-Counts accepts (some (writing groups n)) p e v =
        settle_group-Counts accepts groups n p e v

    complete_active-Counts :
        (f : Option Flush) (p : Pipeline)
        → p.active ≡ f
        → Counts p
        → Counts (complete_active c route f p)
    complete_active-Counts none p e v = v
    complete_active-Counts (some finished) p e v = complete_flush-Counts c route p e v
    complete_active-Counts (some (writing groups n)) p e v = v

    -- `shutdown` ends while no flush is active: what it takes out of the buffer it dead-letters.
    shutdown_end-Counts :
        (p : Pipeline) → p.active ≡ none → Counts p → Counts (shutdown_end c route p).0
    unfolding shutdown_end drain_buffer remove_buffered
    shutdown_end-Counts p e v = elim (Bool-cases (p.size == 0)) [
      | inl z ↦ rw (z, shutdown_end) v
      | inr z ↦
          let q = remove_rounds c (length (peek_buffer c p)) p in
          let r = remove_rounds-Removed c (length (peek_buffer c p)) p in
          let none_left : q.active ≡ none = r.active ∙ e in
          rw (z, shutdown_end)
            (record {
              fits = rw none_left (omega arith);
              rest = rw none_left (omega arith);
              balance =
                  rw (none_left, r.queued, r.written, r.dead, r.size)
                    (ground (arith, e, v.balance, length-peek_buffer c p));
            })
    ]

    init-Counts : Counts (init c)
    unfolding init
    init-Counts = record { fits = omega arith; rest = omega arith; balance = omega arith }

    module _ (redact : AuditEvent → AuditEvent) (no_drop : c.overflow ≢ drop_oldest) where
      step-Counts :
          (e : Event) (p : Pipeline) → Ordinary e → Counts p → Counts (step c route redact e p).0
      unfolding step request_coupled_flush coupled_timeout shutdown_begin settle
      step-Counts (arrive event) p o v = resume-Counts c route (redact event) p no_drop v
      step-Counts (retry event) p o v = resume-Counts c route event p no_drop v
      step-Counts tick p o v = flush-Counts c route p v
      step-Counts complete p o v = complete_active-Counts p.active p refl v
      step-Counts (settles accepts) p o v = settle_active-Counts accepts p.active p refl v
      step-Counts (couple ids) p o v =
          flush-Counts c route _ (record { fits = v.fits; rest = v.rest; balance = v.balance })
      step-Counts (expire call) p o v = expire_call-Counts (is_open call p.calls) call p v
      step-Counts begin_shutdown p o v = record {
        fits = v.fits;
        rest = v.rest;
        balance = v.balance;
      }
      step-Counts end_shutdown p o v = absurd o

      run-Counts :
          (es : List Event) (p : Pipeline)
          → All Ordinary es
          → Counts p
          → Counts (run c route redact es p).0
      unfolding run
      run-Counts [] p o v = v
      run-Counts (e ∷ es) p o v = run-Counts es _ o.1 (step-Counts e p o.0 v)

      -- The counters that `stats` reports balance, where a dead-letter handler that is called returns: under a
      -- strategy other than `dropOldest`, after any schedule of arrivals, flushes, writes, failures, timeouts and
      -- the beginning of a shutdown, once no flush is active `queued` is the number of events in the buffer,
      -- `written` and `deadLettered` together. It is about the numbers, not about which events they count.
      pub queued_accounted :
          (es : List Event)
          → All Ordinary es
          → (run c route redact es (init c)).0.active ≡ none
          → (run c route redact es (init c)).0.queued
            ≡ (run c route redact es (init c)).0.size
              + (run c route redact es (init c)).0.written
              + (run c route redact es (init c)).0.dead_lettered
      queued_accounted es o idle =
          let v = run-Counts es (init c) o init-Counts in ground (arith, idle, v.balance)
