-- ===== src/Pipeline.antt =====
-- src/core/pipeline.ts: the bounded buffer between the service and the stores, its flushes and retries.
-- A method returns the new state and what it let the outside see. Between two awaits a method runs
-- without interruption, so each function below is one such run: `enqueue` and `resume` up to the wait for
-- capacity, `flush` up to the first write, `settle` from the end of a write to the next.
use adonisjs_audit_trail.Common.{
  ℕ, zero, suc, ◌+◌, ◌-◌, ◌%◌, min, Bool, true, false, not, Option, none, some, List, [], ◌∷◌, ◌++◌,
  map, if◌then◌else◌, leb, ltb, ◌==◌, get_elem?, set, replicate, length,
}
use adonisjs_audit_trail.Common.Text.{Text}
use adonisjs_audit_trail.Common.Dict.{Dict, lookup, insert, erase}
use adonisjs_audit_trail.Errors.{Result, ok, err, ◌>>=◌, type_error}
use adonisjs_audit_trail.Json.{Fields}
use adonisjs_audit_trail.Types.{AuditEvent, Payload, OverflowStrategy, drop_oldest, drop_new, block}
pub mod Coupled
pub mod Retry
pub mod Flushing
pub mod Machine
pub mod Ring
pub mod Queue
pub mod Totals
pub mod Keeping
pub mod Accounting
pub mod Batches

pub record PipelineConfig : Type 0 where
  pub max_batch_size : ℕ
  pub capacity : ℕ
  pub overflow : OverflowStrategy

-- A slot of the buffer; `none` is `undefined`.
abbrev pub Slot : Type 0
Slot = Option AuditEvent

-- `#activeFlush`: a batch of so many events whose groups are still to be written, by store name, or a
-- flush that has ended, or threw, and whose `#completeFlush` has not run.
pub data Flush : Type 0 where
  writing : Dict (List AuditEvent) → ℕ → Flush
  finished : Flush

-- `coupled` maps an event id to the number of the call of `requestCoupledFlush` that waits for it;
-- `calls` has the ids of each call that is neither resolved nor rejected.
pub record Pipeline : Type 0 where
  pub buffer : List Slot
  pub head : ℕ
  pub tail : ℕ
  pub size : ℕ
  pub active : Option Flush
  pub accepting : Bool
  pub waiters : ℕ
  pub queued : ℕ
  pub written : ℕ
  pub dropped : ℕ
  pub retried : ℕ
  pub dead_lettered : ℕ
  pub coupled : Dict ℕ
  pub calls : List (ℕ × List Text)
  pub next_call : ℕ

pub data Effect : Type 0 where
  drops : Slot → Effect
  dead_letters : List Slot → Effect
  delivers : Text → List AuditEvent → Effect
  resolves : ℕ → Effect
  times_out : ℕ → Effect

pub data Outcome : Type 0 where
  accepted refused waits : Outcome

unfoldable pub init : PipelineConfig → Pipeline
init c = record {
  buffer = replicate c.capacity none;
  head = 0;
  tail = 0;
  size = 0;
  active = none;
  accepting = true;
  waiters = 0;
  queued = 0;
  written = 0;
  dropped = 0;
  retried = 0;
  dead_lettered = 0;
  coupled = [];
  calls = [];
  next_call = 0;
}

-- `this.#buffer[i]`, which is `undefined` on an empty slot and out of range.
abbrev pub slot_at : List Slot → ℕ → Slot
slot_at buffer i = elim (get_elem? buffer i) [ none ↦ none | some s ↦ s ]

-- `#wakeCapacityWaiters`
abbrev pub wake_capacity_waiters : Pipeline → Pipeline
wake_capacity_waiters p = record p { waiters = 0 }

-- The loop of `#peekBuffer` from `i`, with the rounds left.
unfoldable pub peek_from : ℕ → List Slot → ℕ → ℕ → ℕ → List Slot
peek_from capacity buffer head i zero = []
peek_from capacity buffer head i (suc n) =
    slot_at buffer ((head + i) % capacity) ∷ peek_from capacity buffer head (i + 1) n

module _ (c : PipelineConfig) where
  unfoldable pub peek_buffer : Pipeline → List Slot
  peek_buffer p = peek_from c.capacity p.buffer p.head 0 (min p.size c.max_batch_size)

  -- One round of `#removeBuffered`. The source does not test the size: where it would leave it below 0,
  -- here it stays 0.
  unfoldable pub remove_one : Pipeline → Pipeline
  remove_one p = record p {
    buffer = set p.buffer p.head none;
    head = (p.head + 1) % c.capacity;
    size = p.size - 1;
  }

  unfoldable pub remove_rounds : ℕ → Pipeline → Pipeline
  unfolding remove_one
  remove_rounds zero p = p
  remove_rounds (suc n) p = remove_rounds n (remove_one p)

  unfoldable pub remove_buffered : ℕ → Pipeline → Pipeline
  unfolding remove_rounds
  remove_buffered n p = wake_capacity_waiters (remove_rounds n p)

  unfoldable pub drain_buffer : Pipeline → List Slot × Pipeline
  unfolding peek_buffer remove_buffered
  drain_buffer p = let batch = peek_buffer p in (batch, remove_buffered (length batch) p)

  unfoldable pub drop_oldest_event : Pipeline → Slot × Pipeline
  drop_oldest_event p = (
    slot_at p.buffer p.head,
    record p {
      buffer = set p.buffer p.head none;
      head = (p.head + 1) % c.capacity;
      size = p.size - 1;
      dropped = p.dropped + 1;
      waiters = 0;
    },
  )

  -- `#handleOverflow` under a strategy: whether the new event may be stored.
  unfoldable pub handle_overflow :
      OverflowStrategy → AuditEvent → Pipeline → Bool × Pipeline × List Effect
  unfolding drop_oldest_event
  handle_overflow drop_new event p =
      (false, record p { dropped = p.dropped + 1 }, drops (some event) ∷ [])
  handle_overflow drop_oldest event p =
      let (old, q) = drop_oldest_event p in (true, q, drops old ∷ [])
  handle_overflow block event p = (false, p, [])
