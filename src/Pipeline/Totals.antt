-- ===== src/Pipeline/Totals.antt =====
-- What grouping, writing and removing do to the counts of a pipeline.
use adonisjs_audit_trail.Common.{
  ℕ, zero, suc, ◌+◌, ◌-◌, ◌<◌, min, ◌≡◌, refl, ap, ◌∙◌, Bool, true, false, Option, none, some, List,
  [], ◌∷◌, ◌++◌, inl, inr, arith, length, length-append, Bool-cases, Option-cases, if◌then◌else◌,
  leb,
}
use adonisjs_audit_trail.Common.Text.{Text}
use adonisjs_audit_trail.Common.Dict.{Dict, lookup, insert}
use adonisjs_audit_trail.Errors.{Result, ok, Result-cases, ok-injective, ok-ne-err}
use adonisjs_audit_trail.Types.{AuditEvent}
use adonisjs_audit_trail.Pipeline.{
  PipelineConfig, Slot, Flush, writing, finished, Pipeline, peek_from, peek_buffer, remove_one,
  remove_rounds,
}
use adonisjs_audit_trail.Pipeline.Coupled.{cleanup, collect_calls, resolve_each, resolve_coupled}
use adonisjs_audit_trail.Pipeline.Retry.{max_attempts, write_rounds, write_with_retry}
use adonisjs_audit_trail.Pipeline.Flushing.{add_to_group, group_by_store}

-- The events in the groups that a flush has still to write.
abbrev pub total : Dict (List AuditEvent) → ℕ
total [] = 0
total ((name, events) ∷ groups) = length events + total groups

abbrev pub batch_of : Option Flush → ℕ
batch_of none = 0
batch_of (some finished) = 0
batch_of (some (writing groups n)) = n

abbrev pub left_of : Option Flush → ℕ
left_of none = 0
left_of (some finished) = 0
left_of (some (writing groups n)) = total groups

pub length-peek_from : (c : ℕ) (b : List Slot) (h i n : ℕ) → length (peek_from c b h i n) ≡ n
unfolding peek_from
length-peek_from c b h i zero = refl
length-peek_from c b h i (suc n) = ap suc (length-peek_from c b h (i + 1) n)

pub total-insert_new :
    (name : Text) (events : List AuditEvent) (groups : Dict (List AuditEvent))
    → lookup name groups ≡ none
    → total (insert name events groups) ≡ length events + total groups
unfolding lookup insert
total-insert_new name events [] h = omega arith
total-insert_new name events ((k, v) ∷ groups) h =
    ground (arith, total-insert_new name events groups)

pub total-insert_old :
    (name : Text) (old events : List AuditEvent) (groups : Dict (List AuditEvent))
    → lookup name groups ≡ some old
    → total (insert name events groups) + length old ≡ length events + total groups
unfolding lookup insert
total-insert_old name old events [] h = cc
total-insert_old name old events ((k, v) ∷ groups) h =
    ground (arith, total-insert_old name old events groups)

pub total-add_to_group :
    (event : AuditEvent) (name : Text) (groups : Dict (List AuditEvent))
    → total (add_to_group event name groups) ≡ total groups + 1
unfolding add_to_group
total-add_to_group event name groups = elim (Option-cases (lookup name groups)) [
  | inl e ↦ rw (e, add_to_group) (omega (arith, total-insert_new name (event ∷ []) groups e))
  | inr (old, e) ↦
      rw (e, add_to_group)
        (omega (
          arith,
          total-insert_old name old (old ++ event ∷ []) groups e,
          length-append {0} old (event ∷ []),
        ))
]

-- Grouping a batch keeps every event of it.
pub total-group_by_store :
    (c : PipelineConfig) (route : AuditEvent → Result Text) (batch : List Slot)
    (groups : Dict (List AuditEvent)) {done : Dict (List AuditEvent)}
    → group_by_store c route batch groups ≡ ok done
    → total done ≡ total groups + length batch
unfolding group_by_store
total-group_by_store c route [] groups h = omega (arith, ap total (ok-injective h))
total-group_by_store c route (none ∷ batch) groups h = cc
total-group_by_store c route (some event ∷ batch) groups h = elim (Result-cases (route event)) [
  | inr (x, e) ↦ absurd (ok-ne-err (rw e at h))
  | inl (name, e) ↦ omega (
    arith,
    total-group_by_store c route batch (add_to_group event name groups) (rw e at h),
    total-add_to_group event name groups,
  )
]

-- What the writes and the resolved calls leave as it is, and the sum that a write of `n` events raises.
pub record Wrote (n : ℕ) (p q : Pipeline) : Type 0 where
  pub size : q.size ≡ p.size
  pub active : q.active ≡ p.active
  pub queued : q.queued ≡ p.queued
  pub sum : q.written + q.dead_lettered ≡ p.written + p.dead_lettered + n

pub resolve_each-Wrote : (calls : List ℕ) (p : Pipeline) → Wrote 0 p (resolve_each calls p).0
unfolding resolve_each
resolve_each-Wrote [] p = record { size = refl; active = refl; queued = refl; sum = omega arith }
resolve_each-Wrote (call ∷ calls) p =
    let w = resolve_each-Wrote calls (cleanup call p) in
    record { size = w.size; active = w.active; queued = w.queued; sum = w.sum }

pub resolve_coupled-Wrote : (ids : List Text) (p : Pipeline) → Wrote 0 p (resolve_coupled ids p).0
unfolding resolve_coupled
resolve_coupled-Wrote ids p =
    let (calls, m) = collect_calls ids p.coupled [] in
    let w = resolve_each-Wrote calls (record p { coupled = m }) in
    record { size = w.size; active = w.active; queued = w.queued; sum = w.sum }

pub write_rounds-Wrote :
    (n attempts : ℕ) (accepts : ℕ → Bool) (name : Text) (batch : List AuditEvent) (p : Pipeline)
    → 0 < n
    → n + attempts ≡ max_attempts
    → Wrote (length batch) p (write_rounds n attempts accepts name batch p).1
unfolding write_rounds
write_rounds-Wrote zero attempts accepts name batch p pos e = absurd (omega arith)
write_rounds-Wrote (suc n) attempts accepts name batch p pos e =
    elim (Bool-cases (accepts attempts)) [
      | inl yes_ ↦
          rw (yes_, write_rounds)
            (record { size = refl; active = refl; queued = refl; sum = omega arith })
      | inr no_ ↦
          rw (no_, write_rounds)
            (elim (Bool-cases (leb max_attempts (attempts + 1))) [
              | inl last ↦
                  rw last (record { size = refl; active = refl; queued = refl; sum = omega arith })
              | inr more ↦
                  let q = record p { retried = p.retried + 1 } in
                  let w =
                    write_rounds-Wrote n (attempts + 1) accepts name batch q (ground arith)
                      (omega arith) in
                  rw more
                    (record { size = w.size; active = w.active; queued = w.queued; sum = w.sum })
            ])
    ]

pub write_with_retry-Wrote :
    (accepts : ℕ → Bool) (name : Text) (batch : List AuditEvent) (p : Pipeline)
    → Wrote (length batch) p (write_with_retry accepts name batch p).1
unfolding write_with_retry
write_with_retry-Wrote accepts name batch p =
    write_rounds-Wrote 5 0 accepts name batch p (omega arith) (omega arith)

-- Resolving the callers of a written group changes no count.
pub resolve-Wrote :
    (n : ℕ) (done : Bool) (ids : List Text) (p q : Pipeline)
    → Wrote n p q
    → Wrote n p (if done then resolve_coupled ids q else (q, [])).0
resolve-Wrote n false ids p q w = w
resolve-Wrote n true ids p q w =
    let u = resolve_coupled-Wrote ids q in
    record {
      size = u.size ∙ w.size;
      active = u.active ∙ w.active;
      queued = u.queued ∙ w.queued;
      sum = omega (arith, u.sum, w.sum);
    }

module _ (c : PipelineConfig) where
  -- Fields that the removal of `n` events leaves, and the size that it leaves.
  pub record Removed (n : ℕ) (p q : Pipeline) : Type 0 where
    pub size : q.size ≡ p.size - n
    pub active : q.active ≡ p.active
    pub queued : q.queued ≡ p.queued
    pub written : q.written ≡ p.written
    pub dead : q.dead_lettered ≡ p.dead_lettered

  pub remove_rounds-Removed : (n : ℕ) (p : Pipeline) → Removed n p (remove_rounds c n p)
  unfolding remove_rounds
  remove_rounds-Removed zero p = record {
    size = omega arith;
    active = refl;
    queued = refl;
    written = refl;
    dead = refl;
  }
  remove_rounds-Removed (suc n) p =
      let r = remove_rounds-Removed n (remove_one c p) in
      record {
        size = omega (arith, r.size);
        active = r.active;
        queued = r.queued;
        written = r.written;
        dead = r.dead;
      }

  pub length-peek_buffer : (p : Pipeline) → length (peek_buffer c p) ≡ min p.size c.max_batch_size
  unfolding peek_buffer
  length-peek_buffer p = length-peek_from c.capacity p.buffer p.head 0 _
