-- ===== src/Outbox/Drain.antt =====
-- src/core/outbox_drainer.ts: `drain`, `requeue` and `stats`.
use adonisjs_audit_trail.Common.{
  ◌-◌, length, ℕ, suc, ◌+◌, Bool, true, false, Option, none, some, List, [], ◌∷◌, ◌++◌,
  if◌then◌else◌, leb, ◌==◌, take,
}
use adonisjs_audit_trail.Common.Text.{Text}
use adonisjs_audit_trail.Errors.{Result, ok, err, AuditError}
use adonisjs_audit_trail.Json.{Value}
use adonisjs_audit_trail.Outbox.{
  OutboxOptions, OutboxRow, Table, due, claim, ack, fail, gives_up, attempts_of, requeue_row,
  is_failed, is_pending,
}
use adonisjs_audit_trail.Outbox.Payload.{normalize_payload}

-- What the poison handler is told of a row: its identifier, its attempts and the error's message.
pub record Poison : Type 0 where
  pub row_id : Text
  pub payload : Value
  pub attempts : ℕ
  pub error : Text

-- The clock while a row is handled: at the claim and at the end.
pub record Clock : Type 0 where
  pub claims : ℕ
  pub ends : ℕ

abbrev pub select : (OutboxRow → Bool) → Table → Table
select where_ [] = []
select where_ (r ∷ rs) = let rest = select where_ rs in if where_ r then r ∷ rest else rest

-- `ORDER BY … ASC` on a key; rows with one key stay in the table's order.
abbrev pub insert_by : (OutboxRow → ℕ) → OutboxRow → Table → Table
insert_by key r [] = r ∷ []
insert_by key r (s ∷ rs) = if leb (key r) (key s) then r ∷ s ∷ rs else s ∷ insert_by key r rs

abbrev pub order_by : (OutboxRow → ℕ) → Table → Table
order_by key [] = []
order_by key (r ∷ rs) = insert_by key r (order_by key rs)

-- `parse` is `JSON.parse`; `deliver` writes the events to the store and notifies the observers, with the
-- message of the error where one of the two fails; `message` is the message of an error of the package.
module _ (c : OutboxOptions) (parse : Text → Option Value) (deliver : List Value → Option Text)
    (message : AuditError → Text) where
  abbrev pub poison_of : OutboxRow → ℕ → Text → Bool → List Poison
  poison_of row attempts reason false = []
  poison_of row attempts reason true =
      record { row_id = row.id; payload = row.payload; attempts = attempts; error = reason } ∷ []

  -- The end of a round: an acknowledged row, or a failed one.
  unfoldable pub finish_row :
      OutboxRow → ℕ → ℕ → Result (List Value) → Table → Table × ℕ × List Poison
  unfolding ack fail
  finish_row row attempts now (err e) t = (
    fail c row.id attempts (message e) true now t,
    0,
    poison_of row attempts (message e) (gives_up c attempts true),
  )
  finish_row row attempts now (ok events) t = elim (deliver events) [
    | none ↦ (ack c row.id now t, 1, [])
    | some reason ↦ (
      fail c row.id attempts reason false now t,
      0,
      poison_of row attempts reason (gives_up c attempts false),
    )
  ]

  -- A round of the loop of `drain`.
  unfoldable pub drain_row : Clock → OutboxRow → Table → Table × ℕ × List Poison
  unfolding claim normalize_payload
  drain_row clock row t =
      let attempts = attempts_of row + 1 in
      let (claimed, affected) = claim c row.id clock.claims attempts t in
      if affected == 0
      then (claimed, 0, [])
      else finish_row row attempts clock.ends (normalize_payload parse row.payload) claimed

  unfoldable pub drain_rows : (ℕ → Clock) → Table → Table → Table × ℕ × List Poison
  drain_rows clocks [] t = (t, 0, [])
  drain_rows clocks (row ∷ rows) t =
      let (u, n, poisons) = drain_row (clocks 0) row t in
      let (v, m, more) = drain_rows (λ k. clocks (suc k)) rows u in (v, n + m, poisons ++ more)

  -- `none` is an outbox without its table.
  unfoldable pub drain : ℕ → ℕ → (ℕ → Clock) → Option Table → Option Table × ℕ × List Poison
  drain limit now clocks none = (none, 0, [])
  drain limit now clocks (some t) =
      let rows =
        take limit (order_by (λ r. r.available_at) (select (due c.stale_claim_ms now) t)) in
      let (u, n, poisons) = drain_rows clocks rows t in (some u, n, poisons)

-- A round of `requeue`, and its loop.
unfoldable pub requeue_rows : (ℕ → ℕ) → Table → Table → Table × ℕ
unfolding requeue_row
requeue_rows times [] t = (t, 0)
requeue_rows times (row ∷ rows) t =
    let (u, changed) = requeue_row row.id (times 0) t in
    let (v, m) = requeue_rows (λ k. times (suc k)) rows u in
    (v, (if changed == 0 then 0 else 1) + m)

abbrev pub failed_time : OutboxRow → ℕ
failed_time r = elim r.failed_at [ none ↦ 0 | some t ↦ t ]

unfoldable pub requeue : ℕ → (ℕ → ℕ) → Option Table → Option Table × ℕ
requeue limit times none = (none, 0)
requeue limit times (some t) =
    let rows = take limit (order_by failed_time (select (λ r. is_failed r.status) t)) in
    let (u, n) = requeue_rows times rows t in (some u, n)

pub record OutboxMetrics : Type 0 where
  pub pending_rows : ℕ
  pub failed_rows : ℕ
  pub oldest_pending_age_ms : Option ℕ
  pub total_attempts : ℕ

abbrev pub sum_attempts : Table → ℕ
sum_attempts [] = 0
sum_attempts (r ∷ rs) = attempts_of r + sum_attempts rs

abbrev pub age_of : ℕ → Table → Option ℕ
age_of now [] = none
age_of now (r ∷ rs) = some (now - r.available_at)

unfoldable pub outbox_stats : ℕ → Option Table → OutboxMetrics
outbox_stats now none = record {
  pending_rows = 0;
  failed_rows = 0;
  oldest_pending_age_ms = none;
  total_attempts = 0;
}
outbox_stats now (some t) =
    let pending_rows = select (λ r. is_pending r.status) t in
    record {
      pending_rows = length pending_rows;
      failed_rows = length (select (λ r. is_failed r.status) t);
      oldest_pending_age_ms = age_of now (order_by (λ r. r.available_at) pending_rows);
      total_attempts = sum_attempts t;
    }
