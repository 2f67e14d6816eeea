-- ===== src/Outbox.antt =====
-- src/core/outbox_drainer.ts: the outbox table and the worker that drains it. The database is taken at the
-- meaning of its statements on a table of rows; the source's connection and executor run them as they are.
pub mod Payload
pub mod Drain
pub mod Counting
pub mod Valid
pub mod Progress
pub mod Delivery
pub mod Requeue
use adonisjs_audit_trail.Common.{
  ℕ, zero, suc, ◌+◌, ◌-◌, Bool, true, false, ◌&&◌, ◌||◌, Option, none, some, List, [], ◌∷◌,
  if◌then◌else◌, leb, ltb, take,
}
use adonisjs_audit_trail.Common.Text.{Text, text_eq}
use adonisjs_audit_trail.Json.{Value}

pub data OutboxStatus : Type 0 where
  pending processing processed failed : OutboxStatus

-- Times are in milliseconds; a column that may be null is an option.
pub record OutboxRow : Type 0 where
  pub id : Text
  pub payload : Value
  pub tenant_id : Option Text
  pub status : OutboxStatus
  pub attempts : Option ℕ
  pub available_at : ℕ
  pub claimed_at : Option ℕ
  pub processed_at : Option ℕ
  pub failed_at : Option ℕ
  pub updated_at : Option ℕ
  pub last_error : Option Text

-- The options that the constructor resolves.
pub record OutboxOptions : Type 0 where
  pub stale_claim_ms : ℕ
  pub attempt_limit : ℕ
  pub retry_delay_ms : ℕ

abbrev pub Table : Type 0
Table = List OutboxRow

-- `UPDATE … SET … WHERE …`, with the number of affected rows.
unfoldable pub update : (OutboxRow → Bool) → (OutboxRow → OutboxRow) → Table → Table × ℕ
update where_ change [] = ([], 0)
update where_ change (r ∷ rs) =
    let (rest, n) = update where_ change rs in
    if where_ r then (change r ∷ rest, n + 1) else (r ∷ rest, n)

abbrev pub is_pending : OutboxStatus → Bool
is_pending pending = true
is_pending _ = false

abbrev pub is_processing : OutboxStatus → Bool
is_processing processing = true
is_processing _ = false

abbrev pub is_processed : OutboxStatus → Bool
is_processed processed = true
is_processed _ = false

abbrev pub is_failed : OutboxStatus → Bool
is_failed failed = true
is_failed _ = false

-- `column < time`, which does not hold of NULL.
abbrev pub before : Option ℕ → ℕ → Bool
before none time = false
before (some t) time = ltb t time

-- The condition of `drain` and `#claim` on a row at a time.
abbrev pub due : ℕ → ℕ → OutboxRow → Bool
due stale_claim_ms now r =
    (is_pending r.status && leb r.available_at now)
    || (is_processing r.status && before r.claimed_at (now - stale_claim_ms))

abbrev pub has_id : Text → OutboxRow → Bool
has_id id r = text_eq r.id id

abbrev pub attempts_of : OutboxRow → ℕ
attempts_of r = elim r.attempts [ none ↦ 0 | some n ↦ n ]

-- The rows that `#ack` and `#fail` update.
abbrev pub held : Text → OutboxRow → Bool
held id r = has_id id r && is_processing r.status

abbrev pub claim_row : ℕ → ℕ → OutboxRow → OutboxRow
claim_row claimed_at attempts r = record r {
  status = processing;
  attempts = some attempts;
  claimed_at = some claimed_at;
  updated_at = some claimed_at;
}

abbrev pub ack_row : ℕ → OutboxRow → OutboxRow
ack_row processed_at r = record r {
  status = processed;
  processed_at = some processed_at;
  updated_at = some processed_at;
  last_error = none;
}

module _ (c : OutboxOptions) where
  abbrev pub claimable : Text → ℕ → OutboxRow → Bool
  claimable id now r = has_id id r && due c.stale_claim_ms now r

  unfoldable pub claim : Text → ℕ → ℕ → Table → Table × ℕ
  unfolding update
  claim id claimed_at attempts t =
      update (claimable id claimed_at) (claim_row claimed_at attempts) t

  unfoldable pub ack : Text → ℕ → Table → Table
  unfolding update
  ack id processed_at t = (update (held id) (ack_row processed_at) t).0

  -- What `#fail` sets on a row that has failed for good, and on one that is to be tried again.
  abbrev pub fail_row : Bool → ℕ → Text → OutboxRow → OutboxRow
  fail_row true now message r = record r {
    status = failed;
    failed_at = some now;
    last_error = some message;
    updated_at = some now;
  }
  fail_row false now message r = record r {
    status = pending;
    available_at = now + c.retry_delay_ms;
    claimed_at = none;
    last_error = some message;
    updated_at = some now;
  }

  -- `#fail` on the table; whether the row is reported as poison is its `gives_up`.
  abbrev pub gives_up : ℕ → Bool → Bool
  gives_up attempts terminal = terminal || leb c.attempt_limit attempts

  unfoldable pub fail : Text → ℕ → Text → Bool → ℕ → Table → Table
  unfolding update
  fail id attempts message terminal now t =
      (update (held id) (fail_row (gives_up attempts terminal) now message) t).0

-- The update of `requeue` on one of the failed rows.
abbrev pub stuck : Text → OutboxRow → Bool
stuck id r = has_id id r && is_failed r.status

abbrev pub requeued_row : ℕ → OutboxRow → OutboxRow
requeued_row now r = record r {
  status = pending;
  attempts = some 0;
  available_at = now;
  claimed_at = none;
  failed_at = none;
  last_error = none;
  updated_at = some now;
}

unfoldable pub requeue_row : Text → ℕ → Table → Table × ℕ
unfolding update
requeue_row id now t = update (stuck id) (requeued_row now) t
