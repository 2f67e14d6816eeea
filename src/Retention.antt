-- ===== src/Retention.antt =====
-- src/core/retention.ts: `parseDuration`, and the retention policy of src/types.ts.
use adonisjs_audit_trail.Common.{
  ℕ, ◌+◌, ◌*◌, ◌-◌, Bool, true, ◌&&◌, ◌||◌, Option, none, some, List, [], ◌∷◌, ◌++◌, if◌then◌else◌,
  leb, ◌==◌,
}
use adonisjs_audit_trail.Common.Text.{Text, text, text_eq}
use adonisjs_audit_trail.Common.Dict.{Dict, lookup, insert}
use adonisjs_audit_trail.Types.{ChainedAuditEvent}
use adonisjs_audit_trail.HashChain.{or_else}
use adonisjs_audit_trail.Redactor.{index_text}
use adonisjs_audit_trail.Errors.{Result, ok, err, store}

abbrev pub is_digit : ℕ → Bool
is_digit c = leb 48 c && leb c 57

-- `\s` of a regular expression.
abbrev pub is_space : ℕ → Bool
is_space c =
    (leb 9 c && leb c 13)
    || (c == 32)
    || (c == 160)
    || (c == 5760)
    || (leb 8192 c && leb c 8202)
    || (c == 8232)
    || (c == 8233)
    || (c == 8239)
    || (c == 8287)
    || (c == 12288)
    || (c == 65279)

abbrev pub lower : ℕ → ℕ
lower c = if leb 65 c && leb c 90 then c + 32 else c

abbrev pub lower_text : Text → Text
lower_text [] = []
lower_text (c ∷ cs) = lower c ∷ lower_text cs

-- The leading digits as a number, and what follows them.
unfoldable pub read_digits : ℕ → Text → ℕ × Text
read_digits value [] = (value, [])
read_digits value (c ∷ cs) =
    let rest = read_digits (value * 10 + (c - 48)) cs in
    if is_digit c then rest else (value, c ∷ cs)

unfoldable pub skip_spaces : Text → Text
skip_spaces [] = []
skip_spaces (c ∷ cs) = let rest = skip_spaces cs in if is_space c then rest else c ∷ cs

abbrev pub day_ms : ℕ
day_ms = 24 * 60 * 60 * 1000

-- The days of a unit, in either of its spellings.
unfoldable pub unit_days : Text → Option ℕ
unit_days unit =
    if text_eq unit (text "day") || text_eq unit (text "days")
    then some 1
    else if text_eq unit (text "week") || text_eq unit (text "weeks")
    then some 7
    else if text_eq unit (text "month") || text_eq unit (text "months")
    then some 30
    else if text_eq unit (text "year") || text_eq unit (text "years")
    then some 365
    else none

abbrev pub duration_ms : ℕ → Option ℕ → Result ℕ
duration_ms value none = err store
duration_ms value (some days) = ok (value * days * day_ms)

abbrev pub parse_rest : ℕ × Text → Result ℕ
parse_rest (value, rest) = duration_ms value (unit_days (lower_text (skip_spaces rest)))

-- A duration begins with a digit. Values above 2^53 lose no precision here.
unfoldable pub parse_duration : Text → Result ℕ
unfolding read_digits skip_spaces unit_days
parse_duration [] = err store
parse_duration (c ∷ cs) = if is_digit c then parse_rest (read_digits 0 (c ∷ cs)) else err store

-- A stretch of rows that is pruned.
pub record RetentionSegment : Type 0 where
  pub idempotency_key : Text
  pub event : Text
  pub stream : Text
  pub from_seq : ℕ
  pub to_seq : ℕ
  pub count : ℕ
  pub from_created_at : Text
  pub to_created_at : Text

pub record RetentionPolicy : Type 0 where
  pub default_duration : Text
  pub per_event : Dict Text
  pub event_filter : Option Text
  pub dry_run : Bool
  pub archive : Option (RetentionSegment → Result (Unit {0}))

unfoldable pub duration_of : RetentionPolicy → Text → Text
unfolding lookup
duration_of policy event = elim (lookup event policy.per_event) [
  | some duration ↦ duration
  | none ↦ policy.default_duration
]

-- `policy.eventFilter === undefined || event === policy.eventFilter`
abbrev pub passes_filter : Option Text → Text → Bool
passes_filter none event = true
passes_filter (some name) event = text_eq event name

pub record PruneReport : Type 0 where
  pub streams : List Text
  pub total_pruned : ℕ
  pub pruned_events : Dict ℕ

-- `${stream}:${fromSeq}:${toSeq}` and the other fields, from the first and the last row.
unfoldable pub segment_of :
    Text → Text → ℕ → ChainedAuditEvent → ChainedAuditEvent → RetentionSegment
unfolding index_text
segment_of event stream count first last = record {
  idempotency_key = stream ++ text ":" ++ index_text first.seq ++ text ":" ++ index_text last.seq;
  event = event;
  stream = stream;
  from_seq = first.seq;
  to_seq = last.seq;
  count = count;
  from_created_at = first.created_at;
  to_created_at = last.created_at;
}

-- `perEvent[event] = (perEvent[event] ?? 0) + count`
abbrev pub add_count : Text → ℕ → Dict ℕ → Dict ℕ
add_count event count per_event =
    insert event (or_else (lookup event per_event) 0 + count) per_event

-- `policy.archive` on a segment, where the policy has it.
abbrev pub run_archive :
    Option (RetentionSegment → Result (Unit {0})) → RetentionSegment → Result (Unit {0})
run_archive none segment = ok tt
run_archive (some archive) segment = archive segment
