-- ===== src/Tests/Worker.antt =====
-- Runs of src/core/outbox_drainer.ts.
use adonisjs_audit_trail.Common.{
  ◌+◌, ◌≡◌, ◌≢◌, refl, false, Option, none, some, List, [], ◌∷◌, All, ◌==◌, arith,
}
use adonisjs_audit_trail.Common.Text.{Text, text}
use adonisjs_audit_trail.Errors.{ok, error_code}
use adonisjs_audit_trail.Json.{Value, null, str, obj, arr, nil, end, field}
use adonisjs_audit_trail.Outbox.{failed, OutboxOptions, OutboxRow, pending, claim, held}
use adonisjs_audit_trail.Outbox.Payload.{normalize_payload, is_audit_event}
use adonisjs_audit_trail.Outbox.Drain.{requeue, Clock, drain, drain_row}
use adonisjs_audit_trail.Outbox.Counting.{count}
use adonisjs_audit_trail.Outbox.Progress.{Keyed, done}
use adonisjs_audit_trail.Outbox.Delivery.{rows_of, drain-count, drain_row-held, claim_excludes}
use adonisjs_audit_trail.Outbox.Requeue.{dead, open_, requeue-count}
use adonisjs_audit_trail.Outbox.Valid.{Parsed, Lists, IsEvent, normalize_payload-valid}

abbrev event_value : Value
event_value = obj (
    field (text "id") (str (text "a")) (
      field (text "event") (str (text "e")) (
        field (text "stream") (str (text "t")) (
          field (text "auditableType") null (
            field (text "auditableId") null (
              field (text "oldValues") null (
                field (text "newValues") null (
                  field (text "metadata") null (
                    field (text "actor")
                      (obj (field (text "type") (str (text "user")) (field (text "id") null end)))
                      (field (text "tenantId") null (
                        field (text "requestId") null (
                          field (text "correlationId") null (
                            field (text "ipAddress") null (
                              field (text "userAgent") null (
                                field (text "url") null (
                                  field (text "httpMethod") null (
                                    field (text "tags") (arr nil) (
                                      field (text "schemaVersion") (str (text "1")) (
                                        field (text "createdAt") (str (text "now"))
                                          end)))))))))))))))))))

abbrev waiting : OutboxRow
waiting = record {
  id = text "r";
  payload = event_value;
  tenant_id = none;
  status = pending;
  attempts = none;
  available_at = 5;
  claimed_at = none;
  processed_at = none;
  failed_at = none;
  updated_at = none;
  last_error = none;
}

abbrev options : OutboxOptions
options = record { stale_claim_ms = 300000; attempt_limit = 5; retry_delay_ms = 0 }

abbrev no_parse : Text → Option Value
no_parse t = none

abbrev takes_all : List Value → Option Text
takes_all vs = none

abbrev clock : Clock
clock = record { claims = 11; ends = 12 }

waiting-Keyed : Keyed (waiting ∷ [])
waiting-Keyed id = ground arith

drain-count_example :
    count done (
      rows_of
        (drain options no_parse takes_all error_code 100 10 (λ i. clock) (some (waiting ∷ []))).0)
    ≡ count done (waiting ∷ [])
      + (drain options no_parse takes_all error_code 100 10 (λ i. clock) (some (waiting ∷ []))).1
drain-count_example =
    drain-count options no_parse takes_all error_code 100 10 (λ i. clock) (waiting ∷ [])
      waiting-Keyed

claimed_once : ((claim options (text "r") 11 1 (waiting ∷ [])).1 == 0) ≡ false
unfolding claim
claimed_once = refl

drain_row-held_example :
    count
      (held (text "r"))
      (drain_row options no_parse takes_all error_code clock waiting (waiting ∷ [])).0
    ≡ 0
drain_row-held_example =
    drain_row-held options no_parse takes_all error_code clock waiting (waiting ∷ []) claimed_once

claim_excludes_example :
    (claim options (text "r") 300000 1 (claim options (text "r") 11 1 (waiting ∷ [])).0).1 ≡ 0
claim_excludes_example =
    claim_excludes options (text "r") 11 300000 1 1 (waiting ∷ []) waiting-Keyed claimed_once
      (omega arith)

event_value_passes : normalize_payload no_parse event_value ≡ ok (event_value ∷ [])
unfolding normalize_payload is_audit_event
event_value_passes = refl

normalize_payload-valid_example :
    (v : Value) × Parsed no_parse event_value v
    × Lists v (event_value ∷ [])
    × (event_value ∷ [] ≢ [])
    × All IsEvent (event_value ∷ [])
normalize_payload-valid_example =
    normalize_payload-valid no_parse event_value (event_value ∷ []) event_value_passes

abbrev given_up : OutboxRow
given_up = record waiting { status = failed; failed_at = some 9 }

given_up-Keyed : Keyed (given_up ∷ [])
given_up-Keyed id = ground arith

requeue-count_example :
    (count dead (rows_of (requeue 100 (λ i. 20) (some (given_up ∷ []))).0)
        + (requeue 100 (λ i. 20) (some (given_up ∷ []))).1
      ≡ count dead (given_up ∷ []))
    × (count open_ (rows_of (requeue 100 (λ i. 20) (some (given_up ∷ []))).0)
        ≡ count open_ (given_up ∷ []) + (requeue 100 (λ i. 20) (some (given_up ∷ []))).1)
requeue-count_example = requeue-count 100 (λ i. 20) (given_up ∷ []) given_up-Keyed
