-- ===== src/LucidStore.antt =====
-- src/stores/lucid_store.ts: `write` and `head` on the audits table.
-- A row is the chained event that it reads back as: `reads` is what becomes of an event between its insertion
-- and a later read, through the JSON columns and the date column of the database. `iso` is `toISOString` of
-- the date that a text names, or the text itself where it names none. A statement of the database succeeds.
pub mod Groups
pub mod Verified
pub mod Rows
pub mod Query
pub mod Verify
pub mod Pages
pub mod Sealed
pub mod Prune
pub mod Deleting
pub mod Pruned
pub mod Retained
pub mod Filters
use adonisjs_audit_trail.Common.{
  ℕ, ◌+◌, Bool, true, false, ◌&&◌, not, Option, none, some, List, [], ◌∷◌, ◌++◌, map, if◌then◌else◌,
  leb,
}
use adonisjs_audit_trail.Common.Text.{Text, text, text_eq}
use adonisjs_audit_trail.Common.Dict.{Dict, lookup, insert}
use adonisjs_audit_trail.Errors.{Result, ok, err, ◌>>=◌, outbox_integrity}
use adonisjs_audit_trail.Json.{
  Value, Items, JsonText, same_text, null, str, arr, obj, nil, cons, end, field,
}
use adonisjs_audit_trail.Json.Canonical.{canonical_json}
use adonisjs_audit_trail.Types.{AuditEvent, ChainedAuditEvent, Head, nullable, payload}
use adonisjs_audit_trail.HashChain.{chain_batch}

abbrev pub Audits : Type 0
Audits = List ChainedAuditEvent

abbrev pub tag_items : List Text → Items
tag_items [] = nil
tag_items (t ∷ ts) = cons (str t) (tag_items ts)

-- `event.actor.label ?? null`
abbrev pub label_of : Option (Option Text) → Value
label_of none = null
label_of (some label) = nullable label

abbrev pub entry_of : Option ChainedAuditEvent → Option AuditEvent
entry_of none = none
entry_of (some row) = some row.entry

-- `existing.get(id)`: the row of the table with that identifier.
unfoldable pub find_row : Text → Audits → Option ChainedAuditEvent
find_row id [] = none
find_row id (r ∷ rs) = if text_eq r.id id then some r else find_row id rs

abbrev pub push :
    Text → AuditEvent → Option (List AuditEvent) → Dict (List AuditEvent) → Dict (List AuditEvent)
push stream event none groups = insert stream (event ∷ []) groups
push stream event (some events) groups = insert stream (events ++ event ∷ []) groups

abbrev pub push_event : AuditEvent → Dict (List AuditEvent) → Dict (List AuditEvent)
push_event event groups = push event.stream event (lookup event.stream groups) groups

-- The stored rows of the batch so far, by event id, and the new events by stream.
abbrev pub Sorted : Type 0
Sorted = Dict ChainedAuditEvent × Dict (List AuditEvent)

-- What a round does with an event that passed its checks: by the stored row and the duplicate, if any.
abbrev pub sort_event : AuditEvent → Option ChainedAuditEvent → Option AuditEvent → Sorted → Sorted
sort_event event (some row) duplicate (results, groups) = (insert event.id row results, groups)
sort_event event none (some duplicate) (results, groups) = (results, groups)
sort_event event none none (results, groups) = (results, push_event event groups)

module _ (iso : Text → Text) where
  unfoldable pub audit_event_fingerprint : AuditEvent → Result JsonText
  audit_event_fingerprint e = canonical_json (
      obj (
        field (text "id") (str e.id) (
          field (text "event") (str e.event) (
            field (text "stream") (str e.stream) (
              field (text "auditableType") (nullable e.auditable_type) (
                field (text "auditableId") (nullable e.auditable_id) (
                  field (text "oldValues") (payload e.old_values) (
                    field (text "newValues") (payload e.new_values) (
                      field (text "metadata") (payload e.metadata) (
                        field (text "actor")
                          (obj (
                            field (text "type") (str e.actor.type) (
                              field (text "id") (nullable e.actor.id)
                                (field (text "label") (label_of e.actor.label) end))))
                          (field (text "tenantId") (nullable e.tenant_id) (
                            field (text "requestId") (nullable e.request_id) (
                              field (text "correlationId") (nullable e.correlation_id) (
                                field (text "ipAddress") (nullable e.ip_address) (
                                  field (text "userAgent") (nullable e.user_agent) (
                                    field (text "url") (nullable e.url) (
                                      field (text "httpMethod") (nullable e.http_method) (
                                        field (text "tags") (arr (tag_items e.tags)) (
                                          field (text "schemaVersion") (str e.schema_version) (
                                            field (text "createdAt") (str (iso e.created_at))
                                              end))))))))))))))))))))

module _ (iso : Text → Text) where
  -- The guard of `write` on an event and another with its id, if there is one.
  unfoldable pub check_same : Option AuditEvent → AuditEvent → Result (Unit {0})
  unfolding audit_event_fingerprint
  check_same none event = ok tt
  check_same (some other) event = do
    a ← audit_event_fingerprint iso other
    b ← audit_event_fingerprint iso event
    if same_text a b then ok tt else err outbox_integrity

  -- The first loop of `write`.
  unfoldable pub sort_batch : Audits → List AuditEvent → Dict AuditEvent → Sorted → Result Sorted
  unfolding check_same find_row
  sort_batch t [] incoming sorted = ok sorted
  sort_batch t (event ∷ batch) incoming sorted = do
    first ← check_same (lookup event.id incoming) event
    second ← check_same (entry_of (find_row event.id t)) event
    sort_batch t batch (insert event.id event incoming)
        (sort_event event (find_row event.id t) (lookup event.id incoming) sorted)

-- `head`: the row of the stream with the highest number.
abbrev pub newer : ChainedAuditEvent → Option Head → Option Head
newer r none = some (record { seq = r.seq; hash = r.hash })
newer r (some h) = if leb r.seq h.seq then some h else some (record { seq = r.seq; hash = r.hash })

unfoldable pub head : Text → Audits → Option Head
head stream [] = none
head stream (r ∷ rs) =
    let best = head stream rs in if text_eq r.stream stream then newer r best else best

module _ (sha256 : JsonText → Text) (reads : AuditEvent → AuditEvent) where
  abbrev pub read_back : ChainedAuditEvent → ChainedAuditEvent
  read_back row = record {
    entry = reads row.entry;
    seq = row.seq;
    hash = row.hash;
    prev_hash = row.prev_hash;
  }

  -- `#writeStream`: the transaction leaves the table as it was where chaining throws.
  abbrev pub insert_rows : Audits → Result (List ChainedAuditEvent) → Audits
  insert_rows t (err e) = t
  insert_rows t (ok rows) = t ++ map read_back rows

  unfoldable pub write_stream :
      Text → List AuditEvent → Audits → Audits × Result (List ChainedAuditEvent)
  write_stream stream events t =
      let chained = chain_batch sha256 events (head stream t) in (insert_rows t chained, chained)

  abbrev pub set_results : List ChainedAuditEvent → Dict ChainedAuditEvent → Dict ChainedAuditEvent
  set_results [] results = results
  set_results (row ∷ rows) results = set_results rows (insert row.id row results)

  -- The second loop of `write`: a stream after the other, each in a transaction of its own.
  unfoldable pub write_streams :
      Dict (List AuditEvent)
      → Dict ChainedAuditEvent
      → Audits
      → Audits × Result (Dict ChainedAuditEvent)
  unfolding write_stream
  write_streams [] results t = (t, ok results)
  write_streams ((stream, events) ∷ groups) results t =
      let (u, outcome) = write_stream stream events t in
      elim outcome [
        | err e ↦ (u, err e)
        | ok rows ↦ write_streams groups (set_results rows results) u
      ]

  unfoldable pub collect_results :
      Dict ChainedAuditEvent → List AuditEvent → Result (List ChainedAuditEvent)
  collect_results results [] = ok []
  collect_results results (event ∷ batch) = elim (lookup event.id results) [
    | none ↦ err outbox_integrity
    | some row ↦ do rows ← collect_results results batch; ok (row ∷ rows)
  ]

  module _ (iso : Text → Text) where
    -- `write` after its first loop.
    abbrev pub write_sorted :
        List AuditEvent → Result Sorted → Audits → Audits × Result (List ChainedAuditEvent)
    write_sorted batch (err e) t = (t, err e)
    write_sorted batch (ok (stored, groups)) t =
        let (u, written) = write_streams groups stored t in
        (u, written >>= λ results. collect_results results batch)

    unfoldable pub write : List AuditEvent → Audits → Audits × Result (List ChainedAuditEvent)
    unfolding sort_batch write_streams collect_results head
    write [] t = (t, ok [])
    write (event ∷ batch) t =
        write_sorted (event ∷ batch) (sort_batch iso t (event ∷ batch) [] ([], [])) t
