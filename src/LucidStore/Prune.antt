-- ===== src/LucidStore/Prune.antt =====
-- src/stores/lucid_store.ts: `prune`. `cutoff` maps a duration to `new Date(now - duration).toISOString()`, which
-- throws where there is no such date, `iso` is `toIsoString` of a column, `streams_of` the streams of the table in the
-- order that the database lists them, and `lock` and `maintenance` are the outcomes of the advisory lock and of
-- the maintenance operation on a stream. Other statements of the database succeed.
use adonisjs_audit_trail.Common.{
  ℕ, ◌+◌, Bool, false, ◌&&◌, ◌||◌, not, Option, none, some, List, [], ◌∷◌, ◌++◌, if◌then◌else◌,
  ◌==◌, last?, length,
}
use adonisjs_audit_trail.Common.Text.{Text, text_eq, text_lt}
use adonisjs_audit_trail.Common.Dict.{Dict}
use adonisjs_audit_trail.Errors.{Result, ok, err, ◌>>=◌, plain_error}
use adonisjs_audit_trail.Types.{ChainedAuditEvent}
use adonisjs_audit_trail.Retention.{
  RetentionPolicy, PruneReport, duration_of, parse_duration, passes_filter, segment_of, run_archive,
  add_count,
}
use adonisjs_audit_trail.LucidStore.{Audits, find_row}
use adonisjs_audit_trail.LucidStore.Rows.{stream_rows}
use adonisjs_audit_trail.LucidStore.Query.{SequenceHash, one_of}
use adonisjs_audit_trail.LucidStore.Verify.{columns}

-- A row of `audit_archive_events`.
pub record ArchivedEvent : Type 0 where
  pub id : Text
  pub stream : Text
  pub seq : ℕ
  pub hash : Text
  pub prev_hash : Text
  pub created_at : Text

-- The three tables. A checkpoint's `created_at` is never read and not kept.
pub record Database : Type 0 where
  pub audits : Audits
  pub archive : List ArchivedEvent
  pub checkpoints : List SequenceHash

pub record Counts : Type 0 where
  pub streams : List Text
  pub total_pruned : ℕ
  pub per_event : Dict ℕ

abbrev pub archived_event : ChainedAuditEvent → ArchivedEvent
archived_event r = record {
  id = r.id;
  stream = r.stream;
  seq = r.seq;
  hash = r.hash;
  prev_hash = r.prev_hash;
  created_at = r.created_at;
}

-- `rows.slice(0, -1)`
abbrev pub all_but_last : Audits → Audits
all_but_last [] = []
all_but_last (r ∷ []) = []
all_but_last (r ∷ s ∷ rows) = r ∷ all_but_last (s ∷ rows)

abbrev pub row_ids : Audits → List Text
row_ids [] = []
row_ids (r ∷ rs) = r.id ∷ row_ids rs

-- `whereIn('id', ids).delete()`
abbrev pub without : List Text → Audits → Audits
without ids [] = []
without ids (r ∷ rs) = let rest = without ids rs in if one_of ids r.id then rest else r ∷ rest

abbrev pub archived_among : List Text → List ArchivedEvent → List ArchivedEvent
archived_among ids [] = []
archived_among ids (x ∷ xs) =
    let rest = archived_among ids xs in if one_of ids x.id then x ∷ rest else rest

abbrev pub same_source : ArchivedEvent → Option ChainedAuditEvent → Bool
same_source a none = false
same_source a (some r) =
    text_eq r.stream a.stream
    && (r.seq == a.seq)
    && text_eq r.hash a.hash
    && text_eq r.prev_hash a.prev_hash

-- The loop that compares the archived rows with the live ones.
unfoldable pub check_archived : Audits → List ArchivedEvent → Result (Unit {0})
unfolding find_row
check_archived candidates [] = ok tt
check_archived candidates (x ∷ xs) =
    let rest = check_archived candidates xs in
    if same_source x (find_row x.id candidates) then rest else err plain_error

-- `new Set(archivedRows.map((row) => row.id))`
abbrev pub id_set : List ArchivedEvent → List Text
id_set [] = []
id_set (x ∷ xs) = let rest = id_set xs in if one_of rest x.id then rest else x.id ∷ rest

abbrev pub missing_rows : List Text → Audits → List ArchivedEvent
missing_rows archived [] = []
missing_rows archived (r ∷ rs) =
    let rest = missing_rows archived rs in
    if one_of archived r.id then rest else archived_event r ∷ rest

module _ (cutoff : ℕ → Result Text) (iso : Text → Text) (policy : RetentionPolicy) where
  -- The rows up to the first that has another event or is too young.
  unfoldable pub take_candidates : Text → Audits → Result Audits
  take_candidates event [] = ok []
  take_candidates event (row ∷ rows) =
      let rest = take_candidates event rows in
      if not (text_eq row.event event) || not (passes_filter policy.event_filter row.event)
      then ok []
      else (do
        duration ← parse_duration (duration_of policy row.event)
        limit ← cutoff duration
        if text_lt (iso row.created_at) limit then (do more ← rest; ok (row ∷ more)) else ok [])

  -- `policy.archive` and the copies of the rows that are not archived yet.
  unfoldable pub archive_rows :
      Text
      → ChainedAuditEvent
      → ChainedAuditEvent
      → Audits
      → List ArchivedEvent
      → Result (List ArchivedEvent)
  unfolding check_archived
  archive_rows stream from to candidates archive = do
    let found = archived_among (row_ids candidates) archive
    same ← check_archived candidates found
    if length (id_set found) == length (row_ids candidates) then ok archive else (do
      called ← run_archive policy.archive (segment_of from.event stream (length candidates) from to)
      ok (archive ++ missing_rows (id_set found) candidates))

  -- The transaction: what it deletes and inserts, where neither the lock nor the maintenance throws.
  abbrev pub delete_rows : ChainedAuditEvent → Audits → Database → Database
  delete_rows to candidates db = record db {
    audits = without (row_ids candidates) db.audits;
    checkpoints = columns to ∷ db.checkpoints;
  }

  abbrev pub count_rows : Text → Text → Audits → Counts → Counts
  count_rows stream event candidates acc = record {
    streams = if one_of acc.streams stream then acc.streams else acc.streams ++ stream ∷ [];
    total_pruned = acc.total_pruned + length candidates;
    per_event = add_count event (length candidates) acc.per_event;
  }

  module _ (lock : Text → Result (Unit {0})) (maintenance : Option (Text → Result (Unit {0}))) where
    abbrev pub in_transaction :
        Text
        → ChainedAuditEvent
        → Audits
        → Database
        → Result (Unit {0})
        → Database × Result (Unit {0})
    in_transaction stream to candidates db (err e) = (db, err e)
    in_transaction stream to candidates db (ok t) = (delete_rows to candidates db, ok tt)

    abbrev pub remove_rows :
        Text
        → ChainedAuditEvent
        → Audits
        → (Text → Result (Unit {0}))
        → Database
        → Result (List ArchivedEvent)
        → Database × Result (Unit {0})
    remove_rows stream to candidates maintain db (err e) = (db, err e)
    remove_rows stream to candidates maintain db (ok archive) =
        in_transaction stream to candidates (record db { archive = archive })
          (lock stream >>= λ t. maintain stream)

    -- The candidates, the first and the last of them, archived and removed.
    abbrev pub prune_candidates :
        Text
        → ChainedAuditEvent
        → ChainedAuditEvent
        → Audits
        → Option (Text → Result (Unit {0}))
        → Database
        → Database × Result (Unit {0})
    prune_candidates stream from to candidates none db = (db, err plain_error)
    prune_candidates stream from to candidates (some maintain) db =
        remove_rows stream to candidates maintain db
          (archive_rows stream from to candidates db.archive)

    abbrev pub counted :
        Text → Text → Audits → Counts → Database × Result (Unit {0}) → Database × Result Counts
    counted stream event candidates acc (db, outcome) =
        (db, outcome >>= λ t. ok (count_rows stream event candidates acc))

    abbrev pub prune_found :
        Text → Text → Counts → Database → Result Audits → Database × Result Counts
    prune_found stream event acc db (err e) = (db, err e)
    prune_found stream event acc db (ok []) = (db, ok acc)
    prune_found stream event acc db (ok (from ∷ more)) =
        if policy.dry_run
        then (db, ok (count_rows stream event (from ∷ more) acc))
        else (elim (last? (from ∷ more)) [
          | none ↦ (db, ok acc)
          | some to ↦
              counted stream event (from ∷ more) acc
                (prune_candidates stream from to (from ∷ more) maintenance db)
        ])

    abbrev pub prune_rows : Text → Audits → Counts → Database → Database × Result Counts
    prune_rows stream [] acc db = (db, ok acc)
    prune_rows stream (first ∷ []) acc db = (db, ok acc)
    prune_rows stream (first ∷ second ∷ rows) acc db =
        if passes_filter policy.event_filter first.event
        then prune_found stream first.event acc db
            (take_candidates first.event (all_but_last (first ∷ second ∷ rows)))
        else (db, ok acc)

    -- The loop over the streams. Where one throws, those before it stay pruned.
    unfoldable pub prune_streams : List Text → Counts → Database → Database × Result Counts
    unfolding take_candidates archive_rows
    prune_streams [] acc db = (db, ok acc)
    prune_streams (stream ∷ streams) acc db =
        let (next, outcome) = prune_rows stream (stream_rows stream db.audits) acc db in
        elim outcome [ err e ↦ (next, err e) | ok acc' ↦ prune_streams streams acc' next ]

    unfoldable pub prune : (Audits → List Text) → Database → Database × Result PruneReport
    unfolding prune_streams
    prune streams_of db =
        let (next, outcome) =
          prune_streams (streams_of db.audits)
            (record { streams = []; total_pruned = 0; per_event = [] }) db in
        (
          next,
          do
            acc ← outcome
            ok (record {
              streams = acc.streams;
              total_pruned = acc.total_pruned;
              pruned_events = acc.per_event;
            }),
        )
