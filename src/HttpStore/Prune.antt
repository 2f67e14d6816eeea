-- ===== src/HttpStore/Prune.antt =====
-- src/stores/http_store.ts: `prune`. `cutoff` maps a duration to `new Date(now - duration).toISOString()`, which
-- throws where there is no such date; `archive` is the policy's function on a segment.
use adonisjs_audit_trail.Common.{
  ℕ, ◌+◌, Bool, ◌||◌, not, none, some, List, [], ◌∷◌, ◌++◌, if◌then◌else◌, ◌==◌, last?, length,
}
use adonisjs_audit_trail.Common.Text.{Text, text_lt}
use adonisjs_audit_trail.Common.Dict.{Dict}
use adonisjs_audit_trail.Errors.{Result, ok, err, ◌>>=◌}
use adonisjs_audit_trail.Types.{ChainedAuditEvent}
use adonisjs_audit_trail.HashChain.{or_else}
use adonisjs_audit_trail.Retention.{
  RetentionPolicy, PruneReport, duration_of, parse_duration, passes_filter, segment_of, run_archive,
  add_count,
}
use adonisjs_audit_trail.HttpStore.{HttpStore}

-- The rows of a stream that stay and that go, and the counts.
pub record Pruning : Type 0 where
  pub retained : List ChainedAuditEvent
  pub pruned : List ChainedAuditEvent
  pub total_pruned : ℕ
  pub per_event : Dict ℕ

abbrev pub retain_row : ChainedAuditEvent → Pruning → Pruning
retain_row row acc = record acc { retained = acc.retained ++ row ∷ [] }

abbrev pub prune_row : ChainedAuditEvent → Pruning → Pruning
prune_row row acc = record acc {
  pruned = acc.pruned ++ row ∷ [];
  total_pruned = acc.total_pruned + 1;
  per_event = add_count row.event 1 acc.per_event;
}

-- The counts so far, with no row of the next stream.
abbrev pub next_stream : Pruning → Pruning
next_stream acc = record acc { retained = []; pruned = [] }

module _ (cutoff : ℕ → Result Text) (policy : RetentionPolicy) where
  -- `!matchesFilter || isHead || row.createdAt >= cutoff`
  abbrev pub stays : ℕ → ChainedAuditEvent → Text → Bool
  stays head_seq row limit =
      not (passes_filter policy.event_filter row.event)
      || (row.seq == head_seq)
      || not (text_lt row.created_at limit)

  unfoldable pub split_rows : ℕ → List ChainedAuditEvent → Pruning → Result Pruning
  split_rows head_seq [] acc = ok acc
  split_rows head_seq (row ∷ rows) acc = do
    duration ← parse_duration (duration_of policy row.event)
    limit ← cutoff duration
    split_rows head_seq rows
        (if stays head_seq row limit then retain_row row acc else prune_row row acc)

  abbrev pub archive_pruned : Text → List ChainedAuditEvent → Result (Unit {0})
  archive_pruned stream [] = ok tt
  archive_pruned stream (first ∷ rest) =
      if policy.dry_run then ok tt else (elim (last? (first ∷ rest)) [
        | none ↦ ok tt
        | some last ↦ run_archive policy.archive (
            segment_of (or_else policy.event_filter first.event) stream (length (first ∷ rest))
              first last)
      ])

  abbrev pub prune_stream : Text → List ChainedAuditEvent → Pruning → Result Pruning
  prune_stream stream rows acc = elim (last? rows) [
    | none ↦ ok acc
    | some last ↦ do
      split ← split_rows last.seq rows (next_stream acc)
      archived ← archive_pruned stream split.pruned
      ok split
  ]

  abbrev pub keep_log : Text → List ChainedAuditEvent → Pruning → Dict (List ChainedAuditEvent)
  keep_log stream rows acc =
      if policy.dry_run then (stream, rows) ∷ [] else (stream, acc.retained) ∷ []

  -- The streams in the order of the map, with the streams seen and the counts so far. Where one throws, those
  -- before it stay pruned.
  unfoldable pub prune_logs :
      Dict (List ChainedAuditEvent)
      → List Text
      → Pruning
      → Dict (List ChainedAuditEvent) × Result PruneReport
  unfolding split_rows
  prune_logs [] streams acc = (
    [],
    ok (record {
      streams = streams;
      total_pruned = acc.total_pruned;
      pruned_events = acc.per_event;
    }),
  )
  prune_logs ((stream, []) ∷ logs) streams acc =
      let (rest, report) = prune_logs logs streams acc in ((stream, []) ∷ rest, report)
  prune_logs ((stream, row ∷ rows) ∷ logs) streams acc =
      elim (prune_stream stream (row ∷ rows) acc) [
        | err e ↦ ((stream, row ∷ rows) ∷ logs, err e)
        | ok split ↦
            let (rest, report) = prune_logs logs (streams ++ stream ∷ []) split in
            (keep_log stream (row ∷ rows) split ++ rest, report)
      ]

  unfoldable pub prune : HttpStore → HttpStore × Result PruneReport
  unfolding prune_logs
  prune st =
      let (logs, report) =
        prune_logs st.logs []
          (record { retained = []; pruned = []; total_pruned = 0; per_event = [] }) in
      (record st { logs = logs }, report)
