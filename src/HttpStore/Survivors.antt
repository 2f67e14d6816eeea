-- ===== src/HttpStore/Survivors.antt =====
-- `prune` of the HTTP store: which rows it takes.
use adonisjs_audit_trail.Common.{
  ◌⊎◌, ◌≢◌, ℕ, ◌+◌, ◌≡◌, true, false, none, some, List, [], ◌∷◌, ◌++◌, length, last?,
}
use adonisjs_audit_trail.Common.Text.{Text, text_lt}
use adonisjs_audit_trail.Common.Dict.{Dict, lookup}
use adonisjs_audit_trail.Errors.{Result, ok}
use adonisjs_audit_trail.Types.{ChainedAuditEvent}
use adonisjs_audit_trail.Retention.{RetentionPolicy, parse_duration}
use adonisjs_audit_trail.HttpStore.{HttpStore}
use adonisjs_audit_trail.HttpStore.Prune.{Pruning}

abbrev Log : Type 0
Log = List ChainedAuditEvent

-- The number of rows in all streams.
pub rows_in : Dict Log → ℕ
rows_in [] = 0
rows_in ((stream, rows) ∷ logs) = length rows + rows_in logs

module _ (cutoff : ℕ → Result Text) (policy : RetentionPolicy) where
  -- The instant before which the policy lets a row of the event go: the duration is the one that the policy has for
  -- the event, or the default one.
  abbrev pub Limit : Text → Text → Type 0
  Limit event limit =
      (duration : Text) × (ms : ℕ) × ((lookup event policy.per_event ≡ some duration)
        ⊎ ((lookup event policy.per_event ≡ none) × (policy.default_duration ≡ duration)))
      × (parse_duration duration ≡ ok ms)
      × (cutoff ms ≡ ok limit)

  -- The row must stay: the policy is for another event, it is the newest, or it is no older than its limit.
  abbrev pub Stays : ℕ → ChainedAuditEvent → Type 0
  Stays newest row =
      ((name : Text) × (policy.event_filter ≡ some name) × (name ≢ row.event))
      ⊎ (row.seq ≡ newest)
      ⊎ ((limit : Text) × Limit row.event limit × (text_lt row.created_at limit ≡ false))

  -- The row must go: the policy is for its event or for all, it is not the newest, and it is older than its limit.
  abbrev pub Expired : ℕ → ChainedAuditEvent → Type 0
  Expired newest row =
      ((policy.event_filter ≡ none) ⊎ (policy.event_filter ≡ some row.event))
      × (row.seq ≢ newest)
      × ((limit : Text) × Limit row.event limit × (text_lt row.created_at limit ≡ true))

  -- The second list is the first without its expired rows.
  pub data Thinned (newest : ℕ) : Log → Log → Type 0 where
    nothing : Thinned newest [] []
    keep :
        (row : ChainedAuditEvent) {rows out : Log}
        → Stays newest row
        → Thinned newest rows out
        → Thinned newest (row ∷ rows) (row ∷ out)
    expire :
        (row : ChainedAuditEvent) {rows out : Log}
        → Expired newest row
        → Thinned newest rows out
        → Thinned newest (row ∷ rows) out

  -- A stream without rows, or one thinned by the number of its last row.
  abbrev pub ThinnedLog : Log → Log → Type 0
  ThinnedLog [] out = out ≡ []
  ThinnedLog (row ∷ rows) out =
      (newest : ChainedAuditEvent) × (last? (row ∷ rows) ≡ some newest)
      × Thinned newest.seq (row ∷ rows) out

  -- Stream by stream, under the same names.
  abbrev pub ThinnedLogs : Dict Log → Dict Log → Type 0
  ThinnedLogs [] [] = Unit
  ThinnedLogs [] (l ∷ ls) = ⊥
  ThinnedLogs (k ∷ ks) [] = ⊥
  ThinnedLogs ((stream, rows) ∷ ks) ((name, out) ∷ ls) =
      (stream ≡ name) × ThinnedLog rows out × ThinnedLogs ks ls

  record Split (newest : ℕ) (rows : Log) (acc out : Pruning) : Type 0 where
    left : Log
    thinned : Thinned newest rows left
    kept : out.retained ≡ acc.retained ++ left
    counted :
        out.total_pruned + length out.retained
        ≡ acc.total_pruned + length acc.retained + length rows
