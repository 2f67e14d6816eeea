-- ===== src/Tests/Routes.antt =====
-- Runs of src/stores/fanout_store.ts and src/core/anchor.ts.
use adonisjs_audit_trail.Common.{ℕ, ◌≡◌, refl, some, List, [], ◌∷◌, All}
use adonisjs_audit_trail.Common.Text.{text}
use adonisjs_audit_trail.Common.Dict.{lookup}
use adonisjs_audit_trail.Errors.{Result, ok}
use adonisjs_audit_trail.Types.{AuditEvent, ChainedAuditEvent}
use adonisjs_audit_trail.LucidStore.Query.{SequenceHash}
use adonisjs_audit_trail.Stores.{
  FanoutStore, fanout_store, instance_, throw, Took, write, all_written, write-Took,
}
use adonisjs_audit_trail.Anchors.{ChainHead, AnchorState, every, Covers, on_flush, on_flush-Covers}
use adonisjs_audit_trail.Tests.{first}

-- A store that is the number of events written to it.
abbrev counting : List AuditEvent → ℕ → ℕ × Result (List ChainedAuditEvent)
counting batch n = (n, ok [])

abbrev fanout : FanoutStore ℕ
fanout = fanout_store (instance_ 0) (some (instance_ 1 ∷ instance_ 2 ∷ [])) (some throw)

wrote : (write counting (first ∷ []) fanout).1 ≡ ok []
unfolding write all_written
wrote = refl

write-Took_example :
    All (Took counting (first ∷ [])) fanout.mirrors × ((counting (first ∷ []) 0).1 ≡ ok [])
write-Took_example = write-Took counting (first ∷ []) fanout 0 [] refl refl wrote

abbrev publishes : ChainHead → Result (Unit {0})
publishes head = ok tt

abbrev flushed : List SequenceHash
flushed = record { stream = text "t"; seq = 3; hash = text "h" } ∷ []

abbrev anchored_before : AnchorState
anchored_before = record { last_seq = 25; last_date = text "2026-01-01" }

on_flush-Covers_example : Covers 10 (lookup (text "t") ((text "t", anchored_before) ∷ [])) (
    lookup
      (text "t")
      (on_flush publishes
        (every 10)
        (text "2026-01-02")
        flushed
        ((text "t", anchored_before) ∷ [])).0)
on_flush-Covers_example =
    on_flush-Covers publishes 10 (text "2026-01-02") flushed ((text "t", anchored_before) ∷ [])
      (text "t")
