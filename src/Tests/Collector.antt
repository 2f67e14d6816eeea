-- ===== src/Tests/Collector.antt =====
-- Runs of src/stores/http_store.ts.
use adonisjs_audit_trail.Common.{ℕ, refl, true, false, Option, none, some, [], ◌∷◌}
use adonisjs_audit_trail.Common.Text.{Text, text}
use adonisjs_audit_trail.Common.Dict.{lookup}
use adonisjs_audit_trail.Errors.{Result, ok}
use adonisjs_audit_trail.Json.{JsonText}
use adonisjs_audit_trail.HashChain.Verify.{AllValid}
use adonisjs_audit_trail.Retention.{RetentionPolicy, PruneReport}
use adonisjs_audit_trail.HttpStore.{HttpStore, Request, Reply, responds, with_defaults, write}
use adonisjs_audit_trail.HttpStore.Verify.{verify}
use adonisjs_audit_trail.HttpStore.Written.{Kept, write-Kept}
use adonisjs_audit_trail.HttpStore.Ranges.{verify-Kept}
use adonisjs_audit_trail.Tests.{first, second, toy}
use adonisjs_audit_trail.Tests.Chain.{log}

-- A store that keeps one row of each stream, and a collector that accepts every batch.
abbrev new_store : HttpStore
new_store = with_defaults (record {
  url = text "https://collector.test";
  headers = none;
  signature = some (record { secret_env_var = text "SECRET"; header = none });
  max_retained_per_stream = some 1;
  idempotency_header = none;
})

abbrev env : Text → Option Text
env name = some (text "s")

abbrev hmac : Text → JsonText → Text
hmac secret body = toy body

abbrev accepts : Request → Reply
accepts request = responds true

new_store-Kept : Kept toy new_store
unfolding lookup
new_store-Kept s = record { base_seq = 0; base_hash = []; chain = tt; newest = refl }

write-Kept_example : Kept toy (write toy env hmac accepts new_store (first ∷ second ∷ [])).0
write-Kept_example = write-Kept toy env hmac accepts new_store (first ∷ second ∷ []) new_store-Kept

abbrev written : HttpStore
written = (write toy env hmac accepts new_store (first ∷ second ∷ [])).0

written-Kept : Kept toy written
written-Kept = write-Kept toy env hmac accepts new_store (first ∷ second ∷ []) new_store-Kept

verify-Kept_example : AllValid (verify toy (text "t") (some 2) none written)
verify-Kept_example = verify-Kept toy written (text "t") (some 2) none written-Kept

abbrev full : HttpStore
full = record new_store { logs = (text "t", log) ∷ [] }

abbrev policy : RetentionPolicy
policy = record {
  default_duration = text "2 Weeks";
  per_event = [];
  event_filter = none;
  dry_run = false;
  archive = none;
}

abbrev tomorrow : ℕ → Result Text
tomorrow duration = ok (text "2026-01-02T00:00:00.000Z")

abbrev report : PruneReport
report = record {
  streams = text "t" ∷ [];
  total_pruned = 1;
  pruned_events = (text "invoice.paid", 1) ∷ [];
}
