-- ===== src/Tests/Pruning.antt =====
-- A prune of src/stores/lucid_store.ts.
use adonisjs_audit_trail.Common.{ℕ, refl, false, none, some, List, [], ◌∷◌}
use adonisjs_audit_trail.Common.Text.{Text, text}
use adonisjs_audit_trail.Errors.{Result, ok}
use adonisjs_audit_trail.Types.{nullable, payload}
use adonisjs_audit_trail.Json.Canonical.{canonical_json, serialize}
use adonisjs_audit_trail.HashChain.{
  genesis, pick_hashed_fields, hash_entry, chain_from, chain_batch,
}
use adonisjs_audit_trail.HashChain.Verify.{
  Accepted, of_stream, verify_chain-AllValid_iff, verify_chain-chain_batch,
}
use adonisjs_audit_trail.Retention.{RetentionPolicy}
use adonisjs_audit_trail.LucidStore.Verify.{last_below}
use adonisjs_audit_trail.LucidStore.Prune.{Database, prune}
use adonisjs_audit_trail.LucidStore.Pruned.{Consistent}
use adonisjs_audit_trail.LucidStore.Retained.{prune-Consistent}
use adonisjs_audit_trail.LucidStore.{Audits}
use adonisjs_audit_trail.Tests.{first, second, toy}
use adonisjs_audit_trail.Tests.Chain.{log, log_built}

abbrev stored : Database
stored = record { audits = log; archive = []; checkpoints = [] }

each_stream : (s : Text) → Accepted toy 0 genesis (of_stream s log)
each_stream =
    (verify_chain-AllValid_iff toy log).0 (
      verify_chain-chain_batch toy (text "t") (first ∷ second ∷ []) log (refl, (refl, tt))
        log_built)

stored-Consistent : Consistent toy stored
unfolding last_below chain_batch chain_from hash_entry canonical_json serialize pick_hashed_fields
    nullable payload
stored-Consistent = record {
  distinct = ((refl, tt), (tt, tt));
  sealed = λ s. record { head = none; accepted = each_stream s; recorded = λ bound lt. refl };
}

abbrev policy : RetentionPolicy
policy = record {
  default_duration = text "1 day";
  per_event = [];
  event_filter = none;
  dry_run = false;
  archive = none;
}

abbrev cutoff : ℕ → Result Text
cutoff duration = ok (text "2026-06-01T00:00:00.000Z")

abbrev iso : Text → Text
iso t = t

abbrev succeeds : Text → Result (Unit {0})
succeeds stream = ok tt

abbrev streams_of : Audits → List Text
streams_of t = text "t" ∷ []

prune-Consistent_example :
    Consistent toy (prune cutoff iso policy succeeds (some succeeds) streams_of stored).0
prune-Consistent_example =
    prune-Consistent cutoff iso policy succeeds (some succeeds) toy streams_of stored
      stored-Consistent
