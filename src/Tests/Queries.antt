-- ===== src/Tests/Queries.antt =====
-- A query of src/stores/lucid_store.ts.
use adonisjs_audit_trail.Common.{◌≤◌, ◌≡◌, ◌⊎◌, Bool, true, none, some, List, [], ◌∷◌, length}
use adonisjs_audit_trail.Common.Text.{Text, text}
use adonisjs_audit_trail.HashChain.{genesis}
use adonisjs_audit_trail.Types.{ChainedAuditEvent}
use adonisjs_audit_trail.LucidStore.Query.{AuditQueryFilters, query, limit_of}
use adonisjs_audit_trail.LucidStore.Filters.{Selected, Complete, query-Selected}
use adonisjs_audit_trail.Tests.{first, second}

abbrev always : Text → Text → Bool
always a b = true

abbrev stored : List ChainedAuditEvent
stored =
    record { entry = second; seq = 2; hash = text "h"; prev_hash = text "g" }
    ∷ record { entry = first; seq = 1; hash = text "g"; prev_hash = genesis }
    ∷ []

abbrev paid : AuditQueryFilters
paid = record {
  stream = some (text "t");
  event = some (text "invoice.paid" ∷ []);
  auditable_type = none;
  auditable_id = none;
  actor_type = none;
  actor_id = none;
  tenant_id = none;
  from_seq = some 1;
  to_seq = none;
  from_created_at = none;
  to_created_at = none;
  limit = some 1;
  cursor = none;
}

query-Selected_example :
    Selected always paid stored (query always paid stored)
    × (length (query always paid stored) ≤ limit_of paid.limit)
    × ((length (query always paid stored) ≡ limit_of paid.limit)
        ⊎ Complete always paid (query always paid stored) stored)
query-Selected_example = query-Selected always paid stored
