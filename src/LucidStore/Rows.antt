-- ===== src/LucidStore/Rows.antt =====
-- src/stores/lucid_store.ts: the rows of a stream in the order of their numbers.
use adonisjs_audit_trail.Common.{[], ◌∷◌, if◌then◌else◌, leb}
use adonisjs_audit_trail.Common.Text.{Text}
use adonisjs_audit_trail.Types.{ChainedAuditEvent}
use adonisjs_audit_trail.HashChain.Verify.{of_stream}
use adonisjs_audit_trail.LucidStore.{Audits}

-- `ORDER BY seq ASC`; rows with one number stay in the table's order.
abbrev pub insert_by_seq : ChainedAuditEvent → Audits → Audits
insert_by_seq r [] = r ∷ []
insert_by_seq r (s ∷ rs) = if leb r.seq s.seq then r ∷ s ∷ rs else s ∷ insert_by_seq r rs

abbrev pub order_by_seq : Audits → Audits
order_by_seq [] = []
order_by_seq (r ∷ rs) = insert_by_seq r (order_by_seq rs)

-- The rows `WHERE stream = … ORDER BY seq ASC`.
abbrev pub stream_rows : Text → Audits → Audits
stream_rows stream t = order_by_seq (of_stream stream t)
