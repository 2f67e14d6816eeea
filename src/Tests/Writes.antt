-- ===== src/Tests/Writes.antt =====
-- A write of src/stores/lucid_store.ts.
use adonisjs_audit_trail.Common.{refl, [], ◌∷◌}
use adonisjs_audit_trail.Common.Text.{Text}
use adonisjs_audit_trail.Types.{AuditEvent}
use adonisjs_audit_trail.LucidStore.{write}
use adonisjs_audit_trail.LucidStore.Verified.{Verified, write-Verified}
use adonisjs_audit_trail.Tests.{first, second, toy}

abbrev pub reads_same : AuditEvent → AuditEvent
reads_same e = e

abbrev iso_same : Text → Text
iso_same t = t

write-Verified_example :
    Verified toy (write toy reads_same iso_same (first ∷ second ∷ first ∷ []) []).0
write-Verified_example =
    write-Verified toy reads_same (λ e. refl) (λ e n p. refl) iso_same (first ∷ second ∷ first ∷ [])
      [] (λ s. tt)
