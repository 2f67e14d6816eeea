-- ===== src/Tests/Exits.antt =====
-- Runs of commands/audit_verify.ts and src/core/successful_delivery_notifier.ts.
use adonisjs_audit_trail.Common.{
  ℕ, ◌≤◌, ◌≡◌, ◌↔◌, refl, true, Option, none, some, List, [], ◌∷◌, All,
}
use adonisjs_audit_trail.Common.Text.{Text, text}
use adonisjs_audit_trail.Errors.{Result, ok}
use adonisjs_audit_trail.Types.{VerifyReport, Stream}
use adonisjs_audit_trail.HashChain.{verify_chain}
use adonisjs_audit_trail.VerifyCommand.{VerifyFlags, run}
use adonisjs_audit_trail.VerifyCommand.Anchored.{Clean, run_iff}
use adonisjs_audit_trail.Anchors.{ChainHead, every}
use adonisjs_audit_trail.Notifier.{count_emitted, notify_all, notify_all-once}
use adonisjs_audit_trail.Tests.{toy}
use adonisjs_audit_trail.Tests.Chain.{log}

abbrev flags : VerifyFlags
flags = record { stream = some (text "t"); json = true; check_anchors = true }

abbrev checks : Text → Stream VerifyReport
checks stream = verify_chain toy log

abbrev resolves : Text → ℕ → Result (Option Text)
resolves stream seq = ok (some (text "h"))

abbrev heads : List ChainHead
heads = record { stream = text "t"; seq = 1; hash = text "h"; anchored_at = text "now" } ∷ []

run_iff_example :
    (run checks (ok (some heads)) (some resolves) flags none ≡ ok (some 0))
    ↔ All (Clean checks (ok (some heads)) (some resolves) flags) (text "t" ∷ [])
run_iff_example = run_iff checks (ok (some heads)) (some resolves) flags (text "t") [] none refl

abbrev publishes : ChainHead → Result (Unit {0})
publishes head = ok tt

notify_all-once_example :
    count_emitted
      (text "a")
      (notify_all publishes
        (some (every 10))
        (text "2026-01-02")
        (record { delivered_event_ids = []; emitted = []; anchors = [] })
        (log ∷ log ∷ [])).emitted
    ≤ 1
notify_all-once_example =
    notify_all-once publishes (some (every 10)) (text "2026-01-02") (text "a") (log ∷ log ∷ [])
