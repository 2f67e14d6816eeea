-- ===== src/Tests/Ranges.antt =====
-- Verification of a range in src/stores/lucid_store.ts.
use adonisjs_audit_trail.Common.{◌≡◌, refl, none, [], arith}
use adonisjs_audit_trail.Common.Text.{text}
use adonisjs_audit_trail.Types.{nullable, payload}
use adonisjs_audit_trail.HashChain.{pick_hashed_fields, hash_entry, chain_from, chain_batch}
use adonisjs_audit_trail.HashChain.Verify.{AllValid}
use adonisjs_audit_trail.Json.Canonical.{canonical_json, serialize}
use adonisjs_audit_trail.LucidStore.Verify.{verify, verify_start, last_below}
use adonisjs_audit_trail.LucidStore.Pages.{check_all}
use adonisjs_audit_trail.LucidStore.Sealed.{Sealed, verify-check_all, verify-AllValid}
use adonisjs_audit_trail.Tests.{toy}
use adonisjs_audit_trail.Tests.Chain.{log, log-Accepted}

log-Sealed : Sealed toy (text "t") log []
unfolding chain_batch chain_from hash_entry canonical_json serialize pick_hashed_fields nullable
    payload last_below
log-Sealed = record { head = none; accepted = log-Accepted; recorded = λ bound lt. refl }

verify-AllValid_example : AllValid (verify toy (text "t") none none log [])
verify-AllValid_example = verify-AllValid toy (text "t") log [] log-Sealed

verify-check_all_example :
    verify toy (text "t") none none log []
    ≡ check_all toy
        (text "t")
        none
        log
        (verify_start (text "t") 1 log [])
        (verify_start (text "t") 1 log []).prev_seq
unfolding chain_batch chain_from hash_entry canonical_json serialize pick_hashed_fields nullable
    payload
verify-check_all_example = verify-check_all toy (text "t") none none log [] (omega arith, tt)
