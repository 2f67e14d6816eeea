-- ===== src/Tests/Chain.antt =====
-- Runs of src/core/hash_chain.ts.
use adonisjs_audit_trail.Common.{ℕ, ◌≡◌, refl, ◌⊎◌, none, List, [], ◌∷◌, ◌++◌, map, ◌↔◌}
use adonisjs_audit_trail.Common.Text.{Text, text}
use adonisjs_audit_trail.Errors.{Result, ok, err, ◌>>=◌}
use adonisjs_audit_trail.Json.{JsonText}
use adonisjs_audit_trail.Types.{nullable, payload, ChainedAuditEvent}
use adonisjs_audit_trail.HashChain.{
  pick_hashed_fields, genesis, hash_entry, chain_from, chain_batch, verify_chain,
}
use adonisjs_audit_trail.HashChain.Links.{
  IsChain, head_after, chain_batch-IsChain, chain_batch-append,
}
use adonisjs_audit_trail.HashChain.Injective.{SameHashed, hashed_text, hashed_text-injective}
use adonisjs_audit_trail.HashChain.Verify.{
  Accepted, AllValid, of_stream, verify_chain-AllValid_iff, verify_chain-chain_batch,
}
use adonisjs_audit_trail.HashChain.Tamper.{Agree, Collision, same_head_same_log}
use adonisjs_audit_trail.Json.Canonical.{canonical_json, serialize}
use adonisjs_audit_trail.Tests.{first, second, toy}

abbrev pub rows_of : Result (List ChainedAuditEvent) → List ChainedAuditEvent
rows_of (ok rows) = rows
rows_of (err e) = []

abbrev pub log : List ChainedAuditEvent
log = rows_of (chain_batch toy (first ∷ second ∷ []) none)

pub log_built : chain_batch toy (first ∷ second ∷ []) none ≡ ok log
unfolding chain_batch chain_from hash_entry canonical_json serialize pick_hashed_fields nullable
    payload
log_built = refl

pub log-Accepted : Accepted toy 0 genesis log
unfolding chain_batch chain_from hash_entry canonical_json serialize pick_hashed_fields nullable
    payload
log-Accepted = (refl, refl, (refl, refl, tt))

same_head_same_log_example : Agree log log ⊎ Collision toy
same_head_same_log_example = same_head_same_log toy log log refl log-Accepted log-Accepted refl

verify_chain-AllValid_iff_example :
    AllValid (verify_chain toy log) ↔ ((s : Text) → Accepted toy 0 genesis (of_stream s log))
verify_chain-AllValid_iff_example = verify_chain-AllValid_iff toy log

verify_chain-chain_batch_example : AllValid (verify_chain toy log)
verify_chain-chain_batch_example =
    verify_chain-chain_batch toy (text "t") (first ∷ second ∷ []) log (refl, (refl, tt)) log_built

chain_batch-IsChain_example :
    IsChain toy 0 genesis log × (map (λ r. r.entry) log ≡ first ∷ second ∷ [])
chain_batch-IsChain_example = chain_batch-IsChain toy (first ∷ second ∷ []) none log log_built

chain_batch-append_example : chain_batch toy (first ∷ second ∷ []) none ≡ (do
  rs ← chain_batch toy (first ∷ []) none
  ss ← chain_batch toy (second ∷ []) (head_after none rs)
  ok (rs ++ ss))
chain_batch-append_example = chain_batch-append toy (first ∷ []) (second ∷ []) none

abbrev one : ℕ
one = 1

abbrev text_of : Result JsonText → JsonText
text_of (ok t) = t
text_of (err e) = []

abbrev first_text : JsonText
first_text = text_of (hashed_text first 1 genesis)

first_text_built : hashed_text first 1 genesis ≡ ok first_text
unfolding hash_entry canonical_json serialize pick_hashed_fields nullable payload
first_text_built = refl

hashed_text-injective_example : SameHashed first first × (one ≡ one) × (genesis ≡ genesis)
hashed_text-injective_example =
    hashed_text-injective first first one one genesis genesis first_text first_text_built
      first_text_built
