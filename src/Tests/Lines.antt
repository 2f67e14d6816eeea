-- ===== src/Tests/Lines.antt =====
-- Runs of src/stores/stream_store.ts and src/core/uuidv7.ts.
use adonisjs_audit_trail.Common.{
  ℕ, ◌%◌, ◌^◌, ◌<◌, ◌≡◌, refl, Bool, true, Option, none, some, List, [], ◌∷◌, arith, All, take,
  length, get_elem?,
}
use adonisjs_audit_trail.Common.Text.{text}
use adonisjs_audit_trail.Common.Dict.{lookup, insert}
use adonisjs_audit_trail.Json.{JsonText}
use adonisjs_audit_trail.Errors.{ok}
use adonisjs_audit_trail.Json.Canonical.{canonical_json, serialize}
use adonisjs_audit_trail.Types.{ChainedAuditEvent, nullable, payload}
use adonisjs_audit_trail.HashChain.{pick_hashed_fields, hash_entry, chain_from, chain_batch}
use adonisjs_audit_trail.HashChain.Verify.{AllValid}
use adonisjs_audit_trail.StreamStore.{
  StreamStore, file, ndjson, verify, write, write_events, write_each,
}
use adonisjs_audit_trail.StreamStore.Checked.{verify-file}
use adonisjs_audit_trail.Uuid.{uuid_bytes, uuidv7, leading, uuidv7-layout}
use adonisjs_audit_trail.StreamStore.Written.{Recorded, write-Recorded}
use adonisjs_audit_trail.HttpStore.{chain_groups, chained_value}
use adonisjs_audit_trail.Tests.{first, toy}
use adonisjs_audit_trail.Tests.Writes.{reads_same}
use adonisjs_audit_trail.Tests.Chain.{log, log-Accepted, rows_of}

-- A file of one line, which holds the log.
abbrev logged : StreamStore
logged = record {
  destination = file (text "/var/log/audit.log");
  format = ndjson;
  heads = [];
  written = [] ∷ [];
  sidecar = none;
}

abbrev parse_log : JsonText → Option (List ChainedAuditEvent)
parse_log line = some log

verify-file_example : AllValid (verify parse_log toy (text "t") none none logged)
unfolding chain_batch chain_from hash_entry canonical_json serialize pick_hashed_fields nullable
    payload
verify-file_example = verify-file toy parse_log logged (text "t") log-Accepted

abbrev empty_file : StreamStore
empty_file = record logged { written = [] }

abbrev one_row : List ChainedAuditEvent
one_row = rows_of (chain_batch toy (first ∷ []) none)

abbrev parse_row : JsonText → Option (List ChainedAuditEvent)
parse_row line = some one_row

abbrev accepts : JsonText → List JsonText → Bool
accepts line written = true

wrote_row : (write accepts toy empty_file (first ∷ [])).1 ≡ ok one_row
unfolding write write_events write_each chain_groups chained_value lookup insert chain_batch
    chain_from hash_entry canonical_json serialize pick_hashed_fields nullable payload
wrote_row = refl

write-Recorded_example :
    Recorded toy accepts parse_row reads_same
      (λ e. refl)
      (λ e n p. refl)
      (write accepts toy empty_file (first ∷ [])).0
unfolding lookup chain_batch chain_from hash_entry canonical_json serialize pick_hashed_fields
    nullable payload
write-Recorded_example =
    write-Recorded toy accepts parse_row reads_same (λ e. refl) (λ e n p. refl) empty_file
      (first ∷ []) one_row ((λ line built. refl), tt) wrote_row
      (λ s. record { chain = tt; newest = refl })

abbrev byte_at : ℕ → ℕ
byte_at i = 255

uuidv7-layout_example :
    All (λ b. b < 256) (uuid_bytes 1700000000000 byte_at)
    × (leading 0 (take 6 (uuid_bytes 1700000000000 byte_at)) ≡ 1700000000000 % 2 ^ 48)
    × (length (uuidv7 1700000000000 byte_at) ≡ 36)
    × (get_elem? (uuidv7 1700000000000 byte_at) 14 ≡ get_elem? (text "7") 0)
uuidv7-layout_example = uuidv7-layout 1700000000000 byte_at (λ i. omega arith)
