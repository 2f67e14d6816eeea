-- ===== src/HashChain.antt =====
-- src/core/hash_chain.ts: the hashed fields of an entry, the chaining of a batch and the verification of
-- rows. `sha256` is Node's `createHash('sha256').update(text).digest('hex')`.
pub mod Fields
pub mod Injective
pub mod Links
pub mod Verify
pub mod Tamper
use adonisjs_audit_trail.Common.{
  ℕ, ◌+◌, Bool, true, false, ◌&&◌, Option, none, some, List, [], ◌∷◌, ◌==◌, if◌then◌else◌,
  replicate,
}
use adonisjs_audit_trail.Common.Text.{Text, text, text_eq}
use adonisjs_audit_trail.Common.Dict.{Dict, lookup, insert}
use adonisjs_audit_trail.Errors.{Result, ok, err, ◌>>=◌}
use adonisjs_audit_trail.Json.{Value, JsonText, Number, nat, num, str, obj, end, field}
use adonisjs_audit_trail.Json.Canonical.{canonical_json}
use adonisjs_audit_trail.Types.{
  AuditEvent, ChainedAuditEvent, Head, VerifyReport, Stream, ends, throws, yields, nullable,
  payload,
}

abbrev pub genesis : Text
genesis = replicate 64 48

-- `pickHashedFields({ ...entry, seq, prevHash })`.
unfoldable pub pick_hashed_fields : AuditEvent → ℕ → Text → Value
pick_hashed_fields e seq prev_hash = obj (
    field (text "id") (str e.id) (
      field (text "seq") (num (nat seq)) (
        field (text "stream") (str e.stream) (
          field (text "event") (str e.event) (
            field (text "auditableType") (nullable e.auditable_type) (
              field (text "auditableId") (nullable e.auditable_id) (
                field (text "oldValues") (payload e.old_values) (
                  field (text "newValues") (payload e.new_values) (
                    field (text "metadata") (payload e.metadata) (
                      field (text "actor")
                        (obj (
                          field (text "type") (str e.actor.type)
                            (field (text "id") (nullable e.actor.id) end)))
                        (field (text "tenantId") (nullable e.tenant_id) (
                          field (text "schemaVersion") (str e.schema_version) (
                            field (text "createdAt") (str e.created_at)
                              (field (text "prevHash") (str prev_hash) end))))))))))))))

module _ (sha256 : JsonText → Text) where
  unfoldable pub hash_entry : AuditEvent → ℕ → Text → Result Text
  hash_entry e seq prev_hash = do
    body ← canonical_json (pick_hashed_fields e seq prev_hash)
    ok (sha256 body)

  -- The loop of `chainBatch` from the next sequence number and the hash to link to.
  unfoldable pub chain_from : ℕ → Text → List AuditEvent → Result (List ChainedAuditEvent)
  chain_from seq prev_hash [] = ok []
  chain_from seq prev_hash (e ∷ es) = do
    hash ← hash_entry e seq prev_hash
    rest ← chain_from (seq + 1) hash es
    ok (record { entry = e; seq = seq; hash = hash; prev_hash = prev_hash } ∷ rest)

  unfoldable pub chain_batch : List AuditEvent → Option Head → Result (List ChainedAuditEvent)
  chain_batch batch none = chain_from 1 genesis batch
  chain_batch batch (some head) = chain_from (head.seq + 1) head.hash batch

pub record StreamState : Type 0 where
  pub prev_seq : ℕ
  pub prev_hash : Text
  pub checked : ℕ
  pub first_invalid_seq : Option ℕ

abbrev pub fresh : StreamState
fresh = record { prev_seq = 0; prev_hash = genesis; checked = 0; first_invalid_seq = none }

abbrev pub or_else {ℓ} : {A : Type ℓ} → Option A → A → A
or_else none d = d
or_else (some a) d = a

-- The report on a row that fits, and on one that does not.
abbrev pub valid_report : Text → ℕ → VerifyReport
valid_report stream checked = record {
  stream = stream;
  valid = true;
  first_invalid_seq = none;
  expected_hash = none;
  actual_hash = none;
  checked_count = checked;
}

abbrev pub invalid_report : Text → ℕ → Text → Text → ℕ → VerifyReport
invalid_report stream first expected actual checked = record {
  stream = stream;
  valid = false;
  first_invalid_seq = some first;
  expected_hash = some expected;
  actual_hash = some actual;
  checked_count = checked;
}

-- The check that `verifyChain` and the stores' own `verify` make of a row against the state: the hash
-- that the row should have after the state's, and whether the row has it and the next number.
unfoldable pub row_valid : StreamState → ChainedAuditEvent → Text → Bool
row_valid st row expected = (row.seq == st.prev_seq + 1) && text_eq row.hash expected

-- One round of `verifyChain` with the state of the row's stream; `first` is what the first invalid row
-- of the stream is reported as.
unfoldable pub check_row :
    Text → ℕ → StreamState → ChainedAuditEvent → Text → VerifyReport × StreamState
unfolding row_valid
check_row stream first st row expected =
    let checked = st.checked + 1 in
    let first_invalid = or_else st.first_invalid_seq first in
    if row_valid st row expected
    then (
      valid_report stream checked,
      record st { prev_seq = row.seq; prev_hash = row.hash; checked = checked },
    )
    else (
      invalid_report stream first_invalid expected row.hash checked,
      record st { checked = checked; first_invalid_seq = some first_invalid },
    )

module _ (sha256 : JsonText → Text) where
  unfoldable pub verify_rows : Dict StreamState → List ChainedAuditEvent → Stream VerifyReport
  unfolding check_row
  verify_rows streams [] = ends
  verify_rows streams (row ∷ rows) =
      let st = or_else (lookup row.stream streams) fresh in
      elim (hash_entry sha256 row.entry (st.prev_seq + 1) st.prev_hash) [
        | err e ↦ throws e
        | ok expected ↦
            let (report, st') = check_row row.stream (st.prev_seq + 1) st row expected in
            yields report (verify_rows (insert row.stream st' streams) rows)
      ]

  unfoldable pub verify_chain : List ChainedAuditEvent → Stream VerifyReport
  verify_chain rows = verify_rows [] rows
