-- ===== src/HttpStore/Verify.antt =====
-- src/stores/http_store.ts: `verify` over a range of the rows that are kept.
use adonisjs_audit_trail.Common.{
  ℕ, ◌-◌, Bool, ◌&&◌, Option, none, some, List, [], ◌∷◌, if◌then◌else◌, leb,
}
use adonisjs_audit_trail.Common.Text.{Text}
use adonisjs_audit_trail.Json.{JsonText}
use adonisjs_audit_trail.Types.{ChainedAuditEvent, VerifyReport, Stream, ends, yields}
use adonisjs_audit_trail.HashChain.{StreamState, fresh, valid_report}
use adonisjs_audit_trail.LucidStore.Query.{number_filter}
use adonisjs_audit_trail.LucidStore.Verify.{check_rows}
use adonisjs_audit_trail.HttpStore.{HttpStore, log_of}

abbrev pub in_range : Option ℕ → Option ℕ → ChainedAuditEvent → Bool
in_range from_seq to_seq row =
    number_filter (λ n. leb n row.seq) from_seq && number_filter (λ n. leb row.seq n) to_seq

abbrev pub filtered : Option ℕ → Option ℕ → List ChainedAuditEvent → List ChainedAuditEvent
filtered from_seq to_seq [] = []
filtered from_seq to_seq (row ∷ rows) =
    let rest = filtered from_seq to_seq rows in
    if in_range from_seq to_seq row then row ∷ rest else rest

-- The last row before the first one in the range.
abbrev pub previous_row :
    Option ℕ
    → Option ℕ
    → Option ChainedAuditEvent
    → List ChainedAuditEvent
    → Option ChainedAuditEvent
previous_row from_seq to_seq previous [] = previous
previous_row from_seq to_seq previous (row ∷ rows) =
    let rest = previous_row from_seq to_seq (some row) rows in
    if in_range from_seq to_seq row then previous else rest

-- The state before the first row of the range. Rows are numbered from 1, so `seq - 1` is at least 0.
abbrev pub state_before : Option ChainedAuditEvent → ChainedAuditEvent → StreamState
state_before (some previous) first = record fresh {
  prev_seq = previous.seq;
  prev_hash = previous.hash;
}
state_before none first = record fresh { prev_seq = first.seq - 1; prev_hash = first.prev_hash }

module _ (sha256 : JsonText → Text) (stream : Text) where
  abbrev pub verify_filtered :
      Option ChainedAuditEvent → List ChainedAuditEvent → Stream VerifyReport
  verify_filtered previous [] = yields (valid_report stream 0) ends
  verify_filtered previous (row ∷ rows) =
      check_rows sha256 stream (state_before previous row) (row ∷ rows) (λ st. ends)

  abbrev pub verify_rows :
      Option ℕ → Option ℕ → Option ChainedAuditEvent → List ChainedAuditEvent → Stream VerifyReport
  verify_rows from_seq to_seq previous rows =
      verify_filtered (previous_row from_seq to_seq previous rows) (filtered from_seq to_seq rows)

  unfoldable pub verify : Option ℕ → Option ℕ → HttpStore → Stream VerifyReport
  unfolding check_rows
  verify from_seq to_seq st = verify_rows from_seq to_seq none (log_of stream st.logs)
