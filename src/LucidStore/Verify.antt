-- ===== src/LucidStore/Verify.antt =====
-- src/stores/lucid_store.ts: `verify` over a range of a stream, page by page.
use adonisjs_audit_trail.Common.{
  ℕ, zero, suc, ◌+◌, ◌&&◌, Option, none, some, List, [], ◌∷◌, map, if◌then◌else◌, leb, ltb, take,
  length,
}
use adonisjs_audit_trail.Common.Text.{Text, text_eq}
use adonisjs_audit_trail.Errors.{ok, err}
use adonisjs_audit_trail.Json.{JsonText}
use adonisjs_audit_trail.Types.{ChainedAuditEvent, Head, VerifyReport, Stream, ends, throws, yields}
use adonisjs_audit_trail.HashChain.{StreamState, fresh, check_row, hash_entry}
use adonisjs_audit_trail.LucidStore.{Audits}
use adonisjs_audit_trail.LucidStore.Rows.{stream_rows}
use adonisjs_audit_trail.LucidStore.Query.{SequenceHash, number_filter}

abbrev pub columns : ChainedAuditEvent → SequenceHash
columns r = record { stream = r.stream; seq = r.seq; hash = r.hash }

abbrev pub later : SequenceHash → Option Head → Option Head
later r none = some (record { seq = r.seq; hash = r.hash })
later r (some h) = if leb r.seq h.seq then some h else some (record { seq = r.seq; hash = r.hash })

-- `WHERE stream = … AND seq < … ORDER BY seq DESC LIMIT 1`
unfoldable pub last_below : Text → ℕ → List SequenceHash → Option Head
last_below stream bound [] = none
last_below stream bound (r ∷ rs) =
    let best = last_below stream bound rs in
    if text_eq r.stream stream && ltb r.seq bound then later r best else best

abbrev pub start_at : Option Head → StreamState
start_at none = fresh
start_at (some h) = record fresh { prev_seq = h.seq; prev_hash = h.hash }

-- The last checkpoint before the first row that is left of the stream.
abbrev pub before_first : Text → Audits → List SequenceHash → Option Head
before_first stream [] checkpoints = none
before_first stream (r ∷ rs) checkpoints = last_below stream r.seq checkpoints

abbrev pub or_before : Option Head → Option Head → Option Head
or_before (some h) other = some h
or_before none other = other

-- What the first row of the range is checked against.
unfoldable pub verify_start : Text → ℕ → Audits → List SequenceHash → StreamState
unfolding last_below
verify_start stream from_seq t checkpoints = start_at (
    or_before (last_below stream from_seq (map columns t))
      (before_first stream (stream_rows stream t) checkpoints))

abbrev pub filter_after : Option ℕ → ℕ → Audits → Audits
filter_after to_seq last [] = []
filter_after to_seq last (r ∷ rs) =
    let rest = filter_after to_seq last rs in
    if ltb last r.seq && number_filter (λ n. leb r.seq n) to_seq then r ∷ rest else rest

abbrev pub last_seq : ℕ → Audits → ℕ
last_seq last [] = last
last_seq last (r ∷ rs) = last_seq r.seq rs

module _ (sha256 : JsonText → Text) (stream : Text) where
  -- The reports on a page of rows, and what comes after them.
  unfoldable pub check_rows :
      StreamState → Audits → (StreamState → Stream VerifyReport) → Stream VerifyReport
  check_rows st [] next = next st
  check_rows st (r ∷ rs) next = elim (hash_entry sha256 r.entry (st.prev_seq + 1) st.prev_hash) [
    | err e ↦ throws e
    | ok expected ↦
        let (report, st') = check_row stream r.seq st r expected in
        yields report (check_rows st' rs next)
  ]

  module _ (page_size : ℕ) (to_seq : Option ℕ) (t : Audits) where
    abbrev pub page : ℕ → Audits
    page last = take page_size (filter_after to_seq last (stream_rows stream t))

    -- The loop with the rounds left, the state and `lastSeq`.
    unfoldable pub verify_pages : ℕ → StreamState → ℕ → Stream VerifyReport
    verify_pages zero st last = ends
    verify_pages (suc fuel) st last = elim (page last) [
      | [] ↦ ends
      | r ∷ rs ↦ check_rows st (r ∷ rs) (λ st'.
          if ltb (length (r ∷ rs)) page_size
          then ends
          else verify_pages fuel st' (last_seq last (r ∷ rs)))
    ]

  -- The rounds are as many as there are rows in the table, and one more for the empty page.
  unfoldable pub verify : Option ℕ → Option ℕ → Audits → List SequenceHash → Stream VerifyReport
  unfolding verify_start verify_pages check_rows
  verify from_seq to_seq t checkpoints =
      let st = verify_start stream (elim from_seq [ none ↦ 1 | some n ↦ n ]) t checkpoints in
      verify_pages 500 to_seq t (length t + 1) st st.prev_seq
