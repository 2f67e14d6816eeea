-- ===== src/StreamStore.antt =====
-- src/stores/stream_store.ts: the store that writes rows as lines of JSON. The files and streams are the platform's:
-- `absolute` is `resolve` on a path, `accepts` tells whether the write of a line after others succeeds, `parse_line`
-- gives the rows that `JSON.parse` finds in a line, or none where it throws. Writes run one after the other, as the
-- tail of promises orders them; the sidecar is written whole.
pub mod Written
pub mod Checked
use adonisjs_audit_trail.Common.{
  ℕ, Bool, true, false, ◌&&◌, Option, none, some, List, [], ◌∷◌, ◌++◌, if◌then◌else◌,
}
use adonisjs_audit_trail.Common.Text.{Text, text, text_eq}
use adonisjs_audit_trail.Common.Dict.{Dict, lookup}
use adonisjs_audit_trail.Errors.{Result, ok, err, ◌>>=◌, store}
use adonisjs_audit_trail.Json.{JsonText, arr}
use adonisjs_audit_trail.Json.Canonical.{canonical_json}
use adonisjs_audit_trail.Types.{
  AuditEvent, ChainedAuditEvent, Head, VerifyReport, Stream, ends, throws, yields,
}
use adonisjs_audit_trail.HashChain.{verify_chain, valid_report, or_else}
use adonisjs_audit_trail.Retention.{RetentionPolicy, PruneReport}
use adonisjs_audit_trail.LucidStore.Rows.{order_by_seq}
use adonisjs_audit_trail.HttpStore.{
  chained_value, chained_items, group_by_stream, chain_groups, set_heads,
}
use adonisjs_audit_trail.HttpStore.Verify.{in_range}

pub data DestinationOption : Type 0 where
  named : Text → DestinationOption
  writer : DestinationOption

pub data Destination : Type 0 where
  stdout stderr writable : Destination
  file : Text → Destination

pub data Format : Type 0 where
  ndjson json : Format

abbrev pub resolve_name : (Text → Text) → Text → Destination
resolve_name absolute name =
    if text_eq name (text "stdout")
    then stdout
    else if text_eq name (text "stderr")
    then stderr
    else file (absolute name)

unfoldable pub resolve_destination : (Text → Text) → Option DestinationOption → Destination
resolve_destination absolute none = stdout
resolve_destination absolute (some (named name)) = resolve_name absolute name
resolve_destination absolute (some writer) = writable

abbrev pub sidecar_path : Text → Text
sidecar_path path = path ++ text ".head.json"

-- `written` are the lines at the destination, `sidecar` the heads in the file beside it.
pub record StreamStore : Type 0 where
  pub destination : Destination
  pub format : Format
  pub heads : Dict Head
  pub written : List JsonText
  pub sidecar : Option (Dict Head)

-- The heads of a file's sidecar, where there is one and it parses.
unfoldable pub load_heads : Destination → Option (Dict Head) → Dict Head
load_heads (file path) (some heads) = set_heads heads []
load_heads (file path) none = []
load_heads _ saved = []

unfoldable pub stream_store :
    (Text → Text)
    → Option DestinationOption
    → Option Format
    → (Text → Option (Dict Head))
    → (Destination → List JsonText)
    → StreamStore
unfolding load_heads resolve_destination
stream_store absolute option format sidecars contents =
    let destination = resolve_destination absolute option in
    let saved : Option (Dict Head) = elim destination [
      | file path ↦ sidecars (sidecar_path path)
      | _ ↦ none
    ] in
    record {
      destination = destination;
      format = or_else format ndjson;
      heads = load_heads destination saved;
      written = contents destination;
      sidecar = saved;
    }

abbrev pub persist_heads : StreamStore → StreamStore
persist_heads st = elim st.destination [
  | file path ↦ record st { sidecar = some st.heads }
  | _ ↦ st
]

module _ (accepts : JsonText → List JsonText → Bool) where
  abbrev pub write_line : JsonText → List JsonText → List JsonText × Result (Unit {0})
  write_line line written =
      if accepts line written then (written ++ line ∷ [], ok tt) else (written, err store)

  abbrev pub write_text : Result JsonText → List JsonText → List JsonText × Result (Unit {0})
  write_text (err e) written = (written, err e)
  write_text (ok line) written = write_line line written

  -- A line for each row, up to the first that fails.
  unfoldable pub write_each :
      List ChainedAuditEvent → List JsonText → List JsonText × Result (Unit {0})
  write_each [] written = (written, ok tt)
  write_each (row ∷ rows) written =
      let (next, outcome) = write_text (canonical_json (chained_value row)) written in
      elim outcome [ err e ↦ (next, err e) | ok t ↦ write_each rows next ]

  unfoldable pub write_events :
      Format → List ChainedAuditEvent → List JsonText → List JsonText × Result (Unit {0})
  unfolding write_each
  write_events json rows written = write_text (canonical_json (arr (chained_items rows))) written
  write_events ndjson rows written = write_each rows written

  module _ (sha256 : JsonText → Text) where
    abbrev pub advance_heads : Dict Head → StreamStore → StreamStore
    advance_heads new_heads st = persist_heads (record st { heads = set_heads new_heads st.heads })

    abbrev pub write_chained :
        StreamStore
        → Result (List ChainedAuditEvent × Dict Head)
        → StreamStore × Result (List ChainedAuditEvent)
    write_chained st (err e) = (st, err e)
    write_chained st (ok (rows, new_heads)) =
        let (written, outcome) = write_events st.format rows st.written in
        elim outcome [
          | err e ↦ (record st { written = written }, err e)
          | ok t ↦ (advance_heads new_heads (record st { written = written }), ok rows)
        ]

    unfoldable pub write :
        StreamStore → List AuditEvent → StreamStore × Result (List ChainedAuditEvent)
    unfolding write_events
    write st [] = (st, ok [])
    write st (event ∷ batch) =
        write_chained st
          (chain_groups sha256 st.heads (group_by_stream (event ∷ batch) []) ([], []))

-- The report of a stream without rows.
abbrev pub or_empty : Text → Stream VerifyReport → Stream VerifyReport
or_empty stream ends = yields (valid_report stream 0) ends
or_empty stream (throws e) = throws e
or_empty stream (yields r rest) = yields r rest

module _ (parse_line : JsonText → Option (List ChainedAuditEvent)) where
  -- The rows of the lines that parse.
  abbrev pub rows_of : List JsonText → List ChainedAuditEvent
  rows_of [] = []
  rows_of (line ∷ lines) = or_else (parse_line line) [] ++ rows_of lines

  abbrev pub pick_events :
      Text → Option ℕ → Option ℕ → List ChainedAuditEvent → List ChainedAuditEvent
  pick_events stream from_seq to_seq [] = []
  pick_events stream from_seq to_seq (row ∷ rows) =
      let rest = pick_events stream from_seq to_seq rows in
      if text_eq row.stream stream && in_range from_seq to_seq row then row ∷ rest else rest

  unfoldable pub read_file_events :
      Text → Option ℕ → Option ℕ → StreamStore → List ChainedAuditEvent
  read_file_events stream from_seq to_seq st = elim st.destination [
    | file path ↦ order_by_seq (pick_events stream from_seq to_seq (rows_of st.written))
    | _ ↦ []
  ]

  unfoldable pub verify :
      (JsonText → Text) → Text → Option ℕ → Option ℕ → StreamStore → Stream VerifyReport
  unfolding read_file_events
  verify sha256 stream from_seq to_seq st = elim st.destination [
    | file path ↦ or_empty stream (verify_chain sha256 (read_file_events stream from_seq to_seq st))
    | _ ↦ yields (valid_report stream 0) ends
  ]

-- `prune` removes nothing.
pub prune : RetentionPolicy → PruneReport
prune policy = record { streams = []; total_pruned = 0; pruned_events = [] }
