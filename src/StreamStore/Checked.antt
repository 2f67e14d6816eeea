-- ===== src/StreamStore/Checked.antt =====
-- `verify` of the stream store on a file that its writes made.
use adonisjs_audit_trail.Common.{
  ◌≡◌, refl, sym, ap, subst, ◌∙◌, Option, none, List, [], ◌∷◌, map, inl, inr, All, Bool-cases,
}
use adonisjs_audit_trail.Common.Text.{Text, text_eq, text_eq_iff}
use adonisjs_audit_trail.Json.{JsonText}
use adonisjs_audit_trail.Types.{ChainedAuditEvent, VerifyReport, Stream, ends, throws, yields}
use adonisjs_audit_trail.HashChain.{genesis, verify_chain}
use adonisjs_audit_trail.HashChain.Verify.{
  Accepted, AllValid, of_stream, of_stream-own, of_stream-other, verify_chain-AllValid_iff,
}
use adonisjs_audit_trail.LucidStore.Rows.{order_by_seq}
use adonisjs_audit_trail.LucidStore.Sealed.{order_by_seq-Ascending, Accepted-Ascending}
use adonisjs_audit_trail.StreamStore.{
  StreamStore, Destination, file, stdout, stderr, writable, rows_of, pick_events, read_file_events,
  or_empty, verify,
}
use adonisjs_audit_trail.StreamStore.Written.{pick_events-all}

or_empty-AllValid :
    (s : Text) (reports : Stream VerifyReport) → AllValid reports → AllValid (or_empty s reports)
or_empty-AllValid s ends v = (refl, tt)
or_empty-AllValid s (throws e) v = v
or_empty-AllValid s (yields r rest) v = v

entries_own :
    (s : Text) (rows : List ChainedAuditEvent)
    → All (λ e. e.stream ≡ s) (map (λ (r : ChainedAuditEvent). r.entry) (of_stream s rows))
entries_own s [] = tt
entries_own s (r ∷ rows) = elim (Bool-cases (text_eq r.stream s)) [
  | inl e ↦ rw e ((text_eq_iff r.stream s).0 e, entries_own s rows)
  | inr e ↦ rw e (entries_own s rows)
]

module _ (sha256 : JsonText → Text) where
  one_stream :
      (s : Text) (rows : List ChainedAuditEvent)
      → Accepted sha256 0 genesis (of_stream s rows)
      → AllValid (verify_chain sha256 (of_stream s rows))
  one_stream s rows a =
      let own = entries_own s rows in
      (verify_chain-AllValid_iff sha256 (of_stream s rows)).1 (λ t.
        elim (Bool-cases (text_eq s t)) [
          | inl e ↦
              subst (λ u. Accepted sha256 0 genesis (of_stream u (of_stream s rows)))
                ((text_eq_iff s t).0 e) (rw (of_stream-own sha256 s (of_stream s rows) own) a)
          | inr e ↦ rw (of_stream-other sha256 s t (of_stream s rows) e own) tt
        ])

  module _ (parse_line : JsonText → Option (List ChainedAuditEvent)) (st : StreamStore) (s : Text)
      (a : Accepted sha256 0 genesis (of_stream s (rows_of parse_line st.written))) where
    abbrev rows : List ChainedAuditEvent
    rows = of_stream s (rows_of parse_line st.written)

    sorted :
        order_by_seq (pick_events parse_line s none none (rows_of parse_line st.written)) ≡ rows
    sorted =
        ap order_by_seq (pick_events-all parse_line s (rows_of parse_line st.written))
        ∙ order_by_seq-Ascending 0 rows (Accepted-Ascending sha256 s 0 genesis rows a)

    checked : AllValid (
        or_empty s (
          verify_chain sha256
            (order_by_seq (pick_events parse_line s none none (rows_of parse_line st.written)))))
    checked =
        subst (λ l. AllValid (or_empty s (verify_chain sha256 l))) (sym sorted)
          (or_empty-AllValid s (verify_chain sha256 rows)
            (one_stream s (rows_of parse_line st.written) a))

    in_file :
        (path : Text)
        → st.destination ≡ file path
        → read_file_events parse_line s none none st
          ≡ order_by_seq (pick_events parse_line s none none (rows_of parse_line st.written))
    unfolding read_file_events
    in_file path e = rw (e, read_file_events) refl

    by_destination :
        (d : Destination) → st.destination ≡ d → AllValid (verify parse_line sha256 s none none st)
    unfolding verify
    by_destination stdout e = rw (e, verify) (refl, tt)
    by_destination stderr e = rw (e, verify) (refl, tt)
    by_destination writable e = rw (e, verify) (refl, tt)
    by_destination (file path) e =
        rw (e, verify)
          (subst (λ l. AllValid (or_empty s (verify_chain sha256 l))) (sym (in_file path e))
            checked)

  -- Where the rows of a stream in the store's file are a chain from `GENESIS`, `verify` of the whole stream ends
  -- and reports every row valid; for any other destination it reports nothing invalid.
  pub verify-file :
      (parse_line : JsonText → Option (List ChainedAuditEvent)) (st : StreamStore) (s : Text)
      → Accepted sha256 0 genesis (of_stream s (rows_of parse_line st.written))
      → AllValid (verify parse_line sha256 s none none st)
  verify-file parse_line st s a = by_destination parse_line st s a st.destination refl
