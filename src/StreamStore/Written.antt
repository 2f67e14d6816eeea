-- ===== src/StreamStore/Written.antt =====
-- What the stream store wrote, read back and verified.
use adonisjs_audit_trail.Common.{
  ℕ, ◌≡◌, refl, sym, ap, subst, ◌∙◌, Option, none, some, List, [], ◌∷◌, ◌++◌, map, inl, inr, All,
  Bool, Bool-cases, append_assoc, append-nil,
}
use adonisjs_audit_trail.Common.Text.{Text, text_eq}
use adonisjs_audit_trail.Common.Dict.{Dict, lookup, UniqueKeys}
use adonisjs_audit_trail.Errors.{Result, ok, err, ok-injective, ok-ne-err, Result-cases}
use adonisjs_audit_trail.Json.{JsonText, arr}
use adonisjs_audit_trail.Json.Canonical.{canonical_json}
use adonisjs_audit_trail.Types.{AuditEvent, ChainedAuditEvent, Head}
use adonisjs_audit_trail.HashChain.{genesis, hash_entry, or_else}
use adonisjs_audit_trail.HashChain.Links.{seq_of, hash_of, head_after}
use adonisjs_audit_trail.HashChain.Verify.{Accepted, of_stream}
use adonisjs_audit_trail.LucidStore.{read_back}
use adonisjs_audit_trail.LucidStore.Groups.{of_stream-append}
use adonisjs_audit_trail.LucidStore.Verified.{Accepted-append, read_back-Accepted}
use adonisjs_audit_trail.HttpStore.{chained_value, chained_items, group_by_stream, set_heads}
use adonisjs_audit_trail.HttpStore.Written.{
  Done, chain_groups-Done, lookup-set_heads, group_by_stream-Grouped,
}
use adonisjs_audit_trail.StreamStore.{
  StreamStore, Destination, Format, ndjson, json, file, stdout, stderr, writable, write_text,
  write_each, write_events, write_chained, write, persist_heads, rows_of, pick_events,
}

head_after-append :
    (h : Option Head) (xs ys : List ChainedAuditEvent)
    → head_after h (xs ++ ys) ≡ head_after (head_after h xs) ys
head_after-append h [] ys = refl
head_after-append h (x ∷ xs) ys = head_after-append _ xs ys

module _ (parse_line : JsonText → Option (List ChainedAuditEvent)) where
  pub pick_events-all :
      (s : Text) (rows : List ChainedAuditEvent)
      → pick_events parse_line s none none rows ≡ of_stream s rows
  pick_events-all s [] = refl
  pick_events-all s (r ∷ rows) = elim (Bool-cases (text_eq r.stream s)) [
    | inl e ↦ rw e (ap (◌∷◌ r) (pick_events-all s rows))
    | inr e ↦ rw e (pick_events-all s rows)
  ]

  rows_of-append :
      (xs ys : List JsonText)
      → rows_of parse_line (xs ++ ys) ≡ rows_of parse_line xs ++ rows_of parse_line ys
  rows_of-append [] ys = refl
  rows_of-append (x ∷ xs) ys =
      ap (◌++◌ (or_else (parse_line x) [])) (rows_of-append xs ys)
      ∙ sym
          (append_assoc (or_else (parse_line x) []) (rows_of parse_line xs) (rows_of parse_line ys))

module _ (sha256 : JsonText → Text) (accepts : JsonText → List JsonText → Bool)
    (parse_line : JsonText → Option (List ChainedAuditEvent)) (reads : AuditEvent → AuditEvent)
    (keeps_stream : (e : AuditEvent) → (reads e).stream ≡ e.stream)
    (keeps_hash : (e : AuditEvent) (n : ℕ) (p : Text)
      → hash_entry sha256 (reads e) n p ≡ hash_entry sha256 e n p) where
  abbrev back : List ChainedAuditEvent → List ChainedAuditEvent
  back rows = map (read_back sha256 reads) rows

  -- The lines of the rows read back as the rows.
  abbrev pub Parses : Format → List ChainedAuditEvent → Type 0
  Parses json rows =
      (line : JsonText)
      → canonical_json (arr (chained_items rows)) ≡ ok line
      → parse_line line ≡ some (back rows)
  Parses ndjson rows =
      All
        (λ r.
          (line : JsonText)
          → canonical_json (chained_value r) ≡ ok line
          → parse_line line ≡ some (read_back sha256 reads r ∷ []))
        rows

  write_text-rows :
      (text : Result JsonText) (written : List JsonText) (rows : List ChainedAuditEvent)
      → ((line : JsonText) → text ≡ ok line → parse_line line ≡ some rows)
      → (write_text accepts text written).1 ≡ ok tt
      → rows_of parse_line (write_text accepts text written).0 ≡ rows_of parse_line written ++ rows
  write_text-rows (err e) written rows parses h = absurd (ok-ne-err h)
  write_text-rows (ok line) written rows parses h = elim (Bool-cases (accepts line written)) [
    | inr e ↦ absurd (ok-ne-err (rw e at h))
    | inl e ↦
        rw (e, rows_of-append parse_line written (line ∷ []), parses line refl)
          (ap (◌++◌ (rows_of parse_line written)) (append-nil rows))
  ]

  write_each-rows :
      (rows : List ChainedAuditEvent) (written : List JsonText)
      → Parses ndjson rows
      → (write_each accepts rows written).1 ≡ ok tt
      → rows_of parse_line (write_each accepts rows written).0
        ≡ rows_of parse_line written ++ back rows
  unfolding write_each
  write_each-rows [] written p h = sym (append-nil (rows_of parse_line written))
  write_each-rows (r ∷ rows) written p h =
      let first = write_text accepts (canonical_json (chained_value r)) written in
      elim (Result-cases first.1) [
        | inr (x, e) ↦ absurd (ok-ne-err (rw (e, write_each) at h))
        | inl (t, e) ↦
            let one =
              write_text-rows (canonical_json (chained_value r)) written
                (read_back sha256 reads r ∷ []) p.0 e in
            let more = write_each-rows rows first.0 p.1 (rw (e, write_each) at h) in
            rw (e, write_each)
              (more
                ∙ ap (λ l. l ++ back rows) one
                ∙ append_assoc (rows_of parse_line written) (read_back sha256 reads r ∷ [])
                    (back rows))
      ]

  write_events-rows :
      (format : Format) (rows : List ChainedAuditEvent) (written : List JsonText)
      → Parses format rows
      → (write_events accepts format rows written).1 ≡ ok tt
      → rows_of parse_line (write_events accepts format rows written).0
        ≡ rows_of parse_line written ++ back rows
  unfolding write_events
  write_events-rows json rows written p h =
      write_text-rows (canonical_json (arr (chained_items rows))) written (back rows) p h
  write_events-rows ndjson rows written p h = write_each-rows rows written p h

  of_stream-back :
      (s : Text) (rows : List ChainedAuditEvent) → of_stream s (back rows) ≡ back (of_stream s rows)
  of_stream-back s [] = refl
  of_stream-back s (r ∷ rows) = elim (Bool-cases (text_eq r.stream s)) [
    | inl e ↦
        let still = ap (λ t. text_eq t s) (keeps_stream r.entry) ∙ e in
        rw (still, e) (ap (◌∷◌ (read_back sha256 reads r)) (of_stream-back s rows))
    | inr e ↦
        let still = ap (λ t. text_eq t s) (keeps_stream r.entry) ∙ e in
        rw (still, e) (of_stream-back s rows)
  ]

  head_after-back :
      (h : Option Head) (rows : List ChainedAuditEvent)
      → head_after h (back rows) ≡ head_after h rows
  head_after-back h [] = refl
  head_after-back h (r ∷ rows) = head_after-back (some (record { seq = r.seq; hash = r.hash })) rows

  -- The rows of the stream in the file are the chain from `GENESIS` to the head that the store has in memory.
  pub record RecordedIn (s : Text) (st : StreamStore) : Type 0 where
    pub chain : Accepted sha256 0 genesis (of_stream s (rows_of parse_line st.written))
    pub newest : head_after none (of_stream s (rows_of parse_line st.written)) ≡ lookup s st.heads

  abbrev pub Recorded : StreamStore → Type 0
  Recorded st = (s : Text) → RecordedIn s st

  extended :
      (st : StreamStore) (rows : List ChainedAuditEvent) (news : Dict Head) (next : StreamStore)
      (s : Text)
      → UniqueKeys news
      → Done sha256 st.heads rows news s
      → RecordedIn s st
      → rows_of parse_line next.written ≡ rows_of parse_line st.written ++ back rows
      → next.heads ≡ set_heads news st.heads
      → RecordedIn s next
  extended st rows news next s u done v lines heads =
      let old = of_stream s (rows_of parse_line st.written) in
      let added = back (of_stream s rows) in
      let all_rows : of_stream s (rows_of parse_line next.written) ≡ old ++ added =
        ap (of_stream s) lines
        ∙ of_stream-append s (rows_of parse_line st.written) (back rows)
        ∙ ap (◌++◌ old) (of_stream-back s rows) in
      let links =
        read_back-Accepted sha256 reads keeps_stream keeps_hash _ _ (of_stream s rows) done.chain in
      record {
        chain = rw all_rows (
            Accepted-append sha256 none old added v.chain
              (subst (λ h. Accepted sha256 (seq_of h) (hash_of h) added) (sym v.newest) links));
        newest =
            ap (head_after none) all_rows
            ∙ head_after-append none old added
            ∙ ap (λ h. head_after h added) v.newest
            ∙ head_after-back (lookup s st.heads) (of_stream s rows)
            ∙ done.newest
            ∙ sym (lookup-set_heads s news st.heads u)
            ∙ ap (lookup s) (sym heads);
      }

  persisted :
      (d : Destination) (st : StreamStore)
      → st.destination ≡ d
      → ((persist_heads st).written ≡ st.written) × ((persist_heads st).heads ≡ st.heads)
  persisted stdout st e = rw e (refl, refl)
  persisted stderr st e = rw e (refl, refl)
  persisted writable st e = rw e (refl, refl)
  persisted (file path) st e = rw e (refl, refl)

  write_chained-Recorded :
      (st : StreamStore) (out : Result (List ChainedAuditEvent × Dict Head))
      (rows : List ChainedAuditEvent)
      → ((rs : List ChainedAuditEvent) (news : Dict Head)
          → out ≡ ok (rs, news)
          → UniqueKeys news × ((s : Text) → Done sha256 st.heads rs news s))
      → Parses st.format rows
      → (write_chained accepts sha256 st out).1 ≡ ok rows
      → Recorded st
      → Recorded (write_chained accepts sha256 st out).0
  write_chained-Recorded st (err e) rows d p h v = absurd (ok-ne-err h)
  write_chained-Recorded st (ok (rs, news)) rows d p h v =
      let done = write_events accepts st.format rs st.written in
      elim (Result-cases done.1) [
        | inr (x, e) ↦ absurd (ok-ne-err (rw (e, write_chained) at h))
        | inl (t, e) ↦
            let (u, each) = d rs news refl in
            let same_rows : rs ≡ rows = ok-injective (rw (e, write_chained) at h) in
            let lines =
              write_events-rows st.format rs st.written (subst (Parses st.format) (sym same_rows) p)
                e in
            let mid = record st { written = done.0; heads = set_heads news st.heads } in
            let (same, heads) = persisted mid.destination mid refl in
            rw (e, write_chained)
              (λ s.
                extended st rs news (persist_heads mid) s u (each s) (v s)
                  (ap (rows_of parse_line) same ∙ lines) heads)
      ]

  -- Where an event keeps its stream and its hash when it is read back: if in every stream the rows of the file are
  -- the chain from `GENESIS` to the head in memory, then so they are after any `write` that returns rows whose lines
  -- read back as these rows, in both formats.
  pub write-Recorded :
      (st : StreamStore) (batch : List AuditEvent) (rows : List ChainedAuditEvent)
      → Parses st.format rows
      → (write accepts sha256 st batch).1 ≡ ok rows
      → Recorded st
      → Recorded (write accepts sha256 st batch).0
  unfolding write lookup
  write-Recorded st [] rows p h v = v
  write-Recorded st (event ∷ batch) rows p h v =
      let (g, u) = group_by_stream-Grouped (event ∷ batch) [] tt tt in
      write_chained-Recorded st _ rows
        (λ rs news e.
          chain_groups-Done sha256 st.heads (group_by_stream (event ∷ batch) []) [] rs [] news g u
            tt (λ s es k. refl) (λ s. record { chain = tt; newest = refl }) e)
        p h v
