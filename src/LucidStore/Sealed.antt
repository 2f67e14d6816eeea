-- ===== src/LucidStore/Sealed.antt =====
-- `verify` reads a whole range, and reports a store valid that was written and pruned by the code.
use adonisjs_audit_trail.Common.{
  ℕ, suc, ◌+◌, ◌≤◌, ◌<◌, ◌≡◌, refl, subst, ◌∙◌, false, Option, none, some, List, [], ◌∷◌, map, inl,
  inr, arith, Bool-cases, ltb, length,
}
use adonisjs_audit_trail.Common.Text.{Text, text_eq}
use adonisjs_audit_trail.Json.{JsonText}
use adonisjs_audit_trail.Types.{ends, ChainedAuditEvent, Head}
use adonisjs_audit_trail.HashChain.{StreamState}
use adonisjs_audit_trail.HashChain.Links.{seq_of, hash_of}
use adonisjs_audit_trail.HashChain.Verify.{
  Accepted, AllValid, of_stream, row_valid_iff, check_row-valid, advance,
}
use adonisjs_audit_trail.LucidStore.{Audits}
use adonisjs_audit_trail.LucidStore.Rows.{insert_by_seq, order_by_seq, stream_rows}
use adonisjs_audit_trail.LucidStore.Query.{SequenceHash}
use adonisjs_audit_trail.LucidStore.Verify.{
  filter_after, check_rows, verify, verify_start, start_at, last_below, columns,
}
use adonisjs_audit_trail.LucidStore.Pages.{
  Ascending, Increasing, UpTo, Ascending-Increasing, List-cases, filter_after_all, check_all,
  pages-check_all, filter_after-length,
}

length-insert_by_seq :
    (r : ChainedAuditEvent) (rs : Audits) → length (insert_by_seq r rs) ≡ suc (length rs)
length-insert_by_seq r [] = refl
length-insert_by_seq r (s ∷ rs) = ground (arith, length-insert_by_seq r rs)

length-order_by_seq : (rs : Audits) → length (order_by_seq rs) ≡ length rs
length-order_by_seq [] = refl
length-order_by_seq (r ∷ rs) =
    omega (arith, length-insert_by_seq r (order_by_seq rs), length-order_by_seq rs)

length-of_stream : (s : Text) (t : Audits) → length (of_stream s t) ≤ length t
length-of_stream s [] = omega arith
length-of_stream s (r ∷ rs) = ground (arith, length-of_stream s rs)

pub order_by_seq-Ascending : (a : ℕ) (rs : Audits) → Ascending a rs → order_by_seq rs ≡ rs
order_by_seq-Ascending a [] v = refl
order_by_seq-Ascending a (r ∷ []) v = refl
order_by_seq-Ascending a (r ∷ s ∷ rs) v =
    rw (order_by_seq-Ascending r.seq (s ∷ rs) v.1) (ground (arith, v.1.0))

no_numbers : (rs : Audits) → UpTo none rs
no_numbers [] = tt
no_numbers (r ∷ rs) = (refl, no_numbers rs)

module _ (s : Text) where
  last_below-none :
      (a bound : ℕ) (t : Audits)
      → Ascending a (of_stream s t)
      → bound ≤ a + 1
      → last_below s bound (map columns t) ≡ none
  unfolding last_below
  last_below-none a bound [] v le = refl
  last_below-none a bound (r ∷ rs) v le = elim (Bool-cases (text_eq r.stream s)) [
    | inr e ↦ rw e (last_below-none a bound rs (rw e at v) le)
    | inl e ↦
        let (gt, rest) : Ascending a (r ∷ of_stream s rs) = rw e at v in
        let over : ltb r.seq bound ≡ false = ground (arith, gt, le) in
        rw (e, over) (last_below-none r.seq bound rs rest (omega (arith, gt)))
  ]

module _ (sha256 : JsonText → Text) (stream : Text) where
  -- Where the numbers of the stream's rows are distinct, `verify` ends, and it reports on the rows of the
  -- range exactly what checking them all in one pass from the same start does: no page skips or repeats a
  -- row, and the rounds suffice whatever the number of pages.
  pub verify-check_all :
      (from_seq to_seq : Option ℕ) (t : Audits) (checkpoints : List SequenceHash)
      → Increasing (stream_rows stream t)
      → (verify sha256 stream from_seq to_seq t checkpoints
          ≡ check_all sha256 stream to_seq t
              (verify_start stream (elim from_seq [ none ↦ 1 | some n ↦ n ]) t checkpoints)
              (verify_start stream
                (elim from_seq [ none ↦ 1 | some n ↦ n ])
                t
                checkpoints).prev_seq)
  unfolding verify
  verify-check_all from_seq to_seq t checkpoints v =
      let st = verify_start stream (elim from_seq [ none ↦ 1 | some n ↦ n ]) t checkpoints in
      pages-check_all sha256 stream 500 to_seq t v (length t + 1) st st.prev_seq (omega arith) (
        omega (
          arith,
          filter_after-length sha256 stream to_seq st.prev_seq (stream_rows stream t),
          length-order_by_seq (of_stream stream t),
          length-of_stream stream t,
        ))

  pub Accepted-Ascending :
      (n : ℕ) (p : Text) (rs : Audits) → Accepted sha256 n p rs → Ascending n rs
  Accepted-Ascending n p [] a = tt
  Accepted-Ascending n p (r ∷ rs) a = (omega (arith, a.0), Accepted-Ascending r.seq r.hash rs a.2)

  pub check_rows-AllValid :
      (st : StreamState) (rs : Audits)
      → Accepted sha256 st.prev_seq st.prev_hash rs
      → AllValid (check_rows sha256 stream st rs (λ st'. ends))
  unfolding check_rows advance
  check_rows-AllValid st [] a = tt
  check_rows-AllValid st (r ∷ rs) a =
      rw (a.1, check_rows)
        (rw (check_row-valid stream r.seq st r r.hash ((row_valid_iff st r r.hash).1 (a.0, refl)))
          (refl, check_rows-AllValid (advance st r) rs a.2))

  -- The rows of the stream continue the chain from a head, which is the last checkpoint of the stream
  -- below them, or from `GENESIS` where there is none.
  pub record Sealed (t : Audits) (checkpoints : List SequenceHash) : Type 0 where
    pub head : Option Head
    pub accepted : Accepted sha256 (seq_of head) (hash_of head) (of_stream stream t)
    pub recorded : (bound : ℕ) → seq_of head < bound → last_below stream bound checkpoints ≡ head

  start_at-seq : (h : Option Head) → (start_at h).prev_seq ≡ seq_of h
  start_at-seq none = refl
  start_at-seq (some h) = refl

  start_at-hash : (h : Option Head) → (start_at h).prev_hash ≡ hash_of h
  start_at-hash none = refl
  start_at-hash (some h) = refl

  check_whole :
      (h : Option Head) (rs : Audits)
      → Accepted sha256 (seq_of h) (hash_of h) rs
      → AllValid (
          check_rows sha256 stream
            (start_at h)
            (filter_after none (start_at h).prev_seq rs)
            (λ st'. ends))
  check_whole h rs a =
      let asc = Accepted-Ascending (seq_of h) (hash_of h) rs a in
      let same : filter_after none (start_at h).prev_seq rs ≡ rs =
        rw (start_at-seq h) (filter_after_all none (seq_of h) rs asc (no_numbers rs)) in
      rw same (check_rows-AllValid (start_at h) rs (rw (start_at-seq h, start_at-hash h) a))

  pub in_order :
      (n : ℕ) (p : Text) (t : Audits)
      → Accepted sha256 n p (of_stream stream t)
      → stream_rows stream t ≡ of_stream stream t
  in_order n p t a =
      order_by_seq-Ascending n (of_stream stream t) (Accepted-Ascending n p (of_stream stream t) a)

  start_head :
      (t : Audits) (checkpoints : List SequenceHash) (v : Sealed t checkpoints)
      (r : ChainedAuditEvent) (rs : Audits)
      → of_stream stream t ≡ r ∷ rs
      → verify_start stream 1 t checkpoints ≡ start_at v.head
  unfolding verify_start
  start_head t checkpoints v r rs e =
      let asc =
        Accepted-Ascending (seq_of v.head) (hash_of v.head) (of_stream stream t) v.accepted in
      let none_ = last_below-none stream (seq_of v.head) 1 t asc (omega arith) in
      let first : r.seq ≡ seq_of v.head + 1 =
        (subst (Accepted sha256 (seq_of v.head) (hash_of v.head)) e v.accepted).0 in
      let rows = in_order (seq_of v.head) (hash_of v.head) t v.accepted ∙ e in
      rw (none_, rows, first, v.recorded (seq_of v.head + 1) (omega arith)) refl

  -- On a sealed stream `verify` over the whole range runs to its end and reports every row valid.
  pub verify-AllValid :
      (t : Audits) (checkpoints : List SequenceHash)
      → Sealed t checkpoints
      → AllValid (verify sha256 stream none none t checkpoints)
  unfolding check_rows
  verify-AllValid t checkpoints v =
      let rows = in_order (seq_of v.head) (hash_of v.head) t v.accepted in
      let asc =
        Accepted-Ascending (seq_of v.head) (hash_of v.head) (of_stream stream t) v.accepted in
      let up : Increasing (stream_rows stream t) =
        rw rows (Ascending-Increasing (seq_of v.head) (of_stream stream t) asc) in
      rw (verify-check_all none none t checkpoints up) (elim (List-cases (of_stream stream t)) [
        | inl e ↦ rw (rows, e) tt
        | inr (r, rs, e) ↦
            rw (start_head t checkpoints v r rs e, rows)
              (check_whole v.head (of_stream stream t) v.accepted)
      ])
