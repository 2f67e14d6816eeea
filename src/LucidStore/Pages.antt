-- ===== src/LucidStore/Pages.antt =====
-- Reading a stream page by page reports what reading it at once does.
use adonisjs_audit_trail.Common.{
  ℕ, zero, suc, ◌+◌, ◌-◌, ◌≤◌, ◌<◌, ◌≡◌, refl, sym, ap, ◌∙◌, true, false, ◌&&◌, Option, [], ◌∷◌,
  ◌++◌, inl, inr, ◌⊎◌, arith, Bool-cases, if◌then◌else◌, leb, ltb, take, drop, length, All,
}
use adonisjs_audit_trail.Common.Text.{Text}
use adonisjs_audit_trail.Errors.{Result-cases}
use adonisjs_audit_trail.Json.{JsonText}
use adonisjs_audit_trail.Types.{VerifyReport, Stream, ends, yields, ChainedAuditEvent}
use adonisjs_audit_trail.HashChain.{StreamState, check_row, hash_entry}
use adonisjs_audit_trail.LucidStore.{Audits}
use adonisjs_audit_trail.LucidStore.Rows.{stream_rows}
use adonisjs_audit_trail.LucidStore.Query.{number_filter}
use adonisjs_audit_trail.LucidStore.Verify.{filter_after, last_seq, check_rows, verify_pages}

-- The numbers grow from row to row, all above a bound.
abbrev pub Ascending : ℕ → Audits → Type 0
Ascending a [] = Unit
Ascending a (r ∷ rs) = (a < r.seq) × Ascending r.seq rs

abbrev pub Increasing : Audits → Type 0
Increasing [] = Unit
Increasing (r ∷ rs) = Ascending r.seq rs

abbrev pub UpTo : Option ℕ → Audits → Type 0
UpTo to_seq rs = All (λ (r : ChainedAuditEvent). number_filter (λ n. leb r.seq n) to_seq ≡ true) rs

pub Ascending-le : (a b : ℕ) (rs : Audits) → a ≤ b → Ascending b rs → Ascending a rs
Ascending-le a b [] h v = tt
Ascending-le a b (r ∷ rs) h v = (omega (arith, v.0), v.1)

pub Ascending-Increasing : (a : ℕ) (rs : Audits) → Ascending a rs → Increasing rs
Ascending-Increasing a [] v = tt
Ascending-Increasing a (r ∷ rs) v = v.1

pub List-cases :
    (rs : Audits) → (rs ≡ []) ⊎ ((r : ChainedAuditEvent) × (ss : Audits) × (rs ≡ r ∷ ss))
List-cases [] = inl refl
List-cases (r ∷ rs) = inr (r, rs, refl)

take_nil : (n : ℕ) (rs : Audits) → 0 < n → take n rs ≡ [] → rs ≡ []
take_nil zero rs pos h = absurd (omega arith)
take_nil (suc n) [] pos h = refl
take_nil (suc n) (r ∷ rs) pos h = cc

take-drop : (n : ℕ) (rs : Audits) → take n rs ++ drop n rs ≡ rs
take-drop zero rs = refl
take-drop (suc n) [] = refl
take-drop (suc n) (r ∷ rs) = ap (◌∷◌ r) (take-drop n rs)

length-drop : (n : ℕ) (rs : Audits) → length (drop n rs) ≡ length rs - n
length-drop zero rs = omega arith
length-drop (suc n) [] = omega arith
length-drop (suc n) (r ∷ rs) = omega (arith, length-drop n rs)

fewer_lem :
    (n size fuel after dropped all : ℕ) {taken : ℕ}
    → after ≡ dropped
    → dropped ≡ all - size
    → taken ≡ n
    → taken ≤ all
    → ltb n size ≡ false
    → all < suc fuel
    → 0 < n
    → 0 < size
    → after < fuel
fewer_lem n size fuel after dropped all a b c d e f g h = ground arith

take-length_le : (n : ℕ) (rs : Audits) → length (take n rs) ≤ length rs
take-length_le zero rs = omega arith
take-length_le (suc n) [] = omega arith
take-length_le (suc n) (r ∷ rs) = omega (arith, take-length_le n rs)

drop-short : (n : ℕ) (rs : Audits) → length (take n rs) < n → drop n rs ≡ []
drop-short zero rs h = absurd (omega arith)
drop-short (suc n) [] h = refl
drop-short (suc n) (r ∷ rs) h = drop-short n rs (omega arith)

module _ (to_seq : Option ℕ) where
  filter_after-Ascending :
      (a last : ℕ) (rs : Audits) → Ascending a rs → Ascending a (filter_after to_seq last rs)
  filter_after-Ascending a last [] v = tt
  filter_after-Ascending a last (r ∷ rs) v =
      elim (Bool-cases (ltb last r.seq && number_filter (λ n. leb r.seq n) to_seq)) [
        | inl e ↦ rw e (v.0, filter_after-Ascending r.seq last rs v.1)
        | inr e ↦ rw e (
            Ascending-le a r.seq (filter_after to_seq last rs) (omega (arith, v.0))
              (filter_after-Ascending r.seq last rs v.1))
      ]

  filter_after_above :
      (last : ℕ) (rs : Audits) → Increasing rs → Ascending last (filter_after to_seq last rs)
  filter_after_above last [] v = tt
  filter_after_above last (r ∷ rs) v =
      elim (Bool-cases (ltb last r.seq && number_filter (λ n. leb r.seq n) to_seq)) [
        | inl e ↦ rw e (ground (arith, e), filter_after-Ascending r.seq last rs v)
        | inr e ↦ rw e (filter_after_above last rs (Ascending-Increasing r.seq rs v))
      ]

  filter_after-UpTo : (last : ℕ) (rs : Audits) → UpTo to_seq (filter_after to_seq last rs)
  filter_after-UpTo last [] = tt
  filter_after-UpTo last (r ∷ rs) =
      elim (Bool-cases (ltb last r.seq && number_filter (λ n. leb r.seq n) to_seq)) [
        | inl e ↦ rw e (ground (arith, e), filter_after-UpTo last rs)
        | inr e ↦ rw e (filter_after-UpTo last rs)
      ]

  filter_after_twice :
      (a b : ℕ) (rs : Audits)
      → a ≤ b
      → filter_after to_seq b (filter_after to_seq a rs) ≡ filter_after to_seq b rs
  filter_after_twice a b [] h = refl
  filter_after_twice a b (r ∷ rs) h = ground (arith, filter_after_twice a b rs h)

  pub filter_after_all :
      (a : ℕ) (rs : Audits) → Ascending a rs → UpTo to_seq rs → filter_after to_seq a rs ≡ rs
  filter_after_all a [] v u = refl
  filter_after_all a (r ∷ rs) v u = ground (
    arith,
    v.0,
    u.0,
    filter_after_all a rs (Ascending-le a r.seq rs (omega (arith, v.0)) v.1) u.1,
  )

  last_seq-ge : (n a : ℕ) (rs : Audits) → Ascending a rs → a ≤ last_seq a (take n rs)
  last_seq-ge zero a rs v = omega arith
  last_seq-ge (suc n) a [] v = omega arith
  last_seq-ge (suc n) a (r ∷ rs) v = omega (arith, v.0, last_seq-ge n r.seq rs v.1)

  -- After a page of an ascending list, the rows above its last number are the rows not yet read.
  filter_after-take :
      (n a : ℕ) (rs : Audits)
      → Ascending a rs
      → UpTo to_seq rs
      → filter_after to_seq (last_seq a (take n rs)) rs ≡ drop n rs
  filter_after-take zero a rs v u = filter_after_all a rs v u
  filter_after-take (suc n) a [] v u = refl
  filter_after-take (suc n) a (r ∷ rs) v u =
      ground (arith, last_seq-ge n r.seq rs v.1, filter_after-take n r.seq rs v.1 u.1)

module _ (sha256 : JsonText → Text) (stream : Text) where
  check_rows_cong :
      (st : StreamState) (rs : Audits) (f g : StreamState → Stream VerifyReport)
      → ((st : StreamState) → f st ≡ g st)
      → check_rows sha256 stream st rs f ≡ check_rows sha256 stream st rs g
  unfolding check_rows
  check_rows_cong st [] f g h = h st
  check_rows_cong st (r ∷ rs) f g h =
      elim (Result-cases (hash_entry sha256 r.entry (st.prev_seq + 1) st.prev_hash)) [
        | inr (x, e) ↦ rw (e, check_rows)
        | inl (x, e) ↦
            rw (e, check_rows)
              (ap (yields (check_row stream r.seq st r x).0)
                (check_rows_cong (check_row stream r.seq st r x).1 rs f g h))
      ]

  check_rows-append :
      (st : StreamState) (rs ss : Audits) (f : StreamState → Stream VerifyReport)
      → check_rows sha256 stream st (rs ++ ss) f
        ≡ check_rows sha256 stream st rs (λ st'. check_rows sha256 stream st' ss f)
  unfolding check_rows
  check_rows-append st [] ss f = refl
  check_rows-append st (r ∷ rs) ss f =
      elim (Result-cases (hash_entry sha256 r.entry (st.prev_seq + 1) st.prev_hash)) [
        | inr (x, e) ↦ rw (e, check_rows)
        | inl (x, e) ↦
            rw (e, check_rows)
              (ap (yields (check_row stream r.seq st r x).0)
                (check_rows-append (check_row stream r.seq st r x).1 rs ss f))
      ]

  -- All rows of the range above a number, checked in one pass.
  abbrev pub check_all : Option ℕ → Audits → StreamState → ℕ → Stream VerifyReport
  check_all to_seq t st last =
      check_rows sha256 stream st (filter_after to_seq last (stream_rows stream t)) (λ st'. ends)

  module _ (size : ℕ) (to_seq : Option ℕ) (t : Audits)
      (increasing : Increasing (stream_rows stream t)) where
    abbrev left_rows : ℕ → Audits
    left_rows last = filter_after to_seq last (stream_rows stream t)

    next_page :
        (last : ℕ)
        → left_rows (last_seq last (take size (left_rows last))) ≡ drop size (left_rows last)
    next_page last =
        let up = filter_after_above to_seq last (stream_rows stream t) increasing in
        sym (
          filter_after_twice to_seq last (last_seq last (take size (left_rows last)))
            (stream_rows stream t) (last_seq-ge to_seq size last (left_rows last) up))
        ∙ filter_after-take to_seq size last (left_rows last) up
            (filter_after-UpTo to_seq last (stream_rows stream t))

    -- What follows a page that is not empty.
    after_page :
        (fuel last : ℕ) (rs : Audits) (st : StreamState)
        → take size (left_rows last) ≡ rs
        → ((last' : ℕ)
            → length (left_rows last') < fuel
            → verify_pages sha256 stream size to_seq t fuel st last' ≡ check_all to_seq t st last')
        → 0 < size
        → 0 < length rs
        → length (left_rows last) < suc fuel
        → (if ltb (length rs) size
            then ends
            else verify_pages sha256 stream size to_seq t fuel st (last_seq last rs))
          ≡ check_rows sha256 stream st (drop size (left_rows last)) (λ st'. ends)
    unfolding check_rows
    after_page fuel last rs st e ih pos some_ enough = elim (Bool-cases (ltb (length rs) size)) [
      | inl short ↦
          let le : length (take size (left_rows last)) < size = rw e (ground (arith, short)) in
          rw (short, drop-short size (left_rows last) le)
      | inr full ↦
          let next : left_rows (last_seq last rs) ≡ drop size (left_rows last) =
            ap (λ p. left_rows (last_seq last p)) (sym e) ∙ next_page last in
          let fewer : length (left_rows (last_seq last rs)) < fuel =
            fewer_lem (length rs) size fuel _ _ _ (ap length next)
              (length-drop size (left_rows last)) (ap length e)
              (take-length_le size (left_rows last)) full enough some_ pos in
          rw full (
            ih (last_seq last rs) fewer
            ∙ ap (λ rows. check_rows sha256 stream st rows (λ st'. ends)) next)
    ]

    -- The loop of `verify` with enough rounds for the rows that are left.
    pub pages-check_all :
        (fuel : ℕ) (st : StreamState) (last : ℕ)
        → 0 < size
        → length (left_rows last) < fuel
        → verify_pages sha256 stream size to_seq t fuel st last ≡ check_all to_seq t st last
    unfolding verify_pages check_rows
    pages-check_all zero st last pos enough = absurd (omega arith)
    pages-check_all (suc fuel) st last pos enough = elim (List-cases (take size (left_rows last))) [
      | inl e ↦ rw (e, verify_pages, take_nil size (left_rows last) pos e)
      | inr (r, rs, e) ↦
          rw (e, verify_pages)
            (check_rows_cong st (r ∷ rs) _ _ (λ st'.
                after_page fuel last (r ∷ rs) st' e
                  (λ last' h. pages-check_all fuel st' last' pos h) pos (omega arith) enough)
              ∙ sym (check_rows-append st (r ∷ rs) (drop size (left_rows last)) (λ st'. ends))
              ∙ ap (λ rows. check_rows sha256 stream st rows (λ st'. ends))
                  (ap (λ p. p ++ drop size (left_rows last)) (sym e)
                    ∙ take-drop size (left_rows last)))
    ]

  pub filter_after-length :
      (to_seq : Option ℕ) (last : ℕ) (rs : Audits)
      → length (filter_after to_seq last rs) ≤ length rs
  filter_after-length to_seq last [] = omega arith
  filter_after-length to_seq last (r ∷ rs) = ground (arith, filter_after-length to_seq last rs)
