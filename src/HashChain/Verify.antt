-- ===== src/HashChain/Verify.antt =====
-- `verifyChain` accepts exactly the rows that continue the chain of their stream.
use adonisjs_audit_trail.Common.{
  ℕ, ◌+◌, ◌≡◌, ◌↔◌, refl, sym, ap, subst, ◌∙◌, true, false, false≢true, none, List, [], ◌∷◌, map,
  arith, if◌then◌else◌, inl, inr, Bool-cases, All,
}
use adonisjs_audit_trail.Common.Text.{Text, text_eq, text_eq_iff, text_eq_refl}
use adonisjs_audit_trail.Common.Dict.{Dict, lookup, insert, lookup-insert}
use adonisjs_audit_trail.Errors.{ok, Result-cases}
use adonisjs_audit_trail.Json.{JsonText}
use adonisjs_audit_trail.Types.{
  AuditEvent, ChainedAuditEvent, VerifyReport, Stream, ends, throws, yields,
}
use adonisjs_audit_trail.HashChain.{
  genesis, hash_entry, chain_batch, StreamState, fresh, or_else, row_valid, check_row, verify_rows,
  verify_chain, valid_report,
}
use adonisjs_audit_trail.HashChain.Links.{IsChain, chain_batch-IsChain}

-- The rows of one stream, in order.
abbrev pub of_stream : Text → List ChainedAuditEvent → List ChainedAuditEvent
of_stream s [] = []
of_stream s (r ∷ rs) = let rest = of_stream s rs in if text_eq r.stream s then r ∷ rest else rest

-- A verification that runs to its end and reports every row valid.
abbrev pub AllValid : Stream VerifyReport → Type 0
AllValid ends = Unit
AllValid (throws e) = ⊥
AllValid (yields r rest) = (r.valid ≡ true) × AllValid rest

abbrev pub state_of : Text → Dict StreamState → StreamState
state_of s streams = or_else (lookup s streams) fresh

unfoldable pub advance : StreamState → ChainedAuditEvent → StreamState
advance st r = record st { prev_seq = r.seq; prev_hash = r.hash; checked = st.checked + 1 }

pub row_valid_iff :
    (st : StreamState) (r : ChainedAuditEvent) (x : Text)
    → (row_valid st r x ≡ true) ↔ ((r.seq ≡ st.prev_seq + 1) × (r.hash ≡ x))
unfolding row_valid
row_valid_iff st r x =
    (λ h. ground (arith, text_eq_iff r.hash x), λ h. ground (arith, text_eq_iff r.hash x))

module _ (s : Text) (n : ℕ) (st : StreamState) (r : ChainedAuditEvent) (x : Text) where
  pub check_row-valid :
      row_valid st r x ≡ true
      → check_row s n st r x ≡ (valid_report s (st.checked + 1), advance st r)
  unfolding check_row advance
  check_row-valid h = rw h

  pub check_row-invalid : row_valid st r x ≡ false → (check_row s n st r x).0.valid ≡ false
  unfolding check_row
  check_row-invalid h = rw h

module _ (sha256 : JsonText → Text) where
  -- The rows continue a chain whose last row has the number `n` and the hash `p`. The rows' own
  -- `prevHash` is not read.
  abbrev pub Accepted : ℕ → Text → List ChainedAuditEvent → Type 0
  Accepted n p [] = Unit
  Accepted n p (r ∷ rs) =
      (r.seq ≡ n + 1) × (hash_entry sha256 r.entry (n + 1) p ≡ ok r.hash) × Accepted r.seq r.hash rs

  abbrev Fits : StreamState → ChainedAuditEvent → Type 0
  Fits st r =
      (r.seq ≡ st.prev_seq + 1)
      × (hash_entry sha256 r.entry (st.prev_seq + 1) st.prev_hash ≡ ok r.hash)

  module _ (streams : Dict StreamState) (r : ChainedAuditEvent) (rs : List ChainedAuditEvent) where
    abbrev st : StreamState
    st = state_of r.stream streams

    abbrev next : Dict StreamState
    next = insert r.stream (advance st r) streams

    row-Fits :
        AllValid (verify_rows sha256 streams (r ∷ rs))
        → Fits st r × AllValid (verify_rows sha256 next rs)
    unfolding verify_rows
    row-Fits h = elim (Result-cases (hash_entry sha256 r.entry (st.prev_seq + 1) st.prev_hash)) [
      | inr (x, e) ↦ absurd (rw (e, verify_rows) at h)
      | inl (x, e) ↦
          let h' = rw (e, verify_rows) at h in
          elim (Bool-cases (row_valid st r x)) [
            | inl v ↦
                let f = (row_valid_iff st r x).0 v in
                (
                  (f.0, e ∙ ap ok (sym f.1)),
                  rw (check_row-valid r.stream (st.prev_seq + 1) st r x v) at (h'.1),
                )
            | inr w ↦
                absurd
                  (false≢true (sym (check_row-invalid r.stream (st.prev_seq + 1) st r x w) ∙ h'.0))
          ]
    ]

    Fits-row :
        Fits st r × AllValid (verify_rows sha256 next rs)
        → AllValid (verify_rows sha256 streams (r ∷ rs))
    unfolding verify_rows
    Fits-row (f, h) =
        rw (f.1, verify_rows)
          (rw
            (check_row-valid r.stream (st.prev_seq + 1) st r r.hash
              ((row_valid_iff st r r.hash).1 (f.0, refl)))
            (refl, h))

    state_of_self : state_of r.stream next ≡ advance st r
    state_of_self =
        ap (λ o. or_else o fresh) (lookup-insert r.stream r.stream (advance st r) streams)
        ∙ rw (text_eq_refl r.stream)

    state_of_other : (s : Text) → text_eq r.stream s ≡ false → state_of s next ≡ state_of s streams
    state_of_other s h =
        ap (λ o. or_else o fresh) (lookup-insert r.stream s (advance st r) streams) ∙ rw h

  abbrev AcceptedIn : Dict StreamState → Text → List ChainedAuditEvent → Type 0
  AcceptedIn streams s rows =
      Accepted (state_of s streams).prev_seq (state_of s streams).prev_hash (of_stream s rows)

  module _ (streams : Dict StreamState) (r : ChainedAuditEvent) (rs : List ChainedAuditEvent) where
    own_stream :
        AcceptedIn streams r.stream (r ∷ rs)
        ↔ (Fits (state_of r.stream streams) r × AcceptedIn (next streams r rs) r.stream rs)
    unfolding advance
    own_stream =
        rw (text_eq_refl r.stream, state_of_self streams r rs)
          (λ a. ((a.0, a.1), a.2), λ a. (a.0.0, a.0.1, a.1))

    other_stream :
        (s : Text)
        → text_eq r.stream s ≡ false
        → AcceptedIn streams s (r ∷ rs) ↔ AcceptedIn (next streams r rs) s rs
    other_stream s h = rw (h, state_of_other streams r rs s h) (λ a. a, λ a. a)

  AllValid-Accepted :
      (streams : Dict StreamState) (rows : List ChainedAuditEvent)
      → AllValid (verify_rows sha256 streams rows)
      → (s : Text) → AcceptedIn streams s rows
  AllValid-Accepted streams [] a s = tt
  AllValid-Accepted streams (r ∷ rs) a s =
      let (f, rest) = row-Fits streams r rs a in
      let ih = AllValid-Accepted (next streams r rs) rs rest in
      elim (Bool-cases (text_eq r.stream s)) [
        | inl e ↦
            subst (λ t. AcceptedIn streams t (r ∷ rs)) ((text_eq_iff r.stream s).0 e)
              ((own_stream streams r rs).1 (f, ih r.stream))
        | inr e ↦ (other_stream streams r rs s e).1 (ih s)
      ]

  Accepted-AllValid :
      (streams : Dict StreamState) (rows : List ChainedAuditEvent)
      → ((s : Text) → AcceptedIn streams s rows)
      → AllValid (verify_rows sha256 streams rows)
  unfolding verify_rows
  Accepted-AllValid streams [] a = tt
  Accepted-AllValid streams (r ∷ rs) a =
      let own = (own_stream streams r rs).0 (a r.stream) in
      Fits-row streams r rs (
        own.0,
        Accepted-AllValid (next streams r rs) rs (λ s. elim (Bool-cases (text_eq r.stream s)) [
          | inl e ↦
              subst (λ t. AcceptedIn (next streams r rs) t rs) ((text_eq_iff r.stream s).0 e) own.1
          | inr e ↦ (other_stream streams r rs s e).0 (a s)
        ]),
      )

  -- `verifyChain` runs to its end and reports every row valid exactly when, in each stream, the rows of
  -- that stream carry the numbers 1, 2, … and each has the hash of its own fields, its number and the
  -- hash of the row before it, the first that of `GENESIS`. The streams may be interleaved.
  pub verify_chain-AllValid_iff :
      (rows : List ChainedAuditEvent)
      → AllValid (verify_chain sha256 rows) ↔ ((s : Text) → Accepted 0 genesis (of_stream s rows))
  unfolding verify_chain lookup
  verify_chain-AllValid_iff rows = (AllValid-Accepted [] rows, Accepted-AllValid [] rows)

  IsChain-Accepted :
      (n : ℕ) (p : Text) (rows : List ChainedAuditEvent)
      → IsChain sha256 n p rows
      → Accepted n p rows
  IsChain-Accepted n p [] h = tt
  IsChain-Accepted n p (r ∷ rs) h = (h.0, h.2, rw (h.0) (IsChain-Accepted (n + 1) r.hash rs h.3))

  pub of_stream-own :
      (s : Text) (rows : List ChainedAuditEvent)
      → All (λ e. e.stream ≡ s) (map (λ (r : ChainedAuditEvent). r.entry) rows)
      → of_stream s rows ≡ rows
  of_stream-own s [] h = refl
  of_stream-own s (r ∷ rs) h =
      rw ((text_eq_iff r.stream s).1 h.0) (ap (◌∷◌ r) (of_stream-own s rs h.1))

  pub of_stream-other :
      (s t : Text) (rows : List ChainedAuditEvent)
      → text_eq s t ≡ false
      → All (λ e. e.stream ≡ s) (map (λ (r : ChainedAuditEvent). r.entry) rows)
      → of_stream t rows ≡ []
  of_stream-other s t [] ne h = refl
  of_stream-other s t (r ∷ rs) ne h = rw (h.0, ne) (of_stream-other s t rs ne h.1)

  -- What `chainBatch` makes of a batch of one stream, from the start of that stream, `verifyChain` reports
  -- valid row by row to the end.
  pub verify_chain-chain_batch :
      (s : Text) (batch : List AuditEvent) (rows : List ChainedAuditEvent)
      → All (λ e. e.stream ≡ s) batch
      → chain_batch sha256 batch none ≡ ok rows
      → AllValid (verify_chain sha256 rows)
  verify_chain-chain_batch s batch rows own h =
      let (links, same) = chain_batch-IsChain sha256 batch none rows h in
      let own' = subst (All (λ e. e.stream ≡ s)) (sym same) own in
      (verify_chain-AllValid_iff rows).1 (λ t. elim (Bool-cases (text_eq s t)) [
        | inl e ↦
            subst (λ u. Accepted 0 genesis (of_stream u rows)) ((text_eq_iff s t).0 e)
              (rw (of_stream-own s rows own') (IsChain-Accepted 0 genesis rows links))
        | inr e ↦ rw (of_stream-other s t rows e own') tt
      ])
