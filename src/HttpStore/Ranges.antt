-- ===== src/HttpStore/Ranges.antt =====
-- `verify` of the HTTP store finds every range of what its writes keep valid.
use adonisjs_audit_trail.Common.{
  ℕ, ◌+◌, ◌-◌, ◌<◌, ◌≤◌, ◌≡◌, refl, subst, true, false, ◌&&◌, Option, none, some, List, [], ◌∷◌,
  inl, inr, arith, Bool-cases, leb,
}
use adonisjs_audit_trail.Common.Text.{Text}
use adonisjs_audit_trail.Json.{JsonText}
use adonisjs_audit_trail.Types.{ChainedAuditEvent}
use adonisjs_audit_trail.HashChain.Links.{IsChain}
use adonisjs_audit_trail.HashChain.Verify.{Accepted, AllValid}
use adonisjs_audit_trail.LucidStore.Query.{number_filter}
use adonisjs_audit_trail.LucidStore.Sealed.{check_rows-AllValid}
use adonisjs_audit_trail.HttpStore.{HttpStore, log_of}
use adonisjs_audit_trail.HttpStore.Verify.{
  in_range, filtered, state_before, verify_filtered, verify_rows, verify,
}
use adonisjs_audit_trail.HttpStore.Written.{Kept}

-- No number above `n` is in the range.
abbrev Over : Option ℕ → ℕ → Type 0
Over none n = ⊥
Over (some to) n = to ≤ n

Over-suc : (to_seq : Option ℕ) (n : ℕ) → Over to_seq n → Over to_seq (n + 1)
Over-suc none n over = over
Over-suc (some to) n over = omega (arith, over)

Over-false :
    (to_seq : Option ℕ) (n m : ℕ) → Over to_seq n → n < m → number_filter (leb m) to_seq ≡ false
Over-false none n m over lt = absurd over
Over-false (some to) n m over lt = ground (arith, over, lt)

-- A number in the range, and the next one out of it.
leaves :
    (from_seq to_seq : Option ℕ) (n : ℕ)
    → (number_filter (λ k. leb k n) from_seq ≡ true)
    → (number_filter (λ k. leb k (n + 1)) from_seq && number_filter (leb (n + 1)) to_seq) ≡ false
    → Over to_seq n
leaves none none n low out = cc
leaves (some k) none n low out = ground (arith, low, out)
leaves none (some to) n low out = ground (arith, out)
leaves (some k) (some to) n low out = ground (arith, low, out)

stays_above :
    (from_seq : Option ℕ) (n : ℕ)
    → number_filter (λ k. leb k n) from_seq ≡ true
    → number_filter (λ k. leb k (n + 1)) from_seq ≡ true
stays_above none n low = refl
stays_above (some k) n low = ground (arith, low)

module _ (sha256 : JsonText → Text) (from_seq to_seq : Option ℕ) where
  filtered-Over :
      (n : ℕ) (p : Text) (rows : List ChainedAuditEvent)
      → IsChain sha256 n p rows
      → Over to_seq n
      → filtered from_seq to_seq rows ≡ []
  filtered-Over n p [] c over = refl
  filtered-Over n p (r ∷ rows) c over =
      let out = Over-false to_seq n r.seq over (omega (arith, c.0)) in
      let rest = filtered-Over (n + 1) r.hash rows (c.3) (Over-suc to_seq n over) in
      ground (arith, out, rest)

  -- Rows after one in the range: those in the range come first.
  filtered-Accepted :
      (n : ℕ) (p : Text) (rows : List ChainedAuditEvent)
      → IsChain sha256 n p rows
      → number_filter (λ k. leb k n) from_seq ≡ true
      → Accepted sha256 n p (filtered from_seq to_seq rows)
  filtered-Accepted n p [] c low = tt
  filtered-Accepted n p (r ∷ rows) c low = elim (Bool-cases (in_range from_seq to_seq r)) [
    | inl e ↦ rw e (
      c.0,
      c.2,
      rw (c.0) (filtered-Accepted (n + 1) r.hash rows (c.3) (stays_above from_seq n low)),
    )
    | inr e ↦
        let over = leaves from_seq to_seq n low (rw (c.0) at e) in
        rw (e, filtered-Over (n + 1) r.hash rows (c.3) (Over-suc to_seq n over)) tt
  ]

  -- The row before is that of the chain, or there is none.
  Before : ℕ → Text → Option ChainedAuditEvent → Type 0
  Before n p none = Unit
  Before n p (some q) = (q.seq ≡ n) × (q.hash ≡ p)

  first_in_range :
      (n : ℕ) (p : Text) (previous : Option ChainedAuditEvent) (r : ChainedAuditEvent)
      (rows : List ChainedAuditEvent)
      → Before n p previous
      → IsChain sha256 n p (r ∷ rows)
      → number_filter (λ k. leb k r.seq) from_seq ≡ true
      → (stream : Text)
      → AllValid (verify_filtered sha256 stream previous (r ∷ filtered from_seq to_seq rows))
  unfolding Before
  first_in_range n p none r rows b c low stream =
      let seq-pred : r.seq - 1 ≡ n = omega (arith, c.0) in
      check_rows-AllValid sha256 stream (state_before none r) (r ∷ filtered from_seq to_seq rows) (
        rw seq-pred (c.0),
        rw (seq-pred, c.1) (c.2),
        rw (c.0) (
            filtered-Accepted (n + 1) r.hash rows (c.3)
              (subst (λ m. number_filter (λ k. leb k m) from_seq ≡ true) (c.0) low)),
      )
  first_in_range n p (some q) r rows b c low stream =
      check_rows-AllValid sha256 stream (state_before (some q) r)
        (r ∷ filtered from_seq to_seq rows)
        (
          rw (b.0) (c.0),
          rw (b.0, b.1) (c.2),
          rw (c.0) (
              filtered-Accepted (n + 1) r.hash rows (c.3)
                (subst (λ m. number_filter (λ k. leb k m) from_seq ≡ true) (c.0) low)),
        )

  verify_rows-AllValid :
      (stream : Text) (n : ℕ) (p : Text) (previous : Option ChainedAuditEvent)
      (rows : List ChainedAuditEvent)
      → Before n p previous
      → IsChain sha256 n p rows
      → AllValid (verify_rows sha256 stream from_seq to_seq previous rows)
  unfolding Before
  verify_rows-AllValid stream n p previous [] b c = (refl, tt)
  verify_rows-AllValid stream n p previous (r ∷ rows) b c =
      elim (Bool-cases (in_range from_seq to_seq r)) [
        | inl e ↦
            let low : number_filter (λ k. leb k r.seq) from_seq ≡ true = ground (arith, e) in
            rw e (first_in_range n p previous r rows b c low stream)
        | inr e ↦ rw e (verify_rows-AllValid stream (n + 1) r.hash (some r) rows (c.0, refl) (c.3))
      ]

module _ (sha256 : JsonText → Text) where
  -- Where what the store keeps of every stream is the end of a chain, `verify` of any range of any stream
  -- ends and reports every row valid, also after older rows were evicted.
  pub verify-Kept :
      (st : HttpStore) (stream : Text) (from_seq to_seq : Option ℕ)
      → Kept sha256 st
      → AllValid (verify sha256 stream from_seq to_seq st)
  unfolding verify Before
  verify-Kept st stream from_seq to_seq v =
      verify_rows-AllValid sha256 from_seq to_seq stream (v stream).base_seq (v stream).base_hash
        none (log_of stream st.logs) tt (v stream).chain
