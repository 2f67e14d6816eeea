-- ===== src/Outbox/Delivery.antt =====
-- The number that `drain` returns, the rows that it settles, and the exclusion between claims.
use adonisjs_audit_trail.Common.{
  ℕ, suc, ◌+◌, ◌≤◌, ◌≡◌, Bool, true, false, ◌&&◌, not, Option, none, some, List, [], ◌∷◌, inl, inr,
  arith, Bool-cases, Option-cases, ◌==◌,
}
use adonisjs_audit_trail.Common.Text.{Text}
use adonisjs_audit_trail.Errors.{Result, ok, err, AuditError}
use adonisjs_audit_trail.Json.{Value}
use adonisjs_audit_trail.Outbox.{
  OutboxOptions, OutboxRow, Table, update, due, has_id, claim, ack, fail, fail_row, held, claimable,
  claim_row, ack_row, gives_up, attempts_of,
}
use adonisjs_audit_trail.Outbox.Payload.{normalize_payload}
use adonisjs_audit_trail.Outbox.Drain.{Clock, drain_row, drain_rows, drain, finish_row}
use adonisjs_audit_trail.Outbox.Counting.{count, update-count, count-update_ge, count-update_none}
use adonisjs_audit_trail.Outbox.Progress.{
  Keyed, done, count-disjoint, claim-done, claim-Keyed, claim-held, ack-done, ack-Keyed, fail-done,
  fail-Keyed,
}

-- The rows of a table that may be missing.
abbrev pub rows_of : Option Table → Table
rows_of none = []
rows_of (some t) = t

module _ (c : OutboxOptions) (parse : Text → Option Value) (deliver : List Value → Option Text)
    (message : AuditError → Text) where
  -- What a round keeps and counts.
  record Counted (t : Table) (u : Table) (n : ℕ) : Type 0 where
    pub keyed : Keyed u
    pub counted : count done u ≡ count done t + n

  finish_row-Counted :
      (row : OutboxRow) (attempts now : ℕ) (r : Result (List Value)) (t : Table)
      → Keyed t
      → count (held row.id) t ≡ 1
      → Counted t
          (finish_row c parse deliver message row attempts now r t).0
          (finish_row c parse deliver message row attempts now r t).1
  unfolding finish_row
  finish_row-Counted row attempts now (err e) t k h = record {
    keyed = fail-Keyed c row.id attempts (message e) true now t k;
    counted = omega (arith, fail-done c row.id attempts (message e) true now t);
  }
  finish_row-Counted row attempts now (ok events) t k h = elim (Option-cases (deliver events)) [
    | inl e ↦
        rw (e, finish_row)
          (record {
            keyed = ack-Keyed c row.id now t k;
            counted = omega (arith, ack-done c row.id now t);
          })
    | inr (m, e) ↦
        rw (e, finish_row)
          (record {
            keyed = fail-Keyed c row.id attempts m false now t k;
            counted = omega (arith, fail-done c row.id attempts m false now t);
          })
  ]

  drain_row-Counted :
      (clock : Clock) (row : OutboxRow) (t : Table)
      → Keyed t
      → Counted t
          (drain_row c parse deliver message clock row t).0
          (drain_row c parse deliver message clock row t).1
  unfolding drain_row
  drain_row-Counted clock row t k =
      let n = attempts_of row + 1 in
      let same = claim-done c row.id clock.claims n t in
      let key = claim-Keyed c row.id clock.claims n t k in
      elim (Bool-cases ((claim c row.id clock.claims n t).1 == 0)) [
        | inl z ↦ rw (z, drain_row) (record { keyed = key; counted = omega (arith, same) })
        | inr z ↦
            let w =
              finish_row-Counted row n clock.ends (normalize_payload parse row.payload)
                (claim c row.id clock.claims n t).0 key
                (claim-held c row.id clock.claims n t k z) in
            rw (z, drain_row) (record { keyed = w.keyed; counted = omega (arith, w.counted, same) })
      ]

  drain_rows-Counted :
      (clocks : ℕ → Clock) (rows t : Table)
      → Keyed t
      → Counted t
          (drain_rows c parse deliver message clocks rows t).0
          (drain_rows c parse deliver message clocks rows t).1
  unfolding drain_rows
  drain_rows-Counted clocks [] t k = record { keyed = k; counted = omega arith }
  drain_rows-Counted clocks (row ∷ rows) t k =
      let w = drain_row-Counted (clocks 0) row t k in
      let v = drain_rows-Counted (λ i. clocks (suc i)) rows _ w.keyed in
      record { keyed = v.keyed; counted = omega (arith, w.counted, v.counted) }

  -- On a table whose identifiers are distinct, and while no other worker runs, the number that `drain`
  -- returns is the number of rows that it has brought to `processed`: it takes no row out of that status.
  pub drain-count :
      (limit now : ℕ) (clocks : ℕ → Clock) (t : Table)
      → Keyed t
      → count done (rows_of (drain c parse deliver message limit now clocks (some t)).0)
        ≡ count done t + (drain c parse deliver message limit now clocks (some t)).1
  unfolding drain
  drain-count limit now clocks t k = (drain_rows-Counted clocks _ t k).counted

  fail_row-held :
      (id : Text) (b : Bool) (now : ℕ) (m : Text) (r : OutboxRow)
      → held id (fail_row c b now m r) ≡ false
  fail_row-held id true now m r = ground arith
  fail_row-held id false now m r = ground arith

  fail-held :
      (id : Text) (n : ℕ) (m : Text) (b : Bool) (now : ℕ) (t : Table)
      → count (held id) (fail c id n m b now t) ≡ 0
  unfolding fail
  fail-held id n m b now t =
      let g = gives_up c n b in
      count-update_none (held id) (fail_row c g now m) (held id) t (λ r h. h)
        (λ r h. fail_row-held id g now m r)

  ack-held : (id : Text) (now : ℕ) (t : Table) → count (held id) (ack c id now t) ≡ 0
  unfolding ack
  ack-held id now t =
      count-update_none (held id) (ack_row now) (held id) t (λ r h. h) (λ r h. ground arith)

  -- Whatever the payload and whatever the store does, no row of that identifier is still `processing`
  -- when a round that claimed it ends.
  finish_row-held :
      (row : OutboxRow) (attempts now : ℕ) (r : Result (List Value)) (t : Table)
      → count (held row.id) (finish_row c parse deliver message row attempts now r t).0 ≡ 0
  unfolding finish_row
  finish_row-held row attempts now (err e) t = fail-held row.id attempts (message e) true now t
  finish_row-held row attempts now (ok events) t = elim (Option-cases (deliver events)) [
    | inl e ↦ rw (e, finish_row) (ack-held row.id now t)
    | inr (m, e) ↦ rw (e, finish_row) (fail-held row.id attempts m false now t)
  ]

  -- Whatever the payload and whatever the store does, a round of `drain` whose claim affects a row leaves
  -- no row of that identifier in `processing`.
  pub drain_row-held :
      (clock : Clock) (row : OutboxRow) (t : Table)
      → ((claim c row.id clock.claims (attempts_of row + 1) t).1 == 0) ≡ false
      → count (held row.id) (drain_row c parse deliver message clock row t).0 ≡ 0
  unfolding drain_row
  drain_row-held clock row t z =
      rw (z, drain_row)
        (finish_row-held row (attempts_of row + 1) clock.ends (normalize_payload parse row.payload)
          (claim c row.id clock.claims (attempts_of row + 1) t).0)

module _ (c : OutboxOptions) where
  abbrev busy : Text → ℕ → OutboxRow → Bool
  busy id now r = has_id id r && not (due c.stale_claim_ms now r)

  -- While the claim of a worker is not stale, no other claim of that row takes effect: if the claim at `a`
  -- affects a row of a table with distinct identifiers, the next claim of the row affects none until more
  -- than `staleClaimMs` have passed.
  pub claim_excludes :
      (id : Text) (a b n m : ℕ) (t : Table)
      → Keyed t
      → ((claim c id a n t).1 == 0) ≡ false
      → b ≤ a + c.stale_claim_ms
      → (claim c id b m (claim c id a n t).0).1 ≡ 0
  unfolding claim
  claim_excludes id a b n m t k h le =
      let w = claimable c id a in
      let f = claim_row a n in
      let u = (update w f t).0 in
      let key = claim-Keyed c id a n t k id in
      let some_ = update-count w f t in
      let in_ = count-update_ge w f (busy id b) t (λ r e. ground (arith, le)) in
      let apart =
        count-disjoint (busy id b) (claimable c id b) (has_id id) u (λ r e. ground arith)
          (λ r e. (ground arith, ground arith)) in
      let none_ = update-count (claimable c id b) (claim_row b m) u in ground arith
