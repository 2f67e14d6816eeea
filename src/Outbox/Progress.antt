-- ===== src/Outbox/Progress.antt =====
-- What a drain does to the outbox: the rows that it reports, the rows that it leaves, and its claims.
use adonisjs_audit_trail.Common.{
  ℕ, ◌+◌, ◌≤◌, ◌≡◌, refl, sym, ◌∙◌, Bool, true, false, ◌&&◌, ◌||◌, [], ◌∷◌, arith, ◌==◌,
}
use adonisjs_audit_trail.Common.Text.{Text}
use adonisjs_audit_trail.Outbox.{
  OutboxOptions, OutboxRow, OutboxStatus, pending, processing, processed, failed, Table, update,
  is_pending, is_processing, is_processed, has_id, claim, ack, fail, fail_row, held, claimable,
  claim_row, ack_row, gives_up,
}
use adonisjs_audit_trail.Outbox.Counting.{
  count, Within, count-le, update-count, count-update_same, count-update_new, count-update_ge,
}

-- The identifiers are a key of the table.
abbrev pub Keyed : Table → Type 0
Keyed t = (id : Text) → count (has_id id) t ≤ 1

abbrev pub done : OutboxRow → Bool
done r = is_processed r.status

pub update-Keyed :
    (w : OutboxRow → Bool) (f : OutboxRow → OutboxRow) (t : Table)
    → ((r : OutboxRow) → (f r).id ≡ r.id)
    → Keyed t
    → Keyed (update w f t).0
update-Keyed w f t same k i =
    omega (arith, k i, count-update_same w f (has_id i) t (λ r h. rw (same r)))

pub count-none :
    (p : OutboxRow → Bool) (t : Table) → ((r : OutboxRow) → p r ≡ false) → count p t ≡ 0
count-none p [] h = refl
count-none p (r ∷ rs) h = ground (arith, h r, count-none p rs h)

-- Two tests that exclude each other share the rows of a third.
pub count-disjoint :
    (a b q : OutboxRow → Bool) (t : Table)
    → Within a q
    → ((r : OutboxRow) → b r ≡ true → (q r ≡ true) × (a r ≡ false))
    → count a t + count b t ≤ count q t
count-disjoint a b q [] h k = omega arith
count-disjoint a b q (r ∷ rs) h k = ground (arith, h r, k r, count-disjoint a b q rs h k)

held-has_id : (id : Text) → Within (held id) (has_id id)
held-has_id id r h = ground arith

held-not_done : (id : Text) (r : OutboxRow) → held id r ≡ true → done r ≡ false
held-not_done id r h = status r.status (has_id id r) h
  where
    status : (s : OutboxStatus) (a : Bool) → (a && is_processing s) ≡ true → is_processed s ≡ false
    status pending a e = refl
    status processing a e = refl
    status processed false e = cc
    status processed true e = cc
    status failed a e = refl

module _ (c : OutboxOptions) where
  due-not_done :
      (id : Text) (now : ℕ) (r : OutboxRow) → claimable c id now r ≡ true → done r ≡ false
  due-not_done id now r h = status r.status (has_id id r) _ _ h
    where
      status :
          (s : OutboxStatus) (a b d : Bool)
          → (a && ((is_pending s && b) || (is_processing s && d))) ≡ true
          → is_processed s ≡ false
      status pending a b d e = refl
      status processing a b d e = refl
      status processed false b d e = cc
      status processed true b d e = cc
      status failed a b d e = refl

  pub claim-done :
      (id : Text) (now n : ℕ) (t : Table) → count done (claim c id now n t).0 ≡ count done t
  unfolding claim
  claim-done id now n t =
      count-update_same (claimable c id now) (claim_row now n) done t
        (λ r h. sym (due-not_done id now r h))

  pub claim-Keyed : (id : Text) (now n : ℕ) (t : Table) → Keyed t → Keyed (claim c id now n t).0
  unfolding claim
  claim-Keyed id now n t = update-Keyed (claimable c id now) (claim_row now n) t (λ r. refl)

  -- A claim that affects a row holds exactly that row.
  pub claim-held :
      (id : Text) (now n : ℕ) (t : Table)
      → Keyed t
      → ((claim c id now n t).1 == 0) ≡ false
      → count (held id) (claim c id now n t).0 ≡ 1
  unfolding claim
  claim-held id now n t k h =
      let w = claimable c id now in
      let f = claim_row now n in
      let key = claim-Keyed id now n t k id in
      let some_ = update-count w f t in
      let in_ = count-update_ge w f (held id) t (λ r e. ground arith) in
      let le = count-le (held id) (has_id id) (update w f t).0 (held-has_id id) in ground arith

  -- An acknowledgement adds the rows that it holds to the processed ones.
  pub ack-done :
      (id : Text) (now : ℕ) (t : Table)
      → count done (ack c id now t) ≡ count done t + count (held id) t
  unfolding ack
  ack-done id now t =
      count-update_new (held id) (ack_row now) done t (λ r h. held-not_done id r h) (λ r h. refl)

  pub ack-Keyed : (id : Text) (now : ℕ) (t : Table) → Keyed t → Keyed (ack c id now t)
  unfolding ack
  ack-Keyed id now t = update-Keyed (held id) (ack_row now) t (λ r. refl)

  fail_row-id : (b : Bool) (now : ℕ) (m : Text) (r : OutboxRow) → (fail_row c b now m r).id ≡ r.id
  fail_row-id true now m r = refl
  fail_row-id false now m r = refl

  fail_row-done :
      (b : Bool) (now : ℕ) (m : Text) (r : OutboxRow) → done (fail_row c b now m r) ≡ false
  fail_row-done true now m r = refl
  fail_row-done false now m r = refl

  pub fail-done :
      (id : Text) (n : ℕ) (m : Text) (b : Bool) (now : ℕ) (t : Table)
      → count done (fail c id n m b now t) ≡ count done t
  unfolding fail
  fail-done id n m b now t =
      let g = gives_up c n b in
      count-update_same (held id) (fail_row c g now m) done t
        (λ r h. fail_row-done g now m r ∙ sym (held-not_done id r h))

  pub fail-Keyed :
      (id : Text) (n : ℕ) (m : Text) (b : Bool) (now : ℕ) (t : Table)
      → Keyed t
      → Keyed (fail c id n m b now t)
  unfolding fail
  fail-Keyed id n m b now t =
      let g = gives_up c n b in
      update-Keyed (held id) (fail_row c g now m) t (λ r. fail_row-id g now m r)
