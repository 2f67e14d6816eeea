-- ===== src/Outbox/Requeue.antt =====
-- The number that `requeue` returns.
use adonisjs_audit_trail.Common.{
  ℕ, suc, ◌+◌, ◌≡◌, refl, Bool, true, false, ◌&&◌, some, [], ◌∷◌, arith, if◌then◌else◌, ◌==◌,
}
use adonisjs_audit_trail.Common.Text.{Text}
use adonisjs_audit_trail.Outbox.{
  OutboxRow, OutboxStatus, pending, processing, processed, failed, Table, is_pending, is_failed,
  has_id, stuck, requeued_row, requeue_row,
}
use adonisjs_audit_trail.Outbox.Drain.{requeue_rows, requeue}
use adonisjs_audit_trail.Outbox.Counting.{
  count, count-le, update-count, count-update_new, count-update_out,
}
use adonisjs_audit_trail.Outbox.Progress.{Keyed, update-Keyed}
use adonisjs_audit_trail.Outbox.Delivery.{rows_of}

abbrev pub dead : OutboxRow → Bool
dead r = is_failed r.status

abbrev pub open_ : OutboxRow → Bool
open_ r = is_pending r.status

-- A table whose failed rows have become `n` fewer, and whose pending rows `n` more.
abbrev Moved : Table → Table → ℕ → Type 0
Moved t u n = Keyed u × (count dead u + n ≡ count dead t) × (count open_ u ≡ count open_ t + n)

stuck-not_open : (id : Text) (r : OutboxRow) → stuck id r ≡ true → open_ r ≡ false
stuck-not_open id r h = status r.status (has_id id r) h
  where
    status : (s : OutboxStatus) (a : Bool) → (a && is_failed s) ≡ true → is_pending s ≡ false
    status pending false e = cc
    status pending true e = cc
    status processing a e = refl
    status processed a e = refl
    status failed a e = refl

stuck-dead : (id : Text) (r : OutboxRow) → stuck id r ≡ true → dead r ≡ true
stuck-dead id r h = ground arith

requeue_row-Moved :
    (id : Text) (now : ℕ) (t : Table)
    → Keyed t
    → Moved t (requeue_row id now t).0 (if (requeue_row id now t).1 == 0 then 0 else 1)
unfolding requeue_row
requeue_row-Moved id now t k =
    let w = stuck id in
    let f = requeued_row now in
    let n = update-count w f t in
    let le = count-le w (has_id id) t (λ r h. ground arith) in
    let key = k id in
    let out = count-update_out w f dead t (λ r h. stuck-dead id r h) (λ r h. refl) in
    let new = count-update_new w f open_ t (λ r h. stuck-not_open id r h) (λ r h. refl) in
    (update-Keyed w f t (λ r. refl) k, ground arith, ground arith)

requeue_rows-Moved :
    (times : ℕ → ℕ) (rows t : Table)
    → Keyed t
    → Moved t (requeue_rows times rows t).0 (requeue_rows times rows t).1
unfolding requeue_rows
requeue_rows-Moved times [] t k = (k, omega arith, omega arith)
requeue_rows-Moved times (row ∷ rows) t k =
    let (k', out, new) = requeue_row-Moved row.id (times 0) t k in
    let (k'', outs, news) = requeue_rows-Moved (λ i. times (suc i)) rows _ k' in
    (k'', omega (arith, out, outs), omega (arith, new, news))

-- On a table whose identifiers are distinct, and while no worker runs, `requeue` returns the number of rows
-- by which the failed ones become fewer and the pending ones more.
pub requeue-count :
    (limit : ℕ) (times : ℕ → ℕ) (t : Table)
    → Keyed t
    → (count dead (rows_of (requeue limit times (some t)).0) + (requeue limit times (some t)).1
        ≡ count dead t)
      × (count open_ (rows_of (requeue limit times (some t)).0)
          ≡ count open_ t + (requeue limit times (some t)).1)
unfolding requeue
requeue-count limit times t k = let (k', out, new) = requeue_rows-Moved times _ t k in (out, new)
