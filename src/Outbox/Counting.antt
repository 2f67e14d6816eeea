-- ===== src/Outbox/Counting.antt =====
-- What an update does to the numbers of rows that satisfy a test.
use adonisjs_audit_trail.Common.{
  ℕ, ◌+◌, ◌≤◌, ◌≡◌, refl, Bool, true, false, [], ◌∷◌, arith, if◌then◌else◌,
}
use adonisjs_audit_trail.Outbox.{OutboxRow, Table, update}

abbrev pub count : (OutboxRow → Bool) → Table → ℕ
count test [] = 0
count test (r ∷ rs) = (if test r then 1 else 0) + count test rs

-- A test implies another on every row.
abbrev pub Within : (OutboxRow → Bool) → (OutboxRow → Bool) → Type 0
Within a b = (r : OutboxRow) → a r ≡ true → b r ≡ true

pub count-le : (a b : OutboxRow → Bool) (t : Table) → Within a b → count a t ≤ count b t
count-le a b [] h = omega arith
count-le a b (r ∷ rs) h = ground (arith, h r, count-le a b rs h)

module _ (w : OutboxRow → Bool) (f : OutboxRow → OutboxRow) where
  pub update-count : (t : Table) → (update w f t).1 ≡ count w t
  unfolding update
  update-count [] = refl
  update-count (r ∷ rs) = ground (arith, update-count rs)

  module _ (p : OutboxRow → Bool) where
    -- A change that a test does not see.
    pub count-update_same :
        (t : Table)
        → ((r : OutboxRow) → w r ≡ true → p (f r) ≡ p r)
        → count p (update w f t).0 ≡ count p t
    unfolding update
    count-update_same [] h = refl
    count-update_same (r ∷ rs) h = ground (arith, h r, count-update_same rs h)

    -- A change that brings rows under a test under which they were not.
    pub count-update_new :
        (t : Table)
        → ((r : OutboxRow) → w r ≡ true → p r ≡ false)
        → ((r : OutboxRow) → w r ≡ true → p (f r) ≡ true)
        → count p (update w f t).0 ≡ count p t + count w t
    unfolding update
    count-update_new [] h k = refl
    count-update_new (r ∷ rs) h k = ground (arith, h r, k r, count-update_new rs h k)

    pub count-update_ge :
        (t : Table)
        → ((r : OutboxRow) → w r ≡ true → p (f r) ≡ true)
        → count w t ≤ count p (update w f t).0
    unfolding update
    count-update_ge [] h = omega arith
    count-update_ge (r ∷ rs) h = ground (arith, h r, count-update_ge rs h)

    -- Where the changed rows are those under a test, and the change takes them out, none is left.
    pub count-update_none :
        (t : Table)
        → Within p w
        → ((r : OutboxRow) → w r ≡ true → p (f r) ≡ false)
        → count p (update w f t).0 ≡ 0
    unfolding update
    count-update_none [] h k = refl
    count-update_none (r ∷ rs) h k = ground (arith, h r, k r, count-update_none rs h k)

    -- A change that takes rows out of a test.
    pub count-update_out :
        (t : Table)
        → Within w p
        → ((r : OutboxRow) → w r ≡ true → p (f r) ≡ false)
        → count p (update w f t).0 + count w t ≡ count p t
    unfolding update
    count-update_out [] h k = refl
    count-update_out (r ∷ rs) h k = ground (arith, h r, k r, count-update_out rs h k)
