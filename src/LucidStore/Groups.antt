-- ===== src/LucidStore/Groups.antt =====
-- The groups that the first loop of `write` makes, and the rows of a stream in a table.
use adonisjs_audit_trail.Common.{
  ◌≡◌, refl, ap, subst, Option, none, some, List, [], ◌∷◌, ◌++◌, inl, inr, All, Bool-cases,
  Option-cases,
}
use adonisjs_audit_trail.Common.Text.{Text, text_eq, text_eq_iff}
use adonisjs_audit_trail.Common.Dict.{Dict, lookup, insert}
use adonisjs_audit_trail.Errors.{ok, >>=-eq-ok, ok-injective}
use adonisjs_audit_trail.Types.{AuditEvent, ChainedAuditEvent, Head}
use adonisjs_audit_trail.HashChain.Links.{head_after}
use adonisjs_audit_trail.HashChain.Verify.{of_stream}
use adonisjs_audit_trail.LucidStore.{
  Audits, Sorted, sort_batch, sort_event, push_event, check_same, entry_of, find_row,
}

pub of_stream-append :
    (s : Text) (xs ys : Audits) → of_stream s (xs ++ ys) ≡ of_stream s xs ++ of_stream s ys
of_stream-append s [] ys = refl
of_stream-append s (x ∷ xs) ys = elim (Bool-cases (text_eq x.stream s)) [
  | inl e ↦ rw e (ap (◌∷◌ x) (of_stream-append s xs ys))
  | inr e ↦ rw e (of_stream-append s xs ys)
]

pub head_after-some : (h : Head) (rs : Audits) → (z : Head) × (head_after (some h) rs ≡ some z)
head_after-some h [] = (h, refl)
head_after-some h (r ∷ rs) = head_after-some _ rs

-- The events of each group are of the group's stream.
abbrev pub Grouped : Dict (List AuditEvent) → Type 0
Grouped [] = Unit
Grouped ((stream, events) ∷ groups) = All (λ e. e.stream ≡ stream) events × Grouped groups

All-snoc :
    (s : Text) (es : List AuditEvent) (e : AuditEvent)
    → All (λ e. e.stream ≡ s) es
    → e.stream ≡ s
    → All (λ e. e.stream ≡ s) (es ++ e ∷ [])
All-snoc s [] e h k = (k, tt)
All-snoc s (x ∷ xs) e h k = (h.0, All-snoc s xs e h.1 k)

Grouped-insert :
    (s : Text) (es : List AuditEvent) (groups : Dict (List AuditEvent))
    → All (λ e. e.stream ≡ s) es
    → Grouped groups
    → Grouped (insert s es groups)
unfolding insert
Grouped-insert s es [] h g = (h, tt)
Grouped-insert s es ((k, v) ∷ groups) h g = elim (Bool-cases (text_eq k s)) [
  | inl e ↦ rw (e, (text_eq_iff k s).0 e) (h, g.1)
  | inr e ↦ rw e (g.0, Grouped-insert s es groups h g.1)
]

Grouped-lookup :
    (s : Text) (es : List AuditEvent) (groups : Dict (List AuditEvent))
    → lookup s groups ≡ some es
    → Grouped groups
    → All (λ e. e.stream ≡ s) es
unfolding lookup
Grouped-lookup s es [] h g = cc
Grouped-lookup s es ((k, v) ∷ groups) h g = elim (Bool-cases (text_eq k s)) [
  | inl e ↦
      let same : v ≡ es = cc (rw (e, lookup) at h) in
      subst (All (λ e. e.stream ≡ s)) same
        (subst (λ t. All (λ e. e.stream ≡ t) v) ((text_eq_iff k s).0 e) g.0)
  | inr e ↦ Grouped-lookup s es groups (rw (e, lookup) at h) g.1
]

pub push_event-Grouped :
    (event : AuditEvent) (groups : Dict (List AuditEvent))
    → Grouped groups
    → Grouped (push_event event groups)
push_event-Grouped event groups g = elim (Option-cases (lookup event.stream groups)) [
  | inl e ↦ rw e (Grouped-insert event.stream (event ∷ []) groups (refl, tt) g)
  | inr (es, e) ↦ rw e (
      Grouped-insert event.stream (es ++ event ∷ []) groups
        (All-snoc event.stream es event (Grouped-lookup event.stream es groups e g) refl) g)
]

sort_event-Grouped :
    (event : AuditEvent) (stored : Option ChainedAuditEvent) (duplicate : Option AuditEvent)
    (sorted : Sorted)
    → Grouped sorted.1
    → Grouped (sort_event event stored duplicate sorted).1
sort_event-Grouped event (some row) duplicate (results, groups) g = g
sort_event-Grouped event none (some d) (results, groups) g = g
sort_event-Grouped event none none (results, groups) g = push_event-Grouped event groups g

pub sort_batch-Grouped :
    (iso : Text → Text) (t : Audits) (batch : List AuditEvent) (incoming : Dict AuditEvent)
    (sorted out : Sorted)
    → Grouped sorted.1
    → sort_batch iso t batch incoming sorted ≡ ok out
    → Grouped out.1
unfolding sort_batch
sort_batch-Grouped iso t [] incoming sorted out g h = subst (λ o. Grouped o.1) (ok-injective h) g
sort_batch-Grouped iso t (event ∷ batch) incoming sorted out g h =
    let (u, hu, h1) = >>=-eq-ok (check_same iso (lookup event.id incoming) event) _ h in
    let (v, hv, h2) = >>=-eq-ok (check_same iso (entry_of (find_row event.id t)) event) _ h1 in
    sort_batch-Grouped iso t batch (insert event.id event incoming) _ out
      (sort_event-Grouped event (find_row event.id t) (lookup event.id incoming) sorted g) h2
