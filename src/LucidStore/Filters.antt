-- ===== src/LucidStore/Filters.antt =====
-- What `query` returns against the meaning of each filter.
use adonisjs_audit_trail.Common.{
  ℕ, zero, suc, ◌≤◌, ◌<◌, ◌≡◌, ◌↔◌, ◌⊎◌, refl, sym, ap, subst, ◌∙◌, Bool, true, false, ◌&&◌,
  false≢true, Option, none, some, List, [], ◌∷◌, inl, inr, arith, All, In, Bool-cases, leb, ltb,
  length, take,
}
use adonisjs_audit_trail.Common.Text.{Text, text_eq, text_eq_iff}
use adonisjs_audit_trail.Types.{ChainedAuditEvent}
use adonisjs_audit_trail.LucidStore.{Audits}
use adonisjs_audit_trail.LucidStore.Rows.{insert_by_seq, order_by_seq}
use adonisjs_audit_trail.LucidStore.Query.{
  AuditQueryFilters, text_filter, column_is, one_of, event_filter, number_filter, selects,
  filter_rows, limit_of, query,
}

-- A filter on a text asks nothing where it is absent or empty.
abbrev pub Asks : (Text → Type 0) → Option Text → Type 0
Asks P none = Unit
Asks P (some []) = Unit
Asks P (some (c ∷ cs)) = P (c ∷ cs)

abbrev pub AsksNumber : (ℕ → Type 0) → Option ℕ → Type 0
AsksNumber P none = Unit
AsksNumber P (some n) = P n

abbrev pub AsksEvent : Text → Option (List Text) → Type 0
AsksEvent event none = Unit
AsksEvent event (some events) = In event events

and_iff :
    {P Q : Type 0} (a : Bool) {b : Bool}
    → (a ≡ true) ↔ P
    → (b ≡ true) ↔ Q
    → (a && b ≡ true) ↔ (P × Q)
and_iff true h k = (λ e. (h.0 refl, k.0 e), λ p. k.1 p.1)
and_iff false h k = (λ e. absurd (false≢true e), λ p. h.1 p.0)

text_filter_iff :
    (P : Text → Type 0) (test : Text → Bool) (o : Option Text)
    → ((t : Text) → (test t ≡ true) ↔ P t)
    → (text_filter test o ≡ true) ↔ Asks P o
text_filter_iff P test none h = (λ e. tt, λ p. refl)
text_filter_iff P test (some []) h = (λ e. tt, λ p. refl)
text_filter_iff P test (some (c ∷ cs)) h = h (c ∷ cs)

number_filter_iff :
    (P : ℕ → Type 0) (test : ℕ → Bool) (o : Option ℕ)
    → ((n : ℕ) → (test n ≡ true) ↔ P n)
    → (number_filter test o ≡ true) ↔ AsksNumber P o
number_filter_iff P test none h = (λ e. tt, λ p. refl)
number_filter_iff P test (some n) h = h n

column_is_iff : (column : Option Text) (t : Text) → (column_is column t ≡ true) ↔ (column ≡ some t)
column_is_iff none t = (λ e. absurd (false≢true e), λ e. cc)
column_is_iff (some u) t = (λ e. ap some ((text_eq_iff u t).0 e), λ e. (text_eq_iff u t).1 cc)

one_of_iff : (events : List Text) (event : Text) → (one_of events event ≡ true) ↔ In event events
one_of_iff [] event = (λ e. false≢true e, λ p. absurd p)
one_of_iff (u ∷ us) event =
    let ih = one_of_iff us event in
    elim (Bool-cases (text_eq u event)) [
      | inl e ↦ rw e (λ h. inl ((text_eq_iff u event).0 e), λ p. refl)
      | inr e ↦ rw e (
        λ h. inr (ih.0 h),
        λ p. elim p [
          | inl same ↦ absurd (false≢true (sym e ∙ (text_eq_iff u event).1 same))
          | inr rest ↦ ih.1 rest
        ],
      )
    ]

event_filter_iff :
    (o : Option (List Text)) (event : Text) → (event_filter o event ≡ true) ↔ AsksEvent event o
event_filter_iff none event = (λ e. tt, λ p. refl)
event_filter_iff (some events) event = one_of_iff events event

leb_iff : (m n : ℕ) → (leb m n ≡ true) ↔ (m ≤ n)
leb_iff m n = (λ e. ground arith, λ h. ground arith)

ltb_iff : (m n : ℕ) → (ltb m n ≡ true) ↔ (m < n)
ltb_iff m n = (λ e. ground arith, λ h. ground arith)

length-take_le : (n : ℕ) (rs : Audits) → length (take n rs) ≤ n
length-take_le zero rs = omega arith
length-take_le (suc n) [] = omega arith
length-take_le (suc n) (r ∷ rs) = omega (arith, length-take_le n rs)

-- As many as asked for, or all.
take-all : (n : ℕ) (rs : Audits) → (length (take n rs) ≡ n) ⊎ (take n rs ≡ rs)
take-all zero rs = inl refl
take-all (suc n) [] = inr refl
take-all (suc n) (r ∷ rs) = elim (take-all n rs) [
  | inl e ↦ inl (ap suc e)
  | inr e ↦ inr (ap (λ l. r ∷ l) e)
]

In-insert_by_seq :
    (x r : ChainedAuditEvent) (rs : Audits) → (r ≡ x) ⊎ In x rs → In x (insert_by_seq r rs)
In-insert_by_seq x r [] h = h
In-insert_by_seq x r (s ∷ rs) h = elim (Bool-cases (leb r.seq s.seq)) [
  | inl e ↦ rw e h
  | inr e ↦ rw e (elim h [
    | inl same ↦ inr (In-insert_by_seq x r rs (inl same))
    | inr (inl same) ↦ inl same
    | inr (inr rest) ↦ inr (In-insert_by_seq x r rs (inr rest))
  ])
]

In-order_by_seq : (x : ChainedAuditEvent) (rs : Audits) → In x rs → In x (order_by_seq rs)
In-order_by_seq x [] h = h
In-order_by_seq x (r ∷ rs) h =
    In-insert_by_seq x r (order_by_seq rs)
      (elim h [ inl e ↦ inl e | inr e ↦ inr (In-order_by_seq x rs e) ])

module _ (created_le : Text → Text → Bool) (f : AuditQueryFilters) where
  -- The row has what each of the twelve filters asks for. A column that is NULL has no text.
  abbrev pub Meets : ChainedAuditEvent → Type 0
  Meets r =
      Asks (λ t. r.stream ≡ t) f.stream
      × AsksEvent r.event f.event
      × Asks (λ t. r.auditable_type ≡ some t) f.auditable_type
      × Asks (λ t. r.auditable_id ≡ some t) f.auditable_id
      × Asks (λ t. r.actor.type ≡ t) f.actor_type
      × Asks (λ t. r.actor.id ≡ some t) f.actor_id
      × Asks (λ t. r.tenant_id ≡ some t) f.tenant_id
      × AsksNumber (λ n. n ≤ r.seq) f.from_seq
      × AsksNumber (λ n. r.seq ≤ n) f.to_seq
      × Asks (λ t. created_le t r.created_at ≡ true) f.from_created_at
      × Asks (λ t. created_le r.created_at t ≡ true) f.to_created_at
      × AsksNumber (λ n. n < r.seq) f.cursor

  selects-Meets_iff : (r : ChainedAuditEvent) → (selects created_le f r ≡ true) ↔ Meets r
  unfolding selects
  selects-Meets_iff r =
      let all =
        and_iff _
          (and_iff _
            (and_iff _
              (and_iff _
                (and_iff _
                  (and_iff _
                    (and_iff _
                      (and_iff _
                        (and_iff _
                          (and_iff _
                            (and_iff _
                              (text_filter_iff (λ t. r.stream ≡ t) _ f.stream
                                (text_eq_iff r.stream))
                              (event_filter_iff f.event r.event))
                            (text_filter_iff (λ t. r.auditable_type ≡ some t) _ f.auditable_type
                              (column_is_iff r.auditable_type)))
                          (text_filter_iff (λ t. r.auditable_id ≡ some t) _ f.auditable_id
                            (column_is_iff r.auditable_id)))
                        (text_filter_iff (λ t. r.actor.type ≡ t) _ f.actor_type
                          (text_eq_iff r.actor.type)))
                      (text_filter_iff (λ t. r.actor.id ≡ some t) _ f.actor_id
                        (column_is_iff r.actor.id)))
                    (text_filter_iff (λ t. r.tenant_id ≡ some t) _ f.tenant_id
                      (column_is_iff r.tenant_id)))
                  (number_filter_iff (λ n. n ≤ r.seq) _ f.from_seq (λ n. leb_iff n r.seq)))
                (number_filter_iff (λ n. r.seq ≤ n) _ f.to_seq (λ n. leb_iff r.seq n)))
              (text_filter_iff (λ t. created_le t r.created_at ≡ true) _ f.from_created_at
                (λ t. (λ e. e, λ e. e))))
            (text_filter_iff (λ t. created_le r.created_at t ≡ true) _ f.to_created_at
              (λ t. (λ e. e, λ e. e))))
          (number_filter_iff (λ n. n < r.seq) _ f.cursor (λ n. ltb_iff n r.seq)) in
      (
        λ e.
            let p = all.0 e in
            (
              p.0.0.0.0.0.0.0.0.0.0.0, p.0.0.0.0.0.0.0.0.0.0.1, p.0.0.0.0.0.0.0.0.0.1,
              p.0.0.0.0.0.0.0.0.1, p.0.0.0.0.0.0.0.1, p.0.0.0.0.0.0.1, p.0.0.0.0.0.1, p.0.0.0.0.1,
              p.0.0.0.1, p.0.0.1, p.0.1, p.1,
            ),
        λ m.
            all.1
              (((((((((((m.0, m.1), m.2), m.3), m.4), m.5), m.6), m.7), m.8), m.9), m.10), m.11),
      )

  abbrev pub Selected : Audits → Audits → Type 0
  Selected t rs = All (λ r. In r t × Meets r) rs

  filter_rows-Selected : (t : Audits) → Selected t (filter_rows created_le f t)
  filter_rows-Selected [] = tt
  filter_rows-Selected (r ∷ rs) =
      let rest = widen (filter_rows created_le f rs) (filter_rows-Selected rs) in
      elim (Bool-cases (selects created_le f r)) [
        | inl e ↦ rw e ((inl refl, (selects-Meets_iff r).0 e), rest)
        | inr e ↦ rw e rest
      ]
    where
      widen : (l : Audits) → Selected rs l → Selected (r ∷ rs) l
      widen [] h = tt
      widen (x ∷ xs) h = ((inr h.0.0, h.0.1), widen xs h.1)

  insert_by_seq-Selected :
      (t : Audits) (r : ChainedAuditEvent) (rs : Audits)
      → In r t × Meets r
      → Selected t rs
      → Selected t (insert_by_seq r rs)
  insert_by_seq-Selected t r [] h hs = (h, tt)
  insert_by_seq-Selected t r (s ∷ rs) h hs = elim (Bool-cases (leb r.seq s.seq)) [
    | inl e ↦ rw e (h, hs)
    | inr e ↦ rw e (hs.0, insert_by_seq-Selected t r rs h hs.1)
  ]

  order_by_seq-Selected : (t rs : Audits) → Selected t rs → Selected t (order_by_seq rs)
  order_by_seq-Selected t [] h = tt
  order_by_seq-Selected t (r ∷ rs) h =
      insert_by_seq-Selected t r (order_by_seq rs) h.0 (order_by_seq-Selected t rs h.1)

  take-Selected : (n : ℕ) (t rs : Audits) → Selected t rs → Selected t (take n rs)
  take-Selected zero t rs h = tt
  take-Selected (suc n) t [] h = tt
  take-Selected (suc n) t (r ∷ rs) h = (h.0, take-Selected n t rs h.1)

  In-filter_rows :
      (x : ChainedAuditEvent) (t : Audits) → Meets x → In x t → In x (filter_rows created_le f t)
  In-filter_rows x [] m h = h
  In-filter_rows x (r ∷ rs) m h = elim (Bool-cases (selects created_le f r)) [
    | inl e ↦ rw e (elim h [ inl same ↦ inl same | inr rest ↦ inr (In-filter_rows x rs m rest) ])
    | inr e ↦ rw e (elim h [
      | inl same ↦ absurd (false≢true (sym e ∙ (selects-Meets_iff r).1 (subst Meets (sym same) m)))
      | inr rest ↦ In-filter_rows x rs m rest
    ])
  ]

  -- Each row of `rs` is in `found`, or does not meet the filters.
  abbrev pub Complete : Audits → Audits → Type 0
  Complete found rs = All (λ r. In r found ⊎ (¬ Meets r)) rs

  filter_rows-Complete :
      (rs t : Audits)
      → All (λ r. In r t) rs
      → Complete (order_by_seq (filter_rows created_le f t)) rs
  filter_rows-Complete [] t h = tt
  filter_rows-Complete (r ∷ rs) t h = (
    elim (Bool-cases (selects created_le f r)) [
      | inl e ↦ inl (
          In-order_by_seq r (filter_rows created_le f t)
            (In-filter_rows r t ((selects-Meets_iff r).0 e) h.0))
      | inr e ↦ inr (λ m. false≢true (sym e ∙ (selects-Meets_iff r).1 m))
    ],
    filter_rows-Complete rs t h.1,
  )

  In-self : (rs : Audits) → All (λ r. In r rs) rs
  In-self [] = tt
  In-self (r ∷ rs) = (inl refl, widen rs (In-self rs))
    where
      widen : (l : Audits) → All (λ x. In x rs) l → All (λ x. In x (r ∷ rs)) l
      widen [] h = tt
      widen (x ∷ xs) h = (inr h.0, widen xs h.1)

  -- `query` returns no more rows than the limit, 100 where none is given, and each row that it returns is one of
  -- the table that has what every filter asks for; a filter that is absent, or an empty text, asks for nothing.
  -- It returns as many rows as the limit, or every row of the table that has all this.
  pub query-Selected :
      (t : Audits)
      → Selected t (query created_le f t)
        × (length (query created_le f t) ≤ limit_of f.limit)
        × ((length (query created_le f t) ≡ limit_of f.limit) ⊎ Complete (query created_le f t) t)
  unfolding query
  query-Selected t =
      let found = order_by_seq (filter_rows created_le f t) in
      (
        take-Selected (limit_of f.limit) t found
            (order_by_seq-Selected t (filter_rows created_le f t) (filter_rows-Selected t)),
        length-take_le _ found,
        elim (take-all (limit_of f.limit) found) [
          | inl full ↦ inl full
          | inr all ↦
              inr (subst (λ l. Complete l t) (sym all) (filter_rows-Complete t t (In-self t)))
        ],
      )
