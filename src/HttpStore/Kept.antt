-- ===== src/HttpStore/Kept.antt =====
-- What the HTTP store keeps of a stream is the end of a chain that leads to the stream's head.
use adonisjs_audit_trail.Common.{
  ℕ, zero, suc, ◌+◌, ◌-◌, ◌<◌, ◌≡◌, refl, sym, ap, subst, ◌∙◌, ◌&&◌, Option, none, some, List, [],
  ◌∷◌, ◌++◌, inl, inr, arith, Bool-cases, ltb, length, drop,
}
use adonisjs_audit_trail.Common.Text.{Text, text_eq, text_eq_iff}
use adonisjs_audit_trail.Common.Dict.{Dict, lookup, insert, lookup-insert}
use adonisjs_audit_trail.Errors.{ok}
use adonisjs_audit_trail.Json.{JsonText}
use adonisjs_audit_trail.Types.{ChainedAuditEvent, Head}
use adonisjs_audit_trail.HashChain.{hash_entry, or_else}
use adonisjs_audit_trail.HashChain.Links.{IsChain, seq_of, hash_of, head_after}
use adonisjs_audit_trail.HashChain.Verify.{of_stream}
use adonisjs_audit_trail.HttpStore.{evict, log_of, retain}

abbrev head_at : ChainedAuditEvent → Option Head
head_at r = some (record { seq = r.seq; hash = r.hash })

head_after-snoc :
    (h : Option Head) (rs : List ChainedAuditEvent) (r : ChainedAuditEvent)
    → head_after h (rs ++ r ∷ []) ≡ head_at r
head_after-snoc h [] r = refl
head_after-snoc h (x ∷ rs) r = head_after-snoc (head_at x) rs r

module _ (sha256 : JsonText → Text) where
  -- The row is the next of the chain after the head.
  pub record Next (h : Option Head) (r : ChainedAuditEvent) : Type 0 where
    pub numbered : r.seq ≡ seq_of h + 1
    pub linked : r.prev_hash ≡ hash_of h
    pub hashed : hash_entry sha256 r.entry (seq_of h + 1) (hash_of h) ≡ ok r.hash

  pub record Continues (h : Option Head) (log : List ChainedAuditEvent) : Type 0 where
    pub base_seq : ℕ
    pub base_hash : Text
    pub chain : IsChain sha256 base_seq base_hash log
    pub newest : head_after none log ≡ h

  drop-Continues :
      (k : ℕ) (h : Option Head) (log : List ChainedAuditEvent)
      → k < length log
      → Continues h log
      → Continues h (drop k log)
  drop-Continues zero h log lt v = v
  drop-Continues (suc k) h [] lt v = v
  drop-Continues (suc k) h (x ∷ []) lt v = absurd (omega (arith, lt))
  drop-Continues (suc k) h (x ∷ y ∷ log) lt v =
      drop-Continues k h (y ∷ log) (omega (arith, lt)) (record {
        base_seq = v.base_seq + 1;
        base_hash = x.hash;
        chain = v.chain.3;
        newest = v.newest;
      })

  evict-Continues :
      (max : ℕ) (h : Option Head) (log : List ChainedAuditEvent)
      → Continues h log
      → Continues h (evict max log)
  evict-Continues max h log v = elim (Bool-cases (ltb 0 max && ltb max (length log))) [
    | inr e ↦ rw e v
    | inl e ↦
        let lt : length log - max < length log = ground (arith, e) in
        rw e (drop-Continues (length log - max) h log lt v)
  ]

  IsChain-snoc :
      (n : ℕ) (p : Text) (rs : List ChainedAuditEvent) (r : ChainedAuditEvent)
      → IsChain sha256 n p rs
      → Next (head_after (some (record { seq = n; hash = p })) rs) r
      → IsChain sha256 n p (rs ++ r ∷ [])
  IsChain-snoc n p [] r c next = (next.numbered, next.linked, next.hashed, tt)
  IsChain-snoc n p (x ∷ rs) r c next = (
    c.0,
    c.1,
    c.2,
    IsChain-snoc (n + 1) x.hash rs r (c.3)
        (subst (λ m. Next (head_after (some (record { seq = m; hash = x.hash })) rs) r) (c.0) next),
  )

  snoc-Continues :
      (h : Option Head) (log : List ChainedAuditEvent) (r : ChainedAuditEvent)
      → Continues h log
      → Next h r
      → Continues (head_at r) (log ++ r ∷ [])
  snoc-Continues h [] r v next = record {
    base_seq = seq_of h;
    base_hash = hash_of h;
    chain = (next.numbered, next.linked, next.hashed, tt);
    newest = refl;
  }
  snoc-Continues h (x ∷ log) r v next = record {
    base_seq = v.base_seq;
    base_hash = v.base_hash;
    chain =
        IsChain-snoc v.base_seq v.base_hash (x ∷ log) r v.chain
          (subst (λ g. Next g r) (sym v.newest) next);
    newest = head_after-snoc none (x ∷ log) r;
  }

  -- The loop over the new rows keeps, in each stream, the end of a chain that leads to the newest row.
  pub retain-Continues :
      (s : Text) (max : ℕ) (rows : List ChainedAuditEvent) (logs : Dict (List ChainedAuditEvent))
      (h : Option Head)
      → Continues h (log_of s logs)
      → IsChain sha256 (seq_of h) (hash_of h) (of_stream s rows)
      → Continues (head_after h (of_stream s rows)) (log_of s (retain max rows logs))
  unfolding retain
  retain-Continues s max [] logs h v c = v
  retain-Continues s max (r ∷ rows) logs h v c =
      let kept = evict max (log_of r.stream logs ++ r ∷ []) in
      let found = lookup-insert r.stream s kept logs in
      elim (Bool-cases (text_eq r.stream s)) [
        | inr e ↦
            let other : lookup s (insert r.stream kept logs) ≡ lookup s logs = rw (found, e) refl in
            let same = ap (λ o. or_else o []) other in
            rw (e, retain)
              (retain-Continues s max rows (insert r.stream kept logs) h (rw same v) (rw e at c))
        | inl e ↦
            let c' : IsChain sha256 (seq_of h) (hash_of h) (r ∷ of_stream s rows) = rw e at c in
            let next : Next h r = record { numbered = c'.0; linked = c'.1; hashed = c'.2 } in
            let own : lookup s (insert r.stream kept logs) ≡ some kept = rw (found, e) refl in
            let same : log_of s (insert r.stream kept logs) ≡ evict max (log_of s logs ++ r ∷ []) =
              ap (λ o. or_else o []) own
              ∙ ap (λ t. evict max (log_of t logs ++ r ∷ [])) ((text_eq_iff r.stream s).0 e) in
            rw (e, retain)
              (retain-Continues s max rows (insert r.stream kept logs) (head_at r)
                (rw same (
                  evict-Continues max (head_at r) (log_of s logs ++ r ∷ [])
                    (snoc-Continues h (log_of s logs) r v next)))
                (subst (λ m. IsChain sha256 m r.hash (of_stream s rows)) (sym (c'.0)) (c'.3)))
      ]
