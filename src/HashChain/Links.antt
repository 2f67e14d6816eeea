-- ===== src/HashChain/Links.antt =====
-- The chain that `chainBatch` builds, described without the loop.
use adonisjs_audit_trail.Common.{
  ℕ, ◌+◌, ◌≡◌, refl, sym, ap, subst, ◌∙◌, Option, none, some, List, [], ◌∷◌, ◌++◌, map, inl, inr,
}
use adonisjs_audit_trail.Common.Text.{Text}
use adonisjs_audit_trail.Errors.{Result, ok, err, ◌>>=◌, two_binds, Result-cases}
use adonisjs_audit_trail.Json.{JsonText}
use adonisjs_audit_trail.Types.{AuditEvent, ChainedAuditEvent, Head}
use adonisjs_audit_trail.HashChain.{genesis, hash_entry, chain_from, chain_batch}

-- Where a chain goes on: the number and the hash of its last row, 0 and `GENESIS` before the first.
abbrev pub seq_of : Option Head → ℕ
seq_of none = 0
seq_of (some h) = h.seq

abbrev pub hash_of : Option Head → Text
hash_of none = genesis
hash_of (some h) = h.hash

abbrev pub head_after : Option Head → List ChainedAuditEvent → Option Head
head_after head [] = head
head_after head (r ∷ rs) = head_after (some (record { seq = r.seq; hash = r.hash })) rs

bind-ok {ℓ} : {A : Type ℓ} (m : Result A) → (m >>= λ a. ok a) ≡ m
bind-ok (ok a) = refl
bind-ok (err e) = refl

-- A row that is put in front of two results in turn.
bind_row {ℓ} :
    {A : Type ℓ} (r : A) (m : Result (List A)) (g : List A → Result (List A))
    → ((do rs ← m; ss ← g (r ∷ rs); ok (rs ++ ss)) >>= λ rs. ok (r ∷ rs))
      ≡ ((do rs ← m; ok (r ∷ rs)) >>= λ rs. g rs >>= λ ss. ok (rs ++ ss))
bind_row r (err e) g = refl
bind_row r (ok rs) g = elim (Result-cases (g (r ∷ rs))) [ inl (ss, e) ↦ rw e | inr (x, e) ↦ rw e ]

module _ (sha256 : JsonText → Text) where
  -- The rows have the numbers after `n`, each has the hash of the row before as `prevHash`, and its own
  -- hash is that of its fields, its number and that link.
  abbrev pub IsChain : ℕ → Text → List ChainedAuditEvent → Type 0
  IsChain n p [] = Unit
  IsChain n p (r ∷ rs) =
      (r.seq ≡ n + 1)
      × (r.prev_hash ≡ p)
      × (hash_entry sha256 r.entry (n + 1) p ≡ ok r.hash)
      × IsChain (n + 1) r.hash rs

  chain_from-IsChain :
      (n : ℕ) (p : Text) (es : List AuditEvent) (rs : List ChainedAuditEvent)
      → chain_from sha256 (n + 1) p es ≡ ok rs
      → IsChain n p rs × (map (λ r. r.entry) rs ≡ es)
  unfolding chain_from
  chain_from-IsChain n p [] [] h = (tt, refl)
  chain_from-IsChain n p [] (r ∷ rs) h = cc
  chain_from-IsChain n p (e ∷ es) rs h =
      let row : Text → ChainedAuditEvent =
        λ hash. record { entry = e; seq = n + 1; hash = hash; prev_hash = p } in
      let (hash, rows, hh, hr, done) =
        two_binds (hash_entry sha256 e (n + 1) p) (λ hash. chain_from sha256 (n + 1 + 1) hash es)
          (λ hash rest. row hash ∷ rest) h in
      let (links, same) = chain_from-IsChain (n + 1) hash es rows hr in
      subst (λ rs. IsChain n p rs × (map (λ r. r.entry) rs ≡ e ∷ es)) done
        ((refl, refl, hh, links), ap (◌∷◌ e) same)

  -- A batch that is chained after a head keeps its events in order, continues the head's numbers and
  -- links each row to the row before it, the first to the head or to `GENESIS`.
  pub chain_batch-IsChain :
      (batch : List AuditEvent) (head : Option Head) (rows : List ChainedAuditEvent)
      → chain_batch sha256 batch head ≡ ok rows
      → IsChain (seq_of head) (hash_of head) rows × (map (λ r. r.entry) rows ≡ batch)
  unfolding chain_batch
  chain_batch-IsChain batch none rows h = chain_from-IsChain 0 genesis batch rows h
  chain_batch-IsChain batch (some head) rows h = chain_from-IsChain head.seq head.hash batch rows h

  chain_batch-chain_from :
      (batch : List AuditEvent) (head : Option Head)
      → chain_batch sha256 batch head ≡ chain_from sha256 (seq_of head + 1) (hash_of head) batch
  unfolding chain_batch
  chain_batch-chain_from batch none = refl
  chain_batch-chain_from batch (some h) = refl

  chain_after :
      (xs ys : List AuditEvent) (head : Option Head)
      → chain_from sha256 (seq_of head + 1) (hash_of head) (xs ++ ys) ≡ (do
        rs ← chain_from sha256 (seq_of head + 1) (hash_of head) xs
        ss ← chain_batch sha256 ys (head_after head rs)
        ok (rs ++ ss))
  unfolding chain_from
  chain_after [] ys head = sym (chain_batch-chain_from ys head) ∙ sym (bind-ok _)
  chain_after (x ∷ xs) ys head =
      elim (Result-cases (hash_entry sha256 x (seq_of head + 1) (hash_of head))) [
        | inl (h, e) ↦
            let next : Option Head = some (record { seq = seq_of head + 1; hash = h }) in
            let rest = chain_from sha256 (seq_of head + 1 + 1) h xs in
            let row : ChainedAuditEvent = record {
              entry = x;
              seq = seq_of head + 1;
              hash = h;
              prev_hash = hash_of head;
            } in
            rw (e, chain_from)
              (ap (λ m. m >>= λ rs. ok (row ∷ rs)) (chain_after xs ys next)
                ∙ bind_row row rest (λ rs. chain_batch sha256 ys (head_after head rs)))
        | inr (x, e) ↦ rw (e, chain_from)
      ]

  -- Chaining two batches one after the other, the second after the head that the first leaves, gives the
  -- rows of the joined batch, and fails exactly when that does, with the same error.
  pub chain_batch-append :
      (xs ys : List AuditEvent) (head : Option Head)
      → chain_batch sha256 (xs ++ ys) head ≡ (do
        rs ← chain_batch sha256 xs head
        ss ← chain_batch sha256 ys (head_after head rs)
        ok (rs ++ ss))
  unfolding chain_batch
  chain_batch-append xs ys none = chain_after xs ys none
  chain_batch-append xs ys (some h) = chain_after xs ys (some h)
