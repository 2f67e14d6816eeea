-- ===== src/HashChain/Tamper.antt =====
-- Tamper evidence: two verified logs with one head agree, or they exhibit a collision of SHA-256.
use adonisjs_audit_trail.Common.{
  ℕ, ◌+◌, ◌≡◌, ◌≢◌, refl, sym, ap, ◌∙◌, ◌⊎◌, inl, inr, List, [], ◌∷◌, arith, length,
}
use adonisjs_audit_trail.Common.Text.{Text}
use adonisjs_audit_trail.Errors.{ok, >>=-eq-ok, ok-injective}
use adonisjs_audit_trail.Json.{JsonText, JsonText-discrete}
use adonisjs_audit_trail.Types.{AuditEvent, ChainedAuditEvent}
use adonisjs_audit_trail.HashChain.{genesis, hash_entry}
use adonisjs_audit_trail.HashChain.Injective.{hashed_text, SameHashed, hashed_text-injective}
use adonisjs_audit_trail.HashChain.Verify.{Accepted}

-- Two different texts with one digest.
abbrev pub Collision : (JsonText → Text) → Type 0
Collision sha256 = (a b : JsonText) × (a ≢ b) × (sha256 a ≡ sha256 b)

-- Row by row, the same hashed fields, number and hash.
abbrev pub Agree : List ChainedAuditEvent → List ChainedAuditEvent → Type 0
Agree [] [] = Unit
Agree [] (s ∷ ss) = ⊥
Agree (r ∷ rs) [] = ⊥
Agree (r ∷ rs) (s ∷ ss) =
    SameHashed r.entry s.entry × (r.seq ≡ s.seq) × (r.hash ≡ s.hash) × Agree rs ss

-- The hash of the last row, or `p` where there is none.
abbrev pub last_hash : Text → List ChainedAuditEvent → Text
last_hash p [] = p
last_hash p (r ∷ rs) = last_hash r.hash rs

module _ (sha256 : JsonText → Text) where
  digest-eq : (a b : JsonText) → sha256 a ≡ sha256 b → (a ≡ b) ⊎ Collision sha256
  digest-eq a b h = elim (JsonText-discrete a b) [ yes e ↦ inl e | no ne ↦ inr (a, b, ne, h) ]

  -- One row on each side with one hash.
  row-SameHashed :
      (d e : AuditEvent) (n : ℕ) (p q h : Text)
      → hash_entry sha256 d n p ≡ ok h
      → hash_entry sha256 e n q ≡ ok h
      → (SameHashed d e × (p ≡ q)) ⊎ Collision sha256
  unfolding hash_entry
  row-SameHashed d e n p q h hd he =
      let (a, da, ea) = >>=-eq-ok (hashed_text d n p) (λ t. ok (sha256 t)) hd in
      let (b, db, eb) = >>=-eq-ok (hashed_text e n q) (λ t. ok (sha256 t)) he in
      elim (digest-eq a b (ok-injective (ea ∙ sym eb))) [
        | inr c ↦ inr c
        | inl same ↦
            let s = hashed_text-injective d e n n p q b (rw same at da) db in inl (s.0, s.2)
      ]

  rows-Agree :
      (n m : ℕ) (p q : Text) (rs ss : List ChainedAuditEvent)
      → n ≡ m
      → length rs ≡ length ss
      → Accepted sha256 n p rs
      → Accepted sha256 m q ss
      → last_hash p rs ≡ last_hash q ss
      → (Agree rs ss × (p ≡ q)) ⊎ Collision sha256
  rows-Agree n m p q [] [] hn l a b e = inl (tt, e)
  rows-Agree n m p q [] (s ∷ ss) hn l a b e = absurd (omega arith)
  rows-Agree n m p q (r ∷ rs) [] hn l a b e = absurd (omega arith)
  rows-Agree n m p q (r ∷ rs) (s ∷ ss) hn l a b e =
      let seqs : r.seq ≡ s.seq = a.0 ∙ ap (λ k. k + 1) hn ∙ sym b.0 in
      elim (rows-Agree r.seq s.seq r.hash s.hash rs ss seqs (omega arith) a.2 b.2 e) [
        | inr c ↦ inr c
        | inl (rest, same) ↦
            elim (row-SameHashed r.entry s.entry (n + 1) p q s.hash (a.1 ∙ ap ok same)
              (rw hn b.1)) [
                | inr c ↦ inr c
                | inl (fields, link) ↦ inl ((fields, seqs, same, rest), link)
              ]
      ]

  -- Let two logs of a stream both continue the chain from `GENESIS`, as verification accepts them, with
  -- as many rows and the same last hash. Then they agree row by row in the numbers, the hashes and every hashed
  -- field, or there are two different texts with the same SHA-256 digest. Scalar fields agree when they are equal,
  -- payloads when a reader finds the same at every path of property names and array indices that does not go
  -- through a property named `__proto__`, where a property that is `undefined` counts as absent and a number that
  -- is not finite as `null`.
  pub same_head_same_log :
      (rs ss : List ChainedAuditEvent)
      → length rs ≡ length ss
      → Accepted sha256 0 genesis rs
      → Accepted sha256 0 genesis ss
      → last_hash genesis rs ≡ last_hash genesis ss
      → Agree rs ss ⊎ Collision sha256
  same_head_same_log rs ss l a b e = elim (rows-Agree 0 0 genesis genesis rs ss refl l a b e) [
    | inl h ↦ inl h.0
    | inr c ↦ inr c
  ]
