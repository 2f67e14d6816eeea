-- ===== src/LucidStore/Pruned.antt =====
-- What `prune` removes is the start of a stream, and the checkpoint that it records is where the rest goes on.
use adonisjs_audit_trail.Common.{
  ℕ, ◌<◌, ◌≡◌, refl, sym, subst, ◌∙◌, true, false, Option, none, some, List, [], ◌∷◌, ◌++◌, inl,
  inr, arith, Bool-cases, last?, leb, ltb,
}
use adonisjs_audit_trail.Common.Text.{Text, text_eq, text_eq_iff, text_eq_refl}
use adonisjs_audit_trail.Json.{JsonText}
use adonisjs_audit_trail.Types.{ChainedAuditEvent, Head}
use adonisjs_audit_trail.HashChain.Links.{seq_of, hash_of}
use adonisjs_audit_trail.HashChain.Verify.{Accepted, of_stream}
use adonisjs_audit_trail.LucidStore.{Audits}
use adonisjs_audit_trail.LucidStore.Rows.{stream_rows}
use adonisjs_audit_trail.LucidStore.Verify.{last_below, later, columns}
use adonisjs_audit_trail.LucidStore.Sealed.{Sealed, in_order}
use adonisjs_audit_trail.LucidStore.Prune.{Database, row_ids, without, ArchivedEvent}
use adonisjs_audit_trail.LucidStore.Deleting.{
  DistinctIds, DistinctIds-without, DistinctIds-of_stream, of_stream-without, without-prefix,
  without-other,
}

abbrev head_at : ChainedAuditEvent → Head
head_at r = record { seq = r.seq; hash = r.hash }

module _ (sha256 : JsonText → Text) where
  -- After the first rows of a chain the others continue it from the last of them.
  Accepted-rest :
      (n : ℕ) (p : Text) (xs ys : Audits) (z : ChainedAuditEvent)
      → Accepted sha256 n p (xs ++ ys)
      → last? xs ≡ some z
      → (n < z.seq) × Accepted sha256 z.seq z.hash ys
  Accepted-rest n p [] ys z a e = cc
  Accepted-rest n p (x ∷ []) ys z a e =
      let same : x ≡ z = cc in
      subst (λ z. (n < z.seq) × Accepted sha256 z.seq z.hash ys) same (omega (arith, a.0), a.2)
  Accepted-rest n p (x ∷ y ∷ xs) ys z a e =
      let (lt, rest) = Accepted-rest x.seq x.hash (y ∷ xs) ys z a.2 e in
      (omega (arith, lt, a.0), rest)

  -- In each stream the rows continue the chain from its last checkpoint, and the identifiers are distinct.
  pub record Consistent (db : Database) : Type 0 where
    pub distinct : DistinctIds db.audits
    pub sealed : (s : Text) → Sealed sha256 s db.audits db.checkpoints

  later-head :
      (to : ChainedAuditEvent) (h : Option Head)
      → seq_of h < to.seq
      → later (columns to) h ≡ some (head_at to)
  later-head to none lt = refl
  later-head to (some h) lt = let le : leb to.seq h.seq ≡ false = ground (arith, lt) in rw le refl

  module _ (db : Database) (v : Consistent db) (s : Text) (to : ChainedAuditEvent) (xs ys : Audits)
      (rows : stream_rows s db.audits ≡ xs ++ ys) (last : last? xs ≡ some to)
      (own : to.stream ≡ s) where
    abbrev at_s : Sealed sha256 s db.audits db.checkpoints
    at_s = v.sealed s

    split : of_stream s db.audits ≡ xs ++ ys
    split =
        sym (in_order sha256 s (seq_of at_s.head) (hash_of at_s.head) db.audits at_s.accepted)
        ∙ rows

    own_left : of_stream s (without (row_ids xs) db.audits) ≡ ys
    own_left =
        of_stream-without s (row_ids xs) db.audits
        ∙ rw split (
            without-prefix xs ys
              (subst DistinctIds split (DistinctIds-of_stream s db.audits v.distinct)))

    other_left :
        (u : Text)
        → text_eq s u ≡ false
        → of_stream u (without (row_ids xs) db.audits) ≡ of_stream u db.audits
    other_left u ne =
        of_stream-without u (row_ids xs) db.audits
        ∙ without-other s u db.audits xs ys v.distinct ne split

    below :
        (bound : ℕ)
        → to.seq < bound
        → seq_of at_s.head < to.seq
        → last_below s bound (columns to ∷ db.checkpoints) ≡ some (head_at to)
    unfolding last_below
    below bound lt over =
        let under : ltb to.seq bound ≡ true = ground (arith, lt) in
        rw (own, text_eq_refl s, under, at_s.recorded bound (omega (arith, lt, over)))
          (later-head to at_s.head over)

    below_other :
        (u : Text) (bound : ℕ)
        → text_eq s u ≡ false
        → last_below u bound (columns to ∷ db.checkpoints) ≡ last_below u bound db.checkpoints
    unfolding last_below
    below_other u bound ne = rw (own, ne) refl

    deleted-Sealed :
        (u : Text) → Sealed sha256 u (without (row_ids xs) db.audits) (columns to ∷ db.checkpoints)
    deleted-Sealed u = elim (Bool-cases (text_eq s u)) [
      | inl e ↦
          let (over, rest) =
            Accepted-rest (seq_of at_s.head) (hash_of at_s.head) xs ys to
              (subst (Accepted sha256 (seq_of at_s.head) (hash_of at_s.head)) split at_s.accepted)
              last in
          subst
            (λ k. Sealed sha256 k (without (row_ids xs) db.audits) (columns to ∷ db.checkpoints))
            ((text_eq_iff s u).0 e)
            (record {
              head = some (head_at to);
              accepted = rw own_left rest;
              recorded = λ bound lt. below bound lt over;
            })
      | inr e ↦ record {
        head = (v.sealed u).head;
        accepted = rw (other_left u e) ((v.sealed u).accepted);
        recorded = λ bound lt. below_other u bound e ∙ (v.sealed u).recorded bound lt;
      }
    ]

    pub deleted-Consistent :
        (archive : List ArchivedEvent)
        → Consistent (record {
          audits = without (row_ids xs) db.audits;
          archive = archive;
          checkpoints = columns to ∷ db.checkpoints;
        })
    deleted-Consistent archive = record {
      distinct = DistinctIds-without (row_ids xs) db.audits v.distinct;
      sealed = deleted-Sealed;
    }
