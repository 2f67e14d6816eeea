-- ===== src/LucidStore/Retained.antt =====
-- `prune` leaves a store consistent, whether it returns or throws.
use adonisjs_audit_trail.Common.{
  ℕ, ◌≡◌, refl, sym, ap, subst, ◌∙◌, ◌||◌, not, Option, none, some, List, [], ◌∷◌, ◌++◌, inl, inr,
  All, Bool-cases, Option-cases, last?, append_assoc,
}
use adonisjs_audit_trail.Common.Text.{Text, text_eq, text_eq_iff, text_lt}
use adonisjs_audit_trail.Errors.{Result, ok, err, ◌>>=◌, >>=-eq-ok, ok-injective, Result-cases}
use adonisjs_audit_trail.Json.{JsonText}
use adonisjs_audit_trail.Types.{ChainedAuditEvent}
use adonisjs_audit_trail.HashChain.Links.{seq_of, hash_of}
use adonisjs_audit_trail.HashChain.Verify.{of_stream}
use adonisjs_audit_trail.Retention.{RetentionPolicy, duration_of, parse_duration, passes_filter}
use adonisjs_audit_trail.LucidStore.{Audits}
use adonisjs_audit_trail.LucidStore.Rows.{stream_rows}
use adonisjs_audit_trail.LucidStore.Sealed.{in_order}
use adonisjs_audit_trail.LucidStore.Prune.{
  Database, Counts, all_but_last, take_candidates, archive_rows, in_transaction, remove_rows,
  prune_candidates, prune_found, prune_rows, prune_streams, prune, ArchivedEvent,
}
use adonisjs_audit_trail.LucidStore.Pruned.{Consistent, deleted-Consistent}

abbrev Prefix : Audits → Audits → Type 0
Prefix xs rows = (ys : Audits) × (rows ≡ xs ++ ys)

all_but_last-Prefix :
    (r : ChainedAuditEvent) (rows : Audits) → Prefix (all_but_last (r ∷ rows)) (r ∷ rows)
all_but_last-Prefix r [] = (r ∷ [], refl)
all_but_last-Prefix r (x ∷ rows) = let (ys, e) = all_but_last-Prefix x rows in (ys, ap (◌∷◌ r) e)

Prefix-trans : (xs ys zs : Audits) → Prefix xs ys → Prefix ys zs → Prefix xs zs
Prefix-trans xs ys zs (us, e) (vs, f) = (us ++ vs, f ∙ ap (λ l. l ++ vs) e ∙ append_assoc xs us vs)

of_stream-All :
    (s : Text) (t : Audits) → All (λ (r : ChainedAuditEvent). r.stream ≡ s) (of_stream s t)
of_stream-All s [] = tt
of_stream-All s (r ∷ t) = elim (Bool-cases (text_eq r.stream s)) [
  | inl e ↦ rw e ((text_eq_iff r.stream s).0 e, of_stream-All s t)
  | inr e ↦ rw e (of_stream-All s t)
]

last?-own :
    (s : Text) (xs ys : Audits) (z : ChainedAuditEvent)
    → All (λ (r : ChainedAuditEvent). r.stream ≡ s) (xs ++ ys)
    → last? xs ≡ some z
    → z.stream ≡ s
last?-own s [] ys z a e = cc
last?-own s (x ∷ []) ys z a e = let same : x ≡ z = cc in subst (λ z. z.stream ≡ s) same a.0
last?-own s (x ∷ y ∷ xs) ys z a e = last?-own s (y ∷ xs) ys z a.1 e

module _ (cutoff : ℕ → Result Text) (iso : Text → Text) (policy : RetentionPolicy) where
  take_candidates-Prefix :
      (event : Text) (rows out : Audits)
      → take_candidates cutoff iso policy event rows ≡ ok out
      → Prefix out rows
  unfolding take_candidates
  take_candidates-Prefix event [] out h = subst (λ o. Prefix o []) (ok-injective h) ([], refl)
  take_candidates-Prefix event (row ∷ rows) out h =
      let nothing = ok-injective {x = []} {y = out} in
      elim (Bool-cases
        (not (text_eq row.event event) || not (passes_filter policy.event_filter row.event))) [
          | inl e ↦ subst (λ o. Prefix o (row ∷ rows)) (nothing (rw e at h)) (row ∷ rows, refl)
          | inr e ↦
              let (duration, parsed, h1) =
                >>=-eq-ok (parse_duration (duration_of policy row.event)) _ (rw e at h) in
              let (limit, cut, h2) = >>=-eq-ok (cutoff duration) _ h1 in
              elim (Bool-cases (text_lt (iso row.created_at) limit)) [
                | inr young ↦
                    subst (λ o. Prefix o (row ∷ rows)) (nothing (rw young at h2)) (row ∷ rows, refl)
                | inl old ↦
                    let (more, found, same) =
                      >>=-eq-ok (take_candidates cutoff iso policy event rows) _ (rw old at h2) in
                    let (ys, split) = take_candidates-Prefix event rows more found in
                    subst (λ o. Prefix o (row ∷ rows)) (ok-injective same) (ys, ap (◌∷◌ row) split)
              ]
        ]

  module _ (lock : Text → Result (Unit {0})) (maintenance : Option (Text → Result (Unit {0})))
      (sha256 : JsonText → Text) where
    module _ (db : Database) (v : Consistent sha256 db) (s : Text) where
      with_archive :
          (archive : List ArchivedEvent) → Consistent sha256 (record db { archive = archive })
      with_archive archive = record { distinct = v.distinct; sealed = v.sealed }

      own_stream :
          (xs ys : Audits) (to : ChainedAuditEvent)
          → stream_rows s db.audits ≡ xs ++ ys
          → last? xs ≡ some to
          → to.stream ≡ s
      own_stream xs ys to rows last =
          let h = (v.sealed s).head in
          let same =
            sym (in_order sha256 s (seq_of h) (hash_of h) db.audits (v.sealed s).accepted) ∙ rows in
          last?-own s xs ys to
            (subst (All (λ (r : ChainedAuditEvent). r.stream ≡ s)) same (of_stream-All s db.audits))
            last

      in_transaction-Consistent :
          (to : ChainedAuditEvent) (xs ys : Audits) (archive : List ArchivedEvent)
          (outcome : Result (Unit {0}))
          → stream_rows s db.audits ≡ xs ++ ys
          → last? xs ≡ some to
          → Consistent sha256
              (in_transaction cutoff iso policy lock maintenance s to xs
                (record db { archive = archive })
                outcome).0
      in_transaction-Consistent to xs ys archive (err e) rows last = with_archive archive
      in_transaction-Consistent to xs ys archive (ok t) rows last =
          deleted-Consistent sha256 db v s to xs ys rows last (own_stream xs ys to rows last)
            archive

      remove_rows-Consistent :
          (to : ChainedAuditEvent) (xs ys : Audits) (maintain : Text → Result (Unit {0}))
          (archived : Result (List ArchivedEvent))
          → stream_rows s db.audits ≡ xs ++ ys
          → last? xs ≡ some to
          → Consistent sha256
              (remove_rows cutoff iso policy lock maintenance s to xs maintain db archived).0
      remove_rows-Consistent to xs ys maintain (err e) rows last = v
      remove_rows-Consistent to xs ys maintain (ok archive) rows last =
          in_transaction-Consistent to xs ys archive (lock s >>= λ t. maintain s) rows last

      prune_candidates-Consistent :
          (from to : ChainedAuditEvent) (xs ys : Audits) (how : Option (Text → Result (Unit {0})))
          → stream_rows s db.audits ≡ xs ++ ys
          → last? xs ≡ some to
          → Consistent sha256
              (prune_candidates cutoff iso policy lock maintenance s from to xs how db).0
      prune_candidates-Consistent from to xs ys none rows last = v
      prune_candidates-Consistent from to xs ys (some maintain) rows last =
          remove_rows-Consistent to xs ys maintain
            (archive_rows cutoff iso policy s from to xs db.archive) rows last

      prune_found-Consistent :
          (event : Text) (acc : Counts) (found : Result Audits)
          → ((xs : Audits) → found ≡ ok xs → Prefix xs (stream_rows s db.audits))
          → Consistent sha256
              (prune_found cutoff iso policy lock maintenance s event acc db found).0
      prune_found-Consistent event acc (err e) p = v
      prune_found-Consistent event acc (ok []) p = v
      prune_found-Consistent event acc (ok (from ∷ more)) p = elim (Bool-cases policy.dry_run) [
        | inl e ↦ rw (e, prune_found) v
        | inr e ↦ elim (Option-cases (last? (from ∷ more))) [
          | inl l ↦ rw (e, l, prune_found) v
          | inr (to, l) ↦
              let (ys, rows) = p (from ∷ more) refl in
              rw (e, l, prune_found)
                (prune_candidates-Consistent from to (from ∷ more) ys maintenance rows l)
        ]
      ]

      prune_rows-Consistent :
          (rows : Audits) (acc : Counts)
          → rows ≡ stream_rows s db.audits
          → Consistent sha256 (prune_rows cutoff iso policy lock maintenance s rows acc db).0
      prune_rows-Consistent [] acc same = v
      prune_rows-Consistent (first ∷ []) acc same = v
      prune_rows-Consistent (first ∷ second ∷ rows) acc same =
          elim (Bool-cases (passes_filter policy.event_filter first.event)) [
            | inr e ↦ rw (e, prune_rows) v
            | inl e ↦
                rw (e, prune_rows)
                  (prune_found-Consistent first.event acc _ (λ xs found. subst (Prefix xs) same (
                    Prefix-trans xs (all_but_last (first ∷ second ∷ rows)) (first ∷ second ∷ rows)
                      (take_candidates-Prefix first.event _ xs found)
                      (all_but_last-Prefix first (second ∷ rows)))))
          ]

    prune_streams-Consistent :
        (streams : List Text) (acc : Counts) (db : Database)
        → Consistent sha256 db
        → Consistent sha256 (prune_streams cutoff iso policy lock maintenance streams acc db).0
    unfolding prune_streams
    prune_streams-Consistent [] acc db v = v
    prune_streams-Consistent (s ∷ streams) acc db v =
        let w = prune_rows-Consistent db v s (stream_rows s db.audits) acc refl in
        elim (Result-cases
          (prune_rows cutoff iso policy lock maintenance s (stream_rows s db.audits) acc db).1) [
            | inr (x, e) ↦ rw (e, prune_streams) w
            | inl (acc', e) ↦ rw (e, prune_streams) (prune_streams-Consistent streams acc' _ w)
          ]

    -- If the identifiers of the rows are distinct and the rows of every stream continue the chain from the last
    -- checkpoint of the stream, or from `GENESIS` where it has none, then so it is after `prune` under any
    -- policy: whether it returns or throws, at whichever stream, and in whichever order the streams come.
    pub prune-Consistent :
        (streams_of : Audits → List Text) (db : Database)
        → Consistent sha256 db
        → Consistent sha256 (prune cutoff iso policy lock maintenance streams_of db).0
    unfolding prune
    prune-Consistent streams_of db v = prune_streams-Consistent (streams_of db.audits) _ db v
