-- ===== src/LucidStore/Verified.antt =====
-- Every write leaves a table on which the chain of each stream verifies.
use adonisjs_audit_trail.Common.{
  ℕ, ◌+◌, ◌<◌, ◌≡◌, refl, sym, ap, subst, ◌∙◌, true, Option, none, some, List, [], ◌∷◌, ◌++◌, map,
  inl, inr, arith, All, Bool-cases, leb, append-nil,
}
use adonisjs_audit_trail.Common.Text.{Text, text_eq, text_eq_iff}
use adonisjs_audit_trail.Common.Dict.{Dict}
use adonisjs_audit_trail.Errors.{Result, ok, err, Result-cases}
use adonisjs_audit_trail.Json.{JsonText}
use adonisjs_audit_trail.Types.{AuditEvent, ChainedAuditEvent, Head}
use adonisjs_audit_trail.HashChain.{genesis, hash_entry, chain_batch}
use adonisjs_audit_trail.HashChain.Links.{IsChain, seq_of, hash_of, head_after, chain_batch-IsChain}
use adonisjs_audit_trail.HashChain.Verify.{Accepted, of_stream, of_stream-own, of_stream-other}
use adonisjs_audit_trail.LucidStore.{
  Audits, Sorted, newer, head, read_back, write_stream, set_results, write_streams, write_sorted,
  write,
}
use adonisjs_audit_trail.LucidStore.Groups.{
  Grouped, of_stream-append, head_after-some, sort_batch-Grouped,
}

newer-head_after :
    (r : ChainedAuditEvent) (rs : Audits) (o : Option Head)
    → o ≡ head_after none rs
    → ((h : Head) → o ≡ some h → r.seq < h.seq)
    → newer r o ≡ head_after none (r ∷ rs)
newer-head_after r [] o e above = rw e refl
newer-head_after r (x ∷ rs) o e above =
    let (z, last) = head_after-some (record { seq = x.seq; hash = x.hash }) rs in
    let found : o ≡ some z = e ∙ last in
    let lt = above z found in
    let le : leb r.seq z.seq ≡ true = ground arith in rw (found, le) (sym last)

newer-above :
    (n : ℕ) (r : ChainedAuditEvent) (o : Option Head) (h : Head)
    → n < r.seq
    → ((h : Head) → o ≡ some h → n < h.seq)
    → newer r o ≡ some h
    → n < h.seq
newer-above n r none h lt above e = subst (λ m. n < m) (seq-eq e) lt
  where
    seq-eq : some (record { seq = r.seq; hash = r.hash }) ≡ some h → r.seq ≡ h.seq
    seq-eq e = ap seq_of e
newer-above n r (some g) h lt above e = elim (Bool-cases (leb r.seq g.seq)) [
  | inl le ↦ subst (λ m. n < m) (ap seq_of (rw le at e)) (above g refl)
  | inr gt ↦ subst (λ m. n < m) (ap seq_of (rw gt at e)) lt
]

module _ (sha256 : JsonText → Text) where
  -- The head that a query finds is the last row of the chain, whose number is above that of any row
  -- before the chain.
  head-head_after :
      (s : Text) (n : ℕ) (p : Text) (t : Audits)
      → Accepted sha256 n p (of_stream s t)
      → (head s t ≡ head_after none (of_stream s t)) × ((h : Head) → head s t ≡ some h → n < h.seq)
  unfolding head
  head-head_after s n p [] a = (refl, λ h e. cc)
  head-head_after s n p (r ∷ rs) a = elim (Bool-cases (text_eq r.stream s)) [
    | inr e ↦ rw (e, head) (head-head_after s n p rs (rw e at a))
    | inl e ↦
        let (first, linked, rest) : Accepted sha256 n p (r ∷ of_stream s rs) = rw e at a in
        let (same, above) = head-head_after s r.seq r.hash rs rest in
        let lt : n < r.seq = omega (arith, first) in
        rw (e, head)
          (
            newer-head_after r (of_stream s rs) (head s rs) same above,
            λ h k. newer-above n r (head s rs) h lt (λ g q. omega (arith, lt, above g q)) k,
          )
  ]

  pub Accepted-append :
      (h : Option Head) (xs ys : Audits)
      → Accepted sha256 (seq_of h) (hash_of h) xs
      → Accepted sha256 (seq_of (head_after h xs)) (hash_of (head_after h xs)) ys
      → Accepted sha256 (seq_of h) (hash_of h) (xs ++ ys)
  Accepted-append h [] ys a b = b
  Accepted-append h (x ∷ xs) ys a b =
      (a.0, a.1, Accepted-append (some (record { seq = x.seq; hash = x.hash })) xs ys a.2 b)

  -- In each stream the rows carry the numbers 1, 2, … and the hashes that the chain from `GENESIS` gives.
  abbrev pub Verified : Audits → Type 0
  Verified t = (s : Text) → Accepted sha256 0 genesis (of_stream s t)

  module _ (reads : AuditEvent → AuditEvent)
      (keeps_stream : (e : AuditEvent) → (reads e).stream ≡ e.stream)
      (keeps_hash : (e : AuditEvent) (n : ℕ) (p : Text)
        → hash_entry sha256 (reads e) n p ≡ hash_entry sha256 e n p) where
    pub read_back-Accepted :
        (n : ℕ) (p : Text) (rows : Audits)
        → IsChain sha256 n p rows
        → Accepted sha256 n p (map (read_back sha256 reads) rows)
    read_back-Accepted n p [] h = tt
    read_back-Accepted n p (r ∷ rs) h = (
      h.0,
      keeps_hash r.entry (n + 1) p ∙ h.2,
      rw (h.0) (read_back-Accepted (n + 1) r.hash rs h.3),
    )

    read_back-stream :
        (s : Text) (rows : Audits)
        → All (λ e. e.stream ≡ s) (map (λ (r : ChainedAuditEvent). r.entry) rows)
        → All
            (λ e. e.stream ≡ s)
            (map (λ (r : ChainedAuditEvent). r.entry) (map (read_back sha256 reads) rows))
    read_back-stream s [] h = tt
    read_back-stream s (r ∷ rs) h = (keeps_stream r.entry ∙ h.0, read_back-stream s rs h.1)

    appended :
        (s : Text) (events : List AuditEvent) (rows t : Audits)
        → All (λ e. e.stream ≡ s) events
        → chain_batch sha256 events (head s t) ≡ ok rows
        → Verified t
        → (u : Text)
        → Accepted sha256 0 genesis
            (of_stream u t ++ of_stream u (map (read_back sha256 reads) rows))
    appended s events rows t own e v u =
        let (links, same) = chain_batch-IsChain sha256 events (head s t) rows e in
        let streams = read_back-stream s rows (subst (All (λ e. e.stream ≡ s)) (sym same) own) in
        let stored = map (read_back sha256 reads) rows in
        elim (Bool-cases (text_eq s u)) [
          | inr ne ↦
              rw (of_stream-other sha256 s u stored ne streams, append-nil (of_stream u t)) (v u)
          | inl eq ↦
              subst (λ u. Accepted sha256 0 genesis (of_stream u t ++ of_stream u stored))
                ((text_eq_iff s u).0 eq)
                (rw (of_stream-own sha256 s stored streams) (
                  Accepted-append none (of_stream s t) stored (v s) (
                    read_back-Accepted _ _ rows (
                      subst (λ h. IsChain sha256 (seq_of h) (hash_of h) rows)
                        (head-head_after s 0 genesis t (v s)).0 links))))
        ]

    write_stream-Verified :
        (s : Text) (events : List AuditEvent) (t : Audits)
        → All (λ e. e.stream ≡ s) events
        → Verified t
        → Verified (write_stream sha256 reads s events t).0
    unfolding write_stream
    write_stream-Verified s events t own v u =
        elim (Result-cases (chain_batch sha256 events (head s t))) [
          | inr (x, e) ↦ rw (e, write_stream) (v u)
          | inl (rows, e) ↦
              rw (e, write_stream, of_stream-append u t (map (read_back sha256 reads) rows))
                (appended s events rows t own e v u)
        ]

    write_streams-Verified :
        (groups : Dict (List AuditEvent)) (results : Dict ChainedAuditEvent) (t : Audits)
        → Grouped groups
        → Verified t
        → Verified (write_streams sha256 reads groups results t).0
    unfolding write_streams
    write_streams-Verified [] results t g v = v
    write_streams-Verified ((s, events) ∷ groups) results t g v =
        let w = write_stream-Verified s events t g.0 v in
        elim (Result-cases (write_stream sha256 reads s events t).1) [
          | inl (rows, e) ↦
              rw (e, write_streams)
                (write_streams-Verified groups (set_results sha256 reads rows results) _ g.1 w)
          | inr (x, e) ↦ rw (e, write_streams) w
        ]

    write_sorted-Verified :
        (iso : Text → Text) (batch : List AuditEvent) (out : Result Sorted) (t : Audits)
        → ((sorted : Sorted) → out ≡ ok sorted → Grouped sorted.1)
        → Verified t
        → Verified (write_sorted sha256 reads iso batch out t).0
    write_sorted-Verified iso batch (err e) t g v = v
    write_sorted-Verified iso batch (ok (stored, groups)) t g v =
        write_streams-Verified groups stored t (g _ refl) v

    -- If a stored event reads back in its stream and with the same hash, and the chain of every stream in
    -- the table verifies from `GENESIS`, then so it does after `write` of any batch, whether the call
    -- returns rows or throws, also where some of the streams were written before it threw.
    pub write-Verified :
        (iso : Text → Text) (batch : List AuditEvent) (t : Audits)
        → Verified t
        → Verified (write sha256 reads iso batch t).0
    unfolding write
    write-Verified iso [] t v = v
    write-Verified iso (event ∷ batch) t v =
        write_sorted-Verified iso (event ∷ batch) _ t
          (λ sorted e. sort_batch-Grouped iso t (event ∷ batch) [] ([], []) sorted tt e) v
