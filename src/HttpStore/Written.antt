-- ===== src/HttpStore/Written.antt =====
-- A write of the HTTP store keeps the end of the chain of every stream.
use adonisjs_audit_trail.Common.{
  ◌≡◌, refl, sym, ap, subst, ◌∙◌, false, Option, none, some, List, [], ◌∷◌, ◌++◌, map, inl, inr,
  All, Bool-cases, Option-cases, append-nil,
}
use adonisjs_audit_trail.Common.Text.{Text, text_eq, text_eq_iff, text_eq_refl}
use adonisjs_audit_trail.Common.Dict.{
  Dict, lookup, insert, lookup-insert, UniqueKeys, insert-UniqueKeys,
}
use adonisjs_audit_trail.Errors.{Result, ok, err, >>=-eq-ok, ok-injective, Result-cases}
use adonisjs_audit_trail.Json.{JsonText}
use adonisjs_audit_trail.Types.{AuditEvent, ChainedAuditEvent, Head}
use adonisjs_audit_trail.HashChain.{chain_batch}
use adonisjs_audit_trail.HashChain.Links.{IsChain, seq_of, hash_of, head_after, chain_batch-IsChain}
use adonisjs_audit_trail.HashChain.Verify.{of_stream, of_stream-own, of_stream-other}
use adonisjs_audit_trail.LucidStore.{push_event}
use adonisjs_audit_trail.LucidStore.Groups.{Grouped, push_event-Grouped, of_stream-append}
use adonisjs_audit_trail.LucidStore.Verify.{or_before}
use adonisjs_audit_trail.HttpStore.{
  HttpStore, Request, Reply, post, group_by_stream, last_head, log_of, set_heads, chain_groups,
  write, commit, post_chained,
}
use adonisjs_audit_trail.HttpStore.Kept.{Continues, retain-Continues}

push_event-UniqueKeys :
    (event : AuditEvent) (groups : Dict (List AuditEvent))
    → UniqueKeys groups
    → UniqueKeys (push_event event groups)
push_event-UniqueKeys event groups u = elim (Option-cases (lookup event.stream groups)) [
  | inl e ↦ rw e (insert-UniqueKeys event.stream (event ∷ []) groups u)
  | inr (es, e) ↦ rw e (insert-UniqueKeys event.stream (es ++ event ∷ []) groups u)
]

pub group_by_stream-Grouped :
    (batch : List AuditEvent) (groups : Dict (List AuditEvent))
    → Grouped groups
    → UniqueKeys groups
    → Grouped (group_by_stream batch groups) × UniqueKeys (group_by_stream batch groups)
group_by_stream-Grouped [] groups g u = (g, u)
group_by_stream-Grouped (event ∷ batch) groups g u =
    group_by_stream-Grouped batch (push_event event groups) (push_event-Grouped event groups g)
      (push_event-UniqueKeys event groups u)

pub lookup-set_heads :
    (s : Text) (news heads : Dict Head)
    → UniqueKeys news
    → lookup s (set_heads news heads) ≡ or_before (lookup s news) (lookup s heads)
unfolding set_heads lookup
lookup-set_heads s [] heads u = refl
lookup-set_heads s ((k, h) ∷ more) heads (new, u) =
    let ih = lookup-set_heads s more (insert k h heads) u in
    elim (Bool-cases (text_eq k s)) [
      | inr e ↦ rw (e, lookup, ih, lookup-insert k s h heads, e) refl
      | inl e ↦
          let none_ : lookup s more ≡ none =
            subst (λ t. lookup t more ≡ none) ((text_eq_iff k s).0 e) new in
          rw (e, lookup, ih, lookup-insert k s h heads, e, none_) refl
    ]

last_head-head_after :
    (rows : List ChainedAuditEvent) (g : Option Head) (h : Head)
    → last_head rows ≡ ok h
    → head_after g rows ≡ some h
last_head-head_after [] g h e = cc
last_head-head_after (r ∷ []) g h e = ap some (ok-injective e)
last_head-head_after (r ∷ x ∷ rows) g h e =
    last_head-head_after (x ∷ rows) (some (record { seq = r.seq; hash = r.hash })) h e

module _ (sha256 : JsonText → Text) (heads : Dict Head) where
  -- The rows of the stream so far continue the chain after its head, and lead to its new head.
  pub record Done (rows : List ChainedAuditEvent) (news : Dict Head) (s : Text) : Type 0 where
    pub chain :
        IsChain sha256 (seq_of (lookup s heads)) (hash_of (lookup s heads)) (of_stream s rows)
    pub newest :
        head_after (lookup s heads) (of_stream s rows) ≡ or_before (lookup s news) (lookup s heads)

  abbrev pub Untouched : Dict (List AuditEvent) → List ChainedAuditEvent → Type 0
  Untouched groups rows =
      (s : Text) (events : List AuditEvent) → lookup s groups ≡ some events → of_stream s rows ≡ []

  module _ (s : Text) (events : List AuditEvent) (chained rows : List ChainedAuditEvent)
      (news : Dict Head) (h : Head) (own : All (λ e. e.stream ≡ s) events)
      (built : chain_batch sha256 events (lookup s heads) ≡ ok chained)
      (last : last_head chained ≡ ok h) where
    abbrev links :
        IsChain sha256 (seq_of (lookup s heads)) (hash_of (lookup s heads)) chained
        × (map (λ r. r.entry) chained ≡ events)
    links = chain_batch-IsChain sha256 events (lookup s heads) chained built

    streams : All (λ e. e.stream ≡ s) (map (λ (r : ChainedAuditEvent). r.entry) chained)
    streams = subst (All (λ e. e.stream ≡ s)) (sym links.1) own

    own_rows : of_stream s rows ≡ [] → of_stream s (rows ++ chained) ≡ chained
    own_rows fresh =
        rw (of_stream-append s rows chained, fresh) (of_stream-own sha256 s chained streams)

    other_rows : (u : Text) → text_eq s u ≡ false → of_stream u (rows ++ chained) ≡ of_stream u rows
    other_rows u ne =
        rw (of_stream-append u rows chained, of_stream-other sha256 s u chained ne streams)
          (append-nil (of_stream u rows))

    group-Done :
        of_stream s rows ≡ []
        → ((u : Text) → Done rows news u)
        → (u : Text) → Done (rows ++ chained) (insert s h news) u
    group-Done fresh done u = elim (Bool-cases (text_eq s u)) [
      | inl e ↦ subst (Done (rows ++ chained) (insert s h news)) ((text_eq_iff s u).0 e) (record {
        chain = rw (own_rows fresh) (links.0);
        newest =
            rw (own_rows fresh, lookup-insert s s h news, text_eq_refl s)
              (last_head-head_after chained (lookup s heads) h last);
      })
      | inr e ↦ record {
        chain = rw (other_rows u e) ((done u).chain);
        newest = rw (other_rows u e, lookup-insert s u h news, e) ((done u).newest);
      }
    ]

    group-Untouched :
        (groups : Dict (List AuditEvent))
        → lookup s groups ≡ none
        → Untouched ((s, events) ∷ groups) rows
        → Untouched groups (rows ++ chained)
    unfolding lookup
    group-Untouched groups absent fresh u es found = elim (Bool-cases (text_eq s u)) [
      | inl e ↦
          absurd
            (none-ne-some (sym absent ∙ ap (λ t. lookup t groups) ((text_eq_iff s u).0 e) ∙ found))
      | inr e ↦ rw (other_rows u e) (fresh u es (rw (e, lookup) found))
    ]
      where
        none-ne-some : none ≡ some es → ⊥
        none-ne-some k = cc

  pub chain_groups-Done :
      (groups : Dict (List AuditEvent)) (rows out : List ChainedAuditEvent) (news last : Dict Head)
      → Grouped groups
      → UniqueKeys groups
      → UniqueKeys news
      → Untouched groups rows
      → ((s : Text) → Done rows news s)
      → chain_groups sha256 heads groups (rows, news) ≡ ok (out, last)
      → UniqueKeys last × ((s : Text) → Done out last s)
  unfolding chain_groups lookup
  chain_groups-Done [] rows out news last g u n fresh done h =
      let same = ok-injective h in
      (subst (λ d. UniqueKeys d.1) same n, λ s. subst (λ d. Done d.0 d.1 s) same (done s))
  chain_groups-Done ((s, events) ∷ groups) rows out news last g u n fresh done h =
      let (chained, built, h1) = >>=-eq-ok (chain_batch sha256 events (lookup s heads)) _ h in
      let (z, ends_at, h2) = >>=-eq-ok (last_head chained) _ h1 in
      let own : of_stream s rows ≡ [] = fresh s events (rw (text_eq_refl s) refl) in
      chain_groups-Done groups (rows ++ chained) out (insert s z news) last g.1 u.1
        (insert-UniqueKeys s z news n)
        (group-Untouched s events chained rows news z g.0 built ends_at groups u.0 fresh)
        (group-Done s events chained rows news z g.0 built ends_at own done) h2

module _ (sha256 : JsonText → Text) where
  -- In each stream the rows kept are the end of a chain that leads to the stream's head.
  abbrev pub Kept : HttpStore → Type 0
  Kept st = (s : Text) → Continues sha256 (lookup s st.heads) (log_of s st.logs)

  module _ (env : Text → Option Text) (hmac : Text → JsonText → Text)
      (fetch : Request → Reply) where
    commit-Kept :
        (st : HttpStore) (rows : List ChainedAuditEvent) (news : Dict Head)
        → UniqueKeys news
        → ((s : Text) → Done sha256 st.heads rows news s)
        → Kept st
        → Kept (commit sha256 env hmac fetch st (rows, news))
    commit-Kept st rows news u done v s =
        let moved =
          retain-Continues sha256 s st.max_retained_per_stream rows st.logs (lookup s st.heads)
            (v s) ((done s).chain) in
        rw (lookup-set_heads s news st.heads u) (
          subst
            (λ h. Continues sha256 h (log_of s (commit sha256 env hmac fetch st (rows, news)).logs))
            (done s).newest moved)

    post_chained-Kept :
        (st : HttpStore) (out : Result (List ChainedAuditEvent × Dict Head))
        → ((rows : List ChainedAuditEvent) (news : Dict Head)
            → out ≡ ok (rows, news)
            → UniqueKeys news × ((s : Text) → Done sha256 st.heads rows news s))
        → Kept st
        → Kept (post_chained sha256 env hmac fetch st out).0
    post_chained-Kept st (err e) d v = v
    post_chained-Kept st (ok (rows, news)) d v = elim (Result-cases (post env hmac fetch st rows)) [
      | inr (x, e) ↦ rw (e, post_chained) v
      | inl (t, e) ↦
          let (u, done) = d rows news refl in
          rw (e, post_chained) (commit-Kept st rows news u done v)
    ]

    -- If what the store keeps of every stream is the end of a chain that leads to the stream's head, then so
    -- it is after `write` of any batch: when the collector accepts it, with older rows evicted above the
    -- bound, and when chaining, signing or the request fails.
    pub write-Kept :
        (st : HttpStore) (batch : List AuditEvent)
        → Kept st
        → Kept (write sha256 env hmac fetch st batch).0
    unfolding write lookup
    write-Kept st [] v = v
    write-Kept st (event ∷ batch) v =
        let (g, u) = group_by_stream-Grouped (event ∷ batch) [] tt tt in
        post_chained-Kept st _
          (λ rows news e.
            chain_groups-Done sha256 st.heads (group_by_stream (event ∷ batch) []) [] rows [] news g
              u tt (λ s es k. refl) (λ s. record { chain = tt; newest = refl }) e)
          v
