-- ===== src/VerifyCommand/Anchored.antt =====
-- The exit code of `audit:verify` against the reports and the anchors file, anchor by anchor.
use adonisjs_audit_trail.Common.{
  ℕ, ◌≡◌, ◌≢◌, ◌↔◌, ◌⊎◌, refl, sym, ap, ◌∙◌, Bool, true, false, false≢true, not, Option, none, some,
  List, [], ◌∷◌, All, inl, inr, Bool-cases, Option-cases, leb,
}
use adonisjs_audit_trail.Common.Text.{Text, text_eq, text_eq_iff, text_eq_refl}
use adonisjs_audit_trail.Errors.{Result, ok, >>=-eq-ok, ok-injective, ok-ne-err, Result-cases}
use adonisjs_audit_trail.Types.{VerifyReport, Stream}
use adonisjs_audit_trail.HashChain.Verify.{AllValid}
use adonisjs_audit_trail.Anchors.{ChainHead}
use adonisjs_audit_trail.VerifyCommand.{
  VerifyFlags, named_stream, anchors_of, insert_anchor, sort_anchors, same_hash, match_anchors,
  match_resolved, verify_anchor, anchor_failed, Passes, run, run-Passes_iff,
}

module _ (P : ChainHead → Type 0) where
  insert_anchor-All_iff :
      (a : ChainHead) (heads : List ChainHead) → All P (insert_anchor a heads) ↔ (P a × All P heads)
  insert_anchor-All_iff a [] = (λ h. h, λ h. h)
  insert_anchor-All_iff a (b ∷ heads) = elim (Bool-cases (leb a.seq b.seq)) [
    | inl e ↦ rw e (λ h. h, λ h. h)
    | inr e ↦
        let ih = insert_anchor-All_iff a heads in
        rw e (
          λ h. let (first, rest) = ih.0 h.1 in (first, (h.0, rest)),
          λ h. (h.1.0, ih.1 (h.0, h.1.1)),
        )
  ]

  sort_anchors-All_iff : (heads : List ChainHead) → All P (sort_anchors heads) ↔ All P heads
  sort_anchors-All_iff [] = (λ h. h, λ h. h)
  sort_anchors-All_iff (a ∷ heads) =
      let ih = sort_anchors-All_iff heads in
      let put = insert_anchor-All_iff a (sort_anchors heads) in
      (λ h. ((put.0 h).0, ih.0 (put.0 h).1), λ h. put.1 (h.0, ih.1 h.1))

  anchors_of-All_iff :
      (stream : Text) (heads : List ChainHead)
      → All P (anchors_of stream heads) ↔ All (λ a. (a.stream ≢ stream) ⊎ P a) heads
  anchors_of-All_iff stream [] = (λ h. h, λ h. h)
  anchors_of-All_iff stream (a ∷ heads) =
      let ih = anchors_of-All_iff stream heads in
      elim (Bool-cases (text_eq a.stream stream)) [
        | inl e ↦
            let same = (text_eq_iff a.stream stream).0 e in
            rw e (
              λ h. (inr h.0, ih.0 h.1),
              λ h. (elim (h.0) [ inl other ↦ absurd (other same) | inr p ↦ p ], ih.1 h.1),
            )
        | inr e ↦
            let other : a.stream ≢ stream = λ same. differs a.stream stream same e in
            rw e (λ h. (inl other, ih.0 h), λ h. ih.1 h.1)
      ]
    where
      differs : (s t : Text) → s ≡ t → text_eq s t ≡ false → ⊥
      differs s t same e = absurd (false≢true (sym e ∙ (text_eq_iff s t).1 same))

module _ (resolver : Option (Text → ℕ → Result (Option Text))) where
  -- The store resolves the anchor's stream and number to the anchor's hash.
  abbrev pub IsStored : ChainHead → Type 0
  IsStored a =
      (resolve_hash : Text → ℕ → Result (Option Text)) × (resolver ≡ some resolve_hash)
      × (resolve_hash a.stream a.seq ≡ ok (some a.hash))

same_hash_iff :
    (found : Option Text) (hash : Text) → (same_hash found hash ≡ true) ↔ (found ≡ some hash)
same_hash_iff none hash = (λ h. cc, λ h. cc)
same_hash_iff (some t) hash =
    (λ h. ap some ((text_eq_iff t hash).0 h), λ h. (text_eq_iff t hash).1 cc)

module _ (resolve_hash : Text → ℕ → Result (Option Text)) where
  abbrev Resolved : ChainHead → Type 0
  Resolved a = resolve_hash a.stream a.seq ≡ ok (some a.hash)

  match_anchors-All :
      (heads : List ChainHead) → match_anchors resolve_hash heads ≡ ok true → All Resolved heads
  unfolding match_anchors
  match_anchors-All [] h = tt
  match_anchors-All (a ∷ heads) h =
      let (found, e, h1) = >>=-eq-ok (resolve_hash a.stream a.seq) _ h in
      elim (Bool-cases (same_hash found a.hash)) [
        | inl s ↦
            (e ∙ ap ok ((same_hash_iff found a.hash).0 s), match_anchors-All heads (rw s at h1))
        | inr s ↦ absurd (false≢true (ok-injective (rw s at h1)))
      ]

  All-match_anchors :
      (heads : List ChainHead) → All Resolved heads → match_anchors resolve_hash heads ≡ ok true
  unfolding match_anchors
  All-match_anchors [] h = refl
  All-match_anchors (a ∷ heads) h = rw (h.0, text_eq_refl a.hash) (All-match_anchors heads h.1)

some_fun : (f g : Text → ℕ → Result (Option Text)) → some f ≡ some g → f ≡ g
some_fun f g e = cc

match_resolved-IsStored_iff :
    (resolver : Option (Text → ℕ → Result (Option Text))) (heads : List ChainHead)
    → (match_resolved resolver heads ≡ ok true) ↔ All (IsStored resolver) heads
match_resolved-IsStored_iff resolver [] = (λ h. tt, λ h. refl)
match_resolved-IsStored_iff none (a ∷ heads) =
    (λ h. absurd (false≢true (ok-injective h)), λ h. let (r, e, found) = h.0 in cc)
match_resolved-IsStored_iff (some resolve_hash) (a ∷ heads) = (
  λ h. each (a ∷ heads) (match_anchors-All resolve_hash (a ∷ heads) h),
  λ h. All-match_anchors resolve_hash (a ∷ heads) (back (a ∷ heads) h),
)
  where
    each :
        (as_ : List ChainHead)
        → All (Resolved resolve_hash) as_
        → All (IsStored (some resolve_hash)) as_
    each [] h = tt
    each (b ∷ bs) h = ((resolve_hash, refl, h.0), each bs h.1)

    back :
        (as_ : List ChainHead)
        → All (IsStored (some resolve_hash)) as_
        → All (Resolved resolve_hash) as_
    back [] h = tt
    back (b ∷ bs) h = let (r, e, found) = h.0 in (rw (some_fun resolve_hash r e) found, back bs h.1)

module _ (verify : Text → Stream VerifyReport) (anchors : Result (Option (List ChainHead)))
    (resolver : Option (Text → ℕ → Result (Option Text))) (flags : VerifyFlags) where
  -- Anchors are not to be checked, there is no anchors file, or the store has every anchor of the stream.
  abbrev pub Anchored : Text → Type 0
  Anchored stream =
      (flags.check_anchors ≡ false)
      ⊎ (anchors ≡ ok none)
      ⊎ ((heads : List ChainHead) × (anchors ≡ ok (some heads))
          × All (λ a. (a.stream ≢ stream) ⊎ IsStored resolver a) heads)

  verify_anchor-Anchored :
      (stream : Text)
      → verify_anchor verify anchors resolver flags stream ≡ ok true
      → Anchored stream
  unfolding verify_anchor
  verify_anchor-Anchored stream h = elim (Result-cases anchors) [
    | inr (x, e) ↦ absurd (ok-ne-err (rw e at h))
    | inl (file, e) ↦ elim (Option-cases file) [
      | inl n ↦ inr (inl (e ∙ ap ok n))
      | inr (heads, n) ↦ inr (
          inr (
            heads,
            e ∙ ap ok n,
            (anchors_of-All_iff (IsStored resolver) stream heads).0 (
                (sort_anchors-All_iff (IsStored resolver) (anchors_of stream heads)).0 (
                  (match_resolved-IsStored_iff resolver (sort_anchors (anchors_of stream heads))).0
                    (rw (e, n) at h))),
          ))
    ]
  ]

  anchor_failed-Anchored :
      (stream : Text)
      → anchor_failed verify anchors resolver flags stream false ≡ ok false
      → Anchored stream
  unfolding verify_anchor
  anchor_failed-Anchored stream h = elim (Bool-cases flags.check_anchors) [
    | inr e ↦ inl e
    | inl e ↦
        let (valid, found, same) =
          >>=-eq-ok (verify_anchor verify anchors resolver flags stream) _ (rw e at h) in
        verify_anchor-Anchored stream (found ∙ ap ok (not_false valid (ok-injective same)))
  ]
    where
      not_false : (b : Bool) → not b ≡ false → b ≡ true
      not_false true h = refl
      not_false false h = absurd (false≢true (sym h))

  Anchored-anchor_failed :
      (stream : Text)
      → Anchored stream
      → anchor_failed verify anchors resolver flags stream false ≡ ok false
  unfolding verify_anchor
  Anchored-anchor_failed stream h = elim (Bool-cases flags.check_anchors) [
    | inr e ↦ rw e refl
    | inl e ↦ elim h [
      | inl off ↦ absurd (false≢true (sym off ∙ e))
      | inr (inl absent) ↦ rw (e, absent) refl
      | inr (inr (heads, file, all)) ↦
          rw
            (
              e,
              file,
              (match_resolved-IsStored_iff resolver (sort_anchors (anchors_of stream heads))).1 (
                  (sort_anchors-All_iff (IsStored resolver) (anchors_of stream heads)).1
                    ((anchors_of-All_iff (IsStored resolver) stream heads).1 all)),
            )
            refl
    ]
  ]

  -- Every report of the stream's verification, which ends, is valid, and the stream is anchored.
  abbrev pub Clean : Text → Type 0
  Clean stream = AllValid (verify stream) × Anchored stream

  Passes-Clean_iff :
      (streams : List Text) → All (Passes verify anchors resolver flags) streams ↔ All Clean streams
  Passes-Clean_iff [] = (λ h. tt, λ h. tt)
  Passes-Clean_iff (s ∷ ss) =
      let ih = Passes-Clean_iff ss in
      (
        λ h. ((h.0.0, anchor_failed-Anchored s h.0.1), ih.0 h.1),
        λ h. ((h.0.0, Anchored-anchor_failed s h.0.1), ih.1 h.1),
      )

  -- Where there is a stream to verify, the command exits with 0 exactly when for each stream the verification
  -- ends with every report valid and, if anchors are to be checked and there is an anchors file, the store has a
  -- resolver that gives for each anchor of that stream in the file the hash that the anchor states. In both output
  -- modes; a stream without anchors passes, and so does the check of anchors where there is no anchors file.
  pub run_iff :
      (stream : Text) (streams : List Text) (listed : Option (List Text))
      → named_stream flags.stream listed ≡ stream ∷ streams
      → (run verify anchors resolver flags listed ≡ ok (some 0)) ↔ All Clean (stream ∷ streams)
  run_iff stream streams listed named =
      let code = run-Passes_iff verify anchors resolver flags stream streams listed named in
      let same = Passes-Clean_iff (stream ∷ streams) in
      (λ h. same.0 (code.0 h), λ h. code.1 (same.1 h))
