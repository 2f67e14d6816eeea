-- ===== src/VerifyCommand.antt =====
-- commands/audit_verify.ts: the command that verifies streams and their anchors, by its exit code. Output is not
-- kept. `verify` is the store's, with the range of the flags; `anchors` what the anchors file holds, or none where
-- it is not configured or not there; `resolve_hash` is the store's `resolveSequenceHash`, where it has one.
pub mod Anchored
use adonisjs_audit_trail.Common.{
  ℕ, ◌≡◌, ◌↔◌, refl, sym, ap, ◌∙◌, Bool, true, false, false≢true, not, ◌||◌, Option, none, some,
  List, [], ◌∷◌, All, inl, inr, Bool-cases, if◌then◌else◌, leb, arith,
}
use adonisjs_audit_trail.Common.Text.{Text, text_eq}
use adonisjs_audit_trail.Errors.{Result, ok, err, ◌>>=◌, >>=-eq-ok, ok-injective, ok-ne-err}
use adonisjs_audit_trail.Types.{VerifyReport, Stream, ends, throws, yields}
use adonisjs_audit_trail.HashChain.Verify.{AllValid}
use adonisjs_audit_trail.Anchors.{ChainHead}

pub record VerifyFlags : Type 0 where
  pub stream : Option Text
  pub json : Bool
  pub check_anchors : Bool

-- `if (this.stream)`
abbrev pub named_stream : Option Text → Option (List Text) → List Text
named_stream (some (c ∷ cs)) listed = (c ∷ cs) ∷ []
named_stream (some []) (some streams) = streams
named_stream none (some streams) = streams
named_stream (some []) none = []
named_stream none none = []

abbrev pub anchors_of : Text → List ChainHead → List ChainHead
anchors_of stream [] = []
anchors_of stream (a ∷ rest) =
    let others = anchors_of stream rest in if text_eq a.stream stream then a ∷ others else others

abbrev pub insert_anchor : ChainHead → List ChainHead → List ChainHead
insert_anchor a [] = a ∷ []
insert_anchor a (b ∷ rest) = if leb a.seq b.seq then a ∷ b ∷ rest else b ∷ insert_anchor a rest

abbrev pub sort_anchors : List ChainHead → List ChainHead
sort_anchors [] = []
sort_anchors (a ∷ rest) = insert_anchor a (sort_anchors rest)

abbrev pub same_hash : Option Text → Text → Bool
same_hash none expected = false
same_hash (some hash) expected = text_eq hash expected

module _ (resolve_hash : Text → ℕ → Result (Option Text)) where
  -- The loop over the anchors of a stream, up to the first that does not match.
  unfoldable pub match_anchors : List ChainHead → Result Bool
  match_anchors [] = ok true
  match_anchors (a ∷ rest) = do
    hash ← resolve_hash a.stream a.seq
    if same_hash hash a.hash then match_anchors rest else ok false

abbrev pub match_resolved : Option (Text → ℕ → Result (Option Text)) → List ChainHead → Result Bool
match_resolved resolver [] = ok true
match_resolved none (a ∷ rest) = ok false
match_resolved (some resolve_hash) (a ∷ rest) = match_anchors resolve_hash (a ∷ rest)

module _ (verify : Text → Stream VerifyReport) (anchors : Result (Option (List ChainHead)))
    (resolver : Option (Text → ℕ → Result (Option Text))) (flags : VerifyFlags) where
  unfoldable pub verify_anchor : Text → Result Bool
  unfolding match_anchors
  verify_anchor stream = do
    file ← anchors
    elim file [
      | none ↦ ok true
      | some heads ↦ match_resolved resolver (sort_anchors (anchors_of stream heads))
    ]

  -- The reports of a stream: whether any so far is invalid, or none where the command stops at one.
  unfoldable pub scan_reports : Stream VerifyReport → Bool → Result (Option Bool)
  scan_reports ends failed = ok (some failed)
  scan_reports (throws e) failed = err e
  scan_reports (yields report rest) failed =
      let same = scan_reports rest failed in
      let broken = scan_reports rest true in
      if report.valid then same else if flags.json then broken else ok none

  abbrev pub anchor_failed : Text → Bool → Result Bool
  anchor_failed stream failed =
      if flags.check_anchors
      then (do valid ← verify_anchor stream; ok (failed || not valid))
      else ok failed

  -- The loop over the streams, to the exit code.
  unfoldable pub verify_streams : List Text → Bool → Result ℕ
  unfolding scan_reports verify_anchor
  verify_streams [] failed = ok (if failed then 1 else 0)
  verify_streams (stream ∷ streams) failed = do
    scanned ← scan_reports (verify stream) failed
    elim scanned [
      | none ↦ ok 1
      | some failed' ↦ do after ← anchor_failed stream failed'; verify_streams streams after
    ]

  abbrev pub run_streams : List Text → Result (Option ℕ)
  run_streams [] = ok none
  run_streams (stream ∷ streams) = do code ← verify_streams (stream ∷ streams) false; ok (some code)

  -- `run`, to the exit code, which is left alone where there is no stream.
  unfoldable pub run : Option (List Text) → Result (Option ℕ)
  unfolding verify_streams
  run listed = run_streams (named_stream flags.stream listed)

  abbrev pub Passes : Text → Type 0
  Passes stream = AllValid (verify stream) × (anchor_failed stream false ≡ ok false)

  scan-true : (reports : Stream VerifyReport) → scan_reports reports true ≡ ok (some false) → ⊥
  unfolding scan_reports
  scan-true ends h = cc
  scan-true (throws e) h = ok-ne-err h
  scan-true (yields report rest) h = elim (Bool-cases report.valid) [
    | inl e ↦ scan-true rest (rw e at h)
    | inr e ↦ elim (Bool-cases flags.json) [
      | inl j ↦ scan-true rest (rw (e, j) at h)
      | inr j ↦ none-ne-some (ok-injective (rw (e, j) at h))
    ]
  ]
    where
      none-ne-some : none ≡ some false → ⊥
      none-ne-some k = cc

  scan-valid :
      (reports : Stream VerifyReport)
      → scan_reports reports false ≡ ok (some false)
      → AllValid reports
  unfolding scan_reports
  scan-valid ends h = tt
  scan-valid (throws e) h = ok-ne-err h
  scan-valid (yields report rest) h = elim (Bool-cases report.valid) [
    | inl e ↦ (e, scan-valid rest (rw e at h))
    | inr e ↦ elim (Bool-cases flags.json) [
      | inl j ↦ absurd (scan-true rest (rw (e, j) at h))
      | inr j ↦ absurd (none-ne-some (ok-injective (rw (e, j) at h)))
    ]
  ]
    where
      none-ne-some : none ≡ some false → ⊥
      none-ne-some k = cc

  valid-scan :
      (reports : Stream VerifyReport)
      → AllValid reports
      → scan_reports reports false ≡ ok (some false)
  unfolding scan_reports
  valid-scan ends v = refl
  valid-scan (throws e) v = absurd v
  valid-scan (yields report rest) v = rw (v.0) (valid-scan rest v.1)

  one-ne-zero : {a b : ℕ} → a ≡ 1 → b ≡ 0 → ok a ≡ ok b → ⊥
  one-ne-zero {a} {b} one zero h = absurd (omega (arith, one, zero, ok-injective h))

  anchor_failed-true :
      (stream : Text) (after : Bool) → anchor_failed stream true ≡ ok after → after ≡ true
  unfolding verify_anchor
  anchor_failed-true stream after h = elim (Bool-cases flags.check_anchors) [
    | inr e ↦ sym (ok-injective (rw e at h))
    | inl e ↦
        let (valid, found, same) = >>=-eq-ok (verify_anchor stream) _ (rw e at h) in
        sym (ok-injective same)
  ]

  -- The round of a stream, where it does not end the loop.
  step :
      (stream : Text) (streams : List Text) (failed : Bool)
      → verify_streams (stream ∷ streams) failed ≡ ok 0
      → (failed' after : Bool) × (scan_reports (verify stream) failed ≡ ok (some failed'))
        × (anchor_failed stream failed' ≡ ok after)
        × (verify_streams streams after ≡ ok 0)
  unfolding verify_streams
  step stream streams failed h =
      let (scanned, found, h1) = >>=-eq-ok (scan_reports (verify stream) failed) _ h in
      by_scan scanned found h1
    where
      by_scan :
          (scanned : Option Bool)
          → scan_reports (verify stream) failed ≡ ok scanned
          → (elim scanned as (λ x. Result ℕ) [
            | none ↦ ok 1
            | some failed' ↦ do after ← anchor_failed stream failed'; verify_streams streams after
          ])
            ≡ ok 0
          → (failed' after : Bool) × (scan_reports (verify stream) failed ≡ ok (some failed'))
            × (anchor_failed stream failed' ≡ ok after)
            × (verify_streams streams after ≡ ok 0)
      by_scan none found h = absurd (one-ne-zero refl refl h)
      by_scan (some failed') found h =
          let (after, checked, rest) = >>=-eq-ok (anchor_failed stream failed') _ h in
          (failed', after, found, checked, rest)

  streams-true : (streams : List Text) → verify_streams streams true ≡ ok 0 → ⊥
  unfolding verify_streams
  streams-true [] h = one-ne-zero refl refl h
  streams-true (stream ∷ streams) h =
      let (failed', after, found, checked, rest) = step stream streams true h in
      elim (Bool-cases failed') [
        | inr e ↦ scan-true (verify stream) (found ∙ ap (λ b. ok (some b)) e)
        | inl e ↦
            let still =
              anchor_failed-true stream after (ap (anchor_failed stream) (sym e) ∙ checked) in
            streams-true streams (ap (verify_streams streams) (sym still) ∙ rest)
      ]

  streams-Passes : (streams : List Text) → verify_streams streams false ≡ ok 0 → All Passes streams
  unfolding verify_streams
  streams-Passes [] h = tt
  streams-Passes (stream ∷ streams) h =
      let (failed', after, found, checked, rest) = step stream streams false h in
      elim (Bool-cases after) [
        | inl e ↦ absurd (streams-true streams (ap (verify_streams streams) (sym e) ∙ rest))
        | inr e ↦ elim (Bool-cases failed') [
          | inl f ↦ absurd (
              false≢true (
                sym e
                ∙ anchor_failed-true stream after (ap (anchor_failed stream) (sym f) ∙ checked)))
          | inr f ↦ (
            (
              scan-valid (verify stream) (found ∙ ap (λ b. ok (some b)) f),
              ap (anchor_failed stream) (sym f) ∙ checked ∙ ap ok e,
            ),
            streams-Passes streams (ap (verify_streams streams) (sym e) ∙ rest),
          )
        ]
      ]

  Passes-streams : (streams : List Text) → All Passes streams → verify_streams streams false ≡ ok 0
  unfolding verify_streams
  Passes-streams [] p = refl
  Passes-streams (stream ∷ streams) p =
      rw (valid-scan (verify stream) (p.0.0))
        (ap (λ r. r >>= verify_streams streams) (p.0.1) ∙ Passes-streams streams p.1)

  pub run-Passes_iff :
      (stream : Text) (streams : List Text) (listed : Option (List Text))
      → named_stream flags.stream listed ≡ stream ∷ streams
      → (run listed ≡ ok (some 0)) ↔ All Passes (stream ∷ streams)
  unfolding run
  run-Passes_iff stream streams listed named =
      let opened : run listed ≡ run_streams (stream ∷ streams) = ap run_streams named in
      (
        λ h.
            let (code, e, same) =
              >>=-eq-ok (verify_streams (stream ∷ streams) false) _ (sym opened ∙ h) in
            let zero_ : code ≡ 0 = some-injective (ok-injective same) in
            streams-Passes (stream ∷ streams) (e ∙ ap ok zero_),
        λ p. opened ∙ ap (λ r. do code ← r; ok (some code)) (Passes-streams (stream ∷ streams) p),
      )
    where
      some-injective : {a b : ℕ} → some a ≡ some b → a ≡ b
      some-injective k = cc
