-- ===== src/Anchors.antt =====
-- src/core/anchor.ts: which heads are published after a flush. `publish` tells whether the publication of a head
-- succeeds, `now` is the clock's ISO text, and a day is its first ten characters.
use adonisjs_audit_trail.Common.{
  ℕ, ◌/◌, ◌≤◌, ◌≡◌, subst, Bool, true, not, Option, none, some, List, [], ◌∷◌, ◌++◌, if◌then◌else◌,
  ltb, take, inl, inr, Bool-cases, arith,
}
use adonisjs_audit_trail.Common.Text.{Text, text_eq, text_eq_iff}
use adonisjs_audit_trail.Common.Dict.{Dict, lookup, insert, lookup-insert}
use adonisjs_audit_trail.Errors.{Result, ok, err, Result-cases}
use adonisjs_audit_trail.LucidStore.Query.{SequenceHash}

pub data Every : Type 0 where
  daily : Every
  every : ℕ → Every

pub record AnchorState : Type 0 where
  pub last_seq : ℕ
  pub last_date : Text

pub record ChainHead : Type 0 where
  pub stream : Text
  pub seq : ℕ
  pub hash : Text
  pub anchored_at : Text

abbrev pub keep_last : SequenceHash → Option SequenceHash → Dict SequenceHash → Dict SequenceHash
keep_last event none heads = insert event.stream event heads
keep_last event (some current) heads =
    if ltb current.seq event.seq then insert event.stream event heads else heads

unfoldable pub last_per_stream : List SequenceHash → Dict SequenceHash → Dict SequenceHash
last_per_stream [] heads = heads
last_per_stream (event ∷ events) heads =
    last_per_stream events (keep_last event (lookup event.stream heads) heads)

abbrev pub day : Text → Text
day date = take 10 date

-- `Math.floor(lastSeq / every)`, which is -1 where there is no state.
abbrev pub passes_bucket : ℕ → Option AnchorState → ℕ → Bool
passes_bucket size none seq = true
passes_bucket size (some state) seq = ltb (state.last_seq / size) (seq / size)

abbrev pub passes_day : Option AnchorState → Text → Bool
passes_day none now = true
passes_day (some state) now = not (text_eq (day state.last_date) (day now))

unfoldable pub should_anchor : Every → Option AnchorState → Text → ℕ → Bool
should_anchor daily state now seq = passes_day state now
should_anchor (every size) state now seq = passes_bucket size state seq

module _ (publish : ChainHead → Result (Unit {0})) (mode : Every) (now : Text) where
  abbrev pub chain_head : Text → SequenceHash → ChainHead
  chain_head stream head = record {
    stream = stream;
    seq = head.seq;
    hash = head.hash;
    anchored_at = now;
  }

  -- The heads in the order of the map: the state, and what was published, up to the first that fails.
  unfoldable pub anchor_heads :
      Dict SequenceHash
      → Dict AnchorState
      → List ChainHead
      → Dict AnchorState × List ChainHead × Result (Unit {0})
  unfolding should_anchor
  anchor_heads [] state sent = (state, sent, ok tt)
  anchor_heads ((stream, head) ∷ heads) state sent =
      let skipped = anchor_heads heads state sent in
      let anchored =
        anchor_heads heads (insert stream (record { last_seq = head.seq; last_date = now }) state)
          (sent ++ chain_head stream head ∷ []) in
      if should_anchor mode (lookup stream state) now head.seq
      then (elim (publish (chain_head stream head)) [
        | err e ↦ (state, sent, err e)
        | ok t ↦ anchored
      ])
      else skipped

  unfoldable pub on_flush :
      List SequenceHash → Dict AnchorState → Dict AnchorState × List ChainHead × Result (Unit {0})
  unfolding anchor_heads last_per_stream
  on_flush events state = anchor_heads (last_per_stream events []) state []

-- The last number anchored of a stream, and whether there is one below or at a number.
abbrev pub Covers : ℕ → Option AnchorState → Option AnchorState → Type 0
Covers size none after = Unit
Covers size (some before) none = ⊥
Covers size (some before) (some after) = before.last_seq / size ≤ after.last_seq / size

Covers-refl : (size : ℕ) (o : Option AnchorState) → Covers size o o
Covers-refl size none = tt
Covers-refl size (some s) = omega arith

Covers-trans :
    (size : ℕ) (a b c : Option AnchorState) → Covers size a b → Covers size b c → Covers size a c
Covers-trans size none b c x y = tt
Covers-trans size (some a) none c x y = absurd x
Covers-trans size (some a) (some b) none x y = absurd y
Covers-trans size (some a) (some b) (some c) x y = omega (arith, x, y)

passes-Covers :
    (size : ℕ) (state : Option AnchorState) (next : AnchorState)
    → passes_bucket size state next.last_seq ≡ true
    → Covers size state (some next)
passes-Covers size none next h = tt
passes-Covers size (some s) next h = ground (arith, h)

anchored :
    (size : ℕ) (stream : Text) (next : AnchorState) (state : Dict AnchorState) (s : Text)
    → passes_bucket size (lookup stream state) next.last_seq ≡ true
    → Covers size (lookup s state) (lookup s (insert stream next state))
anchored size stream next state s h = elim (Bool-cases (text_eq stream s)) [
  | inr e ↦ rw (lookup-insert stream s next state, e) (Covers-refl size (lookup s state))
  | inl e ↦
      rw (lookup-insert stream s next state, e)
        (subst (λ t. Covers size (lookup t state) (some next)) ((text_eq_iff stream s).0 e)
          (passes-Covers size (lookup stream state) next h))
]

module _ (publish : ChainHead → Result (Unit {0})) (size : ℕ) (now : Text) where
  anchor_heads-Covers :
      (heads : Dict SequenceHash) (state : Dict AnchorState) (sent : List ChainHead) (s : Text)
      → Covers size
          (lookup s state)
          (lookup s (anchor_heads publish (every size) now heads state sent).0)
  unfolding anchor_heads should_anchor
  anchor_heads-Covers [] state sent s = Covers-refl size (lookup s state)
  anchor_heads-Covers ((stream, head) ∷ heads) state sent s =
      let next : AnchorState = record { last_seq = head.seq; last_date = now } in
      let sent' = sent ++ chain_head publish (every size) now stream head ∷ [] in
      elim (Bool-cases (passes_bucket size (lookup stream state) head.seq)) [
        | inr e ↦ rw e (anchor_heads-Covers heads state sent s)
        | inl e ↦ elim (Result-cases (publish (chain_head publish (every size) now stream head))) [
          | inr (x, p) ↦ rw (e, p) (Covers-refl size (lookup s state))
          | inl (t, p) ↦
              rw (e, p)
                (Covers-trans size _ _ _ (anchored size stream next state s e)
                  (anchor_heads-Covers heads (insert stream next state) sent' s))
        ]
      ]

  -- The numbers anchored of a stream never fall back to a lower multiple of `every`: neither by a flush of older
  -- rows nor by a publication that fails.
  pub on_flush-Covers :
      (events : List SequenceHash) (state : Dict AnchorState) (s : Text)
      → Covers size (lookup s state) (lookup s (on_flush publish (every size) now events state).0)
  unfolding on_flush
  on_flush-Covers events state s = anchor_heads-Covers (last_per_stream events []) state [] s
