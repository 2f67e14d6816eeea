-- ===== src/Notifier.antt =====
-- src/core/successful_delivery_notifier.ts: the observers of a delivery. `publish`, `mode` and `now` are those of
-- the anchors; what the emitter's `emit` and `onFlush` throw is swallowed, so the first is a list of what was
-- emitted and of the second only the state is kept.
use adonisjs_audit_trail.Common.{
  ℕ, ◌+◌, ◌≤◌, ◌≡◌, sym, ap, ◌∙◌, Bool, false, Option, none, some, List, [], ◌∷◌, ◌++◌, map, inl,
  inr, if◌then◌else◌, Bool-cases, arith,
}
use adonisjs_audit_trail.Common.Text.{Text, text_eq, text_eq_iff}
use adonisjs_audit_trail.Common.Dict.{Dict}
use adonisjs_audit_trail.Errors.{Result}
use adonisjs_audit_trail.Types.{ChainedAuditEvent}
use adonisjs_audit_trail.LucidStore.Query.{one_of}
use adonisjs_audit_trail.LucidStore.Verify.{columns}
use adonisjs_audit_trail.Anchors.{Every, AnchorState, ChainHead, on_flush}

-- `delivered_event_ids` is the set, `emitted` the events of each `audit:flushed`.
pub record Notifier : Type 0 where
  pub delivered_event_ids : List Text
  pub emitted : List (List ChainedAuditEvent)
  pub anchors : Dict AnchorState

-- The filter over the events, with the set as it grows.
unfoldable pub take_new : List ChainedAuditEvent → List Text → List ChainedAuditEvent × List Text
take_new [] ids = ([], ids)
take_new (event ∷ events) ids =
    let known = take_new events ids in
    let (more, after) = take_new events (event.id ∷ ids) in
    if one_of ids event.id then known else (event ∷ more, after)

module _ (publish : ChainHead → Result (Unit {0})) (mode : Option Every) (now : Text) where
  -- `this.#anchor?.onFlush(delivered)`
  abbrev pub flush_anchors : List ChainedAuditEvent → Dict AnchorState → Dict AnchorState
  flush_anchors delivered anchors = elim mode [
    | none ↦ anchors
    | some period ↦ (on_flush publish period now (map columns delivered) anchors).0
  ]

  abbrev pub deliver : Notifier → List ChainedAuditEvent × List Text → Notifier
  deliver st ([], ids) = record st { delivered_event_ids = ids }
  deliver st (event ∷ events, ids) = record {
    delivered_event_ids = ids;
    emitted = st.emitted ++ (event ∷ events) ∷ [];
    anchors = flush_anchors (event ∷ events) st.anchors;
  }

  unfoldable pub notify : Notifier → List ChainedAuditEvent → Notifier
  unfolding take_new on_flush
  notify st events = deliver st (take_new events st.delivered_event_ids)

  -- A run of deliveries, one after the other.
  unfoldable pub notify_all : Notifier → List (List ChainedAuditEvent) → Notifier
  unfolding notify
  notify_all st [] = st
  notify_all st (events ∷ later) = notify_all (notify st events) later

abbrev bit : Bool → ℕ
bit b = if b then 1 else 0

-- How many of the events have the identifier.
abbrev pub count_id : Text → List ChainedAuditEvent → ℕ
count_id id [] = 0
count_id id (r ∷ rs) = let rest = count_id id rs in if text_eq r.id id then rest + 1 else rest

abbrev pub count_emitted : Text → List (List ChainedAuditEvent) → ℕ
count_emitted id [] = 0
count_emitted id (events ∷ more) = count_id id events + count_emitted id more

count_emitted-snoc :
    (id : Text) (xs : List (List ChainedAuditEvent)) (ys : List ChainedAuditEvent)
    → count_emitted id (xs ++ ys ∷ []) ≡ count_emitted id xs + count_id id ys
count_emitted-snoc id [] ys = omega arith
count_emitted-snoc id (x ∷ xs) ys = omega (arith, count_emitted-snoc id xs ys)

take_new-count :
    (id : Text) (events : List ChainedAuditEvent) (ids : List Text)
    → count_id id (take_new events ids).0 + bit (one_of ids id)
      ≤ bit (one_of (take_new events ids).1 id)
unfolding take_new
take_new-count id [] ids = ground arith
take_new-count id (e ∷ events) ids = elim (Bool-cases (one_of ids e.id)) [
  | inl known ↦ rw known (take_new-count id events ids)
  | inr new ↦ rw new (
      let ih = take_new-count id events (e.id ∷ ids) in
      elim (Bool-cases (text_eq e.id id)) [
        | inl same ↦
            let absent : one_of ids id ≡ false =
              ap (one_of ids) (sym ((text_eq_iff e.id id).0 same)) ∙ new in
            rw (same, absent) (ground (arith, rw same at ih))
        | inr other ↦ rw other (ground (arith, rw other at ih))
      ])
]

module _ (publish : ChainHead → Result (Unit {0})) (mode : Option Every) (now : Text) where
  Counted : Text → Notifier → Type 0
  Counted id st = count_emitted id st.emitted ≤ bit (one_of st.delivered_event_ids id)

  deliver-Counted :
      (id : Text) (st : Notifier) (new : List ChainedAuditEvent × List Text)
      → count_id id new.0 + bit (one_of st.delivered_event_ids id) ≤ bit (one_of new.1 id)
      → Counted id st
      → Counted id (deliver publish mode now st new)
  unfolding Counted
  deliver-Counted id st ([], ids) le v = omega (arith, le, v)
  deliver-Counted id st (e ∷ events, ids) le v =
      omega (arith, le, v, count_emitted-snoc id st.emitted (e ∷ events))

  notify_all-Counted :
      (id : Text) (st : Notifier) (deliveries : List (List ChainedAuditEvent))
      → Counted id st
      → Counted id (notify_all publish mode now st deliveries)
  unfolding notify_all notify
  notify_all-Counted id st [] v = v
  notify_all-Counted id st (events ∷ later) v =
      notify_all-Counted id (notify publish mode now st events) later (
        deliver-Counted id st (take_new events st.delivered_event_ids)
          (take_new-count id events st.delivered_event_ids) v)

  -- Over any run of deliveries to a new notifier, with repeated and overlapping ones, each event is emitted at most
  -- once, whatever the observers do.
  pub notify_all-once :
      (id : Text) (deliveries : List (List ChainedAuditEvent))
      → count_emitted id
          (notify_all publish mode now
            (record { delivered_event_ids = []; emitted = []; anchors = [] })
            deliveries).emitted
        ≤ 1
  unfolding Counted
  notify_all-once id deliveries = ground (
    arith,
    notify_all-Counted id (record { delivered_event_ids = []; emitted = []; anchors = [] })
        deliveries (omega arith),
  )
