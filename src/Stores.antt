-- ===== src/Stores.antt =====
-- src/stores/store_manager.ts and src/stores/fanout_store.ts: which store an event goes to, and a store that passes
-- each batch on to others. `Store` stands for a store, `with_connection` for its method of that name, where it has
-- it, and `bind_nested` for `bindStores` on a store that is itself a fanout store.
use adonisjs_audit_trail.Common.{
  ◌≡◌, refl, sym, ap, ◌∙◌, Option, none, some, List, [], ◌∷◌, inl, inr, All,
}
use adonisjs_audit_trail.Common.Text.{Text, text}
use adonisjs_audit_trail.Common.Dict.{Dict, lookup}
use adonisjs_audit_trail.Errors.{
  Result, ok, err, ◌>>=◌, store, store_connection, ok-ne-err, Result-cases,
}
use adonisjs_audit_trail.Json.{Value, undefined, obj, str}
use adonisjs_audit_trail.Types.{AuditEvent, ChainedAuditEvent, Payload}
use adonisjs_audit_trail.HashChain.{or_else}
use adonisjs_audit_trail.Outbox.Payload.{property}

-- `event.metadata?.auditStore`
abbrev pub routed_value : Payload → Value
routed_value none = undefined
routed_value (some fs) = property (text "auditStore") (obj fs)

abbrev pub string_or : Value → Text → Text
string_or (str t) other = t
string_or _ other = other

module _ {Store : Type 0} (with_connection : Store → Option (Text → Store)) where
  pub record StoreManager : Type 0 where
    pub stores : Dict Store
    pub default : Text

  abbrev pub connected : Store → Option Text → Result Store
  connected found none = ok found
  connected found (some connection) = elim (with_connection found) [
    | some connect ↦ ok (connect connection)
    | none ↦ err store_connection
  ]

  unfoldable pub use_store : StoreManager → Option Text → Option Text → Result Store
  use_store manager name connection = elim (lookup (or_else name manager.default) manager.stores) [
    | none ↦ err store
    | some found ↦ connected found connection
  ]

  unfoldable pub route : StoreManager → AuditEvent → Result (Text × Store)
  unfolding use_store property
  route manager event =
      let name = string_or (routed_value event.metadata) manager.default in
      do found ← use_store manager (some name) none; ok (name, found)

pub data StoreRef (Store : Type 0) : Type 0 where
  by_name : Text → StoreRef Store
  instance_ : Store → StoreRef Store

pub data MirrorFailure : Type 0 where
  log throw : MirrorFailure

pub record FanoutStore (Store : Type 0) : Type 0 where
  pub primary_ref : StoreRef Store
  pub mirror_refs : List (StoreRef Store)
  pub mirror_failure : MirrorFailure
  pub primary : Option Store
  pub mirrors : List Store

module _ {Store : Type 0} where
  abbrev pub instances : List (StoreRef Store) → List Store
  instances [] = []
  instances (by_name name ∷ refs) = instances refs
  instances (instance_ found ∷ refs) = found ∷ instances refs

  abbrev pub instance_of_ref : StoreRef Store → Option Store
  instance_of_ref (by_name name) = none
  instance_of_ref (instance_ found) = some found

  abbrev pub fanout_store :
      StoreRef Store → Option (List (StoreRef Store)) → Option MirrorFailure → FanoutStore Store
  fanout_store primary mirrors failure = record {
    primary_ref = primary;
    mirror_refs = or_else mirrors [];
    mirror_failure = or_else failure log;
    primary = instance_of_ref primary;
    mirrors = instances (or_else mirrors []);
  }

  module _ (bind_nested : Store → Result Store) (stores : Dict Store) where
    abbrev pub resolve_store : StoreRef Store → Result Store
    resolve_store (instance_ found) = ok found
    resolve_store (by_name name) = elim (lookup name stores) [
      | none ↦ err store
      | some found ↦ bind_nested found
    ]

    unfoldable pub resolve_all : List (StoreRef Store) → Result (List Store)
    unfolding lookup
    resolve_all [] = ok []
    resolve_all (ref ∷ refs) = do
      found ← resolve_store ref
      rest ← resolve_all refs
      ok (found ∷ rest)

    abbrev pub resolve_primary : Option Store → StoreRef Store → Result Store
    resolve_primary (some found) ref = ok found
    resolve_primary none ref = resolve_store ref

    abbrev pub bound_mirrors : List Store → List Store → List Store
    bound_mirrors [] mirrors = mirrors
    bound_mirrors (found ∷ rest) mirrors = found ∷ rest

    unfoldable pub bind_stores : FanoutStore Store → Result (FanoutStore Store)
    unfolding resolve_all
    bind_stores fanout = do
      primary ← resolve_primary fanout.primary fanout.primary_ref
      resolved ← resolve_all fanout.mirror_refs
      ok (record fanout { primary = some primary; mirrors = bound_mirrors resolved fanout.mirrors })

-- A store with its state, and what its `write` does to it. The mirrors are written at the same time, each on a
-- state of its own; `Promise.all` fails when one of them does, and the others go on.
module _ {Store : Type 0}
    (write_store : List AuditEvent → Store → Store × Result (List ChainedAuditEvent)) where
  abbrev pub write_mirrors : List AuditEvent → List Store → List Store
  write_mirrors batch [] = []
  write_mirrors batch (mirror ∷ mirrors) =
      (write_store batch mirror).0 ∷ write_mirrors batch mirrors

  -- `await Promise.all(...)`
  unfoldable pub all_written : List AuditEvent → List Store → Result (Unit {0})
  all_written batch [] = ok tt
  all_written batch (mirror ∷ mirrors) = elim (write_store batch mirror).1 [
    | err e ↦ err store
    | ok rows ↦ all_written batch mirrors
  ]

  abbrev pub write_primary :
      List AuditEvent
      → FanoutStore Store
      → Store
      → FanoutStore Store × Result (List ChainedAuditEvent)
  write_primary batch fanout primary =
      let (next, outcome) = write_store batch primary in
      (record fanout { primary = some next }, outcome)

  abbrev pub with_mirrors : List AuditEvent → FanoutStore Store → FanoutStore Store
  with_mirrors batch fanout = record fanout { mirrors = write_mirrors batch fanout.mirrors }

  abbrev pub write_throwing :
      List AuditEvent
      → FanoutStore Store
      → Store
      → Result (Unit {0})
      → FanoutStore Store × Result (List ChainedAuditEvent)
  write_throwing batch fanout primary (err e) = (fanout, err e)
  write_throwing batch fanout primary (ok t) = write_primary batch fanout primary

  -- After the primary store: its failure leaves the mirrors alone, theirs is only logged.
  abbrev pub after_primary :
      List AuditEvent
      → FanoutStore Store × Result (List ChainedAuditEvent)
      → FanoutStore Store × Result (List ChainedAuditEvent)
  after_primary batch (fanout, err e) = (fanout, err e)
  after_primary batch (fanout, ok rows) = (with_mirrors batch fanout, ok rows)

  abbrev pub write_bound :
      MirrorFailure
      → List AuditEvent
      → FanoutStore Store
      → Store
      → FanoutStore Store × Result (List ChainedAuditEvent)
  write_bound throw batch fanout primary =
      write_throwing batch (with_mirrors batch fanout) primary (all_written batch fanout.mirrors)
  write_bound log batch fanout primary = after_primary batch (write_primary batch fanout primary)

  abbrev pub write_to :
      List AuditEvent
      → FanoutStore Store
      → Option Store
      → FanoutStore Store × Result (List ChainedAuditEvent)
  write_to batch fanout none = (fanout, err store)
  write_to batch fanout (some primary) = write_bound fanout.mirror_failure batch fanout primary

  unfoldable pub write :
      List AuditEvent → FanoutStore Store → FanoutStore Store × Result (List ChainedAuditEvent)
  unfolding all_written
  write batch fanout = write_to batch fanout fanout.primary

  -- A mirror whose write of the batch returned.
  abbrev pub Took : List AuditEvent → Store → Type 0
  Took batch mirror = (rows : List ChainedAuditEvent) × ((write_store batch mirror).1 ≡ ok rows)

  all_written-Took :
      (batch : List AuditEvent) (mirrors : List Store)
      → all_written batch mirrors ≡ ok tt
      → All (Took batch) mirrors
  unfolding all_written
  all_written-Took batch [] h = tt
  all_written-Took batch (mirror ∷ mirrors) h = elim (Result-cases (write_store batch mirror).1) [
    | inl (rows, e) ↦ ((rows, e), all_written-Took batch mirrors (rw (e, all_written) at h))
    | inr (x, e) ↦ absurd (ok-ne-err (rw (e, all_written) at h))
  ]

  unmirrored :
      (batch : List AuditEvent) (fanout : FanoutStore Store) (primary : Store)
      (done : Result (Unit {0})) (rows : List ChainedAuditEvent)
      → (write_throwing batch fanout primary done).1 ≡ ok rows
      → (done ≡ ok tt) × ((write_store batch primary).1 ≡ ok rows)
  unmirrored batch fanout primary (err e) rows h = absurd (ok-ne-err h)
  unmirrored batch fanout primary (ok tt) rows h = (refl, h)

  -- Where failures of mirrors throw, a write that returns rows is one that every mirror took, and the rows are the
  -- primary store's.
  pub write-Took :
      (batch : List AuditEvent) (fanout : FanoutStore Store) (primary : Store)
      (rows : List ChainedAuditEvent)
      → fanout.mirror_failure ≡ throw
      → fanout.primary ≡ some primary
      → (write batch fanout).1 ≡ ok rows
      → All (Took batch) fanout.mirrors × ((write_store batch primary).1 ≡ ok rows)
  unfolding write
  write-Took batch fanout primary rows mode bound h =
      let throws_mode : write batch fanout ≡ write_bound throw batch fanout primary =
        ap (write_to batch fanout) bound ∙ ap (λ m. write_bound m batch fanout primary) mode in
      let (all_ok, own) =
        unmirrored batch (with_mirrors batch fanout) primary (all_written batch fanout.mirrors) rows
          (sym (ap (λ w. w.1) throws_mode) ∙ h) in
      (all_written-Took batch fanout.mirrors all_ok, own)
