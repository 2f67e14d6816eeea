-- ===== src/LucidStore/Query.antt =====
-- src/stores/lucid_store.ts: `query` and `resolveSequenceHash`. `created_le` is the order of the database on
-- the date column.
use adonisjs_audit_trail.Common.{
  ℕ, Bool, true, false, ◌&&◌, ◌||◌, Option, none, some, List, [], ◌∷◌, if◌then◌else◌, leb, ltb,
  ◌==◌, take,
}
use adonisjs_audit_trail.Common.Text.{Text, text_eq}
use adonisjs_audit_trail.Types.{ChainedAuditEvent}
use adonisjs_audit_trail.LucidStore.{Audits}
use adonisjs_audit_trail.LucidStore.Rows.{order_by_seq}

pub record AuditQueryFilters : Type 0 where
  pub stream : Option Text
  pub event : Option (List Text)
  pub auditable_type : Option Text
  pub auditable_id : Option Text
  pub actor_type : Option Text
  pub actor_id : Option Text
  pub tenant_id : Option Text
  pub from_seq : Option ℕ
  pub to_seq : Option ℕ
  pub from_created_at : Option Text
  pub to_created_at : Option Text
  pub limit : Option ℕ
  pub cursor : Option ℕ

-- A filter that is absent or the empty text admits every row.
abbrev pub text_filter : (Text → Bool) → Option Text → Bool
text_filter test none = true
text_filter test (some []) = true
text_filter test (some (c ∷ cs)) = test (c ∷ cs)

-- `column = value`, which does not hold of NULL.
abbrev pub column_is : Option Text → Text → Bool
column_is none t = false
column_is (some u) t = text_eq u t

abbrev pub one_of : List Text → Text → Bool
one_of [] t = false
one_of (u ∷ us) t = text_eq u t || one_of us t

abbrev pub event_filter : Option (List Text) → Text → Bool
event_filter none event = true
event_filter (some events) event = one_of events event

abbrev pub number_filter : (ℕ → Bool) → Option ℕ → Bool
number_filter test none = true
number_filter test (some n) = test n

abbrev pub limit_of : Option ℕ → ℕ
limit_of none = 100
limit_of (some n) = n

module _ (created_le : Text → Text → Bool) where
  unfoldable pub selects : AuditQueryFilters → ChainedAuditEvent → Bool
  selects f r =
      text_filter (text_eq r.stream) f.stream
      && event_filter f.event r.event
      && text_filter (column_is r.auditable_type) f.auditable_type
      && text_filter (column_is r.auditable_id) f.auditable_id
      && text_filter (text_eq r.actor.type) f.actor_type
      && text_filter (column_is r.actor.id) f.actor_id
      && text_filter (column_is r.tenant_id) f.tenant_id
      && number_filter (λ n. leb n r.seq) f.from_seq
      && number_filter (λ n. leb r.seq n) f.to_seq
      && text_filter (λ t. created_le t r.created_at) f.from_created_at
      && text_filter (λ t. created_le r.created_at t) f.to_created_at
      && number_filter (λ n. ltb n r.seq) f.cursor

  abbrev pub filter_rows : AuditQueryFilters → Audits → Audits
  filter_rows f [] = []
  filter_rows f (r ∷ rs) = let rest = filter_rows f rs in if selects f r then r ∷ rest else rest

  unfoldable pub query : AuditQueryFilters → Audits → Audits
  unfolding selects
  query f t = take (limit_of f.limit) (order_by_seq (filter_rows f t))

-- The columns of a row that `resolveSequenceHash` reads, in any of its three tables.
pub record SequenceHash : Type 0 where
  pub stream : Text
  pub seq : ℕ
  pub hash : Text

unfoldable pub find_hash : Text → ℕ → List SequenceHash → Option Text
find_hash stream seq [] = none
find_hash stream seq (r ∷ rs) =
    if text_eq r.stream stream && r.seq == seq then some r.hash else find_hash stream seq rs

-- The tables in the order in which they are asked.
unfoldable pub resolve_sequence_hash : Text → ℕ → List (List SequenceHash) → Option Text
unfolding find_hash
resolve_sequence_hash stream seq [] = none
resolve_sequence_hash stream seq (table ∷ tables) = elim (find_hash stream seq table) [
  | some hash ↦ some hash
  | none ↦ resolve_sequence_hash stream seq tables
]
