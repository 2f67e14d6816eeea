-- ===== src/Auditable.antt =====
-- src/mixins/auditable.ts: what is captured of a model on its hooks. `to_iso` is `value.toISO()` where the value has
-- such a method, and `local_redactor` the redaction that the model's configuration asks for.
use adonisjs_audit_trail.Common.{
  ◌⊎◌, ◌≡◌, refl, sym, ap, subst, ◌∙◌, Bool, true, false, ◌&&◌, ◌||◌, not, Option, none, some, List,
  [], ◌∷◌, inl, inr, Bool-cases, if◌then◌else◌,
}
use adonisjs_audit_trail.Common.Text.{Text, text, text_eq, text_eq_iff}
use adonisjs_audit_trail.Json.{
  Value, Items, Fields, null, date, instance_of, str, arr, obj, nil, cons, end, field,
}
use adonisjs_audit_trail.Redactor.{put}
use adonisjs_audit_trail.LucidStore.Query.{one_of}
use adonisjs_audit_trail.Outbox.Payload.{property}
use adonisjs_audit_trail.SubjectCrypto.{has_field, is_nullish}

pub data ModelEventName : Type 0 where
  created updated deleted restored : ModelEventName

pub record AuditableModelConfig : Type 0 where
  pub events : Option (List ModelEventName)
  pub exclude : List Text
  pub full_snapshot : Bool

-- A column definition: its attribute, and whether `serializeAs` is null.
pub record Column : Type 0 where
  pub attribute : Text
  pub hidden : Bool

pub record LucidRow : Type 0 where
  pub columns : List Column
  pub attributes : Fields
  pub original : Fields
  pub dirty : List Text

pub record UpdateSnapshot : Type 0 where
  pub old_values : Fields
  pub new_values : Fields

pub record Captured : Type 0 where
  pub kind : ModelEventName
  pub old_values : Option Fields
  pub new_values : Option Fields

abbrev pub same_kind : ModelEventName → ModelEventName → Bool
same_kind created created = true
same_kind updated updated = true
same_kind deleted deleted = true
same_kind restored restored = true
same_kind _ _ = false

abbrev pub one_of_kinds : List ModelEventName → ModelEventName → Bool
one_of_kinds [] kind = false
one_of_kinds (k ∷ ks) kind = same_kind k kind || one_of_kinds ks kind

abbrev pub is_enabled : AuditableModelConfig → ModelEventName → Bool
is_enabled config kind = elim config.events [
  | none ↦ one_of_kinds (created ∷ updated ∷ deleted ∷ []) kind
  | some kinds ↦ one_of_kinds kinds kind
]

module _ (to_iso : Value → Option Value) where
  abbrev pub iso_or : Value → Value → Value
  iso_or value other = elim (to_iso value) [ none ↦ other | some iso ↦ iso ]

  unfoldable mutual
    pub serialize_value : Value → Value
    serialize_value (date t) = str t
    serialize_value (instance_of c fs) = iso_or (instance_of c fs) (instance_of c fs)
    serialize_value (arr xs) = iso_or (arr xs) (arr (serialize_items xs))
    serialize_value (obj fs) = iso_or (obj fs) (obj (serialize_fields fs))
    serialize_value value = value

    pub serialize_items : Items → Items
    serialize_items nil = nil
    serialize_items (cons x xs) = cons (serialize_value x) (serialize_items xs)

    pub serialize_fields : Fields → Fields
    serialize_fields end = end
    serialize_fields (field k v fs) = put k (serialize_value v) (serialize_fields fs)

  -- `!onlyKeys || onlyKeys.has(attribute)`
  abbrev pub is_wanted : Option (List Text) → Text → Bool
  is_wanted none attribute = true
  is_wanted (some keys) attribute = one_of keys attribute

  unfoldable pub serialize_model : List Column → List Text → Option (List Text) → Fields → Fields
  unfolding serialize_value property
  serialize_model [] excluded only source = end
  serialize_model (c ∷ cs) excluded only source =
      let rest = serialize_model cs excluded only source in
      if c.hidden || one_of excluded c.attribute || not (is_wanted only c.attribute)
      then rest
      else put c.attribute (serialize_value (property c.attribute (obj source))) rest

  -- The loop over the keys of the new values, for the values of either side.
  unfoldable pub pick_included : List Text → Fields → Fields → Fields
  unfolding property
  pick_included excluded end source = end
  pick_included excluded (field key value keys) source =
      let rest = pick_included excluded keys source in
      if one_of excluded key then rest else put key (property key (obj source)) rest

  abbrev pub remove_excluded : List Text → UpdateSnapshot → UpdateSnapshot
  remove_excluded [] snapshot = snapshot
  remove_excluded (x ∷ xs) snapshot = record {
    old_values = pick_included (x ∷ xs) snapshot.new_values snapshot.old_values;
    new_values = pick_included (x ∷ xs) snapshot.new_values snapshot.new_values;
  }

  abbrev pub only_keys : AuditableModelConfig → LucidRow → Option (List Text)
  only_keys config row = if config.full_snapshot then none else some row.dirty

  unfoldable pub build_update_snapshot : AuditableModelConfig → LucidRow → UpdateSnapshot
  unfolding serialize_model pick_included
  build_update_snapshot config row = remove_excluded config.exclude (record {
    old_values = serialize_model row.columns config.exclude (only_keys config row) row.original;
    new_values = serialize_model row.columns config.exclude (only_keys config row) row.attributes;
  })

  abbrev pub is_null : Value → Bool
  is_null null = true
  is_null _ = false

  abbrev pub is_restored : UpdateSnapshot → Bool
  is_restored snapshot =
      has_field (text "deletedAt") snapshot.old_values
      && not (is_nullish (property (text "deletedAt") (obj snapshot.old_values)))
      && is_null (property (text "deletedAt") (obj snapshot.new_values))

  abbrev pub updated_event : ModelEventName → UpdateSnapshot → Option Captured
  updated_event kind snapshot = some (record {
    kind = kind;
    old_values = some snapshot.old_values;
    new_values = some snapshot.new_values;
  })

  abbrev pub has_no_fields : Fields → Bool
  has_no_fields end = true
  has_no_fields (field k v fs) = false

  -- What is captured after an update, if anything.
  unfoldable pub capture_update : AuditableModelConfig → Option UpdateSnapshot → Option Captured
  unfolding property
  capture_update config none = none
  capture_update config (some snapshot) =
      if has_no_fields snapshot.new_values
      then none
      else if is_restored snapshot && is_enabled config restored
      then updated_event restored snapshot
      else if is_enabled config updated
      then updated_event updated snapshot
      else none

  abbrev pub values_for : Bool → Fields → Option Fields
  values_for wanted snapshot = if wanted then some snapshot else none

  -- After a creation or a deletion.
  unfoldable pub capture_model_event :
      AuditableModelConfig → ModelEventName → LucidRow → Option Captured
  unfolding serialize_model
  capture_model_event config kind row =
      let snapshot = serialize_model row.columns config.exclude none row.attributes in
      if is_enabled config kind
      then some (record {
        kind = kind;
        old_values = values_for (same_kind kind deleted) snapshot;
        new_values = values_for (same_kind kind created) snapshot;
      })
      else none

  -- A key that may stand in the values of a model.
  abbrev Included : List Text → Option (List Text) → Text → Type 0
  Included excluded only key = (one_of excluded key ≡ false) × (is_wanted only key ≡ true)

  put-has_field :
      (name key : Text) (value : Value) (fs : Fields)
      → has_field name (put key value fs) ≡ true
      → (text_eq key name || has_field name fs) ≡ true
  put-has_field name key value fs h = elim (Bool-cases (text_eq key (text "__proto__"))) [
    | inr e ↦ rw e at h
    | inl e ↦ or_right (text_eq key name) (has_field name fs) (rw e at h)
  ]
    where
      or_right : (a b : Bool) → b ≡ true → (a || b) ≡ true
      or_right true b h = refl
      or_right false b h = h

  serialize_model-Included :
      (columns : List Column) (excluded : List Text) (only : Option (List Text)) (source : Fields)
      (key : Text)
      → has_field key (serialize_model columns excluded only source) ≡ true
      → Included excluded only key
  unfolding serialize_model
  serialize_model-Included [] excluded only source key h = cc
  serialize_model-Included (c ∷ cs) excluded only source key h =
      elim (Bool-cases
        (c.hidden || one_of excluded c.attribute || not (is_wanted only c.attribute))) [
          | inl e ↦ serialize_model-Included cs excluded only source key (rw e at h)
          | inr e ↦ elim (Bool-cases (text_eq c.attribute key)) [
            | inl same ↦
                subst (Included excluded only) ((text_eq_iff c.attribute key).0 same)
                  (parts c.hidden (one_of excluded c.attribute) (is_wanted only c.attribute) e)
            | inr other ↦
                serialize_model-Included cs excluded only source key
                  (rw other at (put-has_field key c.attribute _ _ (rw e at h)))
          ]
        ]
    where
      parts : (a b d : Bool) → (a || b || not d) ≡ false → (b ≡ false) × (d ≡ true)
      parts false false true h = (refl, refl)
      parts false false false h = cc
      parts false true d h = cc
      parts true b d h = cc

  pick_included-keys :
      (excluded : List Text) (keys source : Fields) (key : Text)
      → has_field key (pick_included excluded keys source) ≡ true
      → has_field key keys ≡ true
  unfolding pick_included
  pick_included-keys excluded end source key h = cc
  pick_included-keys excluded (field k v keys) source key h = elim (Bool-cases (text_eq k key)) [
    | inl same ↦ rw same refl
    | inr other ↦ elim (Bool-cases (one_of excluded k)) [
      | inl e ↦ rw other (pick_included-keys excluded keys source key (rw e at h))
      | inr e ↦ rw other (
          pick_included-keys excluded keys source key
            (rw other at (put-has_field key k _ _ (rw e at h))))
    ]
  ]

  remove_excluded-Included :
      (list excluded : List Text) (only : Option (List Text)) (snapshot : UpdateSnapshot)
      (key : Text)
      → (has_field key snapshot.old_values ≡ true → Included excluded only key)
      → (has_field key snapshot.new_values ≡ true → Included excluded only key)
      → (has_field key (remove_excluded list snapshot).old_values
          || has_field key (remove_excluded list snapshot).new_values)
        ≡ true
      → Included excluded only key
  remove_excluded-Included [] excluded only snapshot key old new h =
      elim (Bool-cases (has_field key snapshot.old_values)) [
        | inl e ↦ old e
        | inr e ↦ new (ap (λ b. b || has_field key snapshot.new_values) (sym e) ∙ h)
      ]
  remove_excluded-Included (x ∷ xs) excluded only snapshot key old new h =
      elim (Bool-cases
        (has_field key (pick_included (x ∷ xs) snapshot.new_values snapshot.old_values))) [
          | inl e ↦ new (pick_included-keys (x ∷ xs) snapshot.new_values snapshot.old_values key e)
          | inr e ↦ new (
              pick_included-keys (x ∷ xs) snapshot.new_values snapshot.new_values key (
                ap
                  (λ b.
                    b
                    || has_field key
                        (pick_included (x ∷ xs) snapshot.new_values snapshot.new_values))
                  (sym e)
                ∙ h))
        ]

  -- An attribute that an update's snapshot has, among the old or the new values, is not among those that the
  -- model's configuration excludes, and the configuration asks for full snapshots or the attribute is one of
  -- those that the update changed.
  pub build_update_snapshot-Included :
      (config : AuditableModelConfig) (row : LucidRow) (key : Text)
      → (has_field key (build_update_snapshot config row).old_values
          || has_field key (build_update_snapshot config row).new_values)
        ≡ true
      → (one_of config.exclude key ≡ false)
        × ((config.full_snapshot ≡ true) ⊎ (one_of row.dirty key ≡ true))
  unfolding build_update_snapshot
  build_update_snapshot-Included config row key h =
      let only = only_keys config row in
      let (allowed, wanted) =
        remove_excluded-Included config.exclude config.exclude only
          (record {
            old_values = serialize_model row.columns config.exclude only row.original;
            new_values = serialize_model row.columns config.exclude only row.attributes;
          })
          key (serialize_model-Included row.columns config.exclude only row.original key)
          (serialize_model-Included row.columns config.exclude only row.attributes key) h in
      (allowed, changed config.full_snapshot wanted)
    where
      changed :
          (full : Bool)
          → is_wanted (if full then none else some row.dirty) key ≡ true
          → (full ≡ true) ⊎ (one_of row.dirty key ≡ true)
      changed true w = inl refl
      changed false w = inr w
