-- ===== src/Tests/Models.antt =====
-- An update of src/mixins/auditable.ts.
use adonisjs_audit_trail.Common.{◌≡◌, ◌⊎◌, true, refl, false, none, Option, [], ◌∷◌}
use adonisjs_audit_trail.Common.Text.{text}
use adonisjs_audit_trail.Json.{Value, str, end, field}
use adonisjs_audit_trail.Outbox.Payload.{property}
use adonisjs_audit_trail.LucidStore.Query.{one_of}
use adonisjs_audit_trail.Auditable.{
  AuditableModelConfig, LucidRow, build_update_snapshot, build_update_snapshot-Included,
  serialize_model, serialize_value, pick_included,
}

abbrev plain : Value → Option Value
plain value = none

abbrev config : AuditableModelConfig
config = record { events = none; exclude = text "password" ∷ []; full_snapshot = false }

abbrev row : LucidRow
row = record {
  columns =
      record { attribute = text "password"; hidden = false }
      ∷ record { attribute = text "name"; hidden = false }
      ∷ [];
  attributes = field (text "password") (str (text "n")) (field (text "name") (str (text "B")) end);
  original = field (text "password") (str (text "o")) (field (text "name") (str (text "A")) end);
  dirty = text "password" ∷ text "name" ∷ [];
}

build_update_snapshot-Included_example :
    (one_of config.exclude (text "name") ≡ false)
    × ((config.full_snapshot ≡ true) ⊎ (one_of row.dirty (text "name") ≡ true))
unfolding build_update_snapshot serialize_model pick_included serialize_value property
build_update_snapshot-Included_example =
    build_update_snapshot-Included plain config row (text "name") refl
