-- ===== src/Outbox/Payload.antt =====
-- src/core/outbox_drainer.ts: the check of a row's payload. A payload is JSON data or its text.
use adonisjs_audit_trail.Common.{
  Bool, true, false, ◌&&◌, ◌||◌, Option, none, some, List, [], ◌∷◌, if◌then◌else◌,
}
use adonisjs_audit_trail.Common.Text.{Text, text, text_eq}
use adonisjs_audit_trail.Errors.{Result, ok, err, ◌>>=◌, outbox_payload}
use adonisjs_audit_trail.Json.{
  Value, Items, Fields, undefined, null, str, date, instance_of, arr, obj, nil, cons, end, field,
}

abbrev pub is_record : Value → Bool
is_record (obj fs) = true
is_record (instance_of c fs) = true
is_record (date t) = true
is_record _ = false

field_of : Text → Fields → Value
field_of name end = undefined
field_of name (field k v fs) = if text_eq k name then v else field_of name fs

-- `value.name`
unfoldable pub property : Text → Value → Value
unfolding field_of
property name (obj fs) = field_of name fs
property name (instance_of c fs) = field_of name fs
property name _ = undefined

abbrev pub is_string : Value → Bool
is_string (str t) = true
is_string _ = false

abbrev pub is_nullable_string : Value → Bool
is_nullable_string null = true
is_nullable_string v = is_string v

abbrev pub is_nullable_record : Value → Bool
is_nullable_record null = true
is_nullable_record v = is_record v

abbrev pub is_absent : Value → Bool
is_absent undefined = true
is_absent _ = false

abbrev pub is_text : Text → Value → Bool
is_text t (str u) = text_eq u t
is_text t _ = false

abbrev pub all_strings : Items → Bool
all_strings nil = true
all_strings (cons v vs) = is_string v && all_strings vs

abbrev pub is_string_array : Value → Bool
is_string_array (arr xs) = all_strings xs
is_string_array _ = false

unfoldable pub is_audit_event : Value → Bool
unfolding property
is_audit_event v =
    is_record v
    && is_record (property (text "actor") v)
    && is_string (property (text "id") v)
    && is_string (property (text "event") v)
    && is_string (property (text "stream") v)
    && is_nullable_string (property (text "auditableType") v)
    && is_nullable_string (property (text "auditableId") v)
    && is_nullable_record (property (text "oldValues") v)
    && is_nullable_record (property (text "newValues") v)
    && is_nullable_record (property (text "metadata") v)
    && is_string (property (text "type") (property (text "actor") v))
    && is_nullable_string (property (text "id") (property (text "actor") v))
    && (is_absent (property (text "label") (property (text "actor") v))
        || is_nullable_string (property (text "label") (property (text "actor") v)))
    && is_nullable_string (property (text "tenantId") v)
    && is_nullable_string (property (text "requestId") v)
    && is_nullable_string (property (text "correlationId") v)
    && is_nullable_string (property (text "ipAddress") v)
    && is_nullable_string (property (text "userAgent") v)
    && is_nullable_string (property (text "url") v)
    && is_nullable_string (property (text "httpMethod") v)
    && is_string_array (property (text "tags") v)
    && is_text (text "1") (property (text "schemaVersion") v)
    && is_string (property (text "createdAt") v)

abbrev pub items_of : Items → List Value
items_of nil = []
items_of (cons v vs) = v ∷ items_of vs

abbrev pub all_events : List Value → Bool
all_events [] = true
all_events (v ∷ vs) = is_audit_event v && all_events vs

-- The events of a parsed payload: an array, the array `events`, the event `event`, or the value itself.
abbrev pub single : Value → List Value
single v =
    if is_record v && is_audit_event (property (text "event") v)
    then property (text "event") v ∷ []
    else v ∷ []

abbrev pub listed : Value → Value → List Value
listed v (arr xs) = items_of xs
listed v _ = single v

unfoldable pub candidates : Value → List Value
candidates (arr xs) = items_of xs
candidates v = listed v (property (text "events") v)

unfoldable pub check_events : List Value → Result (List Value)
check_events [] = err outbox_payload
check_events (v ∷ vs) = if all_events (v ∷ vs) then ok (v ∷ vs) else err outbox_payload

module _ (parse : Text → Option Value) where
  -- `JSON.parse` throws where `parse` is `none`.
  unfoldable pub parse_json_payload : Value → Result Value
  parse_json_payload (str t) = elim (parse t) [ none ↦ err outbox_payload | some v ↦ ok v ]
  parse_json_payload v = ok v

  unfoldable pub normalize_payload : Value → Result (List Value)
  unfolding parse_json_payload candidates check_events
  normalize_payload payload = do v ← parse_json_payload payload; check_events (candidates v)
