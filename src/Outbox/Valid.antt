-- ===== src/Outbox/Valid.antt =====
-- What `normalizePayload` lets through, property by property.
use adonisjs_audit_trail.Common.{
  ◌≡◌, ◌≢◌, ◌⊎◌, refl, sym, ◌∙◌, ap, Bool, true, false, ◌&&◌, ◌||◌, false≢true, Option, none, some,
  List, [], ◌∷◌, inl, inr, All, Bool-cases,
}
use adonisjs_audit_trail.Common.Text.{Text, text, text_eq_iff}
use adonisjs_audit_trail.Errors.{err, outbox_payload, ok, >>=-eq-ok, ok-injective, ok-ne-err}
use adonisjs_audit_trail.Json.{
  Value, Items, Fields, undefined, null, function, symbol, bigint, cycle, bool, num, str, date,
  instance_of, arr, obj, nil, cons,
}
use adonisjs_audit_trail.Outbox.Payload.{
  normalize_payload, check_events, all_events, candidates, parse_json_payload, is_record, is_string,
  is_nullable_string, is_nullable_record, is_absent, is_text, is_string_array, all_strings,
  is_audit_event, property, items_of, listed, single,
}

abbrev pub IsText : Value → Type 0
IsText v = (t : Text) × (v ≡ str t)

-- An object that is no array.
abbrev pub IsObject : Value → Type 0
IsObject v =
    ((fs : Fields) × (v ≡ obj fs))
    ⊎ ((c : Text) × (fs : Fields) × (v ≡ instance_of c fs))
    ⊎ ((t : Text) × (v ≡ date t))

abbrev pub OrNull : (Value → Type 0) → Value → Type 0
OrNull P v = (v ≡ null) ⊎ P v

abbrev pub TextItems : Items → Type 0
TextItems nil = Unit
TextItems (cons v vs) = IsText v × TextItems vs

abbrev pub IsTextArray : Value → Type 0
IsTextArray v = (xs : Items) × (v ≡ arr xs) × TextItems xs

is_string-IsText : (v : Value) → is_string v ≡ true → IsText v
is_string-IsText (str t) h = (t, refl)
is_string-IsText _ h = cc

is_record-IsObject : (v : Value) → is_record v ≡ true → IsObject v
is_record-IsObject (obj fs) h = inl (fs, refl)
is_record-IsObject (instance_of c fs) h = inr (inl (c, fs, refl))
is_record-IsObject (date t) h = inr (inr (t, refl))
is_record-IsObject _ h = cc

is_nullable_string-IsText : (v : Value) → is_nullable_string v ≡ true → OrNull IsText v
is_nullable_string-IsText null h = inl refl
is_nullable_string-IsText (str t) h = inr (t, refl)
is_nullable_string-IsText _ h = cc

is_nullable_record-IsObject : (v : Value) → is_nullable_record v ≡ true → OrNull IsObject v
is_nullable_record-IsObject null h = inl refl
is_nullable_record-IsObject (obj fs) h = inr (inl (fs, refl))
is_nullable_record-IsObject (instance_of c fs) h = inr (inr (inl (c, fs, refl)))
is_nullable_record-IsObject (date t) h = inr (inr (inr (t, refl)))
is_nullable_record-IsObject _ h = cc

is_text-str : (t : Text) (v : Value) → is_text t v ≡ true → v ≡ str t
is_text-str t (str u) h = ap str ((text_eq_iff u t).0 h)
is_text-str t _ h = cc

is_label-IsText :
    (v : Value) → (is_absent v || is_nullable_string v) ≡ true → (v ≡ undefined) ⊎ OrNull IsText v
is_label-IsText undefined h = inl refl
is_label-IsText null h = inr (inl refl)
is_label-IsText (str t) h = inr (inr (t, refl))
is_label-IsText _ h = cc

and_parts : (a : Bool) {b : Bool} → (a && b) ≡ true → (a ≡ true) × (b ≡ true)
and_parts true h = (refl, h)
and_parts false h = absurd (false≢true h)

all_strings-TextItems : (xs : Items) → all_strings xs ≡ true → TextItems xs
all_strings-TextItems nil h = tt
all_strings-TextItems (cons v vs) h =
    let (first, rest) = and_parts (is_string v) h in
    (is_string-IsText v first, all_strings-TextItems vs rest)

is_string_array-IsTextArray : (v : Value) → is_string_array v ≡ true → IsTextArray v
is_string_array-IsTextArray (arr xs) h = (xs, refl, all_strings-TextItems xs h)
is_string_array-IsTextArray _ h = cc

-- A value with the properties of an `AuditEvent`, each of the type that src/types.ts declares.
pub record IsEvent (v : Value) : Type 0 where
  itself : IsObject v
  actor : IsObject (property (text "actor") v)
  id : IsText (property (text "id") v)
  event : IsText (property (text "event") v)
  stream : IsText (property (text "stream") v)
  auditable_type : OrNull IsText (property (text "auditableType") v)
  auditable_id : OrNull IsText (property (text "auditableId") v)
  old_values : OrNull IsObject (property (text "oldValues") v)
  new_values : OrNull IsObject (property (text "newValues") v)
  metadata : OrNull IsObject (property (text "metadata") v)
  actor_type : IsText (property (text "type") (property (text "actor") v))
  actor_id : OrNull IsText (property (text "id") (property (text "actor") v))
  actor_label :
      (property (text "label") (property (text "actor") v) ≡ undefined)
      ⊎ OrNull IsText (property (text "label") (property (text "actor") v))
  tenant_id : OrNull IsText (property (text "tenantId") v)
  request_id : OrNull IsText (property (text "requestId") v)
  correlation_id : OrNull IsText (property (text "correlationId") v)
  ip_address : OrNull IsText (property (text "ipAddress") v)
  user_agent : OrNull IsText (property (text "userAgent") v)
  url : OrNull IsText (property (text "url") v)
  http_method : OrNull IsText (property (text "httpMethod") v)
  tags : IsTextArray (property (text "tags") v)
  schema_version : property (text "schemaVersion") v ≡ str (text "1")
  created_at : IsText (property (text "createdAt") v)

-- How a parsed payload lists its events: it is an array of them, it has an array `events` or an event `event`,
-- or it is one itself.
pub data Lists (v : Value) : List Value → Type 0 where
  as_array : (xs : Items) → v ≡ arr xs → Lists v (items_of xs)
  as_events : (xs : Items) → property (text "events") v ≡ arr xs → Lists v (items_of xs)
  as_event : (e : Value) → property (text "event") v ≡ e → IsEvent e → Lists v (e ∷ [])
  as_itself : Lists v (v ∷ [])

is_audit_event-IsEvent : (v : Value) → is_audit_event v ≡ true → IsEvent v
unfolding is_audit_event
is_audit_event-IsEvent v h =
    let (a21, b22) = and_parts _ h in
    let (a20, b21) = and_parts _ a21 in
    let (a19, b20) = and_parts _ a20 in
    let (a18, b19) = and_parts _ a19 in
    let (a17, b18) = and_parts _ a18 in
    let (a16, b17) = and_parts _ a17 in
    let (a15, b16) = and_parts _ a16 in
    let (a14, b15) = and_parts _ a15 in
    let (a13, b14) = and_parts _ a14 in
    let (a12, b13) = and_parts _ a13 in
    let (a11, b12) = and_parts _ a12 in
    let (a10, b11) = and_parts _ a11 in
    let (a9, b10) = and_parts _ a10 in
    let (a8, b9) = and_parts _ a9 in
    let (a7, b8) = and_parts _ a8 in
    let (a6, b7) = and_parts _ a7 in
    let (a5, b6) = and_parts _ a6 in
    let (a4, b5) = and_parts _ a5 in
    let (a3, b4) = and_parts _ a4 in
    let (a2, b3) = and_parts _ a3 in
    let (a1, b2) = and_parts _ a2 in
    let (a0, b1) = and_parts _ a1 in
    record {
      itself = is_record-IsObject _ a0;
      actor = is_record-IsObject _ b1;
      id = is_string-IsText _ b2;
      event = is_string-IsText _ b3;
      stream = is_string-IsText _ b4;
      auditable_type = is_nullable_string-IsText _ b5;
      auditable_id = is_nullable_string-IsText _ b6;
      old_values = is_nullable_record-IsObject _ b7;
      new_values = is_nullable_record-IsObject _ b8;
      metadata = is_nullable_record-IsObject _ b9;
      actor_type = is_string-IsText _ b10;
      actor_id = is_nullable_string-IsText _ b11;
      actor_label = is_label-IsText _ b12;
      tenant_id = is_nullable_string-IsText _ b13;
      request_id = is_nullable_string-IsText _ b14;
      correlation_id = is_nullable_string-IsText _ b15;
      ip_address = is_nullable_string-IsText _ b16;
      user_agent = is_nullable_string-IsText _ b17;
      url = is_nullable_string-IsText _ b18;
      http_method = is_nullable_string-IsText _ b19;
      tags = is_string_array-IsTextArray _ b20;
      schema_version = is_text-str (text "1") _ b21;
      created_at = is_string-IsText _ b22;
    }

all_events-IsEvent : (vs : List Value) → all_events vs ≡ true → All IsEvent vs
all_events-IsEvent [] h = tt
all_events-IsEvent (v ∷ vs) h =
    let (first, rest) = and_parts (is_audit_event v) h in
    (is_audit_event-IsEvent v first, all_events-IsEvent vs rest)

single-Lists : (v : Value) → Lists v (single v)
single-Lists v = elim (Bool-cases (is_record v && is_audit_event (property (text "event") v))) [
  | inr e ↦ rw e as_itself
  | inl e ↦ rw e (
      as_event (property (text "event") v) refl
        (is_audit_event-IsEvent _ (and_parts (is_record v) e).1))
]

listed-Lists : (v w : Value) → property (text "events") v ≡ w → Lists v (listed v w)
listed-Lists v (arr xs) e = as_events xs e
listed-Lists v undefined e = single-Lists v
listed-Lists v null e = single-Lists v
listed-Lists v function e = single-Lists v
listed-Lists v symbol e = single-Lists v
listed-Lists v bigint e = single-Lists v
listed-Lists v cycle e = single-Lists v
listed-Lists v (bool b) e = single-Lists v
listed-Lists v (num n) e = single-Lists v
listed-Lists v (str t) e = single-Lists v
listed-Lists v (date t) e = single-Lists v
listed-Lists v (instance_of c fs) e = single-Lists v
listed-Lists v (obj fs) e = single-Lists v

candidates-Lists : (v : Value) → Lists v (candidates v)
unfolding candidates
candidates-Lists (arr xs) = as_array xs refl
candidates-Lists v = listed-Lists v (property (text "events") v) refl

-- `JSON.parse` of a text payload; other payloads are data already.
abbrev pub Parsed : (Text → Option Value) → Value → Value → Type 0
Parsed parse payload v =
    ((t : Text) × (payload ≡ str t) × (parse t ≡ some v)) ⊎ ((payload ≡ v) × (¬ IsText payload))

parse_json_payload-Parsed :
    (parse : Text → Option Value) (payload v : Value)
    → parse_json_payload parse payload ≡ ok v
    → Parsed parse payload v
unfolding parse_json_payload
parse_json_payload-Parsed parse (str t) v h = by_parse (parse t) refl h
  where
    by_parse :
        (o : Option Value)
        → parse t ≡ o
        → (elim o [ none ↦ err outbox_payload | some w ↦ ok w ]) ≡ ok v
        → Parsed parse (str t) v
    by_parse none e k = absurd (ok-ne-err k)
    by_parse (some w) e k = inl (t, refl, e ∙ ap some (ok-injective k))
parse_json_payload-Parsed parse payload v h = inr (ok-injective h, λ p. no_text p.1)
  where
    no_text : {t : Text} → payload ≡ str t → ⊥
    no_text e = cc

check_events-IsEvent :
    (vs ws : List Value) → check_events vs ≡ ok ws → (vs ≡ ws) × (ws ≢ []) × All IsEvent ws
unfolding check_events
check_events-IsEvent [] ws h = absurd (ok-ne-err h)
check_events-IsEvent (v ∷ vs) ws h = elim (Bool-cases (all_events (v ∷ vs))) [
  | inr e ↦ absurd (ok-ne-err (rw (e, check_events) at h))
  | inl e ↦
      let same : v ∷ vs ≡ ws = ok-injective (rw (e, check_events) at h) in
      rw (sym same) (refl, nonempty, all_events-IsEvent (v ∷ vs) e)
]
  where
    nonempty : v ∷ vs ≢ []
    nonempty e = cc

-- A payload that passes is, or is the text of, a value that lists at least one event: as an array, as its array
-- `events`, as its property `event`, or as itself. Each of these has the properties of an `AuditEvent`, with the
-- types that these have: text, text or null, an object, an object or null, and an array of texts for the tags.
pub normalize_payload-valid :
    (parse : Text → Option Value) (payload : Value) (ws : List Value)
    → normalize_payload parse payload ≡ ok ws
    → (v : Value) × Parsed parse payload v × Lists v ws × (ws ≢ []) × All IsEvent ws
unfolding normalize_payload
normalize_payload-valid parse payload ws h =
    let (v, e, d) =
      >>=-eq-ok (parse_json_payload parse payload) (λ v. check_events (candidates v)) h in
    let (same, some_, valid) = check_events-IsEvent (candidates v) ws d in
    (
      v,
      parse_json_payload-Parsed parse payload v e,
      rw (sym same) (candidates-Lists v),
      some_,
      valid,
    )
