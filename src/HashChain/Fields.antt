-- ===== src/HashChain/Fields.antt =====
-- What `pickHashedFields` and `canonicalJson` make of an entry: the fields in canonical order.
use adonisjs_audit_trail.Common.{
  ap₂, false, ℕ, ◌≡◌, refl, ◌∙◌, false, Option, none, some, [], ◌∷◌, arith,
}
use adonisjs_audit_trail.Common.Text.{Text, text}
use adonisjs_audit_trail.Errors.{Result, ok, err, ◌>>=◌}
use adonisjs_audit_trail.Json.{
  Value, Fields, Json, nat, num, str, obj, end, field, j_null, j_num, j_str, j_obj, j_end, j_field,
}
use adonisjs_audit_trail.Json.Canonical.{
  has_own, serialize_object, Pending, is_undefined, serialize, serialize_fields, sort_keys, collect,
  assign,
}
use adonisjs_audit_trail.Types.{AuditEvent, Payload, nullable, payload}
use adonisjs_audit_trail.HashChain.{pick_hashed_fields}

unfoldable pub j_nullable : Option Text → Json
j_nullable none = j_null
j_nullable (some t) = j_str t

abbrev pub actor_json : AuditEvent → Json
actor_json e =
    j_obj (
      j_field (text "id") (j_nullable e.actor.id)
        (j_field (text "type") (j_str e.actor.type) j_end))

-- The canonical object, its three payloads serialized.
unfoldable pub hashed_json : AuditEvent → ℕ → Text → Json → Json → Json → Json
hashed_json e seq prev_hash old new meta = j_obj (
    j_field (text "actor") (actor_json e) (
      j_field (text "auditableId") (j_nullable e.auditable_id) (
        j_field (text "auditableType") (j_nullable e.auditable_type) (
          j_field (text "createdAt") (j_str e.created_at) (
            j_field (text "event") (j_str e.event) (
              j_field (text "id") (j_str e.id) (
                j_field (text "metadata") meta (
                  j_field (text "newValues") new (
                    j_field (text "oldValues") old (
                      j_field (text "prevHash") (j_str prev_hash) (
                        j_field (text "schemaVersion") (j_str e.schema_version) (
                          j_field (text "seq") (j_num (nat seq)) (
                            j_field (text "stream") (j_str e.stream) (
                              j_field (text "tenantId") (j_nullable e.tenant_id) j_end))))))))))))))

-- A property whose value is not `undefined` is serialized in its place.
step :
    {k : Text} (v : Value) (fs : Fields) {r : Result Json} {ps : Pending}
    → is_undefined v ≡ false
    → serialize v ≡ r
    → serialize_fields fs ≡ ps
    → serialize_fields (field k v fs) ≡ (k, r) ∷ ps
unfolding serialize
step v fs h e es = rw h (ground (arith, e, es))

serialize-obj :
    (fs : Fields) {ps : Pending}
    → has_own (text "constructor") fs ≡ false
    → serialize_fields fs ≡ ps
    → serialize (obj fs) ≡ (collect (sort_keys ps) j_end >>= λ js. ok (j_obj js))
unfolding serialize
serialize-obj _ h e = ap₂ (λ b ps. serialize_object b (sort_keys ps)) h e

defined-nullable : (t : Option Text) → is_undefined (nullable t) ≡ false
unfolding nullable
defined-nullable none = refl
defined-nullable (some t) = refl

defined-payload : (p : Payload) → is_undefined (payload p) ≡ false
unfolding payload
defined-payload none = refl
defined-payload (some t) = refl

serialize-nullable : (t : Option Text) → serialize (nullable t) ≡ ok (j_nullable t)
unfolding nullable serialize j_nullable
serialize-nullable none = refl
serialize-nullable (some t) = refl

nullable_step :
    {k : Text} (fs : Fields) {ps : Pending} (t : Option Text)
    → serialize_fields fs ≡ ps
    → serialize_fields (field k (nullable t) fs) ≡ (k, ok (j_nullable t)) ∷ ps
nullable_step fs t = step (nullable t) fs (defined-nullable t) (serialize-nullable t)

payload_step :
    {k : Text} (fs : Fields) {ps : Pending} (p : Payload)
    → serialize_fields fs ≡ ps
    → serialize_fields (field k (payload p) fs) ≡ (k, serialize (payload p)) ∷ ps
payload_step fs p = step (payload p) fs (defined-payload p) refl

no_more : serialize_fields end ≡ []
unfolding serialize
no_more = refl

str_step :
    {k t : Text} (fs : Fields) {ps : Pending}
    → serialize_fields fs ≡ ps
    → serialize_fields (field k (str t) fs) ≡ (k, ok (j_str t)) ∷ ps
unfolding serialize
str_step {t = t} fs e = step (str t) fs refl refl e

serialize_actor :
    (e : AuditEvent)
    → serialize
        (obj (field (text "type") (str e.actor.type) (field (text "id") (nullable e.actor.id) end)))
      ≡ ok (actor_json e)
unfolding sort_keys collect assign
serialize_actor e = serialize-obj _ refl (str_step _ (nullable_step _ e.actor.id no_more))

-- The fourteen properties, serialized, in the order of `pickHashedFields`.
abbrev pending : AuditEvent → ℕ → Text → Result Json → Result Json → Result Json → Pending
pending e seq prev_hash old new meta =
    (text "id", ok (j_str e.id))
    ∷ (text "seq", ok (j_num (nat seq)))
    ∷ (text "stream", ok (j_str e.stream))
    ∷ (text "event", ok (j_str e.event))
    ∷ (text "auditableType", ok (j_nullable e.auditable_type))
    ∷ (text "auditableId", ok (j_nullable e.auditable_id))
    ∷ (text "oldValues", old)
    ∷ (text "newValues", new)
    ∷ (text "metadata", meta)
    ∷ (text "actor", ok (actor_json e))
    ∷ (text "tenantId", ok (j_nullable e.tenant_id))
    ∷ (text "schemaVersion", ok (j_str e.schema_version))
    ∷ (text "createdAt", ok (j_str e.created_at))
    ∷ (text "prevHash", ok (j_str prev_hash))
    ∷ []

num_step :
    {k : Text} {n : ℕ} (fs : Fields) {ps : Pending}
    → serialize_fields fs ≡ ps
    → serialize_fields (field k (num (nat n)) fs) ≡ (k, ok (j_num (nat n))) ∷ ps
unfolding serialize
num_step {n = n} fs e = step (num (nat n)) fs refl refl e

actor_step :
    {k : Text} (fs : Fields) {ps : Pending} (e : AuditEvent)
    → serialize_fields fs ≡ ps
    → serialize_fields (
        field k
          (obj
            (field (text "type") (str e.actor.type) (field (text "id") (nullable e.actor.id) end)))
          fs)
      ≡ (k, ok (actor_json e)) ∷ ps
actor_step fs e h = step _ fs refl (serialize_actor e) h

serialize-pending :
    (e : AuditEvent) (seq : ℕ) (prev_hash : Text)
    → serialize (pick_hashed_fields e seq prev_hash) ≡ (
        collect
          (sort_keys (
            pending e seq prev_hash
              (serialize (payload e.old_values))
              (serialize (payload e.new_values))
              (serialize (payload e.metadata))))
          j_end
        >>= λ js. ok (j_obj js))
unfolding pick_hashed_fields
serialize-pending e seq prev_hash = serialize-obj _ refl (
    str_step _ (
      num_step _ (
        str_step _ (
          str_step _ (
            nullable_step _ e.auditable_type (
              nullable_step _ e.auditable_id (
                payload_step _ e.old_values (
                  payload_step _ e.new_values (
                    payload_step _ e.metadata (
                      actor_step _ e (
                        nullable_step _ e.tenant_id
                          (str_step _ (str_step _ (str_step _ no_more))))))))))))))

-- Sorted, the payloads come in the order metadata, newValues, oldValues.
canonical_order :
    (e : AuditEvent) (seq : ℕ) (prev_hash : Text) (old new meta : Result Json)
    → (collect (sort_keys (pending e seq prev_hash old new meta)) j_end >>= λ js. ok (j_obj js))
      ≡ (do m ← meta; n ← new; o ← old; ok (hashed_json e seq prev_hash o n m))
unfolding sort_keys collect assign hashed_json
canonical_order e seq prev_hash old new (err x) = refl
canonical_order e seq prev_hash old (err x) (ok m) = refl
canonical_order e seq prev_hash (err x) (ok n) (ok m) = refl
canonical_order e seq prev_hash (ok o) (ok n) (ok m) = refl

-- The canonical object of an entry, and which payload's failure is thrown first.
pub serialize-pick_hashed_fields :
    (e : AuditEvent) (seq : ℕ) (prev_hash : Text)
    → serialize (pick_hashed_fields e seq prev_hash) ≡ (do
      meta ← serialize (payload e.metadata)
      new ← serialize (payload e.new_values)
      old ← serialize (payload e.old_values)
      ok (hashed_json e seq prev_hash old new meta))
serialize-pick_hashed_fields e seq prev_hash =
    serialize-pending e seq prev_hash ∙ canonical_order e seq prev_hash _ _ _
