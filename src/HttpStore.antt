-- ===== src/HttpStore.antt =====
-- src/stores/http_store.ts: the store that posts each batch to a collector and keeps its recent rows.
-- `env` is `process.env`, `hmac` is Node's `createHmac('sha256', secret).update(text).digest('hex')`, and `fetch`
-- is the platform's, with `JSON.stringify` of the rows as the body of a request.
pub mod Verify
pub mod Prune
pub mod Kept
pub mod Written
pub mod Ranges
pub mod Survivors
use adonisjs_audit_trail.Common.{
  ℕ, ◌+◌, ◌-◌, Bool, true, false, ◌&&◌, Option, none, some, List, [], ◌∷◌, ◌++◌, if◌then◌else◌, ltb,
  length, drop, last?,
}
use adonisjs_audit_trail.Common.Text.{Text, text}
use adonisjs_audit_trail.Common.Dict.{Dict, lookup, insert}
use adonisjs_audit_trail.Errors.{Result, ok, err, ◌>>=◌, store, type_error}
use adonisjs_audit_trail.Json.{
  Value, Items, JsonText, undefined, nat, num, str, arr, obj, nil, cons, end, field,
}
use adonisjs_audit_trail.Json.Canonical.{canonical_json}
use adonisjs_audit_trail.Types.{AuditEvent, ChainedAuditEvent, Head, nullable, payload}
use adonisjs_audit_trail.HashChain.{chain_batch, or_else}
use adonisjs_audit_trail.LucidStore.{push_event, tag_items}

pub record Signature : Type 0 where
  pub secret_env_var : Text
  pub header : Option Text

pub record HttpStoreOptions : Type 0 where
  pub url : Text
  pub headers : Option (Dict Text)
  pub signature : Option Signature
  pub max_retained_per_stream : Option ℕ
  pub idempotency_header : Option Text

pub record HttpStore : Type 0 where
  pub url : Text
  pub headers : Dict Text
  pub signature : Option Signature
  pub idempotency_header : Text
  pub max_retained_per_stream : ℕ
  pub heads : Dict Head
  pub logs : Dict (List ChainedAuditEvent)

abbrev pub with_defaults : HttpStoreOptions → HttpStore
with_defaults options = record {
  url = options.url;
  headers = or_else options.headers [];
  signature = options.signature;
  idempotency_header = or_else options.idempotency_header (text "X-Idempotency-Key");
  max_retained_per_stream = or_else options.max_retained_per_stream 100000;
  heads = [];
  logs = [];
}

unfoldable pub http_store : HttpStoreOptions → Result HttpStore
http_store options = elim options.url [ [] ↦ err store | c ∷ cs ↦ ok (with_defaults options) ]

-- What a collector answers: a status, `response.ok` among it, or no answer.
pub data Reply : Type 0 where
  responds : Bool → Reply
  fails : Reply

pub record Request : Type 0 where
  pub url : Text
  pub headers : Dict Text
  pub body : List ChainedAuditEvent

-- A label that is absent is an undefined property.
abbrev pub label_value : Option (Option Text) → Value
label_value none = undefined
label_value (some label) = nullable label

unfoldable pub chained_value : ChainedAuditEvent → Value
chained_value r = obj (
    field (text "id") (str r.id) (
      field (text "event") (str r.event) (
        field (text "stream") (str r.stream) (
          field (text "auditableType") (nullable r.auditable_type) (
            field (text "auditableId") (nullable r.auditable_id) (
              field (text "oldValues") (payload r.old_values) (
                field (text "newValues") (payload r.new_values) (
                  field (text "metadata") (payload r.metadata) (
                    field (text "actor")
                      (obj (
                        field (text "type") (str r.actor.type) (
                          field (text "id") (nullable r.actor.id)
                            (field (text "label") (label_value r.actor.label) end))))
                      (field (text "tenantId") (nullable r.tenant_id) (
                        field (text "requestId") (nullable r.request_id) (
                          field (text "correlationId") (nullable r.correlation_id) (
                            field (text "ipAddress") (nullable r.ip_address) (
                              field (text "userAgent") (nullable r.user_agent) (
                                field (text "url") (nullable r.url) (
                                  field (text "httpMethod") (nullable r.http_method) (
                                    field (text "tags") (arr (tag_items r.tags)) (
                                      field (text "schemaVersion") (str r.schema_version) (
                                        field (text "createdAt") (str r.created_at) (
                                          field (text "seq") (num (nat r.seq)) (
                                            field (text "prevHash") (str r.prev_hash) (
                                              field (text "hash") (str r.hash)
                                                end))))))))))))))))))))))

abbrev pub chained_items : List ChainedAuditEvent → Items
chained_items [] = nil
chained_items (r ∷ rs) = cons (chained_value r) (chained_items rs)

-- `Object.assign` of the second to the first.
abbrev pub assign_all : Dict Text → Dict Text → Dict Text
assign_all headers [] = headers
assign_all headers ((k, v) ∷ more) = assign_all (insert k v headers) more

abbrev pub batch_key : List ChainedAuditEvent → Result Text
batch_key [] = err type_error
batch_key (r ∷ rs) = elim (last? (r ∷ rs)) [
  | none ↦ err type_error
  | some z ↦ ok (r.id ++ text ":" ++ z.id)
]

-- `response.ok`, where there is a response.
abbrev pub accept : Reply → Result (Unit {0})
accept fails = err store
accept (responds true) = ok tt
accept (responds false) = err store

module _ (env : Text → Option Text) (hmac : Text → JsonText → Text) (fetch : Request → Reply) where
  -- An empty secret is as good as none.
  abbrev pub sign_with :
      Signature → List ChainedAuditEvent → Dict Text → Option Text → Result (Dict Text)
  sign_with signature chained headers none = err store
  sign_with signature chained headers (some []) = err store
  sign_with signature chained headers (some (c ∷ cs)) = do
    body ← canonical_json (arr (chained_items chained))
    ok (insert (or_else signature.header (text "X-Audit-Signature")) (hmac (c ∷ cs) body) headers)

  abbrev pub sign_headers :
      Option Signature → List ChainedAuditEvent → Dict Text → Result (Dict Text)
  sign_headers none chained headers = ok headers
  sign_headers (some signature) chained headers =
      sign_with signature chained headers (env signature.secret_env_var)

  unfoldable pub post : HttpStore → List ChainedAuditEvent → Result (Unit {0})
  post st chained = do
    key ← batch_key chained
    headers ← sign_headers st.signature chained (
        insert st.idempotency_header key
          (assign_all ((text "content-type", text "application/json") ∷ []) st.headers))
    accept (fetch (record { url = st.url; headers = headers; body = chained }))

abbrev pub group_by_stream : List AuditEvent → Dict (List AuditEvent) → Dict (List AuditEvent)
group_by_stream [] grouped = grouped
group_by_stream (event ∷ batch) grouped = group_by_stream batch (push_event event grouped)

abbrev pub last_head : List ChainedAuditEvent → Result Head
last_head chained = elim (last? chained) [
  | none ↦ err type_error
  | some r ↦ ok (record { seq = r.seq; hash = r.hash })
]

-- `splice(0, length - max)` where there is a bound and the log is longer.
abbrev pub evict : ℕ → List ChainedAuditEvent → List ChainedAuditEvent
evict max log = if ltb 0 max && ltb max (length log) then drop (length log - max) log else log

abbrev pub log_of : Text → Dict (List ChainedAuditEvent) → List ChainedAuditEvent
log_of stream logs = or_else (lookup stream logs) []

unfoldable pub retain :
    ℕ → List ChainedAuditEvent → Dict (List ChainedAuditEvent) → Dict (List ChainedAuditEvent)
retain max [] logs = logs
retain max (event ∷ events) logs =
    retain max events
      (insert event.stream (evict max (log_of event.stream logs ++ event ∷ [])) logs)

unfoldable pub set_heads : Dict Head → Dict Head → Dict Head
set_heads [] heads = heads
set_heads ((stream, head) ∷ more) heads = set_heads more (insert stream head heads)

module _ (sha256 : JsonText → Text) where
  -- The first loop of `write`: the rows and the new heads so far.
  unfoldable pub chain_groups :
      Dict Head
      → Dict (List AuditEvent)
      → List ChainedAuditEvent × Dict Head
      → Result (List ChainedAuditEvent × Dict Head)
  chain_groups heads [] done = ok done
  chain_groups heads ((stream, events) ∷ grouped) (rows, new_heads) = do
    chained ← chain_batch sha256 events (lookup stream heads)
    head ← last_head chained
    chain_groups heads grouped (rows ++ chained, insert stream head new_heads)

  module _ (env : Text → Option Text) (hmac : Text → JsonText → Text)
      (fetch : Request → Reply) where
    -- What `write` does once the rows are chained and posted.
    abbrev pub commit : HttpStore → List ChainedAuditEvent × Dict Head → HttpStore
    commit st (rows, new_heads) = record st {
      heads = set_heads new_heads st.heads;
      logs = retain st.max_retained_per_stream rows st.logs;
    }

    abbrev pub post_chained :
        HttpStore
        → Result (List ChainedAuditEvent × Dict Head)
        → HttpStore × Result (List ChainedAuditEvent)
    post_chained st (err e) = (st, err e)
    post_chained st (ok (rows, new_heads)) = elim (post env hmac fetch st rows) [
      | err e ↦ (st, err e)
      | ok t ↦ (commit st (rows, new_heads), ok rows)
    ]

    -- One call to its end: the heads are those from before the request. A second call while the request is under
    -- way, which would begin from the same heads, is not modelled.
    unfoldable pub write : HttpStore → List AuditEvent → HttpStore × Result (List ChainedAuditEvent)
    unfolding chain_groups
    write st [] = (st, ok [])
    write st (event ∷ batch) =
        post_chained st (chain_groups st.heads (group_by_stream (event ∷ batch) []) ([], []))
