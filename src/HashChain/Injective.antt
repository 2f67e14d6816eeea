-- ===== src/HashChain/Injective.antt =====
-- The text that `hashEntry` digests determines every hashed field.
use adonisjs_audit_trail.Common.{
  ℕ, zero, suc, List, [], ◌≡◌, refl, sym, ap, ◌∙◌, Option, none, some,
}
use adonisjs_audit_trail.Common.Text.{Text}
use adonisjs_audit_trail.Errors.{Result, ok, err, ◌>>=◌}
use adonisjs_audit_trail.Json.{
  Json, JsonFields, JsonText, nat, j_null, j_num, j_str, j_obj, j_end, j_field, print,
}
use adonisjs_audit_trail.Json.Canonical.{serialize, canonical_json}
use adonisjs_audit_trail.Json.Print.{finite, print-injective}
use adonisjs_audit_trail.Json.Seen.{Step, seen_at}
use adonisjs_audit_trail.Json.Reading.{seen_at-finite}
use adonisjs_audit_trail.Types.{AuditEvent, Payload, payload}
use adonisjs_audit_trail.HashChain.{pick_hashed_fields}
use adonisjs_audit_trail.HashChain.Fields.{j_nullable, hashed_json, serialize-pick_hashed_fields}

-- The canonical text of the hashed fields, or the error that `canonicalJson` throws.
abbrev pub hashed_text : AuditEvent → ℕ → Text → Result JsonText
hashed_text e seq prev_hash = canonical_json (pick_hashed_fields e seq prev_hash)

-- Two payloads in which a reader finds the same at every path of property names and array indices. An absent payload
-- is `null`, a property that is `undefined` is absent, a number that JSON has not is `null`, and a property named
-- `__proto__` is not followed.
abbrev pub SamePayload : Payload → Payload → Type 0
SamePayload p q = (path : List Step) → seen_at path (payload p) ≡ seen_at path (payload q)

-- Two entries with the same hashed fields.
pub record SameHashed (d e : AuditEvent) : Type 0 where
  pub id : d.id ≡ e.id
  pub stream : d.stream ≡ e.stream
  pub event : d.event ≡ e.event
  pub auditable_type : d.auditable_type ≡ e.auditable_type
  pub auditable_id : d.auditable_id ≡ e.auditable_id
  pub actor_type : d.actor.type ≡ e.actor.type
  pub actor_id : d.actor.id ≡ e.actor.id
  pub tenant_id : d.tenant_id ≡ e.tenant_id
  pub schema_version : d.schema_version ≡ e.schema_version
  pub created_at : d.created_at ≡ e.created_at
  pub old_values : SamePayload d.old_values e.old_values
  pub new_values : SamePayload d.new_values e.new_values
  pub metadata : SamePayload d.metadata e.metadata

split_binds :
    (meta new old : Result Json) (f : Json → Json → Json → Json) (t : JsonText)
    → ((do m ← meta; n ← new; o ← old; ok (f o n m)) >>= λ j. ok (print j)) ≡ ok t
    → (m n o : Json) × (meta ≡ ok m) × (new ≡ ok n) × (old ≡ ok o) × (print (f o n m) ≡ t)
split_binds (err x) new old f t e = cc
split_binds (ok m) (err x) old f t e = cc
split_binds (ok m) (ok n) (err x) f t e = cc
split_binds (ok m) (ok n) (ok o) f t e = (m, n, o, refl, refl, refl, cc)

-- Where the text exists the payloads are serialized.
split :
    (e : AuditEvent) (seq : ℕ) (prev_hash : Text) (t : JsonText)
    → hashed_text e seq prev_hash ≡ ok t
    → (m n o : Json) × (serialize (payload e.metadata) ≡ ok m)
      × (serialize (payload e.new_values) ≡ ok n)
      × (serialize (payload e.old_values) ≡ ok o)
      × (print (hashed_json e seq prev_hash o n m) ≡ t)
unfolding canonical_json
split e seq prev_hash t h =
    split_binds _ _ _ (hashed_json e seq prev_hash) t
      (rw (serialize-pick_hashed_fields e seq prev_hash) at h)

finite-j_nullable : (t : Option Text) → finite (j_nullable t) ≡ j_nullable t
unfolding finite j_nullable
finite-j_nullable none = refl
finite-j_nullable (some t) = refl

j_nullable-injective : (a b : Option Text) → j_nullable a ≡ j_nullable b → a ≡ b
unfolding j_nullable
j_nullable-injective none none e = refl
j_nullable-injective none (some b) e = cc
j_nullable-injective (some a) none e = cc
j_nullable-injective (some a) (some b) e = cc

nullable_field : (a b : Option Text) → finite (j_nullable a) ≡ finite (j_nullable b) → a ≡ b
nullable_field a b e =
    j_nullable-injective a b (sym (finite-j_nullable a) ∙ e ∙ finite-j_nullable b)

-- The value of a property by its place, and what a string and a number hold.
abbrev value_of : ℕ → JsonFields → Json
value_of n j_end = j_null
value_of zero (j_field k v fs) = v
value_of (suc n) (j_field k v fs) = value_of n fs

abbrev value_at : ℕ → Json → Json
value_at n (j_obj fs) = value_of n fs
value_at n _ = j_null

abbrev text_at : ℕ → Json → Text
text_at n j = elim (value_at n j) [ j_str t ↦ t | _ ↦ [] ]

abbrev number_at : ℕ → Json → ℕ
number_at n j = elim (value_at n j) [ j_num m ↦ elim m [ nat k ↦ k | _ ↦ 0 ] | _ ↦ 0 ]

-- The canonical objects of two entries agree only field by field.
module _ (d e : AuditEvent) (m n : ℕ) (p q : Text) (o o' w w' u u' : Json)
    (same : finite (hashed_json d m p o w u) ≡ finite (hashed_json e n q o' w' u')) where
  scalars_agree :
      (d.id ≡ e.id)
      × (d.stream ≡ e.stream)
      × (d.event ≡ e.event)
      × (d.actor.type ≡ e.actor.type)
      × (d.schema_version ≡ e.schema_version)
      × (d.created_at ≡ e.created_at)
      × (m ≡ n)
      × (p ≡ q)
  unfolding hashed_json finite
  scalars_agree = (
    ap (text_at 5) same,
    ap (text_at 12) same,
    ap (text_at 4) same,
    ap (λ j. text_at 1 (value_at 0 j)) same,
    ap (text_at 10) same,
    ap (text_at 3) same,
    ap (number_at 11) same,
    ap (text_at 9) same,
  )

  nullables_agree :
      (d.auditable_type ≡ e.auditable_type)
      × (d.auditable_id ≡ e.auditable_id)
      × (d.actor.id ≡ e.actor.id)
      × (d.tenant_id ≡ e.tenant_id)
  unfolding hashed_json finite
  nullables_agree = (
    nullable_field _ _ (ap (value_at 2) same),
    nullable_field _ _ (ap (value_at 1) same),
    nullable_field _ _ (ap (λ j. value_at 0 (value_at 0 j)) same),
    nullable_field _ _ (ap (value_at 13) same),
  )

  payloads_agree : (finite o ≡ finite o') × (finite w ≡ finite w') × (finite u ≡ finite u')
  unfolding hashed_json finite
  payloads_agree = (ap (value_at 8) same, ap (value_at 7) same, ap (value_at 6) same)

-- Equal texts come from entries with the same number, the same link and the same hashed fields: equal scalar
-- fields, and payloads in which a reader finds the same at every path that does not go through a property named
-- `__proto__`, where a property that is `undefined` counts as absent and a number that is not finite as `null`.
pub hashed_text-injective :
    (d e : AuditEvent) (m n : ℕ) (p q : Text) (t : JsonText)
    → hashed_text d m p ≡ ok t
    → hashed_text e n q ≡ ok t
    → SameHashed d e × (m ≡ n) × (p ≡ q)
hashed_text-injective d e m n p q t h k =
    let (u, w, o, hu, hw, ho, ht) = split d m p t h in
    let (u', w', o', ku, kw, ko, kt) = split e n q t k in
    let same : finite (hashed_json d m p o w u) ≡ finite (hashed_json e n q o' w' u') =
      print-injective _ _ (ht ∙ sym kt) in
    let s = scalars_agree d e m n p q o o' w w' u u' same in
    let v = nullables_agree d e m n p q o o' w w' u u' same in
    let a = payloads_agree d e m n p q o o' w w' u u' same in
    (
      record {
        id = s.0;
        stream = s.1;
        event = s.2;
        auditable_type = v.0;
        auditable_id = v.1;
        actor_type = s.3;
        actor_id = v.2;
        tenant_id = v.3;
        schema_version = s.4;
        created_at = s.5;
        old_values = λ path. seen_at-finite path _ _ o o' ho ko a.0;
        new_values = λ path. seen_at-finite path _ _ w w' hw kw a.1;
        metadata = λ path. seen_at-finite path _ _ u u' hu ku a.2;
      },
      s.6,
      s.7,
    )
