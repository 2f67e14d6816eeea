-- ===== src/Json/Order.antt =====
-- The canonical text does not depend on the order in which an object's properties were added.
use adonisjs_audit_trail.Common.{
  Bool, true, false, ◌||◌, ◌≡◌, ◌≢◌, refl, ap, ap₂, ◌∙◌, [], ◌∷◌, arith,
}
use adonisjs_audit_trail.Common.Text.{
  Text, text, text_eq, text_lt-trichotomy, text_lt_asymm, text_lt_trans,
}
use adonisjs_audit_trail.Errors.{Result, ok, ◌>>=◌}
use adonisjs_audit_trail.Json.{
  Value, Items, Fields, Json, arr, obj, nil, cons, end, field, j_arr, j_cons, print,
}
use adonisjs_audit_trail.Json.Canonical.{
  has_own, serialize_object, Pending, insert_key, sort_keys, is_undefined, serialize,
  serialize_items, serialize_fields, canonical_json,
}

-- Two values with the same data, whose objects may list their properties in another order.
mutual
  pub data Same : Value → Value → Type 0 where
    same : (v : Value) → Same v v
    arrays : {xs ys : Items} → SameItems xs ys → Same (arr xs) (arr ys)
    objects : {fs gs : Fields} → SameFields fs gs → Same (obj fs) (obj gs)

  pub data SameItems : Items → Items → Type 0 where
    no_items : SameItems nil nil
    items :
        {v w : Value} {xs ys : Items}
        → Same v w
        → SameItems xs ys
        → SameItems (cons v xs) (cons w ys)

  pub data SameFields : Fields → Fields → Type 0 where
    no_fields : SameFields end end
    fields :
        (k : Text) {v w : Value} {fs gs : Fields}
        → Same v w
        → SameFields fs gs
        → SameFields (field k v fs) (field k w gs)
    swap :
        (j k : Text) (v w : Value) (fs : Fields)
        → j ≢ k
        → SameFields (field j v (field k w fs)) (field k w (field j v fs))
    chain : {fs gs hs : Fields} → SameFields fs gs → SameFields gs hs → SameFields fs hs

insert_key_comm :
    (j k : Text) (v w : Result Json) (l : Pending)
    → j ≢ k
    → insert_key j v (insert_key k w l) ≡ insert_key k w (insert_key j v l)
unfolding insert_key
insert_key_comm j k v w [] h = ground (arith, text_lt-trichotomy j k, text_lt_asymm j k)
insert_key_comm j k v w ((i, u) ∷ l) h = ground (
  arith,
  text_lt-trichotomy j k,
  text_lt_asymm j k,
  text_lt_trans j k i,
  text_lt_trans k j i,
  text_lt_trans i j k,
  text_lt_trans i k j,
  insert_key_comm j k v w l,
)

is_undefined-Same : {v w : Value} → Same v w → is_undefined v ≡ is_undefined w
is_undefined-Same (same v) = refl
is_undefined-Same (arrays xs) = refl
is_undefined-Same (objects fs) = refl

or_swap : (a b c : Bool) → (a || (b || c)) ≡ (b || (a || c))
or_swap true true c = refl
or_swap true false c = refl
or_swap false true c = refl
or_swap false false c = refl

has_own-SameFields :
    (name : Text) {fs gs : Fields} → SameFields fs gs → has_own name fs ≡ has_own name gs
has_own-SameFields name no_fields = refl
has_own-SameFields name (fields k h hs) = ap (λ b. text_eq k name || b) (has_own-SameFields name hs)
has_own-SameFields name (swap j k v w fs h) =
    or_swap (text_eq j name) (text_eq k name) (has_own name fs)
has_own-SameFields name (chain h k) = has_own-SameFields name h ∙ has_own-SameFields name k

serialize_fields-swap :
    (j k : Text) (v w : Value) (fs : Fields)
    → j ≢ k
    → sort_keys (serialize_fields (field j v (field k w fs)))
      ≡ sort_keys (serialize_fields (field k w (field j v fs)))
unfolding serialize
serialize_fields-swap j k v w fs h =
    ground
      (arith, insert_key_comm j k (serialize v) (serialize w) (sort_keys (serialize_fields fs)))

sort-field :
    (k : Text) (v w : Value) (fs gs : Fields)
    → is_undefined v ≡ is_undefined w
    → serialize v ≡ serialize w
    → sort_keys (serialize_fields fs) ≡ sort_keys (serialize_fields gs)
    → sort_keys (serialize_fields (field k v fs)) ≡ sort_keys (serialize_fields (field k w gs))
unfolding serialize
sort-field k v w fs gs u e h = ground arith

mutual
  unfolding serialize

  serialize-Same : {v w : Value} → Same v w → serialize v ≡ serialize w
  serialize-Same (same v) = refl
  serialize-Same (arrays h) = ap (λ r. r >>= λ js. ok (j_arr js)) (serialize-SameItems h)
  serialize-Same (objects h) =
      ap₂ serialize_object (has_own-SameFields (text "constructor") h) (serialize-SameFields h)

  serialize-SameItems : {xs ys : Items} → SameItems xs ys → serialize_items xs ≡ serialize_items ys
  serialize-SameItems no_items = refl
  serialize-SameItems (items h hs) =
      ap₂ (λ r rs. r >>= λ y. rs >>= λ ys. ok (j_cons y ys)) (serialize-Same h)
        (serialize-SameItems hs)

  serialize-SameFields :
      {fs gs : Fields}
      → SameFields fs gs
      → sort_keys (serialize_fields fs) ≡ sort_keys (serialize_fields gs)
  serialize-SameFields no_fields = refl
  serialize-SameFields (fields k {v} {w} {fs} {gs} h hs) =
      sort-field k v w fs gs (is_undefined-Same h) (serialize-Same h) (serialize-SameFields hs)
  serialize-SameFields (swap j k v w fs h) = serialize_fields-swap j k v w fs h
  serialize-SameFields (chain h k) = serialize-SameFields h ∙ serialize-SameFields k

-- Two values that differ only in the order in which their objects, at any depth, list their properties
-- have the same canonical text, or fail with the same error.
pub canonical_json-Same : (v w : Value) → Same v w → canonical_json v ≡ canonical_json w
unfolding canonical_json
canonical_json-Same v w h = ap (λ r. r >>= λ j. ok (print j)) (serialize-Same h)
