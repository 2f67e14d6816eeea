-- ===== src/Json/Canonical.antt =====
-- src/core/canonical_json.ts: `serialize` and `canonicalJson`.
use adonisjs_audit_trail.Common.{
  ℕ, ◌+◌, ◌*◌, ◌-◌, Bool, true, false, ◌&&◌, ◌||◌, List, [], ◌∷◌, if◌then◌else◌, leb, ltb,
}
use adonisjs_audit_trail.Common.Text.{Text, text, text_eq, text_lt}
use adonisjs_audit_trail.Errors.{Result, ok, err, ◌>>=◌, canonical, circular}
use adonisjs_audit_trail.Json.{
  Value, Items, Fields, Json, JsonItems, JsonFields, JsonText, undefined, null, function, symbol,
  bigint, cycle, bool, num, str, date, instance_of, arr, obj, nil, cons, end, field, j_null, j_bool,
  j_num, j_str, j_arr, j_obj, j_nil, j_cons, j_end, j_field, print,
}

-- A property of a plain object that waits for its serialization.
abbrev pub Pending : Type 0
Pending = List (Text × Result Json)

-- `Array.prototype.sort` on distinct property names.
unfoldable pub insert_key : Text → Result Json → Pending → Pending
unfolding text_lt
insert_key k v [] = (k, v) ∷ []
insert_key k v ((j, w) ∷ rest) =
    if text_lt j k then (j, w) ∷ insert_key k v rest else (k, v) ∷ (j, w) ∷ rest

unfoldable pub sort_keys : Pending → Pending
unfolding insert_key
sort_keys [] = []
sort_keys ((k, v) ∷ rest) = insert_key k v (sort_keys rest)

-- Decimal digits, read as a number.
digits : ℕ → Text → ℕ
digits acc [] = acc
digits acc (c ∷ cs) = digits (acc * 10 + (c - 48)) cs

all_digits : Text → Bool
all_digits [] = true
all_digits (c ∷ cs) = leb 48 c && leb c 57 && all_digits cs

-- An array index, the names that an object lists first and in numeric order: the decimal numeral,
-- with no leading zero, of a number below 2^32 - 1.
unfoldable pub is_index : Text → Bool
unfolding digits all_digits
is_index [] = false
is_index (c ∷ []) = leb 48 c && leb c 57
is_index (c ∷ d ∷ cs) =
    leb 49 c && leb c 57 && all_digits (d ∷ cs) && ltb (digits 0 (c ∷ d ∷ cs)) 4294967295

unfoldable pub index_lt : Text → Text → Bool
unfolding digits
index_lt a b = ltb (digits 0 a) (digits 0 b)

-- Adds a property after all others, or as the last array index.
unfoldable pub at_end : Text → Json → JsonFields → JsonFields
at_end k v j_end = j_field k v j_end
at_end k v (j_field j w rest) = j_field j w (at_end k v rest)

unfoldable pub at_index : Text → Json → JsonFields → JsonFields
unfolding is_index index_lt
at_index k v j_end = j_field k v j_end
at_index k v (j_field j w rest) =
    if is_index j && index_lt j k
    then j_field j w (at_index k v rest)
    else j_field k v (j_field j w rest)

-- `sorted[key] = value` on the object under construction: `__proto__` sets the prototype and makes no
-- property; an array index is listed among the array indices, any other name at the end.
unfoldable pub assign : Text → Json → JsonFields → JsonFields
unfolding is_index at_end at_index
assign k v fs =
    if text_eq k (text "__proto__")
    then fs
    else if is_index k
    then at_index k v fs
    else at_end k v fs

unfoldable pub collect : Pending → JsonFields → Result JsonFields
collect [] done = ok done
collect ((k, r) ∷ rest) done = do v ← r; collect rest (assign k v done)

abbrev pub is_undefined : Value → Bool
is_undefined undefined = true
is_undefined _ = false

abbrev pub has_own : Text → Fields → Bool
has_own k end = false
has_own k (field j v fs) = text_eq j k || has_own k fs

-- An object by its sorted properties. One that has a property `constructor` is no plain object for `isPlainObject`.
unfoldable pub serialize_object : Bool → Pending → Result Json
unfolding collect
serialize_object true sorted = err canonical
serialize_object false sorted = do js ← collect sorted j_end; ok (j_obj js)

-- The guard on `seen` fires exactly on a reference to an enclosing object. The properties of an object
-- are serialized in the order of their sorted names, so the first failure in that order is thrown.
unfoldable mutual
  unfolding sort_keys serialize_object

  pub serialize : Value → Result Json
  serialize null = ok j_null
  serialize undefined = err canonical
  serialize function = err canonical
  serialize symbol = err canonical
  serialize bigint = err canonical
  serialize (bool b) = ok (j_bool b)
  serialize (num n) = ok (j_num n)
  serialize (str t) = ok (j_str t)
  serialize (date t) = err canonical
  serialize cycle = err circular
  serialize (arr xs) = do js ← serialize_items xs; ok (j_arr js)
  serialize (instance_of c fs) = err canonical
  serialize (obj fs) =
      serialize_object (has_own (text "constructor") fs) (sort_keys (serialize_fields fs))

  pub serialize_items : Items → Result JsonItems
  serialize_items nil = ok j_nil
  serialize_items (cons x xs) = do y ← serialize x; ys ← serialize_items xs; ok (j_cons y ys)

  pub serialize_fields : Fields → Pending
  serialize_fields end = []
  serialize_fields (field k v fs) =
      let rest = serialize_fields fs in if is_undefined v then rest else (k, serialize v) ∷ rest

unfoldable pub canonical_json : Value → Result JsonText
canonical_json v = do j ← serialize v; ok (print j)
