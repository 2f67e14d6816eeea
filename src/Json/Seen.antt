-- ===== src/Json/Seen.antt =====
-- What a reader finds at each place of a value, and of its canonical data.
use adonisjs_audit_trail.Common.{
  ℕ, zero, suc, ◌≡◌, refl, ap, ◌∙◌, Bool, true, false, ◌&&◌, Option, none, some, List, [], ◌∷◌, inl,
  inr, Bool-cases, if◌then◌else◌,
}
use adonisjs_audit_trail.Common.Text.{Text, text, text_eq}
use adonisjs_audit_trail.Json.{
  Number, nat, other, nonfinite, Value, Items, Fields, undefined, null, bool, num, str, arr, obj,
  nil, cons, end, field, Json, JsonItems, JsonFields, j_null, j_bool, j_num, j_str, j_arr, j_obj,
  j_nil, j_cons, j_end, j_field,
}
use adonisjs_audit_trail.Json.Canonical.{is_index}
use adonisjs_audit_trail.Json.Print.{finite, finite_items, finite_fields}

-- A step from a value to one of its parts.
pub data Step : Type 0 where
  name : Text → Step
  index : ℕ → Step

-- What is at a place.
pub data Seen : Type 0 where
  absent a_null an_array an_object : Seen
  a_bool : Bool → Seen
  a_number : Number → Seen
  a_text : Text → Seen

abbrev pub is_given : Value → Bool
is_given undefined = false
is_given _ = true

-- A property that is `undefined` is as one that is not there.
abbrev pub property_of : Text → Fields → Option Value
property_of k end = none
property_of k (field j v fs) =
    let rest = property_of k fs in if text_eq j k && is_given v then some v else rest

abbrev pub item_of : ℕ → Items → Option Value
item_of n nil = none
item_of zero (cons v vs) = some v
item_of (suc n) (cons v vs) = item_of n vs

-- JSON has `null` for a number that is not finite.
abbrev pub number_seen : Number → Seen
number_seen (nonfinite t) = a_null
number_seen (nat n) = a_number (nat n)
number_seen (other t) = a_number (other t)

abbrev pub shape : Value → Seen
shape null = a_null
shape (bool b) = a_bool b
shape (num n) = number_seen n
shape (str t) = a_text t
shape (arr xs) = an_array
shape (obj fs) = an_object
shape _ = absent

-- What is at the end of a path. A property named `__proto__` is not followed.
unfoldable pub seen_at : List Step → Value → Seen
seen_at [] v = shape v
seen_at (name k ∷ path) (obj fs) =
    if text_eq k (text "__proto__")
    then absent
    else (elim (property_of k fs) [ none ↦ absent | some v ↦ seen_at path v ])
seen_at (index n ∷ path) (arr xs) = elim (item_of n xs) [ none ↦ absent | some v ↦ seen_at path v ]
seen_at _ _ = absent

abbrev pub json_shape : Json → Seen
json_shape j_null = a_null
json_shape (j_bool b) = a_bool b
json_shape (j_num n) = number_seen n
json_shape (j_str t) = a_text t
json_shape (j_arr xs) = an_array
json_shape (j_obj fs) = an_object

abbrev pub or_some : Option Json → Option Json → Option Json
or_some (some v) o = some v
or_some none o = o

abbrev pub first : Text → JsonFields → Option Json
first k j_end = none
first k (j_field j v fs) = let rest = first k fs in if text_eq j k then some v else rest

abbrev pub last : Text → JsonFields → Option Json
last k j_end = none
last k (j_field j v fs) = or_some (last k fs) (if text_eq j k then some v else none)

-- The property that was assigned first: array indices are put before their equals, other names after them.
unfoldable pub look : Text → JsonFields → Option Json
look k fs = if is_index k then last k fs else first k fs

abbrev pub json_item : ℕ → JsonItems → Option Json
json_item n j_nil = none
json_item zero (j_cons v vs) = some v
json_item (suc n) (j_cons v vs) = json_item n vs

unfoldable pub json_at : List Step → Json → Seen
unfolding look
json_at [] j = json_shape j
json_at (name k ∷ path) (j_obj fs) =
    if text_eq k (text "__proto__")
    then absent
    else (elim (look k fs) [ none ↦ absent | some v ↦ json_at path v ])
json_at (index n ∷ path) (j_arr xs) = elim (json_item n xs) [
  | none ↦ absent
  | some v ↦ json_at path v
]
json_at _ _ = absent

abbrev pub finite_option : Option Json → Option Json
finite_option none = none
finite_option (some v) = some (finite v)

first-finite :
    (k : Text) (fs : JsonFields) → first k (finite_fields fs) ≡ finite_option (first k fs)
unfolding finite
first-finite k j_end = refl
first-finite k (j_field j v fs) = elim (Bool-cases (text_eq j k)) [
  | inl e ↦ rw e refl
  | inr e ↦ rw e (first-finite k fs)
]

or_some-finite :
    (a b : Option Json) → or_some (finite_option a) (finite_option b) ≡ finite_option (or_some a b)
or_some-finite none b = refl
or_some-finite (some a) b = refl

last-finite : (k : Text) (fs : JsonFields) → last k (finite_fields fs) ≡ finite_option (last k fs)
unfolding finite
last-finite k j_end = refl
last-finite k (j_field j v fs) = elim (Bool-cases (text_eq j k)) [
  | inl e ↦ rw e (
      ap (λ o. or_some o (some (finite v))) (last-finite k fs)
      ∙ or_some-finite (last k fs) (some v))
  | inr e ↦ rw e (ap (λ o. or_some o none) (last-finite k fs) ∙ or_some-finite (last k fs) none)
]

pub look-finite :
    (k : Text) (fs : JsonFields) → look k (finite_fields fs) ≡ finite_option (look k fs)
unfolding look
look-finite k fs = elim (Bool-cases (is_index k)) [
  | inl e ↦ rw e (last-finite k fs)
  | inr e ↦ rw e (first-finite k fs)
]

pub json_item-finite :
    (n : ℕ) (xs : JsonItems) → json_item n (finite_items xs) ≡ finite_option (json_item n xs)
unfolding finite
json_item-finite n j_nil = refl
json_item-finite zero (j_cons x xs) = refl
json_item-finite (suc n) (j_cons x xs) = json_item-finite n xs

pub shape-finite : (j : Json) → json_shape (finite j) ≡ json_shape j
unfolding finite
shape-finite j_null = refl
shape-finite (j_bool b) = refl
shape-finite (j_num (nat n)) = refl
shape-finite (j_num (other t)) = refl
shape-finite (j_num (nonfinite t)) = refl
shape-finite (j_str t) = refl
shape-finite (j_arr xs) = refl
shape-finite (j_obj fs) = refl
