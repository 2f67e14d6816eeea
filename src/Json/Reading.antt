-- ===== src/Json/Reading.antt =====
-- What `serialize` returns has at every place what the value has there.
use adonisjs_audit_trail.Common.{
  ℕ, zero, suc, ◌≡◌, ◌≢◌, ◌⊎◌, arith, refl, sym, ap, ◌∙◌, Bool, ◌&&◌, true, false, false≢true,
  Option, none, some, List, [], ◌∷◌, inl, inr, Bool-cases, Option-cases, if◌then◌else◌,
}
use adonisjs_audit_trail.Common.Text.{Text, text, text_eq, text_eq_iff, text_lt, text_lt_asymm}
use adonisjs_audit_trail.Errors.{Result, ok, err, >>=-eq-ok, ok-injective, ok-ne-err}
use adonisjs_audit_trail.Json.{
  nat, other, nonfinite, Value, Items, Fields, undefined, null, function, symbol, bigint, cycle,
  bool, num, str, date, instance_of, arr, obj, nil, cons, end, field, Json, JsonItems, JsonFields,
  j_null, j_bool, j_num, j_str, j_arr, j_obj, j_end, j_field,
}
use adonisjs_audit_trail.Json.Canonical.{
  has_own, serialize_object, Pending, insert_key, sort_keys, collect, is_index, index_lt, at_end,
  at_index, assign, serialize, serialize_items, serialize_fields,
}
use adonisjs_audit_trail.Json.Print.{finite}
use adonisjs_audit_trail.Json.Seen.{
  Seen, Step, name, index, absent, is_given, property_of, item_of, seen_at, or_some, first, last,
  look, json_item, json_at, look-finite, json_item-finite, shape-finite,
}

json_at-finite : (path : List Step) (j : Json) → json_at path (finite j) ≡ json_at path j
unfolding json_at finite
json_at-finite [] j = shape-finite j
json_at-finite (name k ∷ path) (j_obj fs) = elim (Bool-cases (text_eq k (text "__proto__"))) [
  | inl e ↦ rw e refl
  | inr e ↦ elim (Option-cases (look k fs)) [
    | inl n ↦ rw (e, look-finite k fs, n) refl
    | inr (v, n) ↦ rw (e, look-finite k fs, n) (json_at-finite path v)
  ]
]
json_at-finite (name k ∷ path) (j_num (nat n)) = refl
json_at-finite (name k ∷ path) (j_num (other n)) = refl
json_at-finite (name k ∷ path) (j_num (nonfinite n)) = refl
json_at-finite (name k ∷ path) j_null = refl
json_at-finite (name k ∷ path) (j_bool b) = refl
json_at-finite (name k ∷ path) (j_str b) = refl
json_at-finite (name k ∷ path) (j_arr b) = refl
json_at-finite (index n ∷ path) (j_arr xs) =
    ap (λ o. elim o as (λ x. Seen) [ none ↦ absent | some v ↦ json_at path v ])
      (json_item-finite n xs)
    ∙ elim (Option-cases (json_item n xs)) [
      | inl e ↦ rw (e, json_at) refl
      | inr (v, e) ↦ rw (e, json_at) (json_at-finite path v)
    ]
json_at-finite (index k ∷ path) (j_num (nat n)) = refl
json_at-finite (index k ∷ path) (j_num (other n)) = refl
json_at-finite (index k ∷ path) (j_num (nonfinite n)) = refl
json_at-finite (index k ∷ path) j_null = refl
json_at-finite (index k ∷ path) (j_bool b) = refl
json_at-finite (index k ∷ path) (j_str b) = refl
json_at-finite (index k ∷ path) (j_obj b) = refl

-- The first of a name.
abbrev waiting : Text → Pending → Option (Result Json)
waiting k [] = none
waiting k ((j, r) ∷ rest) = let later = waiting k rest in if text_eq j k then some r else later

text_lt_irrefl : (a b : Text) → text_eq a b ≡ true → text_lt a b ≡ true → ⊥
text_lt_irrefl a b e h =
    let same = (text_eq_iff a b).0 e in
    let here : text_lt a a ≡ true = ap (text_lt a) same ∙ h in
    false≢true (sym (text_lt_asymm a a here) ∙ here)

waiting-insert_key :
    (k j : Text) (r : Result Json) (l : Pending)
    → waiting k (insert_key j r l) ≡ (if text_eq j k then some r else waiting k l)
unfolding insert_key
waiting-insert_key k j r [] = refl
waiting-insert_key k j r ((i, u) ∷ l) = elim (Bool-cases (text_lt i j)) [
  | inr lt ↦ rw lt refl
  | inl lt ↦ elim (Bool-cases (text_eq i k)) [
    | inr e ↦ rw (lt, e) (waiting-insert_key k j r l)
    | inl e ↦ elim (Bool-cases (text_eq j k)) [
      | inr d ↦ rw (lt, e, d) refl
      | inl d ↦ absurd (
          text_lt_irrefl i j
            ((text_eq_iff i j).1 ((text_eq_iff i k).0 e ∙ sym ((text_eq_iff j k).0 d))) lt)
    ]
  ]
]

waiting-sort_keys : (k : Text) (l : Pending) → waiting k (sort_keys l) ≡ waiting k l
unfolding sort_keys
waiting-sort_keys k [] = refl
waiting-sort_keys k ((j, r) ∷ l) =
    waiting-insert_key k j r (sort_keys l)
    ∙ ap (λ o. if text_eq j k then some r else o) (waiting-sort_keys k l)

abbrev serialized : Option Value → Option (Result Json)
serialized none = none
serialized (some v) = some (serialize v)

waiting-field :
    (k j : Text) (v : Value) (fs : Fields)
    → is_given v ≡ true
    → waiting k (serialize_fields fs) ≡ serialized (property_of k fs)
    → (if text_eq j k then some (serialize v) else waiting k (serialize_fields fs))
      ≡ serialized (property_of k (field j v fs))
waiting-field k j v fs g h = elim (Bool-cases (text_eq j k)) [
  | inl e ↦ rw (e, g) refl
  | inr e ↦ rw e h
]

waiting-serialize_fields :
    (k : Text) (fs : Fields) → waiting k (serialize_fields fs) ≡ serialized (property_of k fs)
unfolding serialize
waiting-serialize_fields k end = refl
waiting-serialize_fields k (field j undefined fs) = elim (Bool-cases (text_eq j k)) [
  | inl e ↦ rw e (waiting-serialize_fields k fs)
  | inr e ↦ rw e (waiting-serialize_fields k fs)
]
waiting-serialize_fields k (field j v fs) =
    waiting-field k j v fs refl (waiting-serialize_fields k fs)

or_some-none : (o : Option Json) → or_some o none ≡ o
or_some-none none = refl
or_some-none (some v) = refl

first-at_end :
    (k j : Text) (v : Json) (fs : JsonFields)
    → first k (at_end j v fs) ≡ or_some (first k fs) (if text_eq j k then some v else none)
unfolding at_end
first-at_end k j v j_end = refl
first-at_end k j v (j_field i w fs) = elim (Bool-cases (text_eq i k)) [
  | inl e ↦ rw e refl
  | inr e ↦ rw e (first-at_end k j v fs)
]

last-at_end :
    (k j : Text) (v : Json) (fs : JsonFields)
    → text_eq j k ≡ false
    → last k (at_end j v fs) ≡ last k fs
unfolding at_end
last-at_end k j v j_end e = rw e refl
last-at_end k j v (j_field i w fs) e =
    ap (λ o. or_some o (if text_eq i k then some w else none)) (last-at_end k j v fs e)

first-at_index :
    (k j : Text) (v : Json) (fs : JsonFields)
    → text_eq j k ≡ false
    → first k (at_index j v fs) ≡ first k fs
unfolding at_index
first-at_index k j v j_end e = rw e refl
first-at_index k j v (j_field i w fs) e = elim (Bool-cases (is_index i && index_lt i j)) [
  | inr p ↦ rw (p, e) refl
  | inl p ↦ rw p (ap (λ o. if text_eq i k then some w else o) (first-at_index k j v fs e))
]

index_lt_irrefl : (i j : Text) → text_eq i j ≡ true → index_lt i j ≡ true → ⊥
unfolding index_lt
index_lt_irrefl i j e h =
    let same = (text_eq_iff i j).0 e in
    let here : index_lt i i ≡ true = ap (index_lt i) same ∙ h in absurd (ground (arith, here))

or_some_swap :
    (o : Option Json) (v w : Json) (p q : Bool)
    → p ≡ false ⊎ q ≡ false
    → or_some (or_some o (if p then some v else none)) (if q then some w else none)
      ≡ or_some (or_some o (if q then some w else none)) (if p then some v else none)
or_some_swap (some u) v w p q h = refl
or_some_swap none v w true true h = elim h [ inl e ↦ cc | inr e ↦ cc ]
or_some_swap none v w true false h = refl
or_some_swap none v w false true h = refl
or_some_swap none v w false false h = refl

last-at_index :
    (k j : Text) (v : Json) (fs : JsonFields)
    → last k (at_index j v fs) ≡ or_some (last k fs) (if text_eq j k then some v else none)
unfolding at_index
last-at_index k j v j_end = refl
last-at_index k j v (j_field i w fs) = elim (Bool-cases (is_index i && index_lt i j)) [
  | inr p ↦ rw p refl
  | inl p ↦ rw p (
      ap (λ o. or_some o (if text_eq i k then some w else none)) (last-at_index k j v fs)
      ∙ or_some_swap (last k fs) v w (text_eq j k) (text_eq i k) (apart p))
]
  where
    after : (a b : Bool) → (a && b) ≡ true → b ≡ true
    after true b h = h
    after false b h = absurd (false≢true h)

    apart : (is_index i && index_lt i j) ≡ true → text_eq j k ≡ false ⊎ text_eq i k ≡ false
    apart p = elim (Bool-cases (text_eq j k)) [
      | inr d ↦ inl d
      | inl d ↦ elim (Bool-cases (text_eq i k)) [
        | inr e ↦ inr e
        | inl e ↦ absurd (
            index_lt_irrefl i j
              ((text_eq_iff i j).1 ((text_eq_iff i k).0 e ∙ sym ((text_eq_iff j k).0 d)))
              (after (is_index i) (index_lt i j) p))
      ]
    ]

-- An assignment adds the property, unless it is there or is named `__proto__`.
look-assign :
    (k j : Text) (v : Json) (fs : JsonFields)
    → text_eq k (text "__proto__") ≡ false
    → look k (assign j v fs) ≡ or_some (look k fs) (if text_eq j k then some v else none)
unfolding look assign
look-assign k j v fs h = elim (Bool-cases (text_eq j (text "__proto__"))) [
  | inl p ↦ rw (p, differ p) (sym (or_some-none (if is_index k then last k fs else first k fs)))
  | inr p ↦ elim (Bool-cases (is_index j)) [
    | inl i ↦ elim (Bool-cases (is_index k)) [
      | inl ik ↦ rw (p, i, ik) (last-at_index k j v fs)
      | inr ik ↦
          rw (p, i, ik, other_kind (λ s. false≢true (sym ik ∙ ap is_index (sym s) ∙ i)))
            (first-at_index k j v fs
                (other_kind (λ s. false≢true (sym ik ∙ ap is_index (sym s) ∙ i)))
              ∙ sym (or_some-none (first k fs)))
    ]
    | inr i ↦ elim (Bool-cases (is_index k)) [
      | inr ik ↦ rw (p, i, ik) (first-at_end k j v fs)
      | inl ik ↦
          rw (p, i, ik, other_kind (λ s. false≢true (sym i ∙ ap is_index s ∙ ik)))
            (last-at_end k j v fs (other_kind (λ s. false≢true (sym i ∙ ap is_index s ∙ ik)))
              ∙ sym (or_some-none (last k fs)))
    ]
  ]
]
  where
    other_kind : j ≢ k → text_eq j k ≡ false
    other_kind ne = elim (Bool-cases (text_eq j k)) [
      | inr e ↦ e
      | inl e ↦ absurd (ne ((text_eq_iff j k).0 e))
    ]

    differ : text_eq j (text "__proto__") ≡ true → text_eq j k ≡ false
    differ p =
        other_kind (λ s. false≢true (sym h ∙ ap (λ t. text_eq t (text "__proto__")) (sym s) ∙ p))

abbrev got : Option (Result Json) → Option Json
got none = none
got (some (ok j)) = some j
got (some (err e)) = none

or_some_assoc : (a b c : Option Json) → or_some (or_some a b) c ≡ or_some a (or_some b c)
or_some_assoc none b c = refl
or_some_assoc (some v) b c = refl

look-collect :
    (k : Text) (l : Pending) (done out : JsonFields)
    → text_eq k (text "__proto__") ≡ false
    → collect l done ≡ ok out
    → look k out ≡ or_some (look k done) (got (waiting k l))
unfolding collect
look-collect k [] done out h e =
    ap (look k) (sym (ok-injective e)) ∙ sym (or_some-none (look k done))
look-collect k ((j, r) ∷ l) done out h e =
    let (v, here, rest) = >>=-eq-ok r (λ v. collect l (assign j v done)) e in
    look-collect k l (assign j v done) out h rest
    ∙ ap (λ o. or_some o (got (waiting k l))) (look-assign k j v done h)
    ∙ or_some_assoc (look k done) (if text_eq j k then some v else none) (got (waiting k l))
    ∙ ap (or_some (look k done))
        (elim (Bool-cases (text_eq j k)) [ inl s ↦ rw (s, here) refl | inr s ↦ rw s refl ])

-- Where all could be serialized, each could.
waiting-ok :
    (k : Text) (l : Pending) (done out : JsonFields) (r : Result Json)
    → collect l done ≡ ok out
    → waiting k l ≡ some r
    → (v : Json) × (r ≡ ok v)
unfolding collect
waiting-ok k [] done out r e w = cc
waiting-ok k ((j, s) ∷ l) done out r e w =
    let (v, here, rest) = >>=-eq-ok s (λ v. collect l (assign j v done)) e in
    elim (Bool-cases (text_eq j k)) [
      | inl t ↦ (v, sym (inner (rw t at w)) ∙ here)
      | inr t ↦ waiting-ok k l (assign j v done) out r rest (rw t at w)
    ]
  where
    inner : some s ≡ some r → s ≡ r
    inner q = cc

-- `serialize` of an array goes item by item.
item-serialized :
    (n : ℕ) (xs : Items) (js : JsonItems)
    → serialize_items xs ≡ ok js
    → ((item_of n xs ≡ none) × (json_item n js ≡ none))
      ⊎ ((v : Value) × (j : Json) × (item_of n xs ≡ some v)
          × (json_item n js ≡ some j)
          × (serialize v ≡ ok j))
unfolding serialize
item-serialized n nil js h = inl (refl, ap (json_item n) (sym (ok-injective h)))
item-serialized zero (cons x xs) js h =
    let (y, hy, h1) = >>=-eq-ok (serialize x) _ h in
    let (ys, hys, same) = >>=-eq-ok (serialize_items xs) _ h1 in
    inr (x, y, refl, ap (json_item 0) (sym (ok-injective same)), hy)
item-serialized (suc n) (cons x xs) js h =
    let (y, hy, h1) = >>=-eq-ok (serialize x) _ h in
    let (ys, hys, same) = >>=-eq-ok (serialize_items xs) _ h1 in
    let back : json_item n ys ≡ json_item (suc n) js = ap (json_item (suc n)) (ok-injective same) in
    elim (item-serialized n xs ys hys) [
      | inl (a, b) ↦ inl (a, sym back ∙ b)
      | inr (v, j, a, b, c) ↦ inr (v, j, a, sym back ∙ b, c)
    ]

look_end : (k : Text) → look k j_end ≡ none
unfolding look
look_end k = elim (Bool-cases (is_index k)) [ inl e ↦ rw e refl | inr e ↦ rw e refl ]

property-serialized :
    (k : Text) (fs : Fields) (js : JsonFields)
    → text_eq k (text "__proto__") ≡ false
    → collect (sort_keys (serialize_fields fs)) j_end ≡ ok js
    → ((property_of k fs ≡ none) × (look k js ≡ none))
      ⊎ ((v : Value) × (j : Json) × (property_of k fs ≡ some v)
          × (look k js ≡ some j)
          × (serialize v ≡ ok j))
property-serialized k fs js p h =
    let sorted = waiting-sort_keys k (serialize_fields fs) ∙ waiting-serialize_fields k fs in
    let found : look k js
        ≡ or_some (look k j_end) (got (waiting k (sort_keys (serialize_fields fs)))) =
      look-collect k (sort_keys (serialize_fields fs)) j_end js p h in
    elim (Option-cases (property_of k fs)) [
      | inl n ↦ inl (
        n,
        found
            ∙ ap (or_some (look k j_end)) (ap got (sorted ∙ ap serialized n))
            ∙ ap (λ o. or_some o none) (look_end k),
      )
      | inr (v, n) ↦
          let (j, e) =
            waiting-ok k (sort_keys (serialize_fields fs)) j_end js (serialize v) h
              (sorted ∙ ap serialized n) in
          inr (
            v,
            j,
            n,
            found
                ∙ ap (or_some (look k j_end)) (ap got (sorted ∙ ap serialized n ∙ ap some e))
                ∙ ap (λ o. or_some o (some j)) (look_end k),
            e,
          )
    ]

object_parts :
    (b : Bool) (sorted : Pending) (j : Json)
    → serialize_object b sorted ≡ ok j
    → (js : JsonFields) × (collect sorted j_end ≡ ok js) × (ok (j_obj js) ≡ ok j)
unfolding serialize_object
object_parts true sorted j h = absurd (ok-ne-err h)
object_parts false sorted j h = >>=-eq-ok (collect sorted j_end) _ h

-- At every path, the canonical data of a value has what the value has.
pub seen_at-serialize :
    (path : List Step) (v : Value) (j : Json) → serialize v ≡ ok j → seen_at path v ≡ json_at path j
unfolding serialize seen_at json_at
seen_at-serialize [] undefined j h = absurd (ok-ne-err h)
seen_at-serialize [] function j h = absurd (ok-ne-err h)
seen_at-serialize [] symbol j h = absurd (ok-ne-err h)
seen_at-serialize [] bigint j h = absurd (ok-ne-err h)
seen_at-serialize [] cycle j h = absurd (ok-ne-err h)
seen_at-serialize [] (date t) j h = absurd (ok-ne-err h)
seen_at-serialize [] (instance_of c fs) j h = absurd (ok-ne-err h)
seen_at-serialize [] null j h = ap (json_at []) (ok-injective h)
seen_at-serialize [] (bool b) j h = ap (json_at []) (ok-injective h)
seen_at-serialize [] (num m) j h = ap (json_at []) (ok-injective h)
seen_at-serialize [] (str t) j h = ap (json_at []) (ok-injective h)
seen_at-serialize (name k ∷ path) undefined j h = absurd (ok-ne-err h)
seen_at-serialize (name k ∷ path) function j h = absurd (ok-ne-err h)
seen_at-serialize (name k ∷ path) symbol j h = absurd (ok-ne-err h)
seen_at-serialize (name k ∷ path) bigint j h = absurd (ok-ne-err h)
seen_at-serialize (name k ∷ path) cycle j h = absurd (ok-ne-err h)
seen_at-serialize (name k ∷ path) (date t) j h = absurd (ok-ne-err h)
seen_at-serialize (name k ∷ path) (instance_of c fs) j h = absurd (ok-ne-err h)
seen_at-serialize (name k ∷ path) null j h = ap (json_at (name k ∷ path)) (ok-injective h)
seen_at-serialize (name k ∷ path) (bool b) j h = ap (json_at (name k ∷ path)) (ok-injective h)
seen_at-serialize (name k ∷ path) (num m) j h = ap (json_at (name k ∷ path)) (ok-injective h)
seen_at-serialize (name k ∷ path) (str t) j h = ap (json_at (name k ∷ path)) (ok-injective h)
seen_at-serialize (index n ∷ path) undefined j h = absurd (ok-ne-err h)
seen_at-serialize (index n ∷ path) function j h = absurd (ok-ne-err h)
seen_at-serialize (index n ∷ path) symbol j h = absurd (ok-ne-err h)
seen_at-serialize (index n ∷ path) bigint j h = absurd (ok-ne-err h)
seen_at-serialize (index n ∷ path) cycle j h = absurd (ok-ne-err h)
seen_at-serialize (index n ∷ path) (date t) j h = absurd (ok-ne-err h)
seen_at-serialize (index n ∷ path) (instance_of c fs) j h = absurd (ok-ne-err h)
seen_at-serialize (index n ∷ path) null j h = ap (json_at (index n ∷ path)) (ok-injective h)
seen_at-serialize (index n ∷ path) (bool b) j h = ap (json_at (index n ∷ path)) (ok-injective h)
seen_at-serialize (index n ∷ path) (num m) j h = ap (json_at (index n ∷ path)) (ok-injective h)
seen_at-serialize (index n ∷ path) (str t) j h = ap (json_at (index n ∷ path)) (ok-injective h)
seen_at-serialize [] (arr xs) j h =
    let (js, e, same) = >>=-eq-ok (serialize_items xs) _ h in ap (json_at []) (ok-injective same)
seen_at-serialize (name k ∷ path) (arr xs) j h =
    let (js, e, same) = >>=-eq-ok (serialize_items xs) _ h in
    ap (json_at (name k ∷ path)) (ok-injective same)
seen_at-serialize [] (obj fs) j h =
    let (js, e, same) =
      object_parts (has_own (text "constructor") fs) (sort_keys (serialize_fields fs)) j h in
    ap (json_at []) (ok-injective same)
seen_at-serialize (index n ∷ path) (obj fs) j h =
    let (js, e, same) =
      object_parts (has_own (text "constructor") fs) (sort_keys (serialize_fields fs)) j h in
    ap (json_at (index n ∷ path)) (ok-injective same)
seen_at-serialize (index n ∷ path) (arr xs) j h =
    let (js, e, same) = >>=-eq-ok (serialize_items xs) _ h in
    elim (item-serialized n xs js e) [
      | inl (a, b) ↦ rw (a, b, seen_at, json_at) refl
      | inr (v, i, a, b, c) ↦ rw (a, b, seen_at, json_at) (seen_at-serialize path v i c)
    ]
    ∙ ap (json_at (index n ∷ path)) (ok-injective same)
seen_at-serialize (name k ∷ path) (obj fs) j h =
    let (js, e, same) =
      object_parts (has_own (text "constructor") fs) (sort_keys (serialize_fields fs)) j h in
    elim (Bool-cases (text_eq k (text "__proto__"))) [
      | inl p ↦ rw p refl
      | inr p ↦ elim (property-serialized k fs js p e) [
        | inl (a, b) ↦ rw (p, a, b) refl
        | inr (v, i, a, b, c) ↦ rw (p, a, b) (seen_at-serialize path v i c)
      ]
    ]
    ∙ ap (json_at (name k ∷ path)) (ok-injective same)

-- Data that differ at most in numbers that JSON has not come from values with the same at every path.
pub seen_at-finite :
    (path : List Step) (v w : Value) (i j : Json)
    → serialize v ≡ ok i
    → serialize w ≡ ok j
    → finite i ≡ finite j
    → seen_at path v ≡ seen_at path w
seen_at-finite path v w i j h k e =
    seen_at-serialize path v i h
    ∙ sym (json_at-finite path i)
    ∙ ap (json_at path) e
    ∙ json_at-finite path j
    ∙ sym (seen_at-serialize path w j k)
