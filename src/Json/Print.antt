-- ===== src/Json/Print.antt =====
-- `JSON.stringify` on canonical data: the text determines the data, up to numbers that JSON lacks.
use adonisjs_audit_trail.Common.{
  ℕ, Bool, ◌≡◌, [], ◌∷◌, ◌++◌, arith, append_assoc, append-nil, sym, ◌∙◌, ap₂,
}
use adonisjs_audit_trail.Common.Text.{Text}
use adonisjs_audit_trail.Json.{
  nat, other, nonfinite, Json, JsonItems, JsonFields, Token, JsonText, j_null, j_bool, j_num, j_str,
  j_arr, j_obj, j_nil, j_cons, j_end, j_field, print, print_items, print_items_rest, print_fields,
  print_fields_rest, close_bracket, null_word, number, decimal, quoted, word,
}

-- The same data with `null` for each number that JSON has not.
unfoldable mutual
  pub finite : Json → Json
  finite j_null = j_null
  finite (j_bool b) = j_bool b
  finite (j_num (nat n)) = j_num (nat n)
  finite (j_num (other t)) = j_num (other t)
  finite (j_num (nonfinite t)) = j_null
  finite (j_str t) = j_str t
  finite (j_arr xs) = j_arr (finite_items xs)
  finite (j_obj fs) = j_obj (finite_fields fs)

  pub finite_items : JsonItems → JsonItems
  finite_items j_nil = j_nil
  finite_items (j_cons x xs) = j_cons (finite x) (finite_items xs)

  pub finite_fields : JsonFields → JsonFields
  finite_fields j_end = j_end
  finite_fields (j_field k v fs) = j_field k (finite v) (finite_fields fs)

-- No value begins with a closing bracket.
print-ne-close : (v : Json) (r s : JsonText) → print v ++ r ≡ close_bracket ∷ s → ⊥
unfolding print
print-ne-close (j_num (nat n)) r s e = cc
print-ne-close (j_num (other t)) r s e = cc
print-ne-close (j_num (nonfinite t)) r s e = cc
print-ne-close j_null r s e = cc
print-ne-close (j_bool b) r s e = cc
print-ne-close (j_str b) r s e = cc
print-ne-close (j_arr b) r s e = cc
print-ne-close (j_obj b) r s e = cc

cancel_null :
    (w : Json) (r s : JsonText)
    → null_word ∷ r ≡ print w ++ s
    → (finite (j_null) ≡ finite w) × (r ≡ s)
unfolding print finite
cancel_null j_null r s e = ground arith
cancel_null (j_num (nat m)) r s e = ground arith
cancel_null (j_num (other u)) r s e = ground arith
cancel_null (j_num (nonfinite u)) r s e = ground arith
cancel_null (j_bool c) r s e = ground arith
cancel_null (j_str u) r s e = ground arith
cancel_null (j_arr xs) r s e = ground arith
cancel_null (j_obj fs) r s e = ground arith

cancel_bool :
    (b : Bool) (w : Json) (r s : JsonText)
    → word b ∷ r ≡ print w ++ s
    → (finite (j_bool b) ≡ finite w) × (r ≡ s)
unfolding print finite
cancel_bool b j_null r s e = ground arith
cancel_bool b (j_num (nat m)) r s e = ground arith
cancel_bool b (j_num (other u)) r s e = ground arith
cancel_bool b (j_num (nonfinite u)) r s e = ground arith
cancel_bool b (j_bool c) r s e = ground arith
cancel_bool b (j_str u) r s e = ground arith
cancel_bool b (j_arr xs) r s e = ground arith
cancel_bool b (j_obj fs) r s e = ground arith

cancel_nat :
    (n : ℕ) (w : Json) (r s : JsonText)
    → number n ∷ r ≡ print w ++ s
    → (finite (j_num (nat n)) ≡ finite w) × (r ≡ s)
unfolding print finite
cancel_nat n j_null r s e = ground arith
cancel_nat n (j_num (nat m)) r s e = ground arith
cancel_nat n (j_num (other u)) r s e = ground arith
cancel_nat n (j_num (nonfinite u)) r s e = ground arith
cancel_nat n (j_bool c) r s e = ground arith
cancel_nat n (j_str u) r s e = ground arith
cancel_nat n (j_arr xs) r s e = ground arith
cancel_nat n (j_obj fs) r s e = ground arith

cancel_other :
    (t : Text) (w : Json) (r s : JsonText)
    → decimal t ∷ r ≡ print w ++ s
    → (finite (j_num (other t)) ≡ finite w) × (r ≡ s)
unfolding print finite
cancel_other t j_null r s e = ground arith
cancel_other t (j_num (nat m)) r s e = ground arith
cancel_other t (j_num (other u)) r s e = ground arith
cancel_other t (j_num (nonfinite u)) r s e = ground arith
cancel_other t (j_bool c) r s e = ground arith
cancel_other t (j_str u) r s e = ground arith
cancel_other t (j_arr xs) r s e = ground arith
cancel_other t (j_obj fs) r s e = ground arith

cancel_str :
    (t : Text) (w : Json) (r s : JsonText)
    → quoted t ∷ r ≡ print w ++ s
    → (finite (j_str t) ≡ finite w) × (r ≡ s)
unfolding print finite
cancel_str t j_null r s e = ground arith
cancel_str t (j_num (nat m)) r s e = ground arith
cancel_str t (j_num (other u)) r s e = ground arith
cancel_str t (j_num (nonfinite u)) r s e = ground arith
cancel_str t (j_bool c) r s e = ground arith
cancel_str t (j_str u) r s e = ground arith
cancel_str t (j_arr xs) r s e = ground arith
cancel_str t (j_obj fs) r s e = ground arith

regroup : (a b r c d s : JsonText) → (a ++ b) ++ r ≡ (c ++ d) ++ s → a ++ (b ++ r) ≡ c ++ (d ++ s)
regroup a b r c d s e = sym (append_assoc a b r) ∙ e ∙ append_assoc c d s

uncons : {t u : Token} {r s : JsonText} → t ∷ r ≡ u ∷ s → r ≡ s
uncons e = cc

mutual
  unfolding print finite

  -- What is read from the front of a text is determined, and so is what is left.
  cancel :
      (v w : Json) (r s : JsonText) → print v ++ r ≡ print w ++ s → (finite v ≡ finite w) × (r ≡ s)
  cancel (j_arr xs) (j_arr ys) r s e = ground (arith, cancel_items xs ys r s (ground arith))
  cancel (j_obj xs) (j_obj ys) r s e = ground (arith, cancel_fields xs ys r s (ground arith))
  cancel (j_arr xs) j_null r s e = cc
  cancel (j_arr xs) (j_num (nat m)) r s e = cc
  cancel (j_arr xs) (j_num (other u)) r s e = cc
  cancel (j_arr xs) (j_num (nonfinite u)) r s e = cc
  cancel (j_arr xs) (j_bool c) r s e = cc
  cancel (j_arr xs) (j_str u) r s e = cc
  cancel (j_arr xs) (j_obj ys) r s e = cc
  cancel (j_obj xs) j_null r s e = cc
  cancel (j_obj xs) (j_num (nat m)) r s e = cc
  cancel (j_obj xs) (j_num (other u)) r s e = cc
  cancel (j_obj xs) (j_num (nonfinite u)) r s e = cc
  cancel (j_obj xs) (j_bool c) r s e = cc
  cancel (j_obj xs) (j_str u) r s e = cc
  cancel (j_obj xs) (j_arr ys) r s e = cc
  cancel j_null w r s e = cancel_null w r s e
  cancel (j_bool b) w r s e = cancel_bool b w r s e
  cancel (j_num (nat n)) w r s e = cancel_nat n w r s e
  cancel (j_num (other t)) w r s e = cancel_other t w r s e
  cancel (j_num (nonfinite t)) w r s e = cancel_null w r s e
  cancel (j_str t) w r s e = cancel_str t w r s e

  cancel_items :
      (xs ys : JsonItems) (r s : JsonText)
      → print_items xs ++ r ≡ print_items ys ++ s
      → (finite_items xs ≡ finite_items ys) × (r ≡ s)
  cancel_items j_nil j_nil r s e = ground arith
  cancel_items j_nil (j_cons y ys) r s e = absurd (
      print-ne-close y (print_items_rest ys ++ s) r
        (sym (append_assoc (print y) (print_items_rest ys) s) ∙ sym e))
  cancel_items (j_cons x xs) j_nil r s e = absurd (
      print-ne-close x (print_items_rest xs ++ r) s
        (sym (append_assoc (print x) (print_items_rest xs) r) ∙ e))
  cancel_items (j_cons x xs) (j_cons y ys) r s e =
      let h =
        cancel x y (print_items_rest xs ++ r) (print_items_rest ys ++ s)
          (regroup (print x) (print_items_rest xs) r (print y) (print_items_rest ys) s e) in
      let t = cancel_items_rest xs ys r s h.1 in (ap₂ j_cons h.0 t.0, t.1)

  cancel_items_rest :
      (xs ys : JsonItems) (r s : JsonText)
      → print_items_rest xs ++ r ≡ print_items_rest ys ++ s
      → (finite_items xs ≡ finite_items ys) × (r ≡ s)
  cancel_items_rest j_nil j_nil r s e = ground arith
  cancel_items_rest j_nil (j_cons y ys) r s e = cc
  cancel_items_rest (j_cons x xs) j_nil r s e = cc
  cancel_items_rest (j_cons x xs) (j_cons y ys) r s e =
      let h =
        cancel x y (print_items_rest xs ++ r) (print_items_rest ys ++ s) (
          regroup (print x) (print_items_rest xs) r (print y) (print_items_rest ys) s (uncons e)) in
      let t = cancel_items_rest xs ys r s h.1 in (ap₂ j_cons h.0 t.0, t.1)

  cancel_fields :
      (xs ys : JsonFields) (r s : JsonText)
      → print_fields xs ++ r ≡ print_fields ys ++ s
      → (finite_fields xs ≡ finite_fields ys) × (r ≡ s)
  cancel_fields j_end j_end r s e = ground arith
  cancel_fields j_end (j_field k y ys) r s e = cc
  cancel_fields (j_field k x xs) j_end r s e = cc
  cancel_fields (j_field k x xs) (j_field j y ys) r s e =
      let h = cancel x y (print_fields_rest xs ++ r) (print_fields_rest ys ++ s) (
        regroup (print x) (print_fields_rest xs) r (print y) (print_fields_rest ys) s
          (uncons (uncons e))) in
      let t = cancel_fields_rest xs ys r s h.1 in (cc (h.0, t.0, e), t.1)

  cancel_fields_rest :
      (xs ys : JsonFields) (r s : JsonText)
      → print_fields_rest xs ++ r ≡ print_fields_rest ys ++ s
      → (finite_fields xs ≡ finite_fields ys) × (r ≡ s)
  cancel_fields_rest j_end j_end r s e = ground arith
  cancel_fields_rest j_end (j_field k y ys) r s e = cc
  cancel_fields_rest (j_field k x xs) j_end r s e = cc
  cancel_fields_rest (j_field k x xs) (j_field j y ys) r s e =
      let h = cancel x y (print_fields_rest xs ++ r) (print_fields_rest ys ++ s) (
        regroup (print x) (print_fields_rest xs) r (print y) (print_fields_rest ys) s
          (uncons (uncons (uncons e)))) in
      let t = cancel_fields_rest xs ys r s h.1 in (cc (h.0, t.0, e), t.1)

-- Two canonical texts agree exactly when the data do, a number that JSON has not counting as `null`.
pub print-injective : (v w : Json) → print v ≡ print w → finite v ≡ finite w
print-injective v w e = (cancel v w [] [] (append-nil (print v) ∙ e ∙ sym (append-nil (print w)))).0
