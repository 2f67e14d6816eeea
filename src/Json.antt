-- ===== src/Json.antt =====
-- JavaScript values as the package meets them in payloads, JSON data, and `JSON.stringify`.
-- A JSON text is kept as its sequence of tokens: quoting and number formatting are left to the token.
pub mod Print
pub mod Canonical
pub mod Order
pub mod Seen
pub mod Reading
use adonisjs_audit_trail.Common.{ℕ, Bool, true, false, List, [], ◌∷◌, ◌++◌, ℕ_discrete}
use adonisjs_audit_trail.Common.Text.{Text}

-- `other` is a finite number that is no natural number, by its `Number.prototype.toString` text;
-- `nonfinite` is NaN or an infinity, by its name.
pub data Number : Type 0 where
  nat : ℕ → Number
  other : Text → Number
  nonfinite : Text → Number

-- A value of type `unknown`. `date` is a `Date` by its ISO text, `instance_of` an object whose
-- constructor is not `Object`, by its class name and own fields; `cycle` is a reference to an object
-- that encloses it.
mutual
  pub data Value : Type 0 where
    undefined null function symbol bigint cycle : Value
    bool : Bool → Value
    num : Number → Value
    str : Text → Value
    date : Text → Value
    instance_of : Text → Fields → Value
    arr : Items → Value
    obj : Fields → Value

  pub data Items : Type 0 where
    nil : Items
    cons : Value → Items → Items

  pub data Fields : Type 0 where
    end : Fields
    field : Text → Value → Fields → Fields

-- What `serialize` returns: the values that JSON has, and numbers that it has not.
mutual
  pub data Json : Type 0 where
    j_null : Json
    j_bool : Bool → Json
    j_num : Number → Json
    j_str : Text → Json
    j_arr : JsonItems → Json
    j_obj : JsonFields → Json

  pub data JsonItems : Type 0 where
    j_nil : JsonItems
    j_cons : Json → JsonItems → JsonItems

  pub data JsonFields : Type 0 where
    j_end : JsonFields
    j_field : Text → Json → JsonFields → JsonFields

pub data Token : Type 0 where
  null_word comma colon open_bracket close_bracket open_brace close_brace : Token
  word : Bool → Token
  number : ℕ → Token
  decimal : Text → Token
  quoted : Text → Token

abbrev pub JsonText : Type 0
JsonText = List Token

pub JsonText-discrete : Discrete JsonText
JsonText-discrete = hlevel ℕ_discrete

-- `===` on two texts.
abbrev pub same_text : JsonText → JsonText → Bool
same_text a b = elim (JsonText-discrete a b) [ yes e ↦ true | no ne ↦ false ]

abbrev print_number : Number → Token
print_number (nat n) = number n
print_number (other t) = decimal t
print_number (nonfinite t) = null_word

-- `JSON.stringify` on the result of `serialize`. Each item and each field ends in a comma or in the
-- closing bracket.
unfoldable mutual
  pub print : Json → JsonText
  print j_null = null_word ∷ []
  print (j_bool b) = word b ∷ []
  print (j_num n) = print_number n ∷ []
  print (j_str t) = quoted t ∷ []
  print (j_arr xs) = open_bracket ∷ print_items xs
  print (j_obj fs) = open_brace ∷ print_fields fs

  pub print_items : JsonItems → JsonText
  print_items j_nil = close_bracket ∷ []
  print_items (j_cons x xs) = print x ++ print_items_rest xs

  pub print_items_rest : JsonItems → JsonText
  print_items_rest j_nil = close_bracket ∷ []
  print_items_rest (j_cons x xs) = comma ∷ print x ++ print_items_rest xs

  pub print_fields : JsonFields → JsonText
  print_fields j_end = close_brace ∷ []
  print_fields (j_field k v fs) = quoted k ∷ colon ∷ (print v ++ print_fields_rest fs)

  pub print_fields_rest : JsonFields → JsonText
  print_fields_rest j_end = close_brace ∷ []
  print_fields_rest (j_field k v fs) = comma ∷ quoted k ∷ colon ∷ (print v ++ print_fields_rest fs)
