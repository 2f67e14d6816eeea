-- ===== src/Redactor.antt =====
-- src/core/redactor.ts. A path is kept from its last key to its first. `digest salt input` is the SHA-256
-- digest of the salt followed by the input: a canonical JSON text, or what `String` makes of a scalar.
pub mod Clean
pub mod Again
use adonisjs_audit_trail.Common.{
  ℕ, zero, suc, ◌+◌, ◌/◌, ◌%◌, Bool, true, false, not, ◌&&◌, ◌||◌, Option, none, some, List, [],
  ◌∷◌, ◌++◌, map, if◌then◌else◌, ltb, ◌==◌,
}
use adonisjs_audit_trail.Common.Text.{Text, text, text_eq}
use adonisjs_audit_trail.Errors.{Result, ok, err, ◌>>=◌, redaction_salt, plain_error}
use adonisjs_audit_trail.Json.{
  Value, Items, Fields, JsonText, undefined, null, function, symbol, bigint, cycle, bool, num, str,
  date, instance_of, arr, obj, nil, cons, end, field,
}
use adonisjs_audit_trail.Json.Canonical.{canonical_json}
use adonisjs_audit_trail.Types.{RedactionMode, mask, remove, hash}

pub data CompiledPattern : Type 0 where
  exact deep prefix : Text → CompiledPattern

-- The text before a final `.*`.
unfoldable pub before_star : Text → Option Text
before_star [] = none
before_star (c ∷ cs) = elim (text_eq (c ∷ cs) (text ".*")) [
  | true ↦ some []
  | false ↦ elim (before_star cs) [ none ↦ none | some t ↦ some (c ∷ t) ]
]

-- A pattern that has no leading `*.` before a key.
abbrev pub prefix_or_exact : Text → Option Text → CompiledPattern
prefix_or_exact pattern none = exact pattern
prefix_or_exact pattern (some []) = exact pattern
prefix_or_exact pattern (some (c ∷ cs)) = prefix (c ∷ cs)

-- The key after a leading `*.`.
unfoldable pub after_star : Text → Option Text
after_star (c ∷ d ∷ e ∷ es) = if c == 42 && d == 46 then some (e ∷ es) else none
after_star _ = none

unfoldable pub compile_pattern : Text → CompiledPattern
unfolding before_star after_star
compile_pattern pattern = elim (after_star pattern) [
  | some key ↦ deep key
  | none ↦ prefix_or_exact pattern (before_star pattern)
]

abbrev pub includes : Text → List Text → Bool
includes key [] = false
includes key (k ∷ path) = text_eq k key || includes key path

abbrev pub last_is : Text → List Text → Bool
last_is key [] = false
last_is key (k ∷ path) = text_eq k key

abbrev pub parent_is : Text → List Text → Bool
parent_is key [] = false
parent_is key (k ∷ path) = last_is key path

abbrev pub matches : List Text → CompiledPattern → Bool
matches path (exact key) = last_is key path
matches path (deep key) = includes key path
matches path (prefix key) = parent_is key path

unfoldable pub is_redacted : List Text → List CompiledPattern → Bool
is_redacted path [] = false
is_redacted path (p ∷ patterns) = matches path p || is_redacted path patterns

-- `String(index)`, with the digits that may still come.
decimal : ℕ → ℕ → Text → Text
decimal zero n later = later
decimal (suc fuel) n later =
    let rest = decimal fuel (n / 10) ((48 + n % 10) ∷ later) in
    if ltb n 10 then (48 + n) ∷ later else rest

unfoldable pub index_text : ℕ → Text
unfolding decimal
index_text n = decimal (suc n) n []

pub data HashInput : Type 0 where
  canonical_text : JsonText → HashInput
  scalar : Value → HashInput

abbrev pub is_object : Value → Bool
is_object cycle = true
is_object (date t) = true
is_object (instance_of c fs) = true
is_object (arr xs) = true
is_object (obj fs) = true
is_object _ = false

-- `result[key] = value` on the object under construction, before its later keys. Under the name `__proto__` it makes
-- no property; where the value is an object or null the source also sets the prototype, which no own property
-- shows and only a later `canonicalJson` of the object would refuse.
abbrev pub put : Text → Value → Fields → Fields
put key value fs = if text_eq key (text "__proto__") then fs else field key value fs

module _ (digest : Text → HashInput → Text) where
  unfoldable pub hash_value : Value → Text → Result Text
  hash_value value salt =
      if is_object value
      then (do t ← canonical_json value; ok (text "sha256:" ++ digest salt (canonical_text t)))
      else ok (text "sha256:" ++ digest salt (scalar value))

  -- What becomes of a property whose path is redacted, before the later ones.
  unfoldable pub cover : RedactionMode → Option Text → Text → Value → Result Fields → Result Fields
  unfolding hash_value
  cover mask salt key value rest = do fs ← rest; ok (put key (str (text "[REDACTED]")) fs)
  cover remove salt key value rest = rest
  cover hash none key value rest = err redaction_salt
  cover hash (some []) key value rest = err redaction_salt
  cover hash (some (c ∷ cs)) key value rest = do
    h ← hash_value value (c ∷ cs)
    fs ← rest
    ok (put key (str h) fs)

  module _ (patterns : List CompiledPattern) (mode : RedactionMode) (salt : Option Text) where
    -- `redactValue`. A `Date` has no properties of its own. On a reference to an enclosing object the
    -- source recurses until the stack is exhausted, which is a plain error here.
    unfoldable mutual
      unfolding is_redacted cover index_text

      pub redact_value : List Text → Value → Result Value
      redact_value path (arr xs) = do ys ← redact_items path 0 xs; ok (arr ys)
      redact_value path (obj fs) = do gs ← redact_fields path fs; ok (obj gs)
      redact_value path (instance_of c fs) = do gs ← redact_fields path fs; ok (obj gs)
      redact_value path (date t) = ok (obj end)
      redact_value path cycle = err plain_error
      redact_value path null = ok null
      redact_value path undefined = ok undefined
      redact_value path function = ok function
      redact_value path symbol = ok symbol
      redact_value path bigint = ok bigint
      redact_value path (bool b) = ok (bool b)
      redact_value path (num n) = ok (num n)
      redact_value path (str t) = ok (str t)

      pub redact_items : List Text → ℕ → Items → Result Items
      redact_items path i nil = ok nil
      redact_items path i (cons v vs) = do
        w ← redact_value (index_text i ∷ path) v
        ws ← redact_items path (i + 1) vs
        ok (cons w ws)

      pub redact_fields : List Text → Fields → Result Fields
      redact_fields path end = ok end
      redact_fields path (field k v fs) =
          let rest = redact_fields path fs in
          if is_redacted (k ∷ path) patterns
          then cover mode salt k v rest
          else (do w ← redact_value (k ∷ path) v; gs ← rest; ok (put k w gs))

-- `createRedactor`: the function that redacts an object, or the error without a salt.
abbrev pub has_salt : Option Text → Bool
has_salt (some (c ∷ cs)) = true
has_salt _ = false

abbrev pub needs_salt : RedactionMode → Bool
needs_salt hash = true
needs_salt _ = false

unfoldable pub create_redactor :
    (Text → HashInput → Text)
    → List Text
    → RedactionMode
    → Option Text
    → Result (Fields → Result Value)
create_redactor digest paths mode salt =
    if needs_salt mode && not (has_salt salt)
    then err redaction_salt
    else ok (λ fs. redact_value digest (map compile_pattern paths) mode salt [] (obj fs))
