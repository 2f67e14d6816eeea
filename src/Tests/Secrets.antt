-- ===== src/Tests/Secrets.antt =====
-- Runs of src/core/redactor.ts.
use adonisjs_audit_trail.Common.{◌≡◌, ◌≢◌, refl, List, [], ◌∷◌, map, none}
use adonisjs_audit_trail.Common.Text.{Text, text}
use adonisjs_audit_trail.Errors.{Result, ok}
use adonisjs_audit_trail.Json.{Value, Fields, nat, num, str, obj, end, field}
use adonisjs_audit_trail.Types.{mask, hash}
use adonisjs_audit_trail.Redactor.{HashInput, compile_pattern, redact_value, create_redactor}
use adonisjs_audit_trail.Redactor.Clean.{Clean}
use adonisjs_audit_trail.Redactor.Again.{create_redactor-Clean, redact_value_idem}

abbrev echo : Text → HashInput → Text
echo salt input = salt

abbrev paths : List Text
paths = text "password" ∷ text "card.*" ∷ []

abbrev login : Fields
login = field (text "user") (str (text "ann")) (
    field (text "password") (str (text "x"))
      (field (text "card") (obj (field (text "no") (num (nat 4)) end)) end))

abbrev masked : Value
masked = obj (
    field (text "user") (str (text "ann")) (
      field (text "password") (str (text "[REDACTED]"))
        (field (text "card") (obj (field (text "no") (str (text "[REDACTED]")) end)) end)))

abbrev redact_login : Fields → Result Value
redact_login fs = redact_value echo (map compile_pattern paths) mask none [] (obj fs)

redacts_once : redact_login login ≡ ok masked
unfolding redact_value compile_pattern
redacts_once = refl

built : create_redactor echo paths mask none ≡ ok redact_login
unfolding create_redactor
built = refl

mask-ne-hash : mask ≢ hash
mask-ne-hash e = cc

create_redactor-Clean_example : Clean (map compile_pattern paths) mask [] masked
create_redactor-Clean_example =
    create_redactor-Clean echo paths mask none redact_login login masked built redacts_once

redact_value_idem_example :
    redact_value echo (map compile_pattern paths) mask none [] masked ≡ ok masked
redact_value_idem_example =
    redact_value_idem echo (map compile_pattern paths) mask none mask-ne-hash (obj login) masked
      redacts_once
