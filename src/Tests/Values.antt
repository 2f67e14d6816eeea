-- ===== src/Tests/Values.antt =====
-- Values for src/core/canonical_json.ts.
use adonisjs_audit_trail.Common.{ℕ, ◌≡◌, ◌≢◌, ap, arith, [], ◌∷◌}
use adonisjs_audit_trail.Common.Text.{Text, text}
use adonisjs_audit_trail.Json.{Value, nat, num, obj, end, field}
use adonisjs_audit_trail.Json.Canonical.{canonical_json}
use adonisjs_audit_trail.Json.Order.{objects, swap, canonical_json-Same}

abbrev ab : Value
ab = obj (field (text "a") (num (nat 1)) (field (text "b") (num (nat 2)) end))

abbrev ba : Value
ba = obj (field (text "b") (num (nat 2)) (field (text "a") (num (nat 1)) end))

abbrev first_unit : Text → ℕ
first_unit [] = 0
first_unit (c ∷ cs) = c

a-ne-b : text "a" ≢ text "b"
a-ne-b e = absurd (omega (arith, ap first_unit e))

canonical_json-Same_example : canonical_json ab ≡ canonical_json ba
canonical_json-Same_example =
    canonical_json-Same ab ba
      (objects (swap (text "a") (text "b") (num (nat 1)) (num (nat 2)) end a-ne-b))
