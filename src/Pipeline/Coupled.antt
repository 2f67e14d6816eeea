-- ===== src/Pipeline/Coupled.antt =====
-- src/core/pipeline.ts: the callers of `requestCoupledFlush`, which wait for their events' write.
use adonisjs_audit_trail.Common.{
  ℕ, Bool, true, false, none, some, List, [], ◌∷◌, ◌++◌, if◌then◌else◌, ◌==◌,
}
use adonisjs_audit_trail.Common.Text.{Text}
use adonisjs_audit_trail.Common.Dict.{Dict, lookup, insert, erase}
use adonisjs_audit_trail.Pipeline.{Pipeline, Effect, resolves, times_out}

unfoldable pub ids_of : ℕ → List (ℕ × List Text) → List Text
ids_of call [] = []
ids_of call ((n, ids) ∷ calls) = if n == call then ids else ids_of call calls

unfoldable pub close_call : ℕ → List (ℕ × List Text) → List (ℕ × List Text)
close_call call [] = []
close_call call ((n, ids) ∷ calls) =
    let rest = close_call call calls in if n == call then rest else (n, ids) ∷ rest

unfoldable pub erase_all : List Text → Dict ℕ → Dict ℕ
erase_all [] m = m
erase_all (id ∷ ids) m = erase_all ids (erase id m)

unfoldable pub insert_all : List Text → ℕ → Dict ℕ → Dict ℕ
insert_all [] n m = m
insert_all (id ∷ ids) n m = insert_all ids n (insert id n m)

-- The `cleanup` of a call.
abbrev pub cleanup : ℕ → Pipeline → Pipeline
cleanup call p = record p {
  coupled = erase_all (ids_of call p.calls) p.coupled;
  calls = close_call call p.calls;
}

unfoldable pub has_call : ℕ → List ℕ → Bool
has_call n [] = false
has_call n (m ∷ ms) = if m == n then true else has_call n ms

-- The first loop of `#resolveCoupled`: the calls that wait for one of the ids, each once, and the map
-- without those ids.
unfoldable pub collect_calls : List Text → Dict ℕ → List ℕ → List ℕ × Dict ℕ
unfolding has_call
collect_calls [] m found = (found, m)
collect_calls (id ∷ ids) m found = elim (lookup id m) [
  | none ↦ collect_calls ids m found
  | some call ↦
      collect_calls ids (erase id m) (if has_call call found then found else found ++ call ∷ [])
]

unfoldable pub resolve_each : List ℕ → Pipeline → Pipeline × List Effect
unfolding ids_of close_call erase_all
resolve_each [] p = (p, [])
resolve_each (call ∷ calls) p =
    let (q, effects) = resolve_each calls (cleanup call p) in (q, resolves call ∷ effects)

unfoldable pub resolve_coupled : List Text → Pipeline → Pipeline × List Effect
unfolding collect_calls resolve_each
resolve_coupled ids p =
    let (calls, m) = collect_calls ids p.coupled [] in resolve_each calls (record p { coupled = m })

unfoldable pub is_open : ℕ → List (ℕ × List Text) → Bool
is_open call [] = false
is_open call ((n, ids) ∷ calls) = if n == call then true else is_open call calls

-- The timer of a call rejects the call if it is still open.
abbrev pub expire_call : Bool → ℕ → Pipeline → Pipeline × List Effect
expire_call false call p = (p, [])
expire_call true call p = (cleanup call p, times_out call ∷ [])

unfoldable pub coupled_timeout : ℕ → Pipeline → Pipeline × List Effect
unfolding is_open ids_of close_call erase_all
coupled_timeout call p = expire_call (is_open call p.calls) call p
