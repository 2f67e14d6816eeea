-- ===== src/SubjectCrypto/KeyStores.antt =====
-- src/core/subject_crypto.ts: the interface of a subject key store, and its two implementations, a map and a
-- database table with a unique `subject_id`.
use adonisjs_audit_trail.Common.{
  ◌≡◌, refl, subst, ◌∙◌, false, Option, none, some, List, [], ◌∷◌, if◌then◌else◌, inl, inr,
  Option-cases, Bool-cases, arith,
}
use adonisjs_audit_trail.Common.Text.{Text, text_eq, text_eq_iff, text_eq_refl}
use adonisjs_audit_trail.Common.Dict.{Dict, lookup, insert, erase, lookup-insert, lookup-erase}
use adonisjs_audit_trail.HashChain.{or_else}

-- The operations, and what they promise: the first key of a subject stays until it is deleted.
pub record SubjectKeyStore (S : Type 0) : Type 0 where
  pub get : Text → S → Option Text
  pub set : Text → Text → S → S
  pub delete : Text → S → S
  pub get-set :
      (id other key : Text) (st : S)
      → get other (set id key st)
        ≡ (if text_eq id other then some (or_else (get other st) key) else get other st)
  pub get-delete :
      (id other : Text) (st : S)
      → get other (delete id st) ≡ (if text_eq id other then none else get other st)

-- `if (!this.#keys.has(subjectId)) this.#keys.set(subjectId, key)`
abbrev pub set_unless : Text → Text → Dict Text → Option Text → Dict Text
set_unless id key keys (some k) = keys
set_unless id key keys none = insert id key keys

unfoldable pub memory_set : Text → Text → Dict Text → Dict Text
memory_set id key keys = set_unless id key keys (lookup id keys)

own_key :
    (id key : Text) (keys : Dict Text)
    → lookup id (memory_set id key keys) ≡ some (or_else (lookup id keys) key)
unfolding memory_set
own_key id key keys = elim (Option-cases (lookup id keys)) [
  | inl k ↦ rw (k, set_unless) (lookup-insert id id key keys ∙ rw (text_eq_refl id) refl)
  | inr (v, k) ↦ rw (k, set_unless, k) refl
]

other_key :
    (id other key : Text) (keys : Dict Text)
    → text_eq id other ≡ false
    → lookup other (memory_set id key keys) ≡ lookup other keys
unfolding memory_set
other_key id other key keys e = elim (Option-cases (lookup id keys)) [
  | inl k ↦ rw (k, set_unless) (lookup-insert id other key keys ∙ rw e refl)
  | inr (v, k) ↦ rw (k, set_unless) refl
]

pub memory-get-set :
    (id other key : Text) (keys : Dict Text)
    → lookup other (memory_set id key keys)
      ≡ (if text_eq id other then some (or_else (lookup other keys) key) else lookup other keys)
memory-get-set id other key keys = elim (Bool-cases (text_eq id other)) [
  | inl e ↦ rw e (
      subst (λ o. lookup o (memory_set id key keys) ≡ some (or_else (lookup o keys) key))
        ((text_eq_iff id other).0 e) (own_key id key keys))
  | inr e ↦ rw e (other_key id other key keys e)
]

abbrev pub memory_subject_key_store : SubjectKeyStore (Dict Text)
memory_subject_key_store = record {
  get = lookup;
  set = memory_set;
  delete = erase;
  get-set = memory-get-set;
  get-delete = λ id other keys. lookup-erase id other keys;
}

pub record SubjectKeyRow : Type 0 where
  pub subject_id : Text
  pub key : Text

-- `where('subject_id', subjectId).first()`
unfoldable pub lucid_get : Text → List SubjectKeyRow → Option Text
lucid_get id [] = none
lucid_get id (row ∷ rows) = if text_eq row.subject_id id then some row.key else lucid_get id rows

-- `insert(...).onConflict('subject_id').ignore()`
unfoldable pub lucid_set : Text → Text → List SubjectKeyRow → List SubjectKeyRow
lucid_set id key [] = record { subject_id = id; key = key } ∷ []
lucid_set id key (row ∷ rows) =
    if text_eq row.subject_id id then row ∷ rows else row ∷ lucid_set id key rows

unfoldable pub lucid_delete : Text → List SubjectKeyRow → List SubjectKeyRow
lucid_delete id [] = []
lucid_delete id (row ∷ rows) =
    let rest = lucid_delete id rows in if text_eq row.subject_id id then rest else row ∷ rest

pub lucid-get-set :
    (id other key : Text) (rows : List SubjectKeyRow)
    → lucid_get other (lucid_set id key rows) ≡ (
        if text_eq id other
        then some (or_else (lucid_get other rows) key)
        else lucid_get other rows)
unfolding lucid_get lucid_set
lucid-get-set id other key [] = ground arith
lucid-get-set id other key (row ∷ rows) = ground (
  arith,
  text_eq_iff id other,
  text_eq_iff row.subject_id id,
  text_eq_iff row.subject_id other,
  lucid-get-set id other key rows,
)

pub lucid-get-delete :
    (id other : Text) (rows : List SubjectKeyRow)
    → lucid_get other (lucid_delete id rows)
      ≡ (if text_eq id other then none else lucid_get other rows)
unfolding lucid_get lucid_delete
lucid-get-delete id other [] = ground arith
lucid-get-delete id other (row ∷ rows) = ground (
  arith,
  text_eq_iff id other,
  text_eq_iff row.subject_id id,
  text_eq_iff row.subject_id other,
  lucid-get-delete id other rows,
)

abbrev pub lucid_subject_key_store : SubjectKeyStore (List SubjectKeyRow)
lucid_subject_key_store = record {
  get = lucid_get;
  set = lucid_set;
  delete = lucid_delete;
  get-set = lucid-get-set;
  get-delete = lucid-get-delete;
}
