-- ===== src/Pipeline/Ring.antt =====
-- The circular buffer holds a queue of events: what the operations of Pipeline.antt do to that queue.
use native.Mathlib.Nat.{mod-eq_of_lt, add-zero, zero-add, mod-lt}
use adonisjs_audit_trail.Common.{
  ℕ, zero, suc, ◌+◌, ◌-◌, ◌%◌, ◌≤◌, ◌<◌, ◌≡◌, ◌≢◌, refl, sym, ap, ap₂, ◌∙◌, none, some, List, [],
  ◌∷◌, ◌++◌, map, arith, set, length, take, get_elem?-set_self, get_elem?-set_ne, length-set,
  length-append,
}
use adonisjs_audit_trail.Types.{AuditEvent}
use adonisjs_audit_trail.Pipeline.{Slot, slot_at, peek_from}

wrap_lt : (c h i : ℕ) → h + i < c → (h + i) % c ≡ h + i
wrap_lt c h i k = mod-eq_of_lt k

wrap_ge : (c h i : ℕ) → h < c → i ≤ c → c ≤ h + i → (h + i) % c ≡ h + i - c
wrap_ge c h i k l m = grind arith

-- Two places of the window fall on one slot only if they are the same place.
wrap_ne : (c h i n : ℕ) → h < c → i < n → n < c → (h + n) % c ≢ (h + i) % c
wrap_ne c h i n k l m = grind (arith, wrap_lt, wrap_ge)

wrap_head_ne : (c h i : ℕ) → h < c → 0 < i → i < c → h ≢ (h + i) % c
wrap_head_ne c h i k l m = grind (arith, wrap_lt, wrap_ge)

wrap_shift : (c h i : ℕ) → h < c → i + 1 < c + 1 → ((h + 1) % c + i) % c ≡ (h + (i + 1)) % c
wrap_shift c h i k l = grind (arith, wrap_lt, wrap_ge)

wrap_suc : (c h n : ℕ) → h < c → n < c → ((h + n) % c + 1) % c ≡ (h + suc n) % c
wrap_suc c h n k l = grind (arith, wrap_lt, wrap_ge)

wrap_head : (c h n : ℕ) → h < c → n < c → (h + suc n) % c ≡ ((h + 1) % c + n) % c
wrap_head c h n k l = grind (arith, wrap_lt, wrap_ge)

length-snoc : (xs : List AuditEvent) (e : AuditEvent) → length (xs ++ e ∷ []) ≡ suc (length xs)
length-snoc xs e = omega (arith, length-append {0} xs (e ∷ []))

map-snoc :
    (xs : List AuditEvent) (e : AuditEvent) → map some (xs ++ e ∷ []) ≡ map some xs ++ some e ∷ []
map-snoc [] e = refl
map-snoc (x ∷ xs) e = ap (◌∷◌ (some x)) (map-snoc xs e)

add-suc-one : (i k : ℕ) → i + 1 + k ≡ i + suc k
add-suc-one i k = omega arith

-- The buffer, its two ends and its size hold the queue `xs`, oldest first.
pub record Holds (capacity : ℕ) (buffer : List Slot) (head tail size : ℕ) (xs : List AuditEvent)
    : Type 0 where
  pub positive : 0 < capacity
  pub sized : size ≡ length xs
  pub bounded : length xs ≤ capacity
  pub allocated : length buffer ≡ capacity
  pub head_in : head < capacity
  pub tail_at : tail ≡ (head + length xs) % capacity
  pub content : peek_from capacity buffer head 0 (length xs) ≡ map some xs

module _ (c : ℕ) where
  slot_at-set_self : (b : List Slot) (i : ℕ) (v : Slot) → i < length b → slot_at (set b i v) i ≡ v
  slot_at-set_self b i v h = rw (get_elem?-set_self b i v h, slot_at)

  slot_at-set_ne :
      (b : List Slot) (i j : ℕ) (v : Slot) → i ≢ j → slot_at (set b i v) j ≡ slot_at b j
  slot_at-set_ne b i j v h = rw (get_elem?-set_ne b i j v h, slot_at)

  -- A write at the place after the window leaves the window.
  peek_from-set :
      (b : List Slot) (h i k n : ℕ) (v : Slot)
      → h < c
      → i + k ≤ n
      → n < c
      → peek_from c (set b ((h + n) % c) v) h i k ≡ peek_from c b h i k
  unfolding peek_from
  peek_from-set b h i zero n v hc le lt = refl
  peek_from-set b h i (suc k) n v hc le lt =
      ap₂ ◌∷◌ (slot_at-set_ne b _ _ v (wrap_ne c h i n hc (omega arith) lt))
        (peek_from-set b h (i + 1) k n v hc (omega arith) lt)

  -- A write at the first place leaves the rest of the window.
  peek_from-set_head :
      (b : List Slot) (h i k : ℕ) (v : Slot)
      → h < c
      → 0 < i
      → i + k ≤ c
      → peek_from c (set b h v) h i k ≡ peek_from c b h i k
  unfolding peek_from
  peek_from-set_head b h i zero v hc pos le = refl
  peek_from-set_head b h i (suc k) v hc pos le =
      ap₂ ◌∷◌ (slot_at-set_ne b _ _ v (wrap_head_ne c h i hc pos (omega arith)))
        (peek_from-set_head b h (i + 1) k v hc (omega arith) (omega arith))

  peek_from-snoc :
      (b : List Slot) (h i k : ℕ)
      → peek_from c b h i (suc k) ≡ peek_from c b h i k ++ slot_at b ((h + (i + k)) % c) ∷ []
  unfolding peek_from
  peek_from-snoc b h i zero = rw (add-zero i)
  peek_from-snoc b h i (suc k) = ap (◌∷◌ (slot_at b ((h + i) % c))) (
      peek_from-snoc b h (i + 1) k
      ∙ ap (λ j. peek_from c b h (i + 1) k ++ slot_at b ((h + j) % c) ∷ []) (add-suc-one i k))

  -- The window that begins one place further on.
  peek_from-shift :
      (b : List Slot) (h i k : ℕ)
      → h < c
      → i + k < c
      → peek_from c b ((h + 1) % c) i k ≡ peek_from c b h (i + 1) k
  unfolding peek_from
  peek_from-shift b h i zero hc le = refl
  peek_from-shift b h i (suc k) hc le =
      ap₂ ◌∷◌ (ap (slot_at b) (wrap_shift c h i hc (omega arith)))
        (peek_from-shift b h (i + 1) k hc (omega arith))

  pub peek_from-take :
      (b : List Slot) (h i m : ℕ) (xs : List AuditEvent)
      → m ≤ length xs
      → peek_from c b h i (length xs) ≡ map some xs
      → peek_from c b h i m ≡ map some (take m xs)
  unfolding peek_from
  peek_from-take b h i zero xs le e = refl
  peek_from-take b h i (suc m) [] le e = absurd (omega arith)
  peek_from-take b h i (suc m) (x ∷ xs) le e =
      ap₂ ◌∷◌ (cc e) (peek_from-take b h (i + 1) m xs (omega arith) (cc e))

  module _ (b : List Slot) (h t n : ℕ) where
    kept :
        (xs : List AuditEvent) (e : AuditEvent)
        → Holds c b h t n xs
        → n < c
        → peek_from c (set b t (some e)) h 0 (length xs) ≡ map some xs
    kept xs e v room =
        rw (v.tail_at) (
          peek_from-set b h 0 (length xs) (length xs) (some e) v.head_in (omega arith)
            (omega (arith, v.sized)))
        ∙ v.content

    stored :
        (xs : List AuditEvent) (e : AuditEvent)
        → Holds c b h t n xs
        → n < c
        → slot_at (set b t (some e)) ((h + (0 + length xs)) % c) ≡ some e
    stored xs e v room =
        ap (λ k. slot_at (set b t (some e)) ((h + k) % c)) (zero-add (length xs))
        ∙ ap (slot_at (set b t (some e))) (sym v.tail_at)
        ∙ slot_at-set_self b t (some e) (rw (v.tail_at, v.allocated) (mod-lt _ v.positive))

    rest :
        (x : AuditEvent) (xs : List AuditEvent)
        → Holds c b h t n (x ∷ xs)
        → peek_from c b h 1 (length xs) ≡ map some xs
    unfolding peek_from
    rest x xs v = cc (v.content)

    pub oldest :
        (x : AuditEvent) (xs : List AuditEvent) → Holds c b h t n (x ∷ xs) → slot_at b h ≡ some x
    unfolding peek_from
    oldest x xs v =
        let place : (h + 0) % c ≡ h = wrap_lt c h 0 (rw (add-zero h) (v.head_in)) ∙ add-zero h in
        let first : slot_at b ((h + 0) % c) ≡ some x = cc (v.content) in
        ap (slot_at b) (sym place) ∙ first

    -- A write at the tail of a buffer that is not full puts the event at the end of the queue.
    pub Holds-store :
        (xs : List AuditEvent) (e : AuditEvent)
        → Holds c b h t n xs
        → n < c
        → Holds c (set b t (some e)) h ((t + 1) % c) (n + 1) (xs ++ e ∷ [])
    Holds-store xs e v room = record {
      positive = v.positive;
      sized = omega (arith, v.sized, length-append {0} xs (e ∷ []));
      bounded = omega (arith, v.sized, length-append {0} xs (e ∷ []));
      allocated = length-set b t (some e) ∙ v.allocated;
      head_in = v.head_in;
      tail_at =
          rw (length-snoc xs e, v.tail_at)
            (wrap_suc c h (length xs) v.head_in (omega (arith, v.sized)));
      content =
          rw (length-snoc xs e, map-snoc xs e)
            (peek_from-snoc (set b t (some e)) h 0 (length xs)
              ∙ ap₂ (λ l s. l ++ s ∷ []) (kept xs e v room) (stored xs e v room));
    }

    -- Emptying the slot at the head takes the oldest event off the queue.
    pub Holds-remove :
        (x : AuditEvent) (xs : List AuditEvent)
        → Holds c b h t n (x ∷ xs)
        → Holds c (set b h none) ((h + 1) % c) t (n - 1) xs
    Holds-remove x xs v = record {
      positive = v.positive;
      sized = omega (arith, v.sized);
      bounded = omega (arith, v.bounded);
      allocated = length-set b h none ∙ v.allocated;
      head_in = mod-lt _ v.positive;
      tail_at = v.tail_at ∙ wrap_head c h (length xs) v.head_in (omega (arith, v.bounded));
      content =
          peek_from-shift (set b h none) h 0 (length xs) v.head_in (omega (arith, v.bounded))
          ∙ peek_from-set_head b h 1 (length xs) none v.head_in (omega arith)
              (omega (arith, v.bounded))
          ∙ rest x xs v;
    }
