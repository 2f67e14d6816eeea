-- ===== src/Pipeline/Queue.antt =====
-- The operations on the circular buffer are those of a queue.
use native.Mathlib.Nat.{mod-eq_of_lt}
use adonisjs_audit_trail.Common.{
  length-replicate, ℕ, zero, suc, ◌+◌, ◌≤◌, ◌<◌, min, ◌≡◌, refl, sym, ap, subst, ◌∙◌, Bool, true,
  false, none, some, List, [], ◌∷◌, ◌++◌, map, inl, inr, arith, length, take, drop, leb, ◌==◌,
  Bool-cases, Option-cases,
}
use adonisjs_audit_trail.Common.Text.{Text}
use adonisjs_audit_trail.Errors.{Result}
use adonisjs_audit_trail.Types.{AuditEvent}
use adonisjs_audit_trail.Pipeline.{
  PipelineConfig, Pipeline, init, accepted, peek_buffer, peek_from, remove_one, remove_rounds,
  remove_buffered, drain_buffer, drop_oldest_event,
}
use adonisjs_audit_trail.Pipeline.Flushing.{flush, store_event, resume}
use adonisjs_audit_trail.Pipeline.Ring.{Holds, Holds-store, Holds-remove, peek_from-take, oldest}

module _ (c : PipelineConfig) where
  abbrev pub IsQueue : Pipeline → List AuditEvent → Type 0
  IsQueue p xs = Holds c.capacity p.buffer p.head p.tail p.size xs

  -- A new pipeline holds the empty queue.
  pub init-IsQueue : 0 < c.capacity → IsQueue (init c) []
  unfolding init peek_from
  init-IsQueue pos = record {
    positive = pos;
    sized = refl;
    bounded = omega arith;
    allocated = length-replicate c.capacity none;
    head_in = pos;
    tail_at = sym (mod-eq_of_lt pos);
    content = refl;
  }

  -- What `#peekBuffer` takes of a queue.
  abbrev pub batch_size : List AuditEvent → ℕ
  batch_size xs = min (length xs) c.max_batch_size

  pub peek_buffer-take :
      (p : Pipeline) (xs : List AuditEvent)
      → IsQueue p xs
      → peek_buffer c p ≡ map some (take (batch_size xs) xs)
  unfolding peek_buffer
  peek_buffer-take p xs v =
      rw (v.sized)
        (peek_from-take c.capacity p.buffer p.head 0 (batch_size xs) xs (omega arith) v.content)

  pub remove_rounds-drop :
      (n : ℕ) (p : Pipeline) (xs : List AuditEvent)
      → IsQueue p xs
      → n ≤ length xs
      → IsQueue (remove_rounds c n p) (drop n xs)
  unfolding remove_rounds
  remove_rounds-drop zero p xs v le = v
  remove_rounds-drop (suc n) p [] v le = absurd (omega arith)
  remove_rounds-drop (suc n) p (x ∷ xs) v le =
      remove_rounds-drop n (remove_one c p) xs
        (Holds-remove c.capacity p.buffer p.head p.tail p.size x xs v) (omega arith)

  pub length-map-take :
      (n : ℕ) (xs : List AuditEvent) → n ≤ length xs → length (map some (take n xs)) ≡ n
  length-map-take zero xs le = refl
  length-map-take (suc n) [] le = absurd (omega arith)
  length-map-take (suc n) (x ∷ xs) le = ap suc (length-map-take n xs (omega arith))

  -- Of a buffer that holds a queue, `#drainBuffer` takes the oldest events in order, as many as there are up
  -- to `maxBatchSize`, and leaves a buffer that holds the others, wherever in the array the queue begins.
  pub drain_buffer-IsQueue :
      (p : Pipeline) (xs : List AuditEvent)
      → IsQueue p xs
      → ((drain_buffer c p).0 ≡ map some (take (batch_size xs) xs))
        × IsQueue (drain_buffer c p).1 (drop (batch_size xs) xs)
  unfolding drain_buffer remove_buffered
  drain_buffer-IsQueue p xs v =
      let same = peek_buffer-take p xs v in
      let count : length (peek_buffer c p) ≡ batch_size xs =
        ap length same ∙ length-map-take (batch_size xs) xs (omega arith) in
      (
        same,
        subst (λ n. IsQueue (remove_rounds c n p) (drop (batch_size xs) xs)) (sym count)
            (remove_rounds-drop (batch_size xs) p xs v (omega arith)),
      )

  -- Of a buffer that holds a queue, `#dropOldest` takes the oldest event and leaves the others.
  pub drop_oldest_event-IsQueue :
      (p : Pipeline) (x : AuditEvent) (xs : List AuditEvent)
      → IsQueue p (x ∷ xs)
      → ((drop_oldest_event c p).0 ≡ some x) × IsQueue (drop_oldest_event c p).1 xs
  unfolding drop_oldest_event
  drop_oldest_event-IsQueue p x xs v = (
    oldest c.capacity p.buffer p.head p.tail p.size x xs v,
    Holds-remove c.capacity p.buffer p.head p.tail p.size x xs v,
  )

  module _ (route : AuditEvent → Result Text) where
    flush-IsQueue :
        (p : Pipeline) (xs : List AuditEvent) → IsQueue p xs → IsQueue (flush c route p) xs
    unfolding flush
    flush-IsQueue p xs v = elim (Option-cases p.active) [
      | inr (f, e) ↦ rw (e, flush) v
      | inl e ↦ rw (e, flush) (elim (Bool-cases (p.size == 0)) [ inl z ↦ rw z v | inr z ↦ rw z v ])
    ]

    store_event-IsQueue :
        (b : Bool) (event : AuditEvent) (p : Pipeline) (xs : List AuditEvent)
        → b ≡ true
        → IsQueue p xs
        → p.size < c.capacity
        → ((store_event c route b event p).0 ≡ accepted)
          × IsQueue (store_event c route b event p).1 (xs ++ event ∷ [])
    unfolding store_event
    store_event-IsQueue false event p xs e v lt = cc
    store_event-IsQueue true event p xs e v lt =
        let w = Holds-store c.capacity p.buffer p.head p.tail p.size xs event v lt in
        (
          refl,
          elim (Bool-cases (leb c.max_batch_size (p.size + 1))) [
            | inl full ↦ rw full (flush-IsQueue _ (xs ++ event ∷ []) w)
            | inr room ↦ rw room w
          ],
        )

    -- While the pipeline accepts events and its buffer is not full, `enqueue` accepts the event and puts it
    -- at the end of the queue, whether or not it begins a flush.
    pub resume-IsQueue :
        (event : AuditEvent) (p : Pipeline) (xs : List AuditEvent)
        → p.accepting ≡ true
        → IsQueue p xs
        → p.size < c.capacity
        → ((resume c route event p).0 ≡ accepted)
          × IsQueue (resume c route event p).1 (xs ++ event ∷ [])
    unfolding resume
    resume-IsQueue event p xs a v lt =
        let room : leb c.capacity p.size ≡ false = ground arith in
        rw (room, resume) (store_event-IsQueue p.accepting event p xs a v lt)
