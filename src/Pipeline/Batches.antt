-- ===== src/Pipeline/Batches.antt =====
-- A flush from its begin to its end: which events it hands to the stores or to the dead-letter handler.
use adonisjs_audit_trail.Common.{
  ℕ, zero, suc, ◌+◌, ◌<◌, ◌≤◌, ◌≡◌, ◌⊎◌, refl, sym, ap, subst, ◌∙◌, Bool, true, false, none, some,
  List, [], ◌∷◌, ◌++◌, map, inl, inr, arith, length, take, drop, Bool-cases, Option-cases,
  if◌then◌else◌, leb, ◌==◌,
}
use adonisjs_audit_trail.Common.Text.{Text}
use adonisjs_audit_trail.Common.Dict.{Dict, lookup, insert}
use adonisjs_audit_trail.Errors.{Result, ok, ◌>>=◌, ok-injective, >>=-eq-ok}
use adonisjs_audit_trail.Types.{AuditEvent}
use adonisjs_audit_trail.Pipeline.{
  PipelineConfig, Slot, writing, finished, Pipeline, Effect, drops, dead_letters, delivers,
  resolves, times_out, peek_buffer, remove_buffered,
}
use adonisjs_audit_trail.Pipeline.Coupled.{cleanup, collect_calls, resolve_each, resolve_coupled}
use adonisjs_audit_trail.Pipeline.Retry.{max_attempts, write_rounds, write_with_retry}
use adonisjs_audit_trail.Pipeline.Flushing.{
  add_to_group, group_by_store, flush, after_group, settle_group, settle_active, settle,
}
use adonisjs_audit_trail.Pipeline.Queue.{
  IsQueue, batch_size, peek_buffer-take, remove_rounds-drop, length-map-take,
}

length-take_min : (n : ℕ) (xs : List AuditEvent) → length (take n xs) ≤ n
length-take_min zero xs = omega arith
length-take_min (suc n) [] = omega arith
length-take_min (suc n) (x ∷ xs) = omega (arith, length-take_min n xs)

module _ (P : AuditEvent → Bool) where
  -- How many events satisfy the test.
  abbrev pub tally : List AuditEvent → ℕ
  tally [] = 0
  tally (e ∷ es) = (if P e then 1 else 0) + tally es

  abbrev pub tally_slots : List Slot → ℕ
  tally_slots [] = 0
  tally_slots (none ∷ ss) = tally_slots ss
  tally_slots (some e ∷ ss) = (if P e then 1 else 0) + tally_slots ss

  abbrev pub tally_groups : Dict (List AuditEvent) → ℕ
  tally_groups [] = 0
  tally_groups ((name, events) ∷ groups) = tally events + tally_groups groups

  -- Of what a store took or the dead-letter handler got.
  abbrev pub tally_handled : List Effect → ℕ
  tally_handled [] = 0
  tally_handled (delivers name events ∷ effects) = tally events + tally_handled effects
  tally_handled (dead_letters slots ∷ effects) = tally_slots slots + tally_handled effects
  tally_handled (drops slot ∷ effects) = tally_handled effects
  tally_handled (resolves call ∷ effects) = tally_handled effects
  tally_handled (times_out call ∷ effects) = tally_handled effects

  tally-append : (xs ys : List AuditEvent) → tally (xs ++ ys) ≡ tally xs + tally ys
  tally-append [] ys = omega arith
  tally-append (x ∷ xs) ys = omega (arith, tally-append xs ys)

  tally_slots-map : (xs : List AuditEvent) → tally_slots (map some xs) ≡ tally xs
  tally_slots-map [] = refl
  tally_slots-map (x ∷ xs) = omega (arith, tally_slots-map xs)

  tally_handled-append :
      (es fs : List Effect) → tally_handled (es ++ fs) ≡ tally_handled es + tally_handled fs
  tally_handled-append [] fs = omega arith
  tally_handled-append (delivers n x ∷ es) fs = omega (arith, tally_handled-append es fs)
  tally_handled-append (dead_letters x ∷ es) fs = omega (arith, tally_handled-append es fs)
  tally_handled-append (drops x ∷ es) fs = tally_handled-append es fs
  tally_handled-append (resolves x ∷ es) fs = tally_handled-append es fs
  tally_handled-append (times_out x ∷ es) fs = tally_handled-append es fs

  tally-insert_new :
      (name : Text) (events : List AuditEvent) (groups : Dict (List AuditEvent))
      → lookup name groups ≡ none
      → tally_groups (insert name events groups) ≡ tally events + tally_groups groups
  unfolding lookup insert
  tally-insert_new name events [] h = omega arith
  tally-insert_new name events ((k, v) ∷ groups) h =
      ground (arith, tally-insert_new name events groups)

  tally-insert_old :
      (name : Text) (old events : List AuditEvent) (groups : Dict (List AuditEvent))
      → lookup name groups ≡ some old
      → tally_groups (insert name events groups) + tally old ≡ tally events + tally_groups groups
  unfolding lookup insert
  tally-insert_old name old events [] h = cc
  tally-insert_old name old events ((k, v) ∷ groups) h =
      ground (arith, tally-insert_old name old events groups)

  tally-add_to_group :
      (event : AuditEvent) (name : Text) (groups : Dict (List AuditEvent))
      → tally_groups (add_to_group event name groups) ≡ tally_groups groups + tally (event ∷ [])
  unfolding add_to_group
  tally-add_to_group event name groups = elim (Option-cases (lookup name groups)) [
    | inl e ↦ rw (e, add_to_group) (omega (arith, tally-insert_new name (event ∷ []) groups e))
    | inr (old, e) ↦
        rw (e, add_to_group)
          (omega (
            arith,
            tally-insert_old name old (old ++ event ∷ []) groups e,
            tally-append old (event ∷ []),
          ))
  ]

  tally-group_by_store :
      (c : PipelineConfig) (route : AuditEvent → Result Text) (batch : List Slot)
      (groups done : Dict (List AuditEvent))
      → group_by_store c route batch groups ≡ ok done
      → tally_groups done ≡ tally_groups groups + tally_slots batch
  unfolding group_by_store
  tally-group_by_store c route [] groups done h = omega (arith, ap tally_groups (ok-injective h))
  tally-group_by_store c route (none ∷ batch) groups done h = cc
  tally-group_by_store c route (some event ∷ batch) groups done h =
      let (name, e, rest) = >>=-eq-ok (route event) _ h in
      omega (
        arith,
        tally-group_by_store c route batch (add_to_group event name groups) done rest,
        tally-add_to_group event name groups,
      )

  module _ (c : PipelineConfig) where
    -- The state still has the queue, and the effects are of so many events.
    record Handled (n : ℕ) (xs : List AuditEvent) (q : Pipeline) (effects : List Effect)
        : Type 0 where
      queue : IsQueue c q xs
      events : tally_handled effects ≡ n

    resolve_each-Handled :
        (calls : List ℕ) (p : Pipeline) (xs : List AuditEvent)
        → IsQueue c p xs
        → Handled 0 xs (resolve_each calls p).0 (resolve_each calls p).1
    unfolding resolve_each
    resolve_each-Handled [] p xs v = record { queue = v; events = refl }
    resolve_each-Handled (call ∷ calls) p xs v =
        let h = resolve_each-Handled calls (cleanup call p) xs v in
        record { queue = h.queue; events = h.events }

    resolved-Handled :
        (done : Bool) (ids : List Text) (p : Pipeline) (xs : List AuditEvent)
        → IsQueue c p xs
        → Handled 0 xs
            (if done then resolve_coupled ids p else (p, [])).0
            (if done then resolve_coupled ids p else (p, [])).1
    unfolding resolve_coupled
    resolved-Handled false ids p xs v = record { queue = v; events = refl }
    resolved-Handled true ids p xs v =
        let (calls, m) = collect_calls ids p.coupled [] in
        let h = resolve_each-Handled calls (record p { coupled = m }) xs v in
        record { queue = h.queue; events = h.events }

    write_rounds-Handled :
        (n attempts : ℕ) (accepts : ℕ → Bool) (name : Text) (batch : List AuditEvent) (p : Pipeline)
        (xs : List AuditEvent)
        → 0 < n
        → n + attempts ≡ max_attempts
        → IsQueue c p xs
        → Handled
            (tally batch)
            xs
            (write_rounds n attempts accepts name batch p).1
            (write_rounds n attempts accepts name batch p).2
    unfolding write_rounds
    write_rounds-Handled zero attempts accepts name batch p xs pos e v = absurd (omega arith)
    write_rounds-Handled (suc n) attempts accepts name batch p xs pos e v =
        elim (Bool-cases (accepts attempts)) [
          | inl yes_ ↦ rw (yes_, write_rounds) (record { queue = v; events = omega arith })
          | inr no_ ↦
              rw (no_, write_rounds)
                (elim (Bool-cases (leb max_attempts (attempts + 1))) [
                  | inl last ↦
                      rw last (record { queue = v; events = omega (arith, tally_slots-map batch) })
                  | inr more ↦ rw more (
                      write_rounds-Handled n (attempts + 1) accepts name batch
                        (record p { retried = p.retried + 1 }) xs (ground arith) (omega arith) v)
                ])
        ]

    module _ (route : AuditEvent → Result Text) where
      -- The writes of a flush one after the other: what each store answers.
      unfoldable pub settle_each : List (ℕ → Bool) → Pipeline → Pipeline × List Effect
      unfolding settle
      settle_each [] p = (p, [])
      settle_each (accepts ∷ answers) p =
          let (q, effects) = settle c route accepts p in
          let (q', rest) = settle_each answers q in (q', effects ++ rest)

      settle_each-finished :
          (answers : List (ℕ → Bool)) (p : Pipeline)
          → p.active ≡ some finished
          → settle_each answers p ≡ (p, [])
      unfolding settle_each settle
      settle_each-finished [] p e = refl
      settle_each-finished (accepts ∷ answers) p e =
          ap
            (λ f.
              let (q, effects) = settle_active c route accepts f p in
              let (q', rest) = settle_each answers q in (q', effects ++ rest))
            e
          ∙ ap (λ z. (z.0, z.1)) (settle_each-finished answers p e)

      record Went (accepts : ℕ → Bool) (groups : Dict (List AuditEvent)) (n : ℕ)
          (xs : List AuditEvent) (p : Pipeline) : Type 0 where
        now : ℕ
        handled : tally_handled (settle_group c route accepts groups n p).1 ≡ now
        after :
            (((settle_group c route accepts groups n p).0.active ≡ some finished)
              × IsQueue c (settle_group c route accepts groups n p).0 (drop n xs)
              × (now ≡ tally_groups groups))
            ⊎ ((rest : Dict (List AuditEvent)) × ((settle_group c route accepts groups n p).0.active
                  ≡ some (writing rest n))
                × IsQueue c (settle_group c route accepts groups n p).0 xs
                × (now + tally_groups rest ≡ tally_groups groups))

      settle_group-Went :
          (accepts : ℕ → Bool) (groups : Dict (List AuditEvent)) (n : ℕ) (xs : List AuditEvent)
          (p : Pipeline)
          → IsQueue c p xs
          → n ≤ length xs
          → Went accepts groups n xs p
      unfolding settle_group after_group remove_buffered write_with_retry
      settle_group-Went accepts [] n xs p v le = record {
        now = 0;
        handled = refl;
        after = inl (refl, remove_rounds-drop c n p xs v le, refl);
      }
      settle_group-Went accepts ((name, events) ∷ rest) n xs p v le =
          let w = write_rounds-Handled 5 0 accepts name events p xs (omega arith) (omega arith) v in
          let (done, q, effects) = write_rounds 5 0 accepts name events p in
          let r = resolved-Handled done (map (λ e. e.id) events) q xs w.queue in
          let (q', resolved) =
            (if done then resolve_coupled (map (λ e. e.id) events) q else (q, [])) in
          record {
            now = tally events;
            handled = omega (arith, tally_handled-append effects resolved, w.events, r.events);
            after = ended rest q' r.queue;
          }
        where
          ended :
              (rest : Dict (List AuditEvent)) (q : Pipeline)
              → IsQueue c q xs
              → (((after_group c route rest n q).active ≡ some finished)
                  × IsQueue c (after_group c route rest n q) (drop n xs)
                  × (tally events ≡ tally events + tally_groups rest))
                ⊎ ((left : Dict (List AuditEvent)) × ((after_group c route rest n q).active
                      ≡ some (writing left n))
                    × IsQueue c (after_group c route rest n q) xs
                    × (tally events + tally_groups left ≡ tally events + tally_groups rest))
          ended [] q u = inl (refl, remove_rounds-drop c n q xs u le, omega arith)
          ended (g ∷ gs) q u = inr (g ∷ gs, refl, u, refl)

      settle_each-Handled :
          (answers : List (ℕ → Bool)) (groups : Dict (List AuditEvent)) (n : ℕ)
          (xs : List AuditEvent) (p : Pipeline)
          → p.active ≡ some (writing groups n)
          → IsQueue c p xs
          → n ≤ length xs
          → (settle_each answers p).0.active ≡ some finished
          → Handled
              (tally_groups groups)
              (drop n xs)
              (settle_each answers p).0
              (settle_each answers p).1
      unfolding settle_each settle
      settle_each-Handled [] groups n xs p e v le h = cc
      settle_each-Handled (accepts ∷ answers) groups n xs p e v le h =
          let open_ = ap (λ f. settle_active c route accepts f p) e in
          let w = settle_group-Went accepts groups n xs p v le in
          let (q, effects) = settle_group c route accepts groups n p in
          elim w.after [
            | inl (ended, queue, all) ↦
                rw (open_, settle_each-finished answers q ended)
                  (record {
                    queue = queue;
                    events = omega (arith, tally_handled-append effects [], w.handled, all);
                  })
            | inr (rest, going, queue, left) ↦
                let h' = rw open_ at h in
                let ih = settle_each-Handled answers rest n xs q going queue le h' in
                rw open_ (record {
                  queue = ih.queue;
                  events = omega (
                    arith,
                    tally_handled-append effects (settle_each answers q).1,
                    ih.events,
                    w.handled,
                    left,
                  );
                })
          ]

      settle_group-active :
          (accepts : ℕ → Bool) (groups : Dict (List AuditEvent)) (n : ℕ) (p : Pipeline)
          → ((settle_group c route accepts groups n p).0.active ≡ some finished)
            ⊎ ((rest : Dict (List AuditEvent)) × ((settle_group c route accepts groups n p).0.active
                  ≡ some (writing rest n))
                × (length rest + 1 ≡ length groups)
                × (0 < length rest))
      unfolding settle_group after_group
      settle_group-active accepts [] n p = inl refl
      settle_group-active accepts (g ∷ []) n p = inl refl
      settle_group-active accepts (g ∷ h ∷ rest) n p =
          inr (h ∷ rest, refl, omega arith, omega arith)

      -- One answer for each group is enough.
      settle_each-ends :
          (answers : List (ℕ → Bool)) (groups : Dict (List AuditEvent)) (n : ℕ) (p : Pipeline)
          → p.active ≡ some (writing groups n)
          → length groups ≤ length answers
          → 0 < length answers
          → (settle_each answers p).0.active ≡ some finished
      unfolding settle_each settle
      settle_each-ends [] groups n p e le pos = absurd (omega arith)
      settle_each-ends (accepts ∷ answers) groups n p e le pos =
          let open_ = ap (λ f. settle_active c route accepts f p) e in
          let q = (settle_group c route accepts groups n p).0 in
          ap (λ z. (settle_each answers z.0).0.active) open_
          ∙ elim (settle_group-active accepts groups n p) [
            | inl ended ↦ ap (λ z. z.0.active) (settle_each-finished answers q ended) ∙ ended
            | inr (rest, going, fewer, more) ↦
                settle_each-ends answers rest n q going (omega arith) (omega arith)
          ]

      length-insert :
          (name : Text) (events : List AuditEvent) (groups : Dict (List AuditEvent))
          → length (insert name events groups) ≤ length groups + 1
      unfolding insert
      length-insert name events [] = omega arith
      length-insert name events ((k, v) ∷ groups) = ground (arith, length-insert name events groups)

      length-add_to_group :
          (event : AuditEvent) (name : Text) (groups : Dict (List AuditEvent))
          → length (add_to_group event name groups) ≤ length groups + 1
      unfolding add_to_group
      length-add_to_group event name groups = elim (Option-cases (lookup name groups)) [
        | inl e ↦ rw (e, add_to_group) (length-insert name (event ∷ []) groups)
        | inr (old, e) ↦ rw (e, add_to_group) (length-insert name (old ++ event ∷ []) groups)
      ]

      module _ (routed : (e : AuditEvent) → (name : Text) × (route e ≡ ok name)) where
        grouped :
            (ys : List AuditEvent) (groups : Dict (List AuditEvent))
            → (done : Dict (List AuditEvent)) × (group_by_store c route (map some ys) groups
                ≡ ok done)
              × (length done ≤ length groups + length ys)
        unfolding group_by_store
        grouped [] groups = (groups, refl, omega arith)
        grouped (y ∷ ys) groups =
            let (name, e) = routed y in
            let (done, d, fewer) = grouped ys (add_to_group y name groups) in
            (
              done,
              ap (λ r. r >>= λ n. group_by_store c route (map some ys) (add_to_group y n groups)) e
                  ∙ d,
              omega (arith, fewer, length-add_to_group y name groups),
            )

        -- Let the buffer hold a queue that is not empty, let no flush be active and let each event have a store. The
        -- flush that then begins ends after as many writes as its batch, the oldest events up to `maxBatchSize`, has
        -- events, or fewer, whatever the stores answer at each attempt. The stores and the dead-letter handler
        -- together have then got each event of the batch exactly as often as it is in the batch and no other event,
        -- and the buffer holds the other events in their order. Events that arrive meanwhile are left out, and the
        -- dead-letter handler is taken to return.
        pub flush-tally :
            (p : Pipeline) (x : AuditEvent) (xs : List AuditEvent) (answers : List (ℕ → Bool))
            → p.active ≡ none
            → IsQueue c p (x ∷ xs)
            → batch_size c (x ∷ xs) ≤ length answers
            → 0 < length answers
            → ((settle_each answers (flush c route p)).0.active ≡ some finished)
              × (tally_handled (settle_each answers (flush c route p)).1
                  ≡ tally (take (batch_size c (x ∷ xs)) (x ∷ xs)))
              × IsQueue c
                  (settle_each answers (flush c route p)).0
                  (drop (batch_size c (x ∷ xs)) (x ∷ xs))
        unfolding flush
        flush-tally p x xs answers idle v enough pos =
            let m = batch_size c (x ∷ xs) in
            let same = peek_buffer-take c p (x ∷ xs) v in
            let count : length (peek_buffer c p) ≡ m =
              ap length same ∙ length-map-take c m (x ∷ xs) (omega arith) in
            let (done, d, fewer) = grouped (take m (x ∷ xs)) [] in
            let g : group_by_store c route (peek_buffer c p) [] ≡ ok done =
              ap (λ b. group_by_store c route b []) same ∙ d in
            let some_left : (p.size == 0) ≡ false = ground (arith, v.sized) in
            let begun : flush c route p
                ≡ record p { active = some (writing done (length (peek_buffer c p))) } =
              rw (idle, flush, some_left, g) refl in
            let q = record p { active = some (writing done (length (peek_buffer c p))) } in
            let ended =
              settle_each-ends answers done (length (peek_buffer c p)) q refl
                (omega (arith, fewer, enough, length-take_min m (x ∷ xs))) pos in
            let k =
              settle_each-Handled answers done (length (peek_buffer c p)) (x ∷ xs) q refl v
                (omega (arith, count)) ended in
            let all = tally-group_by_store c route (peek_buffer c p) [] done g in
            subst
              (λ z.
                ((settle_each answers z).0.active ≡ some finished)
                × (tally_handled (settle_each answers z).1 ≡ tally (take m (x ∷ xs)))
                × IsQueue c (settle_each answers z).0 (drop m (x ∷ xs)))
              (sym begun)
              (
                ended,
                omega
                    (arith, k.events, all, ap tally_slots same, tally_slots-map (take m (x ∷ xs))),
                subst (λ n. IsQueue c (settle_each answers q).0 (drop n (x ∷ xs))) count k.queue,
              )
