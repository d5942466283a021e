-- ===== src/Usage/Replays.antt =====
-- Replayed attempt facts in `build_usage_ledger` of eventide/usage.py.
use eventide.Prelude.{
  ◌≡◌, refl, ap, sym, subst, ◌∙◌, ◌==◌, String, List, [], ◌∷◌, Option, none, some, true, false, not,
  Dict, lookup, insert, lookup-insert, ==-refl, arith, string_eq,
}
use eventide.Runtime.{ok, >>=-eq-ok, raise_if-bind, ok-injective}
use eventide.Facts.{
  Fact, Attempt, attempt_eq, model_attempt_started, model_attempt_finished, truthy,
}
use eventide.Store.State.{Event}
use eventide.Usage.Ledger.{
  AttemptKey, Slot, Collected, key_eq, key_of, slot_of, record_of, text_of, conflicts, keep_first,
  put_start, put_finish, add_start, add_finish, collect, collect_all, is_attempt,
}
use eventide.Usage.Kept.{
  Kept, start_of, finish_of, collect_all-Kept, start-Lasts, finish-Lasts, first-kept,
}

insert_same :
    {V : Type 0} (k : AttemptKey) (v : V) (d : Dict AttemptKey V)
    → lookup k d ≡ some v
    → insert k v d ≡ d
insert_same k v [] h = cc
insert_same k v ((j, w) ∷ d) h = ground (arith, insert_same k v d)

lookup-inserted :
    {V : Type 0} (k : AttemptKey) (v : V) (d : Dict AttemptKey V) → lookup k (insert k v d) ≡ some v
lookup-inserted k v d = rw (lookup-insert k k v d, ==-refl k) refl

add_start-Kept :
    (c d : Collected) (new : Slot)
    → add_start c.attempts new ≡ ok d.attempts
    → (slot : Slot) × Kept start_of (key_of new) slot d
      × ((slot.payload == new.payload) ≡ true)
      × (truthy new.payload.attempt_id ≡ true)
unfolding add_start
add_start-Kept c d new h =
    let r = record_of (lookup (key_of new) c.attempts) in
    let (named, h₁) = raise_if-bind (not (truthy new.payload.attempt_id)) _ _ h in
    let (agrees, h₂) = raise_if-bind (conflicts r.start new) _ _ h₁ in
    let (slot, kept, same) = first-kept r.start new agrees in
    (
      slot,
      (
        put_start new r,
        rw (← ok-injective h₂) (lookup-inserted (key_of new) (put_start new r) c.attempts),
        kept,
      ),
      same,
      ground arith,
    )

add_finish-Kept :
    (c d : Collected) (new : Slot)
    → add_finish c.attempts new ≡ ok d.attempts
    → (slot : Slot) × Kept finish_of (key_of new) slot d
      × ((slot.payload == new.payload) ≡ true)
      × (truthy new.payload.attempt_id ≡ true)
unfolding add_finish
add_finish-Kept c d new h =
    let r = record_of (lookup (key_of new) c.attempts) in
    let (named, h₁) = raise_if-bind (not (truthy new.payload.attempt_id)) _ _ h in
    let (agrees, h₂) = raise_if-bind (conflicts r.finish new) _ _ h₁ in
    let (slot, kept, same) = first-kept r.finish new agrees in
    (
      slot,
      (
        put_finish new r,
        rw (← ok-injective h₂) (lookup-inserted (key_of new) (put_finish new r) c.attempts),
        kept,
      ),
      same,
      ground arith,
    )

kept-again :
    (o : Option Slot) (slot new : Slot)
    → o ≡ some slot
    → (slot.payload == new.payload) ≡ true
    → (conflicts o new ≡ false) × (keep_first o new ≡ o)
kept-again none slot new h same = cc
kept-again (some previous) slot new h same = (ground arith, refl)

add_start-again :
    (c : Collected) (slot new : Slot)
    → Kept start_of (key_of new) slot c
    → (slot.payload == new.payload) ≡ true
    → truthy new.payload.attempt_id ≡ true
    → add_start c.attempts new ≡ ok c.attempts
unfolding add_start
add_start-again c slot new (r, there, has_it) same named =
    let (agrees, again) = kept-again r.start slot new has_it same in
    let put : put_start new r ≡ r = ap (λ x. record r { start = x }) again in
    rw (named, there, agrees, put) (ap ok (insert_same (key_of new) r c.attempts there))

add_finish-again :
    (c : Collected) (slot new : Slot)
    → Kept finish_of (key_of new) slot c
    → (slot.payload == new.payload) ≡ true
    → truthy new.payload.attempt_id ≡ true
    → add_finish c.attempts new ≡ ok c.attempts
unfolding add_finish
add_finish-again c slot new (r, there, has_it) same named =
    let (agrees, again) = kept-again r.finish slot new has_it same in
    let put : put_finish new r ≡ r = ap (λ x. record r { finish = x }) again in
    rw (named, there, agrees, put) (ap ok (insert_same (key_of new) r c.attempts there))

-- The key of a copy is that of the event.
same_key :
    (e copy : Event) (a : Attempt)
    → copy.run_id ≡ e.run_id
    → key_of (slot_of e a) ≡ key_of (slot_of copy a)
same_key e copy a h =
    ap (λ o. record { run = text_of o; attempt_id = text_of a.attempt_id }) (sym h)

replayed :
    (runs : List (Option String)) (c d d' : Collected) (e copy : Event) (later : List Event)
    (f : Fact)
    → e.fact ≡ f
    → copy.fact ≡ f
    → copy.run_id ≡ e.run_id
    → is_attempt f ≡ true
    → collect runs c e ≡ ok d
    → collect_all runs d later ≡ ok d'
    → collect runs d' copy ≡ ok d'
unfolding collect
replayed runs c d d' e copy later (model_attempt_started a) eq eq' run t h k =
    let (attempts, done, h₂) =
      >>=-eq-ok (add_start c.attempts (slot_of e a)) _ (rw (eq, collect) at h) in
    let after : attempts ≡ d.attempts = ap (λ (y : Collected). y.attempts) (ok-injective h₂) in
    let (slot, kept, same, named) = add_start-Kept c d (slot_of e a) (done ∙ ap ok after) in
    let kept' =
      collect_all-Kept start_of (key_of (slot_of e a)) slot runs d d' later (start-Lasts slot) kept
        k in
    let there = subst (λ j. Kept start_of j slot d') (same_key e copy a run) kept' in
    rw (eq', collect, add_start-again d' slot (slot_of copy a) there same named) refl
replayed runs c d d' e copy later (model_attempt_finished a) eq eq' run t h k =
    let (attempts, done, h₂) =
      >>=-eq-ok (add_finish c.attempts (slot_of e a)) _ (rw (eq, collect) at h) in
    let after : attempts ≡ d.attempts = ap (λ (y : Collected). y.attempts) (ok-injective h₂) in
    let (slot, kept, same, named) = add_finish-Kept c d (slot_of e a) (done ∙ ap ok after) in
    let kept' =
      collect_all-Kept finish_of (key_of (slot_of e a)) slot runs d d' later (finish-Lasts slot)
        kept k in
    let there = subst (λ j. Kept finish_of j slot d') (same_key e copy a run) kept' in
    rw (eq', collect, add_finish-again d' slot (slot_of copy a) there same named) refl
replayed runs c d d' e copy later f eq eq' run t h k = cc

-- A replayed attempt fact is billed once: where the start or the end of an attempt has been collected, a
-- copy of it, with the same run and payload and whatever other envelope, that comes after whatever other
-- events raises nothing and changes nothing.
pub collect-collect :
    (runs : List (Option String)) (c d d' : Collected) (e copy : Event) (later : List Event)
    → is_attempt e.fact ≡ true
    → copy.fact ≡ e.fact
    → copy.run_id ≡ e.run_id
    → collect runs c e ≡ ok d
    → collect_all runs d later ≡ ok d'
    → collect runs d' copy ≡ ok d'
collect-collect runs c d d' e copy later t same run h k =
    replayed runs c d d' e copy later e.fact refl same run t h k
