-- ===== src/Usage/Kept.antt =====
-- What `build_usage_ledger` of eventide/usage.py has collected of an attempt, whatever follows it.
use eventide.Prelude.{
  ◌≡◌, refl, ap, subst, ◌∙◌, ◌==◌, inl, inr, String, List, [], ◌∷◌, Option, none, some, true, false,
  not, Dict, lookup, insert, lookup-insert, ==-refl, Bool-cases, arith, string_eq, if◌then◌else◌,
}
use eventide.Runtime.{ok, >>=-eq-ok, raise_if-bind, ok-injective}
use eventide.Facts.{
  Fact, Authority, no_authority, malformed, refers, attempt_eq, model_attempt_started,
  model_attempt_finished, model_response, context_summary_generated, truthy,
}
use eventide.Store.State.{Event}
use eventide.Usage.Ledger.{
  AttemptKey, AttemptRecord, Slot, LegacyEvent, Collected, key_eq, key_of, slot_of, record_of,
  conflicts, keep_first, put_start, put_finish, add_start, add_finish, add_response, is_new,
  collect, collect_all,
}

-- The first start of an attempt is kept, whatever is put in its record.
abbrev pub Kept : (AttemptRecord → Option Slot) → AttemptKey → Slot → Collected → Type 0
Kept part k slot c = (r : AttemptRecord) × (lookup k c.attempts ≡ some r) × (part r ≡ some slot)

abbrev pub start_of : AttemptRecord → Option Slot
start_of r = r.start

abbrev pub finish_of : AttemptRecord → Option Slot
finish_of r = r.finish

kept-some : (o : Option Slot) (slot new : Slot) → o ≡ some slot → keep_first o new ≡ some slot
kept-some none slot new h = cc
kept-some (some previous) slot new h = h

-- Another record of an attempt is written, which keeps what the one before it had.
insert-Kept :
    (part : AttemptRecord → Option Slot) (k j : AttemptKey) (slot : Slot) (c d : Collected)
    (new : AttemptRecord)
    → Kept part k slot c
    → (part (record_of (lookup j c.attempts)) ≡ some slot → part new ≡ some slot)
    → insert j new c.attempts ≡ d.attempts
    → Kept part k slot d
insert-Kept part k j slot c d new (r, there, has_it) keeps e = elim (Bool-cases (k == j)) [
  | inl it ↦
      let same : k ≡ j = ground arith in
      let found : lookup j c.attempts ≡ some r = rw (← same) there in
      (new, rw (← e) (rw (lookup-insert j k new c.attempts, it) refl), keeps (rw found has_it))
  | inr other ↦ (r, rw (← e) (rw (lookup-insert j k new c.attempts, other) there), has_it)
]

add_start_after :
    (d d' : Dict AttemptKey AttemptRecord) (slot : Slot)
    → add_start d slot ≡ ok d'
    → insert (key_of slot) (put_start slot (record_of (lookup (key_of slot) d))) d ≡ d'
unfolding add_start
add_start_after d d' slot h =
    let (_, h₁) = raise_if-bind (not (truthy slot.payload.attempt_id)) _ _ h in
    let (_, h₂) =
      raise_if-bind (conflicts (record_of (lookup (key_of slot) d)).start slot) _ _ h₁ in
    ok-injective h₂

add_finish_after :
    (d d' : Dict AttemptKey AttemptRecord) (slot : Slot)
    → add_finish d slot ≡ ok d'
    → insert (key_of slot) (put_finish slot (record_of (lookup (key_of slot) d))) d ≡ d'
unfolding add_finish
add_finish_after d d' slot h =
    let (_, h₁) = raise_if-bind (not (truthy slot.payload.attempt_id)) _ _ h in
    let (_, h₂) =
      raise_if-bind (conflicts (record_of (lookup (key_of slot) d)).finish slot) _ _ h₁ in
    ok-injective h₂

response_attempts :
    (c d : Collected) (e : LegacyEvent) (a : Authority)
    → add_response c e a ≡ ok d
    → c.attempts ≡ d.attempts
unfolding add_response
response_attempts c d e malformed h = cc
response_attempts c d e (refers r) h = ground arith
response_attempts c d e no_authority h = ground arith

same_attempts :
    (part : AttemptRecord → Option Slot) (k : AttemptKey) (slot : Slot) (c d : Collected)
    → Kept part k slot c
    → c.attempts ≡ d.attempts
    → Kept part k slot d
same_attempts part k slot c d (r, there, has_it) e = (r, rw (← e) there, has_it)

-- A part of a record that no later event takes away.
abbrev pub Lasts : (AttemptRecord → Option Slot) → Slot → Type 0
Lasts part slot =
    (new : Slot) (r : AttemptRecord)
    → part r ≡ some slot
    → (part (put_start new r) ≡ some slot) × (part (put_finish new r) ≡ some slot)

skipped_response :
    (runs : List (Option String)) (c d : Collected) (l : LegacyEvent) (run_id : Option String)
    (a : Authority)
    → (if is_new runs run_id then ok c else add_response c l a) ≡ ok d
    → c.attempts ≡ d.attempts
skipped_response runs c d l run_id a h = elim (Bool-cases (is_new runs run_id)) [
  | inl new ↦ ap (λ (x : Collected). x.attempts) (ok-injective (rw new at h))
  | inr old ↦ response_attempts c d l a (rw old at h)
]

collect-Kept :
    (part : AttemptRecord → Option Slot) (k : AttemptKey) (slot : Slot)
    (runs : List (Option String)) (c d : Collected) (x : Event) (f : Fact)
    → Lasts part slot
    → Kept part k slot c
    → x.fact ≡ f
    → collect runs c x ≡ ok d
    → Kept part k slot d
unfolding collect
collect-Kept part k slot runs c d x (model_attempt_started a) lasts kept eq h =
    let h₁ = rw (eq, collect) at h in
    let (attempts, done, h₂) = >>=-eq-ok (add_start c.attempts (slot_of x a)) _ h₁ in
    let after : attempts ≡ d.attempts = ap (λ (y : Collected). y.attempts) (ok-injective h₂) in
    insert-Kept part k (key_of (slot_of x a)) slot c d _ kept (λ p. (lasts (slot_of x a) _ p).0)
      (add_start_after c.attempts attempts (slot_of x a) done ∙ after)
collect-Kept part k slot runs c d x (model_attempt_finished a) lasts kept eq h =
    let h₁ = rw (eq, collect) at h in
    let (attempts, done, h₂) = >>=-eq-ok (add_finish c.attempts (slot_of x a)) _ h₁ in
    let after : attempts ≡ d.attempts = ap (λ (y : Collected). y.attempts) (ok-injective h₂) in
    insert-Kept part k (key_of (slot_of x a)) slot c d _ kept (λ p. (lasts (slot_of x a) _ p).1)
      (add_finish_after c.attempts attempts (slot_of x a) done ∙ after)
collect-Kept part k slot runs c d x (model_response r) lasts kept eq h =
    same_attempts part k slot c d kept
      (skipped_response runs c d _ x.run_id r.authority (rw (eq, collect) at h))
collect-Kept part k slot runs c d x (context_summary_generated r) lasts kept eq h =
    same_attempts part k slot c d kept
      (skipped_response runs c d _ x.run_id r.authority (rw (eq, collect) at h))
collect-Kept part k slot runs c d x _ lasts kept eq h =
    same_attempts part k slot c d kept
      (ap (λ (y : Collected). y.attempts) (ok-injective (rw (eq, collect) at h)))

pub collect_all-Kept :
    (part : AttemptRecord → Option Slot) (k : AttemptKey) (slot : Slot)
    (runs : List (Option String)) (c d : Collected) (events : List Event)
    → Lasts part slot
    → Kept part k slot c
    → collect_all runs c events ≡ ok d
    → Kept part k slot d
unfolding collect_all collect
collect_all-Kept part k slot runs c d [] lasts kept h =
    subst (Kept part k slot) (ok-injective h) kept
collect_all-Kept part k slot runs c d (x ∷ events) lasts kept h = elim (Bool-cases x.partial) [
  | inl skipped ↦
      collect_all-Kept part k slot runs c d events lasts kept (rw (skipped, collect_all) at h)
  | inr whole ↦
      let (c', first, rest) = >>=-eq-ok (collect runs c x) _ (rw (whole, collect_all) at h) in
      collect_all-Kept part k slot runs c' d events lasts
        (collect-Kept part k slot runs c c' x x.fact lasts kept refl first) rest
]

pub start-Lasts : (slot : Slot) → Lasts start_of slot
start-Lasts slot new r h = (kept-some r.start slot new h, h)

pub finish-Lasts : (slot : Slot) → Lasts finish_of slot
finish-Lasts slot new r h = (h, kept-some r.finish slot new h)

pub first-kept :
    (o : Option Slot) (new : Slot)
    → conflicts o new ≡ false
    → (slot : Slot) × (keep_first o new ≡ some slot) × ((slot.payload == new.payload) ≡ true)
first-kept none new h = (new, refl, ==-refl new.payload)
first-kept (some previous) new h = (previous, refl, ground arith)
