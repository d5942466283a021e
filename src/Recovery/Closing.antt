-- ===== src/Recovery/Closing.antt =====
-- What the facts of `_recovery_facts` in eventide/host.py close.
use eventide.Prelude.{
  ℕ, ◌+◌, ◌≡◌, refl, ◌∙◌, ap, String, List, [], ◌∷◌, ◌++◌, Bool, false, not, ◌&&◌, any, any-append,
  Dict, remove, has, string_eq, ◌==◌, ==-refl, arith,
}
use eventide.Store.State.{contains}
use eventide.Messages.{remove_id}
use eventide.Recovery.{
  HistoryFact, tool_abandoned, approval_resolved, HistoryEvent, OpenWork, note_fact, note_events,
  Written, abandon, resolve, nothing_open, recovery_facts,
}
use eventide.Store.Sets.{sorted, contains-sorted}
use eventide.Recovery.Words.{
  waits, is_open, note_events-Knows, note_events-append, contains-remove_id,
}

-- The log when the facts have been written from this number on.
abbrev pub events_from : ℕ → List Written → List HistoryEvent
events_from n [] = []
events_from n (w ∷ ws) =
    record { partial = false; session_seq = n; fact = w.fact } ∷ events_from (n + 1) ws

events_from-append :
    (n : ℕ) (w : OpenWork) (us vs : List Written)
    → (m : ℕ) × (note_events w (events_from n (us ++ vs))
        ≡ note_events (note_events w (events_from n us)) (events_from m vs))
events_from-append n w [] vs = (n, refl)
events_from-append n w (u ∷ us) vs = events_from-append (n + 1) (note_fact u.fact w) us vs

remove_head : (k n : String) (d : Dict String String) → remove k ((k, n) ∷ d) ≡ d
remove_head k n d = rw (==-refl k) refl

note-abandon :
    (content : String) (n : ℕ) (d : Dict String String) (ids : List String)
    → note_events (record { pending = d; approvals = ids }) (events_from n (abandon content d))
      ≡ record { pending = []; approvals = ids }
unfolding note_fact
note-abandon content n [] ids = refl
note-abandon content n ((identity, name) ∷ d) ids =
    ap
      (λ p.
        note_events (record { pending = p; approvals = ids })
          (events_from (n + 1) (abandon content d)))
      (remove_head identity name d)
    ∙ note-abandon content (n + 1) d ids

-- The ids that are left when others are resolved.
left : List String → List String → List String
left [] ids = ids
left (i ∷ is) ids = left is (remove_id i ids)

contains-left :
    (k : String) (is ids : List String)
    → contains k (left is ids) ≡ (not (contains k is) && contains k ids)
unfolding left
contains-left k [] ids = refl
contains-left k (i ∷ is) ids =
    ground (arith, contains-left k is (remove_id i ids), contains-remove_id k i ids)

note-resolve :
    (n : ℕ) (is ids : List String)
    → note_events (record { pending = []; approvals = ids }) (events_from n (resolve is))
      ≡ record { pending = []; approvals = left is ids }
unfolding note_fact left
note-resolve n [] ids = refl
note-resolve n (i ∷ is) ids = note-resolve (n + 1) is (remove_id i ids)

none_left : (ids : List String) → ((k : String) → contains k ids ≡ false) → ids ≡ []
none_left [] h = refl
none_left (i ∷ ids) h = absurd (ground (arith, h i, ==-refl i))

abbrev pub abandons_it : String → HistoryFact → Bool
abandons_it k (tool_abandoned a) = k == a.call_id
abandons_it k _ = false

abbrev pub resolves_it : String → HistoryFact → Bool
resolves_it k (approval_resolved r) = k == r.approval_id && not r.approved
resolves_it k _ = false

abbrev pub abandons : String → List Written → Bool
abandons k = any (λ (w : Written). abandons_it k w.fact)

abbrev pub rejects : String → List Written → Bool
rejects k = any (λ (w : Written). resolves_it k w.fact)

-- Exactly the calls and the approvals on which the log's last word is that they are open are closed, and
-- when the facts are in the log, from whatever number on, nothing is left to be closed.
abbrev pub Closes : List HistoryEvent → List Written → Type 0
Closes events facts =
    ((call_id : String) → abandons call_id facts ≡ waits call_id events)
    × ((approval_id : String) → rejects approval_id facts ≡ is_open approval_id events)
    × ((n : ℕ) (content : String) → recovery_facts (events ++ events_from n facts) content ≡ [])

abandons-abandon :
    (k content : String) (d : Dict String String) → abandons k (abandon content d) ≡ has k d
abandons-abandon k content [] = refl
abandons-abandon k content ((i, n) ∷ d) = ground (arith, abandons-abandon k content d)

abandons-resolve : (k : String) (ids : List String) → abandons k (resolve ids) ≡ false
abandons-resolve k [] = refl
abandons-resolve k (i ∷ ids) = abandons-resolve k ids

rejects-abandon :
    (k content : String) (d : Dict String String) → rejects k (abandon content d) ≡ false
rejects-abandon k content [] = refl
rejects-abandon k content ((i, n) ∷ d) = rejects-abandon k content d

rejects-resolve : (k : String) (ids : List String) → rejects k (resolve ids) ≡ contains k ids
rejects-resolve k [] = refl
rejects-resolve k (i ∷ ids) = ground (arith, rejects-resolve k ids)

left-sorted : (ids : List String) → left (sorted ids) ids ≡ []
left-sorted ids =
    none_left (left (sorted ids) ids)
      (λ k. ground (arith, contains-left k (sorted ids) ids, contains-sorted k ids))

note-recovery_facts :
    (w : OpenWork) (content : String) (n : ℕ)
    → note_events w (events_from n (abandon content w.pending ++ resolve (sorted w.approvals)))
      ≡ nothing_open
note-recovery_facts w content n =
    let (m, split) =
      events_from-append n w (abandon content w.pending) (resolve (sorted w.approvals)) in
    split
    ∙ ap (λ v. note_events v (events_from m (resolve (sorted w.approvals))))
        (note-abandon content n w.pending w.approvals)
    ∙ note-resolve m (sorted w.approvals) w.approvals
    ∙ ap (λ ids. record { pending = []; approvals = ids }) (left-sorted w.approvals)

-- Recovery closes what is open, and all of it: of a log, whatever it holds, exactly those calls are
-- abandoned that the last fact about them, partial ones aside, makes, and exactly those approvals
-- rejected that the last fact about them asks for. When these facts are written after the log, a
-- second recovery has nothing to write.
pub recovery_facts-Closes :
    (events : List HistoryEvent) (content : String) → Closes events (recovery_facts events content)
unfolding recovery_facts sorted
recovery_facts-Closes events content =
    let w = note_events nothing_open events in
    let calls = abandon content w.pending in
    let approvals = resolve (sorted w.approvals) in
    let (kept, calls_word, approvals_word) = note_events-Knows events nothing_open tt in
    (
      (λ k.
          any-append (λ v. abandons_it k v.fact) calls approvals
          ∙ ground (
            arith,
            abandons-abandon k content w.pending,
            abandons-resolve k (sorted w.approvals),
            calls_word k,
          )),
      (λ k.
          any-append (λ v. resolves_it k v.fact) calls approvals
          ∙ ground (
            arith,
            rejects-abandon k content w.pending,
            rejects-resolve k (sorted w.approvals),
            contains-sorted k w.approvals,
            approvals_word k,
          )),
      (λ n later.
          ap (λ v. abandon later v.pending ++ resolve (sorted v.approvals))
            (note_events-append nothing_open events (events_from n (calls ++ approvals))
              ∙ note-recovery_facts w content n)),
    )
