-- ===== src/Recovery/Words.antt =====
-- The last word of a log on a call and on an approval, and the walk of `_recovery_facts` in
-- eventide/host.py, which keeps those that are open.
use eventide.Prelude.{
  ◌≡◌, refl, sym, ◌∙◌, ap, inl, inr, String, List, [], ◌∷◌, ◌++◌, Option, none, some, Bool, true,
  false, not, ◌&&◌, ◌||◌, Dict, insert, remove, has, IsDict, lookup-insert, string_eq,
  if◌then◌else◌, ◌==◌, Bool-cases, arith,
}
use eventide.Store.State.{contains}
use eventide.Store.Sets.{contains-add_id}
use eventide.Messages.{remove_id}
use eventide.Recovery.{
  ReplyBlock, tool_use, other_block, HistoryFact, responded, tool_completed, tool_abandoned,
  approval_required, approval_resolved, HistoryEvent, OpenWork, add_calls, note_fact, note_event,
  note_events,
}

abbrev pub names : String → List ReplyBlock → Bool
names k [] = false
names k (tool_use identity name ∷ bs) = k == identity || names k bs
names k (other_block kind ∷ bs) = names k bs

-- What a fact says of a call: that it waits for a result, that it does not, or nothing.
abbrev pub call_word : String → HistoryFact → Option Bool
call_word k (responded bs) = if names k bs then some true else none
call_word k (tool_completed call_id) = if k == call_id then some false else none
call_word k (tool_abandoned a) = if k == a.call_id then some false else none
call_word k _ = none

abbrev pub approval_word : String → HistoryFact → Option Bool
approval_word k (approval_required approval_id) = if k == approval_id then some true else none
approval_word k (approval_resolved r) = if k == r.approval_id then some false else none
approval_word k _ = none

abbrev pub or_before : Option Bool → Option Bool → Option Bool
or_before none before = before
or_before (some b) before = some b

abbrev pub unless_partial : HistoryEvent → Option Bool → Option Bool
unless_partial e word = if e.partial then none else word

-- The last word of a log, by events that are not partial.
abbrev pub last_word : (HistoryFact → Option Bool) → List HistoryEvent → Option Bool
last_word word [] = none
last_word word (e ∷ events) = or_before (last_word word events) (unless_partial e (word e.fact))

abbrev pub said : Option Bool → Bool → Bool
said none b = b
said (some a) b = a

abbrev pub waits : String → List HistoryEvent → Bool
waits call_id events = said (last_word (call_word call_id) events) false

abbrev pub is_open : String → List HistoryEvent → Bool
is_open approval_id events = said (last_word (approval_word approval_id) events) false

said_later :
    (later before : Option Bool) (b : Bool)
    → said (or_before later before) b ≡ said later (said before b)
said_later none before b = refl
said_later (some a) before b = refl

IsDict-insert : (k n : String) (d : Dict String String) → IsDict d → IsDict (insert k n d)
IsDict-insert k n [] h = (refl, tt)
IsDict-insert k n ((j, m) ∷ d) h = ground (arith, IsDict-insert k n d, lookup-insert k j n d)

has-remove :
    (k j : String) (d : Dict String String)
    → IsDict d
    → has k (remove j d) ≡ (not (k == j) && has k d)
has-remove k j [] h = ground arith
has-remove k j ((i, m) ∷ d) h = ground (arith, has-remove k j d)

IsDict-remove : (j : String) (d : Dict String String) → IsDict d → IsDict (remove j d)
IsDict-remove j [] h = tt
IsDict-remove j ((i, m) ∷ d) h = ground (arith, IsDict-remove j d, has-remove i j d)

add_calls-IsDict :
    (bs : List ReplyBlock) (d : Dict String String) → IsDict d → IsDict (add_calls bs d)
add_calls-IsDict [] d h = h
add_calls-IsDict (tool_use identity name ∷ bs) d h =
    add_calls-IsDict bs (insert identity name d) (IsDict-insert identity name d h)
add_calls-IsDict (other_block kind ∷ bs) d h = add_calls-IsDict bs d h

has-add_calls :
    (k : String) (bs : List ReplyBlock) (d : Dict String String)
    → has k (add_calls bs d) ≡ (names k bs || has k d)
has-add_calls k [] d = refl
has-add_calls k (tool_use identity name ∷ bs) d =
    ground (arith, has-add_calls k bs (insert identity name d), lookup-insert identity k name d)
has-add_calls k (other_block kind ∷ bs) d = has-add_calls k bs d

pub contains-remove_id :
    (k i : String) (ids : List String)
    → contains k (remove_id i ids) ≡ (not (k == i) && contains k ids)
contains-remove_id k i [] = ground arith
contains-remove_id k i (j ∷ ids) = ground (arith, contains-remove_id k i ids)

note_fact-IsDict :
    (fact : HistoryFact) (w : OpenWork) → IsDict w.pending → IsDict (note_fact fact w).pending
unfolding note_fact
note_fact-IsDict (responded bs) w h = add_calls-IsDict bs w.pending h
note_fact-IsDict (tool_completed call_id) w h = IsDict-remove call_id w.pending h
note_fact-IsDict (tool_abandoned a) w h = IsDict-remove a.call_id w.pending h
note_fact-IsDict _ w h = h

has-note_fact :
    (k : String) (fact : HistoryFact) (w : OpenWork)
    → IsDict w.pending
    → has k (note_fact fact w).pending ≡ said (call_word k fact) (has k w.pending)
unfolding note_fact
has-note_fact k (responded bs) w h = ground (arith, has-add_calls k bs w.pending)
has-note_fact k (tool_completed call_id) w h = ground (arith, has-remove k call_id w.pending)
has-note_fact k (tool_abandoned a) w h = ground (arith, has-remove k a.call_id w.pending)
has-note_fact k _ w h = refl

contains-note_fact :
    (k : String) (fact : HistoryFact) (w : OpenWork)
    → contains k (note_fact fact w).approvals ≡ said (approval_word k fact) (contains k w.approvals)
unfolding note_fact
contains-note_fact k (approval_required i) w = ground (arith, contains-add_id k i w.approvals)
contains-note_fact k (approval_resolved r) w =
    ground (arith, contains-remove_id k r.approval_id w.approvals)
contains-note_fact k _ w = refl

-- What the walk over a log leaves open.
abbrev pub Knows : (String → Option Bool) → (String → Option Bool) → OpenWork → OpenWork → Type 0
Knows calls approvals w v =
    IsDict v.pending
    × ((k : String) → has k v.pending ≡ said (calls k) (has k w.pending))
    × ((k : String) → contains k v.approvals ≡ said (approvals k) (contains k w.approvals))

note_event-Knows :
    (e : HistoryEvent) (w : OpenWork)
    → IsDict w.pending
    → Knows
        (λ k. unless_partial e (call_word k e.fact))
        (λ k. unless_partial e (approval_word k e.fact))
        w
        (note_event e w)
note_event-Knows e w h = elim (Bool-cases e.partial) [
  | inl skipped ↦ rw skipped (h, (λ k. refl), (λ k. refl))
  | inr seen ↦ rw seen (
    note_fact-IsDict e.fact w h,
    (λ k. has-note_fact k e.fact w h),
    (λ k. contains-note_fact k e.fact w),
  )
]

pub note_events-Knows :
    (events : List HistoryEvent) (w : OpenWork)
    → IsDict w.pending
    → Knows
        (λ k. last_word (call_word k) events)
        (λ k. last_word (approval_word k) events)
        w
        (note_events w events)
note_events-Knows [] w h = (h, (λ k. refl), (λ k. refl))
note_events-Knows (e ∷ events) w h =
    let (kept, calls, approvals) = note_event-Knows e w h in
    let (kept', calls', approvals') = note_events-Knows events (note_event e w) kept in
    (
      kept',
      (λ k.
          calls' k
          ∙ ap (said (last_word (call_word k) events)) (calls k)
          ∙ sym (said_later (last_word (call_word k) events) _ _)),
      (λ k.
          approvals' k
          ∙ ap (said (last_word (approval_word k) events)) (approvals k)
          ∙ sym (said_later (last_word (approval_word k) events) _ _)),
    )

pub note_events-append :
    (w : OpenWork) (es ds : List HistoryEvent)
    → note_events w (es ++ ds) ≡ note_events (note_events w es) ds
note_events-append w [] ds = refl
note_events-append w (e ∷ es) ds = note_events-append (note_event e w) es ds
