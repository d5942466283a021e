-- ===== src/Messages/Answers.antt =====
-- The tool results of `MessagesProjection` in eventide/projections.py.
use eventide.Prelude.{
  ◌≡◌, refl, subst, String, List, [], ◌∷◌, ◌++◌, Option, none, some, Bool, true, false, not, inl,
  inr, ◌==◌, string_eq, all, arith, Bool-cases,
}
use eventide.Runtime.{ok, ok-injective}
use eventide.Store.State.{contains}
use eventide.Messages.{
  ToolResult, Content, absent, text, blocks, Message, ToolEnd, MessageFact, said, ended, unread,
  MessageEvent, Messages, calls_in, calls_of, pending_after, result_of, remove_id, results_message,
  hand_over, read_fact, read_event, read_events, finished_messages, project_messages,
}
use eventide.Messages.Calls.{
  made_by, answers_of, within, answers_only, asked_by, within_left, within_right, within-select,
  within-contains, within-append, asked_by-append, answers_only-append, answers_in_results, ids_of,
  ids_of-append,
}

-- The state between two events.
record IsBacked (st : Messages) : Type 0 where
  answered : answers_only [] st.messages ≡ true
  waiting : within (asked_by [] st.messages) st.pending ≡ true
  kept : within (asked_by [] st.messages) (ids_of st.results) ≡ true

-- A fact whose own message holds no tool result.
abbrev is_nil : List String → Bool
is_nil [] = true
is_nil (x ∷ xs) = false

abbrev pub answers_nothing : MessageFact → Bool
answers_nothing (said none) = true
answers_nothing (said (some m)) = is_nil (answers_of m.content)
answers_nothing (ended end) = true
answers_nothing unread = true

is_nil-within : (asked ids : List String) → is_nil ids ≡ true → within asked ids ≡ true
is_nil-within asked [] h = refl
is_nil-within asked (x ∷ ids) h = absurd (ground arith)

calls_of-within :
    (asked pending : List String) (c : Content)
    → within asked pending ≡ true
    → within (asked ++ calls_of c []) (calls_of c pending) ≡ true
calls_of-within asked pending absent h = within_left asked [] pending h
calls_of-within asked pending (text t) h = within_left asked [] pending h
calls_of-within asked pending (blocks bs) h = within_right asked (calls_in bs)

-- The calls that wait after a message are its own, or those of before.
pending_after-within :
    (asked pending : List String) (m : Message)
    → within asked pending ≡ true
    → within (asked ++ made_by m) (pending_after m pending) ≡ true
pending_after-within asked pending m h = elim (Bool-cases (m.role == "assistant")) [
  | inl own ↦ rw own (calls_of-within asked pending m.content h)
  | inr other ↦ rw other (within_left asked [] pending h)
]

said-IsBacked :
    (st : Messages) (m : Message)
    → is_nil (answers_of m.content) ≡ true
    → IsBacked st
    → IsBacked (record {
      messages = st.messages ++ m ∷ [];
      pending = pending_after m st.pending;
      results = st.results;
    })
said-IsBacked st m n h = record {
  answered =
      answers_only-append [] st.messages m h.answered
        (is_nil-within (asked_by [] st.messages) (answers_of m.content) n);
  waiting =
      rw (asked_by-append [] st.messages m)
        (pending_after-within (asked_by [] st.messages) st.pending m h.waiting);
  kept =
      rw (asked_by-append [] st.messages m)
        (within_left (asked_by [] st.messages) (made_by m) (ids_of st.results) h.kept);
}

hand_over-IsBacked :
    (ms : List Message) (pending : List String) (rs : List ToolResult)
    → answers_only [] ms ≡ true
    → within (asked_by [] ms) pending ≡ true
    → within (asked_by [] ms) (ids_of rs) ≡ true
    → IsBacked (hand_over ms pending rs)
hand_over-IsBacked ms [] rs a w k = record {
  answered = answers_only-append [] ms (results_message rs) a (rw (answers_in_results rs) k);
  waiting = refl;
  kept = refl;
}
hand_over-IsBacked ms (p ∷ ps) rs a w k = record { answered = a; waiting = w; kept = k }

read_fact-IsBacked :
    (f : Option (ToolEnd → String)) (st : Messages) (fact : MessageFact)
    → answers_nothing fact ≡ true
    → IsBacked st
    → IsBacked (read_fact f st fact)
unfolding read_fact
read_fact-IsBacked f st (said none) n h = h
read_fact-IsBacked f st (said (some m)) n h = said-IsBacked st m n h
read_fact-IsBacked f st unread n h = h
read_fact-IsBacked f st (ended end) n h = elim (Bool-cases (contains end.call_id st.pending)) [
  | inr unknown ↦ rw unknown h
  | inl known ↦
      let asked = asked_by [] st.messages in
      rw known (
        hand_over-IsBacked st.messages (remove_id end.call_id st.pending)
          (st.results ++ result_of f end ∷ []) h.answered
          (within-select asked st.pending (λ p. not (p == end.call_id)) h.waiting)
          (rw (ids_of-append st.results (result_of f end)) (
            within-append asked (ids_of st.results) end.call_id h.kept
              (within-contains asked st.pending end.call_id h.waiting known))))
]

read_events-IsBacked :
    (f : Option (ToolEnd → String)) (st : Messages) (events : List MessageEvent)
    → all (λ e. answers_nothing e.fact) events ≡ true
    → IsBacked st
    → IsBacked (read_events f st events)
read_events-IsBacked f st [] n h = h
read_events-IsBacked f st (e ∷ es) n h =
    read_events-IsBacked f (read_event f st e) es (ground arith) (elim (Bool-cases e.partial) [
      | inl skipped ↦ rw skipped h
      | inr seen ↦ rw seen (read_fact-IsBacked f st e.fact (ground arith) h)
    ])

finished_messages_inv :
    (ms messages : List Message) (pending : List String)
    → finished_messages ms pending ≡ ok messages
    → ms ≡ messages
finished_messages_inv ms messages [] h = ok-injective h
finished_messages_inv ms messages (p ∷ ps) h = absurd (ground arith)

-- In a log whose own messages hold no tool results, every tool result of the messages that
-- `project` returns answers a call that an assistant message before it makes.
pub project_messages-answers_only :
    (f : Option (ToolEnd → String)) (events : List MessageEvent) (messages : List Message)
    → all (λ e. answers_nothing e.fact) events ≡ true
    → project_messages f events ≡ ok messages
    → answers_only [] messages ≡ true
unfolding project_messages
project_messages-answers_only f events messages n h =
    let st = read_events f (record { messages = []; pending = []; results = [] }) events in
    let backed =
      read_events-IsBacked f (record { messages = []; pending = []; results = [] }) events n
        (record { answered = refl; waiting = refl; kept = refl }) in
    subst (λ ms. answers_only [] ms ≡ true)
      (finished_messages_inv st.messages messages st.pending h) backed.answered
