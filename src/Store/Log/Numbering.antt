-- ===== src/Store/Log/Numbering.antt =====
-- The sequence numbers of a session in the log of eventide/store.py.
use eventide.Prelude.{
  ℕ, zero, suc, ◌+◌, max, String, ◌≡◌, refl, inl, inr, List, [], ◌∷◌, ◌++◌, ◌==◌, ==_iff, ap, ◌∙◌,
  string_eq, arith, Bool-cases, length, length-append, select-append,
}
use mathlib.Core.List.{append-nil}
use native.Mathlib.Numerals.{add-one}
use eventide.Runtime.{ok}
use eventide.Facts.{Fact}
use eventide.Store.State.{Event, Store, session_events, max_seq}
use eventide.Store.Log.{Writer, new_event, append_fact}
use eventide.Store.Log.Cases.{append_fact-Appended}

-- 1, 2, …, n
abbrev pub upto : ℕ → List ℕ
upto zero = []
upto (suc n) = upto n ++ suc n ∷ []

abbrev pub seqs : List Event → List ℕ
seqs [] = []
seqs (e ∷ events) = e.session_seq ∷ seqs events

-- The events of every session are numbered from 1, in the order of the log.
pub record IsNumbered (events : List Event) : Type 0 where
  pub at :
      (sid : String) → seqs (session_events events sid) ≡ upto (length (session_events events sid))

seqs-append : (xs ys : List Event) → seqs (xs ++ ys) ≡ seqs xs ++ seqs ys
seqs-append [] ys = refl
seqs-append (x ∷ xs) ys = ground (arith, seqs-append xs ys)

abbrev max_of : List ℕ → ℕ
max_of [] = 0
max_of (n ∷ ns) = max n (max_of ns)

max_seq-seqs : (events : List Event) → max_seq events ≡ max_of (seqs events)
max_seq-seqs [] = refl
max_seq-seqs (e ∷ events) = ground (arith, max_seq-seqs events)

max_of-append : (xs : List ℕ) (n : ℕ) → max_of (xs ++ n ∷ []) ≡ max n (max_of xs)
max_of-append [] n = refl
max_of-append (x ∷ xs) n = omega (arith, max_of-append xs n)

max_of-upto : (n : ℕ) → max_of (upto n) ≡ n
max_of-upto zero = refl
max_of-upto (suc n) = omega (arith, max_of-append (upto n) (suc n), max_of-upto n)

-- The next number is one more than the number of events of the session.
pub max_seq-length :
    (events : List Event) (sid : String)
    → IsNumbered events
    → max_seq (session_events events sid) ≡ length (session_events events sid)
max_seq-length events sid h =
    rw (max_seq-seqs, h.at sid) (max_of-upto (length (session_events events sid)))

session_events-push :
    (events : List Event) (e : Event) (sid : String)
    → session_events (events ++ e ∷ []) sid
      ≡ session_events events sid ++ session_events (e ∷ []) sid
session_events-push events e sid = select-append (λ x. x.session_id == sid) events (e ∷ [])

extend :
    (xs : List Event) (e : Event)
    → e.session_seq ≡ length xs + 1
    → seqs xs ≡ upto (length xs)
    → seqs (xs ++ e ∷ []) ≡ upto (length (xs ++ e ∷ []))
extend xs e next h = rw (seqs-append xs (e ∷ []), length-append xs (e ∷ []), h, next, add-one) refl

-- A row with the next number of its session keeps the numbering of every session.
pub push-IsNumbered :
    (events : List Event) (e : Event)
    → e.session_seq ≡ max_seq (session_events events e.session_id) + 1
    → IsNumbered events
    → IsNumbered (events ++ e ∷ [])
push-IsNumbered events e next h = record {
  at = λ sid. rw (session_events-push events e sid) (elim (Bool-cases (e.session_id == sid)) [
    | inl same ↦
        let e_sid : e.session_id ≡ sid = (==_iff e.session_id sid).0 same in
        rw same (
          extend (session_events events sid) e
            (next
              ∙ ap (λ n. max_seq (session_events events n) + 1) e_sid
              ∙ ap (λ n. n + 1) (max_seq-length events sid h))
            (h.at sid))
    | inr other ↦ rw (other, append-nil) (h.at sid)
  ]);
}

pub append_fact-IsNumbered :
    (s : Store) (sid : String) (fact : Fact) (w : Writer) (r : Event × Store)
    → append_fact s sid fact w ≡ ok r
    → IsNumbered s.events
    → IsNumbered r.1.events
unfolding new_event
append_fact-IsNumbered s sid fact w r h n = elim (append_fact-Appended s sid fact w r h) [
  | inl (same, _) ↦ rw same n
  | inr (t, row, after, _) ↦ rw after (push-IsNumbered s.events r.0 (rw row refl) n)
]
