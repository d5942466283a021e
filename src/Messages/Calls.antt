-- ===== src/Messages/Calls.antt =====
-- The calls and the answers in messages, for `MessagesProjection` in eventide/projections.py.
use eventide.Prelude.{
  ◌≡◌, refl, ap, String, List, [], ◌∷◌, ◌++◌, Bool, true, ◌&&◌, ◌||◌, string_eq, select, map, all,
  all-append, all_mono, arith,
}
use eventide.Store.State.{contains}
use eventide.Messages.{
  ToolResult, Block, tool_use, tool_result, other_block, Content, absent, text, blocks, Message,
  pending_after,
}

-- The calls that a message makes, and those that it answers.
abbrev pub made_by : Message → List String
made_by m = pending_after m []

abbrev pub answers_in : List Block → List String
answers_in [] = []
answers_in (tool_use identity ∷ bs) = answers_in bs
answers_in (tool_result r ∷ bs) = r.tool_use_id ∷ answers_in bs
answers_in (other_block kind ∷ bs) = answers_in bs

abbrev pub answers_of : Content → List String
answers_of absent = []
answers_of (text t) = []
answers_of (blocks bs) = answers_in bs

abbrev pub within : List String → List String → Bool
within asked = all (λ identity. contains identity asked)

-- Every message answers only calls that were asked, or are made by a message before it.
abbrev pub answers_only : List String → List Message → Bool
answers_only asked [] = true
answers_only asked (m ∷ ms) =
    within asked (answers_of m.content) && answers_only (asked ++ made_by m) ms

abbrev pub asked_by : List String → List Message → List String
asked_by asked [] = asked
asked_by asked (m ∷ ms) = asked_by (asked ++ made_by m) ms

contains-append :
    (k : String) (xs ys : List String) → contains k (xs ++ ys) ≡ (contains k xs || contains k ys)
contains-append k [] ys = refl
contains-append k (x ∷ xs) ys = ground (arith, contains-append k xs ys)

pub within_left : (xs ys ids : List String) → within xs ids ≡ true → within (xs ++ ys) ids ≡ true
within_left xs ys ids h =
    all_mono (λ k. contains k xs) (λ k. contains k (xs ++ ys)) ids
      (λ k. λ i. ground (arith, contains-append k xs ys)) h

within_cons :
    (y : String) (ys ids : List String) → within ys ids ≡ true → within (y ∷ ys) ids ≡ true
within_cons y ys ids h =
    all_mono (λ k. contains k ys) (λ k. contains k (y ∷ ys)) ids (λ k. λ i. ground arith) h

within_self : (ids : List String) → within ids ids ≡ true
within_self [] = refl
within_self (x ∷ ids) = ground (arith, within_cons x ids ids (within_self ids))

pub within_right : (xs ids : List String) → within (xs ++ ids) ids ≡ true
within_right [] ids = within_self ids
within_right (x ∷ xs) ids = within_cons x (xs ++ ids) ids (within_right xs ids)

pub within-select :
    (asked ids : List String) (p : String → Bool)
    → within asked ids ≡ true
    → within asked (select p ids) ≡ true
within-select asked [] p h = refl
within-select asked (x ∷ ids) p h = ground (arith, within-select asked ids p)

pub within-contains :
    (asked ids : List String) (k : String)
    → within asked ids ≡ true
    → contains k ids ≡ true
    → contains k asked ≡ true
within-contains asked [] k h c = absurd (ground arith)
within-contains asked (x ∷ ids) k h c = ground (arith, within-contains asked ids k)

pub within-append :
    (asked ids : List String) (k : String)
    → within asked ids ≡ true
    → contains k asked ≡ true
    → within asked (ids ++ k ∷ []) ≡ true
within-append asked ids k h c = rw (all-append (λ i. contains i asked) ids (k ∷ []), h, c) refl

pub asked_by-append :
    (asked : List String) (ms : List Message) (m : Message)
    → asked_by asked (ms ++ m ∷ []) ≡ asked_by asked ms ++ made_by m
asked_by-append asked [] m = refl
asked_by-append asked (n ∷ ms) m = asked_by-append (asked ++ made_by n) ms m

pub answers_only-append :
    (asked : List String) (ms : List Message) (m : Message)
    → answers_only asked ms ≡ true
    → within (asked_by asked ms) (answers_of m.content) ≡ true
    → answers_only asked (ms ++ m ∷ []) ≡ true
answers_only-append asked [] m h w = ground arith
answers_only-append asked (n ∷ ms) m h w =
    ground (arith, answers_only-append (asked ++ made_by n) ms m)

pub answers_in_results :
    (rs : List ToolResult)
    → answers_in (map tool_result rs) ≡ map (λ (r : ToolResult). r.tool_use_id) rs
answers_in_results [] = refl
answers_in_results (r ∷ rs) = ap (λ ids. r.tool_use_id ∷ ids) (answers_in_results rs)

abbrev pub ids_of : List ToolResult → List String
ids_of = map (λ r. r.tool_use_id)

pub ids_of-append :
    (rs : List ToolResult) (r : ToolResult)
    → ids_of (rs ++ r ∷ []) ≡ ids_of rs ++ r.tool_use_id ∷ []
ids_of-append [] r = refl
ids_of-append (q ∷ rs) r = ap (λ ids. q.tool_use_id ∷ ids) (ids_of-append rs r)
