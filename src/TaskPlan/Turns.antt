-- ===== src/TaskPlan/Turns.antt =====
-- The identity that a turn of the loop of `plan_update` in eventide/task_plan.py gives to an item.
use eventide.Prelude.{
  ℕ, suc, ◌≡◌, refl, sym, ap, subst, ◌⊎◌, inl, inr, String, List, [], ◌∷◌, ◌++◌, Option, none, some,
  Bool, true, false, not, Dict, lookup, has, string_eq, arith, Option-cases,
}
use eventide.Runtime.{ok, >>=-eq-ok, raise_if-bind, ok-injective}
use eventide.Store.State.{contains}
use eventide.TaskPlan.Items.{
  Todo, TodoStatus, Value, null, string_value, list_value, anything_else, Fields, RawItem, get,
  fields_of, content_of, status_of, item, is_task_id, claimed_summary, stripped_summary,
  dependencies_of,
}
use eventide.TaskPlan.Updates.{Progress, task_label, reusable, identify, plan_item}

reusable-has :
    (claimed : List String) (content : String) (available : Dict String Todo) (known : String)
    → reusable claimed content available ≡ some known
    → (has known available ≡ true) × (contains known claimed ≡ false)
unfolding reusable
reusable-has claimed content [] known h = cc
reusable-has claimed content ((k, t) ∷ available) known h = (
  ground (arith, reusable-has claimed content available known),
  ground (arith, reusable-has claimed content available known),
)

-- An identity is kept, or it is new.
abbrev pub IsIssued : Dict String Todo → Progress → String → ℕ → Type 0
IsIssued available p id seq =
    ((has id available ≡ true) × (contains id p.claimed ≡ false) × (seq ≡ p.sequence))
    ⊎ ((id ≡ task_label p.sequence) × (seq ≡ suc p.sequence))

identify-IsIssued :
    (available : Dict String Todo) (p : Progress) (v : Option Value) (content id : String) (seq : ℕ)
    → identify available p v content ≡ ok (id, seq)
    → IsIssued available p id seq
unfolding identify
identify-IsIssued available p none content id seq h =
    elim (Option-cases (reusable p.claimed content available)) [
      | inl new ↦
          let done : ◌≡◌ {A = String × ℕ} (task_label p.sequence, suc p.sequence) (id, seq) =
            ground arith in
          inr (sym (ap (λ (r : String × ℕ). r.0) done), sym (ap (λ (r : String × ℕ). r.1) done))
      | inr (known, found) ↦
          let done : ◌≡◌ {A = String × ℕ} (known, p.sequence) (id, seq) = ground arith in
          let (there, free) = reusable-has p.claimed content available known found in
          kept available p known id seq there free done
    ]
  where
    kept :
        (available : Dict String Todo) (p : Progress) (known id : String) (seq : ℕ)
        → has known available ≡ true
        → contains known p.claimed ≡ false
        → ◌≡◌ {A = String × ℕ} (known, p.sequence) (id, seq)
        → IsIssued available p id seq
    kept available p known id seq there free done =
        let it : known ≡ id = ap (λ (r : String × ℕ). r.0) done in
        inl (rw (← it) there, rw (← it) free, sym (ap (λ (r : String × ℕ). r.1) done))
identify-IsIssued available p (some (string_value task_id)) content id seq h =
    let (_, h₁) = raise_if-bind (not (is_task_id task_id)) _ _ h in
    let (there, h₂) = raise_if-bind (not (has task_id available)) _ _ h₁ in
    let (free, h₃) = raise_if-bind (contains task_id p.claimed) _ _ h₂ in
    let done : ◌≡◌ {A = String × ℕ} (task_id, p.sequence) (id, seq) = ok-injective h₃ in
    let it : task_id ≡ id = ap (λ (r : String × ℕ). r.0) done in
    inl (
      rw (← it) (not-false (has task_id available) there),
      rw (← it) free,
      sym (ap (λ (r : String × ℕ). r.1) done),
    )
  where
    not-false : (b : Bool) → not b ≡ false → b ≡ true
    not-false true h = refl
    not-false false h = cc
identify-IsIssued available p (some null) content id seq h = cc
identify-IsIssued available p (some (list_value ds)) content id seq h = cc
identify-IsIssued available p (some anything_else) content id seq h = cc

item-id :
    (task_id content : String) (status : TodoStatus) (f : Fields) (prior : Option Todo)
    (todo : Todo)
    → item task_id content status f prior ≡ ok todo
    → todo.id ≡ task_id
unfolding item
item-id task_id content status f prior todo h =
    let (claimed, _, h₁) = >>=-eq-ok (claimed_summary status (get f.summary) prior) _ h in
    let (summary, _, h₂) = >>=-eq-ok (stripped_summary claimed) _ h₁ in
    let (depends_on, _, h₃) = >>=-eq-ok (dependencies_of task_id f.depends_on prior) _ h₂ in
    sym (ap (λ (t : Todo). t.id) (ok-injective h₃))

-- What one turn of the loop adds.
pub record Added (available : Dict String Todo) (p q : Progress) : Type 0 where
  pub todo : Todo
  pub todos : q.todos ≡ p.todos ++ todo ∷ []
  pub claimed : q.claimed ≡ todo.id ∷ p.claimed
  pub issued : IsIssued available p todo.id q.sequence

-- The variables after a turn.
abbrev advance : Progress → Todo → String → String → ℕ → Progress
advance p todo content task_id seq = record {
  sequence = seq;
  todos = p.todos ++ todo ∷ [];
  seen_content = content ∷ p.seen_content;
  claimed = task_id ∷ p.claimed;
}

advance-Added :
    (available : Dict String Todo) (p q : Progress) (todo : Todo) (content task_id : String)
    (seq : ℕ)
    → advance p todo content task_id seq ≡ q
    → todo.id ≡ task_id
    → IsIssued available p todo.id seq
    → Added available p q
advance-Added available p q todo content task_id seq after same issued = rw (← after) (record {
  todo = todo;
  todos = refl;
  claimed = ap (λ k. k ∷ p.claimed) (sym same);
  issued = issued;
})

pub plan_item-Added :
    (available : Dict String Todo) (p : Progress) (raw : RawItem) (q : Progress)
    → plan_item available p raw ≡ ok q
    → Added available p q
unfolding plan_item
plan_item-Added available p raw q h =
    let (f, _, h₁) = >>=-eq-ok (fields_of raw) _ h in
    let (content, _, h₂) = >>=-eq-ok (content_of f.content) _ h₁ in
    let (_, h₃) = raise_if-bind (contains content p.seen_content) _ _ h₂ in
    let (status, _, h₄) = >>=-eq-ok (status_of f.status) _ h₃ in
    let ((task_id, seq), identified, h₅) =
      >>=-eq-ok (identify available p (get f.id) content) _ h₄ in
    let (todo, made, h₆) =
      >>=-eq-ok (item task_id content status f (lookup task_id available)) _ h₅ in
    let issued = identify-IsIssued available p (get f.id) content task_id seq identified in
    let same = item-id task_id content status f (lookup task_id available) todo made in
    advance-Added available p q todo content task_id seq (ok-injective h₆) same
      (subst (λ k. IsIssued available p k seq) (sym same) issued)
