-- ===== src/Store/Rows.antt =====
-- The changes of rows that the operations of eventide/store.py are made of, and what each
-- operation that succeeds does, as a sequence of them.
pub mod Operations
use eventide.Prelude.{
  String, ◌≡◌, refl, sym, ◌∙◌, List, [], ◌∷◌, ◌++◌, Option, none, some, Bool, true, false, insert,
  remove, string_eq, arith, Bool-cases, Option-cases, inl, inr,
}
use eventide.Runtime.{Result, ok, ◌>>=◌, >>=-eq-ok, ok-injective, raise_if, or_raise}
use eventide.Facts.{Fact}
use eventide.Store.State.{Event, Store, Session, get_session, get_run_identity}
use eventide.Store.Log.{
  Writer, append_fact, append_all, transact_facts, append_event, finish_run, Status,
}
use eventide.Store.Log.Terminals.{transact_facts_inv}
use eventide.Store.Sessions.{
  create_session, update_session, delete_session, commit_session_metadata, has_history, reuse,
  choose_workspace, insert_session, receipt, register_default, change_metadata, clean_title,
}
use eventide.Store.Runs.{create_run, create_run_locked, admit_run, append_admissions, Admission}

-- One change of rows.
pub data Change : Store → Store → Type 0 where
  appended :
      {s s' : Store} (sid : String) (fact : Fact) (w : Writer) (e : Event)
      → append_fact s sid fact w ≡ ok (e, s')
      → Change s s'
  session_put :
      {s s' : Store} (sid : String) (row : Session)
      → s' ≡ record s { sessions = insert sid row s.sessions }
      → Change s s'
  session_removed :
      {s s' : Store} (sid : String)
      → has_history s sid ≡ false
      → s' ≡ record s { sessions = remove sid s.sessions }
      → Change s s'
  run_created :
      {s s' : Store} (rid sid : String) (continued : Option String)
      → create_run_locked s rid sid continued ≡ ok s'
      → Change s s'
  workspace_put :
      {s s' : Store} (w : String) → s' ≡ record s { workspaces = w ∷ s.workspaces } → Change s s'

-- Any number of changes.
pub data Changes (s : Store) : Store → Type 0 where
  unchanged : Changes s s
  changed : {t u : Store} → Changes s t → Change t u → Changes s u

pub Changes-trans : {s t u : Store} → Changes s t → Changes t u → Changes s u
Changes-trans a unchanged = a
Changes-trans a (changed b c) = changed (Changes-trans a b) c

pub Changes-one : {s t : Store} → Change s t → Changes s t
Changes-one c = changed unchanged c

pub Changes-eq : {s t : Store} → t ≡ s → Changes s t
Changes-eq e = rw e unchanged

pub append_fact-Changes :
    (s : Store) (sid : String) (fact : Fact) (w : Writer) (r : Event × Store)
    → append_fact s sid fact w ≡ ok r
    → Changes s r.1
append_fact-Changes s sid fact w r h = Changes-one (appended sid fact w r.0 h)

pub append_all-Changes :
    (s : Store) (sid : String) (w : Writer) (facts : List Fact) (s' : Store)
    → append_all s sid w facts ≡ ok s'
    → Changes s s'
unfolding append_all
append_all-Changes s sid w [] s' h = Changes-eq (sym (ok-injective h))
append_all-Changes s sid w (fact ∷ facts) s' h =
    let (r, one, rest) = >>=-eq-ok (append_fact s sid fact w) (λ r. append_all r.1 sid w facts) h in
    Changes-trans (append_fact-Changes s sid fact w r one)
      (append_all-Changes r.1 sid w facts s' rest)

pub transact_facts-Changes :
    {R : Type 0} (s : Store) (sid : String) (types : List String)
    (decide : List Event → Result (R × List Fact)) (w : Writer) (r : R × Store)
    → transact_facts s sid types decide w ≡ ok r
    → Changes s r.1
transact_facts-Changes s sid types decide w r h =
    let (facts, _, done) = transact_facts_inv s sid types decide w r h in
    append_all-Changes s sid w facts r.1 done

pub append_event-Changes :
    (s : Store) (rid : String) (fact : Fact) (r : Event × Store)
    → append_event s rid fact ≡ ok r
    → Changes s r.1
unfolding append_event
append_event-Changes s rid fact r h =
    let (i, _, done) = >>=-eq-ok (or_raise (get_run_identity s rid) "Run not found") _ h in
    append_fact-Changes s i.session_id fact _ r done

pub finish_run-Changes :
    (s : Store) (rid : String) (status : Status) (s' : Store)
    → finish_run s rid status ≡ ok s'
    → Changes s s'
unfolding finish_run
finish_run-Changes s rid status s' h =
    let (r, one, rest) = >>=-eq-ok (append_event s rid _) (λ r. ok r.1) h in
    rw (← ok-injective rest) (append_event-Changes s rid _ r one)

pub receipt-Changes :
    (s : Store) (sid : String) (mutation : Option (String × String)) (s' : Store)
    → receipt s sid mutation ≡ ok s'
    → Changes s s'
unfolding receipt
receipt-Changes s sid none s' h = Changes-eq (sym (ok-injective h))
receipt-Changes s sid (some (owner, identity)) s' h =
    let (a, one, h₁) = >>=-eq-ok (append_fact s owner _ _) _ h in
    let (b, two, h₂) = >>=-eq-ok (append_fact a.1 owner _ _) _ h₁ in
    rw (← ok-injective h₂) (
      Changes-trans (append_fact-Changes s owner _ _ a one)
        (append_fact-Changes a.1 owner _ _ b two))
